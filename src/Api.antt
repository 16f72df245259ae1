-- ===== src/Api.antt =====
-- cmd/video-api/video.go: the handlers of the video routes, each from the values that it reads out of
-- the request to the response that it writes. `user` is what the bearer check left in the context.
pub mod Jobs
pub mod Download
pub mod Listings
pub mod Pages
pub mod Complete
pub mod Parts
pub mod Reservation
pub mod Upload
pub mod Entitlement
pub mod Waiting
pub mod Sources
