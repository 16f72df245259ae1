-- ===== src/Witnesses.antt =====
-- The theorems at concrete inputs: one job from its upload to its result, and the stores beside it.
mod World
mod Histories
mod Runs
mod Stores
mod Keys
mod Uploads
mod Caches
mod Limits
mod Notices
mod Relays
mod Settings
mod Accounts
mod Requests
mod Messages
