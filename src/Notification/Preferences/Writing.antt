-- ===== src/Notification/Preferences/Writing.antt =====
-- Every call of the use case keeps the stored preferences fit for a delivery.
use video_processor.Prelude.{ℕ, Text, Bool, Option, [], ◌≢◌}
use video_processor.Redis.{Fate}
use video_processor.Notification.Policy.{Url, Addr}
use video_processor.Notification.Channels.{MailAddress}
use video_processor.Notification.Preferences.{Table}
use video_processor.Notification.Preferences.Queries.{set_preference}

module _ (parse_url : Text → Option Url) (parse_mail : Text → Option MailAddress)
    (parse_addr : Text → Option Addr) where
  -- A table that calls of the use case made, with any input and whatever came of the statements.
  pub data Written : Table → Type 0 where
    nothing_written : Written []
    written :
        {table : Table} (f : Fate) (now : ℕ) (insecure enabled : Bool)
        (user type channel destination : Text) (secret : Option Text)
        → now ≢ 0
        → Written table
        → Written
            (set_preference parse_url parse_mail parse_addr f now insecure user type channel enabled
              destination secret table).1
