-- ===== src/Witnesses/Settings.antt =====
-- The theorems on destinations and preferences, at one webhook and one mail preference.
use video_processor.Prelude.{
  Text, codes, text_eq, true, false, ◌≡◌, ◌≢◌, ◌↔◌, Option, none, some, [], ◌∷◌, map, if◌then◌else◌,
}
use video_processor.Errors.{ok}
use video_processor.Redis.{heard}
use video_processor.Notification.Policy.{
  Addr, invalid, ipv6, unwrap_embedded_ipv4, refused_prefixes, any_contains, check_addr, Url,
}
use video_processor.Notification.Policy.Table.{zone_of, check_addr_iff}
use video_processor.Notification.Channels.{MailAddress, webhook, completed_type}
use video_processor.Notification.Preferences.{NotificationPreference, Table}
use video_processor.Notification.Preferences.Queries.{list_by_user, set_preference}
use video_processor.Notification.Preferences.Disclosure.{redacted, list_by_user-redacted}

-- ::ffff:10.0.0.1
abbrev mapped : Addr
mapped = ipv6 0 0xffff0a000001 []

check_addr_iff_example : (check_addr false mapped ≡ ok tt) ↔ (
    (mapped ≢ invalid)
    × (zone_of mapped ≡ [])
    × (any_contains refused_prefixes (unwrap_embedded_ipv4 mapped) ≡ false))
check_addr_iff_example = check_addr_iff mapped

abbrev hook : Text
hook = codes "https://example.com/hook"

abbrev parse_url : Text → Option Url
parse_url s =
    if text_eq s hook
    then some (record { scheme = codes "https"; hostname = codes "example.com" })
    else none

abbrev parse_mail : Text → Option MailAddress
parse_mail s = some (record { name = []; address = s })

abbrev parse_addr : Text → Option Addr
parse_addr s = none

abbrev row : NotificationPreference
row = record {
  user_id = codes "user-1";
  event_type = completed_type;
  channel = webhook;
  enabled = true;
  destination = hook;
  secret = codes "0123456789abcdef";
  created_at = 7;
  updated_at = 7;
}

list_by_user-redacted_example :
    list_by_user parse_url parse_mail none (codes "user-1") (map redacted (row ∷ []))
    ≡ list_by_user parse_url parse_mail none (codes "user-1") (row ∷ [])
list_by_user-redacted_example =
    list_by_user-redacted parse_url parse_mail none (codes "user-1") (row ∷ [])

-- A webhook preference, and its destination set again without the secret.
abbrev twice : Table
twice =
    (set_preference parse_url parse_mail parse_addr heard 9 false (codes "user-1") completed_type
      webhook true hook none
      (set_preference parse_url parse_mail parse_addr heard 7 false (codes "user-1") completed_type
        webhook true hook (some (codes "0123456789abcdef")) []).1).1
