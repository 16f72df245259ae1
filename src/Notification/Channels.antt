-- ===== src/Notification/Channels.antt =====
-- internal/notification/domain: the closed sets and the values of a preference. A value is the
-- string that its struct wraps, and the empty string is the unset one. `url.Parse` and
-- `mail.ParseAddress` are parameters.
use video_processor.Prelude.{
  ℕ, Text, codes, is_empty, text_eq, Bool, true, false, not, ◌&&◌, ◌||◌, ◌==◌, ltb, length,
  if◌then◌else◌, Option, none, some, [], ◌∷◌,
}
use video_processor.Errors.{
  Result, sentinel, ok, err, ◌>>◌, refuse_if, invalid_destination, invalid_secret,
  invalid_event_type, invalid_channel, invalid_notification_user_id,
}
use video_processor.Notification.Policy.{Url}

abbrev pub webhook : Text
webhook = codes "webhook"

abbrev pub email : Text
email = codes "email"

abbrev pub completed_type : Text
completed_type = codes "video_job.completed.v1"

abbrev pub failed_type : Text
failed_type = codes "video_job.failed.v1"

unfoldable pub new_user_id : Text → Result Text
new_user_id value = if is_empty value then err (sentinel invalid_notification_user_id) else ok value

unfoldable pub parse_event_type : Text → Result Text
parse_event_type raw =
    if text_eq raw completed_type || text_eq raw failed_type
    then ok raw
    else err (sentinel invalid_event_type)

unfoldable pub parse_channel : Text → Result Text
parse_channel raw =
    if text_eq raw webhook || text_eq raw email then ok raw else err (sentinel invalid_channel)

unfoldable pub signs : Text → Bool
signs channel = text_eq channel webhook

-- `MinSecretLength`
abbrev pub min_secret_length : ℕ
min_secret_length = 16

-- `strings.IndexByte(raw, 0) >= 0`
unfoldable pub has_nul : Text → Bool
has_nul [] = false
has_nul (c ∷ s) = c == 0 || has_nul s

unfoldable pub new_secret : Text → Result Text
new_secret raw =
    if ltb (length raw) min_secret_length
    then err (sentinel invalid_secret)
    else if has_nul raw
    then err (sentinel invalid_secret)
    else ok raw

-- What `mail.ParseAddress` finds.
pub record MailAddress : Type 0 where
  pub name : Text
  pub address : Text

abbrev pub max_email_address_bytes : ℕ
max_email_address_bytes = 254

-- Each byte from '!' to '~'.
unfoldable pub is_printable : Text → Bool
is_printable [] = true
is_printable (c ∷ s) = if ltb c 33 || ltb 126 c then false else is_printable s

module _ (parse_url : Text → Option Url) (parse_mail : Text → Option MailAddress) where
  abbrev pub check_url : Text → Option Url → Result Text
  check_url raw none = err (sentinel invalid_destination)
  check_url raw (some u) = do
    refuse_if (not (text_eq u.scheme (codes "http")) && not (text_eq u.scheme (codes "https")))
        invalid_destination
    refuse_if (is_empty u.hostname) invalid_destination
    ok raw

  unfoldable pub new_destination : Text → Result Text
  new_destination raw = do
    refuse_if (is_empty raw) invalid_destination
    check_url raw (parse_url raw)

  abbrev pub check_mail : Text → Option MailAddress → Result Text
  check_mail raw none = err (sentinel invalid_destination)
  check_mail raw (some m) =
      refuse_if (not (is_empty m.name) || not (text_eq m.address raw)) invalid_destination >> ok raw

  unfoldable pub parse_email_address : Text → Result Text
  parse_email_address raw = do
    refuse_if (is_empty raw || ltb max_email_address_bytes (length raw)) invalid_destination
    refuse_if (not (is_printable raw)) invalid_destination
    check_mail raw (parse_mail raw)

  unfoldable pub new_destination_for : Text → Text → Result Text
  new_destination_for channel raw =
      if text_eq channel webhook
      then new_destination raw
      else if text_eq channel email
      then parse_email_address raw
      else err (sentinel invalid_destination)
