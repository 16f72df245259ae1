-- ===== src/Notification/Preferences.antt =====
-- internal/notification: the preferences of internal/notification/domain/notification_preference.go,
-- the table and statements of internal/notification/infrastructure/postgres/repository.go, and the
-- two use cases on them.
pub mod Queries
pub mod Disclosure
pub mod Servable
pub mod Statements
pub mod Writing
use video_processor.Prelude.{
  ℕ, ltb, Text, codes, is_empty, text_eq, Bool, true, false, not, ◌&&◌, ◌||◌, ◌==◌, if◌then◌else◌,
  Option, none, some, List, [], ◌∷◌,
}
use video_processor.Errors.{
  Error, Result, sentinel, plain, ok, err, ◌>>=◌, ◌>>◌, refuse_if, invalid_secret, secret_required,
  preference_user_id_required, preference_event_type_required, preference_channel_required,
  preference_destination_required, preference_timestamps_required,
}
use video_processor.Redis.{Fate, heard, unreached, unheard, settled}
use video_processor.Notification.Policy.{Url, Addr, check_destination}
use video_processor.Notification.Channels.{
  webhook, new_user_id, parse_event_type, parse_channel, signs, new_secret, MailAddress,
  new_destination_for,
}

pub record PreferenceIntent : Type 0 where
  pub user_id : Text
  pub event_type : Text
  pub channel : Text
  pub enabled : Bool
  pub destination : Text
  pub secret : Option Text

abbrev is_zero_secret : Option Text → Bool
is_zero_secret none = false
is_zero_secret (some s) = is_empty s

unfoldable pub new_preference_intent :
    Text → Text → Text → Bool → Text → Option Text → Result PreferenceIntent
new_preference_intent user type channel enabled destination secret = do
  refuse_if (is_empty user) preference_user_id_required
  refuse_if (is_empty type) preference_event_type_required
  refuse_if (is_empty channel) preference_channel_required
  refuse_if (is_empty destination) preference_destination_required
  refuse_if (is_zero_secret secret) invalid_secret
  ok (record {
    user_id = user;
    event_type = type;
    channel = channel;
    enabled = enabled;
    destination = destination;
    secret = secret;
  })

-- The aggregate, and a row of the table, which has the same columns.
pub record NotificationPreference : Type 0 where
  pub user_id : Text
  pub event_type : Text
  pub channel : Text
  pub enabled : Bool
  pub destination : Text
  pub secret : Text
  pub created_at : ℕ
  pub updated_at : ℕ

unfoldable pub restore_notification_preference :
    Text → Text → Text → Bool → Text → Text → ℕ → ℕ → Result NotificationPreference
restore_notification_preference user type channel enabled destination secret created updated = do
  refuse_if (is_empty user) preference_user_id_required
  refuse_if (is_empty type) preference_event_type_required
  refuse_if (is_empty channel) preference_channel_required
  refuse_if (is_empty destination) preference_destination_required
  refuse_if (signs channel && is_empty secret) invalid_secret
  refuse_if (created == 0 || updated == 0) preference_timestamps_required
  ok (record {
    user_id = user;
    event_type = type;
    channel = channel;
    enabled = enabled;
    destination = destination;
    secret = secret;
    created_at = created;
    updated_at = updated;
  })

pub record PreferenceView : Type 0 where
  pub user_id : Text
  pub event_type : Text
  pub channel : Text
  pub enabled : Bool
  pub destination : Text
  pub has_secret : Bool
  pub created_at : ℕ
  pub updated_at : ℕ

abbrev pub Table : Type 0
Table = List NotificationPreference

unfoldable pub is_of : PreferenceIntent → NotificationPreference → Bool
is_of i r =
    text_eq r.user_id i.user_id
    && (text_eq r.event_type i.event_type && text_eq r.channel i.channel)

unfoldable pub find_preference : PreferenceIntent → Table → Option NotificationPreference
find_preference i [] = none
find_preference i (r ∷ table) = if is_of i r then some r else find_preference i table

-- The primary key is the triple, so a statement changes one row.
unfoldable pub put_preference : PreferenceIntent → NotificationPreference → Table → Table
put_preference i new [] = []
put_preference i new (r ∷ table) = if is_of i r then new ∷ table else r ∷ put_preference i new table

abbrev pub inserted : PreferenceIntent → Text → ℕ → NotificationPreference
inserted i secret now = record {
  user_id = i.user_id;
  event_type = i.event_type;
  channel = i.channel;
  enabled = i.enabled;
  destination = i.destination;
  secret = secret;
  created_at = now;
  updated_at = now;
}

abbrev pub updated : PreferenceIntent → ℕ → NotificationPreference → NotificationPreference
updated i now r = record r { enabled = i.enabled; destination = i.destination; updated_at = now }

-- What a statement returns: no row, or the row as it stands, with the table.
abbrev pub Statement : Type 0
Statement = Option NotificationPreference × Table

abbrev pub upsert : PreferenceIntent → Text → ℕ → Table → Option NotificationPreference → Statement
upsert i secret now table none = (some (inserted i secret now), inserted i secret now ∷ table)
upsert i secret now table (some r) = (
  some (record (updated i now r) { secret = secret }),
  put_preference i (record (updated i now r) { secret = secret }) table,
)

abbrev pub upsert_on_non_signing :
    PreferenceIntent → ℕ → Table → Option NotificationPreference → Statement
upsert_on_non_signing i now table none = (some (inserted i [] now), inserted i [] now ∷ table)
upsert_on_non_signing i now table (some r) =
    (some (updated i now r), put_preference i (updated i now r) table)

abbrev pub update_preference :
    PreferenceIntent → ℕ → Table → Option NotificationPreference → Statement
update_preference i now table none = (none, table)
update_preference i now table (some r) =
    (some (updated i now r), put_preference i (updated i now r) table)

-- The constraint of the table, on the row that an insert proposes.
abbrev pub checked : Bool → Statement → Table → Result (Option NotificationPreference) × Table
checked true (row, new) old = (ok row, new)
checked false (row, new) old = (err (plain (codes "check constraint")), old)

abbrev pub run_statement :
    PreferenceIntent → ℕ → Table → Option Text → Result (Option NotificationPreference) × Table
run_statement i now table (some secret) =
    checked (not (text_eq i.channel webhook) || not (is_empty secret))
      (upsert i secret now table (find_preference i table)) table
run_statement i now table none =
    if signs i.channel
    then checked true (update_preference i now table (find_preference i table)) table
    else checked (not (text_eq i.channel webhook))
        (upsert_on_non_signing i now table (find_preference i table)) table

-- A statement that may not reach the server, or whose answer may be lost.
abbrev pub driven :
    Fate
    → Table
    → Result (Option NotificationPreference) × Table
    → Result (Option NotificationPreference) × Table
driven heard old (a, new) = (a, new)
driven (unreached e) old (a, new) = (err e, old)
driven (unheard e) old (a, new) = (err e, new)

-- `refusesWithoutSecret`
abbrev pub refuses_without_secret : PreferenceIntent → Bool
refuses_without_secret i = elim i.secret [ none ↦ signs i.channel | some s ↦ false ]
