-- ===== src/Notification/Preferences/Queries.antt =====
-- `Set`, `ListByUser` and `FindDeliverable` of internal/notification/infrastructure/postgres/
-- repository.go, and the use cases of internal/notification/application/set_preference.go and
-- list_preferences.go.
use video_processor.Prelude.{
  ℕ, ltb, Text, codes, is_empty, text_eq, Bool, true, false, not, ◌&&◌, if◌then◌else◌, Option, none,
  some, List, [], ◌∷◌,
}
use video_processor.Errors.{Error, Result, sentinel, plain, ok, err, ◌>>=◌, ◌>>◌, secret_required}
use video_processor.Redis.{Fate}
use video_processor.Notification.Policy.{Url, Addr, check_destination}
use video_processor.Notification.Channels.{
  webhook, new_user_id, parse_event_type, parse_channel, signs, new_secret, MailAddress,
  new_destination_for,
}
use video_processor.Notification.Preferences.{
  PreferenceIntent, new_preference_intent, NotificationPreference, restore_notification_preference,
  PreferenceView, Table, run_statement, driven, refuses_without_secret,
}

-- `row.Scan` of the returned columns; `sql.ErrNoRows` is a row that is absent.
abbrev pub scanned_row :
    PreferenceIntent → Result (Option NotificationPreference) → Result NotificationPreference
scanned_row i (err e) = err e
scanned_row i (ok none) =
    if not (refuses_without_secret i)
    then err (plain (codes "upsert returned no row"))
    else err (sentinel secret_required)
scanned_row i (ok (some r)) = ok r

-- The columns that a list of the table is made of, the secret as `secret <> ''` alone.
abbrev pub view_of : Text → Text → Text → Text → NotificationPreference → PreferenceView
view_of user type channel destination r = record {
  user_id = user;
  event_type = type;
  channel = channel;
  enabled = r.enabled;
  destination = destination;
  has_secret = not (is_empty r.secret);
  created_at = r.created_at;
  updated_at = r.updated_at;
}

-- The bytes of two texts in order.
unfoldable pub text_leb : Text → Text → Bool
text_leb [] t = true
text_leb (c ∷ s) [] = false
text_leb (c ∷ s) (d ∷ t) = if ltb c d then true else if ltb d c then false else text_leb s t

-- `ORDER BY event_type, channel`
abbrev pub before : NotificationPreference → NotificationPreference → Bool
before r s =
    if text_eq r.event_type s.event_type
    then text_leb r.channel s.channel
    else text_leb r.event_type s.event_type

unfoldable pub insert_ordered : NotificationPreference → Table → Table
insert_ordered r [] = r ∷ []
insert_ordered r (s ∷ rows) = if before r s then r ∷ s ∷ rows else s ∷ insert_ordered r rows

unfoldable pub rows_of_user : Text → Table → Table
rows_of_user user [] = []
rows_of_user user (r ∷ rows) =
    let rest = rows_of_user user rows in
    if text_eq r.user_id user then insert_ordered r rest else rest

-- `WHERE user_id = .. AND event_type = .. AND enabled ORDER BY channel`; one event type is left, so
-- that the order is that of the channels.
unfoldable pub deliverable_rows : Text → Text → Table → Table
deliverable_rows user type [] = []
deliverable_rows user type (r ∷ rows) =
    let rest = deliverable_rows user type rows in
    if text_eq r.user_id user && (text_eq r.event_type type && r.enabled)
    then insert_ordered r rest
    else rest

-- `CASE WHEN channel = 'webhook' THEN secret ELSE '' END`
abbrev pub projected_secret : NotificationPreference → Text
projected_secret r = if text_eq r.channel webhook then r.secret else []

abbrev pub stored_secret : Text → Text → Result Text
stored_secret channel value = if signs channel then new_secret value else ok []

-- One statement, which may fail.
abbrev pub reading : {A : Type 0} → Option Error → Result A → Result A
reading none a = a
reading (some e) a = err e

module _ (parse_url : Text → Option Url) (parse_mail : Text → Option MailAddress) where
  abbrev pub viewed : PreferenceIntent → Result NotificationPreference → Result PreferenceView
  viewed i m = do
    r ← m
    destination ← new_destination_for parse_url parse_mail i.channel r.destination
    ok (view_of i.user_id i.event_type i.channel destination r)

  abbrev pub set_answer :
      PreferenceIntent
      → Result (Option NotificationPreference) × Table
      → Result PreferenceView × Table
  set_answer i (m, table) = (viewed i (scanned_row i m), table)

  unfoldable pub set : Fate → PreferenceIntent → ℕ → Table → Result PreferenceView × Table
  set f i now table = set_answer i (driven f table (run_statement i now table i.secret))

  unfoldable pub list_view : Text → NotificationPreference → Result PreferenceView
  list_view user r = do
    type ← parse_event_type r.event_type
    channel ← parse_channel r.channel
    destination ← new_destination_for parse_url parse_mail channel r.destination
    ok (view_of user type channel destination r)

  unfoldable pub list_views : Text → Table → Result (List PreferenceView)
  list_views user [] = ok []
  list_views user (r ∷ rows) = do
    view ← list_view user r
    views ← list_views user rows
    ok (view ∷ views)

  unfoldable pub list_by_user : Option Error → Text → Table → Result (List PreferenceView)
  list_by_user failure user table = reading failure (list_views user (rows_of_user user table))

  unfoldable pub deliverable : Text → NotificationPreference → Result NotificationPreference
  deliverable user r = do
    type ← parse_event_type r.event_type
    channel ← parse_channel r.channel
    destination ← new_destination_for parse_url parse_mail channel r.destination
    secret ← stored_secret channel (projected_secret r)
    restore_notification_preference user type channel r.enabled destination secret r.created_at
        r.updated_at

  unfoldable pub deliverables : Text → Table → Result (List NotificationPreference)
  deliverables user [] = ok []
  deliverables user (r ∷ rows) = do
    preference ← deliverable user r
    preferences ← deliverables user rows
    ok (preference ∷ preferences)

  unfoldable pub find_deliverable :
      Option Error → Text → Text → Table → Result (List NotificationPreference)
  find_deliverable failure user type table =
      reading failure (deliverables user (deliverable_rows user type table))

  -- `Execute` of `ListPreferences`; the result has the view's columns but the owner.
  unfoldable pub list_preferences : Option Error → Text → Table → Result (List PreferenceView)
  list_preferences failure raw table = do user ← new_user_id raw; list_by_user failure user table

  module _ (parse_addr : Text → Option Addr) where
    abbrev pub policy_judged : Bool → Text → Text → Result (Unit {0})
    policy_judged insecure channel destination =
        if text_eq channel webhook
        then check_destination parse_url parse_addr insecure destination
        else ok tt

    abbrev pub submitted : Option Text → Result (Option Text)
    submitted none = ok none
    submitted (some raw) = new_secret raw >>= λ secret. ok (some secret)

    -- `Execute` of `SetPreference`, up to its call of the repository.
    unfoldable pub intended :
        Bool → Text → Text → Text → Bool → Text → Option Text → Result PreferenceIntent
    intended insecure raw_user raw_type raw_channel enabled raw_destination raw_secret = do
      user ← new_user_id raw_user
      type ← parse_event_type raw_type
      channel ← parse_channel raw_channel
      destination ← new_destination_for parse_url parse_mail channel raw_destination
      policy_judged insecure channel destination
      secret ← submitted raw_secret
      new_preference_intent user type channel enabled destination secret

    abbrev pub set_intended :
        Fate → ℕ → Table → Result PreferenceIntent → Result PreferenceView × Table
    set_intended f now table (err e) = (err e, table)
    set_intended f now table (ok i) = set f i now table

    -- The call of the repository.
    unfoldable pub set_preference :
        Fate
        → ℕ
        → Bool
        → Text
        → Text
        → Text
        → Bool
        → Text
        → Option Text
        → Table
        → Result PreferenceView × Table
    set_preference f now insecure user type channel enabled destination secret table =
        set_intended f now table (intended insecure user type channel enabled destination secret)
