-- ===== src/Notification/Preferences/Disclosure.antt =====
-- What the listing of preferences tells of the stored secrets.
use video_processor.Prelude.{
  Text, is_empty, text_eq, Bool-cases, if◌then◌else◌, Option, [], ◌∷◌, map, ◌≡◌, refl, ap, inl, inr,
}
use video_processor.Errors.{Error}
use video_processor.Notification.Policy.{Url}
use video_processor.Notification.Channels.{MailAddress}
use video_processor.Notification.Preferences.{NotificationPreference, Table}
use video_processor.Notification.Preferences.Queries.{
  before, insert_ordered, rows_of_user, list_view, list_views, list_by_user,
}

-- The row with another text for its secret, which is empty where the secret is.
abbrev pub redacted : NotificationPreference → NotificationPreference
redacted r = record r { secret = if is_empty r.secret then [] else 0 ∷ [] }

insert_redacted :
    (r : NotificationPreference) (rows : Table)
    → insert_ordered (redacted r) (map redacted rows) ≡ map redacted (insert_ordered r rows)
unfolding insert_ordered
insert_redacted r [] = refl
insert_redacted r (s ∷ rows) = elim (Bool-cases (before r s)) [
  | inl e ↦ rw e refl
  | inr e ↦ rw e (ap (◌∷◌ (redacted s)) (insert_redacted r rows))
]

rows_redacted :
    (user : Text) (table : Table)
    → rows_of_user user (map redacted table) ≡ map redacted (rows_of_user user table)
unfolding rows_of_user
rows_redacted user [] = refl
rows_redacted user (r ∷ table) = elim (Bool-cases (text_eq r.user_id user)) [
  | inl e ↦ rw e (rw (rows_redacted user table) (insert_redacted r (rows_of_user user table)))
  | inr e ↦ rw e (rows_redacted user table)
]

module _ (parse_url : Text → Option Url) (parse_mail : Text → Option MailAddress) where
  list_view-redacted :
      (user : Text) (r : NotificationPreference)
      → list_view parse_url parse_mail user (redacted r) ≡ list_view parse_url parse_mail user r
  unfolding list_view
  list_view-redacted user r = elim (Bool-cases (is_empty r.secret)) [
    | inl e ↦ rw e refl
    | inr e ↦ rw e refl
  ]

  list_views-redacted :
      (user : Text) (rows : Table)
      → list_views parse_url parse_mail user (map redacted rows)
        ≡ list_views parse_url parse_mail user rows
  unfolding list_views
  list_views-redacted user [] = refl
  list_views-redacted user (r ∷ rows) =
      rw (list_view-redacted user r) (rw (list_views-redacted user rows) refl)

  -- A listing tells of a stored secret only whether there is one: it answers the same, errors
  -- included, when every secret of the table is replaced by another text.
  pub list_by_user-redacted :
      (failure : Option Error) (user : Text) (table : Table)
      → list_by_user parse_url parse_mail failure user (map redacted table)
        ≡ list_by_user parse_url parse_mail failure user table
  unfolding list_by_user
  list_by_user-redacted failure user table =
      rw (rows_redacted user table) (rw (list_views-redacted user (rows_of_user user table)) refl)
