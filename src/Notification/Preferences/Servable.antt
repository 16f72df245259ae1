-- ===== src/Notification/Preferences/Servable.antt =====
-- What the preferences that were written are worth to a delivery.
use video_processor.Prelude.{
  Text, is_empty, text_eq, text_eq_iff, Bool, true, false, ◌&&◌, Bool-cases, if◌then◌else◌, Option,
  [], ◌∷◌, map, ◌≡◌, ◌≢◌, refl, inl, inr, arith,
}
use video_processor.Errors.{ok}
use video_processor.Notification.Policy.{Url}
use video_processor.Notification.Channels.{
  MailAddress, parse_event_type, parse_channel, new_secret, signs, new_destination_for, webhook,
  new_destination, parse_email_address,
}
use video_processor.Notification.Preferences.{
  NotificationPreference, Table, restore_notification_preference,
}
use video_processor.Notification.Preferences.Queries.{
  before, insert_ordered, deliverable_rows, deliverable, deliverables, projected_secret,
}

-- The row that a delivery is given.
abbrev pub as_delivered : NotificationPreference → NotificationPreference
as_delivered r = record r { secret = projected_secret r }

pub data AllRows (P : NotificationPreference → Type 0) : Table → Type 0 where
  no_rows : AllRows P []
  and_row :
      {rows : Table} (r : NotificationPreference) → P r → AllRows P rows → AllRows P (r ∷ rows)

insert-AllRows :
    (P : NotificationPreference → Type 0) (r : NotificationPreference) (rows : Table)
    → P r
    → AllRows P rows
    → AllRows P (insert_ordered r rows)
unfolding insert_ordered
insert-AllRows P r [] p no_rows = and_row r p no_rows
insert-AllRows P r _ p (and_row {rows} s q all) = elim (Bool-cases (before r s)) [
  | inl e ↦ rw e (and_row r p (and_row s q all))
  | inr e ↦ rw e (and_row s q (insert-AllRows P r rows p all))
]

if_kept :
    (P : NotificationPreference → Type 0) (b : Bool) (r : NotificationPreference) (rows : Table)
    → (b ≡ true → P r)
    → AllRows P rows
    → AllRows P (if b then insert_ordered r rows else rows)
if_kept P true r rows p all = insert-AllRows P r rows (p refl) all
if_kept P false r rows p all = all

and_first : (a b : Bool) → (a && b) ≡ true → a ≡ true
and_first a b h = ground arith

type-nonempty : (s t : Text) → parse_event_type s ≡ ok t → is_empty s ≡ false
unfolding parse_event_type text_eq
type-nonempty [] t h = absurd (ground arith)
type-nonempty (c ∷ s) t h = refl

channel-nonempty : (s t : Text) → parse_channel s ≡ ok t → is_empty s ≡ false
unfolding parse_channel text_eq
channel-nonempty [] t h = absurd (ground arith)
channel-nonempty (c ∷ s) t h = refl

secret-nonempty : (s t : Text) → new_secret s ≡ ok t → is_empty s ≡ false
unfolding new_secret
secret-nonempty [] t h = absurd (ground arith)
secret-nonempty (c ∷ s) t h = refl

restored :
    (r : NotificationPreference) (secret : Text)
    → is_empty r.user_id ≡ false
    → is_empty r.event_type ≡ false
    → is_empty r.channel ≡ false
    → is_empty r.destination ≡ false
    → (signs r.channel && is_empty secret) ≡ false
    → r.created_at ≢ 0
    → r.updated_at ≢ 0
    → restore_notification_preference r.user_id r.event_type r.channel r.enabled r.destination
        secret r.created_at r.updated_at
      ≡ ok (record r { secret = secret })
unfolding restore_notification_preference
restored r secret a b c d e f g = ground arith

module _ (parse_url : Text → Option Url) (parse_mail : Text → Option MailAddress) where
  destination-nonempty :
      (c s t : Text) → new_destination_for parse_url parse_mail c s ≡ ok t → is_empty s ≡ false
  unfolding new_destination_for new_destination parse_email_address
  destination-nonempty c [] t h = absurd (ground arith)
  destination-nonempty c (b ∷ s) t h = refl

  pub record IsServable (r : NotificationPreference) : Type 0 where
    pub has_owner : is_empty r.user_id ≡ false
    pub known_type : parse_event_type r.event_type ≡ ok r.event_type
    pub known_channel : parse_channel r.channel ≡ ok r.channel
    pub destined :
        new_destination_for parse_url parse_mail r.channel r.destination ≡ ok r.destination
    pub signed : signs r.channel ≡ true → new_secret r.secret ≡ ok r.secret
    pub was_created : r.created_at ≢ 0
    pub was_updated : r.updated_at ≢ 0

  ready :
      (r : NotificationPreference) (secret : Text)
      → IsServable r
      → (signs r.channel && is_empty secret) ≡ false
      → restore_notification_preference r.user_id r.event_type r.channel r.enabled r.destination
          secret r.created_at r.updated_at
        ≡ ok (record r { secret = secret })
  ready r secret s h =
      restored r secret s.has_owner (type-nonempty r.event_type r.event_type s.known_type)
        (channel-nonempty r.channel r.channel s.known_channel)
        (destination-nonempty r.channel r.destination r.destination s.destined) h s.was_created
        s.was_updated

  deliverable_row :
      (r : NotificationPreference)
      → IsServable r
      → deliverable parse_url parse_mail r.user_id r ≡ ok (as_delivered r)
  unfolding deliverable signs
  deliverable_row r s = elim (Bool-cases (text_eq r.channel webhook)) [
    | inl e ↦ rw s.known_type (
        rw s.known_channel (
          rw s.destined (
            rw e (
              rw (s.signed e) (
                ready r r.secret s
                  (ground (arith, secret-nonempty r.secret r.secret (s.signed e))))))))
    | inr e ↦ rw s.known_type (rw s.known_channel (rw s.destined (rw e (ready r [] s (rw e refl)))))
  ]

  pub IsServableOf : Text → NotificationPreference → Type 0
  IsServableOf user r = IsServable r × (r.user_id ≡ user)

  pub deliverables_all :
      (user : Text) (rows : Table)
      → AllRows (IsServableOf user) rows
      → deliverables parse_url parse_mail user rows ≡ ok (map as_delivered rows)
  unfolding deliverables IsServableOf
  deliverables_all user [] no_rows = refl
  deliverables_all user _ (and_row {rows} r (s, e) all) =
      rw⁻¹ e (rw (deliverable_row r s) (rw (deliverables_all user rows all) refl))

  pub deliverable_rows_all :
      (user type : Text) (table : Table)
      → AllRows IsServable table
      → AllRows (IsServableOf user) (deliverable_rows user type table)
  unfolding deliverable_rows IsServableOf
  deliverable_rows_all user type [] no_rows = no_rows
  deliverable_rows_all user type _ (and_row {rows} r s all) =
      if_kept (IsServableOf user)
        (text_eq r.user_id user && (text_eq r.event_type type && r.enabled)) r
        (deliverable_rows user type rows)
        (λ h. (
          s,
          (text_eq_iff r.user_id user).0
              (and_first (text_eq r.user_id user) (text_eq r.event_type type && r.enabled) h),
        ))
        (deliverable_rows_all user type rows all)
