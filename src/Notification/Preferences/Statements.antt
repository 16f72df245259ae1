-- ===== src/Notification/Preferences/Statements.antt =====
-- Every statement on the preferences keeps the stored ones fit for a delivery.
use video_processor.Prelude.{
  ℕ, Text, is_empty, text_eq, text_eq_iff, Bool, true, false, not, ◌||◌, Bool-cases, Option-cases,
  Option, none, some, [], ◌∷◌, ◌≡◌, ◌≢◌, refl, subst, inl, inr, arith,
}
use video_processor.Errors.{ok}
use video_processor.Redis.{Fate, heard, unreached, unheard}
use video_processor.Notification.Policy.{Url}
use video_processor.Notification.Channels.{
  MailAddress, parse_event_type, parse_channel, new_secret, signs, new_destination_for, webhook,
}
use video_processor.Notification.Preferences.{
  NotificationPreference, PreferenceIntent, Table, put_preference, checked, update_preference,
  upsert_on_non_signing, find_preference, is_of, run_statement, inserted, updated,
}
use video_processor.Notification.Preferences.Queries.{set}
use video_processor.Notification.Preferences.Servable.{IsServable, AllRows, no_rows, and_row}

some_inj :
    (r s : NotificationPreference)
    → ◌≡◌ {A = Option NotificationPreference} (some r) (some s)
    → r ≡ s
some_inj r s h = ground arith

module _ (parse_url : Text → Option Url) (parse_mail : Text → Option MailAddress) where
  -- An intent of the use case.
  pub record IsIntended (i : PreferenceIntent) : Type 0 where
    pub for_user : is_empty i.user_id ≡ false
    pub for_type : parse_event_type i.event_type ≡ ok i.event_type
    pub on_channel : parse_channel i.channel ≡ ok i.channel
    pub to : new_destination_for parse_url parse_mail i.channel i.destination ≡ ok i.destination
    pub with_secret : (secret : Text) → i.secret ≡ some secret → new_secret secret ≡ ok secret

  inserted-IsServable :
      (i : PreferenceIntent) (secret : Text) (now : ℕ)
      → IsIntended i
      → now ≢ 0
      → (signs i.channel ≡ true → new_secret secret ≡ ok secret)
      → IsServable parse_url parse_mail (inserted i secret now)
  inserted-IsServable i secret now h n s = record {
    has_owner = h.for_user;
    known_type = h.for_type;
    known_channel = h.on_channel;
    destined = h.to;
    signed = s;
    was_created = n;
    was_updated = n;
  }

  -- A row of the intent's triple, with the intent's values and a secret.
  updated-IsServable :
      (i : PreferenceIntent) (secret : Text) (now : ℕ) (r : NotificationPreference)
      → IsIntended i
      → now ≢ 0
      → IsServable parse_url parse_mail r
      → is_of i r ≡ true
      → (signs i.channel ≡ true → new_secret secret ≡ ok secret)
      → IsServable parse_url parse_mail (record (updated i now r) { secret = secret })
  unfolding is_of
  updated-IsServable i secret now r h n s same k =
      let channels = (text_eq_iff r.channel i.channel).0 (ground arith) in
      record {
        has_owner = s.has_owner;
        known_type = s.known_type;
        known_channel = s.known_channel;
        destined = rw channels h.to;
        signed = rw channels k;
        was_created = s.was_created;
        was_updated = n;
      }

  put_all :
      (i : PreferenceIntent) (new : NotificationPreference) (table : Table)
      → IsServable parse_url parse_mail new
      → AllRows (IsServable parse_url parse_mail) table
      → AllRows (IsServable parse_url parse_mail) (put_preference i new table)
  unfolding put_preference
  put_all i new [] p no_rows = no_rows
  put_all i new _ p (and_row {rows} r s all) = elim (Bool-cases (is_of i r)) [
    | inl e ↦ rw e (and_row new p all)
    | inr e ↦ rw e (and_row r s (put_all i new rows p all))
  ]

  found_row :
      (i : PreferenceIntent) (table : Table) (r : NotificationPreference)
      → AllRows (IsServable parse_url parse_mail) table
      → find_preference i table ≡ some r
      → IsServable parse_url parse_mail r × (is_of i r ≡ true)
  unfolding find_preference
  found_row i [] r no_rows h = absurd (ground arith)
  found_row i _ r (and_row {rows} s p all) h = elim (Bool-cases (is_of i s)) [
    | inl e ↦
        subst (λ q. IsServable parse_url parse_mail q × (is_of i q ≡ true))
          (some_inj s r (rw e at h)) (p, e)
    | inr e ↦ found_row i rows r all (rw e at h)
  ]

  checked_all :
      (b : Bool) (row : Option NotificationPreference) (new old : Table)
      → (b ≡ true → AllRows (IsServable parse_url parse_mail) new)
      → AllRows (IsServable parse_url parse_mail) old
      → AllRows (IsServable parse_url parse_mail) (checked b (row, new) old).1
  checked_all true row new old p q = p refl
  checked_all false row new old p q = q

  kept_secret :
      (i : PreferenceIntent) (r : NotificationPreference)
      → IsServable parse_url parse_mail r
      → is_of i r ≡ true
      → signs i.channel ≡ true
      → new_secret r.secret ≡ ok r.secret
  unfolding is_of
  kept_secret i r s same g = s.signed (rw ((text_eq_iff r.channel i.channel).0 (ground arith)) g)

  put_updated :
      (i : PreferenceIntent) (now : ℕ) (table : Table) (r : NotificationPreference)
      → IsIntended i
      → now ≢ 0
      → find_preference i table ≡ some r
      → AllRows (IsServable parse_url parse_mail) table
      → AllRows (IsServable parse_url parse_mail) (put_preference i (updated i now r) table)
  put_updated i now table r h n f all =
      let (s, same) = found_row i table r all f in
      put_all i (updated i now r) table
        (updated-IsServable i r.secret now r h n s same (kept_secret i r s same)) all

  updated_all :
      (i : PreferenceIntent) (now : ℕ) (table : Table)
      → IsIntended i
      → now ≢ 0
      → AllRows (IsServable parse_url parse_mail) table
      → AllRows
          (IsServable parse_url parse_mail)
          (update_preference i now table (find_preference i table)).1
  updated_all i now table h n all = elim (Option-cases (find_preference i table)) [
    | inl f ↦ rw f all
    | inr (r, f) ↦ rw f (put_updated i now table r h n f all)
  ]

  upserted_all :
      (i : PreferenceIntent) (now : ℕ) (table : Table)
      → IsIntended i
      → now ≢ 0
      → signs i.channel ≡ false
      → AllRows (IsServable parse_url parse_mail) table
      → AllRows
          (IsServable parse_url parse_mail)
          (checked
            (not (text_eq i.channel webhook))
            (upsert_on_non_signing i now table (find_preference i table))
            table).1
  upserted_all i now table h n g all = elim (Option-cases (find_preference i table)) [
    | inl f ↦ rw f (
        checked_all (not (text_eq i.channel webhook)) (some (inserted i [] now))
          (inserted i [] now ∷ table) table
          (λ b.
            and_row (inserted i [] now)
              (inserted-IsServable i [] now h n (λ t. absurd (ground arith))) all)
          all)
    | inr (r, f) ↦ rw f (
        checked_all (not (text_eq i.channel webhook)) (some (updated i now r))
          (put_preference i (updated i now r) table) table
          (λ b. put_updated i now table r h n f all) all)
  ]

  ran_all :
      (i : PreferenceIntent) (now : ℕ) (table : Table) (o : Option Text)
      → IsIntended i
      → now ≢ 0
      → i.secret ≡ o
      → AllRows (IsServable parse_url parse_mail) table
      → AllRows (IsServable parse_url parse_mail) (run_statement i now table o).1
  ran_all i now table (some secret) h n e all = elim (Option-cases (find_preference i table)) [
    | inl f ↦ rw f (
        checked_all (not (text_eq i.channel webhook) || not (is_empty secret))
          (some (inserted i secret now)) (inserted i secret now ∷ table) table
          (λ b.
            and_row (inserted i secret now)
              (inserted-IsServable i secret now h n (λ g. h.with_secret secret e)) all)
          all)
    | inr (r, f) ↦
        let (s, same) = found_row i table r all f in
        let new = record (updated i now r) { secret = secret } in
        rw f (
          checked_all (not (text_eq i.channel webhook) || not (is_empty secret)) (some new)
            (put_preference i new table) table
            (λ b.
              put_all i new table
                (updated-IsServable i secret now r h n s same (λ g. h.with_secret secret e)) all)
            all)
  ]
  ran_all i now table none h n e all = elim (Bool-cases (signs i.channel)) [
    | inl g ↦ rw g (updated_all i now table h n all)
    | inr g ↦ rw g (upserted_all i now table h n g all)
  ]

  pub set_all :
      (f : Fate) (i : PreferenceIntent) (now : ℕ) (table : Table)
      → IsIntended i
      → now ≢ 0
      → AllRows (IsServable parse_url parse_mail) table
      → AllRows (IsServable parse_url parse_mail) (set parse_url parse_mail f i now table).1
  unfolding set
  set_all heard i now table h n all = ran_all i now table i.secret h n refl all
  set_all (unreached e) i now table h n all = all
  set_all (unheard e) i now table h n all = ran_all i now table i.secret h n refl all
