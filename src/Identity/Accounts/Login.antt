-- ===== src/Identity/Accounts/Login.antt =====
-- What a registration is worth to a later authentication.
use video_processor.Prelude.{
  ℕ, ◌+◌, ltb, length, Text, text_eq_refl, is_empty, Bool, true, false, Bool-cases, Option, none,
  some, List, ◌∷◌, ◌≡◌, refl, ◌∙◌, inl, inr, arith,
}
use video_processor.Errors.{Error, Result, Result-cases, ok, err, errors_is, user_not_found}
use video_processor.Redis.{Fate, heard, unreached, unheard}
use video_processor.Notification.Channels.{MailAddress}
use video_processor.Identity.Users.{
  new_email, normalized, new_password_hash, User, new_user, restore_user, UserRow, row_of, create,
  driven_insert, insert_user, find_email, find_user, find_by_normalized_email,
}
use video_processor.Identity.Accounts.{
  access_token_ttl, min_password_length, RegisterUserResult, Registration, hash, compare,
  register_user, register_email, after_lookup, register_hashed, create_user, registered_as,
  authenticate_user,
}

-- bcrypt: a hash matches the password that it was made of.
abbrev pub Matches : (Text → Result Text) → (Text → Text → Bool) → Type 0
Matches generate matches =
    (password hashed : Text) → generate password ≡ ok hashed → matches hashed password ≡ true

inserted_row :
    (f : Fate) (u : User) (rows : List UserRow) (a b : Option UserRow) (v : Unit {0})
    → (driven_insert f rows (insert_user u rows a b)).0 ≡ ok v
    → (driven_insert f rows (insert_user u rows a b)).1 ≡ row_of u ∷ rows
inserted_row heard u rows none none v h = refl
inserted_row heard u rows none (some r) v h = absurd (ground arith)
inserted_row heard u rows (some r) b v h = absurd (ground arith)
inserted_row (unreached e) u rows a b v h = absurd (ground arith)
inserted_row (unheard e) u rows a b v h = absurd (ground arith)

created_row :
    (f : Fate) (u : User) (rows : List UserRow) (v : Unit {0})
    → (create f u rows).0 ≡ ok v
    → (create f u rows).1 ≡ row_of u ∷ rows
unfolding create
created_row f u rows v h =
    inserted_row f u rows (find_user u.id rows) (find_email (normalized u.email) rows) v h

found_first :
    (u w : User) (rows : List UserRow)
    → u ≡ w
    → find_email (normalized w.email) (row_of u ∷ rows) ≡ some (row_of w)
unfolding find_email
found_first u w rows e = rw e (rw (text_eq_refl (normalized w.email)) refl)

rejected :
    {e : Error} {a : RegisterUserResult} → ◌≡◌ {A = Result RegisterUserResult} (err e) (ok a) → ⊥
rejected h = ground arith

module _ (generate : Text → Result Text) (matches : Text → Text → Bool)
    (parse_mail : Text → Option MailAddress) (parse_user_id : Text → Result Text) where
  -- The user that a registration answers and the table that it leaves.
  abbrev pub Registers : Registration → Text → Text → RegisterUserResult × List UserRow → Type 0
  Registers r password email (a, rows) =
      (hashed : Text) × (generate password ≡ ok hashed)
      × (is_empty hashed ≡ false)
      × (is_empty a.user_id ≡ false)
      × (r.generated ≡ some a.user_id)
      × (find_email (normalized email) rows
          ≡ some (
              row_of (record {
                id = a.user_id;
                email = email;
                password_hash = hashed;
                created_at = r.now;
              })))

  answered_user :
      (u : User) (m : Result (Unit {0}) × List UserRow) (a : RegisterUserResult)
      → (registered_as generate matches parse_mail parse_user_id u m).0 ≡ ok a
      → (m.0 ≡ ok tt)
        × (a.user_id ≡ u.id)
        × ((registered_as generate matches parse_mail parse_user_id u m).1 ≡ m.1)
  answered_user u (ok _, rows) a h = (refl, ground arith, refl)
  answered_user u (err e, rows) a h = absurd (ground arith)

  new_user_fields :
      (generated : Option Text) (email hashed : Text) (now : ℕ) (u : User)
      → new_user generated email hashed now ≡ ok u
      → (generated ≡ some u.id)
        × (is_empty u.id ≡ false)
        × (u ≡ record { id = u.id; email = email; password_hash = hashed; created_at = now })
  unfolding new_user restore_user
  new_user_fields none email hashed now u h = absurd (ground arith)
  new_user_fields (some i) email hashed now u h = ground arith

  hash_fields :
      (password hashed : Text)
      → hash generate matches password ≡ ok hashed
      → (generate password ≡ ok hashed) × (is_empty hashed ≡ false)
  unfolding hash new_password_hash
  hash_fields password hashed h = elim (Result-cases (generate password)) [
    | inr (e, f) ↦ absurd (ground arith)
    | inl (t, f) ↦ ground arith
  ]

  created_Registers :
      (r : Registration) (password email hashed : Text) (rows : List UserRow) (m : Result User)
      (a : RegisterUserResult)
      → hash generate matches password ≡ ok hashed
      → new_user r.generated email hashed r.now ≡ m
      → (create_user generate matches parse_mail parse_user_id r rows m).0 ≡ ok a
      → Registers r password email
          (a, (create_user generate matches parse_mail parse_user_id r rows m).1)
  unfolding find_email
  created_Registers r password email hashed rows (err e) a h n k = absurd (ground arith)
  created_Registers r password email hashed rows (ok u) a h n k =
      let (m, i, same) = answered_user u (create r.creating u rows) a k in
      let (g, x, fields) = new_user_fields r.generated email hashed r.now u n in
      let (made, full) = hash_fields password hashed h in
      (
        hashed,
        made,
        full,
        rw i x,
        rw i g,
        rw same (
            rw (created_row r.creating u rows tt m) (
              found_first u
                (record {
                  id = a.user_id;
                  email = email;
                  password_hash = hashed;
                  created_at = r.now;
                })
                rows (rw i fields))),
      )

  hashed_Registers :
      (r : Registration) (email password : Text) (rows : List UserRow) (a : RegisterUserResult)
      → (register_hashed generate matches parse_mail parse_user_id r email password rows).0 ≡ ok a
      → Registers r password email
          (a, (register_hashed generate matches parse_mail parse_user_id r email password rows).1)
  hashed_Registers r email password rows a h =
      elim (Result-cases (hash generate matches password)) [
        | inr (e, f) ↦ absurd (ground arith)
        | inl (hashed, f) ↦ rw f (
            created_Registers r password email hashed rows (new_user r.generated email hashed r.now)
              a f refl (rw f at h))
      ]

  looked_up_Registers :
      (r : Registration) (email password : Text) (rows : List UserRow) (m : Result User)
      (a : RegisterUserResult)
      → (after_lookup generate matches parse_mail parse_user_id r email password rows m).0 ≡ ok a
      → Registers r password email
          (a, (after_lookup generate matches parse_mail parse_user_id r email password rows m).1)
  looked_up_Registers r email password rows (ok u) a h = absurd (ground arith)
  looked_up_Registers r email password rows (err e) a h =
      elim (Bool-cases (errors_is e user_not_found)) [
        | inl f ↦ rw f (hashed_Registers r email password (r.meanwhile rows) a (rw f at h))
        | inr f ↦ absurd (ground arith)
      ]

  email_Registers :
      (r : Registration) (email password : Text) (rows : List UserRow) (a : RegisterUserResult)
      → (register_email generate matches parse_mail parse_user_id r password rows (ok email)).0
        ≡ ok a
      → Registers r password email (
        a,
        (register_email generate matches parse_mail parse_user_id r password rows (ok email)).1,
      )
  email_Registers r email password rows a h =
      elim (Bool-cases (ltb (length password) min_password_length)) [
        | inl e ↦ absurd (rejected (rw e at h))
        | inr e ↦ rw e (
            looked_up_Registers r email password rows
              (find_by_normalized_email parse_mail parse_user_id r.finding (normalized email) rows)
              a (rw e at h))
      ]

  register_user-Registers :
      (r : Registration) (raw email password : Text) (rows : List UserRow) (a : RegisterUserResult)
      → new_email parse_mail raw ≡ ok email
      → (register_user generate matches parse_mail parse_user_id r raw password rows).0 ≡ ok a
      → Registers r password email
          (a, (register_user generate matches parse_mail parse_user_id r raw password rows).1)
  unfolding register_user
  register_user-Registers r raw email password rows a n h =
      rw n (email_Registers r email password rows a (rw n at h))

  found_user :
      (e : Text) (rows : List UserRow) (u : User)
      → find_email e rows ≡ some (row_of u)
      → parse_user_id u.id ≡ ok u.id
      → new_email parse_mail u.email ≡ ok u.email
      → is_empty u.password_hash ≡ false
      → is_empty u.id ≡ false
      → find_by_normalized_email parse_mail parse_user_id none e rows ≡ ok u
  unfolding find_by_normalized_email new_password_hash restore_user
  found_user e rows u f p n h i = rw f (rw p (rw n (rw h (rw i refl))))

  module _ (issue : Text → ℕ → Result Text) where
    -- After a registration that succeeded, the same password with any spelling of the address that
    -- normalizes to it authenticates the user, for as long as the row of that address stands: with
    -- bcrypt's hash matching its password, an identifier that parses to itself, an address that
    -- parses to itself when it is read back, and an issuer that answers.
    pub authenticate_registered :
        (r : Registration) (raw email login login_email password token : Text) (now : ℕ)
        (rows later : List UserRow) (a : RegisterUserResult)
        → Matches generate matches
        → new_email parse_mail raw ≡ ok email
        → (register_user generate matches parse_mail parse_user_id r raw password rows).0 ≡ ok a
        → new_email parse_mail email ≡ ok email
        → parse_user_id a.user_id ≡ ok a.user_id
        → new_email parse_mail login ≡ ok login_email
        → normalized login_email ≡ normalized email
        → find_email (normalized email) later
          ≡ find_email
              (normalized email)
              (register_user generate matches parse_mail parse_user_id r raw password rows).1
        → issue a.user_id (now + access_token_ttl) ≡ ok token
        → authenticate_user generate matches parse_mail parse_user_id issue none now login password
            later
          ≡ ok (record { access_token = token; expires_at = now + access_token_ttl })
    unfolding authenticate_user compare
    authenticate_registered r raw email login login_email password token now rows later a bcrypt n h
          c p l same kept t =
        let (hashed, made, full, x, g, f) =
          register_user-Registers r raw email password rows a n h in
        let u : User = record {
          id = a.user_id;
          email = email;
          password_hash = hashed;
          created_at = r.now;
        } in
        rw l (
          rw same (
            rw (found_user (normalized email) later u (kept ∙ f) p c full x)
              (rw (bcrypt password hashed made) (rw t refl))))
