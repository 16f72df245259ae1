-- ===== src/Identity/Accounts.antt =====
-- internal/identity/application: the registration and the authentication of a user, with the
-- adapter of internal/identity/infrastructure/password over bcrypt. Times are in seconds.
pub mod Login
use video_processor.Prelude.{
  ℕ, ◌+◌, ltb, length, Text, Bool, true, false, if◌then◌else◌, Option, none, some, List,
}
use video_processor.Errors.{
  Error, Result, sentinel, ok, err, errors_is, ◌>>=◌, user_already_exists, user_not_found,
  password_mismatch, authentication_failed, password_too_short,
}
use video_processor.Redis.{Fate}
use video_processor.Notification.Channels.{MailAddress}
use video_processor.Identity.Users.{
  new_email, normalized, new_password_hash, User, new_user, UserRow, create,
  find_by_normalized_email,
}

-- `minPasswordLength`
abbrev pub min_password_length : ℕ
min_password_length = 8

-- `AccessTokenTTL`
abbrev pub access_token_ttl : ℕ
access_token_ttl = 900

pub record RegisterUserResult : Type 0 where
  pub user_id : Text
  pub email : Text
  pub created_at : ℕ

pub record AuthenticateUserResult : Type 0 where
  pub access_token : Text
  pub expires_at : ℕ

-- What surrounds a registration: the failure of its lookup, what others do to the table before its
-- insert, the fate of the insert, the identifier that is generated, and the time.
pub record Registration : Type 0 where
  pub finding : Option Error
  pub meanwhile : List UserRow → List UserRow
  pub creating : Fate
  pub generated : Option Text
  pub now : ℕ

-- `GenerateFromPassword` and `CompareHashAndPassword` of bcrypt.
module _ (generate : Text → Result Text) (matches : Text → Text → Bool) where
  unfoldable pub hash : Text → Result Text
  hash plaintext = do hashed ← generate plaintext; new_password_hash hashed

  unfoldable pub compare : Text → Text → Result (Unit {0})
  compare hashed plaintext =
      if matches hashed plaintext then ok tt else err (sentinel password_mismatch)

  module _ (parse_mail : Text → Option MailAddress) (parse_user_id : Text → Result Text) where
    abbrev pub registered_as :
        User → Result (Unit {0}) × List UserRow → Result RegisterUserResult × List UserRow
    registered_as u (err e, rows) = (err e, rows)
    registered_as u (ok _, rows) =
        (ok (record { user_id = u.id; email = u.email; created_at = u.created_at }), rows)

    abbrev pub create_user :
        Registration → List UserRow → Result User → Result RegisterUserResult × List UserRow
    create_user r rows (err e) = (err e, rows)
    create_user r rows (ok u) = registered_as u (create r.creating u rows)

    -- From the hash on.
    abbrev pub register_hashed :
        Registration → Text → Text → List UserRow → Result RegisterUserResult × List UserRow
    register_hashed r email password rows =
        create_user r rows (hash password >>= λ hashed. new_user r.generated email hashed r.now)

    abbrev pub after_lookup :
        Registration
        → Text
        → Text
        → List UserRow
        → Result User
        → Result RegisterUserResult × List UserRow
    after_lookup r email password rows (ok u) = (err (sentinel user_already_exists), rows)
    after_lookup r email password rows (err e) =
        if errors_is e user_not_found
        then register_hashed r email password (r.meanwhile rows)
        else (err e, rows)

    abbrev pub register_email :
        Registration → Text → List UserRow → Result Text → Result RegisterUserResult × List UserRow
    register_email r password rows (err e) = (err e, rows)
    register_email r password rows (ok email) =
        if ltb (length password) min_password_length
        then (err (sentinel password_too_short), rows)
        else after_lookup r email password rows
            (find_by_normalized_email parse_mail parse_user_id r.finding (normalized email) rows)

    -- `Execute` of `RegisterUser`
    unfoldable pub register_user :
        Registration → Text → Text → List UserRow → Result RegisterUserResult × List UserRow
    register_user r raw password rows = register_email r password rows (new_email parse_mail raw)

    module _ (issue : Text → ℕ → Result Text) where
      abbrev pub issued : ℕ → Result Text → Result AuthenticateUserResult
      issued expires (err e) = err e
      issued expires (ok token) = ok (record { access_token = token; expires_at = expires })

      abbrev pub after_compare : ℕ → User → Result (Unit {0}) → Result AuthenticateUserResult
      after_compare now u (err e) = err (sentinel authentication_failed)
      after_compare now u (ok _) =
          issued (now + access_token_ttl) (issue u.id (now + access_token_ttl))

      abbrev pub after_found : ℕ → Text → Result User → Result AuthenticateUserResult
      after_found now password (err e) =
          if errors_is e user_not_found then err (sentinel authentication_failed) else err e
      after_found now password (ok u) = after_compare now u (compare u.password_hash password)

      abbrev pub authenticate_email :
          Option Error → ℕ → Text → List UserRow → Result Text → Result AuthenticateUserResult
      authenticate_email failure now password rows (err e) = err (sentinel authentication_failed)
      authenticate_email failure now password rows (ok email) =
          after_found now password
            (find_by_normalized_email parse_mail parse_user_id failure (normalized email) rows)

      -- `Execute` of `AuthenticateUser`
      unfoldable pub authenticate_user :
          Option Error → ℕ → Text → Text → List UserRow → Result AuthenticateUserResult
      authenticate_user failure now raw password rows =
          authenticate_email failure now password rows (new_email parse_mail raw)
