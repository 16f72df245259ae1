-- ===== src/Witnesses/Accounts.antt =====
-- The theorems on accounts and tokens, at one user who logs in with another spelling.
use video_processor.Prelude.{
  ℕ, ◌+◌, ◌<◌, ltb, ◌==◌, ==_iff, ◌++◌, length, take, drop, take-append, drop-append, Text, codes,
  text_eq, text_eq_iff, Bool, true, ◌≡◌, refl, Option, none, some, List, [], ◌∷◌, if◌then◌else◌,
  arith,
}
use video_processor.Errors.{Result, ok, errors_is}
use video_processor.Redis.{heard}
use video_processor.Notification.Policy.{lower_ascii}
use video_processor.Notification.Channels.{MailAddress}
use video_processor.Identity.Users.{
  UserRow, new_email, cut_at, trim_left, trim_right, find_email, find_user, create,
  find_by_normalized_email, new_user, restore_user, new_password_hash,
}
use video_processor.Identity.Accounts.{
  access_token_ttl, RegisterUserResult, Registration, hash, register_user, authenticate_user,
}
use video_processor.Identity.Accounts.Login.{Matches, authenticate_registered}
use video_processor.Identity.Tokens.{
  Claims, Issuer, Verifier, issue, lookup_key, check_pair, verify,
}
use video_processor.Identity.Tokens.Pairing.{Validates, verify-issue}

abbrev address : Text
address = codes "Ann@example.com"

abbrev parse_mail : Text → Option MailAddress
parse_mail s = some (record { name = []; address = s })

abbrev parse_user_id : Text → Result Text
parse_user_id s = ok s

-- A hash that is the password with a mark before it.
abbrev generate : Text → Result Text
generate password = ok (36 ∷ password)

abbrev bcrypt_matches : Text → Text → Bool
bcrypt_matches hashed password = text_eq hashed (36 ∷ password)

matches_lem : Matches generate bcrypt_matches
matches_lem password hashed h = (text_eq_iff hashed (36 ∷ password)).1 (ground arith)

abbrev issue_token : Text → ℕ → Result Text
issue_token user expires = ok (116 ∷ user)

abbrev registration : Registration
registration = record {
  finding = none;
  meanwhile = λ rows. rows;
  creating = heard;
  generated = some (codes "user-1");
  now = 3;
}

abbrev account : RegisterUserResult
account = record { user_id = codes "user-1"; email = address; created_at = 3 }

abbrev password : Text
password = codes "correct horse"

abbrev after : List UserRow
after =
    (register_user generate bcrypt_matches parse_mail parse_user_id registration
      (codes " Ann@EXAMPLE.com ") password []).1

parses : new_email parse_mail (codes " Ann@EXAMPLE.com ") ≡ ok address
unfolding new_email cut_at trim_left trim_right lower_ascii
parses = refl

reparses : new_email parse_mail address ≡ ok address
unfolding new_email cut_at trim_left trim_right lower_ascii
reparses = refl

logs_in : new_email parse_mail (codes "ann@example.com") ≡ ok (codes "ann@example.com")
unfolding new_email cut_at trim_left trim_right lower_ascii
logs_in = refl

same_address : lower_ascii (codes "ann@example.com") ≡ lower_ascii address
unfolding lower_ascii
same_address = refl

registers :
    (register_user generate bcrypt_matches parse_mail parse_user_id registration
      (codes " Ann@EXAMPLE.com ")
      password
      []).0
    ≡ ok account
unfolding register_user new_email cut_at trim_left trim_right lower_ascii find_by_normalized_email
    find_email find_user create hash new_user restore_user new_password_hash errors_is
registers = refl

authenticate_registered_example :
    authenticate_user generate bcrypt_matches parse_mail parse_user_id issue_token none 50
      (codes "ann@example.com")
      password
      after
    ≡ ok (record { access_token = 116 ∷ codes "user-1"; expires_at = 50 + access_token_ttl })
authenticate_registered_example =
    authenticate_registered generate bcrypt_matches parse_mail parse_user_id issue_token
      registration (codes " Ann@EXAMPLE.com ") address (codes "ann@example.com")
      (codes "ann@example.com") password (116 ∷ codes "user-1") 50 [] after account matches_lem
      parses registers reparses refl logs_in same_address refl refl

-- Keys that are numbers, each its own public half, and tokens that spell the key, the times, and the
-- key id before the user.
abbrev sign : ℕ → Text → Claims → Result Text
sign key kid claims =
    ok (key ∷ claims.issued_at ∷ claims.expires_at ∷ length kid ∷ kid ++ claims.subject)

abbrev checked_key : ℕ → ℕ → ℕ → ℕ → Text → Option ℕ → Option Claims
checked_key now key issued expires user none = none
checked_key now key issued expires user (some k) =
    if key == k
    then if ltb now expires
      then some (record { subject = user; issued_at = issued; expires_at = expires })
      else none
    else none

abbrev read_token : (Option Text → Option ℕ) → ℕ → Text → Option Claims
read_token keys now (key ∷ issued ∷ expires ∷ n ∷ rest) =
    checked_key now key issued expires (drop n rest) (keys (some (take n rest)))
read_token keys now _ = none

same_key : (k : ℕ) → (k == k) ≡ true
same_key k = ground arith

in_time : (a b : ℕ) → a < b → ltb a b ≡ true
in_time a b h = ground arith

token_is : (a b : Text) → ◌≡◌ {A = Result Text} (ok a) (ok b) → b ≡ a
token_is a b h = ground arith

read_token_lem : Validates sign read_token (λ k. k)
read_token_lem keys key kid token claims now made found before =
    let spelled =
      token_is (key ∷ claims.issued_at ∷ claims.expires_at ∷ length kid ∷ kid ++ claims.subject)
        token made in
    rw spelled (
      rw (take-append kid claims.subject (length kid) refl) (
        rw (drop-append kid claims.subject (length kid) refl)
          (rw found (rw (same_key key) (rw (in_time now claims.expires_at before) refl)))))

abbrev issuer : Issuer ℕ
issuer = record { private_key = 77; key_id = codes "k2" }

abbrev keys : Verifier ℕ
keys = (codes "k1", 5) ∷ (codes "k2", 77) ∷ []

pair_checked : check_pair (λ k. k) ◌==◌ issuer keys ≡ ok tt
unfolding check_pair lookup_key text_eq
pair_checked = refl

minted : issue sign 1000 issuer (codes "user-1") 1900 ≡ ok (77 ∷ 1000 ∷ 1900 ∷ 2 ∷ codes "k2user-1")
unfolding issue
minted = refl

verify-issue_example :
    verify read_token 1500 keys (77 ∷ 1000 ∷ 1900 ∷ 2 ∷ codes "k2user-1") ≡ ok (codes "user-1")
verify-issue_example =
    verify-issue sign read_token (λ k. k) ◌==◌ issuer keys (codes "user-1")
      (77 ∷ 1000 ∷ 1900 ∷ 2 ∷ codes "k2user-1") 1000 1500 1900 read_token_lem
      (λ a b. (==_iff a b).0) pair_checked refl minted (omega arith)
