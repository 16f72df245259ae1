-- ===== src/Identity/Users.antt =====
-- internal/identity: e-mail addresses and users, the table identity_users, and the use cases that
-- register and authenticate a user. `mail.ParseAddress`, bcrypt and the identifier adapter are
-- parameters; the letters that are lowered and the spaces that are trimmed are those of ASCII.
use video_processor.Prelude.{
  ℕ, leb, Text, codes, is_empty, text_eq, Bool, ◌&&◌, ◌||◌, ◌==◌, if◌then◌else◌, Option, none, some,
  List, [], ◌∷◌, ◌++◌,
}
use video_processor.Errors.{
  Error, Result, sentinel, ok, err, ◌>>=◌, ◌>>◌, refuse_if, invalid_email, empty_password_hash,
  user_already_exists, user_not_found, user_id_required, user_id_generator_required,
}
use video_processor.Redis.{Fate, heard, unreached, unheard}
use video_processor.Notification.Policy.{lower_ascii}
use video_processor.Notification.Channels.{MailAddress}

abbrev pub is_space : ℕ → Bool
is_space c = c == 32 || leb 9 c && leb c 13

unfoldable pub trim_left : Text → Text
trim_left [] = []
trim_left (c ∷ s) = let rest = trim_left s in if is_space c then rest else c ∷ s

abbrev pub kept_right : ℕ → Text → Text
kept_right c [] = if is_space c then [] else c ∷ []
kept_right c (d ∷ s) = c ∷ d ∷ s

unfoldable pub trim_right : Text → Text
trim_right [] = []
trim_right (c ∷ s) = kept_right c (trim_right s)

-- `strings.TrimSpace`
abbrev pub trim_space : Text → Text
trim_space s = trim_right (trim_left s)

abbrev pub cut_here : ℕ → Text → Option (Text × Text) → Option (Text × Text)
cut_here c s (some (local, domain)) = some (c ∷ local, domain)
cut_here c s none = if c == 64 then some ([], s) else none

-- The parts before and after the last '@'.
unfoldable pub cut_at : Text → Option (Text × Text)
cut_at [] = none
cut_at (c ∷ s) = cut_here c s (cut_at s)

abbrev pub with_lower_domain : Option (Text × Text) → Result Text
with_lower_domain none = err (sentinel invalid_email)
with_lower_domain (some (local, domain)) = ok (local ++ codes "@" ++ lower_ascii domain)

abbrev pub email_of : Option MailAddress → Result Text
email_of none = err (sentinel invalid_email)
email_of (some m) =
    if is_empty m.address
    then err (sentinel invalid_email)
    else with_lower_domain (cut_at m.address)

unfoldable pub new_email : (Text → Option MailAddress) → Text → Result Text
new_email parse_mail raw = email_of (parse_mail (trim_space raw))

-- `NormalizedForLookup`
abbrev pub normalized : Text → Text
normalized e = lower_ascii e

unfoldable pub new_password_hash : Text → Result Text
new_password_hash value = if is_empty value then err (sentinel empty_password_hash) else ok value

pub record User : Type 0 where
  pub id : Text
  pub email : Text
  pub password_hash : Text
  pub created_at : ℕ

unfoldable pub restore_user : Text → Text → Text → ℕ → Result User
restore_user i email hash created = do
  refuse_if (is_empty i) user_id_required
  ok (record { id = i; email = email; password_hash = hash; created_at = created })

-- The generator is what its one call here answers; `none` is a nil generator.
unfoldable pub new_user : Option Text → Text → Text → ℕ → Result User
new_user none email hash created = err (sentinel user_id_generator_required)
new_user (some generated) email hash created = restore_user generated email hash created

-- A row of identity_users has the columns of the user, and its e-mail address normalized.
pub record UserRow : Type 0 where
  pub user : User
  pub email_normalized : Text

unfoldable pub find_email : Text → List UserRow → Option UserRow
find_email e [] = none
find_email e (r ∷ rows) = if text_eq r.email_normalized e then some r else find_email e rows

unfoldable pub find_user : Text → List UserRow → Option UserRow
find_user i [] = none
find_user i (r ∷ rows) = if text_eq r.user.id i then some r else find_user i rows

abbrev pub row_of : User → UserRow
row_of u = record { user = u; email_normalized = normalized u.email }

-- The primary key and the unique address: `isUniqueViolation` sees either.
abbrev pub insert_user :
    User → List UserRow → Option UserRow → Option UserRow → Result (Unit {0}) × List UserRow
insert_user u rows none none = (ok tt, row_of u ∷ rows)
insert_user u rows (some r) _ = (err (sentinel user_already_exists), rows)
insert_user u rows none (some r) = (err (sentinel user_already_exists), rows)

abbrev pub driven_insert :
    Fate → List UserRow → Result (Unit {0}) × List UserRow → Result (Unit {0}) × List UserRow
driven_insert heard old (a, new) = (a, new)
driven_insert (unreached e) old (a, new) = (err e, old)
driven_insert (unheard e) old (a, new) = (err e, new)

unfoldable pub create : Fate → User → List UserRow → Result (Unit {0}) × List UserRow
create f u rows =
    driven_insert f rows
      (insert_user u rows (find_user u.id rows) (find_email (normalized u.email) rows))

module _ (parse_mail : Text → Option MailAddress) (parse_user_id : Text → Result Text) where
  abbrev pub scan_user : Option UserRow → Result User
  scan_user none = err (sentinel user_not_found)
  scan_user (some r) = do
    id ← parse_user_id r.user.id
    email ← new_email parse_mail r.user.email
    hash ← new_password_hash r.user.password_hash
    restore_user id email hash r.user.created_at

  abbrev pub read_user : Option Error → Option UserRow → Result User
  read_user none row = scan_user row
  read_user (some e) row = err e

  unfoldable pub find_by_id : Option Error → Text → List UserRow → Result User
  find_by_id failure i rows = read_user failure (find_user i rows)

  unfoldable pub find_by_normalized_email : Option Error → Text → List UserRow → Result User
  find_by_normalized_email failure e rows = read_user failure (find_email e rows)
