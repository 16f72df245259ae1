-- ===== src/Json.antt =====
-- What the program uses of encoding/json: an object is its members, in order, and a struct with tags
-- is filled member by member. The bytes are a parameter.
use video_processor.Prelude.{
  ℕ, zero, suc, ◌+◌, ◌≤◌, ◌≡◌, ℤ, pos, negsuc, leb, ltb, ◌==◌, max_int64, Text, codes, text_eq,
  Bool, true, false, ◌&&◌, if◌then◌else◌, Option, none, some, List, [], ◌∷◌,
}
use video_processor.Errors.{plain, Result, ok, err, ◌>>=◌}

-- `other_value` is a Boolean, an array, an object, or a number that is not an integer.
pub data JsonValue : Type 0 where
  string_value : Text → JsonValue
  number_value : ℤ → JsonValue
  null_value : JsonValue
  other_value : JsonValue

abbrev pub Object : Type 0
Object = List (Text × JsonValue)

-- `unmarshal` answers the members of an object, none for `null`, and `none` for any other bytes.
-- A time is the text of RFC 3339, of an instant in microseconds, and
-- instant 0 is the zero time.
pub record Json : Type 0 where
  pub marshal : Object → Text
  pub unmarshal : Text → Option Object
  pub format_time : ℕ → Text
  pub parse_time : Text → Option ℕ

-- How many bytes follow the first byte of a rune, and between which bounds the second one lies.
abbrev lead : ℕ → Option (ℕ × ℕ × ℕ)
lead c =
    if ltb c 0x80
    then some (0, 0x80, 0xBF)
    else if ltb c 0xC2
    then none
    else if ltb c 0xE0
    then some (1, 0x80, 0xBF)
    else if c == 0xE0
    then some (2, 0xA0, 0xBF)
    else if c == 0xED
    then some (2, 0x80, 0x9F)
    else if ltb c 0xF0
    then some (2, 0x80, 0xBF)
    else if c == 0xF0
    then some (3, 0x90, 0xBF)
    else if ltb c 0xF4
    then some (3, 0x80, 0xBF)
    else if c == 0xF4
    then some (3, 0x80, 0x8F)
    else none

-- `utf8.Valid`, with `left` bytes of a rune to come, the next one between two bounds.
unfoldable pub utf8_from : (left low high : ℕ) → Text → Bool
utf8_from zero low high [] = true
utf8_from (suc left) low high [] = false
utf8_from zero low high (c ∷ s) = elim (lead c) [
  | none ↦ false
  | some (left, l, h) ↦ utf8_from left l h s
]
utf8_from (suc left) low high (c ∷ s) =
    let rest = utf8_from left 0x80 0xBF s in leb low c && (leb c high && rest)

abbrev pub is_utf8 : Text → Bool
is_utf8 s = utf8_from 0 0x80 0xBF s

-- The objects that `json.Marshal` writes as they are: it replaces what is not UTF-8.
abbrev kept_value : JsonValue → Bool
kept_value (string_value t) = is_utf8 t
kept_value (number_value n) = true
kept_value null_value = true
kept_value other_value = false

unfoldable pub is_kept : Object → Bool
is_kept [] = true
is_kept ((key, value) ∷ o) = let rest = is_kept o in is_utf8 key && (kept_value value && rest)

-- The end of the year 9999, past which a time is not written.
abbrev pub last_instant : ℕ
last_instant = 315537897599999999

pub record IsJson (j : Json) : Type 0 where
  pub reads_back : (o : Object) → is_kept o ≡ true → j.unmarshal (j.marshal o) ≡ some o
  pub times_read : (n : ℕ) → n ≤ last_instant → j.parse_time (j.format_time n) ≡ some n
  pub times_kept : (n : ℕ) → is_utf8 (j.format_time n) ≡ true

-- The folding by which a member's name matches a tag: two letters outside ASCII fold to `k` and `s`.
abbrev folded : ℕ → ℕ
folded a = if leb b'A' a && leb a b'Z' then a + 32 else a

unfoldable pub fold_name : Text → Text
fold_name [] = []
fold_name (a ∷ []) = folded a ∷ []
fold_name (a ∷ b ∷ []) =
    let rest = fold_name (b ∷ []) in if a == 0xC5 && b == 0xBF then b's' ∷ [] else folded a ∷ rest
fold_name (a ∷ b ∷ c ∷ s) =
    let rest = fold_name (b ∷ c ∷ s) in
    let after_two = fold_name (c ∷ s) in
    let after_three = fold_name s in
    if a == 0xE2 && (b == 0x84 && c == 0xAA)
    then b'k' ∷ after_three
    else if a == 0xC5 && b == 0xBF
    then b's' ∷ after_two
    else folded a ∷ rest

unfoldable pub matches_tag : Text → Text → Bool
unfolding fold_name text_eq
matches_tag tag name = text_eq (fold_name name) tag

-- A field of each kind after one value for it; `null` leaves it as it was.
abbrev pub as_string : Text → JsonValue → Result Text
as_string old (string_value t) = ok t
as_string old null_value = ok old
as_string old _ = err (plain (codes "json: cannot unmarshal into string"))

abbrev in_int64 : ℤ → Bool
in_int64 (pos n) = leb n max_int64
in_int64 (negsuc n) = leb n max_int64

abbrev pub as_int : ℤ → JsonValue → Result ℤ
as_int old (number_value n) =
    if in_int64 n then ok n else err (plain (codes "json: cannot unmarshal into int"))
as_int old null_value = ok old
as_int old _ = err (plain (codes "json: cannot unmarshal into int"))

abbrev read_time : Option ℕ → Result (Option ℕ)
read_time none = err (plain (codes "parsing time"))
read_time (some n) = ok (if n == 0 then none else some n)

abbrev pub as_time : Json → Option ℕ → JsonValue → Result (Option ℕ)
as_time j old (string_value t) = read_time (j.parse_time t)
as_time j old null_value = ok old
as_time j old _ = err (plain (codes "Time.UnmarshalJSON: input is not a JSON string"))

-- The members fill the struct one after the other; a later one of the same name wins.
unfoldable pub filled : {M : Type 0} → (M → Text → JsonValue → Result M) → M → Object → Result M
filled set m [] = ok m
filled set m ((name, value) ∷ o) = set m name value >>= λ next. filled set next o
