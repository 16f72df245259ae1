-- ===== src/Video/Idempotency/Colons.antt =====
-- Where the stored bytes of two tokens or two jobs differ: tokens and ids have no colon.
use video_processor.Prelude.{
  ◌==◌, Text, codes, text_eq, text_eq_iff, Bool, true, false, if◌then◌else◌, ◌≡◌, refl, sym, ap,
  ◌∙◌, ◌≢◌, inl, inr, Bool-cases, length, take, drop, take-append-drop, ◌-◌, [], ◌∷◌, ◌++◌, arith,
}
use mathlib.Core.List.{append_assoc}
use video_processor.Video.Idempotency.{
  final_value, final_prefix, final_value_prefix, starts_with, ends_with,
}

-- A token of `uuid.NewString()` has no colon.
abbrev pub colon_free : Text → Bool
colon_free [] = true
colon_free (c ∷ s) = if c == 58 then false else colon_free s

has_colon : (y b : Text) → colon_free (y ++ 58 ∷ b) ≡ false
has_colon [] b = refl
has_colon (c ∷ y) b = ground (arith, has_colon y b)

-- What follows the last colon of a text.
last_part :
    (x y a b : Text) → colon_free a ≡ true → colon_free b ≡ true → x ++ 58 ∷ a ≡ y ++ 58 ∷ b → a ≡ b
last_part [] [] a b f g e = ground arith
last_part [] (d ∷ y) a b f g e = absurd (ground (arith, has_colon y b))
last_part (c ∷ x) [] a b f g e = absurd (ground (arith, has_colon x a))
last_part (c ∷ x) (d ∷ y) a b f g e = last_part x y a b f g (ground arith)

-- What precedes the first colon of a text.
first_part :
    (token other rest job : Text)
    → colon_free token ≡ true
    → colon_free other ≡ true
    → token ++ 58 ∷ job ≡ other ++ 58 ∷ rest
    → token ≡ other
first_part [] [] rest job f g e = refl
first_part [] (d ∷ other) rest job f g e = absurd (ground arith)
first_part (c ∷ token) [] rest job f g e = absurd (ground arith)
first_part (c ∷ token) (d ∷ other) rest job f g e =
    ground (arith, first_part token other rest job (ground arith) (ground arith) (ground arith))

pub other_prefix :
    (token other job : Text)
    → colon_free token ≡ true
    → colon_free other ≡ true
    → other ≢ token
    → starts_with (final_value_prefix other) (final_value token job) ≡ false
unfolding text_eq
other_prefix token other job f g n = elim (Bool-cases (text_eq (take (length p) whole) p)) [
  | inr e ↦ e
  | inl e ↦
      let same : take (length p) whole ≡ p = (text_eq_iff (take (length p) whole) p).0 e in
      let split : other ++ 58 ∷ drop (length p) whole ≡ whole =
        sym (append_assoc other (58 ∷ []) (drop (length p) whole))
        ∙ ap (λ t. t ++ drop (length p) whole) (sym same)
        ∙ take-append-drop (length p) whole in
      absurd (n (sym (first_part token other (drop (length p) whole) job f g (sym split))))
]
  where
    p : Text
    p = other ++ 58 ∷ []

    whole : Text
    whole = token ++ 58 ∷ job

pub other_suffix :
    (token other job : Text)
    → colon_free job ≡ true
    → colon_free other ≡ true
    → other ≢ job
    → ends_with (codes ":" ++ other) (final_value token job) ≡ false
other_suffix token other job f g n =
    let whole = final_value token job in
    let start = length whole - length (58 ∷ other) in
    elim (Bool-cases (text_eq (drop start whole) (58 ∷ other))) [
      | inr e ↦ e
      | inl e ↦
          let same : drop start whole ≡ 58 ∷ other =
            (text_eq_iff (drop start whole) (58 ∷ other)).0 e in
          let split : take start whole ++ 58 ∷ other ≡ whole =
            ap (λ t. take start whole ++ t) (sym same) ∙ take-append-drop start whole in
          absurd (n (last_part (take start whole) (final_prefix ++ token) other job g f split))
    ]
