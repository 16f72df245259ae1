-- ===== src/Video/Keys/Roundtrip.antt =====
-- A result key and the identifier inside it.
use video_processor.Prelude.{
  ℕ, zero, suc, ◌-◌, ◌≤◌, ◌≡◌, refl, sym, ap, ◌∙◌, Text, true, Option, none, some, [], ◌∷◌, ◌++◌,
  length, has_prefix, has_suffix, slice, take, drop, arith, length-append, take-append-drop,
  text_eq, text_eq_iff, ◌≢◌,
}
use video_processor.Errors.{Result, ok}
use video_processor.Video.Keys.{
  result_storage_key, result_key_prefix, result_key_suffix, parsed_as,
  video_job_id_from_storage_key,
}

split_prefix : (p s : Text) → has_prefix p s ≡ true → p ++ drop (length p) s ≡ s
unfolding has_prefix
split_prefix [] s h = refl
split_prefix (c ∷ p) [] h = ground arith
split_prefix (c ∷ p) (d ∷ s) h = ground (arith, split_prefix p s)

split_suffix : (p s : Text) → has_suffix p s ≡ true → take (length s - length p) s ++ p ≡ s
unfolding has_suffix
split_suffix p s h =
    let same : drop (length s - length p) s ≡ p =
      (text_eq_iff (drop (length s - length p) s) p).0 (ground arith) in
    ap (◌++◌ (take (length s - length p) s)) (sym same) ∙ take-append-drop (length s - length p) s

suffix_after_prefix :
    (rest : Text)
    → has_suffix result_key_suffix (result_key_prefix ++ rest) ≡ true
    → 4 ≤ length rest
unfolding has_suffix text_eq
suffix_after_prefix [] h = ground arith
suffix_after_prefix (a ∷ []) h = ground arith
suffix_after_prefix (a ∷ b ∷ []) h = ground arith
suffix_after_prefix (a ∷ b ∷ c ∷ []) h = ground arith
suffix_after_prefix (a ∷ b ∷ c ∷ d ∷ rest) h = omega arith

-- Prefix and suffix cannot overlap, so the bounds of the slice are in range.
bounds_in_range :
    (raw : Text)
    → has_prefix result_key_prefix raw ≡ true
    → has_suffix result_key_suffix raw ≡ true
    → 11 ≤ length raw
bounds_in_range raw p s =
    let rest : Text = drop 7 raw in
    let split : result_key_prefix ++ rest ≡ raw = split_prefix result_key_prefix raw p in
    let long : 4 ≤ length rest = suffix_after_prefix rest (rw split s) in
    omega (arith, ap length split, length-append result_key_prefix rest)

-- `VideoJobIDFromStorageKey` never panics: on every key and with every parser it returns.
pub id_from_key_returns :
    (raw : Text) (parser : Option (Text → Result Text))
    → video_job_id_from_storage_key raw parser ≢ none
unfolding video_job_id_from_storage_key
id_from_key_returns raw none = ground arith
id_from_key_returns raw (some parse) = ground (arith, bounds_in_range raw)

has_prefix-take :
    (p s : Text) (n : ℕ) → has_prefix p s ≡ true → length p ≤ n → has_prefix p (take n s) ≡ true
unfolding has_prefix
has_prefix-take [] s n h b = refl
has_prefix-take (c ∷ p) s zero h b = absurd (omega arith)
has_prefix-take (c ∷ p) [] (suc n) h b = ground arith
has_prefix-take (c ∷ p) (d ∷ s) (suc n) h b =
    ground (arith, has_prefix-take p s n (ground arith) (omega arith))

between_affixes :
    (raw : Text)
    → has_prefix result_key_prefix raw ≡ true
    → has_suffix result_key_suffix raw ≡ true
    → raw ≡ result_storage_key (slice raw 7 (length raw - 4))
unfolding result_storage_key slice
between_affixes raw p s =
    let long = bounds_in_range raw p s in
    let start =
      split_prefix result_key_prefix (take (length raw - 4) raw)
        (has_prefix-take result_key_prefix raw (length raw - 4) p (omega arith)) in
    sym (ap (λ t. t ++ result_key_suffix) start ∙ split_suffix result_key_suffix raw s)

parsed_ok :
    (parse : Text → Result Text) (s id : Text) → parsed_as (parse s) ≡ ok id → parse s ≡ ok id
parsed_ok parse s id h = ground arith

-- A key that yields an identifier is the result key of a text that the parser takes for it: no other
-- key names a result.
pub result_storage_key-id_from_key :
    (raw id : Text) (parse : Text → Result Text)
    → video_job_id_from_storage_key raw (some parse) ≡ some (ok id)
    → (s : Text) × (raw ≡ result_storage_key s) × (parse s ≡ ok id)
unfolding video_job_id_from_storage_key
result_storage_key-id_from_key raw id parse h =
    let s = slice raw 7 (length raw - 4) in
    (s, ground (arith, between_affixes raw), ground (arith, parsed_ok parse s id))
