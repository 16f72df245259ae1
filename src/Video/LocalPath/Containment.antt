-- ===== src/Video/LocalPath/Containment.antt =====
-- Where a run keeps its copy of the upload.
use video_processor.Prelude.{
  Text, codes, text_eq, Bool, true, false, ◌==◌, if◌then◌else◌, ◌≡◌, refl, some, List, [], ◌∷◌,
  ◌++◌, has_prefix, arith,
}
use video_processor.Video.LocalPath.{
  split_path, join_path, clean, clean_from, clean_step, local_source_path,
}

abbrev pub slash_free : Text → Bool
slash_free [] = true
slash_free (c ∷ s) = if c == b'/' then false else slash_free s

slash_free-append :
    (s t : Text) → slash_free s ≡ true → slash_free t ≡ true → slash_free (s ++ t) ≡ true
slash_free-append [] t h k = k
slash_free-append (c ∷ s) t h k = ground (arith, slash_free-append s t)

split_slash_free : (s : Text) → slash_free s ≡ true → split_path s ≡ s ∷ []
unfolding split_path
split_slash_free [] h = refl
split_slash_free (c ∷ s) h = ground (arith, split_slash_free s)

split_temp :
    (s : Text) → slash_free s ≡ true → split_path (codes "temp/" ++ s) ≡ codes "temp" ∷ s ∷ []
unfolding split_path
split_temp s h = rw (split_slash_free s h) refl

kept_name :
    (id : Text) (kept : List Text)
    → clean_step kept (id ++ codes "_source") ≡ (id ++ codes "_source") ∷ kept
unfolding text_eq
kept_name [] kept = ground arith
kept_name (c ∷ []) kept = ground arith
kept_name (c ∷ d ∷ []) kept = ground arith
kept_name (c ∷ d ∷ e ∷ id) kept = ground arith

-- An id without a slash, as a canonical UUID is, always has a local path, which is that of a file
-- right under temp/ that carries the id in its name: no such id is refused, and none leads elsewhere.
pub local_source_path-slash_free :
    (id : Text)
    → slash_free id ≡ true
    → local_source_path id ≡ some (codes "temp/" ++ (id ++ codes "_source"))
unfolding local_source_path clean clean_from join_path has_prefix text_eq
local_source_path-slash_free id h =
    rw (split_temp (id ++ codes "_source") (slash_free-append id (codes "_source") h refl))
      (rw (kept_name id (codes "temp" ∷ [])) refl)
