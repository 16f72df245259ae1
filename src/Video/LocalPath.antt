-- ===== src/Video/LocalPath.antt =====
-- `localSourcePath` of internal/video/application/process_video_job.go, with the `filepath.Clean` of
-- a relative path that it calls.
pub mod Containment
use video_processor.Prelude.{
  ℕ, Text, codes, is_empty, text_eq, ◌||◌, ◌==◌, if◌then◌else◌, Option, none, some, List, [], ◌∷◌,
  ◌++◌, has_prefix,
}
use mathlib.Core.List.{reverse}

abbrev add_byte : ℕ → List Text → List Text
add_byte c [] = []
add_byte c (e ∷ es) = if c == b'/' then [] ∷ e ∷ es else (c ∷ e) ∷ es

-- The elements between the separators.
unfoldable pub split_path : Text → List Text
split_path [] = [] ∷ []
split_path (c ∷ s) = add_byte c (split_path s)

unfoldable pub join_path : List Text → Text
join_path [] = []
join_path (e ∷ []) = e
join_path (e ∷ f ∷ es) = e ++ (codes "/" ++ join_path (f ∷ es))

-- `..` takes the last element away, unless there is none to take.
abbrev parent : List Text → List Text
parent [] = codes ".." ∷ []
parent (e ∷ es) = if text_eq e (codes "..") then codes ".." ∷ e ∷ es else es

abbrev pub clean_step : List Text → Text → List Text
clean_step kept e =
    if is_empty e || text_eq e (codes ".")
    then kept
    else if text_eq e (codes "..")
    then parent kept
    else e ∷ kept

-- The kept elements, the last one first.
unfoldable pub clean_from : List Text → List Text → List Text
clean_from kept [] = kept
clean_from kept (e ∷ es) = clean_from (clean_step kept e) es

abbrev pub or_dot : Text → Text
or_dot s = if is_empty s then codes "." else s

unfoldable pub clean : Text → Text
unfolding split_path join_path clean_from text_eq
clean path = or_dot (join_path (reverse (clean_from [] (split_path path))))

-- `filepath.Clean(filepath.Join("temp", id + "_source"))`, refused if it does not stay under temp/.
unfoldable pub local_source_path : Text → Option Text
unfolding clean has_prefix
local_source_path id =
    let path = clean (codes "temp/" ++ (id ++ codes "_source")) in
    if has_prefix (codes "temp/") path then some path else none
