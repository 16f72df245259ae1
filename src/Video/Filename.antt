-- ===== src/Video/Filename.antt =====
-- internal/video/domain/original_filename.go, with the two library calls that it makes:
-- `filepath.Ext` on a system whose path separator is `/`, and `strings.ToLower`.
use video_processor.Prelude.{
  ℕ, zero, suc, ◌+◌, Text, codes, is_empty, Bool, not, ◌&&◌, ◌||◌, leb, ◌==◌, if◌then◌else◌, [],
  ◌∷◌, length, drop, text_eq,
}
use video_processor.Errors.{Result, ok, err, sentinel, invalid_original_filename}

abbrev byte_at : ℕ → Text → ℕ
byte_at i [] = 0
byte_at zero (c ∷ s) = c
byte_at (suc i) (c ∷ s) = byte_at i s

-- The loop of `filepath.Ext`: `for i := len(path)-1; i >= 0 && path[i] != '/'; i--`, with `n` = i + 1.
ext_from : ℕ → Text → Text
ext_from zero path = []
ext_from (suc n) path =
    let rest = ext_from n path in
    if byte_at n path == b'/' then [] else if byte_at n path == b'.' then drop n path else rest

unfoldable pub ext : Text → Text
unfolding ext_from
ext path = ext_from (length path) path

-- `strings.ToLower` as far as a comparison with ASCII text can see it: besides `A` to `Z`, two
-- letters outside ASCII have an ASCII lower case, U+212A and U+0130, of three and two bytes. Every other
-- letter outside ASCII stays outside it.
unfoldable pub to_lower : Text → Text
to_lower [] = []
to_lower (a ∷ []) = (if leb b'A' a && leb a b'Z' then a + 32 else a) ∷ []
to_lower (a ∷ b ∷ []) =
    let rest = to_lower (b ∷ []) in
    if a == 0xC4 && b == 0xB0
    then b'i' ∷ []
    else (if leb b'A' a && leb a b'Z' then a + 32 else a) ∷ rest
to_lower (a ∷ b ∷ c ∷ s) =
    let rest = to_lower (b ∷ c ∷ s) in
    let after_two = to_lower (c ∷ s) in
    let after_three = to_lower s in
    if a == 0xE2 && (b == 0x84 && c == 0xAA)
    then b'k' ∷ after_three
    else if a == 0xC4 && b == 0xB0
    then b'i' ∷ after_two
    else (if leb b'A' a && leb a b'Z' then a + 32 else a) ∷ rest

unfoldable pub supported_video_extension : Text → Bool
unfolding text_eq
supported_video_extension e =
    text_eq e (codes ".mp4")
    || (text_eq e (codes ".avi")
        || (text_eq e (codes ".mov")
            || (text_eq e (codes ".mkv")
                || (text_eq e (codes ".wmv")
                    || (text_eq e (codes ".flv") || text_eq e (codes ".webm"))))))

unfoldable pub new_original_filename : Text → Result Text
new_original_filename raw =
    if is_empty raw
    then err (sentinel invalid_original_filename)
    else if not (supported_video_extension (to_lower (ext raw)))
    then err (sentinel invalid_original_filename)
    else ok raw
