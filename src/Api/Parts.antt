-- ===== src/Api/Parts.antt =====
-- The body of an upload in cmd/video-api/video.go, the filename test of main.go beside it, and
-- SourceStorageKey of internal/video/domain/storage_key.go.
use video_processor.Prelude.{
  Text, codes, is_empty, text_eq, Bool, not, ◌&&◌, if◌then◌else◌, Option, none, some, List, [], ◌∷◌,
  ◌++◌,
}
use video_processor.Errors.{Error, plain, Result, ok, err}
use video_processor.Video.Filename.{ext, to_lower, supported_video_extension}
use video_processor.Video.LocalPath.{split_path}

-- The parts of the body as (form name, file name), and how reading them ends: `none` is io.EOF.
unfoldable pub video_file_part : Option Error → List (Text × Text) → Result Text
unfolding text_eq
video_file_part none [] = err (plain (codes "http: no such file"))
video_file_part (some e) [] = err e
video_file_part ends ((form, file) ∷ parts) =
    let rest = video_file_part ends parts in
    if text_eq form (codes "video") && not (is_empty file) then ok file else rest

unfoldable pub is_valid_video_file : Text → Bool
is_valid_video_file filename = supported_video_extension (to_lower (ext filename))

-- `path.Base` and, on a system whose separator is `/`, `filepath.Base`.
abbrev last_element : List Text → Text
last_element [] = codes "/"
last_element (e ∷ es) =
    let rest = last_element es in if text_eq rest (codes "/") && not (is_empty e) then e else rest

unfoldable pub base : Text → Text
unfolding split_path text_eq
base path = if is_empty path then codes "." else last_element (split_path path)

unfoldable pub source_storage_key : Text → Text → Text
unfolding base
source_storage_key upload_id filename =
    codes "uploads/" ++ (upload_id ++ (codes "_" ++ base filename))
