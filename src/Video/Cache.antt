-- ===== src/Video/Cache.antt =====
-- internal/video/infrastructure/cache/repository.go: the repository that keeps a copy of each job in
-- Redis, over the repository on the tables. A key of Redis is named by its job's id. Every record
-- encodes, and a script's numbers are exact, as Lua's are up to 2^53.
pub mod Ordering
pub mod Reading
pub mod Writes
pub mod Outcomes
use video_processor.Prelude.{
  ℕ, ltb, ℤ, eq_ℤ, ltb_ℤ, Text, codes, text_eq, Bool, true, false, not, ◌&&◌, ◌==◌, if◌then◌else◌,
  Option, none, some, is_empty, [],
}
use video_processor.Errors.{Error, plain, Result, ok, err, ◌>>=◌, ◌>>◌, errors_is, job_fenced}
use video_processor.Redis.{Key, current, set_for, Fate, heard, unreached, unheard, settled}
use video_processor.Video.Status.{
  JobStatus, pending, queued, processing, completed, failed, unrecognized, status_eq,
}
use video_processor.Video.Job.{VideoJob, restore_video_job}
use video_processor.Video.Keys.{new_user_id, new_storage_key}
use video_processor.Video.Filename.{new_original_filename}
use video_processor.Video.Store.{Fault, Database, Turn}
use video_processor.Video.Repository

-- The record has the fields of the aggregate, and its JSON is taken to be read back as it was
-- written, as it is for texts that are UTF-8.
abbrev pub CachedJobRecord : Type 0
CachedJobRecord = VideoJob

-- What a key holds: the text of a record, a text that no decoder reads, neither Go's nor Lua's, or a
-- value that is not a string.
pub data Stored : Type 0 where
  entry : CachedJobRecord → Stored
  malformed : Text → Stored
  other_type : Stored

abbrev pub Cache : Type 0
Cache = Text → Key Stored

abbrev pub put : Text → Key Stored → Cache → Cache
put i k c = λ j. if text_eq i j then k else c j

-- `entryTTL`, in seconds
abbrev pub entry_ttl : ℕ
entry_ttl = 300

-- `currentRaw == incomingRaw`: the encoder writes each field.
unfoldable pub record_eq : CachedJobRecord → CachedJobRecord → Bool
record_eq a b =
    text_eq a.id b.id
    && (text_eq a.user_id b.user_id
        && (text_eq a.original_filename b.original_filename
            && (text_eq a.source_key b.source_key
                && (text_eq a.content_hash b.content_hash
                    && (text_eq a.storage_key b.storage_key
                        && (eq_ℤ a.frame_count b.frame_count
                            && (text_eq a.error_reason b.error_reason
                                && (status_eq a.status b.status
                                    && (a.created_at == b.created_at
                                        && eq_ℤ a.lease_epoch b.lease_epoch)))))))))

abbrev pub stored_eq : Stored → Stored → Bool
stored_eq (entry a) (entry b) = record_eq a b
stored_eq (malformed s) (malformed t) = text_eq s t
stored_eq _ _ = false

abbrev pub parse_if_present : Text → Result Text
parse_if_present s = if is_empty s then ok [] else new_storage_key s

unfoldable pub to_video_job : (Text → Result Text) → CachedJobRecord → Result VideoJob
to_video_job parse rec = do
  id ← parse rec.id
  user ← new_user_id rec.user_id
  filename ← new_original_filename rec.original_filename
  source ← parse_if_present rec.source_key
  storage ← parse_if_present rec.storage_key
  restore_video_job id user filename source rec.content_hash storage rec.frame_count
      rec.error_reason rec.status rec.created_at rec.lease_epoch

-- What surrounds a lookup: the times of its first call and of its later ones, how each fares, and
-- what other clients do to the cache before the second and the third.
pub record Lookup : Type 0 where
  pub now : ℕ
  pub later : ℕ
  pub getting : Fate
  pub cleaning : Fate
  pub populating : Fate
  pub meanwhile : Cache → Cache
  pub afterwards : Cache → Cache

-- A script whose answer is not read.
abbrev pub left : Fate → Text → Key Stored → Cache → Cache
left f i new c = put i (settled f (tt, new) (c i)).1 c

-- `deleteMalformedIfUnchangedScript`; on a key of another type its GET fails.
abbrev pub unless_changed : Stored → Key Stored → Option Stored → Key Stored
unless_changed raw k none = k
unless_changed raw k (some v) = if stored_eq v raw then none else k

unfoldable pub delete_malformed_if_unchanged : Fate → ℕ → Text → Stored → Cache → Cache
delete_malformed_if_unchanged f now i raw c =
    left f i (unless_changed raw (c i) (current now (c i))) c

-- `deleteIfWrongTypeScript`
abbrev pub unless_string : Key Stored → Option Stored → Key Stored
unless_string k (some other_type) = none
unless_string k _ = k

unfoldable pub delete_if_wrong_type : Fate → ℕ → Text → Cache → Cache
delete_if_wrong_type f now i c = left f i (unless_string (c i) (current now (c i))) c

abbrev pub unusable : Lookup → Text → Stored → Cache → Option VideoJob × Cache
unusable l i raw c = (none, delete_malformed_if_unchanged l.cleaning l.later i raw (l.meanwhile c))

abbrev pub reconstructed :
    Lookup → Text → CachedJobRecord → Cache → Result VideoJob → Option VideoJob × Cache
reconstructed l i rec c (ok job) = (some job, c)
reconstructed l i rec c (err e) = unusable l i (entry rec) c

abbrev pub unread : Lookup → Text → Cache → Option VideoJob × Cache
unread l i c = (none, delete_if_wrong_type l.cleaning l.later i (l.meanwhile c))

abbrev pub got :
    (Text → Result Text) → Lookup → Text → Cache → Option Stored → Option VideoJob × Cache
got parse l i c none = (none, c)
got parse l i c (some other_type) = unread l i c
got parse l i c (some (malformed raw)) = unusable l i (malformed raw) c
got parse l i c (some (entry rec)) =
    if not (text_eq rec.id i)
    then unusable l i (entry rec) c
    else reconstructed l i rec c (to_video_job parse rec)

abbrev pub got_as :
    (Text → Result Text) → Lookup → Fate → Text → Cache → Option Stored → Option VideoJob × Cache
got_as parse l heard i c v = got parse l i c v
got_as parse l (unreached e) i c v = unread l i c
got_as parse l (unheard e) i c v = unread l i c

-- A hit, or `none`, and the cache as the call leaves it.
unfoldable pub read_cache : (Text → Result Text) → Lookup → Text → Cache → Option VideoJob × Cache
read_cache parse l i c = got_as parse l l.getting i c (current l.now (c i))

-- `SET NX EX`
abbrev pub if_absent : ℕ → VideoJob → Key Stored → Option Stored → Key Stored
if_absent now job k none = set_for now entry_ttl (entry job)
if_absent now job k (some v) = k

unfoldable pub write_cache_if_absent : Fate → ℕ → VideoJob → Cache → Cache
write_cache_if_absent f now job c =
    left f job.id (if_absent now job (c job.id) (current now (c job.id))) c

abbrev pub repopulated : Lookup → Cache → Result VideoJob → Result VideoJob × Cache
repopulated l c (err e) = (err e, c)
repopulated l c (ok job) = (ok job, write_cache_if_absent l.populating l.later job (l.afterwards c))

abbrev pub found :
    (Text → Result Text)
    → Lookup
    → Fault
    → Text
    → Database
    → Option VideoJob × Cache
    → Result VideoJob × Cache
found parse l f i db (some job, c) = (ok job, c)
found parse l f i db (none, c) = repopulated l c (Repository.find_by_id parse f i db)

-- The tables are as the wrapped repository's query finds them.
unfoldable pub find_by_id :
    (Text → Result Text) → Lookup → Fault → Text → Database → Cache → Result VideoJob × Cache
find_by_id parse l f i db c = found parse l f i db (read_cache parse l i c)
