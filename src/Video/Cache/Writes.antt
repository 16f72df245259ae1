-- ===== src/Video/Cache/Writes.antt =====
-- internal/video/infrastructure/cache/repository.go: the calls that change a job. The wrapped
-- repository decides, and the key of the job follows.
use video_processor.Prelude.{
  ℕ, ltb, ℤ, ltb_ℤ, Text, codes, text_eq, Bool, true, false, not, if◌then◌else◌, Option, none, some,
}
use video_processor.Errors.{plain, Result, ok, err, errors_is, job_fenced}
use video_processor.Redis.{Key, current, set_for, Fate, heard, unreached, unheard, settled}
use video_processor.Video.Status.{
  JobStatus, pending, queued, processing, completed, failed, unrecognized,
}
use video_processor.Video.Job.{VideoJob}
use video_processor.Video.Store.{Database, Turn}
use video_processor.Video.Repository
use video_processor.Video.Cache.{
  CachedJobRecord, Stored, entry, malformed, other_type, Cache, put, entry_ttl, record_eq,
}

-- `ranks[status]`; `none` is Lua's nil.
unfoldable pub ranks : JobStatus → Option ℕ
ranks pending = some 0
ranks queued = some 1
ranks processing = some 2
ranks completed = some 3
ranks failed = some 3
ranks (unrecognized s) = none

-- What the script does: it sets the key, it leaves the key, or it stops with an error.
pub data ScriptVerdict : Type 0 where
  published : ScriptVerdict
  kept : ScriptVerdict
  script_error : Text → ScriptVerdict

abbrev pub by_rank : (same : Bool) (stands arrives : Option ℕ) → ScriptVerdict
by_rank same none _ = published
by_rank same (some r) none = script_error (codes "attempt to compare nil with number")
by_rank same (some r) (some n) =
    if ltb n r then kept else if ltb r n then published else if same then published else kept

abbrev pub by_epoch : CachedJobRecord → CachedJobRecord → ScriptVerdict
by_epoch rec old =
    if ltb_ℤ rec.lease_epoch old.lease_epoch
    then kept
    else if ltb_ℤ old.lease_epoch rec.lease_epoch
    then published
    else by_rank (record_eq old rec) (ranks old.status) (ranks rec.status)

-- A `GET` of a key that is not a string fails.
unfoldable pub verdict : CachedJobRecord → Option Stored → ScriptVerdict
verdict rec none = published
verdict rec (some other_type) = script_error (codes "WRONGTYPE")
verdict rec (some (malformed raw)) = published
verdict rec (some (entry old)) = if not (text_eq old.id rec.id) then published else by_epoch rec old

abbrev pub carried : ℕ → CachedJobRecord → Key Stored → ScriptVerdict → Result Bool × Key Stored
carried now rec k published = (ok true, set_for now entry_ttl (entry rec))
carried now rec k kept = (ok false, k)
carried now rec k (script_error m) = (err (plain m), k)

abbrev pub script_answered : Fate → Key Stored → Result Bool × Key Stored → Result Bool × Key Stored
script_answered heard k (a, new) = (a, new)
script_answered (unreached e) k (a, new) = (err e, k)
script_answered (unheard e) k (a, new) = (err e, new)

-- `writeThroughIfCurrentScript` on the key that it is given.
unfoldable pub write_through_if_current :
    Fate → ℕ → CachedJobRecord → Key Stored → Result Bool × Key Stored
write_through_if_current f now rec k =
    script_answered f k (carried now rec k (verdict rec (current now k)))

-- `DEL`
unfoldable pub delete : Fate → Text → Cache → Cache
delete f i c = put i (settled f (tt, none) (c i)).1 c

-- What surrounds the Redis calls that follow a write of the tables: the time and the fate of the
-- script, the fate of a delete, and what other clients do to the cache before the one and the other.
pub record Following : Type 0 where
  pub now : ℕ
  pub scripting : Fate
  pub deleting : Fate
  pub meanwhile : Cache → Cache
  pub afterwards : Cache → Cache

abbrev pub or_deleted : Following → Text → Cache → Result Bool × Key Stored → Cache
or_deleted w i c (ok b, k) = put i k c
or_deleted w i c (err e, k) = delete w.deleting i (w.afterwards (put i k c))

abbrev pub written_at : Following → CachedJobRecord → Cache → Result Text → Cache
written_at w rec c (err e) = c
written_at w rec c (ok i) = or_deleted w i c (write_through_if_current w.scripting w.now rec (c i))

unfoldable pub write_through : (Text → Result Text) → Following → CachedJobRecord → Cache → Cache
write_through parse w rec c = written_at w rec (w.meanwhile c) (parse rec.id)

unfoldable pub invalidate_after_ambiguous_write : Following → Text → Cache → Cache
invalidate_after_ambiguous_write w i c = delete w.deleting i (w.meanwhile c)

abbrev pub after_update :
    (Text → Result Text)
    → Following
    → VideoJob
    → Cache
    → Result Bool × Database
    → Result Bool × Database × Cache
after_update parse w job c (err e, db) = (
  err e,
  db,
  if not (errors_is e job_fenced) then invalidate_after_ambiguous_write w job.id c else c,
)
after_update parse w job c (ok false, db) = (ok false, db, c)
after_update parse w job c (ok true, db) = (ok true, db, write_through parse w job c)

unfoldable pub update :
    (Text → Result Text)
    → Turn
    → Following
    → VideoJob
    → ℤ
    → Database
    → Cache
    → Result Bool × Database × Cache
update parse t w job epoch db c = after_update parse w job c (Repository.update t job epoch db)

abbrev pub after_enqueue :
    (Text → Result Text)
    → Following
    → VideoJob
    → Cache
    → Result (Unit {0}) × Database
    → Result (Unit {0}) × Database × Cache
after_enqueue parse w job c (err e, db) = (err e, db, invalidate_after_ambiguous_write w job.id c)
after_enqueue parse w job c (ok u, db) = (ok tt, db, write_through parse w job c)

unfoldable pub enqueue :
    (Text → Result Text)
    → Turn
    → Following
    → VideoJob
    → Database
    → Cache
    → Result (Unit {0}) × Database × Cache
enqueue parse t w job db c = after_enqueue parse w job c (Repository.enqueue t job db)

-- The entry carries the epoch that the claim reports.
abbrev pub after_claim :
    (Text → Result Text)
    → Following
    → VideoJob
    → Cache
    → Result (Bool × ℤ) × Database
    → Result (Bool × ℤ) × Database × Cache
after_claim parse w job c (err e, db) = (err e, db, invalidate_after_ambiguous_write w job.id c)
after_claim parse w job c (ok (false, epoch), db) = (ok (false, epoch), db, c)
after_claim parse w job c (ok (true, epoch), db) =
    (ok (true, epoch), db, write_through parse w (record job { lease_epoch = epoch }) c)

unfoldable pub claim_for_processing :
    (Text → Result Text)
    → Turn
    → Following
    → VideoJob
    → Database
    → Cache
    → Result (Bool × ℤ) × Database × Cache
claim_for_processing parse t w job db c =
    after_claim parse w job c (Repository.claim_for_processing t job db)

abbrev pub after_requeue :
    (Text → Result Text)
    → Following
    → VideoJob
    → Cache
    → Result Bool × Database
    → Result Bool × Database × Cache
after_requeue parse w job c (err e, db) = (err e, db, invalidate_after_ambiguous_write w job.id c)
after_requeue parse w job c (ok false, db) = (ok false, db, c)
after_requeue parse w job c (ok true, db) = (ok true, db, write_through parse w job c)

unfoldable pub requeue :
    (Text → Result Text)
    → Turn
    → Following
    → VideoJob
    → ℤ
    → Database
    → Cache
    → Result Bool × Database × Cache
requeue parse t w job epoch db c = after_requeue parse w job c (Repository.requeue t job epoch db)

unfoldable pub create : Turn → VideoJob → Database → Cache → Result (Unit {0}) × Database × Cache
create t job db c = let created = Repository.create t job db in (created.0, created.1, c)
