-- ===== src/Api/Sources.antt =====
-- Who owns the source object when an upload has been answered.
use video_processor.Prelude.{
  ◌≡◌, ◌≢◌, refl, sym, subst, ℕ, inl, inr, Text, text_eq_refl, Bool, true, false, Option, none,
  some, arith, Bool-cases,
}
use video_processor.Errors.{Error, Result, Result-cases, ok, err}
use video_processor.Redis.{Key, Fate, heard, unreached, unheard, settled}
use video_processor.Video.Status.{queued}
use video_processor.Video.Job.{VideoJob}
use video_processor.Video.Keys.{new_idempotency_key}
use video_processor.Video.Idgen.{IsParser}
use video_processor.Video.Idempotency.{reserve}
use video_processor.Video.Store.{Database}
use video_processor.Video.UseCases.{TransitionResult, enqueue_video_job, create_video_job}
use video_processor.Video.UseCases.Claims.{Dispatched}
use video_processor.Video.UseCases.Uploads.{enqueue_video_job-Dispatched}
use video_processor.Api.Jobs.{get_job_status}
use video_processor.Api.Parts.{video_file_part, base, is_valid_video_file, source_storage_key}
use video_processor.Api.Reservation.{wait_for_finalized, wait_rounds}
use video_processor.Api.Upload.{
  Upload, World, UploadReply, accepted, Ran, set_object, finalize_reservation, after_enqueue,
  after_create, duplicate, after_reserve, with_object, cleaned, after_put, owned_upload,
  named_upload, handle_video_upload,
}

-- The reply is 202 for a queued job, which the tables have as queued, with the newest event of the
-- outbox dispatching it.
abbrev pub Accepted : (Text → Result Text) → Option UploadReply → Database → Type 0
Accepted parse reply db =
    (job i : Text) × (reply ≡ some (accepted job queued)) × (parse job ≡ ok i) × Dispatched i db

finalize_db :
    (u : Upload) (token : Option Text) (job : Text) (w : World)
    → (finalize_reservation u token job w).db ≡ w.db
finalize_db u none job w = refl
finalize_db u (some token) job w = ground arith

parsed_job :
    (parse : Text → Result Text) (u : Upload) (job : Text) (db : Database)
    (moved : TransitionResult)
    → (enqueue_video_job parse u.enqueueing job db).0 ≡ ok moved
    → (i : Text) × (parse job ≡ ok i)
unfolding enqueue_video_job
parsed_job parse u job db moved h = elim (Result-cases (parse job)) [
  | inr (e, p) ↦ absurd (ground arith)
  | inl (i, p) ↦ (i, p)
]

module _ (parse : Text → Result Text) (u : Upload) (c : IsParser parse)
    (alone : (db : Database)
      → u.enqueueing.between (u.enqueueing.before db) ≡ u.enqueueing.before db) where
  abbrev Handed : Ran → Type 0
  Handed r = r.1.0 ≡ true → Accepted parse r.0 r.1.1.db

  enqueued_job :
      (job : Text) (db : Database) (moved : TransitionResult)
      → (enqueue_video_job parse u.enqueueing job db).0 ≡ ok moved
      → (i : Text) × (parse job ≡ ok i)
        × Dispatched i (enqueue_video_job parse u.enqueueing job db).1
  enqueued_job job db moved h =
      let (i, p) = parsed_job parse u job db moved h in
      (i, p, enqueue_video_job-Dispatched parse u.enqueueing job i db moved c p (alone db) h)

  after_enqueue-Handed :
      (token : Option Text) (job : Text) (w : World) (done : Result TransitionResult × Database)
      → ((moved : TransitionResult)
          → done.0 ≡ ok moved
          → (i : Text) × (parse job ≡ ok i) × Dispatched i done.1)
      → Handed (after_enqueue u token job w done)
  after_enqueue-Handed token job w (err e, db) d h = absurd (ground arith)
  after_enqueue-Handed token job w (ok moved, db) d h =
      let (i, p, dispatched) = d moved refl in
      (
        job,
        i,
        refl,
        p,
        subst (Dispatched i) (sym (finalize_db u token job (record w { db = db }))) dispatched,
      )

  after_create-Handed :
      (token : Option Text) (w : World) (made : Result (VideoJob × ℕ) × Database)
      → Handed (after_create parse u token w made)
  after_create-Handed token w (err e, db) h = absurd (ground arith)
  after_create-Handed token w (ok (job, at), db) h =
      after_enqueue-Handed token job.id w (enqueue_video_job parse u.enqueueing job.id db)
        (enqueued_job job.id db) h

  duplicate-Handed :
      (user : Text) (w : World) (waited : Option (Option Text × Key Text))
      → Handed (duplicate parse u user w waited)
  duplicate-Handed user w none h = absurd (ground arith)
  duplicate-Handed user w (some (none, s)) h = absurd (ground arith)
  duplicate-Handed user w (some (some job, s)) h =
      elim (Result-cases (get_job_status parse u.showing user job (u.waiting w.db))) [
        | inl (view, f) ↦ absurd (ground arith)
        | inr (e, f) ↦ absurd (ground arith)
      ]

  after_reserve-Handed :
      (user filename source : Text) (w : World) (kept : Result (Text × Bool) × Key Text)
      → Handed (after_reserve parse u user filename source w kept)
  after_reserve-Handed user filename source w (err e, s) h =
      after_create-Handed none (record w { key = s })
        (create_video_job parse u.creating u.generated user filename source u.content_hash w.db) h
  after_reserve-Handed user filename source w (ok (token, true), s) h =
      after_create-Handed (some token) (record w { key = s })
        (create_video_job parse u.creating u.generated user filename source u.content_hash w.db) h
  after_reserve-Handed user filename source w (ok (token, false), s) h =
      duplicate-Handed user (record w { key = s }) (wait_for_finalized wait_rounds u.polls 0 s) h

  with_object-Handed :
      (user filename source : Text) (w : World) (named : Result Text)
      → Handed (with_object parse u user filename source w named)
  with_object-Handed user filename source w (err e) h = absurd (ground arith)
  with_object-Handed user filename source w (ok key) h =
      after_reserve-Handed user filename source w (reserve u.reserving u.reserved_at u.token w.key)
        h

  kept_cleaned :
      (source : Text) (r : Ran)
      → Handed r
      → u.deleting ≡ heard
      → (cleaned u source r).1.objects source ≡ true
      → Accepted parse (cleaned u source r).0 (cleaned u source r).1.db
  kept_cleaned source (reply, (true, w)) h d k = h refl
  kept_cleaned source (reply, (false, w)) h d k = absurd (ground (arith, text_eq_refl source))

  kept_after_put :
      (user filename source : Text) (w : World) (put : Result (Unit {0}) × (Text → Bool))
      → u.deleting ≡ heard
      → ((e : Error) → put.0 ≡ err e → put.1 source ≡ false)
      → (after_put parse u user filename source w put).1.objects source ≡ true
      → Accepted parse
          (after_put parse u user filename source w put).0
          (after_put parse u user filename source w put).1.db
  kept_after_put user filename source w (err e, objects) d n k = absurd (ground (arith, n e refl))
  kept_after_put user filename source w (ok tt, objects) d n k =
      kept_cleaned source
        (with_object parse u user filename source (record w { objects = objects })
          (new_idempotency_key user u.content_hash))
        (with_object-Handed user filename source (record w { objects = objects })
          (new_idempotency_key user u.content_hash))
        d k

  failed_put :
      (source : Text) (f : Fate) (objects : Text → Bool)
      → ((e : Error) → f ≢ unheard e)
      → objects source ≡ false
      → (e : Error) → (settled f (tt {0}, set_object source true objects) objects).0 ≡ err e
      → (settled f (tt {0}, set_object source true objects) objects).1 source ≡ false
  failed_put source heard objects n o e h = absurd (ground arith)
  failed_put source (unreached x) objects n o e h = o
  failed_put source (unheard x) objects n o e h = absurd (n x refl)

  kept_owned :
      (filename : Text) (w : World) (user : Option Text)
      → u.deleting ≡ heard
      → ((e : Error) → u.putting ≢ unheard e)
      → w.objects (source_storage_key u.upload_id filename) ≡ false
      → (owned_upload parse u filename w user).1.objects (source_storage_key u.upload_id filename)
        ≡ true
      → Accepted parse
          (owned_upload parse u filename w user).0
          (owned_upload parse u filename w user).1.db
  kept_owned filename w none d n o k = absurd (ground arith)
  kept_owned filename w (some user) d n o k =
      let source = source_storage_key u.upload_id filename in
      kept_after_put user filename source w
        (settled u.putting (tt, set_object source true w.objects) w.objects) d
        (failed_put source u.putting w.objects n o) k

  kept_named :
      (w : World) (name : Text) (named : Result Text)
      → named ≡ ok name
      → u.deleting ≡ heard
      → ((e : Error) → u.putting ≢ unheard e)
      → w.objects (source_storage_key u.upload_id (base name)) ≡ false
      → (named_upload parse u w named).1.objects (source_storage_key u.upload_id (base name)) ≡ true
      → Accepted parse (named_upload parse u w named).0 (named_upload parse u w named).1.db
  kept_named w name (err e) g d n o k = absurd (ground arith)
  kept_named w name (ok file) g d n o k = elim (Bool-cases (is_valid_video_file file)) [
    | inr v ↦ absurd (ground arith)
    | inl v ↦ rw v (kept_owned (base file) w u.user d n (ground arith) (ground arith))
  ]

  -- With a parser that the use cases can rely on, and nobody else writing between the load and the
  -- write of this upload's enqueue: if the source object of an upload is in the bucket after its
  -- request, then the reply is a 202 whose job is queued, with its newest event dispatching it. It
  -- supposes that the object was not there before, that no store of it took effect with its answer
  -- lost, and that the deferred delete answers. So every other reply leaves no object behind.
  pub handle_video_upload-Accepted :
      (w : World) (name : Text)
      → video_file_part u.ends u.parts ≡ ok name
      → u.deleting ≡ heard
      → ((e : Error) → u.putting ≢ unheard e)
      → w.objects (source_storage_key u.upload_id (base name)) ≡ false
      → (handle_video_upload parse u w).1.objects (source_storage_key u.upload_id (base name))
        ≡ true
      → Accepted parse (handle_video_upload parse u w).0 (handle_video_upload parse u w).1.db
  unfolding handle_video_upload
  handle_video_upload-Accepted w name g d n o k =
      kept_named w name (video_file_part u.ends u.parts) g d n o k
