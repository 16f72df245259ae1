-- ===== src/Video/Repository/Outcomes.antt =====
-- The row after a terminal write that reports success.
use video_processor.Prelude.{
  ℤ, eq_ℤ_iff, text_eq_iff, text_eq_refl, Bool, true, false, ◌≡◌, refl, ◌&&◌, inl, inr, none, some,
  arith, Option-cases, Bool-cases, eq_ℤ,
}
use video_processor.Errors.{ok}
use video_processor.Video.Status.{processing, status_eq, status_eq_iff}
use video_processor.Video.Job.{VideoJob}
use video_processor.Video.Store.{Row, Database, Turn, find_row, find_row-put_row, find_row_id}
use video_processor.Video.Repository.{classify_refused_update, update, outcome_row}

-- Two aggregates record one outcome.
pub record SameOutcome (job again : VideoJob) : Type 0 where
  pub same_status : again.status ≡ job.status
  pub same_frames : again.frame_count ≡ job.frame_count
  pub same_reason : again.error_reason ≡ job.error_reason
  pub same_key : again.storage_key ≡ job.storage_key

pub record Records (job : VideoJob) (epoch : ℤ) (r : Row) : Type 0 where
  pub outcome : SameOutcome job r
  pub at_epoch : r.lease_epoch ≡ epoch

classified :
    (t : Turn) (job : VideoJob) (epoch : ℤ) (db : Database) (b : Bool)
    → classify_refused_update t job epoch db ≡ ok b
    → (r : Row) × (find_row job.id db.rows ≡ some r) × Records job epoch r
unfolding classify_refused_update
classified t job epoch db b h = elim (Option-cases (find_row job.id db.rows)) [
  | inl e ↦ absurd (ground arith)
  | inr (r, e) ↦ (
    r,
    e,
    ground (
      arith,
      eq_ℤ_iff r.lease_epoch epoch,
      status_eq_iff r.status job.status,
      eq_ℤ_iff r.frame_count job.frame_count,
      text_eq_iff r.error_reason job.error_reason,
      text_eq_iff r.storage_key job.storage_key,
    ),
  )
]

-- The call whose statement met no row.
missed :
    (t : Turn) (job : VideoJob) (epoch : ℤ) (db : Database) (b : Bool)
    → update t job epoch db ≡ (classify_refused_update t job epoch (t.meanwhile db), t.meanwhile db)
    → (update t job epoch db).0 ≡ ok b
    → (r : Row) × (find_row job.id (update t job epoch db).1.rows ≡ some r) × Records job epoch r
missed t job epoch db b e h = rw e (classified t job epoch (t.meanwhile db) b (rw e at h))

update_missed :
    (t : Turn) (job : VideoJob) (epoch : ℤ) (db : Database) (b : Bool)
    → (update t job epoch db).0 ≡ ok b
    → find_row job.id db.rows ≡ none
    → update t job epoch db ≡ (classify_refused_update t job epoch (t.meanwhile db), t.meanwhile db)
unfolding update
update_missed t job epoch db b h e = ground arith

update_refused :
    (t : Turn) (job : VideoJob) (epoch : ℤ) (db : Database) (b : Bool) (r : Row)
    → (update t job epoch db).0 ≡ ok b
    → find_row job.id db.rows ≡ some r
    → (eq_ℤ r.lease_epoch epoch && status_eq r.status processing) ≡ false
    → update t job epoch db ≡ (classify_refused_update t job epoch (t.meanwhile db), t.meanwhile db)
unfolding update
update_refused t job epoch db b r h e miss = ground arith

update_written :
    (t : Turn) (job : VideoJob) (epoch : ℤ) (db : Database) (b : Bool) (r : Row)
    → (update t job epoch db).0 ≡ ok b
    → find_row job.id db.rows ≡ some r
    → (eq_ℤ r.lease_epoch epoch && status_eq r.status processing) ≡ true
    → (find_row job.id (update t job epoch db).1.rows ≡ some (outcome_row job r))
      × (r.lease_epoch ≡ epoch)
unfolding update
update_written t job epoch db b r h e hit = ground (
  arith,
  eq_ℤ_iff r.lease_epoch epoch,
  find_row-put_row job.id (outcome_row job r) r db.rows,
  find_row_id job.id db.rows r e,
  text_eq_refl job.id,
)

-- An update that reports success, whether it wrote the row or found its own outcome there, leaves a
-- row that carries the outcome at the caller's epoch.
pub update_ok_row :
    (t : Turn) (job : VideoJob) (epoch : ℤ) (db : Database) (b : Bool)
    → (update t job epoch db).0 ≡ ok b
    → (r : Row) × (find_row job.id (update t job epoch db).1.rows ≡ some r) × Records job epoch r
update_ok_row t job epoch db b h = elim (Option-cases (find_row job.id db.rows)) [
  | inl e ↦ missed t job epoch db b (update_missed t job epoch db b h e) h
  | inr (r, e) ↦ elim (Bool-cases (eq_ℤ r.lease_epoch epoch && status_eq r.status processing)) [
    | inl hit ↦
        let (found, at) = update_written t job epoch db b r h e hit in
        (
          outcome_row job r,
          found,
          record {
            outcome = record {
              same_status = refl;
              same_frames = refl;
              same_reason = refl;
              same_key = refl;
            };
            at_epoch = at;
          },
        )
    | inr miss ↦ missed t job epoch db b (update_refused t job epoch db b r h e miss) h
  ]
]
