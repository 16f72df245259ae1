-- ===== src/Video/Job/Lifecycle.antt =====
-- The life of a job under any calls of its methods: the edges that it follows, its end, its epoch.
use video_processor.Prelude.{
  ℕ, suc, ◌+◌, ◌≤◌, pos, max_int64, Text, ◌≡◌, refl, ◌∙◌, ap, List, [], ◌∷◌, Option, Option-cases,
  ◌⊎◌, inl, inr, none, some, arith, succ_int64,
}
use video_processor.Errors.{Error, ok}
use video_processor.Video.Status.{
  JobStatus, pending, queued, processing, completed, failed, is_valid,
}
use video_processor.Video.Job.{VideoJob, new_video_job, Call, requeues, call, calls}
use video_processor.Video.Job.Consistency.{
  IsConsistent, reload, reload-IsConsistent, call-IsConsistent,
}

-- The diagram that the comment on `validTransitions` draws.
infix 40 ◌⟶◌
pub data ◌⟶◌ : JobStatus → JobStatus → Type 0 where
  dispatch : pending ⟶ queued
  claim : queued ⟶ processing
  finish : processing ⟶ completed
  break : processing ⟶ failed
  give_back : processing ⟶ queued

ruleset edges = (dispatch, claim, finish, break, give_back)

-- Every call either succeeds along an edge of the diagram, or answers an error and changes no field
-- of the job.
call_cases :
    (c : Call) (j : VideoJob)
    → (((call c j).1 ≡ none) × (j.status ⟶ (call c j).0.status))
      ⊎ (((e : Error) × ((call c j).1 ≡ some e)) × ((call c j).0 ≡ j))
unfolding call
call_cases c j = elim (Option-cases (call c j).1) [
  | inl h ↦ inl (h, grind (arith, edges))
  | inr (e, h) ↦ inr ((e, h), ground arith)
]

pub calls-IsConsistent :
    (j : VideoJob) (cs : List Call) → IsConsistent j → IsConsistent (calls j cs)
unfolding calls
calls-IsConsistent j [] h = h
calls-IsConsistent j (c ∷ cs) h = calls-IsConsistent (call c j).0 cs (call-IsConsistent c j h)

pub new-IsConsistent :
    (id user filename source hash : Text) (j : VideoJob)
    → new_video_job (some id) user filename source hash ≡ ok j
    → IsConsistent j
unfolding new_video_job is_valid
new-IsConsistent id user filename source hash j h = ground arith

-- A job made by `NewVideoJob` and moved by any calls of its methods, failing ones included, can be
-- rebuilt by `RestoreVideoJob` from its fields, and comes back the same.
pub calls-reload :
    (id user filename source hash : Text) (j : VideoJob) (cs : List Call)
    → new_video_job (some id) user filename source hash ≡ ok j
    → reload (calls j cs) ≡ ok (calls j cs)
calls-reload id user filename source hash j cs h =
    reload-IsConsistent _
      (calls-IsConsistent j cs (new-IsConsistent id user filename source hash j h))

-- How many of the calls were a `Requeue` that succeeded.
abbrev counts : Call → Option Error → ℕ → ℕ
counts requeues none n = suc n
counts _ _ n = n

unfoldable pub requeues_done : VideoJob → List Call → ℕ
requeues_done j [] = 0
requeues_done j (c ∷ cs) = counts c (call c j).1 (requeues_done (call c j).0 cs)

counts_add : (c : Call) (o : Option Error) (a b : ℕ) → counts c o a + b ≡ a + counts c o b
counts_add requeues none a b = omega arith
counts_add _ _ a b = refl

counts-le : (c : Call) (o : Option Error) (b : ℕ) → b ≤ counts c o b
counts-le requeues none b = omega arith
counts-le _ _ b = omega arith

call_epoch :
    (c : Call) (j : VideoJob) (n b : ℕ)
    → j.lease_epoch ≡ pos n
    → n + counts c (call c j).1 b ≤ max_int64
    → (call c j).0.lease_epoch ≡ pos (counts c (call c j).1 n)
unfolding call succ_int64
call_epoch requeues j n b e h = ground arith
call_epoch _ j n b e h = ground arith

calls_epoch_from :
    (j : VideoJob) (cs : List Call) (n : ℕ)
    → j.lease_epoch ≡ pos n
    → n + requeues_done j cs ≤ max_int64
    → (calls j cs).lease_epoch ≡ pos (n + requeues_done j cs)
unfolding calls requeues_done
calls_epoch_from j [] n e h = e ∙ ap pos (omega arith)
calls_epoch_from j (c ∷ cs) n e h =
    let o = (call c j).1 in
    let rest = requeues_done (call c j).0 cs in
    let moved = call_epoch c j n rest e h in
    calls_epoch_from (call c j).0 cs (counts c o n) moved (omega (arith, counts_add c o n rest))
    ∙ ap pos (counts_add c o n rest)

-- Short of 2^63 - 1 of them, the epoch of a new job counts the `Requeue` calls that succeeded,
-- whatever other calls stand between.
pub calls_epoch :
    (id user filename source hash : Text) (j : VideoJob) (cs : List Call)
    → new_video_job (some id) user filename source hash ≡ ok j
    → requeues_done j cs ≤ max_int64
    → (calls j cs).lease_epoch ≡ pos (requeues_done j cs)
unfolding new_video_job
calls_epoch id user filename source hash j cs h b =
    calls_epoch_from j cs 0 (ground arith) (omega arith) ∙ ap pos (omega arith)
