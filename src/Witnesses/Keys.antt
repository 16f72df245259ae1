-- ===== src/Witnesses/Keys.antt =====
-- The theorems on the aggregate, its keys and its rows.
use video_processor.Prelude.{
  ◌≤◌, pos, max_int64, codes, ◌≡◌, refl, some, List, [], ◌∷◌, ◌++◌, arith,
}
use video_processor.Errors.{ok}
use video_processor.Video.Job.{
  new_video_job, Call, enqueues, starts, requeues, completes, call, calls,
}
use video_processor.Video.Job.Consistency.{reload}
use video_processor.Video.Job.Lifecycle.{calls-reload, calls_epoch, requeues_done}
use video_processor.Video.LocalPath.{local_source_path}
use video_processor.Video.LocalPath.Containment.{local_source_path-slash_free}
use video_processor.Witnesses.World.{job_id, uploaded, result_key}

-- A job that is tried twice, with a call out of turn in between.
abbrev life : List Call
life = enqueues ∷ starts ∷ requeues ∷ requeues ∷ starts ∷ completes result_key (pos 12) ∷ []

made :
    new_video_job
      (some uploaded.id)
      uploaded.user_id
      uploaded.original_filename
      uploaded.source_key
      uploaded.content_hash
    ≡ ok uploaded
unfolding new_video_job
made = refl

calls-reload_example : reload (calls uploaded life) ≡ ok (calls uploaded life)
calls-reload_example =
    calls-reload uploaded.id uploaded.user_id uploaded.original_filename uploaded.source_key
      uploaded.content_hash uploaded life made

few : requeues_done uploaded life ≤ max_int64
unfolding requeues_done call
few = ground arith

calls_epoch_example : (calls uploaded life).lease_epoch ≡ pos (requeues_done uploaded life)
calls_epoch_example =
    calls_epoch uploaded.id uploaded.user_id uploaded.original_filename uploaded.source_key
      uploaded.content_hash uploaded life made few

local_source_path-slash_free_example :
    local_source_path job_id ≡ some (codes "temp/" ++ (job_id ++ codes "_source"))
local_source_path-slash_free_example = local_source_path-slash_free job_id refl
