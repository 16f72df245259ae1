-- ===== src/Witnesses/Caches.antt =====
-- The theorems on the cached repository, at one job whose writes arrive out of order.
use video_processor.Prelude.{
  ℕ, pos, codes, text_eq, true, false, ◌≡◌, refl, sym, ◌∙◌, ◌⊎◌, inl, inr, none, some, List, [],
  ◌∷◌, ◌↔◌, arith,
}
use video_processor.Errors.{errors_is, job_fenced, ok, err}
use video_processor.Redis.{current, heard}
use video_processor.Video.Status.{is_valid}
use video_processor.Video.Job.{VideoJob}
use video_processor.Video.Job.Consistency.{IsConsistent}
use video_processor.Video.Filename.{new_original_filename, supported_video_extension, to_lower, ext}
use video_processor.Video.Store.{
  answers, lost, DriverError, mark_unavailable, is_unavailable, Turn, find_row,
}
use video_processor.Video.Repository
use video_processor.Video.Cache.{Cache, entry, Lookup, find_by_id, put}
use video_processor.Video.Cache.Ordering.{
  arrivals, upto, Timely, over, arrival, Arrived, first, later, arrivals_any_order,
}
use video_processor.Video.Cache.Reading.{IsHit, find_by_id_answers}
use video_processor.Video.Cache.Outcomes.{update-published, update-failed}
use video_processor.Video.Cache.Writes.{ranks, Following, update, write_through_if_current, verdict}
use video_processor.Witnesses.World.{
  job_id, parse, parsed, dispatched, running, finished, calm, tables,
}

abbrev one_lookup : Lookup
one_lookup = record {
  now = 20;
  later = 20;
  getting = heard;
  cleaning = heard;
  populating = heard;
  meanwhile = λ c. c;
  afterwards = λ c. c;
}

abbrev following : Following
following = record {
  now = 10;
  scripting = heard;
  deleting = heard;
  meanwhile = λ c. c;
  afterwards = λ c. c;
}

-- The key of the job still tells of the claim.
abbrev stale : Cache
stale = put job_id (some (record { value = entry running; expires = 300 })) (λ i. none)

find_by_id_answers_example :
    ((find_by_id parse one_lookup answers job_id (tables running) stale).0
      ≡ Repository.find_by_id parse answers job_id (tables running))
    ⊎ ((job : VideoJob) × ((find_by_id parse one_lookup answers job_id (tables running) stale).0
          ≡ ok job)
        × IsHit parse one_lookup job_id stale job
        × IsConsistent job)
find_by_id_answers_example =
    find_by_id_answers parse one_lookup answers job_id (tables running) stale

abbrev in_order : List (ℕ × VideoJob)
in_order = (10, dispatched) ∷ (20, running) ∷ (30, finished) ∷ []

abbrev reversed : List (ℕ × VideoJob)
reversed = (12, finished) ∷ (14, dispatched) ∷ (16, running) ∷ []

in_order-Timely : Timely job_id 10 in_order
unfolding is_valid
in_order-Timely = arrival 10 dispatched (omega arith) (omega arith) refl refl (
    arrival 20 running (omega arith) (omega arith) refl refl
      (arrival 30 finished (omega arith) (omega arith) refl refl over))

reversed-Timely : Timely job_id 10 reversed
unfolding is_valid
reversed-Timely = arrival 12 finished (omega arith) (omega arith) refl refl (
    arrival 14 dispatched (omega arith) (omega arith) refl refl
      (arrival 16 running (omega arith) (omega arith) refl refl over))

rotated :
    (a p q r : VideoJob) (i j k l m n : ℕ)
    → Arrived a ((i, p) ∷ (j, q) ∷ (k, r) ∷ [])
    → Arrived a ((l, r) ∷ (m, p) ∷ (n, q) ∷ [])
rotated _ p q r i j k l m n (first _ _ _) = later (l, r) (first m p ((n, q) ∷ []))
rotated _ p q r i j k l m n (later _ (first _ _ _)) = later (l, r) (later (m, p) (first n q []))
rotated _ p q r i j k l m n (later _ (later _ (first _ _ _))) = first l r ((m, p) ∷ (n, q) ∷ [])
rotated a p q r i j k l m n (later _ (later _ (later _ x))) = elim x [ ]

same_records : (a : VideoJob) → Arrived a in_order ↔ Arrived a reversed
same_records a = (
  rotated a dispatched running finished 10 20 30 12 14 16,
  λ x.
      rotated a running finished dispatched 1 2 3 10 20 30
        (rotated a finished dispatched running 12 14 16 1 2 3 x),
)

three_cases :
    (a p q r : VideoJob) (i j k : ℕ)
    → Arrived a ((i, p) ∷ (j, q) ∷ (k, r) ∷ [])
    → (a ≡ p) ⊎ ((a ≡ q) ⊎ (a ≡ r))
three_cases _ p q r i j k (first _ _ _) = inl refl
three_cases _ p q r i j k (later _ (first _ _ _)) = inr (inl refl)
three_cases _ p q r i j k (later _ (later _ (first _ _ _))) = inr (inr refl)
three_cases a p q r i j k (later _ (later _ (later _ x))) = elim x [ ]

clash : (a b x y : VideoJob) → a ≡ x → b ≡ y → upto x y ≡ false → upto a b ≡ true → a ≡ b
clash a b x y e f h u = absurd (ground arith)

one_of_each :
    (a b : VideoJob)
    → Arrived a in_order
    → Arrived b in_order
    → upto a b ≡ true
    → upto b a ≡ true
    → a ≡ b
unfolding upto ranks
one_of_each a b m n u v = elim (three_cases a dispatched running finished 10 20 30 m) [
  | inl e ↦ elim (three_cases b dispatched running finished 10 20 30 n) [
    | inl f ↦ e ∙ sym f
    | inr (inl f) ↦ sym (clash b a running dispatched f e refl v)
    | inr (inr f) ↦ sym (clash b a finished dispatched f e refl v)
  ]
  | inr (inl e) ↦ elim (three_cases b dispatched running finished 10 20 30 n) [
    | inl f ↦ clash a b running dispatched e f refl u
    | inr (inl f) ↦ e ∙ sym f
    | inr (inr f) ↦ sym (clash b a finished running f e refl v)
  ]
  | inr (inr e) ↦ elim (three_cases b dispatched running finished 10 20 30 n) [
    | inl f ↦ clash a b finished dispatched e f refl u
    | inr (inl f) ↦ clash a b finished running e f refl u
    | inr (inr f) ↦ e ∙ sym f
  ]
]

arrivals_any_order_example :
    current 40 (arrivals in_order none) ≡ current 40 (arrivals reversed none)
arrivals_any_order_example =
    arrivals_any_order job_id 10 10 12 40 dispatched finished ((20, running) ∷ (30, finished) ∷ [])
      ((14, dispatched) ∷ (16, running) ∷ []) in_order-Timely reversed-Timely (omega arith)
      same_records one_of_each

finished_rules : IsConsistent finished
unfolding is_valid
finished_rules = record {
  has_id = λ e. absurd (ground arith);
  has_owner = λ e. absurd (ground arith);
  has_filename = λ e. absurd (ground arith);
  known_status = refl;
  counts_frames = refl;
  frames_of_completed = λ n. refl;
  reason_of_failed = λ n. absurd (n refl);
  failed_reason = λ e. absurd (ground arith);
  key_of_completed = λ n. refl;
  completed_key = λ e f. absurd (ground arith);
}

named : new_original_filename finished.original_filename ≡ ok finished.original_filename
unfolding new_original_filename supported_video_extension to_lower ext text_eq
named = refl

update_done : (update parse calm following finished (pos 0) (tables running) stale).0 ≡ ok true
unfolding update Repository.update find_row text_eq
update_done = refl

publishes_it : (write_through_if_current heard 10 finished (stale job_id)).0 ≡ ok true
unfolding write_through_if_current verdict ranks current text_eq
publishes_it = refl

update-published_example :
    (find_by_id parse one_lookup answers job_id
      (tables running)
      (update parse calm following finished (pos 0) (tables running) stale).2).0
    ≡ ok finished
update-published_example =
    update-published parse calm following one_lookup answers finished (pos 0) (tables running)
      (tables running) stale finished_rules parsed named update_done publishes_it refl (omega arith)

-- The answer to the commit is lost.
abbrev dropped : DriverError
dropped = record {
  is_context = false;
  sql_state = none;
  is_connect = false;
  is_unexpected_eof = true;
  is_net = false;
  message = codes "unexpected EOF";
}

abbrev severed : Turn
severed = record { fault = lost dropped; minted = codes "event"; meanwhile = λ db. db }

update_cut_off :
    (update parse severed following finished (pos 0) (tables running) stale).0
    ≡ err (mark_unavailable dropped)
unfolding update Repository.update find_row text_eq
update_cut_off = refl

not_fenced : errors_is (mark_unavailable dropped) job_fenced ≡ false
unfolding errors_is mark_unavailable is_unavailable
not_fenced = refl

update-failed_example :
    (find_by_id parse one_lookup answers job_id
      (tables finished)
      (update parse severed following finished (pos 0) (tables running) stale).2).0
    ≡ Repository.find_by_id parse answers job_id (tables finished)
update-failed_example =
    update-failed parse severed following one_lookup answers finished (pos 0) (tables running)
      (tables finished) stale (mark_unavailable dropped) update_cut_off not_fenced refl refl
