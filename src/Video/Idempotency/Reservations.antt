-- ===== src/Video/Idempotency/Reservations.antt =====
-- What a reservation of an idempotency key is worth.
use video_processor.Prelude.{
  ℕ, ◌+◌, ◌<◌, Text, codes, text_eq, text_eq_iff, text_eq_refl, has_prefix, true, false, ◌≡◌, refl,
  ◌≢◌, some, List, [], ◌∷◌, ◌++◌, arith,
}
use video_processor.Errors.{ok}
use video_processor.Redis.{Key, current, set_for, Fate, heard}
use video_processor.Video.Keys.{new_video_job_id}
use video_processor.Video.Idempotency.{
  reserved_value, final_value, reserve, finalize, split_colon, lookup, clear, clear_by_job,
}
use video_processor.Video.Idempotency.Colons.{colon_free, other_prefix, other_suffix}

-- A call that names the key, by the token of its request or by a job.
pub data Request : Type 0 where
  reserves : Text → Request
  finalizes : Text → Text → Request
  clears : Text → Request
  clears_by_job : Text → Request

unfoldable pub request : Request → Fate → ℕ → Key Text → Key Text
unfolding reserve finalize clear clear_by_job
request (reserves token) f now s = (reserve f now token s).1
request (finalizes token job) f now s = (finalize f now token job s).1
request (clears token) f now s = (clear f now token s).1
request (clears_by_job job) f now s = (clear_by_job f now job s).1

-- The request of another token. A call by job has none.
abbrev pub Foreign : Text → Request → Type 0
Foreign token (reserves other) = other ≢ token
Foreign token (finalizes other job) = other ≢ token
Foreign token (clears other) = other ≢ token
Foreign token (clears_by_job job) = Unit {0}

pub data Requests (token : Text) (ends : ℕ) : List (Request × Fate × ℕ) → Type 0 where
  done : Requests token ends []
  next :
      {rest : List (Request × Fate × ℕ)} (r : Request) (f : Fate) (now : ℕ)
      → Foreign token r
      → now < ends
      → Requests token ends rest
      → Requests token ends ((r, f, now) ∷ rest)

unfoldable pub requests : Key Text → List (Request × Fate × ℕ) → Key Text
requests s [] = s
requests s ((r, f, now) ∷ rest) = requests (request r f now s) rest

other_reservation :
    (token other : Text)
    → other ≢ token
    → text_eq (reserved_value token) (reserved_value other) ≡ false
unfolding text_eq
other_reservation token other h = ground (arith, text_eq_iff token other)

request_lem :
    (token : Text) (made now : ℕ) (r : Request) (f : Fate)
    → Foreign token r
    → now < made + 300
    → request r f now (set_for made 300 (reserved_value token))
      ≡ set_for made 300 (reserved_value token)
unfolding request reserve finalize clear clear_by_job current text_eq
request_lem token made now (reserves other) f h k = ground arith
request_lem token made now (finalizes other job) f h k =
    ground (arith, other_reservation token other h)
request_lem token made now (clears other) f h k = ground (arith, other_reservation token other h)
request_lem token made now (clears_by_job job) f h k = ground arith

requests_lem :
    (token : Text) (made : ℕ) (xs : List (Request × Fate × ℕ))
    → Requests token (made + 300) xs
    → requests (set_for made 300 (reserved_value token)) xs
      ≡ set_for made 300 (reserved_value token)
unfolding requests
requests_lem token made xs done = refl
requests_lem token made xs (next r f now h k rest) =
    rw (request_lem token made now r f h k) (requests_lem token made _ rest)

reserved_lem :
    (made : ℕ) (token : Text) (s : Key Text)
    → (reserve heard made token s).0 ≡ ok (token, true)
    → (reserve heard made token s).1 ≡ set_for made 300 (reserved_value token)
unfolding reserve
reserved_lem made token s h = ground arith

finalized_lem :
    (made now : ℕ) (token job : Text)
    → now < made + 300
    → finalize heard now token job (set_for made 300 (reserved_value token))
      ≡ (ok true, set_for now 86400 (final_value token job))
unfolding finalize current
finalized_lem made now token job k = ground (arith, text_eq_refl (reserved_value token))

split_colon-append :
    (token job : Text)
    → colon_free token ≡ true
    → split_colon (token ++ (codes ":" ++ job)) ≡ some (token, job)
unfolding split_colon
split_colon-append [] job h = refl
split_colon-append (c ∷ token) job h = ground (arith, split_colon-append token job)

found_lem :
    (now later : ℕ) (token job : Text)
    → colon_free token ≡ true
    → job ≢ []
    → later < now + 86400
    → lookup heard later (set_for now 86400 (final_value token job)) ≡ ok (job, true)
unfolding lookup current has_prefix new_video_job_id
found_lem now later token [] h j k = absurd (j refl)
found_lem now later token (c ∷ job) h j k = ground (arith, split_colon-append token (c ∷ job) h)

-- What may reach the key of a finalized job: any reservation or finalization, the clearing of another
-- request, and the clearing of another job.
abbrev pub Unrelated : Text → Text → Request → Type 0
Unrelated token job (reserves other) = Unit {0}
Unrelated token job (finalizes other name) = Unit {0}
Unrelated token job (clears other) = (other ≢ token) × (colon_free other ≡ true)
Unrelated token job (clears_by_job other) = (other ≢ job) × (colon_free other ≡ true)

pub data Later (token job : Text) (ends : ℕ) : List (Request × Fate × ℕ) → Type 0 where
  no_more : Later token job ends []
  then_one :
      {rest : List (Request × Fate × ℕ)} (r : Request) (f : Fate) (now : ℕ)
      → Unrelated token job r
      → now < ends
      → Later token job ends rest
      → Later token job ends ((r, f, now) ∷ rest)

later_lem :
    (token job : Text) (made now : ℕ) (r : Request) (f : Fate)
    → colon_free token ≡ true
    → colon_free job ≡ true
    → Unrelated token job r
    → now < made + 86400
    → request r f now (set_for made 86400 (final_value token job))
      ≡ set_for made 86400 (final_value token job)
unfolding request reserve finalize clear clear_by_job current text_eq
later_lem token job made now (reserves other) f c d u k = ground arith
later_lem token job made now (finalizes other name) f c d u k = ground arith
later_lem token job made now (clears other) f c d (n, g) k =
    ground (arith, other_prefix token other job c g n)
later_lem token job made now (clears_by_job other) f c d (n, g) k =
    ground (arith, other_suffix token other job d g n)

laters_lem :
    (token job : Text) (made : ℕ) (ys : List (Request × Fate × ℕ))
    → colon_free token ≡ true
    → colon_free job ≡ true
    → Later token job (made + 86400) ys
    → requests (set_for made 86400 (final_value token job)) ys
      ≡ set_for made 86400 (final_value token job)
unfolding requests
laters_lem token job made ys c d no_more = refl
laters_lem token job made ys c d (then_one r f now u k rest) =
    rw (later_lem token job made now r f c d u k) (laters_lem token job made _ c d rest)

-- A reservation that was granted is honoured: whatever requests with other tokens, and whatever
-- clearings by job, reach the key before the reservation ends, its owner's finalization before then
-- succeeds, and for a day after it a lookup finds the job, whatever reservations and finalizations,
-- clearings with other tokens and clearings of other jobs reach the key in between. The calls of
-- the owner and the lookup are answered, the tokens and the ids of the jobs after the finalization
-- have no colon, and the job's id is not empty.
pub reservation_honoured :
    (token job : Text) (made now later : ℕ) (s : Key Text)
    (before after : List (Request × Fate × ℕ))
    → (reserve heard made token s).0 ≡ ok (token, true)
    → Requests token (made + 300) before
    → now < made + 300
    → colon_free token ≡ true
    → colon_free job ≡ true
    → job ≢ []
    → Later token job (now + 86400) after
    → later < now + 86400
    → ((finalize heard now token job (requests (reserve heard made token s).1 before)).0 ≡ ok true)
      × (lookup heard later (
            requests
              (finalize heard now token job (requests (reserve heard made token s).1 before)).1
              after)
          ≡ ok (job, true))
reservation_honoured token job made now later s before after granted p k c d j q l =
    rw (reserved_lem made token s granted) (
      rw (requests_lem token made before p) (
        rw (finalized_lem made now token job k)
          (refl, rw (laters_lem token job now after c d q) (found_lem now later token job c j l))))
