-- ===== src/Video/Cache/Ordering.antt =====
-- The entry that stands when the writes of a job reach Redis in any order.
use video_processor.Prelude.{
  ℕ, ◌+◌, ◌≤◌, ◌<◌, leb, ltb, ℤ, ltb_ℤ, eq_ℤ, eq_ℤ_iff, Text, text_eq_iff, Bool, true, false, ◌&&◌,
  ◌≡◌, refl, ap, sym, ◌∙◌, Option, none, some, List, [], ◌∷◌, ◌⊎◌, inl, inr, ◌↔◌, if◌then◌else◌,
  arith,
}
use video_processor.Redis.{Key, current, set_for, heard}
use video_processor.Video.Status.{
  JobStatus, pending, queued, processing, completed, failed, unrecognized, is_valid,
}
use video_processor.Video.Cache.{CachedJobRecord, Stored, entry, entry_ttl, record_eq}
use video_processor.Video.Cache.Writes.{
  ranks, ScriptVerdict, published, kept, verdict, by_rank, write_through_if_current,
}

-- The second record is of the first one's version, or of a later one.
abbrev rank_upto : Option ℕ → Option ℕ → Bool
rank_upto (some m) (some n) = leb m n
rank_upto _ _ = false

unfoldable pub upto : CachedJobRecord → CachedJobRecord → Bool
unfolding ranks
upto a b =
    if ltb_ℤ a.lease_epoch b.lease_epoch
    then true
    else eq_ℤ a.lease_epoch b.lease_epoch && rank_upto (ranks a.status) (ranks b.status)

-- The script runs once for each record, at its time.
unfoldable pub arrivals : List (ℕ × CachedJobRecord) → Key Stored → Key Stored
arrivals [] k = k
arrivals ((now, rec) ∷ rest) k = arrivals rest (write_through_if_current heard now rec k).1

-- Records of one job, with known statuses, in the time of one entry.
pub data Timely (i : Text) (from : ℕ) : List (ℕ × CachedJobRecord) → Type 0 where
  over : Timely i from []
  arrival :
      {rest : List (ℕ × CachedJobRecord)} (now : ℕ) (rec : CachedJobRecord)
      → from ≤ now
      → now < from + entry_ttl
      → rec.id ≡ i
      → is_valid rec.status ≡ true
      → Timely i from rest
      → Timely i from ((now, rec) ∷ rest)

pub data Arrived : CachedJobRecord → List (ℕ × CachedJobRecord) → Type 0 where
  first :
      (now : ℕ) (rec : CachedJobRecord) (rest : List (ℕ × CachedJobRecord))
      → Arrived rec ((now, rec) ∷ rest)
  later :
      {rec : CachedJobRecord} {rest : List (ℕ × CachedJobRecord)} (x : ℕ × CachedJobRecord)
      → Arrived rec rest
      → Arrived rec (x ∷ rest)

ranks_known : (s : JobStatus) → is_valid s ≡ true → (n : ℕ) × (ranks s ≡ some n)
unfolding is_valid ranks
ranks_known pending v = (0, refl)
ranks_known queued v = (1, refl)
ranks_known processing v = (2, refl)
ranks_known completed v = (3, refl)
ranks_known failed v = (3, refl)
ranks_known (unrecognized s) v = absurd (ground arith)

pub upto_refl : (r : CachedJobRecord) → is_valid r.status ≡ true → upto r r ≡ true
unfolding upto
upto_refl r v =
    let (n, e) = ranks_known r.status v in ground (arith, eq_ℤ_iff r.lease_epoch r.lease_epoch)

pub upto_trans : (a b c : CachedJobRecord) → upto a b ≡ true → upto b c ≡ true → upto a c ≡ true
unfolding upto
upto_trans a b c h k = ground (
  arith,
  eq_ℤ_iff a.lease_epoch b.lease_epoch,
  eq_ℤ_iff b.lease_epoch c.lease_epoch,
  eq_ℤ_iff a.lease_epoch c.lease_epoch,
)

-- The test of the script on the epochs `a` and `b` and the ranks `m` and `n`.
by_version :
    (a b : ℤ) (m n : ℕ) (same : Bool) (v : ScriptVerdict)
    → v ≡ (
        if ltb_ℤ b a then kept else if ltb_ℤ a b then published else by_rank same (some m) (some n))
    → ((v ≡ published) × ((if ltb_ℤ a b then true else eq_ℤ a b && leb m n) ≡ true))
      ⊎ ((v ≡ kept) × ((if ltb_ℤ b a then true else eq_ℤ b a && leb n m) ≡ true))
by_version a b m n same v h = ground arith

-- The script publishes a record that is not older than the entry, or keeps an entry that is not
-- older than the record.
verdict_cases :
    (old rec : CachedJobRecord)
    → old.id ≡ rec.id
    → is_valid old.status ≡ true
    → is_valid rec.status ≡ true
    → ((verdict rec (some (entry old)) ≡ published) × (upto old rec ≡ true))
      ⊎ ((verdict rec (some (entry old)) ≡ kept) × (upto rec old ≡ true))
unfolding verdict upto record_eq
verdict_cases old rec i v w =
    let (m, e) = ranks_known old.status v in
    let (n, f) = ranks_known rec.status w in
    let same = (text_eq_iff old.id rec.id).1 i in
    elim (by_version old.lease_epoch rec.lease_epoch m n (record_eq old rec)
      (verdict rec (some (entry old))) (rw same (rw e (rw f refl)))) [
        | inl (p, u) ↦ inl (p, rw e (rw f u))
        | inr (p, u) ↦ inr (p, rw e (rw f u))
      ]

-- A key that holds an entry until the end of the time, or later.
abbrev Holds : Text → ℕ → CachedJobRecord → Key Stored → Type 0
Holds i until s k =
    (e : ℕ) × (k ≡ some (record { value = entry s; expires = e }))
    × (until ≤ e)
    × (s.id ≡ i)
    × (is_valid s.status ≡ true)

ltb_late : (now until e : ℕ) → now < until → until ≤ e → ltb now e ≡ true
ltb_late now until e b c = ground arith

-- One arrival leaves the record or the entry, the later of the two.
arrived :
    (i : Text) (from now : ℕ) (old rec : CachedJobRecord) (k : Key Stored)
    → from ≤ now
    → now < from + entry_ttl
    → rec.id ≡ i
    → is_valid rec.status ≡ true
    → Holds i (from + entry_ttl) old k
    → (Holds i (from + entry_ttl) rec (write_through_if_current heard now rec k).1
        × (upto old rec ≡ true))
      ⊎ (Holds i (from + entry_ttl) old (write_through_if_current heard now rec k).1
          × (upto rec old ≡ true))
unfolding write_through_if_current current
arrived i from now old rec k a b named known (e, same, late, old_named, old_known) =
    elim (verdict_cases old rec (old_named ∙ sym named) old_known known) [
      | inl (p, u) ↦ inl (
        (
          now + entry_ttl,
          rw same (rw ((ltb_late now (from + entry_ttl) e b late)) (rw p refl)),
          omega arith,
          named,
          known,
        ),
        u,
      )
      | inr (q, u) ↦ inr (
        (
          e,
          rw same (rw (ltb_late now (from + entry_ttl) e b late) (rw q refl)),
          late,
          old_named,
          old_known,
        ),
        u,
      )
    ]

came :
    (now : ℕ) (rec : CachedJobRecord) (rest : List (ℕ × CachedJobRecord)) (s : CachedJobRecord)
    → (s ≡ rec) ⊎ Arrived s rest
    → Arrived s ((now, rec) ∷ rest)
came now rec rest s (inl e) = rw e (first now rec rest)
came now rec rest s (inr m) = later (now, rec) m

stayed :
    (x : ℕ × CachedJobRecord) (rest : List (ℕ × CachedJobRecord)) (s old : CachedJobRecord)
    → (s ≡ old) ⊎ Arrived s rest
    → (s ≡ old) ⊎ Arrived s (x ∷ rest)
stayed x rest s old (inl e) = inl e
stayed x rest s old (inr m) = inr (later x m)

seen :
    (now : ℕ) (rec : CachedJobRecord) (rest : List (ℕ × CachedJobRecord)) (s : CachedJobRecord)
    → upto rec s ≡ true
    → ((r : CachedJobRecord) → Arrived r rest → upto r s ≡ true)
    → (r : CachedJobRecord) → Arrived r ((now, rec) ∷ rest)
    → upto r s ≡ true
seen now rec rest s u all _ (first _ _ _) = u
seen now rec rest s u all r (later _ m) = all r m

-- However many arrive, the one that stands is the entry at the start or one of them, and none of
-- these is later.
stands :
    (i : Text) (from : ℕ) (old : CachedJobRecord) (k : Key Stored) (xs : List (ℕ × CachedJobRecord))
    → Timely i from xs
    → Holds i (from + entry_ttl) old k
    → (s : CachedJobRecord) × Holds i (from + entry_ttl) s (arrivals xs k)
      × ((s ≡ old) ⊎ Arrived s xs)
      × (upto old s ≡ true)
      × ((r : CachedJobRecord) → Arrived r xs → upto r s ≡ true)
unfolding arrivals
stands i from old k [] over h = (old, h, inl refl, upto_refl old h.4, λ r ever. elim ever [ ])
stands i from old k _ (arrival {rest} now rec a b named known t) h =
    elim (arrived i from now old rec k a b named known h) [
      | inl (holds, u) ↦
          let (s, ends, which, v, all) =
            stands i from rec (write_through_if_current heard now rec k).1 rest t holds in
          (
            s,
            ends,
            inr (came now rec rest s which),
            upto_trans old rec s u v,
            seen now rec rest s v all,
          )
      | inr (holds, u) ↦
          let (s, ends, which, v, all) =
            stands i from old (write_through_if_current heard now rec k).1 rest t holds in
          (
            s,
            ends,
            stayed (now, rec) rest s old which,
            v,
            seen now rec rest s (upto_trans rec old s u v) all,
          )
    ]

-- After the script has run, script_answered each time, for records of one job with known statuses, at
-- times within 300 seconds, on a key that was not set at first: the key holds one of the records,
-- and none of them has a later epoch, or the same epoch and a later position.
pub arrivals_latest :
    (i : Text) (from now t : ℕ) (r : CachedJobRecord) (xs : List (ℕ × CachedJobRecord))
    → Timely i from ((now, r) ∷ xs)
    → t < from + entry_ttl
    → (s : CachedJobRecord) × (current t (arrivals ((now, r) ∷ xs) none) ≡ some (entry s))
      × Arrived s ((now, r) ∷ xs)
      × ((q : CachedJobRecord) → Arrived q ((now, r) ∷ xs) → upto q s ≡ true)
unfolding arrivals write_through_if_current verdict current
arrivals_latest i from now t r xs (arrival _ _ a b named known p) w =
    let (s, (e, same, le, _, _), which, u, all) =
      stands i from r (set_for now entry_ttl (entry r)) xs p
        (now + entry_ttl, refl, omega arith, named, known) in
    (
      s,
      rw same (rw (ltb_late t (from + entry_ttl) e w le) refl),
      came now r xs s which,
      seen now r xs s u all,
    )

-- Two sequences of writes of one job's records, with known statuses, that the script runs and
-- answers at times within 300 seconds on a key that was not set, leave the same entry when they
-- have the same records, in whatever order and however often, where records of one epoch and
-- position are the same record.
pub arrivals_any_order :
    (i : Text) (from now later t : ℕ) (r q : CachedJobRecord) (xs ys : List (ℕ × CachedJobRecord))
    → Timely i from ((now, r) ∷ xs)
    → Timely i from ((later, q) ∷ ys)
    → t < from + entry_ttl
    → ((a : CachedJobRecord) → Arrived a ((now, r) ∷ xs) ↔ Arrived a ((later, q) ∷ ys))
    → ((a b : CachedJobRecord)
        → Arrived a ((now, r) ∷ xs)
        → Arrived b ((now, r) ∷ xs)
        → upto a b ≡ true
        → upto b a ≡ true
        → a ≡ b)
    → current t (arrivals ((now, r) ∷ xs) none) ≡ current t (arrivals ((later, q) ∷ ys) none)
arrivals_any_order i from now late t r q xs ys p o w same unique =
    let (a, ea, ma, ua) = arrivals_latest i from now t r xs p w in
    let (b, eb, mb, ub) = arrivals_latest i from late t q ys o w in
    let back = (same b).1 mb in
    ea ∙ (ap (λ v. some (entry v)) (unique a b ma back (ub a ((same a).0 ma)) (ua b back)) ∙ sym eb)
