-- ===== src/Api/Complete.antt =====
-- What the pages of the listing of jobs hold together: all jobs of the caller, the newest first.
use mathlib.Core.List.Perm
use mathlib.Core.List.{Perm}
use video_processor.Prelude.{
  ℕ, zero, suc, ◌≤◌, ◌<◌, Bool-cases, true, false, ◌≡◌, refl, sym, ap, ◌∙◌, ◌⊎◌, inl, inr, Text,
  text_eq, if◌then◌else◌, List, [], ◌∷◌, length, take, arith,
}
use video_processor.Errors.{Result, ok}
use video_processor.Video.Job.{VideoJob}
use video_processor.Video.Store.{Row, Database, Fault}
use video_processor.Worker.Sweeper.{text_less, scan_rows}
use video_processor.Api.Listings.{is_newer, insert_newest, user_rows, JobItem, items_of}
use video_processor.Api.Pages.{pages, room, paged}

-- The rows of one user, in the order of the table.
unfoldable pub owned : Text → List Row → List Row
owned user [] = []
owned user (r ∷ rows) =
    let rest = owned user rows in if text_eq r.user_id user then r ∷ rest else rest

-- The first of two neighbours is the newer one, or as new with the smaller id.
abbrev pub Precedes : Row → Row → Type 0
Precedes r s =
    (s.created_at < r.created_at) ⊎ ((r.created_at ≡ s.created_at) × (text_less s.id r.id ≡ false))

pub data NewestFirst : List Row → Type 0 where
  no_rows : NewestFirst []
  one_row : (r : Row) → NewestFirst (r ∷ [])
  two_rows :
      {rows : List Row} (r s : Row)
      → Precedes r s
      → NewestFirst (s ∷ rows)
      → NewestFirst (r ∷ s ∷ rows)

text_less-asym : (s t : Text) → text_less s t ≡ true → text_less t s ≡ false
unfolding text_less
text_less-asym [] [] h = absurd (ground arith)
text_less-asym [] (d ∷ t) h = refl
text_less-asym (c ∷ s) [] h = absurd (ground arith)
text_less-asym (c ∷ s) (d ∷ t) h = ground (arith, text_less-asym s t)

newer-Precedes : (r s : Row) → is_newer r s ≡ true → Precedes r s
newer-Precedes r s h = ground (arith, text_less-asym r.id s.id)

older-Precedes : (r s : Row) → is_newer r s ≡ false → Precedes s r
older-Precedes r s h = ground arith

insert-NewestFirst :
    (r : Row) (rows : List Row) → NewestFirst rows → NewestFirst (insert_newest r rows)
unfolding insert_newest
insert-NewestFirst r [] no_rows = one_row r
insert-NewestFirst r _ (one_row s) = elim (Bool-cases (is_newer r s)) [
  | inl e ↦ rw e (two_rows r s (newer-Precedes r s e) (one_row s))
  | inr e ↦ rw e (two_rows s r (older-Precedes r s e) (one_row r))
]
insert-NewestFirst r _ (two_rows {rows} s t p rest) = elim (Bool-cases (is_newer r s)) [
  | inl e ↦ rw e (two_rows r s (newer-Precedes r s e) (two_rows s t p rest))
  | inr e ↦
      let later = insert-NewestFirst r (t ∷ rows) rest in
      elim (Bool-cases (is_newer r t)) [
        | inl g ↦ rw (e, g) (two_rows s r (older-Precedes r s e) (rw g at later))
        | inr g ↦ rw (e, g) (two_rows s t p (rw g at later))
      ]
]

insert-Perm : (r : Row) (rows : List Row) → Perm (insert_newest r rows) (r ∷ rows)
unfolding insert_newest
insert-Perm r [] = Perm.refl (r ∷ [])
insert-Perm r (s ∷ rows) = elim (Bool-cases (is_newer r s)) [
  | inl e ↦ rw e (Perm.refl (r ∷ s ∷ rows))
  | inr e ↦ rw e (Perm.trans (Perm.cons s (insert-Perm r rows)) (Perm.swap r s rows))
]

user_rows-Perm : (user : Text) (rows : List Row) → Perm (user_rows user rows) (owned user rows)
unfolding user_rows owned
user_rows-Perm user [] = Perm.refl []
user_rows-Perm user (r ∷ rows) = elim (Bool-cases (text_eq r.user_id user)) [
  | inl e ↦
      rw e
        (Perm.trans (insert-Perm r (user_rows user rows)) (Perm.cons r (user_rows-Perm user rows)))
  | inr e ↦ rw e (user_rows-Perm user rows)
]

user_rows-NewestFirst : (user : Text) (rows : List Row) → NewestFirst (user_rows user rows)
unfolding user_rows
user_rows-NewestFirst user [] = no_rows
user_rows-NewestFirst user (r ∷ rows) = elim (Bool-cases (text_eq r.user_id user)) [
  | inl e ↦ rw e (insert-NewestFirst r (user_rows user rows) (user_rows-NewestFirst user rows))
  | inr e ↦ rw e (user_rows-NewestFirst user rows)
]

length-insert_newest :
    (r : Row) (rows : List Row) → length (insert_newest r rows) ≡ suc (length rows)
unfolding insert_newest
length-insert_newest r [] = refl
length-insert_newest r (s ∷ rows) = ground (arith, length-insert_newest r rows)

length-user_rows :
    (user : Text) (rows : List Row) → length (user_rows user rows) ≡ length (owned user rows)
unfolding user_rows owned
length-user_rows user [] = refl
length-user_rows user (r ∷ rows) =
    ground (arith, length-user_rows user rows, length-insert_newest r (user_rows user rows))

take_all : (n : ℕ) (rows : List Row) → length rows ≤ n → take n rows ≡ rows
take_all zero [] h = refl
take_all zero (r ∷ rows) h = absurd (omega arith)
take_all (suc n) [] h = refl
take_all (suc n) (r ∷ rows) h = ap (◌∷◌ r) (take_all n rows (omega arith))

-- The listing of jobs is complete and in order. If a caller asks for page after page of one size from
-- the start, the tables stay the same, every page is answered, and the pages have room for the
-- caller's jobs, then together they list exactly the jobs of the caller's rows, each once, the
-- newest first and jobs of one instant by their ids.
pub pages-NewestFirst :
    (parse : Text → Result Text) (f : Fault) (user : Text) (size count : ℕ) (db : Database)
    (items : List JobItem)
    → length (owned user db.rows) ≤ room size count
    → pages parse f user size count 0 db ≡ ok items
    → (rows : List Row) × (jobs : List VideoJob) × Perm rows (owned user db.rows)
      × NewestFirst rows
      × (scan_rows parse rows ≡ ok jobs)
      × (items_of jobs ≡ items)
pages-NewestFirst parse f user size count db items fits h =
    let rows = user_rows user db.rows in
    let (jobs, scans, listed) = paged parse f user size count 0 db items h in
    (
      rows,
      jobs,
      user_rows-Perm user db.rows,
      user_rows-NewestFirst user db.rows,
      ap (scan_rows parse)
            (sym (take_all (room size count) rows (omega (arith, length-user_rows user db.rows))))
          ∙ scans,
      listed,
    )
