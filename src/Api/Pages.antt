-- ===== src/Api/Pages.antt =====
-- The pages of the listing of jobs.
use video_processor.Prelude.{
  ℕ, zero, suc, ◌+◌, ◌≤◌, pos, ◌≡◌, refl, sym, ap, ◌∙◌, Text, List, [], ◌∷◌, ◌++◌, take, drop,
  arith, inl, inr,
}
use video_processor.Errors.{Result, Result-cases, ok, err, ◌>>=◌}
use video_processor.Video.Job.{VideoJob}
use video_processor.Video.Keys.{new_user_id}
use video_processor.Video.Store.{Row, Database, Fault, answers, early, late, lost}
use video_processor.Video.Repository.{scan_job_row}
use video_processor.Worker.Sweeper.{cons_job, scan_rows, scanned}
use video_processor.Api.Listings.{user_rows, find_by_user_id, JobItem, items_of, list_user_jobs}

suc_add : (m n : ℕ) → suc m + n ≡ suc (m + n)
suc_add m n = omega arith

take_none : (n : ℕ) → take {A = Row} n [] ≡ []
take_none zero = refl
take_none (suc n) = refl

drop_none : (n : ℕ) → drop {A = Row} n [] ≡ []
drop_none zero = refl
drop_none (suc n) = refl

take-add : (m n : ℕ) (rows : List Row) → take (m + n) rows ≡ take m rows ++ take n (drop m rows)
take-add zero n rows = ground arith
take-add (suc m) n [] = ground (arith, take_none (suc m + n), take_none n)
take-add (suc m) n (r ∷ rows) =
    ap (λ k. take k (r ∷ rows)) (suc_add m n) ∙ ap (◌∷◌ r) (take-add m n rows)

drop-add : (o m : ℕ) (rows : List Row) → drop (o + m) rows ≡ drop m (drop o rows)
drop-add zero m rows = ground arith
drop-add (suc o) m [] = ground (arith, drop_none (suc o + m), drop_none m)
drop-add (suc o) m (r ∷ rows) = ap (λ k. drop k (r ∷ rows)) (suc_add o m) ∙ drop-add o m rows

items-append : (a b : List VideoJob) → items_of (a ++ b) ≡ items_of a ++ items_of b
unfolding items_of
items-append [] b = refl
items-append (j ∷ a) b = ground (arith, items-append a b)

cons_ok :
    (r : Result VideoJob) (rest : Result (List VideoJob)) (a : List VideoJob)
    → cons_job r rest ≡ ok a
    → (j : VideoJob) × (later : List VideoJob) × (r ≡ ok j) × (rest ≡ ok later) × (a ≡ j ∷ later)
cons_ok (err e) rest a h = absurd (ground arith)
cons_ok (ok j) (err e) a h = absurd (ground arith)
cons_ok (ok j) (ok later) a h = (j, later, refl, refl, ground arith)

scan-append :
    (parse : Text → Result Text) (xs ys : List Row) (a b : List VideoJob)
    → scan_rows parse xs ≡ ok a
    → scan_rows parse ys ≡ ok b
    → scan_rows parse (xs ++ ys) ≡ ok (a ++ b)
unfolding scan_rows
scan-append parse [] ys a b h k = ground arith
scan-append parse (x ∷ xs) ys a b h k =
    let (j, later, one, rest, whole) = cons_ok (scan_job_row parse x) (scan_rows parse xs) a h in
    rw (one, scan-append parse xs ys later b rest k, whole) refl

scanned_ok :
    (f : Fault) (r : Result (List VideoJob)) (a : List VideoJob) → scanned f r ≡ ok a → r ≡ ok a
scanned_ok answers r a h = h
scanned_ok (early e) r a h = absurd (ground arith)
scanned_ok (late e) r a h = absurd (ground arith)
scanned_ok (lost e) r a h = absurd (ground arith)

-- Where a page ends the next one begins.
page_cut :
    (o m n : ℕ) (rows : List Row)
    → take (m + n) (drop o rows) ≡ take m (drop o rows) ++ take n (drop (o + m) rows)
page_cut o m n rows =
    take-add m n (drop o rows)
    ∙ ap (λ t. take m (drop o rows) ++ take n t) (sym (drop-add o m rows))

found_scan :
    (parse : Text → Result Text) (f : Fault) (user : Text) (o m : ℕ) (db : Database)
    (a : List VideoJob)
    → find_by_user_id parse f user o m db ≡ ok a
    → scan_rows parse (take m (drop o (user_rows user db.rows))) ≡ ok a
unfolding find_by_user_id
found_scan parse f user o m db a h =
    scanned_ok f (scan_rows parse (take m (drop o (user_rows user db.rows)))) a h

listed :
    (parse : Text → Result Text) (f : Fault) (user : Text) (o m : ℕ) (db : Database)
    (items : List JobItem)
    → list_user_jobs parse f user (pos o) (pos m) db ≡ ok items
    → (1 ≤ m)
      × (new_user_id user ≡ ok user)
      × ((a : List VideoJob) × (find_by_user_id parse f user o m db ≡ ok a) × (items_of a ≡ items))
unfolding list_user_jobs new_user_id
listed parse f user o m db items h = elim (Result-cases (find_by_user_id parse f user o m db)) [
  | inr (e, g) ↦ absurd (ground arith)
  | inl (a, g) ↦ (ground arith, ground arith, (a, g, ground arith))
]

-- A client that asks for page after page of one size.
unfoldable pub pages :
    (Text → Result Text) → Fault → Text → (size count offset : ℕ) → Database → Result (List JobItem)
pages parse f user size zero o db = ok []
pages parse f user size (suc count) o db = do
  page ← list_user_jobs parse f user (pos o) (pos size) db
  rest ← pages parse f user size count (o + size) db
  ok (page ++ rest)

-- How many jobs so many pages have room for.
unfoldable pub room : ℕ → ℕ → ℕ
room size zero = 0
room size (suc count) = size + room size count

-- What the pages list is one stretch of the caller's rows.
pub paged :
    (parse : Text → Result Text) (f : Fault) (user : Text) (size count o : ℕ) (db : Database)
    (items : List JobItem)
    → pages parse f user size count o db ≡ ok items
    → (jobs : List VideoJob) × (scan_rows parse
          (take (room size count) (drop o (user_rows user db.rows)))
        ≡ ok jobs)
      × (items_of jobs ≡ items)
unfolding pages room scan_rows items_of
paged parse f user size zero o db items h = ([], refl, ground arith)
paged parse f user size (suc count) o db items h =
    elim (Result-cases (list_user_jobs parse f user (pos o) (pos size) db)) [
      | inr (e, g) ↦ absurd (ground arith)
      | inl (page, g) ↦ elim (Result-cases (pages parse f user size count (o + size) db)) [
        | inr (e, k) ↦ absurd (ground arith)
        | inl (rest, k) ↦
            let (_, _, (a, first, shown)) = listed parse f user o size db page g in
            let (b, second, others) = paged parse f user size count (o + size) db rest k in
            (
              a ++ b,
              ap (scan_rows parse) (page_cut o size (room size count) (user_rows user db.rows))
                  ∙ scan-append parse (take size (drop o (user_rows user db.rows)))
                      (take (room size count) (drop (o + size) (user_rows user db.rows))) a b
                      (found_scan parse f user o size db a first) second,
              ground (arith, items-append a b),
            )
      ]
    ]
