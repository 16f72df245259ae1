-- ===== src/Video/Exec.antt =====
-- Code that runs on the tables: a call returns its result and the tables it leaves, and the tables
-- keep what was written before an error.
use video_processor.Prelude.{Text}
use video_processor.Errors.{Error, Result, ok, err}
use video_processor.Video.Job.{VideoJob}
use video_processor.Video.Store.{Database, Fault, Turn}
use video_processor.Video.Repository

abbrev pub Exec : Type 0 → Type 0
Exec A = Database → Result A × Database

abbrev continue : {A B : Type 0} → Result A × Database → (A → Exec B) → Result B × Database
continue (ok a, db) f = f a db
continue (err e, db) f = (err e, db)

infixl 5 ◌>>=◌ ◌>>◌
abbrev pub ◌>>=◌ : {A B : Type 0} → Exec A → (A → Exec B) → Exec B
◌>>=◌ m f db = continue (m db) f

abbrev pub ◌>>◌ : {B : Type 0} → Exec (Unit {0}) → Exec B → Exec B
m >> k = m >>= λ _. k

abbrev pub pure : {A : Type 0} → A → Exec A
pure a db = (ok a, db)

abbrev pub raise : {A : Type 0} → Error → Exec A
raise e db = (err e, db)

abbrev pub lift : {A : Type 0} → Result A → Exec A
lift r db = (r, db)

-- What the other clients of the database do while this one waits.
abbrev pub others : (Database → Database) → Exec (Unit {0})
others f db = (ok tt, f db)

abbrev pub find : (Text → Result Text) → Fault → Text → Exec VideoJob
find parse fault id db = (Repository.find_by_id parse fault id db, db)

-- The surroundings of one use case, which reads a job and then writes it: what others do before the
-- read and between the two, and how each call fares.
pub record Visit : Type 0 where
  pub before : Database → Database
  pub reading : Fault
  pub between : Database → Database
  pub writing : Turn
