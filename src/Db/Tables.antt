-- ===== src/Db/Tables.antt =====
-- migrations/001_init.sql: the tables. A row is the entity that it is mapped to; a column
-- that holds an enum as a text is the enum.
use benri_stream.Prelude.{List}
use benri_stream.Platform.{Result, ok, err}
use benri_stream.Video.{Video}
use benri_stream.Task.Types.{Task}
use benri_stream.Task.Scheduler.{RepositoryError}

pub record Db : Type 0 where
  pub videos : List Video
  pub tasks : List Task

-- A statement that runs on its own: its answer and the new tables, or the constraint that it breaks.
abbrev pub Stmt : Type 0 → Type 0
Stmt A = Db → Result RepositoryError (A × Db)

-- The tables when a statement has run. A statement that fails changes nothing.
abbrev pub after : {A : Type 0} → Stmt A → Db → Db
after s db = elim (s db) [ ok (a, db') ↦ db' | err e ↦ db ]
