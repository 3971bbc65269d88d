-- ===== src/Store/Sql.antt =====
-- A connection: the tables, and which of the coming statements the driver fails. A statement that
-- fails changes nothing, and a transaction that does not commit changes nothing, as SQLite documents.
pub mod Triple
use bfeed.Base.{Option, none, some, List, [], ◌∷◌}
use bfeed.Base.Exec.{Step, returned, Exec}
use bfeed.Base.Text.{codes}
use bfeed.Core.Types.{Error, Result, ok, err, Sentinel, not_found, conflict}
use bfeed.Store.Rows.{Db}

-- The driver's errors by kind: `sql.ErrNoRows`, the two constraint failures that `mapErr` knows by
-- their messages, and all others.
pub data SqlError : Type 0 where
  no_rows unique_failed foreign_key_failed : SqlError
  other : Error → SqlError

pub data SqlResult (A : Type 0) : Type 0 where
  done : A → SqlResult A
  failed : SqlError → SqlResult A

-- Each statement takes the head of `faults`, if there is one, and fails where that is an error.
pub record Conn : Type 0 where
  pub db : Db
  pub faults : List (Option Error)

abbrev pub Sql : Type 0 → Type 0
Sql A = Conn → SqlResult A × Conn

module _ {A : Type 0} where
  abbrev pub give : A → Sql A
  give a c = (done a, c)

  abbrev pub fail : SqlError → Sql A
  fail e c = (failed e, c)

  unfoldable pub applied : Conn → SqlResult (A × Db) → SqlResult A × Conn
  applied c (failed e) = (failed e, c)
  applied c (done (a, db)) = (done a, record c { db = db })

  unfoldable pub faulty :
      (Db → SqlResult (A × Db)) → List (Option Error) → Conn → SqlResult A × Conn
  unfolding applied
  faulty f [] c = applied c (f c.db)
  faulty f (none ∷ fs) c = applied (record c { faults = fs }) (f c.db)
  faulty f (some e ∷ fs) c = (failed (other e), record c { faults = fs })

  -- One statement.
  unfoldable pub statement : (Db → SqlResult (A × Db)) → Sql A
  unfolding faulty
  statement f c = faulty f c.faults c

  abbrev pub with_db : Db → SqlResult A → SqlResult (A × Db)
  with_db db (done a) = done (a, db)
  with_db db (failed e) = failed e

  -- A statement that reads.
  abbrev pub query : (Db → SqlResult A) → Sql A
  query f = statement (λ db. with_db db (f db))

module _ {A B : Type 0} where
  abbrev pub next : SqlResult A × Conn → (A → Sql B) → SqlResult B × Conn
  next (done a, c) f = f a c
  next (failed e, c) f = (failed e, c)

  infixl 5 ◌>>=◌
  unfoldable pub ◌>>=◌ : Sql A → (A → Sql B) → Sql B
  ◌>>=◌ m f c = next (m c) f

infixl 5 ◌>>◌
abbrev pub ◌>>◌ : {B : Type 0} → Sql (Unit {0}) → Sql B → Sql B
m >> k = m >>= λ _. k

-- `BeginTx` or `Commit`, which may fail like a statement.
abbrev pub boundary : Sql (Unit {0})
boundary = statement (λ db. done (tt, db))

module _ {A : Type 0} where
  unfoldable pub rolled_back : Db → SqlResult A × Conn → SqlResult A × Conn
  rolled_back db (done a, c) = (done a, c)
  rolled_back db (failed e, c) = (failed e, record c { db = db })

  -- `BeginTx`, the body and `Commit`, with the deferred `Rollback`.
  unfoldable pub transaction : Sql A → Sql A
  unfolding rolled_back ◌>>=◌ statement
  transaction m c = rolled_back c.db ((boundary >>= λ _. (m >>= λ a. (boundary >>= λ _. give a))) c)

module _ {A : Type 0} where
  unfoldable pub left_early : A → Db → SqlResult (Option A) × Conn → SqlResult A × Conn
  left_early a db (done (some b), c) = (done b, c)
  left_early a db (done none, c) = (done a, record c { db = db })
  left_early a db (failed e, c) = (failed e, record c { db = db })

  abbrev pub commit_some : Option A → Sql (Option A)
  commit_some none = give none
  commit_some (some b) = boundary >>= λ _. give (some b)

  -- The same where the body may return early: on `none` it is the deferred `Rollback` that ends the
  -- transaction, and the result is `a`.
  unfoldable pub transaction_or : A → Sql (Option A) → Sql A
  unfolding left_early ◌>>=◌ statement
  transaction_or a m c = left_early a c.db ((boundary >>= λ _. (m >>= commit_some)) c)

-- `mapErr`
unfoldable pub map_err : SqlError → Error
map_err no_rows = record { chain = not_found ∷ []; message = codes "not found" }
map_err unique_failed = record { chain = conflict ∷ []; message = codes "conflict" }
map_err foreign_key_failed = record { chain = conflict ∷ []; message = codes "conflict" }
map_err (other e) = e

module _ {A : Type 0} where
  unfoldable pub mapped : SqlResult A → Result A
  unfolding map_err
  mapped (done a) = ok a
  mapped (failed e) = err (map_err e)

  -- An operation of the store as a port of the services: it never panics.
  unfoldable pub run : Sql A → Exec Conn (Result A)
  unfolding mapped
  run m c = let (r, c') = m c in (returned (mapped r), c')
