-- ===== src/Store/Exec.antt =====
-- The database connection of src/store.rs. Other clients may change the tables before any of the
-- runner's statements outside a transaction and before a transaction begins, and any statement may fail: `lost` before it took effect, `late` after it.
use claude_job_runner.Prelude.{Option, none, some, List, [], ◌∷◌, Str, Result, ok, err, ℕ}
use claude_job_runner.Job.{MessageId, UnknownStatus}
use claude_job_runner.Db.{Db}

-- The `sqlx::Error`s: a refused constraint, or whatever else the driver reports.
pub data DbError : Type 0 where
  constraint : DbError
  driver : Str → DbError

pub data StoreError : Type 0 where
  database : DbError → StoreError
  invalid_status : MessageId → UnknownStatus → StoreError
  not_pending : MessageId → StoreError
  insert_id_out_of_range : ℕ → StoreError

pub data Fault : Type 0 where
  fine : Fault
  lost late : DbError → Fault

-- What happens around one statement.
pub record Moment : Type 0 where
  pub others : Db → Db
  pub fault : Fault

-- The moments run out to a world with no other client and no failure.
pub record World : Type 0 where
  pub db : Db
  pub moments : List Moment

abbrev pub Query : Type 0 → Type 0
Query A = World → Result StoreError A × World

abbrev pub quiet : Db → World
quiet d = record { db = d; moments = [] }

module _ {A : Type 0} where
  unfoldable pub pure : A → Query A
  pure a w = (ok a, w)

  unfoldable pub raise : StoreError → Query A
  raise e w = (err e, w)

  unfoldable pub lift : Result StoreError A → Query A
  lift r w = (r, w)

module _ {A B : Type 0} where
  abbrev pub continue : Result StoreError A → (A → Query B) → Query B
  continue (ok a) f w = f a w
  continue (err e) f w = (err e, w)

  infixl 5 ◌>>=◌ ◌>>◌
  -- `?`: an error ends the method, and the tables stay as they are.
  unfoldable pub ◌>>=◌ : Query A → (A → Query B) → Query B
  unfolding pure raise lift
  ◌>>=◌ m f w = let (r, w') = m w in continue r f w'

  abbrev pub ◌>>◌ : Query A → Query B → Query B
  m >> n = m >>= λ _. n

-- The first moment, and the others.
unfoldable pub head : List Moment → Moment
head [] = record { others = λ d. d; fault = fine }
head (m ∷ ms) = m

unfoldable pub rest : List Moment → List Moment
rest [] = []
rest (m ∷ ms) = ms

-- A statement on the tables; `none` is a refused constraint.
abbrev pub Statement : Type 0 → Type 0
Statement A = Db → Option (A × Db)

module _ {A : Type 0} where
  unfoldable pub settle : Fault → Db → Option (A × Db) → List Moment → Result StoreError A × World
  settle (lost e) before o ms = (err (database e), record { db = before; moments = ms })
  settle fine before none ms = (err (database constraint), record { db = before; moments = ms })
  settle fine before (some (a, after)) ms = (ok a, record { db = after; moments = ms })
  settle (late e) before none ms = (err (database e), record { db = before; moments = ms })
  settle (late e) before (some (a, after)) ms =
      (err (database e), record { db = after; moments = ms })

  -- One statement with autocommit.
  unfoldable pub run : Statement A → Query A
  unfolding head rest settle
  run f w =
      let m = head w.moments in
      let before = m.others w.db in settle m.fault before (f before) (rest w.moments)

  unfoldable pub tx_result : Fault → A → Result StoreError A
  tx_result fine a = ok a
  tx_result (lost e) a = err (database e)
  tx_result (late e) a = err (database e)

  -- One statement of a transaction on its working copy of the tables. A failure drops the copy. A
  -- transaction is serialised at its BEGIN: what other clients do before it ends is taken to come before
  -- its first moment or after its COMMIT, so the other clients of its later moments are left out.
  unfoldable pub in_tx : A → Query A
  unfolding head rest tx_result
  in_tx a w = (tx_result (head w.moments).fault a, record w { moments = rest w.moments })

-- BEGIN: the tables that the transaction works on.
unfoldable pub begin : Query Db
unfolding run
begin = run (λ d. some (d, d))

-- COMMIT of the working copy.
unfoldable pub commit : Db → Query (Unit {0})
unfolding head rest settle
commit copy w = settle (head w.moments).fault w.db (some (tt, copy)) (rest w.moments)
