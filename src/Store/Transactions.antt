-- ===== src/Store/Transactions.antt =====
-- Transactions that make only allowed changes.
use claude_job_runner.Prelude.{
  ◌≡◌, refl, sym, Bool, true, false, some, List, arith, Result, ok, err, if◌then◌else◌, subst,
}
use claude_job_runner.Db.{Db}
use claude_job_runner.Db.Evolves.{IsTidy, DbStep, DbStep-refl, DbStep-trans}
use claude_job_runner.Store.Exec.{
  Query, StoreError, World, Moment, Fault, fine, lost, late, raise, lift, in_tx, begin, commit,
  continue, settle, head, rest, ◌>>=◌,
}
use claude_job_runner.Store.Keeps.{
  Keeps, Rely, Rely-head, Rely-rest, Keeps-raise, settle-db, settle-moments,
}
use claude_job_runner.Store.Exec.{tx_result}

-- The same for an action inside a transaction that began with the tables `base`.
pub record InTx {A : Type 0} (base : Db) (m : Query A) : Type 0 where
  pub at :
      (w : World)
      → IsTidy w.db
      → Rely w.moments
      → w.db ≡ base
      → DbStep w.db (m w).1.db × Rely (m w).1.moments

pub InTx-Keeps : {A : Type 0} (base : Db) (m : Query A) → Keeps m → InTx base m
InTx-Keeps base m k = record { at = λ w h r e. k.at w h r }

module _ {A B : Type 0} where
  continue_tx :
      (base : Db) (f : Fault) (a : A) (k : A → Query B) (w : World)
      → InTx base (k a)
      → IsTidy w.db
      → Rely w.moments
      → w.db ≡ base
      → DbStep w.db (continue (tx_result f a) k w).1.db
        × Rely (continue (tx_result f a) k w).1.moments
  unfolding tx_result
  continue_tx base fine a k w i h r e = i.at w h r e
  continue_tx base (lost x) a k w i h r e = (DbStep-refl w.db h, r)
  continue_tx base (late x) a k w i h r e = (DbStep-refl w.db h, r)

  pub InTx-bind :
      (base : Db) (a : A) (k : A → Query B) → InTx base (k a) → InTx base (in_tx a >>= k)
  unfolding ◌>>=◌ in_tx
  InTx-bind base a k i = record {
    at = λ w h r e.
        continue_tx base (head w.moments).fault a k (record w { moments = rest w.moments }) i h
          (Rely-rest w.moments r) e;
  }

  pub InTx-lift :
      (base : Db) (x : Result StoreError A) (k : A → Query B)
      → ((a : A) → x ≡ ok a → InTx base (k a))
      → InTx base (lift x >>= k)
  unfolding ◌>>=◌
  InTx-lift base (ok a) k h = h a refl
  InTx-lift base (err e) k h = InTx-Keeps base (raise e) (Keeps-raise e)

pub InTx-if :
    {A : Type 0} (base : Db) (b : Bool) (m n : Query A)
    → (b ≡ true → InTx base m)
    → InTx base n
    → InTx base (if b then m else n)
InTx-if base true m n k l = k refl
InTx-if base false m n k l = l

pub InTx-commit : (base copy : Db) → (IsTidy base → DbStep base copy) → InTx base (commit copy)
InTx-commit base copy step = record {
  at = λ w h r e.
      unfold commit in
      (
        settle-db (DbStep w.db) (head w.moments).fault w.db (some (tt, copy)) (rest w.moments)
            (DbStep-refl w.db h)
            (λ a after p.
              subst (DbStep w.db) (ground arith)
                (subst (λ d. DbStep d copy) (sym e) (step (subst IsTidy e h)))),
        rw settle-moments (Rely-rest w.moments r),
      );
}

-- What follows BEGIN, by what becomes of that statement.
after_begin :
    {B : Type 0} (f : Fault) (before : Db) (ms : List Moment) (k : Db → Query B)
    → InTx before (k before)
    → IsTidy before
    → Rely ms
    → (let (x, w) = settle f before (some (before, before)) ms in
        DbStep before (continue x k w).1.db × Rely (continue x k w).1.moments)
unfolding settle
after_begin fine before ms k i h r = i.at (record { db = before; moments = ms }) h r refl
after_begin (lost e) before ms k i h r = (DbStep-refl before h, r)
after_begin (late e) before ms k i h r = (DbStep-refl before h, r)

-- A transaction works on the tables that it began with.
pub begin-Keeps :
    {B : Type 0} (k : Db → Query B) → ((base : Db) → InTx base (k base)) → Keeps (begin >>= k)
unfolding ◌>>=◌ begin
begin-Keeps k i = record {
  at = λ w h r.
      let before : Db = (head w.moments).others w.db in
      let first : DbStep w.db before = Rely-head w.moments r w.db h in
      let (step, rely) =
        after_begin (head w.moments).fault before (rest w.moments) k (i before) first.tidy
          (Rely-rest w.moments r) in
      (DbStep-trans w.db before _ first step, rely);
}
