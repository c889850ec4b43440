-- ===== src/Store/Keeps.antt =====
-- Actions on the database that make only allowed changes, one rule for each way to build an action.
use claude_job_runner.Prelude.{
  ◌≡◌, refl, Bool, true, false, Option, none, some, List, [], ◌∷◌, arith, All, Result, ok, err,
  if◌then◌else◌, subst,
}
use claude_job_runner.Db.{Db}
use claude_job_runner.Db.Evolves.{IsTidy, DbStep, DbStep-refl, DbStep-trans}
use claude_job_runner.Store.Exec.{
  Query, StoreError, World, Moment, Fault, fine, lost, late, Statement, pure, raise, lift, run,
  continue, settle, head, rest, ◌>>=◌,
}

-- What the other clients do at each moment is within the life cycle.
abbrev pub Rely : List Moment → Type 0
Rely ms = All (λ m. (d : Db) → IsTidy d → DbStep d (m.others d)) ms

pub Rely-head : (ms : List Moment) → Rely ms → (d : Db) → IsTidy d → DbStep d ((head ms).others d)
unfolding head
Rely-head [] r d h = DbStep-refl d h
Rely-head (m ∷ ms) r d h = r.0 d h

pub Rely-rest : (ms : List Moment) → Rely ms → Rely (rest ms)
unfolding rest
Rely-rest [] r = tt
Rely-rest (m ∷ ms) r = r.1

-- From tidy tables, `m` makes allowed changes, whether it returns or fails.
pub record Keeps {A : Type 0} (m : Query A) : Type 0 where
  pub at :
      (w : World) → IsTidy w.db → Rely w.moments → DbStep w.db (m w).1.db × Rely (m w).1.moments

module _ {A : Type 0} where
  pub Keeps-pure : (a : A) → Keeps (pure a)
  unfolding pure
  Keeps-pure a = record { at = λ w h r. (DbStep-refl w.db h, r) }

  pub Keeps-raise : (e : StoreError) → Keeps (raise {A = A} e)
  unfolding raise
  Keeps-raise e = record { at = λ w h r. (DbStep-refl w.db h, r) }

  pub Keeps-lift : (x : Result StoreError A) → Keeps (lift x)
  unfolding lift
  Keeps-lift x = record { at = λ w h r. (DbStep-refl w.db h, r) }

  -- The tables after a statement are those before it or those that it makes.
  pub settle-db :
      (P : Db → Type 0) (f : Fault) (before : Db) (o : Option (A × Db)) (ms : List Moment)
      → P before
      → ((a : A) (after : Db) → o ≡ some (a, after) → P after)
      → P (settle f before o ms).1.db
  unfolding settle
  settle-db P (lost e) before o ms p q = p
  settle-db P fine before none ms p q = p
  settle-db P fine before (some (a, after)) ms p q = q a after refl
  settle-db P (late e) before none ms p q = p
  settle-db P (late e) before (some (a, after)) ms p q = q a after refl

  pub settle-moments :
      (f : Fault) (before : Db) (o : Option (A × Db)) (ms : List Moment)
      → (settle f before o ms).1.moments ≡ ms
  unfolding settle
  settle-moments (lost e) before o ms = refl
  settle-moments fine before none ms = refl
  settle-moments fine before (some (a, after)) ms = refl
  settle-moments (late e) before none ms = refl
  settle-moments (late e) before (some (a, after)) ms = refl

  pub Keeps-run :
      (f : Statement A)
      → ((d d' : Db) (a : A) → IsTidy d → f d ≡ some (a, d') → DbStep d d')
      → Keeps (run f)
  Keeps-run f ok_step = record {
    at = λ w h r.
        let before : Db = (head w.moments).others w.db in
        let first : DbStep w.db before = Rely-head w.moments r w.db h in
        (
          unfold run in
              settle-db (DbStep w.db) (head w.moments).fault before (f before) (rest w.moments)
                first
                (λ a after e.
                  DbStep-trans w.db before after first (ok_step before after a first.tidy e)),
          unfold run in rw settle-moments (Rely-rest w.moments r),
        );
  }

  pub Keeps-read : (f : Db → A) → Keeps (run (λ d. some (f d, d)))
  Keeps-read f = Keeps-run _ (λ d d' a h e. subst (DbStep d) (ground arith) (DbStep-refl d h))

module _ {A B : Type 0} where
  pub Keeps-continue :
      (x : Result StoreError A) (f : A → Query B) (w : World)
      → ((a : A) → Keeps (f a))
      → IsTidy w.db
      → Rely w.moments
      → DbStep w.db (continue x f w).1.db × Rely (continue x f w).1.moments
  Keeps-continue (ok a) f w k h r = (k a).at w h r
  Keeps-continue (err e) f w k h r = (DbStep-refl w.db h, r)

  pub Keeps-bind :
      (m : Query A) (f : A → Query B) → Keeps m → ((a : A) → Keeps (f a)) → Keeps (m >>= f)
  unfolding ◌>>=◌
  Keeps-bind m f km kf = record {
    at = λ w h r.
        let (step, rely) = km.at w h r in
        let (step', rely') = Keeps-continue (m w).0 f (m w).1 kf step.tidy rely in
        (DbStep-trans w.db (m w).1.db (continue (m w).0 f (m w).1).1.db step step', rely');
  }

pub Keeps-if :
    {A : Type 0} (b : Bool) (m n : Query A) → Keeps m → Keeps n → Keeps (if b then m else n)
Keeps-if true m n k l = k
Keeps-if false m n k l = l

pub ruleset keeps_rules = (Keeps-pure, Keeps-raise, Keeps-lift, Keeps-read, Keeps-bind, Keeps-if)
