-- ===== src/Store/Recorded.antt =====
-- What `finish` leaves in the tables, whatever other clients do and whichever statements fail.
use claude_job_runner.Prelude.{
  ℕ, ◌≡◌, ◌⊎◌, inl, inr, refl, ◌∙◌, ap, Option, some, List, Str, Result, ◌==◌, Bool-cases,
}
use claude_job_runner.Job.{MessageId, JobOutcome, success, failure}
use claude_job_runner.Db.{Db, count, pending_row}
use claude_job_runner.Store.{finish, finish_failed, failed_update}
use claude_job_runner.Store.Exec.{
  World, Moment, Fault, StoreError, Query, fine, lost, late, head, rest, run, settle, continue,
  pure, raise, ◌>>=◌,
}
use claude_job_runner.Store.Finishing.{
  at_first, outcome_tables, finish_done_atomic, outcome_tables-not_pending, AllOrNothing,
}

-- The tables after `finish`: as its first statement met them, or with the outcome, and no row is then
-- pending under the id.
abbrev pub Recorded : MessageId → JobOutcome → Db → Db → Type 0
Recorded id outcome before after =
    (after ≡ before)
    ⊎ ((after ≡ outcome_tables id.get outcome before)
        × (count (pending_row id.get) after.messages ≡ 0))

settled_tables :
    (id : MessageId) (outcome : JobOutcome) (before after : Db)
    → after ≡ outcome_tables id.get outcome before
    → Recorded id outcome before after
settled_tables id outcome before after e = inr (
  e,
  ap (λ (d : Db). count (pending_row id.get) d.messages) e
      ∙ outcome_tables-not_pending id.get outcome before,
)

all_or_nothing :
    (id : MessageId) (result : Str) (before after : Db) (r : Result StoreError (Unit {0}))
    → AllOrNothing id.get result before r after
    → Recorded id (success result) before after
all_or_nothing id result before after r (inl (same, _)) = inl same
all_or_nothing id result before after r (inr (changed, _, _)) =
    settled_tables id (success result) before after (unfold outcome_tables in changed)

settled_failure :
    (id : MessageId) (error : Str) (result : Option Str) (f : Fault) (before : Db)
    (ms : List Moment) (then_check : ℕ → Query (Unit {0}))
    → ((n : ℕ) (w : World) → (then_check n w).1 ≡ w)
    → (let (r, w) = settle f before (some (failed_update id.get error result before)) ms in
        Recorded id (failure error result) before (continue r then_check w).1.db)
unfolding settle
settled_failure id error result fine before ms then_check still =
    settled_tables id (failure error result) before _
      (unfold outcome_tables in ap (λ (w : World). w.db) (still _ _))
settled_failure id error result (lost e) before ms then_check still = inl refl
settled_failure id error result (late e) before ms then_check still =
    settled_tables id (failure error result) before _ (unfold outcome_tables in refl)

pub finish-Recorded :
    (id : MessageId) (outcome : JobOutcome) (w : World)
    → Recorded id outcome (at_first w) (finish id outcome w).1.db
unfolding finish
finish-Recorded id (success result) w =
    all_or_nothing id result (at_first w) _ _ (finish_done_atomic id result w)
finish-Recorded id (failure error result) w =
    unfold finish_failed ◌>>=◌ run pure raise in
    settled_failure id error result (head w.moments).fault (at_first w) (rest w.moments) _
      (λ n w. elim (Bool-cases (n == 1)) [ inl e ↦ rw e refl | inr e ↦ rw e refl ])
