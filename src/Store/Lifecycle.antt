-- ===== src/Store/Lifecycle.antt =====
-- Whatever other clients do within the life cycle and whichever statements fail, the methods of the
-- store keep to the life cycle too.
use claude_job_runner.Prelude.{
  ℕ, zero, suc, true, false, Option, none, some, List, [], ◌∷◌, arith, Str, ◌==◌, subst, ==→eq,
}
use claude_job_runner.Job.{MessageId, ChatId, JobOutcome, success, failure}
use claude_job_runner.Db.{Db, insert_replies}
use claude_job_runner.Db.Evolves.{IsTidy, DbStep, DbStep-refl, DbStep-trans}
use claude_job_runner.Store.{
  insert, get, reply, oldest_unclaimed_id, try_claim, claim_rounds, claim_next, claim_attempts,
  finish_tx, finish_done, finish_failed, finish, done_update, insert_id,
}
use claude_job_runner.Store.Exec.{World}
use claude_job_runner.Store.Keeps.{Keeps, Rely, Keeps-run, Keeps-bind, Keeps-pure, keeps_rules}
use claude_job_runner.Store.Transactions.{
  InTx, InTx-Keeps, InTx-bind, InTx-lift, InTx-if, InTx-commit, begin-Keeps,
}
use claude_job_runner.Store.Steps.{
  claim_update-DbStep, insert_user-DbStep, failed_update-DbStep, finished-DbStep,
}

insert-Keeps : (chat : ChatId) (content : Str) → Keeps (insert chat content)
unfolding insert
insert-Keeps chat content =
    Keeps-bind _ _ (Keeps-run _ (λ d d' n h e. insert_user-DbStep chat.get content d h e))
      (λ raw. search keeps_rules)

get-Keeps : (id : MessageId) → Keeps (get id)
unfolding get
get-Keeps id = search keeps_rules

reply-Keeps : (id : MessageId) → Keeps (reply id)
unfolding reply
reply-Keeps id = search keeps_rules

oldest-Keeps : Keeps oldest_unclaimed_id
unfolding oldest_unclaimed_id
oldest-Keeps = search keeps_rules

try_claim-Keeps : (id : MessageId) → Keeps (try_claim id)
unfolding try_claim
try_claim-Keeps id =
    Keeps-bind _ _
      (Keeps-run _ (λ d d' n h e. subst (DbStep d) (ground arith) (claim_update-DbStep id.get d h)))
      (λ n. search keeps_rules)

finish_failed-Keeps :
    (id : MessageId) (error : Str) (result : Option Str) → Keeps (finish_failed id error result)
unfolding finish_failed
finish_failed-Keeps id error result =
    Keeps-bind _ _
      (Keeps-run _ (λ d d' n h e.
        subst (DbStep d) (ground arith) (failed_update-DbStep id.get error result d h)))
      (λ n. search keeps_rules)

claim_rounds-Keeps : (rounds : ℕ) → Keeps (claim_rounds rounds)
unfolding claim_rounds
claim_rounds-Keeps zero = search keeps_rules
claim_rounds-Keeps (suc rounds) = Keeps-bind _ _ oldest-Keeps (elim [
  | none ↦ Keeps-pure none
  | some id ↦
      Keeps-bind _ _ (try_claim-Keeps id)
        (elim [ true ↦ get-Keeps id | false ↦ claim_rounds-Keeps rounds ])
])

finish_tx-InTx : (id : MessageId) (result : Str) (base : Db) → InTx base (finish_tx id result base)
unfolding finish_tx
finish_tx-InTx id result base =
    let inserted = insert_replies id.get result base in
    InTx-bind base inserted _ (
      InTx-if base (inserted.0 == 1) _ _
        (λ one. InTx-lift base (insert_id inserted.1) _ (λ reply_id _.
          InTx-bind base (done_update id.get reply_id.get inserted.2) _ (
            InTx-commit base (done_update id.get reply_id.get inserted.2)
              (λ h. finished-DbStep id.get reply_id.get result base h (==→eq _ _ one)))))
        (InTx-bind base tt _ (InTx-Keeps base _ (search keeps_rules))))

finish-Keeps : (id : MessageId) (outcome : JobOutcome) → Keeps (finish id outcome)
unfolding finish finish_done
finish-Keeps id (success result) = begin-Keeps _ (finish_tx-InTx id result)
finish-Keeps id (failure error result) = finish_failed-Keeps id error result

claim_next-Keeps : Keeps claim_next
unfolding claim_next
claim_next-Keeps = claim_rounds-Keeps claim_attempts

-- A call of one of the store's methods, `requeue_pending` excepted.
pub data Call : Type 0 where
  insert_call : ChatId → Str → Call
  get_call reply_call : MessageId → Call
  claim_call : Call
  finish_call : MessageId → JobOutcome → Call

-- The world after one call.
unfoldable pub perform : Call → World → World
perform (insert_call chat content) w = (insert chat content w).1
perform (get_call id) w = (get id w).1
perform (reply_call id) w = (reply id w).1
perform claim_call w = (claim_next w).1
perform (finish_call id outcome) w = (finish id outcome w).1

unfoldable pub perform_all : List Call → World → World
perform_all [] w = w
perform_all (c ∷ cs) w = perform_all cs (perform c w)

perform-Keeps :
    (c : Call) (w : World)
    → IsTidy w.db
    → Rely w.moments
    → DbStep w.db (perform c w).db × Rely (perform c w).moments
unfolding perform
perform-Keeps (insert_call chat content) w h r = (insert-Keeps chat content).at w h r
perform-Keeps (get_call id) w h r = (get-Keeps id).at w h r
perform-Keeps (reply_call id) w h r = (reply-Keeps id).at w h r
perform-Keeps claim_call w h r = claim_next-Keeps.at w h r
perform-Keeps (finish_call id outcome) w h r = (finish-Keeps id outcome).at w h r

-- Any calls of `insert`, `get`, `reply`, `claim_next` and `finish` (`requeue_pending`, which moves jobs
-- back to waiting, is not among them) that begin with tidy tables, with any statements failing and with
-- other clients that keep to the life cycle before each statement outside a transaction and before each
-- transaction begins, leave tidy tables in which
-- every old row is still there: same id, chat, sender, content and flag, a status that has not moved
-- back, and no change at all if the row was finished or is no job.
pub calls-DbStep :
    (calls : List Call) (w : World)
    → IsTidy w.db
    → Rely w.moments
    → DbStep w.db (perform_all calls w).db
unfolding perform_all
calls-DbStep [] w h r = DbStep-refl w.db h
calls-DbStep (c ∷ cs) w h r =
    let (step, rely) = perform-Keeps c w h r in
    DbStep-trans w.db (perform c w).db (perform_all cs (perform c w)).db step
      (calls-DbStep cs (perform c w) step.tidy rely)
