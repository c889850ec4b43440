-- ===== src/Store/Queue/Uses.antt =====
-- src/store.rs: calls of its methods as requests to the queue.
use claude_job_runner.Prelude.{Bool, Option, none, some, ℤ, Result, ok, err, Str}
use claude_job_runner.Job.{MessageId, ChatId, Job, JobOutcome, outcome_status}
use claude_job_runner.Db.{Db, chat_exists}
use claude_job_runner.Store.{insert, claim_next, finish}
use claude_job_runner.Store.Exec.{StoreError, World, quiet}
use claude_job_runner.Store.Queue.{
  jobs, Request, add, take_next, settle, Reply, given, nothing, refused, Follows,
}

-- A call of a method that changes the queue.
pub data Use : Type 0 where
  insert_use : ChatId → Str → Use
  claim_use : Use
  finish_use : MessageId → JobOutcome → Use

unfoldable pub request_of : Use → Request
unfolding outcome_status
request_of (insert_use chat content) = add chat.get
request_of claim_use = take_next
request_of (finish_use id outcome) = settle id.get (outcome_status outcome)

abbrev pub answered :
    {A : Type 0} → (Result StoreError A → Reply) → Result StoreError A × World → Reply × Db
answered f (r, w) = (f r, w.db)

abbrev pub answer_insert : Result StoreError MessageId → Reply
answer_insert (ok id) = given id.get
answer_insert (err e) = refused

abbrev pub answer_claim : Result StoreError (Option Job) → Reply
answer_claim (ok none) = nothing
answer_claim (ok (some job)) = given job.id.get
answer_claim (err e) = refused

abbrev pub answer_finish : Result StoreError (Unit {0}) → Reply
answer_finish (ok _) = nothing
answer_finish (err e) = refused

-- The method, when nothing interferes: what its caller learns, and the tables.
unfoldable pub answer_use : Use → Db → Reply × Db
answer_use (insert_use chat content) d = answered answer_insert (insert chat content (quiet d))
answer_use claim_use d = answered answer_claim (claim_next (quiet d))
answer_use (finish_use id outcome) d = answered answer_finish (finish id outcome (quiet d))

abbrev pub known : Db → ℤ → Bool
known d chat = chat_exists chat d.chats

abbrev pub Refined : Db → Request → Reply × Db → Type 0
Refined d r (reply, d') = Follows (known d) (jobs d.messages) r reply (jobs d'.messages)
