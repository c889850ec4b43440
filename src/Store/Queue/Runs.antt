-- ===== src/Store/Queue/Runs.antt =====
-- src/store.rs: sequences of calls, and the queue.
use claude_job_runner.Prelude.{
  ℕ, suc, ◌≤◌, ◌+◌, ◌≡◌, refl, sym, ap, subst, Bool, List, [], ◌∷◌, ℤ, Result, Str, Bool-cases, inl,
  inr, arith, max_i64, length,
}
use claude_job_runner.Job.{ChatId, JobOutcome, success, failure}
use claude_job_runner.Db.{Db, count, pending_row, chat_exists, insert_user, insert_replies}
use claude_job_runner.Db.Evolves.{IsTidy}
use claude_job_runner.Store.{
  insert, claim_next, finish, insert_id, claim_update, failed_update, done_update,
}
use claude_job_runner.Store.Exec.{StoreError, World, quiet, run, lift, ◌>>=◌}
use claude_job_runner.Store.Claiming.{claim_next-quiet}
use claude_job_runner.Store.Finishing.{
  finish-quiet, outcome_tables, done_tables, length-insert_replies,
}
use claude_job_runner.Store.Lifecycle.{
  Call, insert_call, claim_call, finish_call, perform, perform_all, calls-DbStep,
}
use claude_job_runner.Store.Queue.{Entry, jobs, Request, Reply, nothing, Follows}
use claude_job_runner.Store.Queue.Uses.{
  insert_use, claim_use, finish_use, Use, request_of, answered, answer_insert, answer_claim,
  answer_finish, answer_use, known, Refined,
}
use claude_job_runner.Store.Queue.Refines.{use_refines}

-- The chats stay, and at most one id is used up.
abbrev pub Frugal : Db → Reply × Db → Type 0
Frugal d (reply, d') = (d'.chats ≡ d.chats) × (d'.next_id ≤ suc d.next_id)

pub insert-Frugal :
    (chat : ChatId) (content : Str) (d : Db)
    → Frugal d (answered answer_insert (insert chat content (quiet d)))
unfolding insert run lift ◌>>=◌ insert_user insert_id
insert-Frugal chat content d = elim (Bool-cases (chat_exists chat.get d.chats)) [
  | inl e ↦ rw e (refl, omega arith)
  | inr e ↦ rw e (refl, omega arith)
]

pub outcome_tables-Frugal :
    (id : ℤ) (outcome : JobOutcome) (d : Db)
    → count (pending_row id) d.messages ≡ 1
    → Frugal d (nothing, outcome_tables id outcome d)
unfolding outcome_tables done_tables done_update failed_update insert_replies
outcome_tables-Frugal id (success result) d one =
    (refl, omega (arith, length-insert_replies id result d, one))
outcome_tables-Frugal id (failure error result) d one = (refl, omega arith)

pub use-Frugal : (u : Use) (d : Db) → IsTidy d → d.next_id ≤ max_i64 → Frugal d (answer_use u d)
unfolding answer_use claim_update
use-Frugal (insert_use chat content) d h fits = insert-Frugal chat content d
use-Frugal claim_use d h fits = elim (claim_next-quiet d h) [
  | inl (free, e) ↦ subst (λ r. Frugal d (answered answer_claim r)) (sym e) (refl, omega arith)
  | inr (id, job, old, e, same, _) ↦
      subst (λ r. Frugal d (answered answer_claim r)) (sym e) (refl, omega arith)
]
use-Frugal (finish_use id outcome) d h fits = elim (finish-quiet id outcome d h fits) [
  | inl (_, e) ↦ subst (λ r. Frugal d (answered answer_finish r)) (sym e) (refl, omega arith)
  | inr (one, e) ↦
      subst (λ r. Frugal d (answered answer_finish r)) (sym e)
        (outcome_tables-Frugal id.get outcome d one)
]

pub call_of : Use → Call
call_of (insert_use chat content) = insert_call chat content
call_of claim_use = claim_call
call_of (finish_use id outcome) = finish_call id outcome

pub answered-tables :
    {A : Type 0} (f : Result StoreError A → Reply) (r : Result StoreError A × World)
    → (r.1).db ≡ (answered f r).1
answered-tables f (r, w) = refl

pub use-tables :
    (u : Use) (d : Db) → (perform_all (call_of u ∷ []) (quiet d)).db ≡ (answer_use u d).1
unfolding perform_all perform answer_use call_of
use-tables (insert_use chat content) d =
    answered-tables answer_insert (insert chat content (quiet d))
use-tables claim_use d = answered-tables answer_claim (claim_next (quiet d))
use-tables (finish_use id outcome) d = answered-tables answer_finish (finish id outcome (quiet d))

pub use-IsTidy : (u : Use) (d : Db) → IsTidy d → IsTidy (answer_use u d).1
use-IsTidy u d h = subst IsTidy (use-tables u d) (calls-DbStep (call_of u ∷ []) (quiet d) h tt).tidy

-- The uses one after the other: what the callers learn, and the tables.
abbrev pub push_reply : Reply × Db → (Db → List Reply × Db) → List Reply × Db
push_reply (reply, d) f = (reply ∷ (f d).0, (f d).1)

unfoldable pub answer_all : List Use → Db → List Reply × Db
unfolding answer_use
answer_all [] d = ([], d)
answer_all (u ∷ us) d = push_reply (answer_use u d) (answer_all us)

unfoldable pub requests : List Use → List Request
unfolding request_of
requests [] = []
requests (u ∷ us) = request_of u ∷ requests us

-- The queue may answer so, request by request.
unfoldable pub FollowsAll :
    (ℤ → Bool) → List Entry → List Request → List Reply → List Entry → Type 0
FollowsAll known q [] [] q' = q' ≡ q
FollowsAll known q (r ∷ rs) (a ∷ answers) q' =
    (mid : List Entry) × (Follows known q r a mid × FollowsAll known mid rs answers q')
FollowsAll known q _ _ q' = ⊥

abbrev pub RefinedAll : (ℤ → Bool) → List Entry → List Request → List Reply × Db → Type 0
RefinedAll known q rs (replies, d) = FollowsAll known q rs replies (jobs d.messages)

pub push_reply-RefinedAll :
    (d : Db) (r : Request) (rs : List Request) (a : Reply × Db) (f : Db → List Reply × Db)
    → Refined d r a
    → RefinedAll (known d) (jobs (a.1).messages) rs (f (a.1))
    → RefinedAll (known d) (jobs d.messages) (r ∷ rs) (push_reply a f)
unfolding FollowsAll
push_reply-RefinedAll d r rs (reply, d') f one others = (jobs d'.messages, (one, others))

pub known-kept : (d : Db) (a : Reply × Db) → Frugal d a → known (a.1) ≡ known d
known-kept d (reply, d') (same, _) = ap (λ cs chat. chat_exists chat cs) same

pub left_over :
    (d : Db) (a : Reply × Db) (n : ℕ)
    → Frugal d a
    → d.next_id + suc n ≤ max_i64
    → (a.1).next_id + n ≤ max_i64
left_over d (reply, d') n (_, one) fits = omega (arith, one, fits)

-- The store implements the queue: with nothing that interferes, whatever calls of `insert`, `claim_next` and
-- `finish` are made, what their callers learn and what becomes of the jobs is what the queue allows. A job
-- is added at the end, unless its chat is missing; the waiting job with the least id is handed out and
-- runs; a job that runs is settled, and any other is refused and nothing changes. The tables are tidy
-- to begin with, and there are enough ids left.
pub store_refines_queue :
    (us : List Use) (d : Db)
    → IsTidy d
    → d.next_id + length us ≤ max_i64
    → RefinedAll (known d) (jobs d.messages) (requests us) (answer_all us d)
unfolding requests answer_all
store_refines_queue [] d h fits = unfold FollowsAll in refl
store_refines_queue (u ∷ us) d h fits =
    let now : d.next_id ≤ max_i64 = omega (arith, fits) in
    let frugal = use-Frugal u d h now in
    push_reply-RefinedAll d (request_of u) (requests us) (answer_use u d) (answer_all us)
      (use_refines u d h now)
      (subst
        (λ k.
          RefinedAll k (jobs ((answer_use u d).1).messages) (requests us)
            (answer_all us ((answer_use u d).1)))
        (known-kept d (answer_use u d) frugal)
        (store_refines_queue us ((answer_use u d).1) (use-IsTidy u d h)
          (left_over d (answer_use u d) (length us) frugal fits)))
