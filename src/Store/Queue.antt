-- ===== src/Store/Queue.antt =====
-- An abstract queue for src/store.rs: jobs with their ids and statuses, without the columns, the
-- answers and the rows of the chat.
pub mod Jobs
pub mod Uses
pub mod Updates
pub mod Refines
pub mod Runs
use claude_job_runner.Prelude.{
  ℕ, suc, ◌≡◌, Bool, true, false, ◌&&◌, Option, none, some, List, [], ◌∷◌, ◌++◌, ◌⊎◌, All, any, map,
  ℤ, pos, eq_ℤ, ◌≤ℤ◌, if◌then◌else◌, Result, ok, err,
}
use claude_job_runner.Job.{
  JobStatus, new, pending, done, failed, UnknownStatus, from_db, JobOutcome, outcome_status,
}
use claude_job_runner.Db.{Db, Message, Chat, is_job, chat_exists}

-- A job's id, and its status if that is one of the four.
abbrev pub Entry : Type 0
Entry = ℤ × Option JobStatus

abbrev pub status_or_none : Result UnknownStatus JobStatus → Option JobStatus
status_or_none (ok s) = some s
status_or_none (err e) = none

abbrev pub waits : Option JobStatus → Bool
waits (some new) = true
waits _ = false

abbrev pub runs : Option JobStatus → Bool
runs (some pending) = true
runs _ = false

abbrev pub is_entry : ℤ → Entry → Bool
is_entry id e = eq_ℤ e.0 id

abbrev pub waiting_entry : ℤ → Entry → Bool
waiting_entry id e = is_entry id e && waits e.1

abbrev pub running_entry : ℤ → Entry → Bool
running_entry id e = is_entry id e && runs e.1

unfoldable pub set_status : (Entry → Bool) → JobStatus → List Entry → List Entry
set_status p s [] = []
set_status p s (e ∷ es) = (if p e then (e.0, some s) else e) ∷ set_status p s es

abbrev pub entry : Message → Entry
entry m = (m.id, status_or_none (from_db m.status))

abbrev pub cons_if : Bool → Entry → List Entry → List Entry
cons_if true e es = e ∷ es
cons_if false e es = es

-- The jobs of the table, in its order.
unfoldable pub jobs : List Message → List Entry
unfolding is_job from_db
jobs [] = []
jobs (m ∷ ms) = cons_if (is_job m) (entry m) (jobs ms)

-- What a caller asks for, and what it learns.
pub data Request : Type 0 where
  add : ℤ → Request
  take_next : Request
  settle : ℤ → JobStatus → Request

pub data Reply : Type 0 where
  given : ℤ → Reply
  nothing refused : Reply

-- The queue may answer so: a job is added at the end with an id that the caller learns, unless its chat
-- is not there; the waiting job with the least id is handed out and runs; a job that runs is settled.
abbrev pub Follows : (ℤ → Bool) → List Entry → Request → Reply → List Entry → Type 0
Follows known q (add chat) (given id) q' = (known chat ≡ true) × (q' ≡ q ++ (id, some new) ∷ [])
Follows known q (add chat) nothing q' = ⊥
Follows known q (add chat) refused q' = (known chat ≡ false) × (q' ≡ q)
Follows known q take_next (given id) q' =
    (any (waiting_entry id) q ≡ true)
    × (All (λ (e : Entry). waits e.1 ≡ true → id ≤ℤ e.0) q
        × (q' ≡ set_status (waiting_entry id) pending q))
Follows known q take_next nothing q' = All (λ (e : Entry). waits e.1 ≡ false) q × (q' ≡ q)
Follows known q take_next refused q' = ⊥
Follows known q (settle id s) (given _) q' = ⊥
Follows known q (settle id s) nothing q' =
    (any (running_entry id) q ≡ true) × (q' ≡ set_status (running_entry id) s q)
Follows known q (settle id s) refused q' = (any (running_entry id) q ≡ false) × (q' ≡ q)
