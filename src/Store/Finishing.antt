-- ===== src/Store/Finishing.antt =====
-- `finish`: all of its effects or none, and which.
use claude_job_runner.Prelude.{
  ◌≤◌, ◌≡◌, refl, ◌∙◌, Bool, true, false, Option, none, some, List, [], ◌∷◌, arith, ◌≢◌, ℤ, pos,
  inl, inr, Str, ◌⊎◌, Result, ok, err, max_i64, eq_str,
}
use claude_job_runner.Job.{MessageId, JobOutcome, success, failure}
use claude_job_runner.Db.{
  Db, Message, count, insert_replies, pending_row, mark_done, mark_failed, has_id, update,
}
use claude_job_runner.Db.Evolves.{IsTidy}
use claude_job_runner.Db.Rows.{count-filter, count_mono, update_none}
use claude_job_runner.Store.Steps.{length-reply_rows, pending-has_id}
use claude_job_runner.Store.{
  finish, finish_done, finish_tx, finish_failed, done_update, failed_update, insert_id, id_of,
}
use claude_job_runner.Store.Exec.{
  World, Moment, Fault, StoreError, not_pending, fine, lost, late, quiet, run, begin, commit, in_tx,
  continue, settle, head, rest, ◌>>=◌,
}

pub length-insert_replies :
    (id : ℤ) (answer : Str) (d : Db)
    → (insert_replies id answer d).0 ≡ count (pending_row id) d.messages
unfolding insert_replies
length-insert_replies id answer d =
    length-reply_rows d.next_id answer _ ∙ count-filter (pending_row id) d.messages

-- The tables after a complete `finish_done`.
unfoldable pub done_tables : ℤ → Str → Db → Db
unfolding insert_replies
done_tables id result d = done_update id (pos d.next_id) (insert_replies id result d).2

-- The tables that a method's first statement meets.
abbrev pub at_first : World → Db
at_first w = (head w.moments).others w.db

-- What `finish_done` came to: nothing done, or all of it.
abbrev pub AllOrNothing : ℤ → Str → Db → Result StoreError (Unit {0}) → Db → Type 0
AllOrNothing id result before r after =
    ((after ≡ before) × (r ≢ ok tt))
    ⊎ ((after ≡ done_tables id result before)
        × (count (pending_row id) before.messages ≡ 1)
        × (r ≢ err (not_pending (id_of id))))

finish_tx_atomic :
    (id : MessageId) (result : Str) (base : Db) (w : World)
    → w.db ≡ base
    → AllOrNothing id.get result base
        (finish_tx id result base w).0
        (finish_tx id result base w).1.db
unfolding finish_tx ◌>>=◌ commit in_tx insert_id done_tables
finish_tx_atomic id result base w e = ground (arith, length-insert_replies id.get result base)

after_begin :
    (f : Fault) (before : Db) (ms : List Moment) (id : MessageId) (result : Str)
    → (let (x, w) = settle f before (some (before, before)) ms in
        AllOrNothing id.get result before
          (continue x (finish_tx id result) w).0
          (continue x (finish_tx id result) w).1.db)
unfolding settle
after_begin fine before ms id result =
    finish_tx_atomic id result before (record { db = before; moments = ms }) refl
after_begin (lost e) before ms id result = inl (refl, λ x. cc)
after_begin (late e) before ms id result = inl (refl, λ x. cc)

-- Whatever statement of `finish_done` fails, it is all or nothing: either the tables are as its first
-- statement met them and it does not report success, or exactly one row was pending under that id,
-- the tables are those of a complete `finish_done` (the answer inserted and the job marked), and it
-- does not report that the job was not pending.
pub finish_done_atomic :
    (id : MessageId) (result : Str) (w : World)
    → AllOrNothing id.get result
        (at_first w)
        (finish_done id result w).0
        (finish_done id result w).1.db
unfolding finish_done ◌>>=◌ begin run
finish_done_atomic id result w =
    after_begin (head w.moments).fault (at_first w) (rest w.moments) id result

-- The tables after a complete `finish`.
unfoldable pub outcome_tables : ℤ → JobOutcome → Db → Db
unfolding done_tables
outcome_tables id (success result) d = done_tables id result d
outcome_tables id (failure error result) d = (failed_update id error result d).1

pending-le-one : (id : ℤ) (d : Db) → IsTidy d → count (pending_row id) d.messages ≤ 1
pending-le-one id d h =
    omega
      (arith, h.unique id, count_mono (pending_row id) (has_id id) (pending-has_id id) d.messages)

-- With nothing that interferes, `finish` refuses a job that is not pending and changes nothing, and
-- otherwise succeeds with the tables of the outcome.
pub finish-quiet :
    (id : MessageId) (outcome : JobOutcome) (d : Db)
    → IsTidy d
    → d.next_id ≤ max_i64
    → ((count (pending_row id.get) d.messages ≡ 0)
        × (finish id outcome (quiet d) ≡ (err (not_pending id), quiet d)))
      ⊎ ((count (pending_row id.get) d.messages ≡ 1)
          × (finish id outcome (quiet d) ≡ (ok tt, quiet (outcome_tables id.get outcome d))))
unfolding finish finish_done finish_tx finish_failed ◌>>=◌ begin run commit in_tx insert_id
    outcome_tables failed_update
finish-quiet id (success result) d h fits =
    ground (arith, length-insert_replies id.get result d, pending-le-one id.get d h)
finish-quiet id (failure error result) d h fits = ground (
  arith,
  pending-le-one id.get d h,
  update_none (pending_row id.get) (mark_failed error result) d.messages,
)

-- Where the job is pending, the tables are those of the outcome.
pub finish_pending :
    (id : MessageId) (outcome : JobOutcome) (d : Db)
    → IsTidy d
    → d.next_id ≤ max_i64
    → count (pending_row id.get) d.messages ≡ 1
    → finish id outcome (quiet d) ≡ (ok tt, quiet (outcome_tables id.get outcome d))
finish_pending id outcome d h fits one = elim (finish-quiet id outcome d h fits) [
  | inl (zero_rows, _) ↦ absurd (omega arith)
  | inr (_, finished) ↦ finished
]

-- A finished row is not pending.
mark_done-not_pending :
    (id reply_id : ℤ) (m : Message) → pending_row id (mark_done reply_id m) ≡ false
unfolding pending_row mark_done eq_str
mark_done-not_pending id reply_id m = ground arith

mark_failed-not_pending :
    (id : ℤ) (error : Str) (result : Option Str) (m : Message)
    → pending_row id (mark_failed error result m) ≡ false
unfolding pending_row mark_failed eq_str
mark_failed-not_pending id error none m = ground arith
mark_failed-not_pending id error (some result) m = ground arith

-- An UPDATE of all rows that a test accepts, to rows that another does not accept.
pub count-update_none :
    (p q : Message → Bool) (f : Message → Message)
    → ((m : Message) → p m ≡ true → q m ≡ true)
    → ((m : Message) → p (f m) ≡ false)
    → (xs : List Message) → count p (update q f xs) ≡ 0
unfolding count update
count-update_none p q f h k [] = refl
count-update_none p q f h k (x ∷ xs) = ground (arith, count-update_none p q f h k xs, h x, k x)

-- No row is pending under the id after `finish`.
pub outcome_tables-not_pending :
    (id : ℤ) (outcome : JobOutcome) (d : Db)
    → count (pending_row id) (outcome_tables id outcome d).messages ≡ 0
unfolding outcome_tables done_update failed_update
outcome_tables-not_pending id (success result) d =
    count-update_none (pending_row id) (has_id id) (mark_done (pos d.next_id)) (pending-has_id id)
      (mark_done-not_pending id (pos d.next_id)) _
outcome_tables-not_pending id (failure error result) d =
    count-update_none (pending_row id) (pending_row id) (mark_failed error result) (λ m e. e)
      (mark_failed-not_pending id error result) _
