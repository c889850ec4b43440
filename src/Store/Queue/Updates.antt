-- ===== src/Store/Queue/Updates.antt =====
-- src/store.rs: the UPDATEs and INSERTs, in the queue.
use claude_job_runner.Prelude.{
  ℕ, suc, ◌≡◌, refl, sym, ap, ◌∙◌, Bool, true, false, ◌&&◌, Option, none, some, List, [], ◌∷◌, ◌++◌,
  append-nil, All, any, ℤ, pos, eq_ℤ, Str, Bool-cases, inl, inr, arith, filter,
}
use claude_job_runner.Job.{
  new, pending, done, failed, from_db, to_db, JobOutcome, success, failure, outcome_status,
}
use claude_job_runner.Job.Status.{from_db-to_db}
use claude_job_runner.Db.{
  Db, Message, is_job, update, count, unclaimed, is_null, has_id, sql_eq, pending_row, mark_pending,
  mark_done, mark_failed, user_row, reply_row, reply_rows, insert_replies,
}
use claude_job_runner.Db.Rows.{update-append, All-update, count_tight}
use claude_job_runner.Db.Evolves.{IsTidy}
use claude_job_runner.Store.{failed_update, done_update}
use claude_job_runner.Store.Finishing.{outcome_tables, done_tables}
use claude_job_runner.Store.Steps.{pending-has_id}
use claude_job_runner.Store.Queue.{
  status_or_none, waiting_entry, running_entry, set_status, jobs, entry,
}
use claude_job_runner.Store.Queue.Jobs.{
  waits-from_db, runs-from_db, Matches, jobs-update, jobs-append, jobs-none, any-jobs,
}

pub All-map {ℓ κ} :
    {P : Message → Type ℓ} {Q : Message → Type κ}
    → ((m : Message) → P m → Q m)
    → (ms : List Message) → All P ms
    → All Q ms
All-map f [] h = tt
All-map f (m ∷ ms) (hm, h) = (f m hm, All-map f ms h)

pub All-every {ℓ} : {P : Message → Type ℓ} → ((m : Message) → P m) → (ms : List Message) → All P ms
All-every f [] = tt
All-every f (m ∷ ms) = (f m, All-every f ms)

pub swapped : (a b c : Bool) → (a && (b && c)) ≡ (b && (a && c))
swapped a b c = ground arith

pub waiting_row :
    (id : ℤ) (m : Message) → (has_id id m && unclaimed m) ≡ (is_job m && waiting_entry id (entry m))
unfolding unclaimed
waiting_row id m =
    swapped (has_id id m) (is_job m) (is_null m.status)
    ∙ ap (λ b. is_job m && (has_id id m && b)) (sym (waits-from_db m.status))

pub no_job_runs : (a b : Bool) → b ≡ false → (a && b) ≡ (false && (a && b))
no_job_runs a b h = ground arith

pub running_row :
    (id : ℤ) (m : Message)
    → (is_job m ≡ false → m.status ≡ none)
    → pending_row id m ≡ (is_job m && running_entry id (entry m))
unfolding pending_row
running_row id m h = elim (Bool-cases (is_job m)) [
  | inl e ↦
      ap (λ b. has_id id m && b) (sym (runs-from_db m.status))
      ∙ ap (λ b. b && running_entry id (entry m)) (sym e)
  | inr e ↦
      no_job_runs (has_id id m) (sql_eq m.status (to_db pending))
        (ap (λ s. sql_eq s (to_db pending)) (h e))
      ∙ ap (λ b. false && (has_id id m && b)) (sym (runs-from_db m.status))
      ∙ ap (λ b. b && running_entry id (entry m)) (sym e)
]

pub jobs-one :
    (chat : ℤ) (content : Str) (n : ℕ)
    → jobs (user_row chat content n ∷ []) ≡ (pos n, some new) ∷ []
unfolding jobs user_row is_job from_db eq_ℤ
jobs-one chat content n = refl

pub jobs-user_row :
    (ms : List Message) (chat : ℤ) (content : Str) (n : ℕ)
    → jobs (ms ++ user_row chat content n ∷ []) ≡ jobs ms ++ (pos n, some new) ∷ []
jobs-user_row ms chat content n =
    jobs-append ms (user_row chat content n ∷ []) ∙ ap (λ r. jobs ms ++ r) (jobs-one chat content n)

pub mark_pending-Matches :
    (id : ℤ) (m : Message)
    → Matches (λ m. has_id id m && unclaimed m) mark_pending (waiting_entry id) pending m
unfolding mark_pending is_job
mark_pending-Matches id m =
    (waiting_row id m, (refl, ap (λ s. (m.id, status_or_none s)) (from_db-to_db pending)))

pub mark_failed-Matches :
    (id : ℤ) (error : Str) (result : Option Str) (m : Message)
    → (is_job m ≡ false → m.status ≡ none)
    → Matches (pending_row id) (mark_failed error result) (running_entry id) failed m
unfolding mark_failed is_job
mark_failed-Matches id error none m h =
    (running_row id m h, (refl, ap (λ s. (m.id, status_or_none s)) (from_db-to_db failed)))
mark_failed-Matches id error (some r) m h =
    (running_row id m h, (refl, ap (λ s. (m.id, status_or_none s)) (from_db-to_db failed)))

-- The UPDATE of `finish_done` has no guard: that it meets the pending row alone is the key's doing.
pub mark_done-Matches :
    (id reply_id : ℤ) (m : Message)
    → (is_job m ≡ false → m.status ≡ none) × (has_id id m ≡ true → pending_row id m ≡ true)
    → Matches (has_id id) (mark_done reply_id) (running_entry id) done m
unfolding mark_done is_job
mark_done-Matches id reply_id m (h, tight) = (
  narrow (has_id id m) (pending_row id m) (pending-has_id id m) tight ∙ running_row id m h,
  (refl, ap (λ s. (m.id, status_or_none s)) (from_db-to_db done)),
)
  where
    narrow : (a b : Bool) → (b ≡ true → a ≡ true) → (a ≡ true → b ≡ true) → a ≡ b
    narrow a b h k = ground arith

pub All-both {ℓ κ} :
    (P : Message → Type ℓ) (Q : Message → Type κ) (ms : List Message)
    → All P ms
    → All Q ms
    → All (λ m. P m × Q m) ms
All-both P Q [] h k = tt
All-both P Q (m ∷ ms) (hm, h) (km, k) = ((hm, km), All-both P Q ms h k)

pub no_replies :
    (n : ℕ) (answer : Str) (ms : List Message)
    → All (λ m. is_job m ≡ false) (reply_rows n answer ms)
unfolding reply_rows is_job reply_row
no_replies n answer [] = tt
no_replies n answer (m ∷ ms) = (refl, no_replies (suc n) answer ms)

pub still_no_replies :
    (id reply_id : ℤ) (ms : List Message)
    → All (λ m. is_job m ≡ false) ms
    → All (λ m. is_job m ≡ false) (update (has_id id) (mark_done reply_id) ms)
unfolding mark_done is_job
still_no_replies id reply_id ms h =
    All-update (λ m. is_job m ≡ false) (has_id id) (mark_done reply_id) (λ m e. e) ms h

pub mark_done-Matches-All :
    (id reply_id : ℤ) (d : Db)
    → IsTidy d
    → count (pending_row id) d.messages ≡ 1
    → All (Matches (has_id id) (mark_done reply_id) (running_entry id) done) d.messages
mark_done-Matches-All id reply_id d h one = All-map (mark_done-Matches id reply_id) d.messages (
    All-both (λ m. is_job m ≡ false → m.status ≡ none)
      (λ m. has_id id m ≡ true → pending_row id m ≡ true) d.messages h.only_jobs
      (count_tight (pending_row id) (has_id id) (pending-has_id id) d.messages
        (omega (arith, h.unique id, one))))

pub jobs-done_tables :
    (id : ℤ) (result : Str) (d : Db)
    → IsTidy d
    → count (pending_row id) d.messages ≡ 1
    → jobs (done_tables id result d).messages ≡ set_status (running_entry id) done (jobs d.messages)
unfolding done_tables done_update insert_replies
jobs-done_tables id result d h one =
    let replies = reply_rows d.next_id result (filter (pending_row id) d.messages) in
    let mark = mark_done (pos d.next_id) in
    ap jobs (update-append (has_id id) mark d.messages replies)
    ∙ jobs-append (update (has_id id) mark d.messages) (update (has_id id) mark replies)
    ∙ ap (λ r. jobs (update (has_id id) mark d.messages) ++ r)
        (jobs-none (update (has_id id) mark replies)
          (still_no_replies id (pos d.next_id) replies (no_replies d.next_id result _)))
    ∙ append-nil (jobs (update (has_id id) mark d.messages))
    ∙ jobs-update (has_id id) mark (running_entry id) done d.messages
        (mark_done-Matches-All id (pos d.next_id) d h one)

pub jobs-outcome_tables :
    (id : ℤ) (outcome : JobOutcome) (d : Db)
    → IsTidy d
    → count (pending_row id) d.messages ≡ 1
    → jobs (outcome_tables id outcome d).messages
      ≡ set_status (running_entry id) (outcome_status outcome) (jobs d.messages)
unfolding outcome_tables outcome_status failed_update
jobs-outcome_tables id (success result) d h one = jobs-done_tables id result d h one
jobs-outcome_tables id (failure error result) d h one =
    jobs-update (pending_row id) (mark_failed error result) (running_entry id) failed d.messages
      (All-map (mark_failed-Matches id error result) d.messages h.only_jobs)

pub running-count :
    (id : ℤ) (d : Db)
    → IsTidy d
    → any (running_entry id) (jobs d.messages) ≡ any (pending_row id) d.messages
running-count id d h =
    any-jobs (pending_row id) (running_entry id) d.messages
      (All-map (running_row id) d.messages h.only_jobs)
