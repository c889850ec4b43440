-- ===== src/Store/Queue/Refines.antt =====
-- src/store.rs: one call of a method, and the queue.
use claude_job_runner.Prelude.{
  ℕ, ◌≤◌, ◌≡◌, refl, sym, ◌∙◌, subst, Bool, true, false, ◌&&◌, ℤ, ◌≤ℤ◌, Result, Str, Bool-cases,
  inl, inr, arith, max_i64, leb,
}
use claude_job_runner.Job.{pending, MessageId, ChatId, JobOutcome, outcome_status}
use claude_job_runner.Db.{
  Db, Message, is_job, unclaimed, is_null, has_id, pending_row, mark_pending, chat_exists,
  insert_user,
}
use claude_job_runner.Db.Evolves.{IsTidy}
use claude_job_runner.Store.{insert, claim_next, finish, insert_id, claim_update}
use claude_job_runner.Store.Exec.{StoreError, World, quiet, run, lift, ◌>>=◌}
use claude_job_runner.Store.Claiming.{IsOldest, claim_next-quiet}
use claude_job_runner.Store.Finishing.{finish-quiet}
use claude_job_runner.Store.Queue.{
  Entry, waits, waiting_entry, entry, add, take_next, settle, given,
}
use claude_job_runner.Store.Queue.Jobs.{
  waits-from_db, jobs-update, any-jobs, any-count, any-none, All-jobs,
}
use claude_job_runner.Store.Queue.Uses.{
  insert_use, claim_use, finish_use, Use, request_of, answered, answer_insert, answer_claim,
  answer_finish, answer_use, Refined,
}
use claude_job_runner.Store.Queue.Updates.{
  All-map, All-every, waiting_row, jobs-user_row, mark_pending-Matches, jobs-outcome_tables,
  running-count,
}

pub in_range : (n : ℕ) → n ≤ max_i64 → leb n max_i64 ≡ true
in_range n h = ground arith

pub insert_refines :
    (chat : ChatId) (content : Str) (d : Db)
    → d.next_id ≤ max_i64
    → Refined d (add chat.get) (answered answer_insert (insert chat content (quiet d)))
unfolding insert run lift ◌>>=◌ insert_user insert_id
insert_refines chat content d fits = elim (Bool-cases (chat_exists chat.get d.chats)) [
  | inl e ↦
      rw e (rw (in_range d.next_id fits) (e, jobs-user_row d.messages chat.get content d.next_id))
  | inr e ↦ rw e (e, refl)
]

pub and_cut : (a b : Bool) → a ≡ true → (a && b) ≡ false → b ≡ false
and_cut a b h k = ground arith

pub and_both : (a b : Bool) → a ≡ true → b ≡ true → (a && b) ≡ true
and_both a b h k = ground arith

pub claim_least :
    (id : ℤ) (m : Message)
    → (unclaimed m ≡ true → id ≤ℤ m.id)
    → is_job m ≡ true
    → waits (entry m).1 ≡ true
    → id ≤ℤ m.id
unfolding unclaimed
claim_least id m least job w =
    least (and_both (is_job m) (is_null m.status) job (sym (waits-from_db m.status) ∙ w))

pub claimed_follows :
    (id : ℤ) (d : Db)
    → IsOldest id d.messages
    → Refined d take_next (given id, (claim_update id d).1)
unfolding claim_update
claimed_follows id d (one, least) = (
  any-jobs (λ m. has_id id m && unclaimed m) (waiting_entry id) d.messages
        (All-every (waiting_row id) d.messages)
      ∙ any-count (λ m. has_id id m && unclaimed m) d.messages one,
  (
    All-jobs (λ (x : Entry). waits x.1 ≡ true → id ≤ℤ x.0) d.messages
        (All-map (claim_least id) d.messages least),
    jobs-update (λ m. has_id id m && unclaimed m) mark_pending (waiting_entry id) pending d.messages
        (All-every (mark_pending-Matches id) d.messages),
  ),
)

pub claim_none : (m : Message) → unclaimed m ≡ false → is_job m ≡ true → waits (entry m).1 ≡ false
unfolding unclaimed
claim_none m h job = waits-from_db m.status ∙ and_cut (is_job m) (is_null m.status) job h

pub claim_refines :
    (d : Db) → IsTidy d → Refined d take_next (answered answer_claim (claim_next (quiet d)))
claim_refines d h = elim (claim_next-quiet d h) [
  | inl (free, e) ↦
      subst (λ r. Refined d take_next (answered answer_claim r)) (sym e)
        (
          All-jobs (λ (x : Entry). waits x.1 ≡ false) d.messages
              (All-map claim_none d.messages free),
          refl,
        )
  | inr (id, job, old, e, same, _) ↦
      subst (λ r. Refined d take_next (answered answer_claim r)) (sym e)
        (subst (λ n. Refined d take_next (given n, (claim_update id d).1)) (sym same)
          (claimed_follows id d old))
]

pub finish_refines :
    (id : MessageId) (outcome : JobOutcome) (d : Db)
    → IsTidy d
    → d.next_id ≤ max_i64
    → Refined d
        (settle id.get (outcome_status outcome))
        (answered answer_finish (finish id outcome (quiet d)))
finish_refines id outcome d h fits =
    let Goal : Result StoreError (Unit {0}) × World → Type 0 =
      λ r. Refined d (settle id.get (outcome_status outcome)) (answered answer_finish r) in
    elim (finish-quiet id outcome d h fits) [
      | inl (none_pending, e) ↦
          subst Goal (sym e)
            (running-count id.get d h ∙ any-none (pending_row id.get) d.messages none_pending, refl)
      | inr (one, e) ↦ subst Goal (sym e) (
        running-count id.get d h ∙ any-count (pending_row id.get) d.messages (omega (arith, one)),
        jobs-outcome_tables id.get outcome d h one,
      )
    ]

pub use_refines :
    (u : Use) (d : Db) → IsTidy d → d.next_id ≤ max_i64 → Refined d (request_of u) (answer_use u d)
unfolding request_of answer_use
use_refines (insert_use chat content) d h fits = insert_refines chat content d fits
use_refines claim_use d h fits = claim_refines d h
use_refines (finish_use id outcome) d h fits = finish_refines id outcome d h fits
