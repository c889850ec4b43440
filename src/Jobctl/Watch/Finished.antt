-- ===== src/Jobctl/Watch/Finished.antt =====
-- crates/jobctl/src/main.rs: what `watch_row` prints of a job that the runner has finished.
use claude_job_runner.Prelude.{
  ◌≤◌, ◌≡◌, refl, ap, ◌∙◌, subst, Bool, true, not, ◌&&◌, Option, none, some, List, [], ◌∷◌, ◌++◌,
  find, ℤ, pos, eq_ℤ, Str, text, eq_str, Result, ok, negsuc, ◌>>=◌, Bool-cases, inl, inr, arith,
  All, max_i64,
}
use claude_job_runner.Job.{to_db, done, success}
use claude_job_runner.Db.{Db, Message, count, has_id, is_job, is_user, is_one, pending_row}
use claude_job_runner.Db.Evolves.{IsTidy}
use claude_job_runner.Store.{select_reply, payload_get, and_then, finish, id_of}
use claude_job_runner.Store.Exec.{quiet}
use claude_job_runner.Store.Finishing.{
  done_tables, finish_pending, outcome_tables, length-insert_replies,
}
use claude_job_runner.Store.Steps.{finished-DbStep}
use claude_job_runner.Store.RoundTrip.{HasObject, ShowsReply, find_done, select_answer}
use claude_job_runner.Jobctl.Watch.{
  message, is_agentic, payload_i64, Poll, job_row, show_answer, by_status, look, unless_finished,
  watch_row,
}

-- A match is there where the rows are counted.
count_found :
    (p q : Message → Bool) (xs : List Message) (m : Message)
    → find (λ x. p x && q x) xs ≡ some m
    → 1 ≤ count p xs
unfolding count
count_found p q [] m h = absurd (ground arith)
count_found p q (x ∷ xs) m h = elim (Bool-cases (p x)) [
  | inl e ↦ rw e (omega arith)
  | inr e ↦ rw e (count_found p q xs m (ground (arith, h, e)))
]

-- Where at most one row passes the wider test, it is the one that the narrower test finds.
find_only :
    (p q : Message → Bool) (xs : List Message) (m : Message)
    → find (λ x. p x && q x) xs ≡ some m
    → count p xs ≤ 1
    → find p xs ≡ some m
unfolding count
find_only p q [] m h one = absurd (ground arith)
find_only p q (x ∷ xs) m h one = elim (Bool-cases (p x)) [
  | inr e ↦ rw e (find_only p q xs m (ground (arith, h, e)) (ground (arith, one, e)))
  | inl e ↦ elim (Bool-cases (q x)) [
    | inl e1 ↦ rw e (ground (arith, h, e, e1))
    | inr e1 ↦ absurd (ground (arith, one, e, count_found p q xs m (ground (arith, h, e, e1))))
  ]
]

find_passes :
    (p : Message → Bool) (xs : List Message) (m : Message) → find p xs ≡ some m → p m ≡ true
find_passes p [] m h = absurd (ground arith)
find_passes p (x ∷ xs) m h = elim (Bool-cases (p x)) [
  | inl e ↦ let same : x ≡ m = ground (arith, h, e) in subst (λ y. p y ≡ true) same e
  | inr e ↦ find_passes p xs m (ground (arith, h, e))
]

one_agentic : (o : Option ℤ) → is_one o ≡ true → is_agentic o ≡ true
unfolding is_agentic eq_ℤ
one_agentic none h = absurd (ground arith)
one_agentic (some (pos n)) h = ground arith
one_agentic (some (negsuc n)) h = absurd (ground arith)

and_both : (a b c : Bool) → (b ≡ true → c ≡ true) → (a && b) ≡ true → (a && c) ≡ true
and_both a b c f h = ground arith

and_right : (a b : Bool) → (a && b) ≡ true → b ≡ true
and_right a b h = ground arith

is_user_row : (m : Message) → is_job m ≡ true → (is_user m.sender && is_agentic m.is_agentic) ≡ true
unfolding is_job
is_user_row m h =
    and_both (is_user m.sender) (is_one m.is_agentic) (is_agentic m.is_agentic)
      (one_agentic m.is_agentic) h

job_row-job : (id : ℤ) (m : Message) → is_job m ≡ true → job_row id (some m) ≡ ok m
unfolding job_row
job_row-job id m h = rw (is_user_row m h) refl

by_status-done :
    (at : Result Str Db) (m : Message)
    → m.status ≡ to_db done
    → by_status at m m.status ≡ show_answer at m
unfolding by_status to_db eq_str
by_status-done at m e = ap (by_status at m) e

-- What `show_answer` does with the reply's id.
show_answer-reply :
    (d : Db) (m r : Message) (n : ℤ)
    → payload_i64 m (text "reply_id") ≡ some n
    → message n d ≡ some r
    → show_answer (ok d) m ≡ ok (some (r.content ∷ [], true))
unfolding show_answer
show_answer-reply d m r n e e1 = rw e (rw e1 refl)

content_found :
    (o : Option Message) (result : Str)
    → and_then o (λ m. some m.content) ≡ some result
    → (r : Message) × ((o ≡ some r) × (r.content ≡ result))
content_found none result e = absurd (ground arith)
content_found (some r) result e = (r, (refl, cc))

module _ (id : ℤ) (result : Str) (d : Db) (h : IsTidy d)
    (one : count (pending_row id) d.messages ≡ 1) (fits : d.next_id ≤ max_i64)
    (objects : All HasObject d.messages) where
  abbrev after : Db
  after = done_tables id result d

  job_found :
      IsTidy after
      → (m : Message) × ((message id after ≡ some m)
          × ((is_job m ≡ true) × ShowsReply (pos d.next_id) m))
  unfolding message
  job_found tidy =
      let (m, found, shows) = find_done id result d h one fits objects in
      let both = find_passes (λ x. has_id id x && is_job x) after.messages m found in
      (
        m,
        (
          find_only (has_id id) is_job after.messages m found (tidy.unique id),
          (and_right (has_id id m) (is_job m) both, shows),
        ),
      )

  answer_found :
      IsTidy after
      → (r : Message) × ((message (pos d.next_id) after ≡ some r) × (r.content ≡ result))
  unfolding message select_reply
  answer_found tidy =
      let (r, (found, same)) = content_found _ result (select_answer id result d h one) in
      (
        r,
        (
          find_only (has_id (pos d.next_id)) (λ m. not (is_user m.sender)) after.messages r found
              (tidy.unique (pos d.next_id)),
          same,
        ),
      )

  after-IsTidy : IsTidy after
  unfolding done_tables
  after-IsTidy =
      (finished-DbStep id (pos d.next_id) result d h (length-insert_replies id result d ∙ one)).tidy

  look_finished :
      look id (record { job = ok after; answer = ok after }) ≡ ok (some (result ∷ [], true))
  unfolding look payload_i64 payload_get
  look_finished =
      let (m, (found, (job, (status, reply_id)))) = job_found after-IsTidy in
      let (r, (answer, content)) = answer_found after-IsTidy in
      ap (λ o. job_row id o >>= (λ row. by_status (ok after) row row.status)) found
      ∙ ap (λ x. x >>= (λ row. by_status (ok after) row row.status)) (job_row-job id m job)
      ∙ by_status-done (ok after) m status
      ∙ show_answer-reply after m r (pos d.next_id) reply_id answer
      ∙ ap (λ t. ok (some (t ∷ [], true))) content

-- The rounds that find nothing finished.
watch_row-waits :
    (id : ℤ) (before later : List Poll)
    → All (λ p. look id p ≡ ok none) before
    → watch_row id (before ++ later) ≡ watch_row id later
unfolding watch_row
watch_row-waits id [] later h = refl
watch_row-waits id (p ∷ ps) later (e, h) =
    ap (λ r. unless_finished r (watch_row id (ps ++ later))) e ∙ watch_row-waits id ps later h

-- The runner and `jobctl` agree: the runner's `finish` of a pending job with an answer succeeds, and
-- `jobctl`, however often it has looked before and found nothing finished, prints just that answer at
-- its next look and exits with success. The tables are tidy, the payloads are NULL or objects, and the
-- new id is an `i64`.
pub watch_row_after_finish :
    (id : ℤ) (result : Str) (d : Db) (before later : List Poll)
    → IsTidy d
    → count (pending_row id) d.messages ≡ 1
    → d.next_id ≤ max_i64
    → All HasObject d.messages
    → All (λ p. look id p ≡ ok none) before
    → (finish (id_of id) (success result) (quiet d) ≡ (ok tt, quiet (done_tables id result d)))
      × (watch_row id (
            before
            ++ record { job = ok (done_tables id result d); answer = ok (done_tables id result d) }
              ∷ later)
          ≡ ok (some (result ∷ [], true)))
unfolding outcome_tables watch_row
watch_row_after_finish id result d before later h one fits objects waits = (
  finish_pending (id_of id) (success result) d h fits one,
  watch_row-waits id before _ waits
      ∙ ap (λ r. unless_finished r (watch_row id later))
          (look_finished id result d h one fits objects),
)
