-- ===== src/Examples/Runner.antt =====
-- The theorems on the store and the API, at concrete tables.
use claude_job_runner.Prelude.{
  eq_str, eq_ℤ, true, ◌++◌, ℕ, ◌≡◌, ◌≢◌, refl, ◌⊎◌, inl, inr, true, false, none, some, List, [],
  ◌∷◌, ◌++◌, arith, All, ℤ, pos, Str, text, Result, ok, err, show_ℤ, eq_ℤ, eq_str, trim, trim_start,
  trim_end, is_whitespace, is_empty,
}
use claude_job_runner.Job.{Job, JobStatus, from_db, to_db, done, pending, success}
use claude_job_runner.Job.Status.{from_db_exact}
use claude_job_runner.Db.{count, pending_row, unclaimed, user_row, chat_exists}
use claude_job_runner.Db.Evolves.{DbStep, DbStep-refl}
use claude_job_runner.Db.Tidy.{inserted}
use claude_job_runner.Store.{claim_next, claim_update, finish, finish_done, get, reply, id_of}
use claude_job_runner.Store.Exec.{World, fine, lost, late, driver, quiet, not_pending}
use claude_job_runner.Store.Race.{Turn, claim, other, race, Distinct, race-Distinct}
use claude_job_runner.Store.Lifecycle.{Call, claim_call, finish_call, perform_all, calls-DbStep}
use claude_job_runner.Store.Finishing.{
  finish_done_atomic, finish-quiet, AllOrNothing, at_first, outcome_tables, done_tables,
}
use claude_job_runner.Store.Claiming.{claim_next-quiet, IsOldest}
use claude_job_runner.Store.RoundTrip.{get-finish_done}
use claude_job_runner.Http.{
  read_json, parse_body, CreateJob, view, handle, parse_job_id, get_method, post_method,
}
use claude_job_runner.Http.Paths.{Names, job_paths_exact}
use claude_job_runner.Http.Jobs.{post_then_get, post_rejected, new_job}
use claude_job_runner.Jobctl.Watch.{Poll, look, message, job_row, by_status, is_agentic, watch_row}
use claude_job_runner.Jobctl.Watch.Finished.{watch_row_after_finish}
use claude_job_runner.Store.Queue.{jobs}
use claude_job_runner.Store.Queue.Uses.{Use, insert_use, claim_use, finish_use, known}
use claude_job_runner.Store.Queue.Runs.{RefinedAll, requests, answer_all, store_refines_queue}
use claude_job_runner.Examples.{tables, tables-IsTidy, three, four}

-- Two workers that both find the waiting job, and one that finds it again.
abbrev rivals : List Turn
rivals = claim (pos 3) ∷ other (λ d. d) ∷ claim (pos 3) ∷ claim (pos 3) ∷ []

race-Distinct_example : Distinct (race tables rivals)
race-Distinct_example =
    race-Distinct tables rivals tables-IsTidy (tt, ((λ d h. DbStep-refl d h), (tt, (tt, tt))))

-- A claim whose UPDATE takes effect and is reported as failed, then an outcome.
abbrev troubled : World
troubled = record {
  db = tables;
  moments =
      record { others = λ d. d; fault = fine }
      ∷ record { others = λ d. d; fault = late (driver (text "gone")) }
      ∷ [];
}

abbrev calls : List Call
calls = claim_call ∷ finish_call four (success (text "12")) ∷ []

calls-DbStep_example : DbStep tables (perform_all calls troubled).db
calls-DbStep_example =
    calls-DbStep calls troubled tables-IsTidy
      ((λ d h. DbStep-refl d h), ((λ d h. DbStep-refl d h), tt))

-- The transaction's second statement fails.
abbrev broken : World
broken = record {
  db = tables;
  moments =
      record { others = λ d. d; fault = fine }
      ∷ record { others = λ d. d; fault = lost (driver (text "too long")) }
      ∷ [];
}

finish_done_atomic_example :
    AllOrNothing
      (pos 4)
      (text "12")
      (at_first broken)
      (finish_done four (text "12") broken).0
      (finish_done four (text "12") broken).1.db
finish_done_atomic_example = finish_done_atomic four (text "12") broken

claim_next-quiet_example :
    (All (λ m. unclaimed m ≡ false) tables.messages
      × (claim_next (quiet tables) ≡ (ok none, quiet tables)))
    ⊎ ((id : ℤ) × (job : Job) × IsOldest id tables.messages
        × (claim_next (quiet tables) ≡ (ok (some job), quiet (claim_update id tables).1))
        × (job.id.get ≡ id)
        × (job.status ≡ pending))
claim_next-quiet_example = claim_next-quiet tables tables-IsTidy

finish-quiet_example :
    ((count (pending_row (pos 3)) tables.messages ≡ 0)
      × (finish three (success (text "12")) (quiet tables)
          ≡ (err (not_pending three), quiet tables)))
    ⊎ ((count (pending_row (pos 3)) tables.messages ≡ 1)
        × (finish three (success (text "12")) (quiet tables)
            ≡ (ok tt, quiet (outcome_tables (pos 3) (success (text "12")) tables))))
finish-quiet_example = finish-quiet three (success (text "12")) tables tables-IsTidy (omega arith)

-- The tables with the running job alone, whose payload is an object.
four_pending : count (pending_row (pos 4)) tables.messages ≡ 1
four_pending = unfold count pending_row eq_ℤ eq_str in refl

get-finish_done_example :
    (let (r, w) = finish four (success (text "12")) (quiet tables) in
      (r ≡ ok tt)
      × ((job : Job) × (get four w ≡ (ok (some job), w))
          × (job.status ≡ done)
          × (job.reply_id ≡ some (id_of (pos 6)))
          × (reply (id_of (pos 6)) w ≡ (ok (some (text "12")), w))))
get-finish_done_example =
    get-finish_done (pos 4) (text "12") tables tables-IsTidy four_pending (omega arith)
      (inl refl, (inr (_, refl), (inl refl, tt)))

from_db_exact_example :
    ((s : JobStatus) × (from_db (some (text "failed")) ≡ ok s) × (some (text "failed") ≡ to_db s))
    ⊎ ((t : Str) × (some (text "failed") ≡ some t)
        × (from_db (some (text "failed")) ≡ err (record { raw = t }))
        × ((s : JobStatus) → some (text "failed") ≢ to_db s))
from_db_exact_example = from_db_exact (some (text "failed"))

-- A request is its bytes, and the parser knows one body.
abbrev collect : ℕ → List ℕ → Result Str (List ℕ)
collect limit body = ok body

abbrev create : CreateJob
create = record { chat_id = record { get = pos 1 }; content = text "how many deals?" }

abbrev from_slice : List ℕ → Result Str CreateJob
from_slice [] = err (text "EOF")
from_slice (_ ∷ _) = ok create

post_then_get_example :
    (handle collect from_slice post_method (text "/jobs") (0 ∷ []) (quiet tables) ≡ (
      record {
        status = 201;
        body = view (record { job = new_job create.chat_id create.content tables; reply = none });
      },
      quiet (inserted tables (user_row (pos 1) create.content 6)),
    ))
    × (handle collect from_slice get_method
          (text "/jobs/" ++ show_ℤ (pos 6))
          []
          (quiet (inserted tables (user_row (pos 1) create.content 6)))
        ≡ (
          record {
            status = 200;
            body =
                view (record { job = new_job create.chat_id create.content tables; reply = none });
          },
          quiet (inserted tables (user_row (pos 1) create.content 6)),
        ))
post_then_get_example =
    post_then_get collect from_slice (0 ∷ []) [] create tables (unfold read_json parse_body in refl)
      (unfold trim trim_start trim_end is_whitespace in refl) (unfold chat_exists eq_ℤ in refl)
      tables-IsTidy (omega arith) (omega arith)

unread : (c : CreateJob) → read_json collect from_slice [] ≡ ok c → is_empty (trim c.content) ≡ true
unfolding read_json parse_body
unread c e = absurd (ground arith)

post_rejected_example :
    ((handle collect from_slice post_method (text "/jobs") [] (quiet tables)).0.status ≡ 400)
    × ((handle collect from_slice post_method (text "/jobs") [] (quiet tables)).1 ≡ quiet tables)
post_rejected_example = post_rejected collect from_slice [] (quiet tables) unread

-- A job is taken, settled and settled again, and another is added.
abbrev uses : List Use
uses =
    claim_use
    ∷ (finish_use three (success (text "12"))
        ∷ (finish_use three (success (text "13"))
            ∷ (insert_use (record { get = pos 1 }) (text "and now?") ∷ [])))

store_refines_queue_example :
    RefinedAll (known tables) (jobs tables.messages) (requests uses) (answer_all uses tables)
store_refines_queue_example = store_refines_queue uses tables tables-IsTidy (omega arith)

-- `jobctl` has looked once while the job ran.
abbrev first_look : List Poll
first_look = record { job = ok tables; answer = ok tables } ∷ []

watch_row_after_finish_example :
    (finish four (success (text "12")) (quiet tables)
      ≡ (ok tt, quiet (done_tables (pos 4) (text "12") tables)))
    × (watch_row (pos 4) (
          first_look
          ++ record {
            job = ok (done_tables (pos 4) (text "12") tables);
            answer = ok (done_tables (pos 4) (text "12") tables);
          }
            ∷ [])
        ≡ ok (some (text "12" ∷ [], true)))
unfolding look message job_row by_status is_agentic eq_ℤ eq_str
watch_row_after_finish_example =
    watch_row_after_finish (pos 4) (text "12") tables first_look [] tables-IsTidy four_pending
      (omega arith) (inl refl, (inr (_, refl), (inl refl, tt))) (refl, tt)

job_paths_exact_example :
    (parse_job_id (text "/jobs/+007") ≡ some (id_of (pos 7))
      → Names (text "/jobs/+007") (id_of (pos 7)))
    × (Names (text "/jobs/+007") (id_of (pos 7))
        → parse_job_id (text "/jobs/+007") ≡ some (id_of (pos 7)))
job_paths_exact_example = job_paths_exact (text "/jobs/+007") (id_of (pos 7))
