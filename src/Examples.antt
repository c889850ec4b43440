-- ===== src/Examples.antt =====
-- The tables and the requests on which the theorems are tried.
mod Runner
mod Loop
mod Agent
mod Tools
mod Company
mod Start
use claude_job_runner.Prelude.{
  ℕ, true, false, eq_ℤ, Option, none, some, List, [], ◌∷◌, Str, text, ℤ, pos, ◌≡◌, ◌≤◌, refl, arith,
}
use claude_job_runner.Json.{object, end}
use claude_job_runner.Job.{MessageId, ChatId, Job, Requester, pending}
use claude_job_runner.Db.{Db, Message, Chat, user, ai, count, has_id, is_job}
use claude_job_runner.Db.Evolves.{IsTidy}

-- A waiting job, a job that runs, and an answer.
abbrev pub waiting : Message
waiting = record {
  id = pos 3;
  chat_id = pos 1;
  sender = user;
  content = text "how many deals?";
  is_agentic = some (pos 1);
  payload = none;
  status = none;
}

abbrev pub running : Message
running = record waiting { id = pos 4; payload = some (object end); status = some (text "pending") }

abbrev pub answer : Message
answer = record waiting { id = pos 5; sender = ai; is_agentic = some (pos 1) }

abbrev pub chat : Chat
chat = record { id = pos 1; user_id = pos 7; company_id = pos 9 }

abbrev pub tables : Db
tables = record { messages = waiting ∷ running ∷ answer ∷ []; chats = chat ∷ []; next_id = 6 }

abbrev pub three : MessageId
three = record { get = pos 3 }

abbrev pub four : MessageId
four = record { get = pos 4 }

abbrev pub asker : Requester
asker = record { user_id = pos 7; company_id = pos 9; is_admin = false }

abbrev pub four_job : Job
four_job = record {
  id = four;
  chat_id = record { get = pos 1 };
  content = text "how many deals?";
  status = pending;
  reply_id = none;
  error = none;
  requester = some asker;
}

pub tables-IsTidy : IsTidy tables
tables-IsTidy = record {
  unique = λ i. once i;
  fresh = (omega arith, (omega arith, (omega arith, tt)));
  only_jobs =
      ((λ h. refl), ((λ h. absurd (unfold is_job eq_ℤ in ground arith)), ((λ h. refl), tt)));
}
  where
    once : (i : ℤ) → count (has_id i) tables.messages ≤ 1
    once i = unfold count eq_ℤ in ground arith
