-- ===== src/Examples/Start.antt =====
-- The theorems on the configuration and on the server of a job's tools, at concrete inputs.
use claude_job_runner.Prelude.{
  true, ◌∷◌, ℕ, ◌+◌, ◌≡◌, refl, false, Option, none, some, [], Str, text, eq_str, Result, ok, err,
  if◌then◌else◌, pos,
}
use claude_job_runner.Config.{Std, Env, not_present, from_env}
use claude_job_runner.Config.Reading.{blank_as_unset, unset_blank}
use claude_job_runner.Json.{Value, str, object, field, end, null, get}
use claude_job_runner.Jobctl.{Error}
use claude_job_runner.Jobctl.Qbo.{Scope, Handlers, tools, tool_specs, may_use}
use claude_job_runner.Mcp.{Outside, Server, handle, call_tool, all_tools}
use claude_job_runner.Mcp.Replies.{Answered, handle_answers}
use claude_job_runner.Mcp.Guarded.{Harmless, unoffered-Harmless, offered}
use claude_job_runner.Store.Exec.{quiet, head}
use claude_job_runner.Workspace.{Root}
use claude_job_runner.Start.{Outcomes, set_up}
use claude_job_runner.Start.Clean.{Cleaned, set_up-Cleaned}
use claude_job_runner.Examples.{tables, tables-IsTidy}
use claude_job_runner.Examples.Company.{plain_cipher}

abbrev std : Std
std = record {
  SocketAddr = Str;
  parse_addr = λ s. ok s;
  loopback_8080 = text "127.0.0.1:8080";
  parse_f64 = λ s. err (text "invalid float literal");
  reason = λ s. text "invalid digit found in string";
  neighbour = none;
  is_file = λ path. false;
}

-- Two variables are set, one of them to blanks.
abbrev env : Env
env name =
    if eq_str name (text "DATABASE_URL")
    then ok (text "mysql://x")
    else if eq_str name (text "MAX_CONCURRENT_JOBS")
    then ok (text "  ")
    else err not_present

blank_as_unset_example : from_env std (λ name. unset_blank (env name)) ≡ from_env std env
blank_as_unset_example = blank_as_unset std env

-- An outside that counts what reaches it.
abbrev counting : Value → ℕ → Result Error Value × ℕ
counting args n = (ok null, n + 1)

abbrev handlers : Handlers ℕ
handlers = record {
  search_customers = counting;
  customer_invoices = counting;
  invoice = counting;
  sales_rep = counting;
  invoices_in_range = counting;
  class_sales = counting;
  query = counting;
  report = counting;
}

abbrev outside : Outside ℕ (Unit {0})
outside = record {
  connect = λ n. (ok tt, n + 1);
  query = λ conn statement n. (ok statement, n + 1);
  handlers = λ conn. handlers;
  print = λ value. [];
  parse = λ line. err line;
  quoted = λ s. s;
  version = text "0.1.0";
}

abbrev employee : Option Scope
employee = some (record { company_id = pos 9; user_id = pos 7; is_admin = false })

abbrev server : Server (Unit {0})
server = record { conn = none; qbo = employee }

abbrev ping : Value
ping = object (field (text "id") (str (text "a")) (field (text "method") (str (text "ping")) end))

handle_answers_example :
    Answered outside (get ping (text "id")) (server, 0) (handle outside ping (server, 0))
handle_answers_example = handle_answers outside ping (server, 0)

unoffered-Harmless_example :
    Harmless outside (server, 0) (call_tool outside (text "qbo_query") null (server, 0))
unfolding offered all_tools tools tool_specs may_use eq_str
unoffered-Harmless_example = unoffered-Harmless outside server 0 (text "qbo_query") null refl

abbrev outcomes : Outcomes
outcomes = record {
  connected = none;
  made = none;
  resolved = ok (text "/srv/workspaces");
  listed = none;
  client = ok tt;
}

-- A root with a job's directory and somebody else's file.
abbrev root : Root
root =
    record { file_name = some (text "job-4-17"); is_dir = some true; removable = true }
    ∷ (record { file_name = some (text "notes"); is_dir = some false; removable = true } ∷ [])

set_up-Cleaned_example :
    Cleaned plain_cipher std outcomes
      (quiet tables)
      root
      (set_up plain_cipher std outcomes env (quiet tables, root))
unfolding head
set_up-Cleaned_example =
    set_up-Cleaned plain_cipher std outcomes env (quiet tables) root tables-IsTidy
