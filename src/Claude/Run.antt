-- ===== src/Claude/Run.antt =====
-- `CliRunner::run`: what one session comes to. The process and the reader of its report are
-- parameters: `spawn` stands for the operating system, and `read_report` for `serde_json`.
use claude_job_runner.Prelude.{
  Bool, true, false, Option, none, some, List, ◌++◌, Str, text, if◌then◌else◌, ℕ, ◌==◌, Result, ok,
  err, trim, ℤ,
}
use claude_job_runner.Json.{Value}
use claude_job_runner.Job.{Requester, JobOutcome, success, failure, failed_with}
use claude_job_runner.Broker.{QboJobAccess}
use claude_job_runner.Claude.{ClaudeConfig, Command, command_with_qbo}

pub record RunRequest : Type 0 where
  pub prompt : Str
  pub workspace : Str
  pub requester : Option Requester

pub record RunReport : Type 0 where
  pub result : Option Str
  pub is_error : Bool
  pub subtype : Str
  pub session_id : Option Str
  pub cost_usd : Option ℕ
  pub num_turns : Option ℕ
  pub permission_denials : ℕ

-- `RunReport::into_outcome`
outcome_of : Bool → Option Str → Str → JobOutcome
outcome_of false (some result) subtype = success result
outcome_of false none subtype = failed_with (text "claude finished without a result")
outcome_of true result subtype = failure (text "claude reported an error: " ++ subtype) result

unfoldable pub into_outcome : RunReport → JobOutcome
unfolding outcome_of
into_outcome r = outcome_of r.is_error r.result r.subtype

pub record Output : Type 0 where
  -- the exit code; none after a signal
  pub status : Option ℕ
  pub stdout : List ℕ
  pub stderr : Str

-- How waiting for the child ends.
pub data Waited : Type 0 where
  finished : Output → Waited
  io_error : Str → Waited
  elapsed : Waited

pub data RunError : Type 0 where
  spawn_failed : Str → Str → RunError
  io : Str → RunError
  timeout : ℕ → RunError
  exited : Option ℕ → Str → RunError
  invalid_output : Str → List ℕ → RunError

-- `output.status.success()`
abbrev pub is_success : Option ℕ → Bool
is_success none = false
is_success (some code) = code == 0

-- The `match` on the parsed report.
report_of : Result Str RunReport → Output → Result RunError RunReport
report_of (ok report) out = ok report
report_of (err source) out =
    if is_success out.status
    then err (invalid_output source out.stdout)
    else err (exited out.status (trim out.stderr))

after_wait : (List ℕ → Result Str RunReport) → ℕ → Waited → Result RunError RunReport
unfolding report_of
after_wait read_report limit (finished out) = report_of (read_report out.stdout) out
after_wait read_report limit (io_error e) = err (io e)
after_wait read_report limit elapsed = err (timeout limit)

after_spawn :
    (List ℕ → Result Str RunReport) → ClaudeConfig → Result Str Waited → Result RunError RunReport
unfolding after_wait
after_spawn read_report c (err e) = err (spawn_failed c.binary e)
after_spawn read_report c (ok w) = after_wait read_report c.timeout w

-- QuickBooks access is asked for if there is a broker, a requester and `jobctl-mcp`.
unfoldable pub job_access :
    Option (ℤ → QboJobAccess) → Option Requester → Option Str → Option QboJobAccess
job_access (some broker) (some r) (some jobctl) = some (broker r.company_id)
job_access _ _ _ = none

module _ (to_json : Value → Str) (show_f64 : ℕ → Str) (read_report : List ℕ → Result Str RunReport)
    (spawn : Command → Str → Result Str Waited) where
  -- `run`, with the prompt as the child's standard input
  unfoldable pub run :
      ClaudeConfig → Option (ℤ → QboJobAccess) → RunRequest → Result RunError RunReport
  unfolding after_spawn job_access
  run c broker request =
      let qbo = job_access broker request.requester c.jobctl_mcp in
      after_spawn read_report c (
        spawn (command_with_qbo to_json show_f64 c request.workspace request.requester qbo)
          request.prompt)
