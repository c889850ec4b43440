-- ===== src/Worker.antt =====
-- src/worker.rs: one claimed job from its workspace to its recorded outcome.
pub mod Outcome
pub mod Pool
pub mod Slots
pub mod Drain
use claude_job_runner.Prelude.{
  ℕ, Bool, true, false, Option, none, some, List, [], ◌∷◌, ◌++◌, Str, text, Result, ok, err,
  if◌then◌else◌,
}
use claude_job_runner.Job.{Job, JobOutcome, success, failure, failed_with}
use claude_job_runner.Claude.Run.{RunRequest, RunReport, RunError, into_outcome}
use claude_job_runner.Store.{finish}
use claude_job_runner.Store.Exec.{Query, World, StoreError}
use claude_job_runner.Workspace.{Root, WorkspaceError, create, remove, join_path}

-- The texts of an error and of its sources, outermost first.
abbrev pub Sources : Type 0
Sources = List Str

-- `chain`: the error's text, then ": " and the text of each source.
unfoldable pub chain_rest : Sources → Str
chain_rest [] = []
chain_rest (s ∷ ss) = text ": " ++ (s ++ chain_rest ss)

unfoldable pub chain : Str → Sources → Str
unfolding chain_rest
chain error sources = error ++ chain_rest sources

-- `action path`, and the system's error as its source
unfoldable pub workspace_chain : WorkspaceError → Str
unfolding chain
workspace_chain (WorkspaceError.io action path source) =
    chain (action ++ (text " " ++ path)) (source ∷ [])

-- What happens around one job: the clock, failures of the file system, and which arm of `select!`
-- completes: the run, with what it returns, or the shutdown.
pub data Race : Type 0 where
  run_first : (RunRequest → Result RunError RunReport) → Race
  shutdown_first : Race

pub record Surroundings : Type 0 where
  pub root_path : Str
  pub nanos : ℕ
  pub create_fault : Option Str
  pub remove_fault : Option Str
  pub race : Race

module _ (run_chain : RunError → Str) where
  -- The `match` on what the run returned.
  unfoldable pub outcome_of_run : Result RunError RunReport → JobOutcome
  outcome_of_run (ok report) = into_outcome report
  outcome_of_run (err e) = failed_with (run_chain e)

  unfoldable pub outcome_of_race : Race → RunRequest → JobOutcome
  unfolding outcome_of_run
  outcome_of_race (run_first run) request = outcome_of_run (run request)
  outcome_of_race shutdown_first request =
      failed_with (text "runner shut down before the job finished")

  -- What follows `Workspace::create`.
  unfoldable pub in_workspace :
      Surroundings → Job → Result WorkspaceError Str × Root → JobOutcome × Root
  unfolding outcome_of_race
  in_workspace s job (err e, root) = (failed_with (workspace_chain e), root)
  in_workspace s job (ok name, root) = (
    outcome_of_race s.race (record {
      prompt = job.content;
      workspace = join_path s.root_path name;
      requester = job.requester;
    }),
    (remove s.remove_fault s.root_path name root).1,
  )

  -- `execute`
  unfoldable pub execute : Surroundings → Job → Root → JobOutcome × Root
  unfolding in_workspace
  execute s job root = in_workspace s job (create s.create_fault s.root_path job.id s.nanos root)

  -- `process`: the outcome is recorded whatever it is, and a failure to record it is only logged.
  unfoldable pub process : Surroundings → Job → Root → World → JobOutcome × Root × World
  unfolding execute
  process s job root w =
      let (outcome, root') = execute s job root in
      let (recorded, w') = finish job.id outcome w in (outcome, root', w')
