-- ===== src/Worker/Outcome.antt =====
-- What `process` leaves behind, on every path through `execute`.
use claude_job_runner.Prelude.{
  ◌≤◌, ◌≡◌, ◌∷◌, ◌⊎◌, inl, inr, Option, some, refl, ◌∙◌, ap, none, Str, Result, ok, err, max_i64,
}
use claude_job_runner.Job.{Job}
use claude_job_runner.Db.{Db, count, pending_row}
use claude_job_runner.Db.Evolves.{IsTidy}
use claude_job_runner.Store.{finish}
use claude_job_runner.Store.Exec.{World, quiet}
use claude_job_runner.Store.Finishing.{
  at_first, outcome_tables, finish_pending, outcome_tables-not_pending,
}
use claude_job_runner.Store.Recorded.{Recorded, finish-Recorded}
use claude_job_runner.Claude.Run.{RunError}
use claude_job_runner.Workspace.{Root, WorkspaceError, create, remove}
use claude_job_runner.Workspace.Sweep.{made}
use claude_job_runner.Workspace.Create.{create_undone, create-made}
use claude_job_runner.Worker.{Surroundings, execute, process, in_workspace}

-- The root after a job: as before, or with the job's directory where that cannot be deleted.
abbrev pub RootAfter : Surroundings → Job → Root → Root → Type 0
RootAfter s job root after =
    (after ≡ root) ⊎ ((x : Str) × (s.remove_fault ≡ some x) × (after ≡ made job.id s.nanos ∷ root))

in_workspace-RootAfter :
    (run_chain : RunError → Str) (s : Surroundings) (job : Job) (root : Root) (fault : Option Str)
    (r : Result WorkspaceError Str × Root)
    → s.remove_fault ≡ fault
    → ((e : WorkspaceError) → r.0 ≡ err e → r.1 ≡ root)
    → ((name : Str) → r.0 ≡ ok name → (remove none s.root_path name r.1).1 ≡ root)
    → ((name : Str) → r.0 ≡ ok name → r.1 ≡ made job.id s.nanos ∷ root)
    → RootAfter s job root (in_workspace run_chain s job r).1
unfolding in_workspace
in_workspace-RootAfter run_chain s job root fault (err e, after) same h k l = inl (h e refl)
in_workspace-RootAfter run_chain s job root none (ok name, after) same h k l =
    inl (ap (λ f. (remove f s.root_path name after).1) same ∙ k name refl)
in_workspace-RootAfter run_chain s job root (some x) (ok name, after) same h k l =
    inr (
      x,
      same,
      ap (λ f. (remove f s.root_path name after).1) same ∙ still x name after (l name refl),
    )
  where
    still :
        (x name : Str) (after : Root)
        → after ≡ made job.id s.nanos ∷ root
        → (remove (some x) s.root_path name after).1 ≡ made job.id s.nanos ∷ root
    still x name after e = unfold remove in e

execute-RootAfter :
    (run_chain : RunError → Str) (s : Surroundings) (job : Job) (root : Root)
    → RootAfter s job root (execute run_chain s job root).1
unfolding execute
execute-RootAfter run_chain s job root =
    let undone = create_undone s.create_fault s.root_path job.id s.nanos root in
    in_workspace-RootAfter run_chain s job root s.remove_fault
      (create s.create_fault s.root_path job.id s.nanos root) refl undone.0 undone.1
      (create-made s.create_fault s.root_path job.id s.nanos root)

-- Whatever happens to a job (no workspace, a run that succeeds, fails or cannot start, or a shutdown),
-- and whatever other clients and failing statements do to `finish`, `process` leaves the tables either
-- as the first statement of `finish` met them or with the outcome that it returns and no row pending
-- under the job's id; and it leaves the root as it was, or with the job's directory where that was
-- made and cannot be deleted. Where nothing interferes with `finish`, the tables are tidy, exactly one
-- row is pending under the id and the next id is an `i64`, the outcome is recorded.
pub process_settles :
    (run_chain : RunError → Str) (s : Surroundings) (job : Job) (root : Root) (d : Db)
    → IsTidy d
    → d.next_id ≤ max_i64
    → count (pending_row job.id.get) d.messages ≡ 1
    → ((w : World)
        → (let (outcome, root', w') = process run_chain s job root w in
            Recorded job.id outcome (at_first w) w'.db × RootAfter s job root root'))
      × (let (outcome, root', w') = process run_chain s job root (quiet d) in
          (w' ≡ quiet (outcome_tables job.id.get outcome d))
          × (count (pending_row job.id.get) w'.db.messages ≡ 0))
unfolding process
process_settles run_chain s job root d h fits one =
    let outcome = (execute run_chain s job root).0 in
    let recorded : (finish job.id outcome (quiet d)).1
        ≡ quiet (outcome_tables job.id.get outcome d) =
      ap (λ r. r.1) (finish_pending job.id outcome d h fits one) in
    (
      λ w. (finish-Recorded job.id outcome w, execute-RootAfter run_chain s job root),
      (
        recorded,
        ap (λ (w : World). count (pending_row job.id.get) w.db.messages) recorded
            ∙ outcome_tables-not_pending job.id.get outcome d,
      ),
    )
