-- ===== src/Examples/Loop.antt =====
-- The theorems on the worker and its workspaces, at concrete runs.
use claude_job_runner.Prelude.{
  suc, ◌++◌, ◌+◌, ◌*◌, ◌≤◌, ◌≡◌, refl, ◌⊎◌, true, false, not, none, some, List, [], ◌∷◌, arith,
  filter, length, pos, Str, text, ok, err, eq_ℤ, eq_str, show_ℕ, show_ℤ,
}
use claude_job_runner.Db.{count, pending_row}
use claude_job_runner.Store.Exec.{World, quiet}
use claude_job_runner.Store.Finishing.{at_first, outcome_tables}
use claude_job_runner.Claude.Run.{RunError}
use claude_job_runner.Workspace.{
  Entry, Root, WorkspaceError, io, create, remove, sweep, dir_name, exists,
}
use claude_job_runner.Workspace.Sweep.{is_stale, kept, sweep-create, remove-create}
use claude_job_runner.Worker.{Surroundings, shutdown_first, process}
use claude_job_runner.Store.Recorded.{Recorded}
use claude_job_runner.Worker.Outcome.{RootAfter, process_settles}
use claude_job_runner.Worker.Pool.{
  Pool, draining, stopped, start, Event, slot_acquired, job_claimed, token_cancelled, shutdown_seen,
  task_ended, task_joined, step, after,
}
use claude_job_runner.Worker.Slots.{Holds, IsPool, slots_kept}
use claude_job_runner.Worker.Drain.{next_event, drain_ends}
use claude_job_runner.Examples.{tables, tables-IsTidy, four, four_job}

-- A root with a stale workspace and a file of someone else's.
abbrev stale : Entry
stale = record { file_name = some (text "job-1-5"); is_dir = some true; removable = true }

abbrev foreign : Entry
foreign = record { file_name = some (text "notes"); is_dir = some false; removable = true }

abbrev root : Root
root = stale ∷ foreign ∷ []

free : exists (dir_name four 77) root ≡ false
free = unfold exists dir_name show_ℤ show_ℕ eq_str in refl

sweep-create_example :
    ((create none (text "/w") four 77 root).0 ≡ ok (dir_name four 77))
    × ((sweep none (text "/w") (create none (text "/w") four 77 root).1).1
        ≡ filter (λ e. not (is_stale e)) root)
    × ((sweep none (text "/w") (create none (text "/w") four 77 root).1).0
        ≡ ok (suc (length (filter is_stale root))))
    × ((x : Str) (first later : Root)
        → sweep (some (length first, x)) (text "/w") (first ++ later)
          ≡ (err (io (text "listing workspace root") (text "/w") x), kept first ++ later))
sweep-create_example = sweep-create (text "/w") four 77 root free

remove-create_example :
    ((exists (dir_name four 77) root ≡ false)
      × ((create none (text "/w") four 77 root).0 ≡ ok (dir_name four 77))
      × (remove none (text "/w") (dir_name four 77) (create none (text "/w") four 77 root).1
          ≡ (ok tt, root)))
    ⊎ ((exists (dir_name four 77) root ≡ true)
        × ((create none (text "/w") four 77 root).1 ≡ root)
        × ((e : WorkspaceError) × ((create none (text "/w") four 77 root).0 ≡ err e)))
remove-create_example = remove-create (text "/w") four 77 root

-- A shutdown while the job runs.
abbrev around : Surroundings
around = record {
  root_path = text "/w";
  nanos = 77;
  create_fault = none;
  remove_fault = none;
  race = shutdown_first;
}

abbrev show_error : RunError → Str
show_error e = text "claude failed"

four_pending : count (pending_row (pos 4)) tables.messages ≡ 1
four_pending = unfold count pending_row eq_ℤ eq_str in refl

process_settles_example :
    ((w : World)
      → (let (outcome, root', w') = process show_error around four_job root w in
          Recorded four outcome (at_first w) w'.db × RootAfter around four_job root root'))
    × (let (outcome, root', w') = process show_error around four_job root (quiet tables) in
        (w' ≡ quiet (outcome_tables (pos 4) outcome tables))
        × (count (pending_row (pos 4)) w'.db.messages ≡ 0))
process_settles_example =
    process_settles show_error around four_job root tables tables-IsTidy (omega arith) four_pending

-- Two slots, two jobs, and a shutdown.
abbrev evening : List Event
evening =
    slot_acquired
    ∷ job_claimed (pos 3)
    ∷ slot_acquired
    ∷ job_claimed (pos 4)
    ∷ token_cancelled
    ∷ shutdown_seen
    ∷ []

slots_kept_example : Holds (IsPool 2) (after evening (some (start 2)))
slots_kept_example = slots_kept 2 evening

abbrev leaving : Pool
leaving = record {
  phase = draining;
  free = 0;
  running = pos 4 ∷ pos 3 ∷ [];
  ended = 0;
  cancelled = true;
}

abbrev half_way : Pool
half_way = record { phase = draining; free = 1; running = pos 4 ∷ []; ended = 0; cancelled = true }

drain_ends_example :
    (2 ≤ 2 * 2 + 0 + 2)
    × (1 ≤ 2)
    × ((half_way.phase ≡ stopped)
        ⊎ ((r : Pool) × (step (next_event half_way.ended half_way.running) half_way ≡ some r)))
drain_ends_example =
    drain_ends (task_ended (pos 3) ∷ task_joined ∷ []) leaving half_way refl
      (unfold after eq_ℤ in refl)
