-- ===== src/Worker/Pool.antt =====
-- src/worker.rs, `run`: the polling loop, its slots and its jobs in flight, as a state machine whose
-- steps are the events that the loop and its tasks meet.
use claude_job_runner.Prelude.{
  ℕ, zero, suc, Bool, true, false, Option, none, some, List, [], ◌∷◌, ℤ, eq_ℤ, if◌then◌else◌,
}

-- Where the loop stands: before a slot, with a slot around `claim_next`, in the sleep between two
-- polls, after the loop, and returned.
pub data Phase : Type 0 where
  acquiring : Phase
  claiming : Phase
  sleeping : Phase
  draining : Phase
  stopped : Phase

-- `slots`, the ids of the tasks of `in_flight` that still run, the number of its tasks that have
-- ended and were not joined, and the token.
pub record Pool : Type 0 where
  pub phase : Phase
  pub free : ℕ
  pub running : List ℤ
  pub ended : ℕ
  pub cancelled : Bool

unfoldable pub start : ℕ → Pool
start max_concurrent_jobs = record {
  phase = acquiring;
  free = max_concurrent_jobs;
  running = [];
  ended = 0;
  cancelled = false;
}

-- `reap_finished`
unfoldable pub reap : Pool → Pool
reap p = record {
  phase = p.phase;
  free = p.free;
  running = p.running;
  ended = 0;
  cancelled = p.cancelled;
}

unfoldable pub goto : Phase → Pool → Pool
goto phase p = record {
  phase = phase;
  free = p.free;
  running = p.running;
  ended = p.ended;
  cancelled = p.cancelled;
}

-- A permit that is dropped, and one that is taken.
unfoldable pub release : Pool → Pool
release p = record {
  phase = p.phase;
  free = suc p.free;
  running = p.running;
  ended = p.ended;
  cancelled = p.cancelled;
}

unfoldable pub acquire_at : ℕ → Pool → Option Pool
acquire_at zero p = none
acquire_at (suc n) p = some (record {
  phase = claiming;
  free = n;
  running = p.running;
  ended = p.ended;
  cancelled = p.cancelled;
})

unfoldable pub acquire : Pool → Option Pool
unfolding acquire_at
acquire p = acquire_at p.free p

unfoldable pub keep : ℤ → Option (List ℤ) → Option (List ℤ)
keep x none = none
keep x (some ys) = some (x ∷ ys)

-- A task of `in_flight` that runs no more; none where there is no such task.
unfoldable pub leave : ℤ → List ℤ → Option (List ℤ)
unfolding keep
leave id [] = none
leave id (x ∷ xs) = let rest = leave id xs in if eq_ℤ id x then some xs else keep x rest

unfoldable pub end_with : Option (List ℤ) → Pool → Option Pool
end_with none p = none
end_with (some rest) p = some (record {
  phase = p.phase;
  free = suc p.free;
  running = rest;
  ended = suc p.ended;
  cancelled = p.cancelled;
})

unfoldable pub end_task : ℤ → Pool → Option Pool
unfolding leave end_with
end_task id p = end_with (leave id p.running) p

unfoldable pub spawn : ℤ → Pool → Pool
spawn id p = record {
  phase = acquiring;
  free = p.free;
  running = id ∷ p.running;
  ended = p.ended;
  cancelled = p.cancelled;
}

-- `while let Some(finished) = in_flight.join_next().await`: a task that has ended is joined, and the
-- loop is over when there is no task at all.
unfoldable pub join_at : ℕ → List ℤ → Pool → Option Pool
unfolding goto
join_at zero [] p = some (goto stopped p)
join_at zero (x ∷ xs) p = none
join_at (suc n) xs p = some (record {
  phase = p.phase;
  free = p.free;
  running = p.running;
  ended = n;
  cancelled = p.cancelled;
})

unfoldable pub join_next : Pool → Option Pool
unfolding join_at
join_next p = join_at p.ended p.running p

pub data Event : Type 0 where
  slot_acquired : Event
  job_claimed : ℤ → Event
  nothing_claimed : Event
  slept : Event
  token_cancelled : Event
  shutdown_seen : Event
  task_ended : ℤ → Event
  task_joined : Event

unfoldable pub see_at : Bool → Pool → Option Pool
unfolding goto
see_at true p = some (goto draining p)
see_at false p = none

unfoldable pub see_shutdown : Pool → Option Pool
unfolding see_at
see_shutdown p = see_at p.cancelled p

unfoldable pub cancel_at : Bool → Pool → Option Pool
cancel_at true p = none
cancel_at false p = some (record {
  phase = p.phase;
  free = p.free;
  running = p.running;
  ended = p.ended;
  cancelled = true;
})

unfoldable pub cancel : Pool → Option Pool
unfolding cancel_at
cancel p = cancel_at p.cancelled p

-- What an event of the loop does in each of its phases; none where it cannot happen.
unfoldable pub step_loop : Event → Phase → Pool → Option Pool
unfolding reap goto release acquire spawn see_shutdown join_next
step_loop slot_acquired acquiring p = acquire p
step_loop shutdown_seen acquiring p = see_shutdown p
step_loop (job_claimed id) claiming p = some (reap (spawn id p))
step_loop nothing_claimed claiming p = some (goto sleeping (release p))
step_loop slept sleeping p = some (reap (goto acquiring p))
step_loop shutdown_seen sleeping p = see_shutdown p
step_loop task_joined draining p = join_next p
step_loop _ _ p = none

-- A task and the token do not wait for the loop.
unfoldable pub step : Event → Pool → Option Pool
unfolding step_loop end_task cancel
step (task_ended id) p = end_task id p
step token_cancelled p = cancel p
step slot_acquired p = step_loop slot_acquired p.phase p
step (job_claimed id) p = step_loop (job_claimed id) p.phase p
step nothing_claimed p = step_loop nothing_claimed p.phase p
step slept p = step_loop slept p.phase p
step shutdown_seen p = step_loop shutdown_seen p.phase p
step task_joined p = step_loop task_joined p.phase p

-- A run of the machine; none where an event of it cannot happen.
unfoldable pub after : List Event → Option Pool → Option Pool
unfolding step
after es none = none
after [] (some p) = some p
after (e ∷ es) (some p) = after es (step e p)
