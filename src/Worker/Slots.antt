-- ===== src/Worker/Slots.antt =====
-- The slots of the polling loop: none is lost and none is made, so the jobs in flight keep to their
-- bound, and the loop returns once its jobs have ended.
use claude_job_runner.Prelude.{
  ℕ, zero, suc, ◌+◌, ◌≡◌, refl, sym, ap, Bool, true, false, Option, none, some, List, [], ◌∷◌,
  arith, ℤ, eq_ℤ, length, subst, Bool-cases, inl, inr,
}
use claude_job_runner.Worker.Pool.{
  Phase, acquiring, claiming, sleeping, draining, stopped, Pool, start, reap, goto, release,
  acquire, acquire_at, keep, leave, end_with, join_at, end_task, spawn, join_next, Event,
  slot_acquired, job_claimed, nothing_claimed, slept, token_cancelled, shutdown_seen, task_ended,
  task_joined, see_shutdown, see_at, cancel, cancel_at, step_loop, step, after,
}

-- What holds of the result, if there is one.
abbrev pub Holds : (Pool → Type 0) → Option Pool → Type 0
Holds P none = Unit
Holds P (some q) = P q

-- The slot that the loop itself holds, around `claim_next`.
abbrev pub held : Phase → ℕ
held acquiring = 0
held claiming = 1
held sleeping = 0
held draining = 0
held stopped = 0

abbrev pub AtRest : Phase → ℕ → ℕ → Type 0
AtRest acquiring r e = Unit
AtRest claiming r e = Unit
AtRest sleeping r e = Unit
AtRest draining r e = Unit
AtRest stopped r e = (r ≡ 0) × (e ≡ 0)

-- Every slot is free, held by the loop or by a running job; after the loop has returned nothing runs.
pub record IsPool (max_jobs : ℕ) (p : Pool) : Type 0 where
  pub slots : held p.phase + (p.free + length p.running) ≡ max_jobs
  pub rest : AtRest p.phase (length p.running) p.ended

abbrev pub OneLess : List ℤ → Option (List ℤ) → Type 0
OneLess xs none = Unit
OneLess xs (some ys) = length xs ≡ suc (length ys)

keep-OneLess :
    (x : ℤ) (xs : List ℤ) (o : Option (List ℤ)) → OneLess xs o → OneLess (x ∷ xs) (keep x o)
unfolding keep
keep-OneLess x xs none h = tt
keep-OneLess x xs (some ys) h = omega (arith, h)

pub leave-OneLess : (id : ℤ) (xs : List ℤ) → OneLess xs (leave id xs)
unfolding leave
leave-OneLess id [] = tt
leave-OneLess id (x ∷ xs) =
    let ih : OneLess (x ∷ xs) (keep x (leave id xs)) =
      keep-OneLess x xs (leave id xs) (leave-OneLess id xs) in
    elim (Bool-cases (eq_ℤ id x)) [ inl e ↦ rw e refl | inr e ↦ rw e ih ]

held-at :
    (max_jobs : ℕ) (ph : Phase) (p : Pool)
    → p.phase ≡ ph
    → IsPool max_jobs p
    → held ph + (p.free + length p.running) ≡ max_jobs
held-at max_jobs ph p at h =
    subst (λ ph. held ph + (p.free + length p.running) ≡ max_jobs) at h.slots

acquire-IsPool :
    (max_jobs n : ℕ) (p : Pool)
    → p.free ≡ n
    → p.free + length p.running ≡ max_jobs
    → Holds (IsPool max_jobs) (acquire_at n p)
unfolding acquire_at
acquire-IsPool max_jobs zero p e h = tt
acquire-IsPool max_jobs (suc n) p e h = record { slots = omega (arith, e, h); rest = tt }

see_at-IsPool :
    (max_jobs : ℕ) (b : Bool) (p : Pool)
    → p.free + length p.running ≡ max_jobs
    → Holds (IsPool max_jobs) (see_at b p)
unfolding see_at goto
see_at-IsPool max_jobs true p h = record { slots = omega (arith, h); rest = tt }
see_at-IsPool max_jobs false p h = tt

cancel-IsPool :
    (max_jobs : ℕ) (b : Bool) (p : Pool)
    → IsPool max_jobs p
    → Holds (IsPool max_jobs) (cancel_at b p)
unfolding cancel_at
cancel-IsPool max_jobs true p h = tt
cancel-IsPool max_jobs false p h = record { slots = h.slots; rest = h.rest }

join-IsPool :
    (max_jobs n : ℕ) (xs : List ℤ) (p : Pool)
    → p.ended ≡ n
    → p.running ≡ xs
    → p.phase ≡ draining
    → p.free + length p.running ≡ max_jobs
    → Holds (IsPool max_jobs) (join_at n xs p)
unfolding join_at goto
join-IsPool max_jobs zero [] p e r at h = record {
  slots = omega (arith, h);
  rest = (ap length r, e);
}
join-IsPool max_jobs zero (x ∷ xs) p e r at h = tt
join-IsPool max_jobs (suc n) xs p e r at h = record {
  slots =
      subst (λ ph. held ph + (p.free + length p.running) ≡ max_jobs) (sym at) (omega (arith, h));
  rest = subst (λ ph. AtRest ph (length p.running) n) (sym at) tt;
}

-- No task ends where none runs.
at_rest-OneLess :
    (ph : Phase) (xs ys : List ℤ) (n m : ℕ)
    → length xs ≡ suc (length ys)
    → AtRest ph (length xs) n
    → AtRest ph (length ys) m
at_rest-OneLess acquiring xs ys n m one h = tt
at_rest-OneLess claiming xs ys n m one h = tt
at_rest-OneLess sleeping xs ys n m one h = tt
at_rest-OneLess draining xs ys n m one h = tt
at_rest-OneLess stopped xs ys n m one h = absurd (omega (arith, one, h.0))

end_with-IsPool :
    (max_jobs : ℕ) (o : Option (List ℤ)) (p : Pool)
    → OneLess p.running o
    → IsPool max_jobs p
    → Holds (IsPool max_jobs) (end_with o p)
unfolding end_with
end_with-IsPool max_jobs none p one h = tt
end_with-IsPool max_jobs (some ys) p one h = record {
  slots = omega (arith, one, h.slots);
  rest = at_rest-OneLess p.phase p.running ys p.ended (suc p.ended) one h.rest;
}

step_loop-IsPool :
    (max_jobs : ℕ) (e : Event) (ph : Phase) (p : Pool)
    → p.phase ≡ ph
    → IsPool max_jobs p
    → Holds (IsPool max_jobs) (step_loop e ph p)
unfolding step_loop see_shutdown acquire join_next reap spawn goto release
step_loop-IsPool max_jobs slot_acquired acquiring p at h =
    acquire-IsPool max_jobs p.free p refl (omega (arith, held-at max_jobs acquiring p at h))
step_loop-IsPool max_jobs shutdown_seen acquiring p at h =
    see_at-IsPool max_jobs p.cancelled p (omega (arith, held-at max_jobs acquiring p at h))
step_loop-IsPool max_jobs (job_claimed id) claiming p at h = record {
  slots = omega (arith, held-at max_jobs claiming p at h);
  rest = tt;
}
step_loop-IsPool max_jobs nothing_claimed claiming p at h = record {
  slots = omega (arith, held-at max_jobs claiming p at h);
  rest = tt;
}
step_loop-IsPool max_jobs slept sleeping p at h = record {
  slots = held-at max_jobs sleeping p at h;
  rest = tt;
}
step_loop-IsPool max_jobs shutdown_seen sleeping p at h =
    see_at-IsPool max_jobs p.cancelled p (omega (arith, held-at max_jobs sleeping p at h))
step_loop-IsPool max_jobs task_joined draining p at h =
    join-IsPool max_jobs p.ended p.running p refl refl at
      (omega (arith, held-at max_jobs draining p at h))
step_loop-IsPool max_jobs _ _ p at h = tt

step-IsPool :
    (max_jobs : ℕ) (e : Event) (p : Pool) → IsPool max_jobs p → Holds (IsPool max_jobs) (step e p)
unfolding step end_task cancel
step-IsPool max_jobs (task_ended id) p h =
    end_with-IsPool max_jobs (leave id p.running) p (leave-OneLess id p.running) h
step-IsPool max_jobs token_cancelled p h = cancel-IsPool max_jobs p.cancelled p h
step-IsPool max_jobs slot_acquired p h = step_loop-IsPool max_jobs slot_acquired p.phase p refl h
step-IsPool max_jobs (job_claimed id) p h =
    step_loop-IsPool max_jobs (job_claimed id) p.phase p refl h
step-IsPool max_jobs nothing_claimed p h =
    step_loop-IsPool max_jobs nothing_claimed p.phase p refl h
step-IsPool max_jobs slept p h = step_loop-IsPool max_jobs slept p.phase p refl h
step-IsPool max_jobs shutdown_seen p h = step_loop-IsPool max_jobs shutdown_seen p.phase p refl h
step-IsPool max_jobs task_joined p h = step_loop-IsPool max_jobs task_joined p.phase p refl h

after-IsPool :
    (max_jobs : ℕ) (es : List Event) (o : Option Pool)
    → Holds (IsPool max_jobs) o
    → Holds (IsPool max_jobs) (after es o)
unfolding after
after-IsPool max_jobs es none h = h
after-IsPool max_jobs [] (some p) h = h
after-IsPool max_jobs (e ∷ es) (some p) h =
    after-IsPool max_jobs es (step e p) (step-IsPool max_jobs e p h)

-- After any run of the loop from its start, the free slots, the slot that the loop holds and the jobs
-- in flight make up `max_concurrent_jobs`, so no more jobs than that are in flight; once the loop has
-- returned, no job runs and none is left to join.
pub slots_kept :
    (max_jobs : ℕ) (es : List Event) → Holds (IsPool max_jobs) (after es (some (start max_jobs)))
unfolding start
slots_kept max_jobs es =
    after-IsPool max_jobs es (some (start max_jobs)) (record { slots = omega arith; rest = tt })
