-- ===== src/Worker/Drain.antt =====
-- The end of the polling loop: it returns once the jobs in flight have ended, and starts no other.
use claude_job_runner.Prelude.{
  ℕ, zero, suc, ◌+◌, ◌*◌, ◌≤◌, ◌≡◌, refl, sym, ◌∙◌, ap, Bool, true, false, Option, none, some, List,
  [], ◌∷◌, arith, ℤ, eq_ℤ_refl, length, subst, ◌⊎◌, inl, inr,
}
use claude_job_runner.Worker.Pool.{
  Phase, acquiring, claiming, sleeping, draining, stopped, Pool, goto, leave, end_with, end_task,
  join_at, join_next, Event, slot_acquired, job_claimed, nothing_claimed, slept, token_cancelled,
  shutdown_seen, task_ended, task_joined, cancel, cancel_at, step_loop, step, after,
}
use claude_job_runner.Worker.Slots.{Holds, OneLess, leave-OneLess}

-- The loop has been left.
abbrev pub Closing : Phase → Type 0
Closing acquiring = ⊥
Closing claiming = ⊥
Closing sleeping = ⊥
Closing draining = Unit
Closing stopped = Unit

abbrev waiting : Phase → ℕ
waiting stopped = 0
waiting _ = 1

abbrev uncancelled : Bool → ℕ
uncancelled true = 0
uncancelled false = 1

-- What is left to happen: each job in flight ends and is joined, the loop returns, and the token may
-- still be cancelled.
abbrev pub left_over : Pool → ℕ
left_over p = waiting p.phase + (2 * length p.running + (p.ended + uncancelled p.cancelled))

-- A later state of a loop that was left.
record Nearer (p q : Pool) : Type 0 where
  closing : Closing q.phase
  less : suc (left_over q) ≤ left_over p
  no_more : length q.running ≤ length p.running

cancel-Nearer :
    (b : Bool) (p : Pool) → p.cancelled ≡ b → Closing p.phase → Holds (Nearer p) (cancel_at b p)
unfolding cancel_at
cancel-Nearer true p e c = tt
cancel-Nearer false p e c = record { closing = c; less = rw e (omega arith); no_more = omega arith }

end_with-Nearer :
    (o : Option (List ℤ)) (p : Pool)
    → OneLess p.running o
    → Closing p.phase
    → Holds (Nearer p) (end_with o p)
unfolding end_with
end_with-Nearer none p one c = tt
end_with-Nearer (some ys) p one c = record {
  closing = c;
  less = omega (arith, one);
  no_more = omega (arith, one);
}

join-Nearer :
    (n : ℕ) (xs : List ℤ) (p : Pool)
    → p.ended ≡ n
    → p.phase ≡ draining
    → Holds (Nearer p) (join_at n xs p)
unfolding join_at goto
join-Nearer zero [] p e at = record {
  closing = tt;
  less = rw at (omega arith);
  no_more = omega arith;
}
join-Nearer zero (x ∷ xs) p e at = tt
join-Nearer (suc n) xs p e at = record {
  closing = subst Closing (sym at) tt;
  less = omega (arith, e);
  no_more = omega arith;
}

step_loop-Nearer :
    (e : Event) (ph : Phase) (p : Pool)
    → p.phase ≡ ph
    → Closing ph
    → Holds (Nearer p) (step_loop e ph p)
unfolding step_loop join_next
step_loop-Nearer task_joined draining p at c = join-Nearer p.ended p.running p refl at
step_loop-Nearer task_joined stopped p at c = tt
step_loop-Nearer slot_acquired draining p at c = tt
step_loop-Nearer slot_acquired stopped p at c = tt
step_loop-Nearer shutdown_seen draining p at c = tt
step_loop-Nearer shutdown_seen stopped p at c = tt
step_loop-Nearer (job_claimed id) draining p at c = tt
step_loop-Nearer (job_claimed id) stopped p at c = tt
step_loop-Nearer nothing_claimed draining p at c = tt
step_loop-Nearer nothing_claimed stopped p at c = tt
step_loop-Nearer slept draining p at c = tt
step_loop-Nearer slept stopped p at c = tt
step_loop-Nearer (task_ended id) draining p at c = tt
step_loop-Nearer (task_ended id) stopped p at c = tt
step_loop-Nearer token_cancelled draining p at c = tt
step_loop-Nearer token_cancelled stopped p at c = tt
step_loop-Nearer e acquiring p at c = absurd c
step_loop-Nearer e claiming p at c = absurd c
step_loop-Nearer e sleeping p at c = absurd c

step-Nearer : (e : Event) (p : Pool) → Closing p.phase → Holds (Nearer p) (step e p)
unfolding step end_task cancel
step-Nearer (task_ended id) p c =
    end_with-Nearer (leave id p.running) p (leave-OneLess id p.running) c
step-Nearer token_cancelled p c = cancel-Nearer p.cancelled p refl c
step-Nearer slot_acquired p c = step_loop-Nearer slot_acquired p.phase p refl c
step-Nearer (job_claimed id) p c = step_loop-Nearer (job_claimed id) p.phase p refl c
step-Nearer nothing_claimed p c = step_loop-Nearer nothing_claimed p.phase p refl c
step-Nearer slept p c = step_loop-Nearer slept p.phase p refl c
step-Nearer shutdown_seen p c = step_loop-Nearer shutdown_seen p.phase p refl c
step-Nearer task_joined p c = step_loop-Nearer task_joined p.phase p refl c

-- The task at the front can end, a task that ended can be joined, and without tasks the loop returns.
abbrev pub next_event : ℕ → List ℤ → Event
next_event zero [] = task_joined
next_event zero (x ∷ xs) = task_ended x
next_event (suc n) xs = task_joined

-- What holds of a loop that was left, `n` events later.
pub record Drained (p : Pool) (n : ℕ) (q : Pool) : Type 0 where
  pub closing : Closing q.phase
  pub bounded : n + left_over q ≤ left_over p
  pub no_more : length q.running ≤ length p.running

step-Drained :
    (n : ℕ) (p q : Pool) (o : Option Pool)
    → Drained p n q
    → Holds (Nearer q) o
    → Holds (Drained p (suc n)) o
step-Drained n p q none h k = tt
step-Drained n p q (some r) h k = record {
  closing = k.closing;
  bounded = omega (arith, h.bounded, k.less);
  no_more = omega (arith, h.no_more, k.no_more);
}

after-Drained :
    (es : List Event) (n : ℕ) (p : Pool) (o : Option Pool)
    → Holds (Drained p n) o
    → Holds (Drained p (n + length es)) (after es o)
unfolding after
after-Drained es n p none h = tt
after-Drained [] n p (some q) h = subst (λ m. Drained p m q) (omega arith) h
after-Drained (e ∷ es) n p (some q) h =
    subst (λ m. Holds (Drained p m) (after es (step e q))) (omega arith)
      (after-Drained es (suc n) p (step e q)
        (step-Drained n p q (step e q) h (step-Nearer e q h.closing)))

front_ends : (x : ℤ) (xs : List ℤ) → leave x (x ∷ xs) ≡ some xs
unfolding leave
front_ends x xs = rw (eq_ℤ_refl x)

joins : (p : Pool) → p.phase ≡ draining → step task_joined p ≡ join_at p.ended p.running p
unfolding step step_loop join_next
joins p at = ap (λ ph. step_loop task_joined ph p) at

ends :
    (x : ℤ) (xs : List ℤ) (p : Pool)
    → p.running ≡ x ∷ xs
    → step (task_ended x) p ≡ end_with (some xs) p
unfolding step end_task
ends x xs p r = ap (λ ys. end_with (leave x ys) p) r ∙ ap (λ o. end_with o p) (front_ends x xs)

next_ready :
    (n : ℕ) (xs : List ℤ) (p : Pool)
    → p.phase ≡ draining
    → p.ended ≡ n
    → p.running ≡ xs
    → (q : Pool) × (step (next_event n xs) p ≡ some q)
unfolding join_at end_with
next_ready zero [] p at e r =
    (goto stopped p, joins p at ∙ ap (λ n. join_at n p.running p) e ∙ ap (λ xs. join_at 0 xs p) r)
next_ready zero (x ∷ xs) p at e r = (_, ends x xs p r)
next_ready (suc n) xs p at e r = (_, joins p at ∙ ap (λ n. join_at n p.running p) e)

-- A loop that was left has returned or is ready for its next event.
ready :
    (ph : Phase) (p : Pool)
    → p.phase ≡ ph
    → Closing ph
    → (p.phase ≡ stopped) ⊎ ((q : Pool) × (step (next_event p.ended p.running) p ≡ some q))
ready draining p at c = inr (next_ready p.ended p.running p at refl refl)
ready stopped p at c = inl at
ready acquiring p at c = absurd c
ready claiming p at c = absurd c
ready sleeping p at c = absurd c

drained :
    (p q : Pool) (n : ℕ) (o : Option Pool) → o ≡ some q → Holds (Drained p n) o → Drained p n q
drained p q n o e h = subst (Holds (Drained p n)) e h

waits : (ph : Phase) → waiting ph ≤ 1
waits acquiring = omega arith
waits claiming = omega arith
waits sleeping = omega arith
waits draining = omega arith
waits stopped = omega arith

tokens : (b : Bool) → uncancelled b ≤ 1
tokens true = omega arith
tokens false = omega arith

-- Once the loop has seen the shutdown, no job is started: the jobs in flight never grow in number, at
-- most two events for each of them and one for each task to join are left, with the return of the loop
-- and a cancellation of the token, and until the loop has returned its next event can happen: a
-- task that ended is joined, else a running one ends, else the loop returns.
pub drain_ends :
    (es : List Event) (p q : Pool)
    → p.phase ≡ draining
    → after es (some p) ≡ some q
    → (length es ≤ 2 * length p.running + p.ended + 2)
      × (length q.running ≤ length p.running)
      × ((q.phase ≡ stopped) ⊎ ((r : Pool) × (step (next_event q.ended q.running) q ≡ some r)))
drain_ends es p q at e =
    let fresh : Drained p 0 p = record {
      closing = subst Closing (sym at) tt;
      bounded = omega arith;
      no_more = omega arith;
    } in
    let end =
      drained p q (0 + length es) (after es (some p)) e (after-Drained es 0 p (some p) fresh) in
    (
      omega (arith, end.bounded, waits p.phase, tokens p.cancelled),
      end.no_more,
      ready q.phase q refl end.closing,
    )
