-- ===== src/Store/Queue/Jobs.antt =====
-- src/store.rs: the jobs of the table, and its UPDATEs.
use claude_job_runner.Prelude.{
  ◌≤◌, ◌≡◌, refl, sym, ap, ◌∙◌, Bool, true, false, ◌&&◌, ◌||◌, Option, none, some, List, [], ◌∷◌,
  ◌++◌, All, any, if◌then◌else◌, Str, Bool-cases, inl, inr, arith,
}
use claude_job_runner.Job.{JobStatus, pending, from_db, to_db}
use claude_job_runner.Db.{Message, is_job, update, count, is_null, sql_eq}
use claude_job_runner.Store.Queue.{
  Entry, status_or_none, waits, runs, set_status, jobs, entry, cons_if,
}

pub waits-from_db : (s : Option Str) → waits (status_or_none (from_db s)) ≡ is_null s
unfolding from_db
waits-from_db none = refl
waits-from_db (some t) = ground arith

pub runs-from_db : (s : Option Str) → runs (status_or_none (from_db s)) ≡ sql_eq s (to_db pending)
unfolding from_db to_db
runs-from_db none = refl
runs-from_db (some t) = ground arith

-- An UPDATE of jobs alone that gives them a status, in the queue.
abbrev pub Matches :
    (Message → Bool) → (Message → Message) → (Entry → Bool) → JobStatus → Message → Type 0
Matches p f q s m =
    (p m ≡ (is_job m && q (entry m))) × ((is_job (f m) ≡ is_job m) × (entry (f m) ≡ (m.id, some s)))

set_status-true :
    (q : Entry → Bool) (s : JobStatus) (e : Entry) (es : List Entry)
    → q e ≡ true
    → set_status q s (e ∷ es) ≡ (e.0, some s) ∷ set_status q s es
unfolding set_status
set_status-true q s e es h = ap (λ b. (if b then (e.0, some s) else e) ∷ set_status q s es) h

set_status-false :
    (q : Entry → Bool) (s : JobStatus) (e : Entry) (es : List Entry)
    → q e ≡ false
    → set_status q s (e ∷ es) ≡ e ∷ set_status q s es
unfolding set_status
set_status-false q s e es h = ap (λ b. (if b then (e.0, some s) else e) ∷ set_status q s es) h

and_left : (a b : Bool) → true ≡ (a && b) → a ≡ true
and_left a b h = ground arith

and_right : (a b : Bool) → true ≡ (a && b) → b ≡ true
and_right a b h = ground arith

and_false : (a b : Bool) → a ≡ true → false ≡ (a && b) → b ≡ false
and_false a b h k = ground arith

module _ (f : Message → Message) (q : Entry → Bool) (s : JobStatus) (m : Message)
    (same : is_job (f m) ≡ is_job m) (set : entry (f m) ≡ (m.id, some s)) (es es' : List Entry)
    (tail : es' ≡ set_status q s es) where
  updated :
      (hit : Bool)
      → hit ≡ (is_job m && q (entry m))
      → cons_if (is_job (if hit then f m else m)) (entry (if hit then f m else m)) es'
        ≡ set_status q s (cons_if (is_job m) (entry m) es)
  updated true h =
      let job = and_left (is_job m) (q (entry m)) h in
      ap (λ b. cons_if b (entry (f m)) es') (same ∙ job)
      ∙ ap (λ e. e ∷ es') set
      ∙ ap (λ r. (m.id, some s) ∷ r) tail
      ∙ sym (set_status-true q s (entry m) es (and_right (is_job m) (q (entry m)) h))
      ∙ ap (λ b. set_status q s (cons_if b (entry m) es)) (sym job)
  updated false h = elim (Bool-cases (is_job m)) [
    | inl job ↦
        ap (λ b. cons_if b (entry m) es') job
        ∙ ap (λ r. entry m ∷ r) tail
        ∙ sym (set_status-false q s (entry m) es (and_false (is_job m) (q (entry m)) job h))
        ∙ ap (λ b. set_status q s (cons_if b (entry m) es)) (sym job)
    | inr job ↦
        ap (λ b. cons_if b (entry m) es') job
        ∙ tail
        ∙ ap (λ b. set_status q s (cons_if b (entry m) es)) (sym job)
  ]

pub jobs-update :
    (p : Message → Bool) (f : Message → Message) (q : Entry → Bool) (s : JobStatus)
    (ms : List Message)
    → All (Matches p f q s) ms
    → jobs (update p f ms) ≡ set_status q s (jobs ms)
unfolding jobs update set_status
jobs-update p f q s [] h = refl
jobs-update p f q s (m ∷ ms) ((hp, (hj, he)), h) =
    updated f q s m hj he (jobs ms) (jobs (update p f ms)) (jobs-update p f q s ms h) (p m) hp

-- Rows that are no jobs do not show.
pub jobs-append : (xs ys : List Message) → jobs (xs ++ ys) ≡ jobs xs ++ jobs ys
unfolding jobs
jobs-append [] ys = refl
jobs-append (m ∷ ms) ys = elim (Bool-cases (is_job m)) [
  | inl e ↦
      ap (λ b. cons_if b (entry m) (jobs (ms ++ ys))) e
      ∙ ap (λ r. entry m ∷ r) (jobs-append ms ys)
      ∙ ap (λ b. cons_if b (entry m) (jobs ms) ++ jobs ys) (sym e)
  | inr e ↦
      ap (λ b. cons_if b (entry m) (jobs (ms ++ ys))) e
      ∙ jobs-append ms ys
      ∙ ap (λ b. cons_if b (entry m) (jobs ms) ++ jobs ys) (sym e)
]

pub jobs-none : (ms : List Message) → All (λ m. is_job m ≡ false) ms → jobs ms ≡ []
unfolding jobs
jobs-none [] h = refl
jobs-none (m ∷ ms) (hm, h) = ap (λ b. cons_if b (entry m) (jobs ms)) hm ∙ jobs-none ms h

-- A test of rows and one of entries that agree find a job at the same time.
pub any-jobs :
    (p : Message → Bool) (q : Entry → Bool) (ms : List Message)
    → All (λ m. p m ≡ (is_job m && q (entry m))) ms
    → any q (jobs ms) ≡ any p ms
unfolding jobs
any-jobs p q [] h = refl
any-jobs p q (m ∷ ms) (hm, h) = elim (Bool-cases (is_job m)) [
  | inl e ↦
      ap (λ b. any q (cons_if b (entry m) (jobs ms))) e
      ∙ ap (λ r. q (entry m) || r) (any-jobs p q ms h)
      ∙ ap (λ b. (b && q (entry m)) || any p ms) (sym e)
      ∙ ap (λ b. b || any p ms) (sym hm)
  | inr e ↦
      ap (λ b. any q (cons_if b (entry m) (jobs ms))) e
      ∙ any-jobs p q ms h
      ∙ ap (λ b. (b && q (entry m)) || any p ms) (sym e)
      ∙ ap (λ b. b || any p ms) (sym hm)
]

pub any-count : (p : Message → Bool) (ms : List Message) → 1 ≤ count p ms → any p ms ≡ true
unfolding count
any-count p [] h = absurd (omega (arith, h))
any-count p (m ∷ ms) h = elim (Bool-cases (p m)) [
  | inl e ↦ ap (λ b. b || any p ms) e
  | inr e ↦ ap (λ b. b || any p ms) e ∙ any-count p ms (ground (arith, h, e))
]

pub any-none : (p : Message → Bool) (ms : List Message) → count p ms ≡ 0 → any p ms ≡ false
unfolding count
any-none p [] h = refl
any-none p (m ∷ ms) h = elim (Bool-cases (p m)) [
  | inl e ↦ absurd (ground (arith, h, e))
  | inr e ↦ ap (λ b. b || any p ms) e ∙ any-none p ms (ground (arith, h, e))
]

-- What holds of the entries of the jobs.
pub All-jobs {ℓ} :
    (P : Entry → Type ℓ) (ms : List Message)
    → All (λ m. is_job m ≡ true → P (entry m)) ms
    → All P (jobs ms)
unfolding jobs
All-jobs P [] h = tt
All-jobs P (m ∷ ms) (hm, h) = elim (Bool-cases (is_job m)) [
  | inl e ↦ rw e (hm e, All-jobs P ms h)
  | inr e ↦ rw e (All-jobs P ms h)
]
