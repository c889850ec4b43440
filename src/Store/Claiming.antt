-- ===== src/Store/Claiming.antt =====
-- `claim_next` when nothing interferes: it hands out the oldest unclaimed job, and only that.
use claude_job_runner.Prelude.{
  ℕ, suc, ◌≤◌, ◌≡◌, refl, ◌∙◌, ap, Bool, true, false, ◌&&◌, none, some, List, [], ◌∷◌, arith, All,
  ℤ, ◌≤ℤ◌, Bool-cases, inl, inr, ◌==◌, eq_ℤ_refl, find, ltb_ℤ, ◌⊎◌, ok, eq_ℤ_sound,
}
use claude_job_runner.Job.{to_db, from_db, pending, Job, JobStatus}
use claude_job_runner.Job.Status.{from_db-to_db}
use claude_job_runner.Db.{
  Db, Message, Chat, count, update, has_id, unclaimed, is_job, mark_pending, oldest,
}
use claude_job_runner.Db.Rows.{count-update, count_mono, count_tight}
use claude_job_runner.Db.Evolves.{IsTidy}
use claude_job_runner.Store.{
  claim_update, claim_next, claim_rounds, try_claim, get, oldest_unclaimed_id, select_job, joined,
  try_from, job_of, with_status, transposed, id_of, and_then,
}
use claude_job_runner.Store.Exec.{quiet, run, ◌>>=◌}

-- No unclaimed job has a smaller id.
abbrev pub IsOldest : ℤ → List Message → Type 0
IsOldest id xs =
    (1 ≤ count (λ m. has_id id m && unclaimed m) xs) × All (λ m. unclaimed m ≡ true → id ≤ℤ m.id) xs

All-weaken :
    (a b : ℤ) (xs : List Message)
    → a ≤ℤ b
    → All (λ m. unclaimed m ≡ true → b ≤ℤ m.id) xs
    → All (λ m. unclaimed m ≡ true → a ≤ℤ m.id) xs
All-weaken a b [] h t = tt
All-weaken a b (x ∷ xs) h (tx, t) = (λ u. omega (arith, tx u), All-weaken a b xs h t)

none_unclaimed :
    (id : ℤ) (xs : List Message)
    → All (λ m. unclaimed m ≡ false) xs
    → All (λ m. unclaimed m ≡ true → id ≤ℤ m.id) xs
none_unclaimed id [] h = tt
none_unclaimed id (x ∷ xs) (hx, h) = (λ u. cc, none_unclaimed id xs h)

-- What ORDER BY id LIMIT 1 selects.
pub oldest_lem :
    (xs : List Message)
    → ((oldest xs ≡ none) × All (λ m. unclaimed m ≡ false) xs)
      ⊎ ((id : ℤ) × (oldest xs ≡ some id) × IsOldest id xs)
unfolding oldest count
oldest_lem [] = inl (refl, tt)
oldest_lem (x ∷ xs) = elim (Bool-cases (unclaimed x)) [
  | inr e ↦ elim (oldest_lem xs) [
    | inl (o, h) ↦ inl (rw e o, (e, h))
    | inr (id, o, (one, le)) ↦ inr (id, rw e o, (ground (arith, one), (λ u. cc, le)))
  ]
  | inl e ↦ elim (oldest_lem xs) [
    | inl (o, h) ↦ inr (
      x.id,
      rw (e, o),
      (ground (arith, eq_ℤ_refl x.id), (λ _. omega arith, none_unclaimed x.id xs h)),
    )
    | inr (id, o, (one, le)) ↦ elim (Bool-cases (ltb_ℤ id x.id)) [
      | inl lt ↦ inr (id, rw (e, o, lt), (ground (arith, one), (λ _. ground arith, le)))
      | inr ge ↦ inr (
        x.id,
        rw (e, o, ge),
        (
          ground (arith, eq_ℤ_refl x.id),
          (λ _. omega arith, All-weaken x.id id xs (ground arith) le),
        ),
      )
    ]
  ]
]

-- After the UPDATE the row is pending.
claim-pending :
    (id : ℤ) (xs : List Message)
    → All (λ m. has_id id m ≡ true → has_id id m && unclaimed m ≡ true) xs
    → All
        (λ m. has_id id m ≡ true → m.status ≡ to_db pending)
        (update (λ m. has_id id m && unclaimed m) mark_pending xs)
unfolding update mark_pending
claim-pending id [] h = tt
claim-pending id (x ∷ xs) (hx, h) = elim (Bool-cases (has_id id x && unclaimed x)) [
  | inl e ↦ rw e (λ _. refl, claim-pending id xs h)
  | inr e ↦ rw e (λ same. absurd (ground (arith, hx same)), claim-pending id xs h)
]

-- What a SELECT for a job's row finds, where there is one.
pub find_job :
    (P : Message → Type 0) (id : ℤ) (xs : List Message)
    → 1 ≤ count (λ m. has_id id m && is_job m) xs
    → All P xs
    → (m : Message) × (find (λ m. has_id id m && is_job m) xs ≡ some m) × (has_id id m ≡ true) × P m
unfolding count
find_job P id [] one h = absurd (omega arith)
find_job P id (x ∷ xs) one (px, h) = elim (Bool-cases (has_id id x && is_job x)) [
  | inl e ↦ (x, rw e, ground arith, px)
  | inr e ↦
      let (m, found, same, pm) = find_job P id xs (ground arith) h in (m, rw e found, same, pm)
]

module _ (id : ℤ) (d : Db) where
  pub get_quiet : get (id_of id) (quiet d) ≡ (transposed (select_job id d), quiet d)
  unfolding get ◌>>=◌ run
  get_quiet = refl

  try_claim-quiet :
      try_claim (id_of id) (quiet d)
      ≡ (ok ((claim_update id d).0 == 1), quiet (claim_update id d).1)
  unfolding try_claim ◌>>=◌ run
  try_claim-quiet = refl

oldest-quiet :
    (d : Db)
    → oldest_unclaimed_id (quiet d)
      ≡ (ok (and_then (oldest d.messages) (λ n. some (id_of n))), quiet d)
unfolding oldest_unclaimed_id run
oldest-quiet d = refl

claim_rounds_won :
    (rounds : ℕ) (id : ℤ) (d : Db)
    → oldest d.messages ≡ some id
    → (claim_update id d).0 ≡ 1
    → claim_rounds (suc rounds) (quiet d)
      ≡ (transposed (select_job id (claim_update id d).1), quiet (claim_update id d).1)
unfolding claim_rounds ◌>>=◌
claim_rounds_won rounds id d o one =
    rw (oldest-quiet d)
      (rw o (rw (try_claim-quiet id d) (rw one (get_quiet id (claim_update id d).1))))

claim_rounds_empty :
    (rounds : ℕ) (d : Db)
    → oldest d.messages ≡ none
    → claim_rounds (suc rounds) (quiet d) ≡ (ok none, quiet d)
unfolding claim_rounds ◌>>=◌
claim_rounds_empty rounds d o = rw (oldest-quiet d) (rw o refl)

try_from_status :
    (cs : List Chat) (m : Message) (s : JobStatus)
    → m.status ≡ to_db s
    → try_from (joined cs m) ≡ ok (job_of (joined cs m) s)
unfolding try_from joined
try_from_status cs m s e = ap (with_status _) (ap from_db e ∙ from_db-to_db s)

-- A row with a stored status is read back as a job with that status.
pub read_status :
    (cs : List Chat) (m : Message) (s : JobStatus)
    → m.status ≡ to_db s
    → transposed (some (joined cs m)) ≡ ok (some (job_of (joined cs m) s))
read_status cs m s e = rw (try_from_status cs m s e, transposed)

-- Where the UPDATE counts one row, the row of its id is pending afterwards.
select_claimed :
    (id : ℤ) (d : Db)
    → IsTidy d
    → (claim_update id d).0 ≡ 1
    → (m : Message) × (select_job id (claim_update id d).1 ≡ some (joined d.chats m))
      × (m.id ≡ id)
      × (m.status ≡ to_db pending)
unfolding claim_update select_job
select_claimed id d h one =
    let test : Message → Bool = λ m. has_id id m && unclaimed m in
    let tight =
      count_tight test (has_id id) (λ m e. ground arith) d.messages (omega (arith, h.unique id)) in
    let kept =
      count-update (λ m. has_id id m && is_job m) test mark_pending
        (λ m. unfold mark_pending is_job in refl) d.messages in
    let wide = count_mono test (λ m. has_id id m && is_job m) (unclaimed_job id) d.messages in
    let (m, found, same, pm) =
      find_job (λ m. has_id id m ≡ true → m.status ≡ to_db pending) id
        (update test mark_pending d.messages) (omega arith) (claim-pending id d.messages tight) in
    (m, rw found, eq_ℤ_sound m.id id same, pm same)
  where
    unclaimed_job :
        (id : ℤ) (m : Message) → has_id id m && unclaimed m ≡ true → has_id id m && is_job m ≡ true
    unclaimed_job id m e = unfold unclaimed in ground arith

-- The oldest unclaimed job is won, and read back.
claimed_job :
    (id : ℤ) (d : Db)
    → IsTidy d
    → IsOldest id d.messages
    → ((claim_update id d).0 ≡ 1)
      × ((job : Job) × (transposed (select_job id (claim_update id d).1) ≡ ok (some job))
          × (job.id.get ≡ id)
          × (job.status ≡ pending))
claimed_job id d h (one, _) =
    let won : (claim_update id d).0 ≡ 1 = won_lem in
    let (m, found, same, st) = select_claimed id d h won in
    (
      won,
      (
        job_of (joined d.chats m) pending,
        rw found (read_status d.chats m pending st),
        unfold job_of joined in same,
        unfold job_of in refl,
      ),
    )
  where
    won_lem : (claim_update id d).0 ≡ 1
    won_lem =
        unfold claim_update in
        omega (
          arith,
          h.unique id,
          count_mono (λ m. has_id id m && unclaimed m) (has_id id) (λ m e. ground arith) d.messages,
        )

-- With tidy tables and nothing that interferes, `claim_next` either finds that there is no unclaimed
-- job, and changes nothing, or returns, as pending, the unclaimed job with the smallest id, and the
-- tables are those in which that row alone has become pending.
pub claim_next-quiet :
    (d : Db)
    → IsTidy d
    → (All (λ m. unclaimed m ≡ false) d.messages × (claim_next (quiet d) ≡ (ok none, quiet d)))
      ⊎ ((id : ℤ) × (job : Job) × IsOldest id d.messages
          × (claim_next (quiet d) ≡ (ok (some job), quiet (claim_update id d).1))
          × (job.id.get ≡ id)
          × (job.status ≡ pending))
unfolding claim_next
claim_next-quiet d h = elim (oldest_lem d.messages) [
  | inl (o, free) ↦ inl (free, claim_rounds_empty 4 d o)
  | inr (id, o, old) ↦
      let (won, (job, read, same, st)) = claimed_job id d h old in
      inr (id, job, old, claim_rounds_won 4 id d o won ∙ rw read, same, st)
]
