-- ===== src/Store/Race.antt =====
-- Many workers at once: their statements in any order. Only the claims matter, and whatever else
-- happens in between keeps to the life cycle.
use claude_job_runner.Prelude.{
  ◌≤◌, ◌≡◌, ◌≢◌, refl, true, ◌&&◌, List, [], ◌∷◌, arith, All, ℤ, Bool-cases, inl, inr,
  if◌then◌else◌, ◌==◌, ==→eq, eq_str,
}
use claude_job_runner.Db.{Db, Message, count, update, has_id, unclaimed, mark_pending}
use claude_job_runner.Db.Rows.{count-update, count_mono, count_tight}
use claude_job_runner.Db.Evolves.{IsTidy, DbStep, Evolves, Taken, Taken-Evolves}
use claude_job_runner.Store.{claim_update}
use claude_job_runner.Store.Steps.{claim_update-DbStep}

-- One statement of some client: the UPDATE of `try_claim`, or any other change.
pub data Turn : Type 0 where
  claim : ℤ → Turn
  other : (Db → Db) → Turn

-- The ids that were handed out, in order: those whose UPDATE counted one row.
pub race : Db → List Turn → List ℤ
unfolding claim_update
race d [] = []
race d (claim id ∷ ts) =
    let won = id ∷ race (claim_update id d).1 ts in
    let lost = race (claim_update id d).1 ts in if (claim_update id d).0 == 1 then won else lost
race d (other f ∷ ts) = race (f d) ts

abbrev pub InCycle : Turn → Type 0
InCycle (claim id) = Unit
InCycle (other f) = (d : Db) → IsTidy d → DbStep d (f d)

abbrev pub Distinct : List ℤ → Type 0
Distinct [] = Unit
Distinct (x ∷ xs) = All (λ y. y ≢ x) xs × Distinct xs

-- The row `id` is there and has been claimed.
abbrev Claimed : ℤ → Db → Type 0
Claimed id d = (1 ≤ count (has_id id) d.messages) × All (Taken id) d.messages

count-Evolves :
    (id : ℤ) (xs ys : List Message) → Evolves xs ys → count (has_id id) xs ≤ count (has_id id) ys
unfolding count
count-Evolves id [] ys e = omega arith
count-Evolves id (x ∷ xs) [] e = absurd e
count-Evolves id (x ∷ xs) (y ∷ ys) (s, e) = ground (arith, count-Evolves id xs ys e, s.same_id)

Claimed-DbStep : (id : ℤ) (d d' : Db) → DbStep d d' → Claimed id d → Claimed id d'
Claimed-DbStep id d d' s (one, taken) = (
  omega (arith, count-Evolves id d.messages d'.messages s.rows),
  Taken-Evolves id d.messages d'.messages s.rows (omega (arith, s.tidy.unique id)) taken,
)

-- A claimed row cannot be claimed again.
not_again :
    (id : ℤ) (xs : List Message)
    → All (Taken id) xs
    → count (λ m. has_id id m && unclaimed m) xs ≡ 0
unfolding count unclaimed
not_again id [] t = refl
not_again id (x ∷ xs) (tx, t) = ground (arith, not_again id xs t)

claim-Taken :
    (id : ℤ) (xs : List Message)
    → All (λ m. has_id id m ≡ true → has_id id m && unclaimed m ≡ true) xs
    → All (Taken id) (update (λ m. has_id id m && unclaimed m) mark_pending xs)
unfolding update mark_pending eq_str
claim-Taken id [] h = tt
claim-Taken id (x ∷ xs) (hx, h) = elim (Bool-cases (has_id id x && unclaimed x)) [
  | inl e ↦ rw e (λ _. omega arith, claim-Taken id xs h)
  | inr e ↦ rw e (λ same. absurd (ground (arith, hx same)), claim-Taken id xs h)
]

claim-Claimed :
    (id : ℤ) (d : Db) → IsTidy d → (claim_update id d).0 ≡ 1 → Claimed id (claim_update id d).1
unfolding claim_update mark_pending
claim-Claimed id d h one =
    let narrow : (m : Message) → has_id id m && unclaimed m ≡ true → has_id id m ≡ true =
      λ m e. ground arith in
    (
      omega (
        arith,
        count-update (has_id id) (λ m. has_id id m && unclaimed m) mark_pending (λ m. refl)
            d.messages,
        count_mono (λ m. has_id id m && unclaimed m) (has_id id) narrow d.messages,
      ),
      claim-Taken id d.messages (
          count_tight (λ m. has_id id m && unclaimed m) (has_id id) narrow d.messages
            (omega (arith, h.unique id))),
    )

-- A claimed row is not handed out.
race_avoids :
    (id : ℤ) (d : Db) (ts : List Turn)
    → IsTidy d
    → All InCycle ts
    → Claimed id d
    → All (λ y. y ≢ id) (race d ts)
unfolding race
race_avoids id d [] h c taken = tt
race_avoids id d (other f ∷ ts) h (step, c) taken =
    race_avoids id (f d) ts (step d h).tidy c (Claimed-DbStep id d (f d) (step d h) taken)
race_avoids id d (claim k ∷ ts) h (_, c) taken =
    let step : DbStep d (claim_update k d).1 = claim_update-DbStep k d h in
    let later : All (λ y. y ≢ id) (race (claim_update k d).1 ts) =
      race_avoids id (claim_update k d).1 ts step.tidy c
        (Claimed-DbStep id d (claim_update k d).1 step taken) in
    elim (Bool-cases ((claim_update k d).0 == 1)) [
      | inl won ↦ rw won (λ e. other_row k id d e taken.1 (==→eq _ _ won), later)
      | inr lost ↦ rw lost later
    ]
  where
    other_row :
        (k id : ℤ) (d : Db) → k ≡ id → All (Taken id) d.messages → (claim_update k d).0 ≡ 1 → ⊥
    other_row k id d e t one =
        unfold claim_update in ground (arith, not_again k d.messages (rw e t), one)

-- However the statements of any number of workers and of other clients are ordered, no id is handed
-- out twice, as long as nobody takes a claimed job back.
pub race-Distinct : (d : Db) (ts : List Turn) → IsTidy d → All InCycle ts → Distinct (race d ts)
unfolding race
race-Distinct d [] h c = tt
race-Distinct d (other f ∷ ts) h (step, c) = race-Distinct (f d) ts (step d h).tidy c
race-Distinct d (claim id ∷ ts) h (_, c) =
    let step : DbStep d (claim_update id d).1 = claim_update-DbStep id d h in
    let later : Distinct (race (claim_update id d).1 ts) =
      race-Distinct (claim_update id d).1 ts step.tidy c in
    elim (Bool-cases ((claim_update id d).0 == 1)) [
      | inl won ↦ rw won (
        race_avoids id (claim_update id d).1 ts step.tidy c (claim-Claimed id d h (==→eq _ _ won)),
        later,
      )
      | inr lost ↦ rw lost later
    ]
