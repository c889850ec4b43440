-- ===== src/Db/Tidy.antt =====
-- The well-formedness of the tables is kept by an INSERT with the next id and by an UPDATE.
use claude_job_runner.Prelude.{
  ℕ, suc, ◌≤◌, ◌≡◌, refl, sym, ◌∙◌, ap, Bool, true, false, none, List, [], ◌∷◌, ◌++◌, arith, All,
  All-append, ℤ, pos, ◌<ℤ◌, Bool-cases, inl, inr, eq_ℤ, eq_ℤ_sound, eq_ℤ_iff,
}
use claude_job_runner.Db.{Db, Message, count, update, is_job, has_id}
use claude_job_runner.Db.Rows.{count-append, count-update, All-update}
use claude_job_runner.Db.Evolves.{
  IsTidy, DbStep, RowStep, is_job-RowStep, Evolves-append, Evolves-refl, Evolves-update,
}

-- The next id is no row's.
pub count-fresh :
    (n : ℕ) (xs : List Message) → All (λ m. m.id <ℤ pos n) xs → count (has_id (pos n)) xs ≡ 0
unfolding count
count-fresh n [] h = refl
count-fresh n (x ∷ xs) (hx, h) = ground (arith, count-fresh n xs h, eq_ℤ_iff x.id (pos n))

fresh_mono :
    (n : ℕ) (xs : List Message) → All (λ m. m.id <ℤ pos n) xs → All (λ m. m.id <ℤ pos (suc n)) xs
fresh_mono n [] h = tt
fresh_mono n (x ∷ xs) (hx, h) = (omega arith, fresh_mono n xs h)

-- An INSERT of a row with the next id.
abbrev pub inserted : Db → Message → Db
inserted d m = record d { messages = d.messages ++ m ∷ []; next_id = suc d.next_id }

unique-inserted :
    (d : Db) (m : Message)
    → IsTidy d
    → m.id ≡ pos d.next_id
    → (i : ℤ) → count (has_id i) (d.messages ++ m ∷ []) ≤ 1
unfolding count
unique-inserted d m h e i = elim (Bool-cases (eq_ℤ m.id i)) [
  | inl same ↦
      let here : i ≡ pos d.next_id = sym (eq_ℤ_sound m.id i same) ∙ e in
      rw (count-append (has_id i) d.messages (m ∷ []))
        (rw here (ground (arith, count-fresh d.next_id d.messages h.fresh)))
  | inr other ↦ ground (arith, count-append (has_id i) d.messages (m ∷ []), h.unique i)
]

pub inserted-DbStep :
    (d : Db) (m : Message)
    → IsTidy d
    → m.id ≡ pos d.next_id
    → m.status ≡ none
    → DbStep d (inserted d m)
inserted-DbStep d m h e s = record {
  tidy = record {
    unique = unique-inserted d m h e;
    fresh =
        All-append _ d.messages (m ∷ []) (fresh_mono d.next_id d.messages h.fresh)
          (rw e (omega arith), tt);
    only_jobs = All-append _ d.messages (m ∷ []) h.only_jobs (λ _. s, tt);
  };
  rows = Evolves-append d.messages d.messages (m ∷ []) (Evolves-refl d.messages);
}

-- The tables after an UPDATE.
abbrev pub updated : (Message → Bool) → (Message → Message) → Db → Db
updated p f d = record d { messages = update p f d.messages }

only_jobs-update :
    (p : Message → Bool) (f : Message → Message) (xs : List Message)
    → All (λ m. is_job m ≡ false → m.status ≡ none) xs
    → All (λ m. p m ≡ true → RowStep m (f m)) xs
    → All (λ m. is_job m ≡ false → m.status ≡ none) (update p f xs)
unfolding update
only_jobs-update p f [] h s = tt
only_jobs-update p f (x ∷ xs) (hx, h) (sx, s) = elim (Bool-cases (p x)) [
  | inl e ↦ rw e (
    λ j.
        let step : RowStep x (f x) = sx e in
        let old : is_job x ≡ false = sym (is_job-RowStep step) ∙ j in
        ap (λ (m : Message). m.status) (step.bystander old) ∙ hx old,
    only_jobs-update p f xs h s,
  )
  | inr e ↦ rw e (hx, only_jobs-update p f xs h s)
]

-- An UPDATE that keeps ids and makes only allowed changes.
pub updated-DbStep :
    (p : Message → Bool) (f : Message → Message) (d : Db)
    → IsTidy d
    → ((m : Message) → (f m).id ≡ m.id)
    → All (λ m. p m ≡ true → RowStep m (f m)) d.messages
    → DbStep d (updated p f d)
updated-DbStep p f d h ids steps = record {
  tidy = record {
    unique = λ i.
        rw (count-update (has_id i) p f (λ m. ap (λ k. eq_ℤ k i) (ids m)) d.messages) (h.unique i);
    fresh = All-update _ p f (λ m lt. rw (ids m) lt) d.messages h.fresh;
    only_jobs = only_jobs-update p f d.messages h.only_jobs steps;
  };
  rows = Evolves-update p f d.messages steps;
}
