-- ===== src/Jobctl/Sql/Truncate.antt =====
-- What `truncate` leaves of a text.
use claude_job_runner.Prelude.{
  ℕ, zero, suc, ◌+◌, ◌≤◌, ◌<◌, ◌≡◌, refl, ◌∙◌, [], ◌∷◌, ◌++◌, arith, Str, take, length, ltb,
  Bool-cases, ltb→lt, length-append, inl, inr,
}
use claude_job_runner.Jobctl.Sql.{truncate, truncation_note}

take-append : (n : ℕ) (s t : Str) → n ≤ length s → take n (s ++ t) ≡ take n s
take-append zero s t h = refl
take-append (suc n) [] t h = absurd (omega arith)
take-append (suc n) (x ∷ s) t h = rw (take-append n s t (omega arith)) refl

length-take : (n : ℕ) (s : Str) → n ≤ length s → length (take n s) ≡ n
length-take zero s h = refl
length-take (suc n) [] h = absurd (omega arith)
length-take (suc n) (x ∷ s) h = rw (length-take n s (omega arith)) refl

take_all : (n : ℕ) (s : Str) → length s ≤ n → take n s ≡ s
take_all zero [] h = refl
take_all zero (x ∷ s) h = absurd (omega arith)
take_all (suc n) [] h = refl
take_all (suc n) (x ∷ s) h = rw (take_all n s (omega arith)) refl

take-take : (n : ℕ) (s : Str) → take n (take n s) ≡ take n s
take-take zero s = refl
take-take (suc n) [] = refl
take-take (suc n) (x ∷ s) = rw (take-take n s) refl

cut_length :
    (s : Str) (max : ℕ)
    → max < length s
    → length (take max s ++ truncation_note) ≡ max + length truncation_note
cut_length s max h =
    omega (arith, length-append (take max s) truncation_note, length-take max s (omega (arith, h)))

cut_front :
    (s : Str) (max : ℕ) → max < length s → take max (take max s ++ truncation_note) ≡ take max s
cut_front s max h =
    take-append max (take max s) truncation_note
      (omega (arith, length-take max s (omega (arith, h))))
    ∙ take-take max s

-- The first `max` characters of a text stay as they are. A text that is not longer is not changed,
-- and a longer one ends in the note behind them.
pub truncate_exact :
    (s : Str) (max : ℕ)
    → (take max (truncate s max) ≡ take max s)
      × (length s ≤ max → truncate s max ≡ s)
      × (max < length s → length (truncate s max) ≡ max + length truncation_note)
unfolding truncate
truncate_exact s max = elim (Bool-cases (ltb max (length s))) [
  | inl e ↦
      let long : max < length s = ltb→lt max (length s) e in
      rw e
        (cut_front s max long, (λ h. absurd (omega (arith, h, long))), (λ h. cut_length s max long))
  | inr e ↦ rw e (refl, (λ h. refl), (λ h. absurd (ground arith)))
]
