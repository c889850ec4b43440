-- ===== src/Prelude/Decimal.antt =====
-- Integers in decimal: `to_string` and `str::parse`.
use Prim.Native.Nat.{ℕ, zero, suc, ◌+◌, ◌-◌, ◌*◌, ◌/◌, ◌%◌, ◌^◌, ◌≤◌, ◌<◌}
use mathlib.Core.Path.{◌≡◌, ap, ◌∙◌, sym}
use mathlib.Core.Logic.{inl, inr, ◌⊎◌}
use mathlib.Core.Bool.{true}
use mathlib.Core.Option.{Option, none, some}
use mathlib.Core.List.{[], ◌∷◌, ◌++◌, append_assoc, append-nil}
use native.Mathlib.Omega.{arith}
use claude_job_runner.Prelude.Tests.{ltb, leb, ◌==◌, if◌then◌else◌, Bool-cases}
use claude_job_runner.Prelude.Int.{ℤ, pos, negsuc, max_i64, InI64}
use claude_job_runner.Prelude.Text.{Str, is_ascii_digit}

show_fuel : ℕ → ℕ → Str
show_fuel zero n = []
show_fuel (suc f) n =
    let rest = show_fuel f (n / 10) ++ (48 + n % 10) ∷ [] in
    if ltb n 10 then (48 + n) ∷ [] else rest

-- One more round than the number is large is enough.
unfoldable pub show_ℕ : ℕ → Str
unfolding show_fuel
show_ℕ n = show_fuel (suc n) n

unfoldable pub show_ℤ : ℤ → Str
unfolding show_ℕ
show_ℤ (pos n) = show_ℕ n
show_ℤ (negsuc n) = b'-' ∷ show_ℕ (suc n)

unfoldable pub parse_digits : ℕ → Str → Option ℕ
parse_digits acc [] = some acc
parse_digits acc (c ∷ s) =
    let rest = parse_digits (acc * 10 + (c - 48)) s in if is_ascii_digit c then rest else none

-- One or more digits, at most `bound`.
unfoldable pub parse_bounded : ℕ → Str → Option ℕ
unfolding parse_digits
parse_bounded bound [] = none
parse_bounded bound (c ∷ s) = elim (parse_digits 0 (c ∷ s)) [
  | none ↦ none
  | some n ↦ if leb n bound then some n else none
]

abbrev plus : ℕ
plus = b'+'

abbrev minus : ℕ
minus = b'-'

abbrev pub max_u64 : ℕ
max_u64 = 2 ^ 64 - 1

-- `parse::<u64>`
unfoldable pub parse_u64 : Str → Option ℕ
unfolding parse_bounded
parse_u64 [] = none
parse_u64 (c ∷ s) = if c == plus then parse_bounded max_u64 s else parse_bounded max_u64 (c ∷ s)

abbrev negate : Option ℕ → Option ℤ
negate none = none
negate (some zero) = some (pos 0)
negate (some (suc n)) = some (negsuc n)

abbrev as_pos : Option ℕ → Option ℤ
as_pos none = none
as_pos (some n) = some (pos n)

-- `parse::<i64>`
unfoldable pub parse_i64 : Str → Option ℤ
unfolding parse_bounded
parse_i64 [] = none
parse_i64 (c ∷ s) =
    if c == minus
    then negate (parse_bounded (suc max_i64) s)
    else if c == plus
    then as_pos (parse_bounded max_i64 s)
    else as_pos (parse_bounded max_i64 (c ∷ s))

parse-show_fuel :
    (f n : ℕ) (rest : Str) → n < f → parse_digits 0 (show_fuel f n ++ rest) ≡ parse_digits n rest
unfolding show_fuel parse_digits
parse-show_fuel zero n rest h = absurd (omega arith)
parse-show_fuel (suc f) n rest h = elim (Bool-cases (ltb n 10)) [
  | inl small ↦ rw small (ground arith)
  | inr large ↦ rw large (
      rw append_assoc
        (rw (parse-show_fuel f (n / 10) ((48 + n % 10) ∷ rest) (ground arith)) (ground arith)))
]

-- What a number's text begins with.
first_digit :
    (f n : ℕ) → (c : ℕ) × (s : Str) × (show_fuel (suc f) n ≡ c ∷ s) × (is_ascii_digit c ≡ true)
unfolding show_fuel
first_digit zero n = elim (Bool-cases (ltb n 10)) [
  | inl small ↦ (48 + n, [], rw small, ground arith)
  | inr large ↦ (48 + n % 10, [], rw large, ground arith)
]
first_digit (suc f) n = elim (Bool-cases (ltb n 10)) [
  | inl small ↦ (48 + n, [], rw small, ground arith)
  | inr large ↦
      let (c, s, e, d) = first_digit f (n / 10) in (c, s ++ (48 + n % 10) ∷ [], rw large (rw e), d)
]

within :
    (bound c : ℕ) (s : Str) (n : ℕ)
    → parse_digits 0 (c ∷ s) ≡ some n
    → n ≤ bound
    → parse_bounded bound (c ∷ s) ≡ some n
unfolding parse_bounded
within bound c s n e h = rw (e, parse_bounded) (ground arith)

whole : (n c : ℕ) (s : Str) → show_fuel (suc n) n ≡ c ∷ s → parse_digits 0 (c ∷ s) ≡ some n
unfolding parse_digits
whole n c s e =
    ap (parse_digits 0) (sym e)
    ∙ ap (parse_digits 0) (sym (append-nil (show_fuel (suc n) n)))
    ∙ parse-show_fuel (suc n) n [] (omega arith)

unsigned :
    (c : ℕ) (s : Str) (n : ℕ)
    → is_ascii_digit c ≡ true
    → parse_bounded max_i64 (c ∷ s) ≡ some n
    → parse_i64 (c ∷ s) ≡ some (pos n)
unfolding parse_i64
unsigned c s n d e = ground arith

parse_i64-pos : (n : ℕ) → n ≤ max_i64 → parse_i64 (show_ℕ n) ≡ some (pos n)
unfolding show_ℕ
parse_i64-pos n h =
    let (c, s, e, d) = first_digit n n in
    ap parse_i64 e ∙ unsigned c s n d (within max_i64 c s n (whole n c s e) h)

parse_i64-negsuc : (n : ℕ) → n ≤ max_i64 → parse_i64 (minus ∷ show_ℕ (suc n)) ≡ some (negsuc n)
unfolding show_ℕ
parse_i64-negsuc n h =
    let (c, s, e, d) = first_digit (suc n) (suc n) in
    ap (λ t. parse_i64 (minus ∷ t)) e
    ∙ signed c s n (within (suc max_i64) c s (suc n) (whole (suc n) c s e) (omega arith))
  where
    signed :
        (c : ℕ) (s : Str) (n : ℕ)
        → parse_bounded (suc max_i64) (c ∷ s) ≡ some (suc n)
        → parse_i64 (minus ∷ (c ∷ s)) ≡ some (negsuc n)
    signed c s n e = unfold parse_i64 in ground arith

-- Every `i64` is read back from its text.
pub parse_i64-show : (z : ℤ) → InI64 z → parse_i64 (show_ℤ z) ≡ some z
parse_i64-show (negsuc n) h = unfold show_ℤ in parse_i64-negsuc n h
parse_i64-show (pos n) h = unfold show_ℤ in parse_i64-pos n h

not_negated : (o : Option ℕ) (n : ℕ) → 0 < n → negate o ≡ some (pos n) → ⊥
not_negated none n above e = ground arith
not_negated (some zero) n above e = ground arith
not_negated (some (suc m)) n above e = ground arith

as_pos_sound : (o : Option ℕ) (n : ℕ) → as_pos o ≡ some (pos n) → o ≡ some n
as_pos_sound none n e = ground arith
as_pos_sound (some m) n e = ground arith

-- A number above zero is read from its digits, or from those behind a plus sign.
pub parse_i64_sound :
    (c : ℕ) (s : Str) (n : ℕ)
    → 0 < n
    → parse_i64 (c ∷ s) ≡ some (pos n)
    → ((c ≡ plus) × (parse_bounded max_i64 s ≡ some n)) ⊎ (parse_bounded max_i64 (c ∷ s) ≡ some n)
unfolding parse_i64
parse_i64_sound c s n above e = elim (Bool-cases (c == minus)) [
  | inl h ↦ absurd (not_negated (parse_bounded (suc max_i64) s) n above (ground (arith, e, h)))
  | inr h ↦ elim (Bool-cases (c == plus)) [
    | inl k ↦ inl (ground (arith, k), as_pos_sound _ n (ground (arith, e, h, k)))
    | inr k ↦ inr (as_pos_sound _ n (ground (arith, e, h, k)))
  ]
]

pub parse_i64-plus :
    (s : Str) (n : ℕ) → parse_bounded max_i64 s ≡ some n → parse_i64 (plus ∷ s) ≡ some (pos n)
unfolding parse_i64
parse_i64-plus s n e = ground arith

pub parse_i64_unsigned :
    (c : ℕ) (s : Str) (n : ℕ)
    → is_ascii_digit c ≡ true
    → parse_bounded max_i64 (c ∷ s) ≡ some n
    → parse_i64 (c ∷ s) ≡ some (pos n)
parse_i64_unsigned c s n d e = unsigned c s n d e
