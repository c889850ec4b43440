-- ===== src/Http/Paths.antt =====
-- The job ids that the paths of the API name.
use claude_job_runner.Prelude.{
  ℕ, ◌+◌, ◌-◌, ◌*◌, ◌≤◌, ◌<◌, ◌≡◌, ◌⊎◌, refl, sym, ◌∙◌, ap, subst, true, Option, none, some, [],
  ◌∷◌, ◌++◌, append-nil, append_assoc, arith, Str, text, ℤ, pos, max_i64, leb, if◌then◌else◌,
  is_ascii_digit, strip_prefix, strip_prefix_sound, strip_prefix-append, parse_i64-show, show_ℤ,
  parse_i64, parse_i64_sound, parse_i64-plus, parse_i64_unsigned, negsuc, parse_bounded,
  parse_digits, Bool-cases, Option-cases, inl, inr,
}
use claude_job_runner.Job.{MessageId}
use claude_job_runner.Store.{id_of}
use claude_job_runner.Http.{parse_job_id, parse_after, positive}

-- Decimal digits and the number they write, from the most significant on.
pub data Decimal : Str → ℕ → Type 0 where
  nothing : Decimal [] 0
  digit :
      {s : Str} {n : ℕ}
      → Decimal s n
      → (c : ℕ) → 48 ≤ c
      → c ≤ 57
      → (t : Str) → t ≡ s ++ c ∷ []
      → Decimal t (n * 10 + (c - 48))

-- The path is "/jobs/", perhaps a plus sign, and the digits of a number that an `i64` holds and that is
-- above zero, so there is a digit.
abbrev pub Names : Str → MessageId → Type 0
Names path id =
    (sign : Str) × (digits : Str) × (n : ℕ) × (path ≡ text "/jobs/" ++ (sign ++ digits))
    × ((sign ≡ []) ⊎ (sign ≡ text "+"))
    × Decimal digits n
    × (0 < n)
    × (n ≤ max_i64)
    × (id ≡ id_of (pos n))

-- The parser's loop, from digits that it has read on.
digits-Decimal :
    (before s : Str) (acc n : ℕ)
    → Decimal before acc
    → parse_digits acc s ≡ some n
    → Decimal (before ++ s) n
unfolding parse_digits
digits-Decimal before [] acc n h e =
    let same : acc ≡ n = ground arith in
    subst (λ t. Decimal t n) (sym (append-nil before)) (subst (Decimal before) same h)
digits-Decimal before (c ∷ s) acc n h e = elim (Bool-cases (is_ascii_digit c)) [
  | inr no_digit ↦ absurd (ground (arith, e, no_digit))
  | inl d ↦
      let more : parse_digits (acc * 10 + (c - 48)) s ≡ some n = ground (arith, e, d) in
      let further =
        digits-Decimal (before ++ c ∷ []) s (acc * 10 + (c - 48)) n
          (digit h c (ground (arith, d)) (ground (arith, d)) (before ++ c ∷ []) refl) more in
      subst (λ t. Decimal t n) (append_assoc before (c ∷ []) s) further
]

parse-snoc :
    (s : Str) (acc n c : ℕ)
    → parse_digits acc s ≡ some n
    → is_ascii_digit c ≡ true
    → parse_digits acc (s ++ c ∷ []) ≡ some (n * 10 + (c - 48))
unfolding parse_digits
parse-snoc [] acc n c e d = ground (arith, e, d)
parse-snoc (x ∷ s) acc n c e d = elim (Bool-cases (is_ascii_digit x)) [
  | inr no_digit ↦ absurd (ground (arith, e, no_digit))
  | inl h ↦ rw h (parse-snoc s (acc * 10 + (x - 48)) n c (ground (arith, e, h)) d)
]

Decimal-digits : {s : Str} {n : ℕ} → Decimal s n → parse_digits 0 s ≡ some n
unfolding parse_digits
Decimal-digits nothing = refl
Decimal-digits (digit {s} {n} h c low high t same) =
    ap (parse_digits 0) same ∙ parse-snoc s 0 n c (Decimal-digits h) (ground arith)

bounded_sound : (s : Str) (n : ℕ) → parse_bounded max_i64 s ≡ some n → Decimal s n × (n ≤ max_i64)
unfolding parse_bounded
bounded_sound [] n e = absurd (ground arith)
bounded_sound (c ∷ s) n e = elim (Option-cases (parse_digits 0 (c ∷ s))) [
  | inl no_number ↦ absurd (impossible none no_number e)
  | inr (m, read) ↦
      let (fits, same) = bound m (chosen (some m) read e) in
      (digits-Decimal [] (c ∷ s) 0 n nothing (read ∙ ap some same), fits)
]
  where
    chosen :
        (o : Option ℕ)
        → parse_digits 0 (c ∷ s) ≡ o
        → parse_bounded max_i64 (c ∷ s) ≡ some n
        → elim o [ none ↦ none | some k ↦ if leb k max_i64 then some k else none ] ≡ some n
    chosen o h e =
        subst
          (λ o. elim o [ none ↦ none | some k ↦ if leb k max_i64 then some k else none ] ≡ some n) h
          e

    impossible :
        (o : Option ℕ) → parse_digits 0 (c ∷ s) ≡ none → parse_bounded max_i64 (c ∷ s) ≡ some n → ⊥
    impossible o h e = ground (arith, chosen none h e)

    bound : (m : ℕ) → (if leb m max_i64 then some m else none) ≡ some n → (n ≤ max_i64) × (m ≡ n)
    bound m e = (ground arith, ground arith)

bounded_complete :
    (s : Str) (n : ℕ) → Decimal s n → 0 < n → n ≤ max_i64 → parse_bounded max_i64 s ≡ some n
unfolding parse_bounded
bounded_complete [] n h above fits = absurd (ground (arith, empty n h))
  where
    empty : (n : ℕ) → Decimal [] n → some n ≡ some 0
    empty n h = sym (Decimal-digits h) ∙ (unfold parse_digits in refl)
bounded_complete (c ∷ s) n h above fits = rw (Decimal-digits h, parse_bounded) (ground arith)

-- What `parse_i64` reads as a number above zero.
abbrev Written : Str → ℕ → Type 0
Written raw n =
    (sign : Str) × (digits : Str) × (raw ≡ sign ++ digits)
    × ((sign ≡ []) ⊎ (sign ≡ text "+"))
    × Decimal digits n
    × (n ≤ max_i64)

Written-sound : (raw : Str) (n : ℕ) → 0 < n → parse_i64 raw ≡ some (pos n) → Written raw n
Written-sound [] n above e = unfold parse_i64 in absurd (ground arith)
Written-sound (c ∷ s) n above e = elim (parse_i64_sound c s n above e) [
  | inl (plus, read) ↦
      let (number, fits) = bounded_sound s n read in
      (text "+", s, ap (λ x. x ∷ s) plus, inr refl, number, fits)
  | inr read ↦
      let (number, fits) = bounded_sound (c ∷ s) n read in ([], c ∷ s, refl, inl refl, number, fits)
]

starts_digit : (c : ℕ) (s : Str) (n : ℕ) → parse_digits 0 (c ∷ s) ≡ some n → is_ascii_digit c ≡ true
unfolding parse_digits
starts_digit c s n e = ground arith

parse_i64-Written :
    (sign digits : Str) (n : ℕ)
    → ((sign ≡ []) ⊎ (sign ≡ text "+"))
    → Decimal digits n
    → 0 < n
    → n ≤ max_i64
    → parse_i64 (sign ++ digits) ≡ some (pos n)
parse_i64-Written sign digits n (inr e) h above fits =
    ap (λ t. parse_i64 (t ++ digits)) e
    ∙ parse_i64-plus digits n (bounded_complete digits n h above fits)
parse_i64-Written sign [] n (inl e) h above fits =
    absurd (unfold parse_bounded in ground (arith, bounded_complete [] n h above fits))
parse_i64-Written sign (c ∷ s) n (inl e) h above fits =
    ap (λ t. parse_i64 (t ++ c ∷ s)) e
    ∙ parse_i64_unsigned c s n (starts_digit c s n (Decimal-digits h))
        (bounded_complete (c ∷ s) n h above fits)

positive_sound :
    (o : Option ℤ) (id : MessageId)
    → positive o ≡ some id
    → (n : ℕ) × (o ≡ some (pos n)) × (0 < n) × (id ≡ id_of (pos n))
unfolding positive
positive_sound none id e = absurd (ground arith)
positive_sound (some (pos n)) id e = elim (Bool-cases (leb 1 n)) [
  | inl h ↦ (n, refl, ground (arith, h), ground (arith, e, h))
  | inr h ↦ absurd (ground (arith, e, h))
]
positive_sound (some (negsuc n)) id e = absurd (ground arith)

-- What follows "/jobs/" in a path.
steps :
    (path raw : Str)
    → strip_prefix (text "/jobs/") path ≡ some raw
    → parse_job_id path ≡ positive (parse_i64 raw)
unfolding parse_job_id parse_after
steps path raw found = ap parse_after found

missing :
    (path : Str) (id : MessageId)
    → strip_prefix (text "/jobs/") path ≡ none
    → parse_job_id path ≡ some id
    → ⊥
unfolding parse_job_id parse_after
missing path id gone e = ground (arith, ap parse_after gone, e)

-- The path that is printed for a job's id names that id.
pub parse_job_id-show :
    (n : ℕ)
    → 0 < n
    → n ≤ max_i64
    → parse_job_id (text "/jobs/" ++ show_ℤ (pos n)) ≡ some (id_of (pos n))
unfolding parse_job_id parse_after positive
parse_job_id-show n h fits =
    rw (strip_prefix-append (text "/jobs/") (show_ℤ (pos n)))
      (rw (parse_i64-show (pos n) fits) (ground arith))

-- A path names a job exactly where it is "/jobs/", perhaps a plus sign, and the decimal digits of a
-- number from 1 to the largest `i64` (leading zeros count as digits), and the job's id is that number.
pub job_paths_exact :
    (path : Str) (id : MessageId)
    → (parse_job_id path ≡ some id → Names path id) × (Names path id → parse_job_id path ≡ some id)
job_paths_exact path id = (sound, complete)
  where
    sound : parse_job_id path ≡ some id → Names path id
    sound e = elim (Option-cases (strip_prefix (text "/jobs/") path)) [
      | inl gone ↦ absurd (missing path id gone e)
      | inr (raw, found) ↦
          let (n, read, above, same) =
            positive_sound (parse_i64 raw) id (sym (steps path raw found) ∙ e) in
          let (sign, digits, whole, signed, number, fits) = Written-sound raw n above read in
          (
            sign,
            digits,
            n,
            strip_prefix_sound (text "/jobs/") path raw found ∙ ap (λ t. text "/jobs/" ++ t) whole,
            signed,
            number,
            above,
            fits,
            same,
          )
    ]

    complete : Names path id → parse_job_id path ≡ some id
    complete (sign, digits, n, whole, signed, number, above, fits, same) =
        let read = parse_i64-Written sign digits n signed number above fits in
        let named : positive (some (pos n)) ≡ some (id_of (pos n)) =
          unfold positive in ground arith in
        ap parse_job_id whole
        ∙ steps (text "/jobs/" ++ (sign ++ digits)) (sign ++ digits)
            (strip_prefix-append (text "/jobs/") (sign ++ digits))
        ∙ ap positive read
        ∙ named
        ∙ ap some (sym same)
