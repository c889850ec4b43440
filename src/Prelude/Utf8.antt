-- ===== src/Prelude/Utf8.antt =====
-- `str::from_utf8`: the reader of UTF-8, one byte at a time.
use Prim.Native.Nat.{ℕ, zero, suc, ◌+◌, ◌-◌, ◌*◌, ◌/◌, ◌%◌, ◌≤◌, ◌<◌}
use mathlib.Core.Path.{◌≡◌, refl, ap, ◌∙◌}
use mathlib.Core.Logic.{inl, inr, ◌⊎◌}
use mathlib.Core.Bool.{Bool, true, false, ◌&&◌, ◌||◌}
use mathlib.Core.Option.{Option, none, some}
use mathlib.Core.List.{List, [], ◌∷◌, ◌++◌}
use native.Mathlib.Omega.{arith}
use claude_job_runner.Prelude.Tests.{ltb, leb, if◌then◌else◌, Bool-cases, ltb→lt}
use claude_job_runner.Prelude.Lists.{All}
use claude_job_runner.Prelude.Text.{Str, encode_utf8, bytes}

-- A Unicode scalar value: no surrogate, and below 0x110000.
abbrev pub IsScalar : ℕ → Type 0
IsScalar c = (c < 0xd800) ⊎ ((0xe000 ≤ c) × (c < 0x110000))

abbrev is_scalar : ℕ → Bool
is_scalar c = ltb c 0xd800 || (leb 0xe000 c && ltb c 0x110000)

abbrev pub cons_char : ℕ → Option Str → Option Str
cons_char c none = none
cons_char c (some s) = some (c ∷ s)

-- The bytes that are still to come of a character, what they give so far, and the least character
-- that needs so many bytes.
unfoldable pub utf8_from : ℕ → ℕ → ℕ → List ℕ → Option Str
utf8_from zero acc low [] = some []
utf8_from (suc n) acc low [] = none
utf8_from zero acc low (b ∷ bs) =
    let ascii = cons_char b (utf8_from 0 0 0 bs) in
    let two = utf8_from 1 (b - 0xc0) 0x80 bs in
    let three = utf8_from 2 (b - 0xe0) 0x800 bs in
    let four = utf8_from 3 (b - 0xf0) 0x10000 bs in
    if ltb b 0x80
    then ascii
    else if ltb b 0xc0
    then none
    else if ltb b 0xe0
    then two
    else if ltb b 0xf0
    then three
    else if ltb b 0xf8
    then four
    else none
utf8_from (suc zero) acc low (b ∷ bs) =
    let c = acc * 64 + (b - 0x80) in
    let rest = cons_char c (utf8_from 0 0 0 bs) in
    if leb 0x80 b && ltb b 0xc0 && leb low c && is_scalar c then rest else none
utf8_from (suc (suc n)) acc low (b ∷ bs) =
    let rest = utf8_from (suc n) (acc * 64 + (b - 0x80)) low bs in
    if leb 0x80 b && ltb b 0xc0 then rest else none

unfoldable pub from_utf8 : List ℕ → Option Str
unfolding utf8_from
from_utf8 bs = utf8_from 0 0 0 bs

not_below : (a b : ℕ) → b ≤ a → ltb a b ≡ false
not_below a b h = ground arith

below : (a b : ℕ) → a < b → ltb a b ≡ true
below a b h = ground arith

scalar_true : (c : ℕ) → IsScalar c → is_scalar c ≡ true
scalar_true c (inl h) = ground arith
scalar_true c (inr h) = ground (arith, h.0, h.1)

last_byte :
    (acc low c b : ℕ) (rest : List ℕ)
    → IsScalar c
    → low ≤ c
    → acc * 64 + (b - 0x80) ≡ c
    → 0x80 ≤ b
    → b < 0xc0
    → utf8_from 1 acc low (b ∷ rest) ≡ cons_char c (utf8_from 0 0 0 rest)
unfolding utf8_from
last_byte acc low c b rest scalar h e lo hi = rw e (ground (arith, scalar_true c scalar))

next_byte :
    (n acc low b : ℕ) (rest : List ℕ)
    → 0x80 ≤ b
    → b < 0xc0
    → utf8_from (suc (suc n)) acc low (b ∷ rest)
      ≡ utf8_from (suc n) (acc * 64 + (b - 0x80)) low rest
unfolding utf8_from
next_byte n acc low b rest lo hi = ground arith

first_byte_two :
    (n : ℕ) (rest : List ℕ)
    → n < 32
    → utf8_from 0 0 0 ((0xc0 + n) ∷ rest) ≡ utf8_from 1 (0xc0 + n - 0xc0) 0x80 rest
unfolding utf8_from
first_byte_two n rest h = rw (not_below (0xc0 + n) 0x80 (omega arith)) (
    rw (not_below (0xc0 + n) 0xc0 (omega arith))
      (rw (below (0xc0 + n) 0xe0 (omega (arith, h))) refl))

first_byte_three :
    (n : ℕ) (rest : List ℕ)
    → n < 16
    → utf8_from 0 0 0 ((0xe0 + n) ∷ rest) ≡ utf8_from 2 (0xe0 + n - 0xe0) 0x800 rest
unfolding utf8_from
first_byte_three n rest h = rw (not_below (0xe0 + n) 0x80 (omega arith)) (
    rw (not_below (0xe0 + n) 0xc0 (omega arith)) (
      rw (not_below (0xe0 + n) 0xe0 (omega arith))
        (rw (below (0xe0 + n) 0xf0 (omega (arith, h))) refl)))

first_byte_four :
    (n : ℕ) (rest : List ℕ)
    → n < 8
    → utf8_from 0 0 0 ((0xf0 + n) ∷ rest) ≡ utf8_from 3 (0xf0 + n - 0xf0) 0x10000 rest
unfolding utf8_from
first_byte_four n rest h = rw (not_below (0xf0 + n) 0x80 (omega arith)) (
    rw (not_below (0xf0 + n) 0xc0 (omega arith)) (
      rw (not_below (0xf0 + n) 0xe0 (omega arith)) (
        rw (not_below (0xf0 + n) 0xf0 (omega arith))
          (rw (below (0xf0 + n) 0xf8 (omega (arith, h))) refl))))

pub scalar_bound : (c : ℕ) → IsScalar c → c < 0x110000
scalar_bound c (inl h) = omega (arith, h)
scalar_bound c (inr h) = h.1

two_bytes :
    (c : ℕ) (rest : List ℕ)
    → IsScalar c
    → 0x80 ≤ c
    → c < 0x800
    → utf8_from 0 0 0 ((0xc0 + c / 64) ∷ ((0x80 + c % 64) ∷ rest))
      ≡ cons_char c (utf8_from 0 0 0 rest)
two_bytes c rest s lo hi =
    first_byte_two (c / 64) ((0x80 + c % 64) ∷ rest) (omega (arith, hi))
    ∙ last_byte (0xc0 + c / 64 - 0xc0) 0x80 c (0x80 + c % 64) rest s lo (omega arith) (omega arith)
        (omega arith)

three_bytes :
    (c : ℕ) (rest : List ℕ)
    → IsScalar c
    → 0x800 ≤ c
    → c < 0x10000
    → utf8_from 0 0 0 ((0xe0 + c / 4096) ∷ ((0x80 + c / 64 % 64) ∷ ((0x80 + c % 64) ∷ rest)))
      ≡ cons_char c (utf8_from 0 0 0 rest)
three_bytes c rest s lo hi =
    first_byte_three (c / 4096) ((0x80 + c / 64 % 64) ∷ ((0x80 + c % 64) ∷ rest))
      (omega (arith, hi))
    ∙ next_byte 0 (0xe0 + c / 4096 - 0xe0) 0x800 (0x80 + c / 64 % 64) ((0x80 + c % 64) ∷ rest)
        (omega arith) (omega arith)
    ∙ last_byte ((0xe0 + c / 4096 - 0xe0) * 64 + (0x80 + c / 64 % 64 - 0x80)) 0x800 c
        (0x80 + c % 64) rest s lo (omega arith) (omega arith) (omega arith)

four_bytes :
    (c : ℕ) (rest : List ℕ)
    → IsScalar c
    → 0x10000 ≤ c
    → utf8_from 0 0 0 (
        (0xf0 + c / 262144)
        ∷ ((0x80 + c / 4096 % 64) ∷ ((0x80 + c / 64 % 64) ∷ ((0x80 + c % 64) ∷ rest))))
      ≡ cons_char c (utf8_from 0 0 0 rest)
four_bytes c rest s lo =
    let third = (0xf0 + c / 262144 - 0xf0) * 64 + (0x80 + c / 4096 % 64 - 0x80) in
    first_byte_four (c / 262144) _ (omega (arith, scalar_bound c s))
    ∙ next_byte 1 (0xf0 + c / 262144 - 0xf0) 0x10000 (0x80 + c / 4096 % 64)
        ((0x80 + c / 64 % 64) ∷ ((0x80 + c % 64) ∷ rest)) (omega arith) (omega arith)
    ∙ next_byte 0 third 0x10000 (0x80 + c / 64 % 64) ((0x80 + c % 64) ∷ rest) (omega arith)
        (omega arith)
    ∙ last_byte (third * 64 + (0x80 + c / 64 % 64 - 0x80)) 0x10000 c (0x80 + c % 64) rest s lo
        (omega arith) (omega arith) (omega arith)

one_byte :
    (c : ℕ) (rest : List ℕ)
    → c < 0x80
    → utf8_from 0 0 0 (c ∷ rest) ≡ cons_char c (utf8_from 0 0 0 rest)
unfolding utf8_from
one_byte c rest h = ground arith

utf8-encode :
    (c : ℕ) (rest : List ℕ)
    → IsScalar c
    → utf8_from 0 0 0 (encode_utf8 c ++ rest) ≡ cons_char c (utf8_from 0 0 0 rest)
unfolding encode_utf8
utf8-encode c rest s = elim (Bool-cases (ltb c 0x80)) [
  | inl a ↦ rw a (one_byte c rest (ltb→lt c 0x80 a))
  | inr a ↦ elim (Bool-cases (ltb c 0x800)) [
    | inl b ↦ rw a (rw b (two_bytes c rest s (ground arith) (ltb→lt c 0x800 b)))
    | inr b ↦ elim (Bool-cases (ltb c 0x10000)) [
      | inl d ↦ rw a (rw b (rw d (three_bytes c rest s (ground arith) (ltb→lt c 0x10000 d))))
      | inr d ↦ rw a (rw b (rw d (four_bytes c rest s (ground arith))))
    ]
  ]
]

pub from_utf8-bytes : (s : Str) → All IsScalar s → from_utf8 (bytes s) ≡ some s
unfolding from_utf8 bytes
from_utf8-bytes [] h = unfold utf8_from in refl
from_utf8-bytes (c ∷ s) (hc, h) =
    utf8-encode c (bytes s) hc ∙ ap (cons_char c) (from_utf8-bytes s h)

-- A text of ASCII characters is its bytes.
pub bytes-ascii : (s : Str) → All (λ c. c < 0x80) s → bytes s ≡ s
unfolding bytes encode_utf8
bytes-ascii [] h = refl
bytes-ascii (c ∷ s) (hc, h) =
    let small : ltb c 0x80 ≡ true = ground arith in rw small (rw (bytes-ascii s h) refl)
