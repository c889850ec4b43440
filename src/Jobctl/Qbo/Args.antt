-- ===== src/Jobctl/Qbo/Args.antt =====
-- crates/jobctl/src/qbo.rs: the arguments of a tool, and the texts that QuickBooks reads.
use claude_job_runner.Prelude.{
  ℕ, suc, ◌+◌, ◌/◌, ◌%◌, Bool, true, ◌&&◌, ◌||◌, Option, none, some, List, [], ◌∷◌, ◌++◌, all,
  length, Str, text, Result, ok, err, if◌then◌else◌, ltb, leb, ◌==◌, trim, is_empty, len, bytes,
  is_ascii_digit, is_ascii_alphabetic, replace, ℤ, pos, ltb_ℤ, parse_i64, show_ℤ, ok_or,
}
use claude_job_runner.Json.{Value, null, num, str, Number, int, float, get, as_i64, as_str}
use claude_job_runner.Jobctl.{Error, invalid_argument}

abbrev pub and_then {ℓ κ} : {A : Type ℓ} {B : Type κ} → Option A → (A → Option B) → Option B
and_then none f = none
and_then (some a) f = f a

unfoldable pub keep_if {ℓ} : {A : Type ℓ} → (A → Bool) → Option A → Option A
keep_if p none = none
keep_if p (some a) = if p a then some a else none

abbrev some_text : Str → Option Str
some_text s = if is_empty s then none else some s

unfoldable pub optional_str : Value → Str → Option Str
unfolding get as_str trim
optional_str args name =
    and_then (and_then (get args name) as_str) (λ value. some_text (trim value))

unfoldable pub required_str : Value → Str → Result Error Str
unfolding optional_str
required_str args name =
    ok_or (optional_str args name) (invalid_argument (name ++ text " is required"))

-- The test of the byte at place `i`.
unfoldable pub date_byte : ℕ → ℕ → Bool
date_byte i b = if (i == 4) || (i == 7) then b == b'-' else is_ascii_digit b

unfoldable pub all_at : (ℕ → ℕ → Bool) → ℕ → List ℕ → Bool
all_at p i [] = true
all_at p i (b ∷ bs) = p i b && all_at p (suc i) bs

unfoldable pub is_date : Str → Bool
unfolding date_byte all_at bytes
is_date value = (length (bytes value) == 10) && all_at date_byte 0 (bytes value)

unfoldable pub check_date : Str → Result Error Str → Result Error Str
unfolding is_date
check_date name (err e) = err e
check_date name (ok value) =
    if is_date value then ok value else err (invalid_argument (name ++ text " must be YYYY-MM-DD"))

unfoldable pub required_date : Value → Str → Result Error Str
unfolding required_str check_date
required_date args name = check_date name (required_str args name)

unfoldable pub is_entity_id : Str → Bool
unfolding len bytes
is_entity_id value = leb 1 (len value) && leb (len value) 32 && all is_ascii_digit (bytes value)

-- A number prints as an integer, or as the `float_text` of the bits of an `f64`.
module _ (float_text : ℕ → Str) where
  unfoldable pub number_text : Number → Str
  number_text (int n) = show_ℤ n
  number_text (float b) = float_text b

  unfoldable pub raw_id : Value → Str
  unfolding trim number_text
  raw_id (str s) = trim s
  raw_id (num n) = number_text n
  raw_id _ = []

  unfoldable pub check_id : Str → Str → Result Error (Option Str)
  unfolding is_entity_id
  check_id name raw =
      if is_entity_id raw
      then ok (some raw)
      else err (invalid_argument (name ++ text " must be a numeric QuickBooks id"))

  unfoldable pub entity_id_of : Str → Option Value → Result Error (Option Str)
  unfolding raw_id check_id
  entity_id_of name none = ok none
  entity_id_of name (some null) = ok none
  entity_id_of name (some value) = check_id name (raw_id value)

  unfoldable pub optional_entity_id : Value → Str → Result Error (Option Str)
  unfolding get entity_id_of
  optional_entity_id args name = entity_id_of name (get args name)

  -- `text` of a value: a string that is not blank, or a number.
  unfoldable pub text_of : Value → Option Str
  unfolding trim number_text
  text_of (str s) = if is_empty (trim s) then none else some s
  text_of (num n) = some (number_text n)
  text_of _ = none

unfoldable pub or_else {ℓ} : {A : Type ℓ} → Option A → Option A → Option A
or_else none b = b
or_else (some a) b = some a

unfoldable pub positive_of : Str → Option Value → Result Error (Option ℤ)
unfolding as_i64 as_str trim or_else keep_if
positive_of name none = ok none
positive_of name (some null) = ok none
positive_of name (some value) =
    let parsed = and_then (as_str value) (λ s. parse_i64 (trim s)) in
    let kept = keep_if (ltb_ℤ (pos 0)) (or_else (as_i64 value) parsed) in
    ok_or (and_then kept (λ id. some (some id)))
      (invalid_argument (name ++ text " must be a positive integer"))

unfoldable pub optional_positive : Value → Str → Result Error (Option ℤ)
unfolding get positive_of
optional_positive args name = positive_of name (get args name)

abbrev pub quote : ℕ
quote = 0x27

unfoldable pub escape : Str → Str
escape value = replace quote (quote ∷ quote ∷ []) value

-- `{:X}` of a number below 16
unfoldable pub hex_digit : ℕ → ℕ
hex_digit n = if ltb n 10 then 48 + n else 55 + n

unfoldable pub is_unreserved : ℕ → Bool
is_unreserved b =
    is_ascii_alphabetic b
    || is_ascii_digit b
    || (b == b'-')
    || (b == b'.')
    || (b == b'_')
    || (b == b'~')

unfoldable pub encode_byte : ℕ → Str
unfolding is_unreserved hex_digit
encode_byte b =
    if is_unreserved b then b ∷ [] else b'%' ∷ (hex_digit (b / 16) ∷ (hex_digit (b % 16) ∷ []))

unfoldable pub encode_bytes : List ℕ → Str
unfolding encode_byte
encode_bytes [] = []
encode_bytes (b ∷ bs) = encode_byte b ++ encode_bytes bs

unfoldable pub percent_encode : Str → Str
unfolding bytes encode_bytes
percent_encode value = encode_bytes (bytes value)
