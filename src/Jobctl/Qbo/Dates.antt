-- ===== src/Jobctl/Qbo/Dates.antt =====
-- The dates and QuickBooks ids that the tools accept.
use claude_job_runner.Prelude.{
  ℕ, ◌≤◌, ◌≡◌, true, Option, none, some, arith, all, length, Str, ok, Bool-cases, inl, inr, bytes,
  len, is_ascii_digit, subst,
}
use claude_job_runner.Json.{Value, null, bool, num, str, array, object, get}
use claude_job_runner.Jobctl.Qbo.Args.{
  is_entity_id, check_id, entity_id_of, optional_entity_id, raw_id,
}
use claude_job_runner.Jobctl.Qbo.DateText.{DateText, ascii_text, digits}

module _ (float_text : ℕ → Str) where
  check_id-ok :
      (name raw v : Str)
      → check_id float_text name raw ≡ ok (some v)
      → (raw ≡ v) × (is_entity_id v ≡ true)
  unfolding check_id
  check_id-ok name raw v h = elim (Bool-cases (is_entity_id raw)) [
    | inl e ↦
        let same : raw ≡ v = ground (arith, h, e) in
        (same, subst (λ t. is_entity_id t ≡ true) same e)
    | inr e ↦ absurd (ground (arith, h, e))
  ]

  entity_id_of-ok :
      (name v : Str) (o : Option Value)
      → entity_id_of float_text name o ≡ ok (some v)
      → is_entity_id v ≡ true
  unfolding entity_id_of
  entity_id_of-ok name v none h = absurd (ground arith)
  entity_id_of-ok name v (some null) h = absurd (ground arith)
  entity_id_of-ok name v (some (bool b)) h = (check_id-ok name (raw_id float_text (bool b)) v h).1
  entity_id_of-ok name v (some (num n)) h = (check_id-ok name (raw_id float_text (num n)) v h).1
  entity_id_of-ok name v (some (str s)) h = (check_id-ok name (raw_id float_text (str s)) v h).1
  entity_id_of-ok name v (some (array items)) h =
      (check_id-ok name (raw_id float_text (array items)) v h).1
  entity_id_of-ok name v (some (object fields)) h =
      (check_id-ok name (raw_id float_text (object fields)) v h).1

  id-digits :
      (v : Str)
      → is_entity_id v ≡ true
      → (1 ≤ length v) × (length v ≤ 32) × (all is_ascii_digit v ≡ true)
  unfolding is_entity_id len
  id-digits v h =
      let only : all is_ascii_digit (bytes v) ≡ true = ground arith in
      let low : 1 ≤ length (bytes v) = ground arith in
      let high : length (bytes v) ≤ 32 = ground arith in
      subst (λ t. (1 ≤ length t) × (length t ≤ 32) × (all is_ascii_digit t ≡ true))
        (ascii_text v (digits (bytes v) only)) (low, high, only)

  -- A QuickBooks id that is accepted is one to 32 decimal digits, whether it came as a text or a number.
  pub entity_id_exact :
      (args : Value) (name v : Str)
      → optional_entity_id float_text args name ≡ ok (some v)
      → (1 ≤ length v) × (length v ≤ 32) × (all is_ascii_digit v ≡ true)
  unfolding optional_entity_id
  entity_id_exact args name v h = id-digits v (entity_id_of-ok name v (get args name) h)
