-- ===== src/Jobctl/CommandLine/Printed.antt =====
-- crates/jobctl/src/main.rs: reading a command line that was written out.
use claude_job_runner.Prelude.{
  ℕ, ◌≡◌, refl, ap, ◌∙◌, true, false, none, some, List, [], ◌∷◌, ◌++◌, map, All, ◌==◌, Str, text,
  eq_str, starts_with, split_once, cons_fst, ok,
}
use claude_job_runner.Jobctl.CommandLine.{
  Args, no_args, set_value, set_flag, push_positional, is_among, assigned, flag, by_name, classify,
  parse_last, parse_from, parse,
}

abbrev pub option : Str → Str
option name = text "--" ++ name

abbrev pub assignment : Str × Str → Str
assignment (name, value) = option name ++ b'=' ∷ value

-- No equals sign.
abbrev pub Plain : Str → Type 0
Plain s = All (λ c. (c == b'=') ≡ false) s

abbrev pub option_value : Str × Str → Str × Str
option_value (name, value) = (option name, value)

unfoldable pub reversed_onto : {A : Type 0} → List A → List A → List A
reversed_onto [] ys = ys
reversed_onto (x ∷ xs) ys = reversed_onto xs (x ∷ ys)

split_once-first :
    (name value : Str) → Plain name → split_once b'=' (name ++ b'=' ∷ value) ≡ some (name, value)
unfolding split_once
split_once-first [] value h = refl
split_once-first (c ∷ name) value (hc, h) = rw hc (ap (cons_fst c) (split_once-first name value h))

split_once-none : (name : Str) → Plain name → split_once b'=' name ≡ none
unfolding split_once
split_once-none [] h = refl
split_once-none (c ∷ name) (hc, h) = rw hc (ap (cons_fst c) (split_once-none name h))

module _ (value_opts flag_opts : List Str) where
  by_name-assigned :
      (name value arg : Str)
      → is_among value_opts name ≡ true
      → by_name value_opts flag_opts arg (some (name, value)) ≡ assigned name value
  unfolding by_name
  by_name-assigned name value arg known = rw known refl

  by_name-flag :
      (arg : Str)
      → is_among value_opts arg ≡ false
      → is_among flag_opts arg ≡ true
      → by_name value_opts flag_opts arg none ≡ flag arg
  unfolding by_name
  by_name-flag arg other known = rw other (rw known refl)

  classify-assignment :
      (name value : Str)
      → Plain name
      → is_among value_opts (option name) ≡ true
      → classify value_opts flag_opts (assignment (name, value)) ≡ assigned (option name) value
  unfolding classify starts_with eq_str by_name
  classify-assignment [] value h known = rw known refl
  classify-assignment (c ∷ name) value h known =
      ap
        (λ r.
          by_name value_opts flag_opts (assignment (c ∷ name, value))
            (cons_fst b'-' (cons_fst b'-' r)))
        (split_once-first (c ∷ name) value h)
      ∙ by_name-assigned (option (c ∷ name)) value (assignment (c ∷ name, value)) known

  classify-flag :
      (c : ℕ) (name : Str)
      → Plain (c ∷ name)
      → is_among value_opts (option (c ∷ name)) ≡ false
      → is_among flag_opts (option (c ∷ name)) ≡ true
      → classify value_opts flag_opts (option (c ∷ name)) ≡ flag (option (c ∷ name))
  unfolding classify starts_with eq_str
  classify-flag c name h other known =
      ap (λ r. by_name value_opts flag_opts (option (c ∷ name)) (cons_fst b'-' (cons_fst b'-' r)))
        (split_once-none (c ∷ name) h)
      ∙ by_name-flag (option (c ∷ name)) other known

  parse_from-assigned :
      (args : Args) (arg name value : Str) (rest : List Str)
      → classify value_opts flag_opts arg ≡ assigned name value
      → parse_from value_opts flag_opts args (arg ∷ rest)
        ≡ parse_from value_opts flag_opts (set_value name value args) rest
  unfolding parse_from parse_last
  parse_from-assigned args arg name value [] e = rw e refl
  parse_from-assigned args arg name value (next ∷ rest) e = rw (e, parse_from) refl

  parse_from-flag :
      (args : Args) (arg name : Str) (rest : List Str)
      → classify value_opts flag_opts arg ≡ flag name
      → parse_from value_opts flag_opts args (arg ∷ rest)
        ≡ parse_from value_opts flag_opts (set_flag name args) rest
  unfolding parse_from parse_last
  parse_from-flag args arg name [] e = rw e refl
  parse_from-flag args arg name (next ∷ rest) e = rw (e, parse_from) refl

  parse_from-ends :
      (values : List (Str × Str)) (flags words : List Str)
      → parse_from value_opts flag_opts
          (record { values = values; flags = flags; positional = [] })
          (text "--" ∷ words)
        ≡ ok (record { values = values; flags = flags; positional = words })
  unfolding parse_from parse_last classify eq_str push_positional
  parse_from-ends values flags [] = refl
  parse_from-ends values flags (w ∷ words) = refl

  -- Names that can be written out: without an equals sign, and known to the command.
  abbrev pub IsValue : Str × Str → Type 0
  IsValue (name, value) = Plain name × (is_among value_opts (option name) ≡ true)

  abbrev pub IsFlag : Str → Type 0
  IsFlag [] = ⊥
  IsFlag (c ∷ name) =
      Plain (c ∷ name)
      × ((is_among value_opts (option (c ∷ name)) ≡ false)
          × (is_among flag_opts (option (c ∷ name)) ≡ true))

  parse_from-values :
      (vs : List (Str × Str)) (args : Args) (rest : List Str)
      → All IsValue vs
      → parse_from value_opts flag_opts args (map assignment vs ++ rest)
        ≡ parse_from value_opts flag_opts
            (record args { values = reversed_onto (map option_value vs) args.values })
            rest
  unfolding set_value reversed_onto
  parse_from-values [] args rest h = refl
  parse_from-values ((name, value) ∷ vs) args rest ((plain, known), h) =
      parse_from-assigned args (assignment (name, value)) (option name) value
        (map assignment vs ++ rest) (classify-assignment name value plain known)
      ∙ parse_from-values vs (set_value (option name) value args) rest h

  parse_from-flags :
      (fs : List Str) (args : Args) (rest : List Str)
      → All IsFlag fs
      → parse_from value_opts flag_opts args (map option fs ++ rest)
        ≡ parse_from value_opts flag_opts
            (record args { flags = reversed_onto (map option fs) args.flags })
            rest
  unfolding set_flag reversed_onto
  parse_from-flags [] args rest h = refl
  parse_from-flags ([] ∷ fs) args rest (empty, h) = absurd empty
  parse_from-flags ((c ∷ name) ∷ fs) args rest ((plain, (other, known)), h) =
      parse_from-flag args (option (c ∷ name)) (option (c ∷ name)) (map option fs ++ rest)
        (classify-flag c name plain other known)
      ∙ parse_from-flags fs (set_flag (option (c ∷ name)) args) rest h

  -- A command line that is written as assignments, flags, `--` and words is read as just these: the
  -- values may hold anything, and so may the words, dashes and equals signs included. The options are
  -- known to the command, and their names have no equals sign.
  pub parse-printed :
      (vs : List (Str × Str)) (fs words : List Str)
      → All IsValue vs
      → All IsFlag fs
      → parse value_opts flag_opts (map assignment vs ++ (map option fs ++ text "--" ∷ words))
        ≡ ok (record {
          values = reversed_onto (map option_value vs) [];
          flags = reversed_onto (map option fs) [];
          positional = words;
        })
  unfolding parse
  parse-printed vs fs words hv hf =
      parse_from-values vs no_args (map option fs ++ text "--" ∷ words) hv
      ∙ parse_from-flags fs
          (record { values = reversed_onto (map option_value vs) []; flags = []; positional = [] })
          (text "--" ∷ words) hf
      ∙ parse_from-ends (reversed_onto (map option_value vs) []) (reversed_onto (map option fs) [])
          words
