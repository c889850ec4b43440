-- ===== src/Jobctl/CommandLine.antt =====
-- crates/jobctl/src/main.rs: `Args::parse`. A later value of an option stands before an earlier one.
pub mod Printed
use claude_job_runner.Prelude.{
  Bool, true, false, Option, none, some, List, [], ◌∷◌, ◌++◌, any, find, if◌then◌else◌, Str, text,
  eq_str, starts_with, split_once, Result, ok, err,
}

pub record Args : Type 0 where
  pub values : List (Str × Str)
  pub flags : List Str
  pub positional : List Str

abbrev pub no_args : Args
no_args = record { values = []; flags = []; positional = [] }

unfoldable pub set_value : Str → Str → Args → Args
set_value name value args = record args { values = (name, value) ∷ args.values }

unfoldable pub set_flag : Str → Args → Args
set_flag name args = record args { flags = name ∷ args.flags }

unfoldable pub push_positional : List Str → Args → Args
push_positional words args = record args { positional = args.positional ++ words }

unfoldable pub is_among : List Str → Str → Bool
is_among names name = any (λ n. eq_str n name) names

-- What one argument is.
pub data Token : Type 0 where
  ends word : Token
  assigned : Str → Str → Token
  wants_value flag : Str → Token
  unknown : Token

module _ (value_opts flag_opts : List Str) where
  unfoldable pub by_name : Str → Option (Str × Str) → Token
  unfolding is_among
  by_name arg (some (name, value)) =
      if is_among value_opts name then assigned name value else unknown
  by_name arg none =
      if is_among value_opts arg
      then wants_value arg
      else if is_among flag_opts arg
      then flag arg
      else unknown

  unfoldable pub classify : Str → Token
  unfolding by_name starts_with split_once eq_str
  classify arg =
      if eq_str arg (text "--")
      then ends
      else if starts_with (text "--") arg
      then by_name arg (split_once b'=' arg)
      else word

  abbrev pub unknown_option : Str → Result Str Args
  unknown_option arg = err (text "unknown option " ++ (arg ++ text "; see jobctl --help"))

  -- The last argument.
  unfoldable pub parse_last : Token → Str → Args → Result Str Args
  unfolding set_value set_flag push_positional
  parse_last ends arg args = ok args
  parse_last word arg args = ok (push_positional (arg ∷ []) args)
  parse_last (assigned name value) arg args = ok (set_value name value args)
  parse_last (wants_value name) arg args = err (name ++ text " needs a value")
  parse_last (flag name) arg args = ok (set_flag name args)
  parse_last unknown arg args = unknown_option arg

  -- The loop, with what has been read.
  unfoldable pub parse_from : Args → List Str → Result Str Args
  unfolding classify parse_last
  parse_from args [] = ok args
  parse_from args (arg ∷ []) = parse_last (classify arg) arg args
  parse_from args (arg ∷ (next ∷ rest)) = elim (classify arg) [
    | ends ↦ ok (push_positional (next ∷ rest) args)
    | word ↦ parse_from (push_positional (arg ∷ []) args) (next ∷ rest)
    | assigned name value ↦ parse_from (set_value name value args) (next ∷ rest)
    | wants_value name ↦ parse_from (set_value name next args) rest
    | flag name ↦ parse_from (set_flag name args) (next ∷ rest)
    | unknown ↦ unknown_option arg
  ]

  unfoldable pub parse : List Str → Result Str Args
  unfolding parse_from
  parse raw = parse_from no_args raw

abbrev pub second : Option (Str × Str) → Option Str
second none = none
second (some (_, value)) = some value

-- `Args::value` and `Args::flag`
unfoldable pub value : Str → Args → Option Str
value name args = second (find (λ (v : Str × Str). eq_str v.0 name) args.values)

unfoldable pub has_flag : Str → Args → Bool
unfolding is_among
has_flag name args = is_among args.flags name
