-- ===== src/Config/Reading.antt =====
-- src/config.rs: what the configuration makes of its variables.
use claude_job_runner.Prelude.{
  ◌≡◌, refl, ap, Str, trim, is_empty, if◌then◌else◌, Result, ok, err, Bool-cases, inl, inr,
}
use cubical.Cubical.Foundations.Prelude.{fun_ext}
use claude_job_runner.Config.{Std, Env, VarError, not_present, raw, raw_of, from_env, config_from}

-- The environment without its blank variables.
unfoldable pub unset_blank : Result VarError Str → Result VarError Str
unfolding trim
unset_blank (ok value) = if is_empty (trim value) then err not_present else ok value
unset_blank (err e) = err e

raw-unset_blank :
    (name : Str) (v : Result VarError Str) → raw_of name (unset_blank v) ≡ raw_of name v
unfolding raw_of unset_blank
raw-unset_blank name (ok value) = elim (Bool-cases (is_empty (trim value))) [
  | inl e ↦ rw e refl
  | inr e ↦ rw e (rw e refl)
]
raw-unset_blank name (err e) = refl

-- A variable that is set to blanks counts as one that is not set: the configuration, or the error that
-- refuses it, is the same without them.
pub blank_as_unset :
    (std : Std) (env : Env) → from_env std (λ name. unset_blank (env name)) ≡ from_env std env
unfolding from_env raw
blank_as_unset std env = ap (config_from std) (fun_ext λ name. raw-unset_blank name (env name))
