-- ===== src/Claude/Arguments.antt =====
-- The command line: the rules that every requester's prompt carries, and the values of the
-- two enumerations.
use claude_job_runner.Prelude.{
  ◌≡◌, refl, false, Option, some, List, [], ◌∷◌, ◌++◌, Str, text, eq_str, if◌then◌else◌, arith, inl,
  inr, ℕ, append_assoc, join, is_some, ok, eq_str_sound, Bool-cases, ap, ◌↔◌, ◌∙◌,
}
use claude_job_runner.Json.{Value}
use claude_job_runner.Job.{Requester}
use claude_job_runner.Broker.{QboJobAccess}
use claude_job_runner.Claude.{
  ClaudeConfig, PermissionMode, Effort, mode_cli_value, mode_from_str, effort_cli_value,
  effort_from_str, accept_edits, bypass_permissions, low, medium, high, x_high, max, base_args,
  command_with_qbo, system_prompt, prompt_args, qbo_prompts,
}
use claude_job_runner.Claude.Prompts.{
  requester_system_prompt, company_restriction, non_admin_restriction, admin_rule, identity,
  blank_line, db_system_prompt,
}

-- Every value is read back from the command line's word for it.
pub mode_from_str-cli_value : (m : PermissionMode) → mode_from_str (mode_cli_value m) ≡ ok m
unfolding mode_from_str mode_cli_value eq_str
mode_from_str-cli_value accept_edits = refl
mode_from_str-cli_value _ = refl

pub effort_from_str-cli_value : (e : Effort) → effort_from_str (effort_cli_value e) ≡ ok e
unfolding effort_from_str effort_cli_value eq_str
effort_from_str-cli_value low = refl
effort_from_str-cli_value _ = refl

effort_sound : (raw : Str) (e : Effort) → effort_from_str raw ≡ ok e → raw ≡ effort_cli_value e
unfolding effort_from_str effort_cli_value
effort_sound raw low h = ground (arith, eq_str_sound raw (text "low"))
effort_sound raw medium h = ground (arith, eq_str_sound raw (text "medium"))
effort_sound raw high h = ground (arith, eq_str_sound raw (text "high"))
effort_sound raw x_high h = ground (arith, eq_str_sound raw (text "xhigh"))
effort_sound raw max h = ground (arith, eq_str_sound raw (text "max"))

mode_sound : (raw : Str) (m : PermissionMode) → mode_from_str raw ≡ ok m → raw ≡ mode_cli_value m
unfolding mode_from_str mode_cli_value
mode_sound raw accept_edits h = ground (arith, eq_str_sound raw (text "acceptEdits"))
mode_sound raw bypass_permissions h = ground (arith, eq_str_sound raw (text "bypassPermissions"))

-- A permission mode is accepted from exactly the word that the command line gets for it, and an
-- effort level too.
pub cli_values_exact :
    (raw : Str) (m : PermissionMode) (e : Effort)
    → ((mode_from_str raw ≡ ok m) ↔ (raw ≡ mode_cli_value m))
      × ((effort_from_str raw ≡ ok e) ↔ (raw ≡ effort_cli_value e))
cli_values_exact raw m e = (
  (mode_sound raw m, λ h. ap mode_from_str h ∙ mode_from_str-cli_value m),
  (effort_sound raw e, λ h. ap effort_from_str h ∙ effort_from_str-cli_value e),
)

prompt_args-split :
    (before after : List Str) (p : Str)
    → prompt_args (before ++ p ∷ after)
      ≡ text "--append-system-prompt" ∷ join blank_line (before ++ p ∷ after) ∷ []
prompt_args-split [] after p = refl
prompt_args-split (q ∷ before) after p = refl

system_prompt-split :
    (c : ClaudeConfig) (r : Requester) (qbo : Option QboJobAccess)
    → system_prompt c (some r) qbo
      ≡ (if is_some c.jobctl_mcp
          then (if is_some c.agent_database_url then db_system_prompt ∷ [] else [])
          else [])
        ++ requester_system_prompt r ∷ qbo_prompts qbo (some r) c.jobctl_mcp
unfolding system_prompt
system_prompt-split c r qbo = refl

-- What follows the isolation rule.
rules_of : Requester → Str
rules_of r =
    blank_line
    ++ (identity r.user_id r.company_id
        ++ (blank_line
            ++ (if r.is_admin then admin_rule r.company_id else non_admin_restriction r.user_id)))

-- What stands before the restriction of a requester who is no admin.
opening_of : Requester → Str
opening_of r =
    company_restriction r.company_id
    ++ (blank_line ++ (identity r.user_id r.company_id ++ blank_line))

rules_of_lem :
    (r : Requester) → requester_system_prompt r ≡ company_restriction r.company_id ++ rules_of r
unfolding requester_system_prompt rules_of
rules_of_lem r = elim (Bool-cases r.is_admin) [ inl e ↦ rw e refl | inr e ↦ rw e refl ]

opening_of_lem :
    (r : Requester)
    → r.is_admin ≡ false
    → requester_system_prompt r ≡ opening_of r ++ non_admin_restriction r.user_id
unfolding requester_system_prompt opening_of
opening_of_lem r e = rw e (simp append_assoc)

-- Every job with a requester, in every configuration, gets a system prompt that has the requester's
-- rules as one of its parts; they open with the isolation rule for the requester's company, and for
-- a requester who is no admin they end with the restriction to that user's own data.
pub requester_prompted :
    (to_json : Value → Str) (show_f64 : ℕ → Str) (c : ClaudeConfig) (workspace : Str)
    (r : Requester) (qbo : Option QboJobAccess)
    → (before after : List Str) × (rules opening : Str) × ((command_with_qbo to_json show_f64 c
          workspace
          (some r)
          qbo).args
        ≡ base_args to_json show_f64 c
          ++ text "--append-system-prompt"
            ∷ join blank_line (before ++ requester_system_prompt r ∷ after)
            ∷ [])
      × (requester_system_prompt r ≡ company_restriction r.company_id ++ rules)
      × (r.is_admin ≡ false
          → requester_system_prompt r ≡ opening ++ non_admin_restriction r.user_id)
unfolding command_with_qbo
requester_prompted to_json show_f64 c workspace r qbo =
    let before : List Str =
      (if is_some c.jobctl_mcp
        then (if is_some c.agent_database_url then db_system_prompt ∷ [] else [])
        else []) in
    let after : List Str = qbo_prompts qbo (some r) c.jobctl_mcp in
    (
      before,
      after,
      rules_of r,
      opening_of r,
      ap (λ ps. base_args to_json show_f64 c ++ ps)
          (ap prompt_args (system_prompt-split c r qbo)
            ∙ prompt_args-split before after (requester_system_prompt r)),
      rules_of_lem r,
      opening_of_lem r,
    )
