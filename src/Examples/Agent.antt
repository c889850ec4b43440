-- ===== src/Examples/Agent.antt =====
-- The theorems on what a job's process gets, at concrete configurations.
use claude_job_runner.Prelude.{
  ℕ, ◌≡◌, ◌⊎◌, true, false, Option, none, some, List, [], ◌∷◌, ◌++◌, join, Str, text, show_ℤ, ok,
  ◌↔◌, if◌then◌else◌,
}
use claude_job_runner.Json.{Value}
use claude_job_runner.Job.{Requester}
use claude_job_runner.Broker.{QboJobAccess, connected}
use claude_job_runner.Claude.{
  ClaudeConfig, accept_edits, low, mode_cli_value, mode_from_str, effort_cli_value, effort_from_str,
  base_args, command_with_qbo,
}
use claude_job_runner.Claude.Prompts.{
  requester_system_prompt, company_restriction, non_admin_restriction, blank_line,
}
use claude_job_runner.Claude.Environment.{sees, is_granted, secrets_hidden, qbo_granted}
use claude_job_runner.Claude.Arguments.{requester_prompted, cli_values_exact}
use claude_job_runner.Examples.{asker}

abbrev config : ClaudeConfig
config = record {
  binary = text "claude";
  model = none;
  max_turns = 50;
  max_budget_usd = none;
  timeout = 1800;
  permission_mode = accept_edits;
  effort = low;
  allowed_domains = text "example.com" ∷ [];
  persist_sessions = false;
  config_dir = none;
  mcp_config = none;
  jobctl_mcp = some (text "/bin/jobctl-mcp");
  agent_database_url = some (text "mysql://agent@db/crm");
}

abbrev account : Option QboJobAccess
account = some (connected (text "12") (text "token") (text "https://quickbooks"))

-- Every variable of the runner is set.
abbrev inherited : Str → Option Str
inherited name = some (text "secret")

secrets_hidden_example :
    (sees config (some asker) account inherited (text "AES_KEY") ≡ none)
    × (sees config (some asker) account inherited (text "QBO_CLIENT_ID") ≡ none)
    × (sees config (some asker) account inherited (text "QBO_CLIENT_SECRET") ≡ none)
    × (sees config (some asker) account inherited (text "CLAUDECODE") ≡ none)
    × (sees config (some asker) account inherited (text "DATABASE_URL")
        ≡ some (text "mysql://agent@db/crm"))
secrets_hidden_example = secrets_hidden config (some asker) account inherited

qbo_granted_example :
    ((is_granted config (some asker) account ≡ true)
      × ((realm : Str) × (token : Str) × (base : Str) × (r : Requester) × (account
            ≡ some (connected realm token base))
          × (some asker ≡ some r)
          × (sees config (some asker) account inherited (text "QBO_ACCESS_TOKEN") ≡ some token)
          × (sees config (some asker) account inherited (text "QBO_REALM_ID") ≡ some realm)
          × (sees config (some asker) account inherited (text "QBO_API_BASE") ≡ some base)
          × (sees config (some asker) account inherited (text "QBO_COMPANY_ID")
              ≡ some (show_ℤ r.company_id))
          × (sees config (some asker) account inherited (text "QBO_USER_ID")
              ≡ some (show_ℤ r.user_id))
          × (sees config (some asker) account inherited (text "QBO_REQUESTER_IS_ADMIN")
              ≡ some (if r.is_admin then text "1" else text "0"))))
    ⊎ ((is_granted config (some asker) account ≡ false)
        × (sees config (some asker) account inherited (text "QBO_ACCESS_TOKEN") ≡ none)
        × (sees config (some asker) account inherited (text "QBO_REALM_ID") ≡ none)
        × (sees config (some asker) account inherited (text "QBO_API_BASE") ≡ none)
        × (sees config (some asker) account inherited (text "QBO_COMPANY_ID") ≡ none)
        × (sees config (some asker) account inherited (text "QBO_USER_ID") ≡ none)
        × (sees config (some asker) account inherited (text "QBO_REQUESTER_IS_ADMIN") ≡ none))
qbo_granted_example = qbo_granted config (some asker) account inherited

abbrev print : Value → Str
print v = text "{}"

abbrev show_f64 : ℕ → Str
show_f64 b = text "1.5"

requester_prompted_example :
    (before after : List Str) × (rules opening : Str) × ((command_with_qbo print show_f64 config
        (text "/w")
        (some asker)
        account).args
      ≡ base_args print show_f64 config
        ++ text "--append-system-prompt"
          ∷ join blank_line (before ++ requester_system_prompt asker ∷ after)
          ∷ [])
    × (requester_system_prompt asker ≡ company_restriction asker.company_id ++ rules)
    × (asker.is_admin ≡ false
        → requester_system_prompt asker ≡ opening ++ non_admin_restriction asker.user_id)
requester_prompted_example = requester_prompted print show_f64 config (text "/w") asker account

cli_values_exact_example :
    ((mode_from_str (text "acceptEdits") ≡ ok accept_edits)
      ↔ (text "acceptEdits" ≡ mode_cli_value accept_edits))
    × ((effort_from_str (text "acceptEdits") ≡ ok low)
        ↔ (text "acceptEdits" ≡ effort_cli_value low))
cli_values_exact_example = cli_values_exact (text "acceptEdits") accept_edits low
