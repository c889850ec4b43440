-- ===== src/Claude.antt =====
-- src/claude.rs: the command line, the environment and the outcome of one Claude Code session. How
-- `serde_json` prints a document and how Rust prints an `f64` are parameters.
pub mod Prompts
pub mod Environment
pub mod Arguments
pub mod Run
use claude_job_runner.Prelude.{
  ℕ, Bool, true, false, Option, none, some, List, [], ◌∷◌, ◌++◌, map, Str, text, join, eq_str,
  is_some, is_empty, if◌then◌else◌, show_ℕ, show_ℤ, Result, ok, err,
}
use claude_job_runner.Json.{Value, bool, str, array, object, from_list, from_fields}
use claude_job_runner.Job.{Requester}
use claude_job_runner.Broker.{QboJobAccess, connected, unavailable}
use claude_job_runner.Claude.Prompts.{
  db_system_prompt, qbo_system_prompt, requester_system_prompt, unavailable_prompt, blank_line,
}

abbrev pub jobctl_mcp_name : Str
jobctl_mcp_name = text "jobctl"

abbrev pub runner_only_env : List Str
runner_only_env = text "AES_KEY" ∷ text "QBO_CLIENT_ID" ∷ text "QBO_CLIENT_SECRET" ∷ []

abbrev pub qbo_job_env : List Str
qbo_job_env =
    text "QBO_ACCESS_TOKEN"
    ∷ text "QBO_REALM_ID"
    ∷ text "QBO_API_BASE"
    ∷ text "QBO_COMPANY_ID"
    ∷ text "QBO_USER_ID"
    ∷ text "QBO_REQUESTER_IS_ADMIN"
    ∷ []

pub data PermissionMode : Type 0 where
  accept_edits bypass_permissions : PermissionMode

unfoldable pub mode_cli_value : PermissionMode → Str
mode_cli_value accept_edits = text "acceptEdits"
mode_cli_value bypass_permissions = text "bypassPermissions"

-- `PermissionMode::from_str`; the error is the text itself.
unfoldable pub mode_from_str : Str → Result Str PermissionMode
mode_from_str raw =
    if eq_str raw (text "acceptEdits")
    then ok accept_edits
    else if eq_str raw (text "bypassPermissions")
    then ok bypass_permissions
    else err raw

pub data Effort : Type 0 where
  low medium high x_high max : Effort

unfoldable pub effort_cli_value : Effort → Str
effort_cli_value low = text "low"
effort_cli_value medium = text "medium"
effort_cli_value high = text "high"
effort_cli_value x_high = text "xhigh"
effort_cli_value max = text "max"

-- `Effort::from_str`
unfoldable pub effort_from_str : Str → Result Str Effort
effort_from_str raw =
    if eq_str raw (text "low")
    then ok low
    else if eq_str raw (text "medium")
    then ok medium
    else if eq_str raw (text "high")
    then ok high
    else if eq_str raw (text "xhigh")
    then ok x_high
    else if eq_str raw (text "max")
    then ok max
    else err raw

-- A budget is the 64 bits of an `f64`, a timeout is in seconds, and paths are texts.
pub record ClaudeConfig : Type 0 where
  pub binary : Str
  pub model : Option Str
  pub max_turns : ℕ
  pub max_budget_usd : Option ℕ
  pub timeout : ℕ
  pub permission_mode : PermissionMode
  pub effort : Effort
  pub allowed_domains : List Str
  pub persist_sessions : Bool
  pub config_dir : Option Str
  pub mcp_config : Option Str
  pub jobctl_mcp : Option Str
  pub agent_database_url : Option Str

-- `ClaudeConfig::default`
unfoldable pub default_config : ClaudeConfig
default_config = record {
  binary = text "claude";
  model = none;
  max_turns = 50;
  max_budget_usd = none;
  timeout = 1800;
  permission_mode = accept_edits;
  effort = low;
  allowed_domains = [];
  persist_sessions = false;
  config_dir = none;
  mcp_config = none;
  jobctl_mcp = none;
  agent_database_url = none;
}

-- One call of `env` or `env_remove`.
pub data EnvOp : Type 0 where
  env : Str → Str → EnvOp
  env_remove : Str → EnvOp

-- `std::process::Command`
pub record Command : Type 0 where
  pub program : Str
  pub current_dir : Str
  pub args : List Str
  pub env_ops : List EnvOp

-- What the child sees of a variable: the last call about it, else what the runner has.
unfoldable pub child_env : List EnvOp → (Str → Option Str) → Str → Option Str
child_env [] inherited name = inherited name
child_env (env key value ∷ ops) inherited name =
    child_env ops (λ k. if eq_str k key then some value else inherited k) name
child_env (env_remove key ∷ ops) inherited name =
    child_env ops (λ k. if eq_str k key then none else inherited k) name

-- The `--settings` document.
unfoldable pub settings : ClaudeConfig → Value
settings c = object (
    from_fields (
      (
        text "sandbox",
        object (
            from_fields (
              (text "enabled", bool true)
              ∷ (text "autoAllowBashIfSandboxed", bool true)
              ∷ (text "allowUnsandboxedCommands", bool false)
              ∷ (text "failIfUnavailable", bool true)
              ∷ (
                text "network",
                object (
                    from_fields (
                      (text "allowedDomains", array (from_list (map str c.allowed_domains))) ∷ [])),
              )
              ∷ [])),
      )
      ∷ (
        text "permissions",
        object (
            from_fields (
              (text "defaultMode", str (mode_cli_value c.permission_mode))
              ∷ (
                text "allow",
                array (
                    from_list (
                      str (text "Read(//**)")
                      ∷ (if is_some c.jobctl_mcp
                          then str (text "mcp__" ++ jobctl_mcp_name) ∷ []
                          else []))),
              )
              ∷ [])),
      )
      ∷ []))

-- The `mcpServers` document for the `jobctl-mcp` executable.
unfoldable pub mcp_servers : Str → Value
mcp_servers jobctl = object (
    from_fields (
      (
        text "mcpServers",
        object (
            from_fields (
              (
                jobctl_mcp_name,
                object (
                    from_fields
                      ((text "command", str jobctl) ∷ (text "args", array (from_list [])) ∷ [])),
              )
              ∷ [])),
      )
      ∷ []))

abbrev pub option_args {ℓ} : {A : Type ℓ} → Str → (A → Str) → Option A → List Str
option_args name show none = []
option_args name show (some a) = name ∷ show a ∷ []

-- `args(["--mcp-config", ...])` for the job's own server, or for none at all.
unfoldable pub mcp_args : (Value → Str) → Option Str → Option Str → List Str
mcp_args to_json (some jobctl) mcp_config = text "--mcp-config" ∷ to_json (mcp_servers jobctl) ∷ []
mcp_args to_json none none = text "--mcp-config" ∷ text "{\"mcpServers\":{}}" ∷ []
mcp_args to_json none (some path) = []

unfoldable pub qbo_ops : Option QboJobAccess → Option Requester → Option Str → List EnvOp
qbo_ops (some (connected realm_id token base)) (some r) (some jobctl) =
    env (text "QBO_ACCESS_TOKEN") token
    ∷ env (text "QBO_REALM_ID") realm_id
    ∷ env (text "QBO_API_BASE") base
    ∷ env (text "QBO_COMPANY_ID") (show_ℤ r.company_id)
    ∷ env (text "QBO_USER_ID") (show_ℤ r.user_id)
    ∷ env (text "QBO_REQUESTER_IS_ADMIN") (if r.is_admin then text "1" else text "0")
    ∷ []
qbo_ops _ _ _ = []

unfoldable pub qbo_prompts : Option QboJobAccess → Option Requester → Option Str → List Str
qbo_prompts (some (connected realm_id token base)) (some r) (some jobctl) =
    qbo_system_prompt r.is_admin ∷ []
qbo_prompts (some (unavailable reason)) (some r) (some jobctl) = unavailable_prompt reason ∷ []
qbo_prompts _ _ _ = []

unfoldable pub requester_prompts : Option Requester → List Str
requester_prompts none = []
requester_prompts (some r) = requester_system_prompt r ∷ []

-- The parts of the appended system prompt, in order.
unfoldable pub system_prompt : ClaudeConfig → Option Requester → Option QboJobAccess → List Str
unfolding requester_prompts qbo_prompts
system_prompt c requester qbo =
    (if is_some c.jobctl_mcp
      then (if is_some c.agent_database_url then db_system_prompt ∷ [] else [])
      else [])
    ++ (requester_prompts requester ++ qbo_prompts qbo requester c.jobctl_mcp)

abbrev pub prompt_args : List Str → List Str
prompt_args [] = []
prompt_args (p ∷ ps) = text "--append-system-prompt" ∷ join blank_line (p ∷ ps) ∷ []

abbrev pub set_if_some : Str → Option Str → List EnvOp
set_if_some name none = []
set_if_some name (some value) = env name value ∷ []

-- The calls of `env` and `env_remove`, in order.
unfoldable pub env_calls : ClaudeConfig → Option Requester → Option QboJobAccess → List EnvOp
unfolding qbo_ops
env_calls c requester qbo =
    map env_remove (runner_only_env ++ qbo_job_env)
    ++ (qbo_ops qbo requester c.jobctl_mcp
        ++ (env_remove (text "CLAUDECODE")
            ∷ env (text "DISABLE_AUTOUPDATER") (text "1")
            ∷ env (text "CLAUDE_CODE_DISABLE_NONESSENTIAL_TRAFFIC") (text "1")
            ∷ (set_if_some (text "CLAUDE_CONFIG_DIR") c.config_dir
                ++ (env_remove (text "DATABASE_URL")
                    ∷ set_if_some (text "DATABASE_URL") c.agent_database_url))))

module _ (to_json : Value → Str) (show_f64 : ℕ → Str) where
  -- `settings_json`
  unfoldable pub settings_json : ClaudeConfig → Str
  settings_json c = to_json (settings c)

  -- The arguments before the system prompt.
  unfoldable pub base_args : ClaudeConfig → List Str
  unfolding mcp_args settings_json
  base_args c =
      text "--print"
      ∷ text "--output-format"
      ∷ text "json"
      ∷ text "--permission-mode"
      ∷ mode_cli_value c.permission_mode
      ∷ text "--effort"
      ∷ effort_cli_value c.effort
      ∷ text "--max-turns"
      ∷ show_ℕ c.max_turns
      ∷ text "--settings"
      ∷ settings_json c
      ∷ (option_args (text "--model") (λ m. m) c.model
          ++ (option_args (text "--max-budget-usd") show_f64 c.max_budget_usd
              ++ ((if c.persist_sessions then [] else text "--no-session-persistence" ∷ [])
                  ++ (option_args (text "--mcp-config") (λ p. p) c.mcp_config
                      ++ (mcp_args to_json c.jobctl_mcp c.mcp_config
                          ++ text "--strict-mcp-config" ∷ [])))))

  -- `command_with_qbo`
  unfoldable pub command_with_qbo :
      ClaudeConfig → Str → Option Requester → Option QboJobAccess → Command
  unfolding base_args
  command_with_qbo c workspace requester qbo = record {
    program = c.binary;
    current_dir = workspace;
    args = base_args c ++ prompt_args (system_prompt c requester qbo);
    env_ops = env_calls c requester qbo;
  }

  -- `command`
  unfoldable pub command : ClaudeConfig → Str → Option Requester → Command
  unfolding command_with_qbo
  command c workspace requester = command_with_qbo c workspace requester none
