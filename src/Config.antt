-- ===== src/Config.antt =====
-- src/config.rs: the configuration that is read from the environment. The readers of floats and socket
-- addresses, and std's reasons for refusing a text, are parameters.
pub mod Reading
use claude_job_runner.Prelude.{
  ℕ, ◌^◌, ◌-◌, Bool, true, false, not, Option, none, some, List, [], ◌∷◌, map, filter, Str, text,
  trim, is_empty, eq_str, split, ◌==◌, if◌then◌else◌, Result, ok, err, ◌>>=◌, map_err, ok_or,
  parse_bounded, unwrap_or, max_u64,
}
use claude_job_runner.Claude.{
  ClaudeConfig, PermissionMode, Effort, accept_edits, low, mode_from_str, effort_from_str,
}
use claude_job_runner.Broker.{QboConfig, from_env_value}

pub data ConfigError : Type 0 where
  missing : Str → ConfigError
  invalid : Str → Str → ConfigError

pub data VarError : Type 0 where
  not_present not_unicode : VarError

-- `env::var`
abbrev pub Env : Type 0
Env = Str → Result VarError Str

-- What the program uses of std besides: the type of a socket address and the reader of its texts, the
-- reader of a float, the reasons of refused texts, and the executable's own neighbour.
pub record Std : Type 1 where
  pub SocketAddr : Type 0
  pub parse_addr : Str → Result Str SocketAddr
  pub loopback_8080 : SocketAddr
  pub parse_f64 : Str → Result Str ℕ
  pub reason : Str → Str
  -- the path of `jobctl-mcp` beside the executable, if that can be told, and which paths are files
  pub neighbour : Option Str
  pub is_file : Str → Bool

pub record Config (std : Std) : Type 0 where
  pub database_url : Str
  pub db_max_connections : ℕ
  pub workspace_root : Str
  -- in seconds
  pub poll_interval : ℕ
  pub max_concurrent_jobs : ℕ
  pub http_addr : std.SocketAddr
  pub requeue_pending_on_start : Bool
  pub claude : ClaudeConfig
  pub qbo : Option QboConfig

unfoldable pub raw_of : Str → Result VarError Str → Result ConfigError (Option Str)
unfolding trim
raw_of name (ok value) = if is_empty (trim value) then ok none else ok (some value)
raw_of name (err not_present) = ok none
raw_of name (err not_unicode) = err (invalid name (text "not valid unicode"))

-- What `raw` gives for each name.
abbrev pub Raw : Type 0
Raw = Str → Result ConfigError (Option Str)

unfoldable pub raw : Env → Raw
unfolding raw_of
raw env name = raw_of name (env name)

abbrev pub max_u32 : ℕ
max_u32 = 2 ^ 32 - 1

-- `FromStr` of a text, an unsigned number, a `NonZero` one and a flag.
abbrev pub Reader : Type 0 → Type 0
Reader A = Str → Result Str A

unfoldable pub unsigned : ℕ → Str → Option ℕ
unfolding parse_bounded
unsigned bound [] = none
unsigned bound (c ∷ s) = if c == b'+' then parse_bounded bound s else parse_bounded bound (c ∷ s)

unfoldable pub non_zero : Option ℕ → Option ℕ
non_zero none = none
non_zero (some n) = if n == 0 then none else some n

unfoldable pub flag : Str → Option Bool
flag s =
    if eq_str s (text "true")
    then some true
    else if eq_str s (text "false")
    then some false
    else none

abbrev pub read_text : Reader Str
read_text s = ok s

module _ (std : Std) where
  unfoldable pub read_number : ℕ → Reader ℕ
  unfolding unsigned
  read_number bound s = ok_or (unsigned bound s) (std.reason s)

  unfoldable pub read_non_zero : ℕ → Reader ℕ
  unfolding unsigned non_zero
  read_non_zero bound s = ok_or (non_zero (unsigned bound s)) (std.reason s)

  unfoldable pub read_flag : Reader Bool
  unfolding flag
  read_flag s = ok_or (flag s) (std.reason s)

module _ {A : Type 0} (read : Reader A) where
  unfoldable pub optional_of : Str → Result ConfigError (Option Str) → Result ConfigError (Option A)
  unfolding trim
  optional_of name (err e) = err e
  optional_of name (ok none) = ok none
  optional_of name (ok (some value)) = do
    a ← map_err (invalid name) (read (trim value))
    ok (some a)

  unfoldable pub optional : Raw → Str → Result ConfigError (Option A)
  unfolding optional_of
  optional r name = optional_of name (r name)

unfoldable pub required : Raw → Str → Result ConfigError Str
required r name = do value ← r name; ok_or value (missing name)

abbrev pub comma : ℕ
comma = 0x2c

unfoldable pub list_of : Option Str → List Str
unfolding split trim
list_of none = []
list_of (some value) = filter (λ item. not (is_empty item)) (map trim (split comma value))

unfoldable pub list : Raw → Str → Result ConfigError (List Str)
unfolding list_of
list r name = do value ← r name; ok (list_of value)

unfoldable pub qbo_of : Raw → Option Str → Result ConfigError (Option QboConfig)
unfolding from_env_value
qbo_of r none = ok none
qbo_of r (some key) = do
  client_id ← r (text "QBO_CLIENT_ID")
  client_secret ← r (text "QBO_CLIENT_SECRET")
  environment ← r (text "QBO_ENV")
  ok (
      some (record {
        aes_key_hex = key;
        client_id = client_id;
        client_secret = client_secret;
        environment = from_env_value (unwrap_or environment []);
      }))

unfoldable pub qbo : Raw → Result ConfigError (Option QboConfig)
unfolding qbo_of
qbo r = do key ← r (text "AES_KEY"); qbo_of r key

module _ (std : Std) where
  abbrev pub file_at : Option Str → Option Str
  file_at none = none
  file_at (some path) = if std.is_file path then some path else none

  abbrev pub mcp_or : Option Str → Option Str
  mcp_or none = file_at std.neighbour
  mcp_or (some path) = some path

  unfoldable pub jobctl_mcp : Raw → Result ConfigError (Option Str)
  unfolding optional
  jobctl_mcp r = do path ← optional read_text r (text "JOBCTL_MCP_BIN"); ok (mcp_or path)

  unfoldable pub claude_from : Raw → Result ConfigError ClaudeConfig
  unfolding optional list read_number read_flag jobctl_mcp mode_from_str effort_from_str
  claude_from r = do
    binary ← optional read_text r (text "CLAUDE_BIN")
    model ← optional read_text r (text "CLAUDE_MODEL")
    max_turns ← optional (read_number std max_u32) r (text "CLAUDE_MAX_TURNS")
    max_budget ← optional std.parse_f64 r (text "CLAUDE_MAX_BUDGET_USD")
    timeout ← optional (read_number std max_u64) r (text "CLAUDE_TIMEOUT_SECS")
    mode ← optional mode_from_str r (text "CLAUDE_PERMISSION_MODE")
    effort ← optional effort_from_str r (text "CLAUDE_EFFORT")
    domains ← list r (text "CLAUDE_ALLOWED_DOMAINS")
    persist ← optional (read_flag std) r (text "CLAUDE_PERSIST_SESSIONS")
    config_dir ← optional read_text r (text "CLAUDE_CONFIG_DIR")
    mcp_config ← optional read_text r (text "CLAUDE_MCP_CONFIG")
    mcp ← jobctl_mcp r
    agent_url ← optional read_text r (text "AGENT_DATABASE_URL")
    ok (record {
      binary = unwrap_or binary (text "claude");
      model = some (unwrap_or model (text "opus"));
      max_turns = unwrap_or max_turns 50;
      max_budget_usd = max_budget;
      timeout = unwrap_or timeout 1800;
      permission_mode = unwrap_or mode accept_edits;
      effort = unwrap_or effort low;
      allowed_domains = domains;
      persist_sessions = unwrap_or persist false;
      config_dir = config_dir;
      mcp_config = mcp_config;
      jobctl_mcp = mcp;
      agent_database_url = agent_url;
    })

  unfoldable pub config_from : Raw → Result ConfigError (Config std)
  unfolding claude_from required optional read_number read_non_zero read_flag qbo
  config_from r = do
    claude ← claude_from r
    database_url ← required r (text "DATABASE_URL")
    db_max ← optional (read_number std max_u32) r (text "DB_MAX_CONNECTIONS")
    root ← optional read_text r (text "WORKSPACE_ROOT")
    poll ← optional (read_number std max_u64) r (text "POLL_INTERVAL_SECS")
    jobs ← optional (read_non_zero std max_u64) r (text "MAX_CONCURRENT_JOBS")
    addr ← optional std.parse_addr r (text "HTTP_ADDR")
    requeue ← optional (read_flag std) r (text "REQUEUE_PENDING_ON_START")
    quickbooks ← qbo r
    ok (record {
      database_url = database_url;
      db_max_connections = unwrap_or db_max 5;
      workspace_root = unwrap_or root (text "workspaces");
      poll_interval = unwrap_or poll 5;
      max_concurrent_jobs = unwrap_or jobs 1;
      http_addr = unwrap_or addr std.loopback_8080;
      requeue_pending_on_start = unwrap_or requeue true;
      claude = claude;
      qbo = quickbooks;
    })

  -- `Config::from_env`
  unfoldable pub from_env : Env → Result ConfigError (Config std)
  unfolding config_from raw
  from_env env = config_from (raw env)
