-- ===== src/Start.antt =====
-- src/main.rs: `run`, up to the worker. It reads the configuration, opens the store, resets orphaned jobs,
-- sweeps the workspace root and builds the broker; the first error ends it.
pub mod Clean
use claude_job_runner.Prelude.{
  ℕ, ◌+◌, Bool, true, false, Option, none, some, List, Str, ltb, if◌then◌else◌, Result, ok, err,
  map_err, map_ok, max_u64,
}
use claude_job_runner.Store.{requeue_pending}
use claude_job_runner.Store.Exec.{StoreError, World, Query, pure, ◌>>=◌}
use claude_job_runner.Workspace.{Root, WorkspaceError, Listing, prepare, sweep}
use claude_job_runner.Broker.{QboConfig, QboError}
use claude_job_runner.Broker.Crypto.{Cipher}
use claude_job_runner.Broker.Refresh.{QboBroker, new}
use claude_job_runner.Config.{Std, Env, ConfigError, Config, from_env}

pub data StartError : Type 0 where
  bad_config : ConfigError → StartError
  bad_store : StoreError → StartError
  bad_workspace : WorkspaceError → StartError
  bad_broker : QboError → StartError
  -- the sum of two durations overflows
  panicked : StartError

-- The outcomes of the system's calls: the connection, the making, resolving and listing of the root,
-- and the HTTP client.
pub record Outcomes : Type 0 where
  pub connected : Option StoreError
  pub made : Option Str
  pub resolved : Result Str Str
  pub listed : Listing
  pub client : Result Str (Unit {0})

-- What the worker is made of.
pub record Started (std : Std) : Type 0 where
  pub config : Config std
  pub root : Str
  pub broker : Option QboBroker

-- `Duration::from_mins(5)`
abbrev pub slack : ℕ
slack = 300

unfoldable pub requeue_if : Bool → Query (Unit {0})
unfolding requeue_pending ◌>>=◌
requeue_if false = pure tt
requeue_if true = do requeued ← requeue_pending; pure tt

module _ (c : Cipher) (std : Std) (o : Outcomes) where
  unfoldable pub broker_for :
      Option QboConfig → Option Str → ℕ → Result StartError (Option QboBroker)
  unfolding new
  broker_for (some qbo) (some mcp) timeout =
      if ltb max_u64 (timeout + slack)
      then err panicked
      else map_err bad_broker (map_ok some (new c o.client qbo (timeout + slack)))
  broker_for (some qbo) none timeout = ok none
  broker_for none mcp timeout = ok none

  unfoldable pub with_broker :
      Config std → Str → Result StartError (Option QboBroker) → Result StartError (Started std)
  with_broker config root (err e) = err e
  with_broker config root (ok broker) =
      ok (record { config = config; root = root; broker = broker })

  unfoldable pub swept :
      Config std → Str → Result WorkspaceError ℕ × Root → Result StartError (Started std) × Root
  unfolding with_broker broker_for
  swept config path (err e, root) = (err (bad_workspace e), root)
  swept config path (ok n, root) = (
    with_broker config path (broker_for config.qbo config.claude.jobctl_mcp config.claude.timeout),
    root,
  )

  unfoldable pub prepared :
      Config std → Result WorkspaceError Str → Root → Result StartError (Started std) × Root
  unfolding swept sweep
  prepared config (err e) root = (err (bad_workspace e), root)
  prepared config (ok path) root = swept config path (sweep o.listed path root)

  abbrev pub State : Type 0
  State = World × Root

  abbrev pub beside :
      World → Result StartError (Started std) × Root → Result StartError (Started std) × State
  beside w (r, root) = (r, (w, root))

  unfoldable pub requeued :
      Config std
      → Result StoreError (Unit {0}) × World
      → Root
      → Result StartError (Started std) × State
  unfolding prepared prepare
  requeued config (err e, w) root = (err (bad_store e), (w, root))
  requeued config (ok _, w) root =
      beside w (prepared config (prepare o.made o.resolved config.workspace_root) root)

  unfoldable pub opened :
      Config std → Option StoreError → State → Result StartError (Started std) × State
  unfolding requeued requeue_if
  opened config (some e) state = (err (bad_store e), state)
  opened config none (w, root) = requeued config (requeue_if config.requeue_pending_on_start w) root

  unfoldable pub configured :
      Result ConfigError (Config std) → State → Result StartError (Started std) × State
  unfolding opened
  configured (err e) state = (err (bad_config e), state)
  configured (ok config) state = opened config o.connected state

  -- `run`, until the worker is spawned
  unfoldable pub set_up : Env → State → Result StartError (Started std) × State
  unfolding configured from_env
  set_up env state = configured (from_env std env) state
