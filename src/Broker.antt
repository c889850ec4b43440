-- ===== src/Broker.antt =====
-- src/qbo.rs: the QuickBooks broker. Its types; the tokens' encryption is in Crypto, their
-- refresh in Refresh, the decision on a job's access in Decide.
pub mod Crypto
pub mod Tokens
pub mod Refresh
pub mod Decide
pub mod Renewed
pub mod Grants
pub mod Granted
pub mod Again
pub mod Isolated
use claude_job_runner.Prelude.{Bool, ℤ, ℕ, List, Option, Str, text, trim, eq_str, if◌then◌else◌}
use claude_job_runner.Store.Exec.{DbError}

pub data QboEnvironment : Type 0 where
  sandbox production : QboEnvironment

-- `from_env_value`
unfoldable pub from_env_value : Str → QboEnvironment
from_env_value raw = if eq_str (trim raw) (text "production") then production else sandbox

unfoldable pub api_base : QboEnvironment → Str
api_base sandbox = text "https://sandbox-quickbooks.api.intuit.com"
api_base production = text "https://quickbooks.api.intuit.com"

pub record QboConfig : Type 0 where
  pub aes_key_hex : Str
  pub client_id : Option Str
  pub client_secret : Option Str
  pub environment : QboEnvironment

pub data QboError : Type 0 where
  config : Str → QboError
  -- what could not be decrypted
  undecryptable : Str → QboError
  database : DbError → QboError
  http : Str → QboError

pub data QboJobAccess : Type 0 where
  -- realm id, access token, base URL
  connected : Str → Str → Str → QboJobAccess
  unavailable : Str → QboJobAccess

-- The columns of `company` that the broker reads.
pub record CompanyRow : Type 0 where
  pub enabled : Bool
  pub realm_id : Option Str
  pub access_token : Option (List ℕ)
  pub refresh_token : Option (List ℕ)
  pub access_expires : Option ℤ
  pub refresh_expires : Option ℤ
  pub client_id : Option (List ℕ)
  pub client_secret : Option (List ℕ)

pub record TokenSet : Type 0 where
  pub access_token : Str
  pub refresh_token : Str
  pub expires_in : ℤ
  pub x_refresh_token_expires_in : ℤ
