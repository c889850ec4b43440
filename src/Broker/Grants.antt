-- ===== src/Broker/Grants.antt =====
-- src/qbo.rs: what it means that a job was given a token rightly.
use claude_job_runner.Prelude.{
  ℕ, ℤ, ◌≤ℤ◌, ◌<ℤ◌, pos, ◌+ℤ◌, ◌-ℤ◌, wrap_i64, true, false, some, List, ◌≡◌, ◌⊎◌, Str, is_empty,
  bytes, Result, ok, err,
}
use claude_job_runner.Store.Exec.{DbError, late}
use claude_job_runner.Broker.{
  api_base, QboError, QboJobAccess, connected, unavailable, CompanyRow, TokenSet,
}
use claude_job_runner.Broker.Crypto.{Cipher, decrypt, encrypt}
use claude_job_runner.Broker.Refresh.{QboBroker, Circumstances, to_i64, unix_now}
use claude_job_runner.Broker.Decide.{
  Table, Connection, lookup, replace_row, realm_of, stored_connection,
}
use claude_job_runner.Broker.Renewed.{FromIntuit}

module _ (c : Cipher) where
  -- The tables hold a token for a company: it is switched on and connected to a realm, and its stored
  -- access token is the encrypted one, with this expiry.
  pub record Holds (key : List ℕ) (id : ℤ) (realm token : Str) (expires : ℤ) (table : Table)
      : Type 0 where
    pub row : CompanyRow
    pub connection : Connection
    pub found : lookup id table ≡ some row
    pub on : row.enabled ≡ true
    pub stored : stored_connection row ≡ some connection
    pub in_realm : realm_of row.realm_id ≡ realm
    pub not_blank : is_empty realm ≡ false
    pub reads : decrypt c key connection.access_blob ≡ some token
    pub until : connection.access_expires ≡ expires

  -- The token was stored before, and lasts as long as the job may.
  abbrev pub Kept : Circumstances → QboBroker → Table → ℤ → Table → Type 0
  Kept o b table expires after =
      (to_i64 b.valid_for ≤ℤ wrap_i64 (expires -ℤ unix_now o.now)) × (after ≡ table)

  -- Intuit just gave the token for the company's stored refresh token: what was stored did not last as
  -- long as the job may, though its refresh token had not expired; the new row, which replaces the old
  -- one, has the new refresh token, encrypted, with the expiry that Intuit gave.
  pub record Refreshed (o : Circumstances) (b : QboBroker) (id : ℤ) (table : Table) (token : Str)
      (expires : ℤ) (after : Table) : Type 0 where
    pub old : CompanyRow
    pub new : CompanyRow
    pub connection : Connection
    pub tokens : TokenSet
    pub refreshed : Str
    pub was : lookup id table ≡ some old
    pub had : stored_connection old ≡ some connection
    pub too_short : wrap_i64 (connection.access_expires -ℤ unix_now o.now) <ℤ to_i64 b.valid_for
    pub renewable : wrap_i64 (unix_now o.now +ℤ pos 60) <ℤ connection.refresh_expires
    pub given : FromIntuit c o b old connection.refresh_blob tokens
    pub same_token : token ≡ tokens.access_token
    pub same_expiry : expires ≡ wrap_i64 (unix_now o.later +ℤ tokens.expires_in)
    pub replaced : after ≡ replace_row id new table
    pub rotated : new.refresh_token ≡ some (bytes refreshed)
    pub encrypted : encrypt c o.refresh_nonce b.key tokens.refresh_token ≡ ok refreshed
    pub until_then :
        new.refresh_expires
        ≡ some (wrap_i64 (unix_now o.later +ℤ tokens.x_refresh_token_expires_in))

  abbrev pub Granted :
      Circumstances → QboBroker → ℤ → Table → Result QboError QboJobAccess × Table → Type 0
  Granted o b id table (ok (connected realm token base), after) =
      (base ≡ api_base b.environment)
      × ((expires : ℤ) × (Holds b.key id realm token expires after
            × (Kept o b table expires after ⊎ Refreshed o b id table token expires after)))
  Granted o b id table (ok (unavailable reason), after) = after ≡ table
  Granted o b id table (err e, after) = (after ≡ table) ⊎ ((f : DbError) × (o.committed ≡ late f))
