-- ===== src/Broker/Decide.antt =====
-- src/qbo.rs: `access` and `try_access`. The table of companies is an association list; the row lock
-- keeps it as the SELECT found it.
use claude_job_runner.Prelude.{
  ℕ, ℤ, pos, ◌+ℤ◌, ◌-ℤ◌, leb_ℤ, eq_ℤ, wrap_i64, Bool, true, false, Option, none, some, List, [],
  ◌∷◌, if◌then◌else◌, Str, text, trim, is_empty, Result, ok, err, ◌>>=◌,
}
use claude_job_runner.Store.Exec.{Fault, fine, lost, late}
use claude_job_runner.Broker.{
  api_base, QboError, undecryptable, database, QboJobAccess, connected, unavailable, CompanyRow,
  TokenSet,
}
use claude_job_runner.Broker.Crypto.{Cipher, decrypt}
use claude_job_runner.Broker.Refresh.{QboBroker, Circumstances, to_i64, unix_now, stmt, renew}

abbrev pub Table : Type 0
Table = List (ℤ × CompanyRow)

unfoldable pub lookup : ℤ → Table → Option CompanyRow
lookup id [] = none
lookup id ((i, row) ∷ rows) = let others = lookup id rows in if eq_ℤ i id then some row else others

unfoldable pub replace_row : ℤ → CompanyRow → Table → Table
replace_row id row [] = []
replace_row id row ((i, old) ∷ rows) =
    let others = replace_row id row rows in
    if eq_ℤ i id then (i, row) ∷ others else (i, old) ∷ others

-- COMMIT, with the tables before the transaction and after it.
unfoldable pub commit : {A : Type 0} → Fault → A → Table → Table → Result QboError A × Table
commit fine a before after = (ok a, after)
commit (lost e) a before after = (err (database e), before)
commit (late e) a before after = (err (database e), after)

unfoldable pub connected_to : QboBroker → Str → Str → QboJobAccess
unfolding api_base
connected_to b realm token = connected realm token (api_base b.environment)

abbrev pub not_connected : QboJobAccess
not_connected = unavailable (text "QuickBooks is not connected for this company.")

abbrev pub turned_off : QboJobAccess
turned_off = unavailable (text "QuickBooks is turned off for this company.")

abbrev pub connection_expired : QboJobAccess
connection_expired =
    unavailable
      (text "The QuickBooks connection has expired; an admin needs to reconnect QuickBooks.")

abbrev pub realm_of : Option Str → Str
realm_of none = []
realm_of (some realm) = trim realm

-- The row's four columns where all are set.
pub record Connection : Type 0 where
  pub access_blob : List ℕ
  pub refresh_blob : List ℕ
  pub access_expires : ℤ
  pub refresh_expires : ℤ

unfoldable pub connection_of :
    Option (List ℕ) → Option (List ℕ) → Option ℤ → Option ℤ → Option Connection
connection_of (some a) (some r) (some ae) (some re) =
    some (record { access_blob = a; refresh_blob = r; access_expires = ae; refresh_expires = re })
connection_of _ _ _ _ = none

unfoldable pub stored_connection : CompanyRow → Option Connection
unfolding connection_of
stored_connection row =
    connection_of row.access_token row.refresh_token row.access_expires row.refresh_expires

-- The stored access token lasts as long as the job may.
unfoldable pub lasts : QboBroker → Circumstances → Connection → Bool
unfolding unix_now to_i64
lasts b o s = leb_ℤ (to_i64 b.valid_for) (wrap_i64 (s.access_expires -ℤ unix_now o.now))

unfoldable pub refresh_expired : Circumstances → Connection → Bool
unfolding unix_now
refresh_expired o s = leb_ℤ s.refresh_expires (wrap_i64 (unix_now o.now +ℤ pos 60))

module _ (c : Cipher) where
  unfoldable pub use_stored :
      Circumstances → QboBroker → Str → Table → Option Str → Result QboError QboJobAccess × Table
  unfolding commit connected_to
  use_stored o b realm table none = (err (undecryptable (text "access token")), table)
  use_stored o b realm table (some token) =
      commit o.committed (connected_to b realm token) table table

  unfoldable pub use_renewed :
      Circumstances
      → QboBroker
      → ℤ
      → Str
      → Table
      → Result QboError (TokenSet × CompanyRow)
      → Result QboError QboJobAccess × Table
  unfolding commit connected_to replace_row
  use_renewed o b id realm table (err e) = (err e, table)
  use_renewed o b id realm table (ok (tokens, row)) =
      commit o.committed (connected_to b realm tokens.access_token) table (replace_row id row table)

  unfoldable pub decide_connection :
      Circumstances
      → QboBroker
      → ℤ
      → Table
      → CompanyRow
      → Str
      → Connection
      → Result QboError QboJobAccess × Table
  unfolding lasts refresh_expired use_stored use_renewed decrypt renew
  decide_connection o b id table row realm s =
      if lasts b o s
      then use_stored o b realm table (decrypt c b.key s.access_blob)
      else if refresh_expired o s
      then (ok connection_expired, table)
      else use_renewed o b id realm table (renew c o b row s.refresh_blob)

  unfoldable pub decide_stored :
      Circumstances
      → QboBroker
      → ℤ
      → Table
      → CompanyRow
      → Option Connection
      → Result QboError QboJobAccess × Table
  unfolding decide_connection
  decide_stored o b id table row none = (ok not_connected, table)
  decide_stored o b id table row (some s) =
      let realm = realm_of row.realm_id in
      if is_empty realm
      then (ok not_connected, table)
      else decide_connection o b id table row realm s

  unfoldable pub decide_enabled :
      Circumstances
      → QboBroker
      → ℤ
      → Table
      → CompanyRow
      → Bool
      → Result QboError QboJobAccess × Table
  unfolding decide_stored stored_connection
  decide_enabled o b id table row false = (ok turned_off, table)
  decide_enabled o b id table row true = decide_stored o b id table row (stored_connection row)

  unfoldable pub decide :
      Circumstances
      → QboBroker
      → ℤ
      → Table
      → Option CompanyRow
      → Result QboError QboJobAccess × Table
  unfolding decide_enabled
  decide o b id table none = (ok not_connected, table)
  decide o b id table (some row) = decide_enabled o b id table row row.enabled

  unfoldable pub locked :
      Circumstances
      → QboBroker
      → ℤ
      → Table
      → Result QboError (Unit {0})
      → Result QboError QboJobAccess × Table
  unfolding decide lookup
  locked o b id table (err e) = (err e, table)
  locked o b id table (ok _) = decide o b id table (lookup id table)

  unfoldable pub try_access :
      Circumstances → QboBroker → ℤ → Table → Result QboError QboJobAccess × Table
  unfolding locked stmt
  try_access o b id table = locked o b id table (stmt o.begun >>= λ _. stmt o.selected)

  abbrev pub unreachable : QboJobAccess
  unreachable = unavailable (text "QuickBooks could not be reached right now; try again later.")

  abbrev pub absorb : Result QboError QboJobAccess × Table → QboJobAccess × Table
  absorb (ok access, table) = (access, table)
  absorb (err e, table) = (unreachable, table)

  unfoldable pub access : Circumstances → QboBroker → ℤ → Table → QboJobAccess × Table
  unfolding try_access
  access o b id table = absorb (try_access o b id table)
