-- ===== src/Broker/Granted.antt =====
-- src/qbo.rs: what a job is given, and what the tables hold then.
use claude_job_runner.Prelude.{
  AllOk, ℤ, ap, ◌+ℤ◌, eq_ℤ, wrap_i64, Bool, true, false, Option, none, some, [], ◌∷◌, ◌≡◌, inl, inr,
  refl, sym, subst, is_empty, bytes, Result, ok, err, ◌>>=◌, Bool-cases, Option-cases, arith,
}
use claude_job_runner.Store.Exec.{Fault, fine, lost, late}
use claude_job_runner.Broker.{QboError, QboJobAccess, CompanyRow, TokenSet}
use claude_job_runner.Broker.Crypto.{Cipher, CipherLaws, decrypt}
use claude_job_runner.Broker.Refresh.{QboBroker, Circumstances, unix_now, stmt, renewed_row, renew}
use claude_job_runner.Broker.Decide.{
  Table, Connection, lookup, replace_row, commit, connected_to, realm_of, connection_of,
  stored_connection, lasts, refresh_expired, use_stored, use_renewed, decide_connection,
  decide_stored, decide_enabled, decide, locked, try_access, access,
}
use claude_job_runner.Broker.Renewed.{IsNonce, ReadsTexts, RenewedRow, renew-Row}
use claude_job_runner.Broker.Grants.{Holds, Refreshed, Granted}

lookup-replace_row :
    (id : ℤ) (old row : CompanyRow) (table : Table)
    → lookup id table ≡ some old
    → lookup id (replace_row id row table) ≡ some row
unfolding lookup replace_row
lookup-replace_row id old row [] h = absurd (ground arith)
lookup-replace_row id old row ((i, r) ∷ rows) h = elim (Bool-cases (eq_ℤ i id)) [
  | inl e ↦ rw e (rw e refl)
  | inr e ↦ rw e (rw e (lookup-replace_row id old row rows (ground (arith, h, e))))
]

module _ (c : Cipher) where
  commit-Granted :
      (o : Circumstances) (b : QboBroker) (id : ℤ) (f : Fault) (a : QboJobAccess)
      (table after : Table)
      → o.committed ≡ f
      → Granted c o b id table (ok a, after)
      → Granted c o b id table (commit f a table after)
  unfolding commit
  commit-Granted o b id fine a table after e h = h
  commit-Granted o b id (lost f) a table after e h = inl refl
  commit-Granted o b id (late f) a table after e h = inr (f, e)

  module _ (laws : CipherLaws c) (o : Circumstances) (b : QboBroker) (id : ℤ) (table : Table)
      (texts : ReadsTexts o) (nonce : IsNonce o.access_nonce) where
    -- What the SELECT found, in a row that is switched on and connected.
    abbrev Seen : CompanyRow → Connection → Type 0
    Seen row s =
        (lookup id table ≡ some row)
        × ((row.enabled ≡ true)
            × ((stored_connection row ≡ some s) × (is_empty (realm_of row.realm_id) ≡ false)))

    use_stored-Granted :
        (row : CompanyRow) (s : Connection)
        → Seen row s
        → lasts b o s ≡ true
        → Granted c o b id table
            (use_stored c o b (realm_of row.realm_id) table (decrypt c b.key s.access_blob))
    unfolding use_stored connected_to lasts
    use_stored-Granted row s (found, (on, (stored, not_blank))) fresh =
        elim (Option-cases (decrypt c b.key s.access_blob)) [
          | inl e ↦ rw e (inl refl)
          | inr (token, e) ↦ rw e (
              commit-Granted o b id o.committed _ table table refl (
                refl,
                (
                  s.access_expires,
                  (
                    record {
                      row = row;
                      connection = s;
                      found = found;
                      on = on;
                      stored = stored;
                      in_realm = refl;
                      not_blank = not_blank;
                      reads = e;
                      until = refl;
                    },
                    inl (ground (arith, fresh), refl),
                  ),
                ),
              ))
        ]

    renewed-Holds :
        (row new : CompanyRow) (s : Connection) (tokens : TokenSet)
        → Seen row s
        → RenewedRow c o b row s.refresh_blob (tokens, new)
        → Holds c b.key id
            (realm_of row.realm_id)
            tokens.access_token
            (wrap_i64 (unix_now o.later +ℤ tokens.expires_in))
            (replace_row id new table)
    unfolding renewed_row stored_connection connection_of
    renewed-Holds row new s tokens (found, (on, (stored, not_blank)))
          (access, refreshed, (e, (reads, _))) =
        record {
          row = renewed_row o row tokens access refreshed;
          connection = record {
            access_blob = bytes access;
            refresh_blob = bytes refreshed;
            access_expires = wrap_i64 (unix_now o.later +ℤ tokens.expires_in);
            refresh_expires = wrap_i64 (unix_now o.later +ℤ tokens.x_refresh_token_expires_in);
          };
          found =
              subst
                (λ r.
                  lookup id (replace_row id r table)
                  ≡ some (renewed_row o row tokens access refreshed))
                (sym e)
                (lookup-replace_row id row (renewed_row o row tokens access refreshed) table found);
          on = on;
          stored = refl;
          in_realm = refl;
          not_blank = not_blank;
          reads = reads;
          until = refl;
        }

    renewed-Refreshed :
        (row new : CompanyRow) (s : Connection) (tokens : TokenSet)
        → Seen row s
        → lasts b o s ≡ false
        → refresh_expired o s ≡ false
        → RenewedRow c o b row s.refresh_blob (tokens, new)
        → Refreshed c o b id table tokens.access_token
            (wrap_i64 (unix_now o.later +ℤ tokens.expires_in))
            (replace_row id new table)
    unfolding lasts refresh_expired renewed_row
    renewed-Refreshed row new s tokens (found, (on, (stored, not_blank))) short renewable
          (access, refreshed, (e, (reads, (encrypted, given)))) =
        record {
          old = row;
          new = renewed_row o row tokens access refreshed;
          connection = s;
          tokens = tokens;
          refreshed = refreshed;
          was = found;
          had = stored;
          too_short = ground (arith, short);
          renewable = ground (arith, renewable);
          given = given;
          same_token = refl;
          same_expiry = refl;
          replaced = ap (λ r. replace_row id r table) e;
          rotated = refl;
          encrypted = encrypted;
          until_then = refl;
        }

    use_renewed-Granted :
        (row : CompanyRow) (s : Connection) (r : Result QboError (TokenSet × CompanyRow))
        → Seen row s
        → lasts b o s ≡ false
        → refresh_expired o s ≡ false
        → AllOk (RenewedRow c o b row s.refresh_blob) r
        → Granted c o b id table (use_renewed c o b id (realm_of row.realm_id) table r)
    unfolding use_renewed connected_to
    use_renewed-Granted row s (err e) seen short renewable h = inl refl
    use_renewed-Granted row s (ok (tokens, new)) seen short renewable h =
        commit-Granted o b id o.committed _ table (replace_row id new table) refl (
          refl,
          (
            wrap_i64 (unix_now o.later +ℤ tokens.expires_in),
            (
              renewed-Holds row new s tokens seen h,
              inr (renewed-Refreshed row new s tokens seen short renewable h),
            ),
          ),
        )

    decide_connection-Granted :
        (row : CompanyRow) (s : Connection)
        → Seen row s
        → Granted c o b id table (decide_connection c o b id table row (realm_of row.realm_id) s)
    unfolding decide_connection
    decide_connection-Granted row s seen = elim (Bool-cases (lasts b o s)) [
      | inl e ↦ rw e (use_stored-Granted row s seen e)
      | inr e ↦ elim (Bool-cases (refresh_expired o s)) [
        | inl e1 ↦ rw e (rw e1 refl)
        | inr e1 ↦ rw e (
            rw e1 (
              use_renewed-Granted row s (renew c o b row s.refresh_blob) seen e e1
                (renew-Row c laws o b row s.refresh_blob texts nonce)))
      ]
    ]

    decide_stored-Granted :
        (row : CompanyRow) (s : Option Connection)
        → lookup id table ≡ some row
        → row.enabled ≡ true
        → stored_connection row ≡ s
        → Granted c o b id table (decide_stored c o b id table row s)
    unfolding decide_stored
    decide_stored-Granted row none found on stored = refl
    decide_stored-Granted row (some s) found on stored =
        elim (Bool-cases (is_empty (realm_of row.realm_id))) [
          | inl e ↦ rw e refl
          | inr e ↦ rw e (decide_connection-Granted row s (found, (on, (stored, e))))
        ]

    decide_enabled-Granted :
        (row : CompanyRow) (on : Bool)
        → lookup id table ≡ some row
        → row.enabled ≡ on
        → Granted c o b id table (decide_enabled c o b id table row on)
    unfolding decide_enabled
    decide_enabled-Granted row false found e = refl
    decide_enabled-Granted row true found e =
        decide_stored-Granted row (stored_connection row) found e refl

    decide-Granted :
        (r : Option CompanyRow)
        → lookup id table ≡ r
        → Granted c o b id table (decide c o b id table r)
    unfolding decide
    decide-Granted none found = refl
    decide-Granted (some row) found = decide_enabled-Granted row row.enabled found refl

    locked-Granted :
        (r : Result QboError (Unit {0})) → Granted c o b id table (locked c o b id table r)
    unfolding locked
    locked-Granted (err e) = inl refl
    locked-Granted (ok _) = decide-Granted (lookup id table) refl

    -- Of every access to QuickBooks for a job, whatever fails on the way. A job is given a token only for
    -- a company whose row is switched on and has a realm, and that row then holds the token, encrypted,
    -- and its expiry. Either the tables are as before and the token lasts as long as a job may; or the
    -- stored one did not, and the stored refresh token, unexpired, was sent to Intuit under the company's
    -- or the app's credentials, and the token, its expiry and the encrypted refresh token and expiry of the
    -- new row are those of the tokens read from Intuit's successful answer. Without a token, the tables are as
    -- before, unless a COMMIT failed after it took effect. The cipher obeys its documentation, the nonce of
    -- the access token has 12 bytes, and the token response holds texts.
    pub access-Granted : Granted c o b id table (try_access c o b id table)
    unfolding try_access
    access-Granted = locked-Granted (stmt o.begun >>= λ _. stmt o.selected)
