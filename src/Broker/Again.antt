-- ===== src/Broker/Again.antt =====
-- src/qbo.rs: two jobs of one company, one after the other.
use claude_job_runner.Prelude.{
  ℤ, Bool, true, false, Option, some, ◌≡◌, refl, sym, ap, ◌∙◌, subst, Str, is_empty, Result, ok,
  err, arith,
}
use claude_job_runner.Store.Exec.{Fault, fine}
use claude_job_runner.Broker.{QboError, QboJobAccess, connected, CompanyRow}
use claude_job_runner.Broker.Crypto.{Cipher, CipherLaws, decrypt}
use claude_job_runner.Broker.Refresh.{QboBroker, Circumstances, stmt}
use claude_job_runner.Broker.Decide.{
  Table, Connection, lookup, commit, connected_to, realm_of, stored_connection, lasts, use_stored,
  decide_connection, decide_stored, decide_enabled, decide, locked, try_access, absorb, access,
}
use claude_job_runner.Broker.Grants.{Holds, Granted}
use claude_job_runner.Broker.Granted.{access-Granted}
use claude_job_runner.Broker.Renewed.{ReadsTexts, IsNonce}

-- No statement fails.
abbrev pub Quiet : Circumstances → Type 0
Quiet o = (o.begun ≡ fine) × ((o.selected ≡ fine) × (o.committed ≡ fine))

-- What is stored for the company lasts as long as a job may.
abbrev pub StoredLasts : QboBroker → Circumstances → ℤ → Table → Type 0
StoredLasts b o id table =
    (row : CompanyRow) (s : Connection)
    → lookup id table ≡ some row
    → stored_connection row ≡ some s
    → lasts b o s ≡ true

pub lasts-StoredLasts :
    (b : QboBroker) (o : Circumstances) (id : ℤ) (table : Table) (row : CompanyRow) (s : Connection)
    → lookup id table ≡ some row
    → stored_connection row ≡ some s
    → lasts b o s ≡ true
    → StoredLasts b o id table
lasts-StoredLasts b o id table row s e e1 e2 row' s' h h1 =
    let same_row : row ≡ row' = cc in
    let same : s ≡ s' = same_connection s s' (sym e1 ∙ ap stored_connection same_row ∙ h1) in
    subst (λ x. lasts b o x ≡ true) same e2
  where
    same_connection : (s s' : Connection) → some s ≡ some s' → s ≡ s'
    same_connection s s' h = cc

module _ (c : Cipher) (o : Circumstances) (b : QboBroker) (id : ℤ) (table : Table) where
  decide-lookup :
      (r : Option CompanyRow) (row : CompanyRow)
      → r ≡ some row
      → decide c o b id table r ≡ decide c o b id table (some row)
  decide-lookup r row e = ap (decide c o b id table) e

  decide_stored-found :
      (row : CompanyRow) (s : Connection)
      → stored_connection row ≡ some s
      → is_empty (realm_of row.realm_id) ≡ false
      → decide_stored c o b id table row (stored_connection row)
        ≡ decide_connection c o b id table row (realm_of row.realm_id) s
  unfolding decide_stored
  decide_stored-found row s e blank = rw e (rw blank refl)

  decide_enabled-true :
      (row : CompanyRow) (on : Bool)
      → on ≡ true
      → decide_enabled c o b id table row on
        ≡ decide_stored c o b id table row (stored_connection row)
  unfolding decide_enabled
  decide_enabled-true row on e = ap (decide_enabled c o b id table row) e

  decide_connection-lasts :
      (row : CompanyRow) (realm token : Str) (s : Connection)
      → lasts b o s ≡ true
      → decrypt c b.key s.access_blob ≡ some token
      → decide_connection c o b id table row realm s
        ≡ commit o.committed (connected_to b realm token) table table
  unfolding decide_connection use_stored
  decide_connection-lasts row realm token s e e1 = rw e (rw e1 refl)

  try_access-Quiet : Quiet o → try_access c o b id table ≡ decide c o b id table (lookup id table)
  unfolding try_access locked stmt
  try_access-Quiet (begun, (selected, _)) = rw begun (rw selected refl)

  decide-some :
      (row : CompanyRow)
      → decide c o b id table (some row) ≡ decide_enabled c o b id table row row.enabled
  unfolding decide
  decide-some row = refl

  commit-fine : (f : Fault) (a : QboJobAccess) → f ≡ fine → commit f a table table ≡ (ok a, table)
  unfolding commit
  commit-fine f a e = ap (λ g. commit g a table table) e

  -- A token that is held and lasts is given without any change.
  try_access-Holds :
      (realm token : Str) (expires : ℤ)
      → (h : Holds c b.key id realm token expires table) → Quiet o
      → lasts b o h.connection ≡ true
      → try_access c o b id table ≡ (ok (connected_to b realm token), table)
  try_access-Holds realm token expires h q e =
      try_access-Quiet q
      ∙ decide-lookup (lookup id table) h.row h.found
      ∙ decide-some h.row
      ∙ decide_enabled-true h.row h.row.enabled h.on
      ∙ decide_stored-found h.row h.connection h.stored (ap is_empty h.in_realm ∙ h.not_blank)
      ∙ ap (λ r. decide_connection c o b id table h.row r h.connection) h.in_realm
      ∙ decide_connection-lasts h.row realm token h.connection e h.reads
      ∙ commit-fine o.committed (connected_to b realm token) ((q.1).1)

absorb-connected :
    (c : Cipher) (r : Result QboError QboJobAccess × Table) (realm token base : Str) (after : Table)
    → absorb c r ≡ (connected realm token base, after)
    → r ≡ (ok (connected realm token base), after)
absorb-connected c (ok a, t) realm token base after e = ap (λ p. (ok (p.0), p.1)) e
absorb-connected c (err f, t) realm token base after e = absurd (ground arith)

again :
    (c : Cipher) (o : Circumstances) (b : QboBroker) (id : ℤ) (realm token base : Str)
    → (before after : Table) (first : Circumstances)
    → Granted c first b id before (ok (connected realm token base), after)
    → Quiet o
    → StoredLasts b o id after
    → try_access c o b id after ≡ (ok (connected realm token base), after)
unfolding connected_to
again c o b id realm token base before after first (eb, (expires, (h, _))) q l =
    try_access-Holds c o b id after realm token expires h q (l h.row h.connection h.found h.stored)
    ∙ ap (λ u. (ok (connected realm token u), after)) (sym eb)

-- A job that is given a token leaves it stored for its company, the rotated one included: while the
-- stored token lasts, the next job of the company is given the same answer, and the tables stay as they
-- are. The cipher obeys its documentation, the nonces have 12 bytes, the token response holds texts, and
-- no statement of the second access fails; those of the first may.
pub access_again :
    (c : Cipher)
    → CipherLaws c
    → (first second : Circumstances) (b : QboBroker) (id : ℤ) (before after : Table)
    → (realm token base : Str) → ReadsTexts first
    → IsNonce first.access_nonce
    → access c first b id before ≡ (connected realm token base, after)
    → Quiet second
    → StoredLasts b second id after
    → access c second b id after ≡ (connected realm token base, after)
unfolding access
access_again c laws first second b id before after realm token base texts nonce e q l =
    let granted =
      subst (Granted c first b id before)
        (absorb-connected c (try_access c first b id before) realm token base after e)
        (access-Granted c laws first b id before texts nonce) in
    ap (absorb c) (again c second b id realm token base before after first granted q l)
