-- ===== src/Broker/Isolated.antt =====
-- src/qbo.rs: what an access leaves alone.
use claude_job_runner.Prelude.{
  ℤ, Bool, true, false, Option, none, some, ◌≡◌, ◌≢◌, refl, Str, is_empty, Result, ok, err, ◌>>=◌,
  Bool-cases, inl, inr, [], ◌∷◌, sym, ◌∙◌, eq_ℤ, eq_ℤ_sound,
}
use claude_job_runner.Store.Exec.{Fault, fine, lost, late}
use claude_job_runner.Broker.{QboError, QboJobAccess, CompanyRow, TokenSet}
use claude_job_runner.Broker.Crypto.{Cipher, decrypt}
use claude_job_runner.Broker.Refresh.{QboBroker, Circumstances, stmt, renew}
use claude_job_runner.Broker.Decide.{
  Table, Connection, lookup, replace_row, commit, realm_of, stored_connection, lasts,
  refresh_expired, use_stored, use_renewed, decide_connection, decide_stored, decide_enabled,
  decide, locked, try_access, absorb, access,
}

lookup-other :
    (id other : ℤ) (row : CompanyRow) (table : Table)
    → other ≢ id
    → lookup other (replace_row id row table) ≡ lookup other table
unfolding lookup replace_row
lookup-other id other row [] h = refl
lookup-other id other row ((i, r) ∷ rows) h = elim (Bool-cases (eq_ℤ i id)) [
  | inl e ↦ elim (Bool-cases (eq_ℤ i other)) [
    | inl f ↦ absurd (h (sym (eq_ℤ_sound i other f) ∙ eq_ℤ_sound i id e))
    | inr f ↦ rw e (rw f (lookup-other id other row rows h))
  ]
  | inr e ↦ rw e (elim (Bool-cases (eq_ℤ i other)) [
    | inl f ↦ rw f refl
    | inr f ↦ rw f (lookup-other id other row rows h)
  ])
]

commit-tables :
    {A : Type 0} (P : Table → Type 0) (f : Fault) (a : A) (before after : Table)
    → P before
    → P after
    → P ((commit f a before after).1)
unfolding commit
commit-tables P fine a before after hb ha = ha
commit-tables P (lost e) a before after hb ha = hb
commit-tables P (late e) a before after hb ha = ha

-- Whatever holds of the tables before, and after any update of the company's row, holds in the end.
module _ (c : Cipher) (o : Circumstances) (b : QboBroker) (id : ℤ) (table : Table)
    (P : Table → Type 0) (before : P table)
    (after : (row : CompanyRow) → P (replace_row id row table)) where
  use_stored-tables :
      (realm : Str) (token : Option Str) → P ((use_stored c o b realm table token).1)
  unfolding use_stored
  use_stored-tables realm none = before
  use_stored-tables realm (some token) = commit-tables P o.committed _ table table before before

  use_renewed-tables :
      (realm : Str) (r : Result QboError (TokenSet × CompanyRow))
      → P ((use_renewed c o b id realm table r).1)
  unfolding use_renewed
  use_renewed-tables realm (err e) = before
  use_renewed-tables realm (ok (tokens, row)) =
      commit-tables P o.committed _ table (replace_row id row table) before (after row)

  decide_connection-tables :
      (row : CompanyRow) (realm : Str) (s : Connection)
      → P ((decide_connection c o b id table row realm s).1)
  unfolding decide_connection
  decide_connection-tables row realm s = elim (Bool-cases (lasts b o s)) [
    | inl e ↦ rw e (use_stored-tables realm (decrypt c b.key s.access_blob))
    | inr e ↦ elim (Bool-cases (refresh_expired o s)) [
      | inl e1 ↦ rw e (rw e1 before)
      | inr e1 ↦ rw e (rw e1 (use_renewed-tables realm (renew c o b row s.refresh_blob)))
    ]
  ]

  decide_stored-tables :
      (row : CompanyRow) (s : Option Connection) → P ((decide_stored c o b id table row s).1)
  unfolding decide_stored
  decide_stored-tables row none = before
  decide_stored-tables row (some s) = elim (Bool-cases (is_empty (realm_of row.realm_id))) [
    | inl e ↦ rw e before
    | inr e ↦ rw e (decide_connection-tables row (realm_of row.realm_id) s)
  ]

  decide_enabled-tables :
      (row : CompanyRow) (on : Bool) → P ((decide_enabled c o b id table row on).1)
  unfolding decide_enabled
  decide_enabled-tables row false = before
  decide_enabled-tables row true = decide_stored-tables row (stored_connection row)

  decide-tables : (r : Option CompanyRow) → P ((decide c o b id table r).1)
  unfolding decide
  decide-tables none = before
  decide-tables (some row) = decide_enabled-tables row row.enabled

  locked-tables : (r : Result QboError (Unit {0})) → P ((locked c o b id table r).1)
  unfolding locked
  locked-tables (err e) = before
  locked-tables (ok _) = decide-tables (lookup id table)

  absorb-tables : (r : Result QboError QboJobAccess × Table) → P (r.1) → P ((absorb c r).1)
  absorb-tables (ok a, t) h = h
  absorb-tables (err e, t) h = h

  access-tables : P ((access c o b id table).1)
  unfolding access try_access
  access-tables =
      absorb-tables (try_access c o b id table)
        (unfold try_access in locked-tables (stmt o.begun >>= λ _. stmt o.selected))

-- The access of one company's job, whatever fails on the way, changes no other company's row.
pub access_isolated :
    (c : Cipher) (o : Circumstances) (b : QboBroker) (id other : ℤ) (table : Table)
    → other ≢ id
    → lookup other ((access c o b id table).1) ≡ lookup other table
access_isolated c o b id other table h =
    access-tables c o b id table (λ t. lookup other t ≡ lookup other table) refl
      (λ row. lookup-other id other row table h)
