-- ===== src/Mcp/Guarded.antt =====
-- crates/jobctl-mcp/src/main.rs: which tools a call can reach.
use claude_job_runner.Prelude.{
  ◌≡◌, refl, sym, ◌∙◌, subst, Bool, true, false, ◌||◌, Option, none, some, List, ◌++◌, any, Str,
  text, eq_str, eq_str_sound, eq_str_refl, strip_prefix, strip_prefix_sound, Result, ok, err,
  Bool-cases, inl, inr, arith,
}
use claude_job_runner.Json.{Value}
use claude_job_runner.Jobctl.{Error}
use claude_job_runner.Jobctl.Qbo.{Scope, authorize}
use claude_job_runner.Jobctl.Qbo.Access.{allows, authorize-listed}
use claude_job_runner.Mcp.{
  Outside, Server, State, session_tools, all_tools, tool_result, qbo_authorized, qbo_in, qbo,
  qbo_named, texts_of, call_tool,
}

-- A name is among the tools that `tools/list` reports.
unfoldable pub offered : Option Scope → Str → Bool
unfolding all_tools
offered session name = any (λ (t : Str × List Str). eq_str t.0 name) (all_tools session)

-- No text of a tool that ran.
abbrev pub Refused : Option (Str × Bool) → Type 0
Refused none = Unit
Refused (some (content, is_error)) = is_error ≡ true

or_left : (a b : Bool) → (a || b) ≡ false → a ≡ false
or_left a b h = ground arith

or_right : (a b : Bool) → (a || b) ≡ false → b ≡ false
or_right a b h = ground arith

module _ {S Conn : Type 0} (o : Outside S Conn) where
  -- The outcome refuses, and the state is as it was.
  abbrev pub Harmless : State o → Option (Str × Bool) × State o → Type 0
  Harmless state (outcome, state') = Refused outcome × (state' ≡ state)

  unauthorized-Harmless :
      (r : Option (Result Error (Unit {0}))) (scope : Scope) (name : Str) (args : Value)
      (state : State o)
      → allows r ≡ false
      → Harmless state (texts_of o (qbo_authorized o r scope name args state))
  unfolding qbo_authorized tool_result
  unauthorized-Harmless none scope name args state h = (tt, refl)
  unauthorized-Harmless (some (err e)) scope name args state h = (refl, refl)
  unauthorized-Harmless (some (ok x)) scope name args state h = absurd (ground arith)

  qbo_in-Harmless :
      (session : Option Scope) (name : Str) (args : Value) (state : State o)
      → any (λ (t : Str × List Str). eq_str t.0 (text "qbo_" ++ name)) (session_tools session)
        ≡ false
      → Harmless state (texts_of o (qbo_in o session name args state))
  qbo_in-Harmless none name args state h = unfold qbo_in tool_result in (tt, refl)
  qbo_in-Harmless (some scope) name args state h =
      unfold qbo_in in
      unauthorized-Harmless (authorize scope name) scope name args state
        (authorize-listed scope name ∙ h)

  qbo_named-Harmless :
      (server : Server Conn) (s : S) (full : Str) (r : Option Str) (args : Value)
      → strip_prefix (text "qbo_") full ≡ r
      → any (λ (t : Str × List Str). eq_str t.0 full) (session_tools server.qbo) ≡ false
      → Harmless (server, s) (texts_of o (qbo_named o r args (server, s)))
  qbo_named-Harmless server s full none args e h = unfold qbo_named tool_result in (tt, refl)
  qbo_named-Harmless server s full (some name) args e h =
      unfold qbo_named qbo in
      qbo_in-Harmless server.qbo name args (server, s)
        (subst (λ n. any (λ (t : Str × List Str). eq_str t.0 n) (session_tools server.qbo) ≡ false)
          (strip_prefix_sound (text "qbo_") full name e) h)

  sql_offered :
      (server : Server Conn) (name : Str)
      → eq_str name (text "sql") ≡ true
      → offered server.qbo name ≡ false
      → ⊥
  unfolding offered all_tools
  sql_offered server name e h =
      let same : eq_str (text "sql") name ≡ true =
        subst (λ n. eq_str (text "sql") n ≡ true) (sym (eq_str_sound name (text "sql") e))
          (eq_str_refl (text "sql")) in
      ground (arith, same, or_left (eq_str (text "sql") name) _ h)

  -- A call of a tool that `tools/list` does not report, to a job without QuickBooks or to one of a
  -- requester who is no admin, gives no text but a refusal; it opens no connection and reaches neither
  -- the database nor QuickBooks.
  pub unoffered-Harmless :
      (server : Server Conn) (s : S) (name : Str) (args : Value)
      → offered server.qbo name ≡ false
      → Harmless (server, s) (call_tool o name args (server, s))
  unfolding call_tool offered all_tools
  unoffered-Harmless server s name args h = elim (Bool-cases (eq_str name (text "sql"))) [
    | inl e ↦ absurd (sql_offered server name e h)
    | inr e ↦ rw e (
        qbo_named-Harmless server s name (strip_prefix (text "qbo_") name) args refl
          (or_right (eq_str (text "sql") name) _ h))
  ]
