-- ===== src/Jobctl/Qbo/Access.antt =====
-- Who may use which QuickBooks tool.
use claude_job_runner.Prelude.{
  ℕ, ◌+◌, ◌≤◌, ◌≡◌, ◌≢◌, refl, ◌∙◌, ap, Bool, true, false, ◌&&◌, ◌||◌, Option, none, some, List, [],
  ◌∷◌, ◌++◌, map, filter, find, arith, any, Str, text, Result, ok, err, ltb, ltb→lt, Bool-cases,
  inl, inr, eq_str, eq_str_sound, length, map_ok, subst,
}
use claude_job_runner.Json.{Value}
use claude_job_runner.Jobctl.{Error}
use claude_job_runner.Jobctl.Sql.{truncate, max_output_chars, truncation_note}
use claude_job_runner.Jobctl.Sql.Truncate.{truncate_exact}
use claude_job_runner.Jobctl.Qbo.{
  Scope, ToolSpec, tool_specs, may_use, tools, authorize, authorize_tool, Handlers, dispatch,
  run_tool, call_authorized, call,
}

-- A tool's name, as the client knows it, is among the tools listed for a requester.
abbrev pub listed : Bool → Str → Bool
listed is_admin name = any (λ t. eq_str t.0 (text "qbo_" ++ name)) (tools is_admin)

abbrev entry : ToolSpec → Str × List Str
entry t = (text "qbo_" ++ t.name, t.required)

listed_in : Bool → Str → List ToolSpec → Bool
listed_in is_admin name ts =
    any (λ (t : Str × List Str). eq_str t.0 (text "qbo_" ++ name))
      (map entry (filter (may_use is_admin) ts))

-- Behind the common prefix the names decide.
named : (a b : Str) → eq_str (text "qbo_" ++ a) (text "qbo_" ++ b) ≡ eq_str a b
unfolding eq_str
named a b = refl

-- A tool with this name.
abbrev has_name : Str → ToolSpec → Bool
has_name name t = eq_str t.name name

abbrev AllNew : List ToolSpec → Type 0
AllNew [] = Unit
AllNew (t ∷ ts) = (any (has_name t.name) ts ≡ false) × AllNew ts

unlisted :
    (is_admin : Bool) (name : Str) (ts : List ToolSpec)
    → any (has_name name) ts ≡ false
    → listed_in is_admin name ts ≡ false
unfolding listed_in
unlisted is_admin name [] h = refl
unlisted is_admin name (t ∷ ts) h =
    let ih = unlisted is_admin name ts (ground arith) in
    let other : eq_str t.name name ≡ false = ground arith in
    elim (Bool-cases (may_use is_admin t)) [
      | inl e ↦ rw e (rw (named t.name name) (rw other ih))
      | inr e ↦ rw e ih
    ]

abbrev pub allows : Option (Result Error (Unit {0})) → Bool
allows none = false
allows (some (err _)) = false
allows (some (ok _)) = true

allows-may_use :
    (scope : Scope) (t : ToolSpec)
    → allows (authorize_tool scope (some t)) ≡ may_use scope.is_admin t
unfolding authorize_tool may_use
allows-may_use scope t = ground arith

listed-cons :
    (is_admin : Bool) (name : Str) (t : ToolSpec) (ts : List ToolSpec)
    → listed_in is_admin name (t ∷ ts)
      ≡ ((may_use is_admin t && has_name name t) || listed_in is_admin name ts)
unfolding listed_in
listed-cons is_admin name t ts = elim (Bool-cases (may_use is_admin t)) [
  | inl e ↦ rw e (rw (named t.name name) refl)
  | inr e ↦ rw e refl
]

allows-listed :
    (scope : Scope) (name : Str) (ts : List ToolSpec)
    → AllNew ts
    → allows (authorize_tool scope (find (has_name name) ts)) ≡ listed_in scope.is_admin name ts
allows-listed scope name [] h = unfold authorize_tool listed_in in refl
allows-listed scope name (t ∷ ts) (first, h) = elim (Bool-cases (has_name name t)) [
  | inl e ↦ rw (listed-cons scope.is_admin name t ts) (
      rw e (
        rw (allows-may_use scope t) (
          rw
            (unlisted scope.is_admin name ts
              (subst (λ n. any (has_name n) ts ≡ false) (eq_str_sound t.name name e) first))
            (absorb (may_use scope.is_admin t)))))
  | inr e ↦ rw (listed-cons scope.is_admin name t ts) (
      rw e (
        rw (allows-listed scope name ts h)
          (vanish (may_use scope.is_admin t) (listed_in scope.is_admin name ts))))
]
  where
    absorb : (b : Bool) → b ≡ ((b && true) || false)
    absorb b = ground arith

    vanish : (b c : Bool) → c ≡ ((b && false) || c)
    vanish b c = ground arith

all_new : AllNew tool_specs
unfolding tool_specs eq_str
all_new = (refl, (refl, (refl, (refl, (refl, (refl, (refl, (refl, tt))))))))

-- `authorize` allows a tool exactly where `tools` lists it for the requester: an admin has all of them,
-- and no name that is not listed can be called.
pub authorize-listed :
    (scope : Scope) (name : Str) → allows (authorize scope name) ≡ listed scope.is_admin name
unfolding authorize tools listed_in
authorize-listed scope name = allows-listed scope name tool_specs all_new

module _ {S : Type 0} (h : Handlers S) (to_string : Value → Str) where
  outcome_bounded :
      (r : Result Error Value) (out : Str)
      → some (map_ok (λ value. truncate (to_string value) max_output_chars) r) ≡ some (ok out)
      → length out ≤ max_output_chars + length truncation_note
  outcome_bounded (err e) out h = absurd (ground arith)
  outcome_bounded (ok value) out h =
      let same : truncate (to_string value) max_output_chars ≡ out = ground arith in
      subst (λ t. length t ≤ max_output_chars + length truncation_note) same
        (truncated (to_string value) max_output_chars)
    where
      truncated : (t : Str) (max : ℕ) → length (truncate t max) ≤ max + length truncation_note
      truncated t max = elim (Bool-cases (ltb max (length t))) [
        | inl e ↦ omega (arith, (truncate_exact t max).2 (ltb→lt max (length t) e))
        | inr e ↦
            let short : length t ≤ max = ground arith in
            omega (arith, ap length ((truncate_exact t max).1 short), short)
      ]

  run_bounded :
      (o : Option (Value → S → Result Error Value × S)) (args : Value) (s : S) (out : Str)
      → (run_tool h to_string o args s).0 ≡ some (ok out)
      → length out ≤ max_output_chars + length truncation_note
  unfolding run_tool
  run_bounded none args s out e = absurd (ground arith)
  run_bounded (some f) args s out e = outcome_bounded (f args s).0 out e

  authorized :
      (r : Option (Result Error (Unit {0}))) (name : Str) (args : Value) (s : S)
      → (allows r ≡ false
          → ((call_authorized h to_string r name args s).1 ≡ s)
            × ((out : Str) → (call_authorized h to_string r name args s).0 ≢ some (ok out)))
        × ((out : Str)
            → (call_authorized h to_string r name args s).0 ≡ some (ok out)
            → length out ≤ max_output_chars + length truncation_note)
  unfolding call_authorized
  authorized none name args s =
      ((λ no. (refl, λ out e. ground arith)), (λ out e. absurd (ground arith)))
  authorized (some (err x)) name args s =
      ((λ no. (refl, λ out e. ground arith)), (λ out e. absurd (ground arith)))
  authorized (some (ok x)) name args s = (
    (λ no. absurd (ground arith)),
    (λ out e. run_bounded (dispatch h to_string name) args s out e),
  )

  -- A call of a tool that is not listed for the requester gives no text and does nothing; what any call
  -- gives is at most `max_output_chars` characters and the note that it was cut.
  pub call_guarded :
      (scope : Scope) (name : Str) (args : Value) (s : S)
      → (listed scope.is_admin name ≡ false
          → ((call h to_string scope name args s).1 ≡ s)
            × ((out : Str) → (call h to_string scope name args s).0 ≢ some (ok out)))
        × ((out : Str)
            → (call h to_string scope name args s).0 ≡ some (ok out)
            → length out ≤ max_output_chars + length truncation_note)
  unfolding call
  call_guarded scope name args s =
      let (refused, bounded) = authorized (authorize scope name) name args s in
      ((λ no. refused (authorize-listed scope name ∙ no)), bounded)
