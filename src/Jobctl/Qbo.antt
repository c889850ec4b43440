-- ===== src/Jobctl/Qbo.antt =====
-- crates/jobctl/src/qbo.rs: the QuickBooks tools of a job, and who may use them.
pub mod Args
pub mod Dates
pub mod DateText
pub mod Literals
pub mod Access
pub mod Report
pub mod Reps
use claude_job_runner.Prelude.{
  ℕ, Bool, true, false, not, ◌&&◌, ◌||◌, Option, none, some, List, [], ◌∷◌, ◌++◌, map, filter, find,
  Str, text, Result, ok, err, if◌then◌else◌, ℤ, eq_str, map_ok,
}
use claude_job_runner.Json.{Value}
use claude_job_runner.Jobctl.{Error, denied}
use claude_job_runner.Jobctl.Sql.{truncate, max_output_chars}

pub record Scope : Type 0 where
  pub company_id : ℤ
  pub user_id : ℤ
  pub is_admin : Bool

-- A tool's name, who may use it, and the arguments it needs; the model leaves out its description and
-- the JSON schema of its arguments, which only the client reads.
pub record ToolSpec : Type 0 where
  pub name : Str
  pub admin_only : Bool
  pub required : List Str

abbrev tool : Str → Bool → List Str → ToolSpec
tool name admin_only required = record { name = name; admin_only = admin_only; required = required }

abbrev date_range : List Str
date_range = text "start_date" ∷ text "end_date" ∷ []

-- `TOOLS`
unfoldable pub tool_specs : List ToolSpec
tool_specs =
    tool (text "search_customers") false (text "name" ∷ [])
    ∷ tool (text "customer_invoices") false []
    ∷ tool (text "invoice") false (text "invoice_id" ∷ [])
    ∷ tool (text "sales_rep") false date_range
    ∷ tool (text "invoices_in_range") true date_range
    ∷ tool (text "class_sales") true date_range
    ∷ tool (text "query") true (text "query" ∷ [])
    ∷ tool (text "report") true (text "report" ∷ [])
    ∷ []

unfoldable pub may_use : Bool → ToolSpec → Bool
may_use is_admin t = is_admin || not t.admin_only

-- What `tools` lists for a requester.
unfoldable pub tools : Bool → List (Str × List Str)
unfolding may_use tool_specs
tools is_admin =
    map (λ t. (text "qbo_" ++ t.name, t.required)) (filter (may_use is_admin) tool_specs)

unfoldable pub authorize_tool : Scope → Option ToolSpec → Option (Result Error (Unit {0}))
authorize_tool scope none = none
authorize_tool scope (some t) =
    if t.admin_only && not scope.is_admin
    then some (err (denied (text "only admins can use this QuickBooks tool")))
    else some (ok tt)

unfoldable pub authorize : Scope → Str → Option (Result Error (Unit {0}))
unfolding authorize_tool tool_specs
authorize scope name = authorize_tool scope (find (λ t. eq_str t.name name) tool_specs)

-- The methods that `call` chooses from, as functions of the arguments; `S` is the state of the outside
-- that they act on, and `to_string` prints a JSON value.
pub record Handlers (S : Type 0) : Type 0 where
  pub search_customers : Value → S → Result Error Value × S
  pub customer_invoices : Value → S → Result Error Value × S
  pub invoice : Value → S → Result Error Value × S
  pub sales_rep : Value → S → Result Error Value × S
  pub invoices_in_range : Value → S → Result Error Value × S
  pub class_sales : Value → S → Result Error Value × S
  pub query : Value → S → Result Error Value × S
  pub report : Value → S → Result Error Value × S

module _ {S : Type 0} (h : Handlers S) (to_string : Value → Str) where
  unfoldable pub dispatch : Str → Option (Value → S → Result Error Value × S)
  dispatch name =
      if eq_str name (text "search_customers")
      then some h.search_customers
      else if eq_str name (text "customer_invoices")
      then some h.customer_invoices
      else if eq_str name (text "invoice")
      then some h.invoice
      else if eq_str name (text "sales_rep")
      then some h.sales_rep
      else if eq_str name (text "invoices_in_range")
      then some h.invoices_in_range
      else if eq_str name (text "class_sales")
      then some h.class_sales
      else if eq_str name (text "query")
      then some h.query
      else if eq_str name (text "report")
      then some h.report
      else none

  unfoldable pub run_tool :
      Option (Value → S → Result Error Value × S) → Value → S → Option (Result Error Str) × S
  run_tool none args s = (none, s)
  run_tool (some f) args s =
      let (outcome, s') = f args s in
      (some (map_ok (λ value. truncate (to_string value) max_output_chars) outcome), s')

  unfoldable pub call_authorized :
      Option (Result Error (Unit {0})) → Str → Value → S → Option (Result Error Str) × S
  unfolding dispatch run_tool
  call_authorized none name args s = (none, s)
  call_authorized (some (err e)) name args s = (some (err e), s)
  call_authorized (some (ok _)) name args s = run_tool (dispatch name) args s

  unfoldable pub call : Scope → Str → Value → S → Option (Result Error Str) × S
  unfolding authorize call_authorized
  call scope name args s = call_authorized (authorize scope name) name args s
