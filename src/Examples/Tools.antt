-- ===== src/Examples/Tools.antt =====
-- The theorems on the tools of a job, at concrete arguments.
use claude_job_runner.Prelude.{
  ℕ, ◌+◌, ◌≤◌, ◌≡◌, ◌≢◌, refl, Bool, true, false, Option, none, some, List, [], ◌∷◌, ◌++◌, map,
  arith, all, length, All, trim, trim_start, trim_end, is_whitespace, is_ascii_digit, bytes, len,
  encode_utf8, show_ℤ, show_ℕ, Str, text, Result, ok, pos, eq_str,
}
use claude_job_runner.Json.{Value, str, num, int, object, field, end, null, get, lookup}
use claude_job_runner.Jobctl.{Error}
use claude_job_runner.Jobctl.Sql.{format_table, truncation_note, max_output_chars}
use claude_job_runner.Jobctl.Sql.Table.{read_table, read_cell, read_table-format_table}
use claude_job_runner.Jobctl.CommandLine.{parse, is_among}
use claude_job_runner.Jobctl.CommandLine.Printed.{
  option, assignment, option_value, reversed_onto, parse-printed,
}
use claude_job_runner.Jobctl.Qbo.{Scope, Handlers, authorize, call}
use claude_job_runner.Jobctl.Qbo.Access.{allows, listed, authorize-listed, call_guarded}
use claude_job_runner.Jobctl.Qbo.Args.{
  quote, escape, percent_encode, optional_entity_id, entity_id_of, check_id, is_entity_id,
  number_text,
}
use claude_job_runner.Jobctl.Qbo.Literals.{
  read_literal, literal_contained, percent_decode, percent_encode_exact, is_url_text,
}
use claude_job_runner.Jobctl.Qbo.Dates.{entity_id_exact}
use claude_job_runner.Jobctl.Qbo.DateText.{DateText}
use claude_job_runner.Jobctl.Qbo.Report.{Row, section, data_row, section_total, omit_zero_rows}
use claude_job_runner.Jobctl.Qbo.Report.Figures.{figures}
use claude_job_runner.Jobctl.Qbo.Report.Kept.{figures-omit_zero_rows}
use claude_job_runner.Jobctl.Qbo.Reps.{QboClass, contains, matching, class_ids_for_rep}
use claude_job_runner.Jobctl.Qbo.Reps.Closure.{Closed, Within, class_ids-least}

abbrev rows : List (List (Option Str))
rows = (none ∷ some (text "a\tb\nc\\") ∷ []) ∷ []

read_table-format_table_example :
    read_table (format_table (text "rep" ∷ text "deals" ∷ []) rows)
    ≡ (text "rep" ∷ text "deals" ∷ []) ∷ map (map read_cell) rows
read_table-format_table_example =
    read_table-format_table (text "rep") (text "deals" ∷ []) rows (tt, tt)

abbrev employee : Scope
employee = record { company_id = pos 9; user_id = pos 7; is_admin = false }

authorize-listed_example : allows (authorize employee (text "query")) ≡ listed false (text "query")
authorize-listed_example = authorize-listed employee (text "query")

-- Tools that count their calls and answer nothing.
abbrev counting : Value → ℕ → Result Error Value × ℕ
counting args n = (ok null, n + 1)

abbrev handlers : Handlers ℕ
handlers = record {
  search_customers = counting;
  customer_invoices = counting;
  invoice = counting;
  sales_rep = counting;
  invoices_in_range = counting;
  class_sales = counting;
  query = counting;
  report = counting;
}

abbrev print : Value → Str
print v = text "null"

call_guarded_example :
    (listed false (text "query") ≡ false
      → ((call handlers print employee (text "query") null 0).1 ≡ 0)
        × ((out : Str) → (call handlers print employee (text "query") null 0).0 ≢ some (ok out)))
    × ((out : Str)
        → (call handlers print employee (text "query") null 0).0 ≡ some (ok out)
        → length out ≤ max_output_chars + length truncation_note)
call_guarded_example = call_guarded handlers print employee (text "query") null 0

-- A name that would end its literal, if it could.
abbrev hostile : Str
hostile = text "O'Brien' or '1' = '1"

literal_contained_example :
    read_literal false (escape hostile ++ quote ∷ text " maxresults 25")
    ≡ some (hostile, text " maxresults 25")
literal_contained_example = literal_contained hostile (text " maxresults 25") refl

percent_encode_exact_example :
    (percent_decode (percent_encode (text "a&b")) ≡ bytes (text "a&b"))
    × All (λ c. is_url_text c ≡ true) (percent_encode (text "a&b"))
percent_encode_exact_example =
    percent_encode_exact (text "a&b") (omega arith, (omega arith, (omega arith, tt)))

abbrev args : Value
args = object (
    field (text "start_date") (str (text "2026-09-01"))
      (field (text "id") (num (int (pos 125))) end))

abbrev float_text : ℕ → Str
float_text b = text "0.5"

entity_id_exact_example :
    (1 ≤ length (text "125"))
    × (length (text "125") ≤ 32)
    × (all is_ascii_digit (text "125") ≡ true)
entity_id_exact_example = entity_id_exact float_text args (text "id") (text "125") (
    unfold optional_entity_id entity_id_of check_id is_entity_id number_text show_ℤ show_ℕ get
      lookup eq_str len bytes encode_utf8 in
    refl)

-- A section with one figure, and one without.
abbrev row : Str → Option ℕ → Row
row name amount = record {
  name = name;
  amount = amount;
  depth = 1;
  kind = data_row;
  entity_id = none;
}

abbrev report : List Row
report =
    record (row (text "Alina") none) { kind = section }
    ∷ row (text "Alina/Spring") (some 5)
    ∷ row (text "Alina/Fall") (some 0)
    ∷ record (row (text "Total Alina") (some 5)) { kind = section_total }
    ∷ record (row (text "Bo") none) { kind = section }
    ∷ row (text "Bo/Fall") (some 0)
    ∷ []

figures-omit_zero_rows_example : figures (omit_zero_rows report) ≡ figures report
figures-omit_zero_rows_example = figures-omit_zero_rows report

abbrev classes : List QboClass
classes =
    record {
      id = text "1";
      name = text "alina";
      fully_qualified_name = text "alina";
      parent_id = none;
    }
    ∷ record {
      id = text "2";
      name = text "spring";
      fully_qualified_name = text "alina:spring";
      parent_id = some (text "1");
    }
    ∷ []

abbrev same : Str → Str
same s = s

class_ids-least_example :
    (ids : List Str) × (class_ids_for_rep same classes (text "alina") ≡ some ids)
    × ((id : Str)
        → contains (matching same classes (text "alina")) id ≡ true
        → contains ids id ≡ true)
    × Closed classes (contains ids)
    × ((P : Str → Bool)
        → Closed classes P
        → Within P (matching same classes (text "alina"))
        → Within P ids)
class_ids-least_example =
    class_ids-least same classes (text "alina")
      (unfold trim trim_start trim_end is_whitespace in refl)

abbrev value_opts : List Str
value_opts = text "--chat" ∷ (text "--env-file" ∷ [])

abbrev flag_opts : List Str
flag_opts = text "--no-wait" ∷ []

parse-printed_example :
    parse value_opts flag_opts (
      map assignment ((text "chat", text "7") ∷ [])
      ++ (map option (text "no-wait" ∷ []) ++ text "--" ∷ (text "--chat=8" ∷ [])))
    ≡ ok (record {
      values = reversed_onto (map option_value ((text "chat", text "7") ∷ [])) [];
      flags = reversed_onto (map option (text "no-wait" ∷ [])) [];
      positional = text "--chat=8" ∷ [];
    })
unfolding is_among eq_str
parse-printed_example =
    parse-printed value_opts flag_opts ((text "chat", text "7") ∷ []) (text "no-wait" ∷ [])
      (text "--chat=8" ∷ []) ((ground arith, refl), tt) ((ground arith, (refl, refl)), tt)
