-- ===== src/Jobctl/Sql.antt =====
-- crates/jobctl/src/sql.rs: query results as text.
pub mod Escape
pub mod Table
pub mod Truncate
use claude_job_runner.Prelude.{
  ℕ, Bool, Option, none, some, List, [], ◌∷◌, ◌++◌, map, Str, text, replace, join, take, length,
  ltb, if◌then◌else◌,
}

-- `MAX_OUTPUT_CHARS`
abbrev pub max_output_chars : ℕ
max_output_chars = 100000

abbrev pub backslash : ℕ
backslash = 0x5c

abbrev pub tab : ℕ
tab = 0x9

abbrev pub newline : ℕ
newline = 0xa

unfoldable pub escape : Str → Str
escape value =
    replace newline (text "\\n") (replace tab (text "\\t") (replace backslash (text "\\\\") value))

unfoldable pub show_cell : Option Str → Str
show_cell none = text "NULL"
show_cell (some cell) = escape cell

unfoldable pub push_rows : Str → List (List (Option Str)) → Str
unfolding show_cell
push_rows out [] = out
push_rows out (row ∷ rows) =
    push_rows ((out ++ newline ∷ []) ++ join (text "\t") (map show_cell row)) rows

unfoldable pub format_table : List Str → List (List (Option Str)) → Str
unfolding escape push_rows
format_table columns rows = push_rows (join (text "\t") (map escape columns)) rows

abbrev pub truncation_note : Str
truncation_note = text "\n... (truncated; add a LIMIT or aggregate)"

-- `char_indices().nth(max)` is there if the text has more than `max` characters.
unfoldable pub truncate : Str → ℕ → Str
truncate s max = if ltb max (length s) then take max s ++ truncation_note else s
