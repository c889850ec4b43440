-- ===== src/Jobctl/Qbo/Report.antt =====
-- crates/jobctl/src/qbo.rs: the rows of a QuickBooks report. An amount is the 64 bits of an `f64`.
pub mod Figures
pub mod Kept
use claude_job_runner.Prelude.{
  ℕ, suc, ◌+◌, ◌^◌, ◌/◌, ◌%◌, Bool, true, false, not, ◌&&◌, ◌||◌, Option, none, some, List, [], ◌∷◌,
  ◌++◌, any, Str, text, if◌then◌else◌, ◌==◌, trim, replace, eq_str, eq_ignore_ascii_case, is_some,
  ℤ,
}
use claude_job_runner.Json.{
  Value, null, num, str, array, object, Items, nil, cons, Fields, end, field, Number, int, float,
  get, index, as_str, lookup, items,
}
use claude_job_runner.Jobctl.Qbo.Args.{and_then, keep_if, text_of}

pub data RowKind : Type 0 where
  section data_row section_total grand_total : RowKind

pub record Row : Type 0 where
  pub name : Str
  pub amount : Option ℕ
  pub depth : ℕ
  pub kind : RowKind
  pub entity_id : Option Str

abbrev pub is_data : RowKind → Bool
is_data data_row = true
is_data _ = false

abbrev pub is_section : RowKind → Bool
is_section section = true
is_section _ = false

abbrev pub is_section_total : RowKind → Bool
is_section_total section_total = true
is_section_total _ = false

abbrev pub is_grand_total : RowKind → Bool
is_grand_total grand_total = true
is_grand_total _ = false

-- `amount == 0.0`: the bits of either zero.
abbrev pub is_zero_f64 : ℕ → Bool
is_zero_f64 b = (b == 0) || (b == 2 ^ 63)

-- `is_finite`: the exponent is not all ones.
abbrev pub is_finite : ℕ → Bool
is_finite b = not (b / 2 ^ 52 % 2048 == 2047)

unfoldable pub is_zero : Row → Bool
is_zero row = elim row.amount [ none ↦ true | some amount ↦ is_zero_f64 amount ]

unfoldable pub is_not_specified : Row → Bool
unfolding trim eq_ignore_ascii_case
is_not_specified row =
    is_data row.kind && eq_ignore_ascii_case (trim row.name) (text "not specified")

-- What the loop of `omit_zero_rows` has: the rows kept, the last "Not specified" row, the last grand
-- total, and the section that is open.
pub record Omit : Type 0 where
  pub result : List Row
  pub not_specified : Option Row
  pub total : Option Row
  pub chunk : Option (List Row)

unfoldable pub no_rows : Omit
no_rows = record { result = []; not_specified = none; total = none; chunk = none }

-- The end of a section: it is kept if it has data.
unfoldable pub close_chunk : Option (List Row) → List Row
close_chunk none = []
close_chunk (some chunk) = if any (λ r. is_data r.kind) chunk then chunk else []

unfoldable pub close : Omit → Omit
unfolding close_chunk
close st = record {
  result = st.result ++ close_chunk st.chunk;
  not_specified = st.not_specified;
  total = st.total;
  chunk = none;
}

-- A row outside of any section.
unfoldable pub take_kind : RowKind → Omit → Row → Omit
unfolding is_zero
take_kind grand_total st row = record st { total = some row }
take_kind section st row = record st { chunk = some (row ∷ []) }
take_kind data_row st row = if is_zero row then st else record st { result = st.result ++ row ∷ [] }
take_kind section_total st row = st

unfoldable pub take_row : Omit → Row → Omit
unfolding take_kind is_not_specified
take_row st row =
    if is_not_specified row
    then record st { not_specified = some row }
    else take_kind row.kind st row

-- What ends a section without being part of it.
unfoldable pub breaks : Row → Bool
unfolding is_not_specified
breaks row = is_section row.kind || is_grand_total row.kind || is_not_specified row

unfoldable pub extend : List Row → Row → List Row
unfolding is_zero
extend chunk row = if is_section row.kind || not (is_zero row) then chunk ++ row ∷ [] else chunk

-- The next row of the loops: the inner one where a section is open.
unfoldable pub step_open : Option (List Row) → Omit → Row → Omit
unfolding close take_row breaks extend
step_open none st row = take_row st row
step_open (some chunk) st row =
    if breaks row
    then take_row (close st) row
    else if is_section_total row.kind
    then close (record st { chunk = some (extend chunk row) })
    else record st { chunk = some (extend chunk row) }

unfoldable pub omit_step : Omit → Row → Omit
unfolding step_open
omit_step st row = step_open st.chunk st row

unfoldable pub omit_loop : Omit → List Row → Omit
unfolding omit_step
omit_loop st [] = st
omit_loop st (row ∷ rows) = omit_loop (omit_step st row) rows

abbrev pub listed : Option Row → List Row
listed none = []
listed (some row) = row ∷ []

unfoldable pub omit_result : Omit → List Row
unfolding is_zero
omit_result st =
    (st.result ++ listed (keep_if (λ row. not (is_zero row)) st.not_specified)) ++ listed st.total

unfoldable pub omit_zero_rows : List Row → List Row
unfolding omit_loop omit_result close
omit_zero_rows rows = omit_result (close (omit_loop no_rows rows))

-- How a number is read: `as_f64` of an integer, and `str::parse::<f64>`; and how an `f64` prints.
module _ (float_text : ℕ → Str) (int_to_f64 : ℤ → ℕ) (parse_f64 : Str → Option ℕ) where
  unfoldable pub number_of : Value → Option ℕ
  unfolding trim replace keep_if
  number_of (num (int n)) = some (int_to_f64 n)
  number_of (num (float b)) = some b
  number_of (str s) = keep_if is_finite (parse_f64 (replace 0x2c [] (trim s)))
  number_of _ = none

  unfoldable pub list_of : Value → List Value
  unfolding items
  list_of (array vs) = items vs
  list_of null = []
  list_of other = other ∷ []

  unfoldable pub named_cols : List Value → Option (Str × Option ℕ × Option Str)
  unfolding index text_of trim number_of
  named_cols [] = none
  named_cols (first ∷ rest) =
      let amount : Option ℕ = elim rest [
        | [] ↦ none
        | second ∷ _ ↦ number_of (index second (text "value"))
      ] in
      and_then (text_of float_text (index first (text "value")))
        (λ name. some (trim name, amount, text_of float_text (index first (text "id"))))

  unfoldable pub named_amount : Value → Option (Str × Option ℕ × Option Str)
  unfolding index list_of named_cols
  named_amount holder = named_cols (list_of (index holder (text "ColData")))

  -- The `push` of `parse_rows`.
  unfoldable pub row_of : RowKind → ℕ → Option (Str × Option ℕ × Option Str) → List Row
  row_of kind depth none = []
  row_of kind depth (some (name, amount, id)) =
      record {
        name = name;
        amount = amount;
        depth = depth;
        kind = kind;
        entity_id = if is_data kind then id else none;
      }
      ∷ []
