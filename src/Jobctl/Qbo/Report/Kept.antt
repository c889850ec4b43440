-- ===== src/Jobctl/Qbo/Report/Kept.antt =====
-- What `omit_zero_rows` keeps and what it drops.
use claude_job_runner.Prelude.{
  ◌≡◌, refl, sym, ◌∙◌, ap, Bool, true, false, not, Option, none, some, List, [], ◌∷◌, ◌++◌,
  append-nil, if◌then◌else◌,
}
use claude_job_runner.Jobctl.Qbo.Args.{keep_if}
use claude_job_runner.Jobctl.Qbo.Report.{
  Row, RowKind, section, data_row, section_total, grand_total, is_data, is_section_total, is_zero,
  is_not_specified, Omit, no_rows, close, take_kind, take_row, breaks, extend, step_open, omit_step,
  omit_loop, listed, omit_result, omit_zero_rows,
}
use claude_job_runner.Jobctl.Qbo.Report.Figures.{
  figures, figures-append, closed, close-so_far, not_figure, unspecified-not_figure,
  omit_loop-so_far,
}

-- The rows kept for the end are no figures.
record Aside (st : Omit) : Type 0 where
  unnamed : figures (listed st.not_specified) ≡ []
  totals : figures (listed st.total) ≡ []

close-Aside : (st : Omit) → Aside st → Aside (close st)
unfolding close
close-Aside st h = record { unnamed = h.unnamed; totals = h.totals }

take_kind-Aside :
    (k : RowKind) (st : Omit) (row : Row) → row.kind ≡ k → Aside st → Aside (take_kind k st row)
unfolding take_kind
take_kind-Aside grand_total st row e h = record {
  unnamed = h.unnamed;
  totals = rw (not_figure row (ap is_data e)) refl;
}
take_kind-Aside section st row e h = record { unnamed = h.unnamed; totals = h.totals }
take_kind-Aside section_total st row e h = h
take_kind-Aside data_row st row e h = branch st row (is_zero row) h
  where
    branch :
        (st : Omit) (row : Row) (b : Bool)
        → Aside st
        → Aside (if b then st else record st { result = st.result ++ row ∷ [] })
    branch st row true h = h
    branch st row false h = record { unnamed = h.unnamed; totals = h.totals }

take_row-Aside : (st : Omit) (row : Row) → Aside st → Aside (take_row st row)
unfolding take_row
take_row-Aside st row h = branch (is_not_specified row) refl
  where
    branch :
        (b : Bool)
        → is_not_specified row ≡ b
        → Aside (if b then record st { not_specified = some row } else take_kind row.kind st row)
    branch true e = record { unnamed = rw (unspecified-not_figure row e) refl; totals = h.totals }
    branch false e = take_kind-Aside row.kind st row refl h

step_open-Aside :
    (o : Option (List Row)) (st : Omit) (row : Row) → Aside st → Aside (step_open o st row)
unfolding step_open
step_open-Aside none st row h = take_row-Aside st row h
step_open-Aside (some chunk) st row h = branch (breaks row) (is_section_total row.kind)
  where
    later : Aside (record st { chunk = some (extend chunk row) })
    later = record { unnamed = h.unnamed; totals = h.totals }

    branch :
        (b c : Bool)
        → Aside (
            if b
            then take_row (close st) row
            else if c
            then close (record st { chunk = some (extend chunk row) })
            else record st { chunk = some (extend chunk row) })
    branch true c = take_row-Aside (close st) row (close-Aside st h)
    branch false true = close-Aside (record st { chunk = some (extend chunk row) }) later
    branch false false = later

omit_loop-Aside : (rows : List Row) (st : Omit) → Aside st → Aside (omit_loop st rows)
unfolding omit_loop omit_step
omit_loop-Aside [] st h = h
omit_loop-Aside (row ∷ rows) st h =
    omit_loop-Aside rows (omit_step st row) (step_open-Aside st.chunk st row h)

keep_if-figures :
    (o : Option Row)
    → figures (listed o) ≡ []
    → figures (listed (keep_if (λ row. not (is_zero row)) o)) ≡ []
unfolding keep_if
keep_if-figures none h = refl
keep_if-figures (some row) h = branch (not (is_zero row)) h
  where
    branch :
        (b : Bool) → figures (row ∷ []) ≡ [] → figures (listed (if b then some row else none)) ≡ []
    branch true h = h
    branch false h = refl

omit_result-figures : (st : Omit) → Aside st → figures (omit_result st) ≡ figures st.result
unfolding omit_result
omit_result-figures st h =
    let spare : List Row = listed (keep_if (λ row. not (is_zero row)) st.not_specified) in
    figures-append (st.result ++ spare) (listed st.total)
    ∙ ap (λ rows. figures (st.result ++ spare) ++ rows) h.totals
    ∙ append-nil (figures (st.result ++ spare))
    ∙ figures-append st.result spare
    ∙ ap (λ rows. figures st.result ++ rows) (keep_if-figures st.not_specified h.unnamed)
    ∙ append-nil (figures st.result)

-- `omit_zero_rows` keeps every data row whose amount is not zero, other than "Not specified", once
-- and in its place among them, whatever sections are opened, closed or dropped around it.
pub figures-omit_zero_rows : (rows : List Row) → figures (omit_zero_rows rows) ≡ figures rows
unfolding omit_zero_rows
figures-omit_zero_rows rows =
    let last : Omit = omit_loop no_rows rows in
    omit_result-figures (close last) (close-Aside last (omit_loop-Aside rows no_rows fresh))
    ∙ sym (closed (close last) (unfold close in refl))
    ∙ close-so_far last
    ∙ omit_loop-so_far rows no_rows
    ∙ unfold no_rows in refl
  where
    fresh : Aside no_rows
    fresh = unfold no_rows in record { unnamed = refl; totals = refl }
