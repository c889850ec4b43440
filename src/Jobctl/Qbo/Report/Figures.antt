-- ===== src/Jobctl/Qbo/Report/Figures.antt =====
-- The figures that `omit_zero_rows` keeps.
use claude_job_runner.Prelude.{
  ◌≡◌, refl, sym, ◌∙◌, ap, Bool, true, false, not, ◌&&◌, ◌||◌, Option, none, some, List, [], ◌∷◌,
  ◌++◌, arith, any, filter, append_assoc, append-nil, if◌then◌else◌, Bool-cases, inl, inr,
}
use claude_job_runner.Jobctl.Qbo.Report.{
  Row, RowKind, section, data_row, section_total, grand_total, is_data, is_section,
  is_section_total, is_zero, is_not_specified, Omit, close_chunk, close, take_kind, take_row,
  breaks, extend, step_open, omit_step, omit_loop,
}

-- A figure of the report: a data row with an amount that is not zero, "Not specified" left aside.
abbrev pub is_figure : Row → Bool
is_figure row = is_data row.kind && not (is_zero row) && not (is_not_specified row)

abbrev pub figures : List Row → List Row
figures rows = filter is_figure rows

pub figures-append : (xs ys : List Row) → figures (xs ++ ys) ≡ figures xs ++ figures ys
figures-append [] ys = refl
figures-append (x ∷ xs) ys = elim (Bool-cases (is_figure x)) [
  | inl e ↦ rw e (rw (figures-append xs ys) refl)
  | inr e ↦ rw e (figures-append xs ys)
]

figures_none : (xs : List Row) → any (λ r. is_data r.kind) xs ≡ false → figures xs ≡ []
figures_none [] h = refl
figures_none (x ∷ xs) h =
    let plain : is_figure x ≡ false = ground arith in rw plain (figures_none xs (ground arith))

abbrev pub opened : Option (List Row) → List Row
opened none = []
opened (some chunk) = chunk

-- The figures met so far.
abbrev pub so_far : Omit → List Row
so_far st = figures st.result ++ figures (opened st.chunk)

close_chunk-figures : (o : Option (List Row)) → figures (close_chunk o) ≡ figures (opened o)
unfolding close_chunk
close_chunk-figures none = refl
close_chunk-figures (some chunk) = elim (Bool-cases (any (λ r. is_data r.kind) chunk)) [
  | inl e ↦ rw e refl
  | inr e ↦ rw e (sym (figures_none chunk e))
]

pub close-so_far : (st : Omit) → so_far (close st) ≡ so_far st
unfolding close
close-so_far st =
    append-nil (figures (st.result ++ close_chunk st.chunk))
    ∙ figures-append st.result (close_chunk st.chunk)
    ∙ ap (λ rows. figures st.result ++ rows) (close_chunk-figures st.chunk)

-- One row, as far as it is a figure.
abbrev pub figure : Row → List Row
figure row = figures (row ∷ [])

-- Outside of any section.
pub closed : (st : Omit) → st.chunk ≡ none → so_far st ≡ figures st.result
closed st at = ap (λ o. figures st.result ++ figures (opened o)) at ∙ append-nil (figures st.result)

skip :
    (st : Omit) (row : Row)
    → is_figure row ≡ false
    → st.chunk ≡ none
    → so_far st ≡ figures st.result ++ figure row
skip st row plain at =
    let nothing : figure row ≡ [] = rw plain refl in
    closed st at
    ∙ sym (append-nil (figures st.result))
    ∙ ap (λ rows. figures st.result ++ rows) (sym nothing)

push :
    (st : Omit) (row : Row)
    → st.chunk ≡ none
    → so_far (record st { result = st.result ++ row ∷ [] }) ≡ figures st.result ++ figure row
push st row at =
    closed (record st { result = st.result ++ row ∷ [] }) at ∙ figures-append st.result (row ∷ [])

pub not_figure : (row : Row) → is_data row.kind ≡ false → is_figure row ≡ false
not_figure row h = ground arith

pub zero-not_figure : (row : Row) → is_zero row ≡ true → is_figure row ≡ false
zero-not_figure row h = ground arith

pub unspecified-not_figure : (row : Row) → is_not_specified row ≡ true → is_figure row ≡ false
unspecified-not_figure row h = ground arith

take_kind-so_far :
    (k : RowKind) (st : Omit) (row : Row)
    → row.kind ≡ k
    → st.chunk ≡ none
    → so_far (take_kind k st row) ≡ figures st.result ++ figure row
unfolding take_kind
take_kind-so_far grand_total st row e at = skip st row (not_figure row (ap is_data e)) at
take_kind-so_far section st row e at = refl
take_kind-so_far data_row st row e at = elim (Bool-cases (is_zero row)) [
  | inl z ↦ dropped st row z at
  | inr z ↦ kept st row z at
]
  where
    dropped :
        (st : Omit) (row : Row)
        → is_zero row ≡ true
        → st.chunk ≡ none
        → so_far (if is_zero row then st else record st { result = st.result ++ row ∷ [] })
          ≡ figures st.result ++ figure row
    dropped st row z at =
        ap (λ (b : Bool). so_far (if b then st else record st { result = st.result ++ row ∷ [] })) z
        ∙ skip st row (zero-not_figure row z) at

    kept :
        (st : Omit) (row : Row)
        → is_zero row ≡ false
        → st.chunk ≡ none
        → so_far (if is_zero row then st else record st { result = st.result ++ row ∷ [] })
          ≡ figures st.result ++ figure row
    kept st row z at =
        ap (λ (b : Bool). so_far (if b then st else record st { result = st.result ++ row ∷ [] })) z
        ∙ push st row at
take_kind-so_far section_total st row e at = skip st row (not_figure row (ap is_data e)) at

take_row-so_far :
    (st : Omit) (row : Row)
    → st.chunk ≡ none
    → so_far (take_row st row) ≡ figures st.result ++ figure row
unfolding take_row
take_row-so_far st row at = elim (Bool-cases (is_not_specified row)) [
  | inl n ↦
      ap
        (λ (b : Bool).
          so_far (if b then record st { not_specified = some row } else take_kind row.kind st row))
        n
      ∙ skip st row (unspecified-not_figure row n) at
  | inr n ↦
      ap
        (λ (b : Bool).
          so_far (if b then record st { not_specified = some row } else take_kind row.kind st row))
        n
      ∙ take_kind-so_far row.kind st row refl at
]

extend-figures :
    (chunk : List Row) (row : Row) → figures (extend chunk row) ≡ figures chunk ++ figure row
unfolding extend
extend-figures chunk row = elim (Bool-cases (is_section row.kind || not (is_zero row))) [
  | inl e ↦ rw e (figures-append chunk (row ∷ []))
  | inr e ↦
      let plain : is_figure row ≡ false = ground arith in
      rw e (rw plain (sym (append-nil (figures chunk))))
]

-- What stands for the result of one step.
abbrev Counts : Omit → Row → Omit → Type 0
Counts st row st' = so_far st' ≡ so_far st ++ figure row

open_step-Counts :
    (chunk : List Row) (st : Omit) (row : Row)
    → st.chunk ≡ some chunk
    → Counts st row (step_open (some chunk) st row)
unfolding step_open
open_step-Counts chunk st row at =
    let inside : so_far (record st { chunk = some (extend chunk row) }) ≡ so_far st ++ figure row =
      ap (λ rows. figures st.result ++ rows) (extend-figures chunk row)
      ∙ sym (append_assoc (figures st.result) (figures chunk) (figure row))
      ∙ ap (λ o. (figures st.result ++ figures (opened o)) ++ figure row) (sym at) in
    branch chunk st row (breaks row) (is_section_total row.kind) (broken chunk st row at) inside
  where
    broken :
        (chunk : List Row) (st : Omit) (row : Row)
        → st.chunk ≡ some chunk
        → Counts st row (take_row (close st) row)
    broken chunk st row at =
        take_row-so_far (close st) row (unfold close in refl)
        ∙ ap (λ rows. rows ++ figure row)
            (sym (closed (close st) (unfold close in refl)) ∙ close-so_far st)

    branch :
        (chunk : List Row) (st : Omit) (row : Row) (b c : Bool)
        → Counts st row (take_row (close st) row)
        → Counts st row (record st { chunk = some (extend chunk row) })
        → Counts st row (
            if b
            then take_row (close st) row
            else if c
            then close (record st { chunk = some (extend chunk row) })
            else record st { chunk = some (extend chunk row) })
    branch chunk st row true c h k = h
    branch chunk st row false true h k =
        close-so_far (record st { chunk = some (extend chunk row) }) ∙ k
    branch chunk st row false false h k = k

step_open-Counts :
    (o : Option (List Row)) (st : Omit) (row : Row)
    → st.chunk ≡ o
    → Counts st row (step_open o st row)
step_open-Counts none st row at =
    unfold step_open in
    take_row-so_far st row at ∙ ap (λ rows. rows ++ figure row) (sym (closed st at))
step_open-Counts (some chunk) st row at = open_step-Counts chunk st row at

pub omit_loop-so_far :
    (rows : List Row) (st : Omit) → so_far (omit_loop st rows) ≡ so_far st ++ figures rows
unfolding omit_loop omit_step
omit_loop-so_far [] st = sym (append-nil (so_far st))
omit_loop-so_far (row ∷ rows) st =
    omit_loop-so_far rows (omit_step st row)
    ∙ ap (λ before. before ++ figures rows) (step_open-Counts st.chunk st row refl)
    ∙ append_assoc (so_far st) (figure row) (figures rows)
    ∙ ap (λ after. so_far st ++ after) (sym (figures-append (row ∷ []) rows))
