-- ===== src/Jobctl/Sql/Table.antt =====
-- The text of a query's result can be read back, column by column.
use claude_job_runner.Prelude.{
  ℕ, ◌≡◌, refl, ◌∙◌, ap, Option, none, some, List, [], ◌∷◌, ◌++◌, map, append_assoc, Str, text,
  join, split, All, All-append, ==_refl,
}
use claude_job_runner.Jobctl.Sql.{escape, show_cell, push_rows, format_table, tab, newline}
use claude_job_runner.Jobctl.Sql.Escape.{
  Lacks, unescape, unescape_from, meant, unescape-escape, show_cell-Lacks,
}

split-plain : (c : ℕ) (s : Str) → Lacks c s → split c s ≡ s ∷ []
unfolding split
split-plain c [] h = refl
split-plain c (x ∷ s) (hx, h) = rw hx (rw (split-plain c s h) refl)

split-append : (c : ℕ) (s t : Str) → Lacks c s → split c (s ++ c ∷ t) ≡ s ∷ split c t
unfolding split
split-append c [] t h = rw (==_refl c) refl
split-append c (x ∷ s) t (hx, h) = rw hx (rw (split-append c s t h) refl)

split-join :
    (c : ℕ) (p : Str) (ps : List Str)
    → All (Lacks c) (p ∷ ps)
    → split c (join (c ∷ []) (p ∷ ps)) ≡ p ∷ ps
unfolding join
split-join c p [] (h, _) = split-plain c p h
split-join c p (q ∷ ps) (h, hs) =
    split-append c p (join (c ∷ []) (q ∷ ps)) h ∙ ap (λ rest. p ∷ rest) (split-join c q ps hs)

join-Lacks :
    (c : ℕ) (sep : Str) (ps : List Str) → Lacks c sep → All (Lacks c) ps → Lacks c (join sep ps)
unfolding join
join-Lacks c sep [] hs h = tt
join-Lacks c sep (p ∷ []) hs (h, _) = h
join-Lacks c sep (p ∷ (q ∷ ps)) hs (h, h') =
    All-append _ p (sep ++ join sep (q ∷ ps)) h
      (All-append _ sep (join sep (q ∷ ps)) hs (join-Lacks c sep (q ∷ ps) hs h'))

-- A line of the table, and its text read back.
abbrev line : List (Option Str) → Str
line row = join (text "\t") (map show_cell row)

abbrev pub read_line : Str → List Str
read_line s = map unescape (split tab s)

abbrev pub read_table : Str → List (List Str)
read_table s = map read_line (split newline s)

-- A cell as the reader sees it: NULL is not told from its name.
abbrev pub read_cell : Option Str → Str
read_cell none = text "NULL"
read_cell (some s) = s

cells_Lack :
    (row : List (Option Str))
    → All (Lacks tab) (map show_cell row) × All (Lacks newline) (map show_cell row)
cells_Lack [] = (tt, tt)
cells_Lack (cell ∷ row) =
    let (t, n) = show_cell-Lacks cell in let (ts, ns) = cells_Lack row in ((t, ts), (n, ns))

line-Lacks : (row : List (Option Str)) → Lacks newline (line row)
line-Lacks row = join-Lacks newline (text "\t") (map show_cell row) (refl, tt) (cells_Lack row).1

unescape-show_cell : (cell : Option Str) → unescape (show_cell cell) ≡ read_cell cell
unfolding show_cell
unescape-show_cell none = unfold unescape unescape_from meant in refl
unescape-show_cell (some s) = unescape-escape s

read-cells : (row : List (Option Str)) → map unescape (map show_cell row) ≡ map read_cell row
read-cells [] = refl
read-cells (cell ∷ row) = rw (unescape-show_cell cell) (rw (read-cells row) refl)

-- A row of a result has at least one column.
abbrev pub HasCell : List (Option Str) → Type 0
HasCell [] = ⊥
HasCell (_ ∷ _) = Unit

read_line-line : (row : List (Option Str)) → HasCell row → read_line (line row) ≡ map read_cell row
read_line-line [] h = absurd h
read_line-line (cell ∷ row) h =
    ap (map unescape)
      (split-join tab (show_cell cell) (map show_cell row) (cells_Lack (cell ∷ row)).0)
    ∙ read-cells (cell ∷ row)

-- The table is its lines, joined.
push_rows-join :
    (out : Str) (rows : List (List (Option Str)))
    → push_rows out rows ≡ join (text "\n") (out ∷ map line rows)
unfolding push_rows join
push_rows-join out [] = refl
push_rows-join out (row ∷ rows) =
    push_rows-join ((out ++ newline ∷ []) ++ line row) rows ∙ glue out (line row) (map line rows)
  where
    glue :
        (a b : Str) (ps : List Str)
        → join (text "\n") (((a ++ newline ∷ []) ++ b) ∷ ps) ≡ join (text "\n") (a ∷ (b ∷ ps))
    glue a b [] = append_assoc a (newline ∷ []) b
    glue a b (q ∷ ps) = rw append_assoc (rw append_assoc refl)

lines_Lack : (rows : List (List (Option Str))) → All (Lacks newline) (map line rows)
lines_Lack [] = tt
lines_Lack (row ∷ rows) = (line-Lacks row, lines_Lack rows)

read-lines :
    (rows : List (List (Option Str)))
    → All HasCell rows
    → map read_line (map line rows) ≡ map (map read_cell) rows
read-lines [] h = refl
read-lines (row ∷ rows) (h, hs) = rw (read_line-line row h) (rw (read-lines rows hs) refl)

show-columns : (columns : List Str) → map escape columns ≡ map show_cell (map some columns)
unfolding show_cell
show-columns [] = refl
show-columns (c ∷ cs) = rw (show-columns cs) refl

read-columns : (columns : List Str) → map read_cell (map some columns) ≡ columns
read-columns [] = refl
read-columns (c ∷ cs) = rw (read-columns cs) refl

-- The text of a table gives back its columns and its cells, whatever tabs, line breaks and
-- backslashes are in them: cut at the line breaks, then at the tabs, and unescaped. The table has
-- a column, as has every row; NULL reads as its name.
pub read_table-format_table :
    (column : Str) (columns : List Str) (rows : List (List (Option Str)))
    → All HasCell rows
    → read_table (format_table (column ∷ columns) rows)
      ≡ (column ∷ columns) ∷ map (map read_cell) rows
read_table-format_table column columns rows h =
    let header : List (Option Str) = map some (column ∷ columns) in
    ap read_table (table_lines (column ∷ columns) rows)
    ∙ ap (map read_line)
        (split-join newline (line header) (map line rows) (line-Lacks header, lines_Lack rows))
    ∙ ap (λ ls. read_line (line header) ∷ ls) (read-lines rows h)
    ∙ ap (λ l. l ∷ map (map read_cell) rows)
        (read_line-line header tt ∙ read-columns (column ∷ columns))
  where
    table_lines :
        (columns : List Str) (rows : List (List (Option Str)))
        → format_table columns rows ≡ join (text "\n") (line (map some columns) ∷ map line rows)
    table_lines columns rows =
        unfold format_table in
        ap (λ cells. push_rows (join (text "\t") cells) rows) (show-columns columns)
        ∙ push_rows-join (line (map some columns)) rows
