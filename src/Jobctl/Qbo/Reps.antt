-- ===== src/Jobctl/Qbo/Reps.antt =====
-- crates/jobctl/src/qbo.rs: the QuickBooks classes that are a sales rep's. `lower` is
-- `str::to_lowercase`.
pub mod Progress
pub mod Closure
use claude_job_runner.Prelude.{
  ℕ, zero, suc, Bool, true, false, not, ◌&&◌, ◌||◌, Option, none, some, List, [], ◌∷◌, ◌++◌, map,
  filter, any, length, Str, text, if◌then◌else◌, ◌==◌, leb, trim, trim_start, is_empty,
  is_whitespace, starts_with, eq_str,
}
use claude_job_runner.Jobctl.Qbo.Report.{Row, is_data}

pub record QboClass : Type 0 where
  pub id : Str
  pub name : Str
  pub fully_qualified_name : Str
  pub parent_id : Option Str

abbrev take_word : Str → Str
take_word [] = []
take_word (c ∷ s) = let rest = take_word s in if is_whitespace c then [] else c ∷ rest

-- `split_whitespace().next().unwrap_or_default()`
unfoldable pub first_word : Str → Str
unfolding trim_start is_whitespace
first_word s = take_word (trim_start s)

-- `rsplit(':').next()`: what stands behind the last colon.
unfoldable pub leaf_from : Str → Str → Str
leaf_from acc [] = acc
leaf_from acc (c ∷ s) = if c == b':' then leaf_from [] s else leaf_from (acc ++ c ∷ []) s

unfoldable pub leaf : Str → Str
unfolding leaf_from
leaf s = leaf_from [] s

abbrev pub contains : List Str → Str → Bool
contains ids id = any (λ x. eq_str x id) ids

module _ (lower : Str → Str) where
  unfoldable pub matches_text : Str → Str → Bool
  unfolding first_word starts_with
  matches_text row rep =
      let first = first_word rep in
      if is_empty row || is_empty rep
      then false
      else if eq_str row rep || starts_with (rep ++ text "/") row
      then true
      else leb 3 (length first) && (eq_str row first || starts_with (first ++ text "/") row)

  unfoldable pub matches_rep : Str → Str → Bool
  unfolding matches_text trim
  matches_rep row_name rep_name = matches_text (lower (trim row_name)) (lower (trim rep_name))

  unfoldable pub matches_class : Str → QboClass → Bool
  unfolding matches_rep leaf
  matches_class rep_name cls =
      matches_rep cls.name rep_name
      || matches_rep cls.fully_qualified_name rep_name
      || matches_rep (leaf cls.fully_qualified_name) rep_name

  -- The rows of `sum_for_rep`, whose amounts `total` adds.
  unfoldable pub rep_rows : List Row → Str → List Row
  unfolding matches_rep
  rep_rows rows rep_name = filter (λ row. is_data row.kind && matches_rep row.name rep_name) rows

unfoldable pub is_child : List Str → QboClass → Bool
is_child matched cls =
    elim cls.parent_id [ none ↦ false | some parent ↦ contains matched parent ]
    && not (contains matched cls.id)

unfoldable pub children : List QboClass → List Str → List Str
unfolding is_child
children classes matched = map (λ (cls : QboClass). cls.id) (filter (is_child matched) classes)

-- The `loop`, in a number of rounds.
unfoldable pub rounds : ℕ → List QboClass → List Str → Option (List Str)
unfolding children
rounds zero classes matched = none
rounds (suc n) classes matched =
    let more = children classes matched in
    let rest = rounds n classes (matched ++ more) in if is_empty more then some matched else rest

module _ (lower : Str → Str) where
  unfoldable pub matching : List QboClass → Str → List Str
  unfolding matches_class
  matching classes rep_name =
      map (λ (cls : QboClass). cls.id) (filter (matches_class lower rep_name) classes)

  -- One more round than there are classes.
  unfoldable pub class_ids_for_rep : List QboClass → Str → Option (List Str)
  unfolding trim rounds matching
  class_ids_for_rep classes rep_name =
      if is_empty (trim rep_name)
      then some []
      else rounds (suc (length classes)) classes (matching classes rep_name)
