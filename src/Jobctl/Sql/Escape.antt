-- ===== src/Jobctl/Sql/Escape.antt =====
-- Escaped cells: no tab or line break is left in them, and they can be read back.
use claude_job_runner.Prelude.{
  ℕ, ◌≡◌, refl, ◌∙◌, ap, Bool, true, false, Option, none, some, [], ◌∷◌, ◌++◌, append_assoc, Str,
  replace, ◌==◌, if◌then◌else◌, All, All-append, Bool-cases, ==→eq, inl, inr,
}
use claude_job_runner.Jobctl.Sql.{escape, show_cell, backslash, tab, newline}

replace-append : (c : ℕ) (by s t : Str) → replace c by (s ++ t) ≡ replace c by s ++ replace c by t
unfolding replace
replace-append c by [] t = refl
replace-append c by (x ∷ s) t = rw (replace-append c by s t) (rw append_assoc refl)

-- What one character becomes.
abbrev escape_char : ℕ → Str
escape_char c =
    if c == backslash
    then backslash ∷ (backslash ∷ [])
    else if c == tab
    then backslash ∷ (0x74 ∷ [])
    else if c == newline
    then backslash ∷ (0x6e ∷ [])
    else c ∷ []

data Kind (c : ℕ) : Type 0 where
  is_backslash : c ≡ backslash → Kind c
  is_tab : c ≡ tab → Kind c
  is_newline : c ≡ newline → Kind c
  is_plain : (c == backslash) ≡ false → (c == tab) ≡ false → (c == newline) ≡ false → Kind c

kind : (c : ℕ) → Kind c
kind c = elim (Bool-cases (c == backslash)) [
  | inl e ↦ is_backslash (==→eq c backslash e)
  | inr a ↦ elim (Bool-cases (c == tab)) [
    | inl e ↦ is_tab (==→eq c tab e)
    | inr b ↦ elim (Bool-cases (c == newline)) [
      | inl e ↦ is_newline (==→eq c newline e)
      | inr d ↦ is_plain a b d
    ]
  ]
]

escape-plain :
    (c : ℕ) (s : Str)
    → (c == backslash) ≡ false
    → (c == tab) ≡ false
    → (c == newline) ≡ false
    → escape (c ∷ s) ≡ c ∷ escape s
unfolding escape replace
escape-plain c s a b d = rw a (rw b (rw d refl))

escape-cons : (c : ℕ) (s : Str) → escape (c ∷ s) ≡ escape_char c ++ escape s
unfolding escape replace
escape-cons c s = elim (kind c) [
  | is_backslash e ↦ rw e refl
  | is_tab e ↦ rw e refl
  | is_newline e ↦ rw e refl
  | is_plain a b d ↦ escape-plain c s a b d ∙ rw a (rw b (rw d refl))
]

-- The reader of an escaped text: what a character stands for, behind a backslash and elsewhere.
unfoldable pub meant : ℕ → ℕ
meant c = if c == 0x74 then tab else if c == 0x6e then newline else c

unfoldable pub unescape_from : Bool → Str → Str
unescape_from b [] = []
unescape_from true (c ∷ s) = meant c ∷ unescape_from false s
unescape_from false (c ∷ s) =
    let escaped = unescape_from true s in
    let plain = c ∷ unescape_from false s in if c == backslash then escaped else plain

unfoldable pub unescape : Str → Str
unfolding unescape_from
unescape s = unescape_from false s

read_char :
    (c : ℕ) (s t : Str)
    → unescape_from false s ≡ t
    → unescape_from false (escape_char c ++ s) ≡ c ∷ t
unfolding unescape_from meant
read_char c s t h = elim (kind c) [
  | is_backslash e ↦ rw e (rw h refl)
  | is_tab e ↦ rw e (rw h refl)
  | is_newline e ↦ rw e (rw h refl)
  | is_plain a b d ↦ rw a (rw b (rw d (rw a (rw h refl))))
]

pub unescape-escape : (s : Str) → unescape (escape s) ≡ s
unfolding unescape
unescape-escape [] = unfold unescape_from escape replace in refl
unescape-escape (c ∷ s) =
    ap (unescape_from false) (escape-cons c s) ∙ read_char c (escape s) s (unescape-escape s)

-- No character `c` stands in a text.
abbrev pub Lacks : ℕ → Str → Type 0
Lacks c s = All (λ x. (x == c) ≡ false) s

escape_char-Lacks : (c : ℕ) → Lacks tab (escape_char c) × Lacks newline (escape_char c)
escape_char-Lacks c = elim (kind c) [
  | is_backslash e ↦ rw e ((refl, (refl, tt)), (refl, (refl, tt)))
  | is_tab e ↦ rw e ((refl, (refl, tt)), (refl, (refl, tt)))
  | is_newline e ↦ rw e ((refl, (refl, tt)), (refl, (refl, tt)))
  | is_plain a b d ↦ rw a (rw b (rw d ((b, tt), (d, tt))))
]

pub escape-Lacks : (s : Str) → Lacks tab (escape s) × Lacks newline (escape s)
escape-Lacks [] = unfold escape replace in (tt, tt)
escape-Lacks (c ∷ s) =
    let (t, n) = escape_char-Lacks c in
    let (ts, ns) = escape-Lacks s in
    rw (escape-cons c s)
      (All-append _ (escape_char c) (escape s) t ts, All-append _ (escape_char c) (escape s) n ns)

pub show_cell-Lacks :
    (cell : Option Str) → Lacks tab (show_cell cell) × Lacks newline (show_cell cell)
unfolding show_cell
show_cell-Lacks none = ((refl, (refl, (refl, (refl, tt)))), (refl, (refl, (refl, (refl, tt)))))
show_cell-Lacks (some cell) = escape-Lacks cell
