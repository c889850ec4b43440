-- ===== src/Jobctl/Qbo/Reps/Progress.antt =====
-- Each round of the loop over the classes of a sales rep finds a class that was missing.
use claude_job_runner.Prelude.{
  ℕ, suc, ◌≤◌, ◌<◌, ◌≡◌, refl, sym, true, false, ◌||◌, List, [], ◌∷◌, ◌++◌, arith, length, All,
  subst, Str, if◌then◌else◌, is_empty, eq_str_refl, Bool-cases, inl, inr,
}
use claude_job_runner.Jobctl.Qbo.Reps.{QboClass, contains, is_child, children}

pub contains-append :
    (xs ys : List Str) (id : Str) → contains (xs ++ ys) id ≡ (contains xs id || contains ys id)
contains-append [] ys id = refl
contains-append (x ∷ xs) ys id = ground (arith, contains-append xs ys id)

-- The classes whose ids are not among `matched`.
pub missing : List QboClass → List Str → ℕ
missing [] matched = 0
missing (c ∷ cs) matched =
    let rest = missing cs matched in if contains matched c.id then rest else suc rest

pub missing-length : (cs : List QboClass) (matched : List Str) → missing cs matched ≤ length cs
unfolding missing
missing-length [] matched = omega arith
missing-length (c ∷ cs) matched = ground (arith, missing-length cs matched)

missing_mono :
    (cs : List QboClass) (matched more : List Str)
    → missing cs (matched ++ more) ≤ missing cs matched
unfolding missing
missing_mono [] matched more = omega arith
missing_mono (c ∷ cs) matched more =
    ground (arith, missing_mono cs matched more, contains-append matched more c.id)

-- The class is a child, and its id is among `more`.
abbrev pub Adds : List Str → List Str → List QboClass → Type 0
Adds matched more cs = All (λ c. is_child matched c ≡ true → contains more c.id ≡ true) cs

is_child-missing :
    (matched : List Str) (c : QboClass) → is_child matched c ≡ true → contains matched c.id ≡ false
unfolding is_child
is_child-missing matched c h = ground arith

children_skip :
    (matched : List Str) (c : QboClass) (cs : List QboClass)
    → is_child matched c ≡ false
    → is_empty (children (c ∷ cs) matched) ≡ false
    → is_empty (children cs matched) ≡ false
unfolding children
children_skip matched c cs e = rw e (λ h. h)

pub missing_less :
    (cs : List QboClass) (matched more : List Str)
    → Adds matched more cs
    → is_empty (children cs matched) ≡ false
    → missing cs (matched ++ more) < missing cs matched
unfolding missing children
missing_less [] matched more h some_child = absurd (ground arith)
missing_less (c ∷ cs) matched more (hc, h) some_child = elim (Bool-cases (is_child matched c)) [
  | inl e ↦ ground (
    arith,
    missing_mono cs matched more,
    contains-append matched more c.id,
    hc e,
    is_child-missing matched c e,
  )
  | inr e ↦
      let ih = missing_less cs matched more h (children_skip matched c cs e some_child) in
      ground (arith, ih, missing_mono cs matched more, contains-append matched more c.id)
]

Adds-cons :
    (matched more : List Str) (id : Str) (cs : List QboClass)
    → Adds matched more cs
    → Adds matched (id ∷ more) cs
Adds-cons matched more id [] h = tt
Adds-cons matched more id (c ∷ cs) (hc, h) =
    ((λ e. ground (arith, hc e)), Adds-cons matched more id cs h)

children_yes :
    (matched : List Str) (c : QboClass) (cs : List QboClass)
    → is_child matched c ≡ true
    → children (c ∷ cs) matched ≡ c.id ∷ children cs matched
unfolding children
children_yes matched c cs e = rw e refl

children_no :
    (matched : List Str) (c : QboClass) (cs : List QboClass)
    → is_child matched c ≡ false
    → children (c ∷ cs) matched ≡ children cs matched
unfolding children
children_no matched c cs e = rw e refl

pub children-Adds :
    (cs : List QboClass) (matched : List Str) → Adds matched (children cs matched) cs
children-Adds [] matched = tt
children-Adds (c ∷ cs) matched = elim (Bool-cases (is_child matched c)) [
  | inl e ↦
      subst (λ more. Adds matched more (c ∷ cs)) (sym (children_yes matched c cs e))
        (
          (λ _. ground (arith, eq_str_refl c.id)),
          Adds-cons matched (children cs matched) c.id cs (children-Adds cs matched),
        )
  | inr e ↦
      subst (λ more. Adds matched more (c ∷ cs)) (sym (children_no matched c cs e))
        ((λ yes. absurd (ground (arith, yes, e))), children-Adds cs matched)
]
