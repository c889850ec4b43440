-- ===== src/Jobctl/Qbo/Reps/Closure.antt =====
-- The loop over the classes of a sales rep ends, with every class below them.
use claude_job_runner.Prelude.{
  ℕ, zero, suc, ◌<◌, ◌≡◌, refl, Bool, true, false, not, ◌&&◌, Option, none, some, List, [], ◌∷◌,
  ◌++◌, arith, length, All, All-append, subst, Str, is_empty, trim, eq_str, eq_str_sound,
  Bool-cases, inl, inr,
}
use claude_job_runner.Jobctl.Qbo.Reps.{
  QboClass, contains, is_child, children, rounds, matching, class_ids_for_rep,
}
use claude_job_runner.Jobctl.Qbo.Reps.Progress.{
  contains-append, missing, missing-length, missing_less, children-Adds,
}

-- A class whose parent is in a set of ids.
abbrev pub below : (Str → Bool) → QboClass → Bool
below P c = elim c.parent_id [ none ↦ false | some parent ↦ P parent ]

-- A set of ids that holds every class below one of them.
abbrev pub Closed : List QboClass → (Str → Bool) → Type 0
Closed cs P = All (λ (c : QboClass). below P c ≡ true → P c.id ≡ true) cs

left_out : (a b : Bool) → (a && not b) ≡ false → a ≡ true → b ≡ true
left_out a b h e = ground arith

no_children :
    (cs : List QboClass) (matched : List Str)
    → is_empty (children cs matched) ≡ true
    → Closed cs (contains matched)
unfolding children
no_children [] matched h = tt
no_children (c ∷ cs) matched h = elim (Bool-cases (is_child matched c)) [
  | inl e ↦ absurd (some_left matched c cs e h)
  | inr e ↦ (
    (λ under.
        left_out (below (contains matched) c) (contains matched c.id) (unfold is_child in e) under),
    no_children cs matched (skipped matched c cs e h),
  )
]
  where
    some_left :
        (matched : List Str) (c : QboClass) (cs : List QboClass)
        → is_child matched c ≡ true
        → is_empty (children (c ∷ cs) matched) ≡ true
        → ⊥
    some_left matched c cs e = unfold children in rw e (λ h. ground arith)

    skipped :
        (matched : List Str) (c : QboClass) (cs : List QboClass)
        → is_child matched c ≡ false
        → is_empty (children (c ∷ cs) matched) ≡ true
        → is_empty (children cs matched) ≡ true
    skipped matched c cs e = unfold children in rw e (λ h. h)

-- The ids that a closed set holds.
abbrev pub Within : (Str → Bool) → List Str → Type 0
Within P ids = All (λ id. P id ≡ true) ids

Within-below :
    (P : Str → Bool) (matched : List Str) (c : QboClass)
    → ((id : Str) → contains matched id ≡ true → P id ≡ true)
    → is_child matched c ≡ true
    → below P c ≡ true
unfolding is_child
Within-below P matched c h e = raised c.parent_id (ground arith)
  where
    raised :
        (o : Option Str)
        → elim o [ none ↦ false | some parent ↦ contains matched parent ] ≡ true
        → elim o [ none ↦ false | some parent ↦ P parent ] ≡ true
    raised none k = k
    raised (some parent) k = h parent k

Within-contains :
    (P : Str → Bool) (ids : List Str) (id : Str)
    → Within P ids
    → contains ids id ≡ true
    → P id ≡ true
Within-contains P [] id h e = absurd (ground arith)
Within-contains P (x ∷ ids) id (hx, h) e = elim (Bool-cases (eq_str x id)) [
  | inl same ↦ subst (λ i. P i ≡ true) (eq_str_sound x id same) hx
  | inr other ↦ Within-contains P ids id h (ground (arith, e, other))
]

children-Within :
    (P : Str → Bool) (cs : List QboClass) (matched : List Str)
    → Closed cs P
    → Within P matched
    → Within P (children cs matched)
unfolding children
children-Within P [] matched h k = tt
children-Within P (c ∷ cs) matched (hc, h) k = elim (Bool-cases (is_child matched c)) [
  | inl e ↦ rw e (
    hc (Within-below P matched c (λ id. Within-contains P matched id k) e),
    children-Within P cs matched h k,
  )
  | inr e ↦ rw e (children-Within P cs matched h k)
]

-- What the loop finds from `matched`: nothing is lost, the classes below are there, and nothing else is.
record Least (cs : List QboClass) (matched ids : List Str) : Type 0 where
  keeps : (id : Str) → contains matched id ≡ true → contains ids id ≡ true
  whole : Closed cs (contains ids)
  only : (P : Str → Bool) → Closed cs P → Within P matched → Within P ids

rounds-Least :
    (n : ℕ) (cs : List QboClass) (matched : List Str)
    → missing cs matched < n
    → (ids : List Str) × (rounds n cs matched ≡ some ids) × Least cs matched ids
unfolding rounds
rounds-Least zero cs matched h = absurd (omega arith)
rounds-Least (suc n) cs matched h = elim (Bool-cases (is_empty (children cs matched))) [
  | inl e ↦ (
    matched,
    rw e refl,
    record { keeps = λ id k. k; whole = no_children cs matched e; only = λ P c k. k },
  )
  | inr e ↦
      let more = children cs matched in
      let less = missing_less cs matched more (children-Adds cs matched) e in
      let (ids, found, least) = rounds-Least n cs (matched ++ more) (omega (arith, less, h)) in
      (
        ids,
        rw e found,
        record {
          keeps = λ id k. least.keeps id (ground (arith, contains-append matched more id, k));
          whole = least.whole;
          only = λ P c k.
              least.only P c (All-append _ matched more k (children-Within P cs matched c k));
        },
      )
]

-- For a rep whose name is not blank the loop ends, within one round more than there are classes, with
-- the least set of ids that has the classes that match the name and every class below one of the
-- set: the matching ids are in it, it is closed, and it lies within every closed set that has them.
pub class_ids-least :
    (lower : Str → Str) (classes : List QboClass) (rep_name : Str)
    → is_empty (trim rep_name) ≡ false
    → (ids : List Str) × (class_ids_for_rep lower classes rep_name ≡ some ids)
      × ((id : Str) → contains (matching lower classes rep_name) id ≡ true → contains ids id ≡ true)
      × Closed classes (contains ids)
      × ((P : Str → Bool)
          → Closed classes P
          → Within P (matching lower classes rep_name)
          → Within P ids)
unfolding class_ids_for_rep
class_ids-least lower classes rep_name h =
    let start = matching lower classes rep_name in
    let (ids, found, least) =
      rounds-Least (suc (length classes)) classes start
        (omega (arith, missing-length classes start)) in
    (ids, rw h found, least.keeps, least.whole, least.only)
