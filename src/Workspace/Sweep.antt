-- ===== src/Workspace/Sweep.antt =====
-- What a job and the start-up sweep leave in the workspace root.
use claude_job_runner.Prelude.{
  ℕ, suc, ◌≡◌, refl, Bool, true, false, ◌&&◌, Option, none, some, [], ◌∷◌, arith, Str, eq_str_refl,
  starts_with, filter, not, length, ok, err, Bool-cases, inl, inr, ap, ◌⊎◌, subst, ◌++◌, map_ok,
  map_err, ◌∙◌, sym, zero, Result, text, ◌==◌,
}
use claude_job_runner.Job.{MessageId}
use claude_job_runner.Workspace.{
  Entry, Root, WorkspaceError, is_ours, is_directory, sweep_entry, Listing, io, sweep_entries,
  sweep, create, remove, without, exists, dir_name, dir_prefix,
}

-- The name begins with the four characters "job-".
abbrev pub is_job_name : Str → Bool
is_job_name (j ∷ (o ∷ (b ∷ (dash ∷ rest)))) =
    (j == b'j') && ((o == b'o') && ((b == b'b') && (dash == b'-')))
is_job_name (j ∷ (o ∷ (b ∷ []))) = false
is_job_name (j ∷ (o ∷ [])) = false
is_job_name (j ∷ []) = false
is_job_name [] = false

-- What a sweep is for: a directory named `job-*` that the system can delete.
unfoldable pub is_stale : Entry → Bool
is_stale e =
    elim e.file_name [ none ↦ false | some name ↦ is_job_name name ]
    && (elim e.is_dir [ none ↦ false | some b ↦ b ] && e.removable)

starts_with-is_job_name : (name : Str) → starts_with dir_prefix name ≡ is_job_name name
unfolding starts_with
starts_with-is_job_name [] = refl
starts_with-is_job_name (a ∷ []) = ground arith
starts_with-is_job_name (a ∷ (b ∷ [])) = ground arith
starts_with-is_job_name (a ∷ (b ∷ (c ∷ []))) = ground arith
starts_with-is_job_name (a ∷ (b ∷ (c ∷ (d ∷ s)))) = ground arith

-- The test of the loop is that of the specification.
tested : (e : Entry) → (is_ours e && is_directory e && e.removable) ≡ is_stale e
tested e = by_name e e.file_name refl
  where
    by_name :
        (e : Entry) (name : Option Str)
        → e.file_name ≡ name
        → (is_ours e && is_directory e && e.removable) ≡ is_stale e
    by_name e none h = unfold is_ours is_directory is_stale in rw h refl
    by_name e (some name) h =
        unfold is_ours is_directory is_stale in
        rw h (rw (starts_with-is_job_name name) (ground arith))

-- The entries that the sweep leaves.
abbrev pub kept : Root → Root
kept root = filter (λ e. not (is_stale e)) root

-- The root after a sweep that failed: the entries it had read have been swept, the others stay.
abbrev pub PartlySwept : Root → Root → Type 0
PartlySwept root after =
    (first : Root) × (later : Root) × (root ≡ first ++ later) × (after ≡ kept first ++ later)

abbrev Swept : Root → Result Str ℕ × Root → Type 0
Swept root (ok removed, after) = (removed ≡ length (filter is_stale root)) × (after ≡ kept root)
Swept root (err x, after) = PartlySwept root after

entry_goes :
    (e : Entry) (r : Result Str ℕ × Root)
    → is_stale e ≡ true
    → sweep_entry e r ≡ (map_ok suc r.0, r.1)
unfolding sweep_entry
entry_goes e r s = rw (tested e) (rw s refl)

entry_stays :
    (e : Entry) (r : Result Str ℕ × Root) → is_stale e ≡ false → sweep_entry e r ≡ (r.0, e ∷ r.1)
unfolding sweep_entry
entry_stays e r s = rw (tested e) (rw s refl)

one_less : (e : Entry) (es : Root) → is_stale e ≡ true → kept (e ∷ es) ≡ kept es
one_less e es s = rw s refl

one_more : (e : Entry) (es : Root) → is_stale e ≡ false → kept (e ∷ es) ≡ e ∷ kept es
one_more e es s = rw s refl

goes-Swept :
    (e : Entry) (es : Root) (r : Result Str ℕ × Root)
    → is_stale e ≡ true
    → Swept es r
    → Swept (e ∷ es) (map_ok suc r.0, r.1)
goes-Swept e es (ok n, after) s (count, left) = rw s (ap suc count, left)
goes-Swept e es (err x, after) s (first, later, whole, left) = (
  e ∷ first,
  later,
  ap (λ r. e ∷ r) whole,
  left ∙ ap (λ r. r ++ later) (sym (one_less e first s)),
)

stays-Swept :
    (e : Entry) (es : Root) (r : Result Str ℕ × Root)
    → is_stale e ≡ false
    → Swept es r
    → Swept (e ∷ es) (r.0, e ∷ r.1)
stays-Swept e es (ok n, after) s (count, left) = rw s (count, ap (λ r. e ∷ r) left)
stays-Swept e es (err x, after) s (first, later, whole, left) = (
  e ∷ first,
  later,
  ap (λ r. e ∷ r) whole,
  ap (λ r. e ∷ r) left ∙ ap (λ r. r ++ later) (sym (one_more e first s)),
)

sweep_entry-Swept :
    (e : Entry) (es : Root) (r : Result Str ℕ × Root)
    → Swept es r
    → Swept (e ∷ es) (sweep_entry e r)
sweep_entry-Swept e es r h = elim (Bool-cases (is_stale e)) [
  | inl s ↦ subst (Swept (e ∷ es)) (sym (entry_goes e r s)) (goes-Swept e es r s h)
  | inr s ↦ subst (Swept (e ∷ es)) (sym (entry_stays e r s)) (stays-Swept e es r s h)
]

sweep_entries-Swept : (listed : Listing) (es : Root) → Swept es (sweep_entries listed es)
unfolding sweep_entries
sweep_entries-Swept none [] = (refl, refl)
sweep_entries-Swept none (e ∷ es) = sweep_entry-Swept e es _ (sweep_entries-Swept none es)
sweep_entries-Swept (some (zero, x)) [] = ([], [], refl, refl)
sweep_entries-Swept (some (zero, x)) (e ∷ es) = ([], e ∷ es, refl, refl)
sweep_entries-Swept (some (suc n, x)) [] = (refl, refl)
sweep_entries-Swept (some (suc n, x)) (e ∷ es) =
    sweep_entry-Swept e es _ (sweep_entries-Swept (some (n, x)) es)

-- What a sweep leaves behind, whether the root can be listed to its end or not.
abbrev pub SweptBy : Root → Result WorkspaceError ℕ × Root → Type 0
SweptBy root (ok removed, after) = (removed ≡ length (filter is_stale root)) × (after ≡ kept root)
SweptBy root (err e, after) = PartlySwept root after

pub sweep-SweptBy :
    (listed : Listing) (path : Str) (root : Root) → SweptBy root (sweep listed path root)
unfolding sweep
sweep-SweptBy listed path root = reported path root _ (sweep_entries-Swept listed root)
  where
    reported :
        (path : Str) (root : Root) (r : Result Str ℕ × Root)
        → Swept root r
        → SweptBy root (map_err (io (text "listing workspace root") path) r.0, r.1)
    reported path root (ok n, after) h = h
    reported path root (err x, after) h = h

-- A sweep of a root that can be listed to its end.
swept_whole : (es : Root) → sweep_entries none es ≡ (ok (length (filter is_stale es)), kept es)
unfolding sweep_entries sweep_entry
swept_whole [] = refl
swept_whole (e ∷ es) = elim (Bool-cases (is_stale e)) [
  | inl s ↦ rw (tested e) (rw s (ap (λ r. (map_ok suc r.0, r.1)) (swept_whole es)))
  | inr s ↦ rw (tested e) (rw s (ap (λ r. (r.0, e ∷ r.1)) (swept_whole es)))
]

-- A sweep whose listing fails behind the first entries.
swept_first :
    (x : Str) (first later : Root)
    → sweep_entries (some (length first, x)) (first ++ later) ≡ (err x, kept first ++ later)
unfolding sweep_entries sweep_entry
swept_first x [] [] = refl
swept_first x [] (e ∷ later) = refl
swept_first x (e ∷ first) later = elim (Bool-cases (is_stale e)) [
  | inl s ↦ rw (tested e) (rw s (ap (λ r. (map_ok suc r.0, r.1)) (swept_first x first later)))
  | inr s ↦ rw (tested e) (rw s (ap (λ r. (r.0, e ∷ r.1)) (swept_first x first later)))
]

-- The name of a workspace has the prefix that the sweep looks for.
dir_name-starts_with :
    (job : MessageId) (nanos : ℕ) → starts_with dir_prefix (dir_name job nanos) ≡ true
unfolding starts_with dir_name
dir_name-starts_with job nanos = refl

-- A workspace that was made.
abbrev pub made : MessageId → ℕ → Entry
made job nanos = record {
  file_name = some (dir_name job nanos);
  is_dir = some true;
  removable = true;
}

made-is_stale : (job : MessageId) (nanos : ℕ) → is_stale (made job nanos) ≡ true
unfolding is_stale dir_name
made-is_stale job nanos = refl

-- A sweep that can list the root to its end leaves exactly the entries that are no deletable
-- directories with a name that begins with "job-", in their order, and returns how many it deleted. A
-- workspace that a job has just made under a free name, and that a crash leaves behind, is one more of
-- those. Where the listing fails behind the first entries of any root, the sweep returns that error, those
-- entries have been swept in this way and all later ones stay.
pub sweep-create :
    (path : Str) (job : MessageId) (nanos : ℕ) (root : Root)
    → exists (dir_name job nanos) root ≡ false
    → ((create none path job nanos root).0 ≡ ok (dir_name job nanos))
      × ((sweep none path (create none path job nanos root).1).1
          ≡ filter (λ e. not (is_stale e)) root)
      × ((sweep none path (create none path job nanos root).1).0
          ≡ ok (suc (length (filter is_stale root))))
      × ((x : Str) (first later : Root)
          → sweep (some (length first, x)) path (first ++ later)
            ≡ (err (io (text "listing workspace root") path x), kept first ++ later))
unfolding create sweep
sweep-create path job nanos root free =
    let swept = swept_whole (made job nanos ∷ root) in
    rw free (
      refl,
      ap (λ r. r.1) swept ∙ (rw (made-is_stale job nanos) refl),
      ap (λ r. map_err (io (text "listing workspace root") path) r.0) swept
          ∙ (rw (made-is_stale job nanos) refl),
      λ x first later.
          ap (λ r. (map_err (io (text "listing workspace root") path) r.0, r.1))
            (swept_first x first later),
    )

pub without-absent :
    (name : Str) (root : Root) → exists name root ≡ false → without name root ≡ root
unfolding without exists
without-absent name [] h = refl
without-absent name (e ∷ es) h = ground (arith, without-absent name es)

-- Making a workspace under a free name succeeds, and removing it leaves the root as it was; under a
-- taken name it fails and changes nothing.
pub remove-create :
    (path : Str) (job : MessageId) (nanos : ℕ) (root : Root)
    → ((exists (dir_name job nanos) root ≡ false)
        × ((create none path job nanos root).0 ≡ ok (dir_name job nanos))
        × (remove none path (dir_name job nanos) (create none path job nanos root).1
            ≡ (ok tt, root)))
      ⊎ ((exists (dir_name job nanos) root ≡ true)
          × ((create none path job nanos root).1 ≡ root)
          × ((e : WorkspaceError) × ((create none path job nanos root).0 ≡ err e)))
unfolding create remove without
remove-create path job nanos root = elim (Bool-cases (exists (dir_name job nanos) root)) [
  | inl taken ↦ inr (taken, rw taken refl, rw taken (_, refl))
  | inr free ↦ inl (
    free,
    rw free refl,
    rw free (
        rw (eq_str_refl (dir_name job nanos))
          (ap (λ r. (ok tt, r)) (without-absent (dir_name job nanos) root free))),
  )
]
