-- ===== src/Workspace.antt =====
-- src/workspace.rs: the per-job directories under the workspace root.
pub mod Sweep
pub mod Create
use claude_job_runner.Prelude.{
  ℕ, suc, ◌+◌, Bool, true, false, ◌&&◌, not, Option, none, some, List, [], ◌∷◌, ◌++◌, Str, text,
  eq_str, starts_with, if◌then◌else◌, show_ℕ, show_ℤ, Result, ok, err, any, map_ok, map_err, zero,
}
use claude_job_runner.Job.{MessageId}

abbrev pub dir_prefix : Str
dir_prefix = text "job-"

-- An entry of the root directory; its name is none if it is not valid Unicode, and its type is not
-- known if it cannot be read.
pub record Entry : Type 0 where
  pub file_name : Option Str
  pub is_dir : Option Bool
  -- whether the system can delete it
  pub removable : Bool

-- The entries of the root.
abbrev pub Root : Type 0
Root = List Entry

pub data WorkspaceError : Type 0 where
  -- action, path and the system's error
  io : Str → Str → Str → WorkspaceError

-- `prepare`, with the outcomes of `create_dir_all` and `canonicalize`.
unfoldable pub prepare : Option Str → Result Str Str → Str → Result WorkspaceError Str
prepare (some e) resolved path = err (io (text "creating workspace root") path e)
prepare none (err e) path = err (io (text "resolving workspace root") path e)
prepare none (ok absolute) path = ok absolute

-- `is_some_and(|name| name.starts_with(DIR_PREFIX))`
unfoldable pub is_ours : Entry → Bool
unfolding starts_with
is_ours e = elim e.file_name [ none ↦ false | some name ↦ starts_with dir_prefix name ]

-- `is_ok_and(|t| t.is_dir())`
unfoldable pub is_directory : Entry → Bool
is_directory e = elim e.is_dir [ none ↦ false | some b ↦ b ]

-- What the loop of `sweep` does with one entry, before it goes on: an entry that is no directory of
-- the runner's, or that the system cannot delete, stays.
unfoldable pub sweep_entry : Entry → Result Str ℕ × Root → Result Str ℕ × Root
sweep_entry e (removed, rest) =
    if is_ours e && is_directory e && e.removable
    then (map_ok suc removed, rest)
    else (removed, e ∷ rest)

-- Where the listing of the root fails, if it does: how many entries were read before, and the error.
-- A failure of `read_dir` is one before the first entry, since both give the same error.
abbrev pub Listing : Type 0
Listing = Option (ℕ × Str)

-- The loop of `sweep` over the entries: how many were removed, or the error of `next_entry`, and what
-- stays. Where it fails, the entries that it has not read stay, and those that it removed are gone.
unfoldable pub sweep_entries : Listing → Root → Result Str ℕ × Root
unfolding sweep_entry
sweep_entries none [] = (ok 0, [])
sweep_entries none (e ∷ es) = sweep_entry e (sweep_entries none es)
sweep_entries (some (zero, x)) [] = (err x, [])
sweep_entries (some (zero, x)) (e ∷ es) = (err x, e ∷ es)
sweep_entries (some (suc n, x)) [] = (ok 0, [])
sweep_entries (some (suc n, x)) (e ∷ es) = sweep_entry e (sweep_entries (some (n, x)) es)

-- `sweep`
unfoldable pub sweep : Listing → Str → Root → Result WorkspaceError ℕ × Root
sweep listed path root =
    let (removed, rest) = sweep_entries listed root in
    (map_err (io (text "listing workspace root") path) removed, rest)

-- The name of a job's directory, from the clock's nanoseconds.
unfoldable pub dir_name : MessageId → ℕ → Str
dir_name job nanos = dir_prefix ++ (show_ℤ job.get ++ (text "-" ++ show_ℕ nanos))

abbrev pub named : Str → Entry → Bool
named name e = elim e.file_name [ none ↦ false | some n ↦ eq_str n name ]

unfoldable pub exists : Str → Root → Bool
exists name root = any (named name) root

-- `root.path().join(name)`
abbrev pub join_path : Str → Str → Str
join_path root name = root ++ (text "/" ++ name)

-- `Workspace::create`: `create_dir` fails where the name is taken, and may fail for other reasons.
unfoldable pub create : Option Str → Str → MessageId → ℕ → Root → Result WorkspaceError Str × Root
unfolding dir_name exists
create (some e) path job nanos root =
    (err (io (text "creating workspace") (join_path path (dir_name job nanos)) e), root)
create none path job nanos root =
    if exists (dir_name job nanos) root
    then (
      err (
          io (text "creating workspace") (join_path path (dir_name job nanos))
            (text "File exists")),
      root,
    )
    else (
      ok (dir_name job nanos),
      record { file_name = some (dir_name job nanos); is_dir = some true; removable = true } ∷ root,
    )

unfoldable pub without : Str → Root → Root
without name [] = []
without name (e ∷ es) = let rest = without name es in if named name e then rest else e ∷ rest

-- `Workspace::remove`
unfoldable pub remove : Option Str → Str → Str → Root → Result WorkspaceError (Unit {0}) × Root
unfolding without
remove (some e) path name root =
    (err (io (text "removing workspace") (join_path path name) e), root)
remove none path name root = (ok tt, without name root)
