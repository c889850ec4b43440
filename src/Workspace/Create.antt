-- ===== src/Workspace/Create.antt =====
-- src/workspace.rs: the root after `Workspace::create`, on each of its branches.
use claude_job_runner.Prelude.{
  ℕ, ◌≡◌, refl, ◌∷◌, Option, none, some, Str, eq_str_refl, ok, err, Bool-cases, inl, inr, arith,
  subst,
}
use claude_job_runner.Job.{MessageId}
use claude_job_runner.Workspace.{Root, WorkspaceError, create, remove, without, exists, dir_name}
use claude_job_runner.Workspace.Sweep.{made, without-absent}

-- Where `create` fails the root is as it was, and where it succeeds `remove` brings it back.
pub create_undone :
    (fault : Option Str) (path : Str) (job : MessageId) (nanos : ℕ) (root : Root)
    → ((e : WorkspaceError)
        → (create fault path job nanos root).0 ≡ err e
        → (create fault path job nanos root).1 ≡ root)
      × ((name : Str)
          → (create fault path job nanos root).0 ≡ ok name
          → (remove none path name (create fault path job nanos root).1).1 ≡ root)
unfolding create
create_undone (some e) path job nanos root = (λ x h. refl, λ name h. absurd (ground arith))
create_undone none path job nanos root = elim (Bool-cases (exists (dir_name job nanos) root)) [
  | inl taken ↦ rw taken (λ x h. refl, λ name h. absurd (ground arith))
  | inr free ↦ rw free (
    λ x h. absurd (ground arith),
    λ name h.
        let same : dir_name job nanos ≡ name = ground arith in
        subst (λ n. (remove none path n (made job nanos ∷ root)).1 ≡ root) same
          (unfold remove without in
            rw (eq_str_refl (dir_name job nanos)) (without-absent (dir_name job nanos) root free)),
  )
]

-- Where `create` succeeds, the root has the new workspace.
pub create-made :
    (fault : Option Str) (path : Str) (job : MessageId) (nanos : ℕ) (root : Root) (name : Str)
    → (create fault path job nanos root).0 ≡ ok name
    → (create fault path job nanos root).1 ≡ made job nanos ∷ root
unfolding create
create-made (some e) path job nanos root name = λ h. absurd (ground arith)
create-made none path job nanos root name = elim (Bool-cases (exists (dir_name job nanos) root)) [
  | inl taken ↦ rw taken (λ h. absurd (ground arith))
  | inr free ↦ rw free (λ h. refl)
]
