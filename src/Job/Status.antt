-- ===== src/Job/Status.antt =====
-- The status column of src/job.rs: what is read back, and what is refused.
use claude_job_runner.Prelude.{
  ◌≡◌, refl, ◌⊎◌, inl, inr, ◌≢◌, false, Bool-cases, Option, none, some, Str, text, ok, err, eq_str,
  eq_str_sound, eq_str_iff, arith, ap,
}
use claude_job_runner.Job.{JobStatus, from_db, to_db, new, pending, done, failed}

-- Every status is read back from the value that is stored for it.
pub from_db-to_db : (s : JobStatus) → from_db (to_db s) ≡ ok s
unfolding from_db to_db eq_str
from_db-to_db new = refl
from_db-to_db _ = refl

-- A text that none of the three tests accepts is the stored value of no status.
not_stored :
    (t : Str) (s : JobStatus)
    → eq_str t (text "pending") ≡ false
    → eq_str t (text "done") ≡ false
    → eq_str t (text "failed") ≡ false
    → some t ≢ to_db s
unfolding to_db
not_stored t new p d f e = cc
not_stored t pending p d f e = ground (arith, eq_str_iff t (text "pending"))
not_stored t done p d f e = ground (arith, eq_str_iff t (text "done"))
not_stored t failed p d f e = ground (arith, eq_str_iff t (text "failed"))

-- A stored value is accepted exactly when it is the stored value of a status, and it is then read as
-- that status; any other value is refused with itself as the reason.
pub from_db_exact :
    (raw : Option Str)
    → ((s : JobStatus) × (from_db raw ≡ ok s) × (raw ≡ to_db s))
      ⊎ ((t : Str) × (raw ≡ some t)
          × (from_db raw ≡ err (record { raw = t }))
          × ((s : JobStatus) → raw ≢ to_db s))
unfolding from_db to_db
from_db_exact none = inl (new, refl, refl)
from_db_exact (some t) = elim (Bool-cases (eq_str t (text "pending"))) [
  | inl p ↦ inl (pending, rw p, ap some (eq_str_sound t _ p))
  | inr p ↦ elim (Bool-cases (eq_str t (text "done"))) [
    | inl d ↦ inl (done, rw (p, d), ap some (eq_str_sound t _ d))
    | inr d ↦ elim (Bool-cases (eq_str t (text "failed"))) [
      | inl f ↦ inl (failed, rw (p, d, f), ap some (eq_str_sound t _ f))
      | inr f ↦ inr (t, refl, rw (p, d, f), λ s. not_stored t s p d f)
    ]
  ]
]
