-- ===== src/Job.antt =====
-- src/job.rs: the identifiers, the status of a job, its requester and its outcome.
pub mod Status
use claude_job_runner.Prelude.{
  Bool, true, false, Option, none, some, ℤ, Str, text, Result, ok, err, eq_str, if◌then◌else◌,
}

-- `MessageId` and `ChatId` wrap an `i64`.
pub record MessageId : Type 0 where
  pub get : ℤ

pub record ChatId : Type 0 where
  pub get : ℤ

pub data JobStatus : Type 0 where
  new pending done failed : JobStatus

pub record UnknownStatus : Type 0 where
  pub raw : Str

unfoldable pub from_db : Option Str → Result UnknownStatus JobStatus
from_db none = ok new
from_db (some raw) =
    if eq_str raw (text "pending")
    then ok pending
    else if eq_str raw (text "done")
    then ok done
    else if eq_str raw (text "failed")
    then ok failed
    else err (record { raw = raw })

unfoldable pub to_db : JobStatus → Option Str
to_db new = none
to_db pending = some (text "pending")
to_db done = some (text "done")
to_db failed = some (text "failed")

unfoldable pub is_terminal : JobStatus → Bool
is_terminal done = true
is_terminal failed = true
is_terminal _ = false

-- `Display for JobStatus`
unfoldable pub display_status : JobStatus → Str
unfolding to_db
display_status s = elim (to_db s) [ none ↦ text "new" | some raw ↦ raw ]

pub record Requester : Type 0 where
  pub user_id : ℤ
  pub company_id : ℤ
  pub is_admin : Bool

pub record Job : Type 0 where
  pub id : MessageId
  pub chat_id : ChatId
  pub content : Str
  pub status : JobStatus
  pub reply_id : Option MessageId
  pub error : Option Str
  pub requester : Option Requester

pub data JobOutcome : Type 0 where
  success : Str → JobOutcome
  failure : Str → Option Str → JobOutcome

unfoldable pub outcome_status : JobOutcome → JobStatus
outcome_status (success _) = done
outcome_status (failure _ _) = failed

-- `JobOutcome::failed(error)`
unfoldable pub failed_with : Str → JobOutcome
failed_with error = failure error none
