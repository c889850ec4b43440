-- ===== src/Jobctl.antt =====
-- crates/jobctl: the library that the tools of a job are built from.
pub mod Sql
pub mod Qbo
pub mod Watch
pub mod CommandLine
use claude_job_runner.Prelude.{Str}

-- The kinds of `sqlx::Error` that the tools tell apart.
pub data SqlxKind : Type 0 where
  sqlx_io protocol tls other : SqlxKind

-- `Error` of crates/jobctl/src/lib.rs; the driver's and the system's errors by their texts.
pub data Error : Type 0 where
  database : SqlxKind → Str → Error
  config not_found http invalid_argument denied io : Str → Error

unfoldable pub to_string : Error → Str
to_string (database _ e) = e
to_string (config e) = e
to_string (not_found e) = e
to_string (http e) = e
to_string (invalid_argument e) = e
to_string (denied e) = e
to_string (io e) = e
