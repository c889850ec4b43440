-- ===== src/Lib.antt =====
-- A model of claude-job-runner and of the properties that make it correct.
--
-- The program runs the agentic messages of a chat application as Claude Code sessions. A daemon polls
-- the table `chat_messages` for user messages with `is_agentic = 1`, claims each by an UPDATE from NULL
-- to 'pending', runs `claude` for it in a fresh directory, records an answer row and the status
-- 'done', or 'failed' with an error, and deletes the directory. An HTTP API adds jobs and shows
-- them. The session reaches the database and QuickBooks through the tools of crates/jobctl.
--
-- How the parts interact: Start reads Config, calls Store, Workspace and Broker, and builds the worker;
-- Http calls Store; Worker calls Store, Workspace and Claude.Run; Claude.Run builds the command of Claude
-- with what Broker grants; Store acts on the tables of Db; the server of Mcp runs inside the session,
-- sees only the environment that Claude made for it, and calls the tools of Jobctl.
--
-- The files, and what of the program they model:
--   Prelude, Prelude/*   names shared by all files: Boolean tests, lists, i64 as ℤ with its range,
--                        Result and `?`, strings as lists of Unicode scalar values with the
--                        functions of Rust's standard library that the program calls, decimals.
--   Json                 serde_json values, and MySQL's JSON_SET on a payload.
--   Job, Job/Status      src/job.rs: JobStatus::from_db and to_db, Job, Requester, JobOutcome.
--   Db, Db/*             the tables of schema/mysql.sql as the statements of src/store.rs see them. Rows
--                        has the lemmas on counts and updates, Evolves the life cycle of a row, Tidy
--                        the primary key and the statements that insert.
--   Store, Store/*       src/store.rs: one function for each method of JobStore, in the monad of Exec:
--                        before each statement outside a transaction, and before a transaction
--                        begins, other clients change the tables, and each statement may fail before
--                        or after it took effect. In a transaction the working copy is dropped by a
--                        failure. Steps, Keeps, Transactions and Lifecycle are about the life cycle,
--                        Race about many workers, Claiming about claim_next, Finishing and Recorded
--                        about finish, RoundTrip about reading a finished job.
--   Store/Queue, Store/Queue/*  an abstract queue of jobs, to which insert, claim_next and finish are
--                        compared: Jobs and Updates have the lemmas, Refines one call, Runs any sequence.
--   Config, Config/Reading      src/config.rs: Config::from_env as a function of the environment.
--   Start, Start/Clean   src/main.rs: run, up to the worker.
--   Broker, Broker/*     src/qbo.rs: Crypto has parse_key, decrypt and encrypt, Refresh QboBroker::new,
--                        client_credentials and refresh, Decide access and try_access on the rows of
--                        `company`. Tokens is about the encryption, Grants, Granted and Renewed about what a
--                        job gets, Again about the next job, Isolated about other companies.
--   Claude, Claude/*     src/claude.rs: ClaudeConfig, settings_json, command_with_qbo as the list of its
--                        arguments and of its calls of env and env_remove; Prompts has the texts of
--                        the system prompt, Run what CliRunner::run makes of a session.
--   Workspace, Workspace/*      src/workspace.rs: prepare, create, remove and sweep on the entries of the
--                        root; the listing of a sweep may fail at any entry. Sweep is about what a sweep
--                        leaves, Create about each branch of create.
--   Worker, Worker/Outcome      src/worker.rs: execute and process.
--   Worker/Pool          src/worker.rs: `run` as a state machine. Its events are a slot taken, a job or
--                        nothing claimed, a sleep that ended, the token cancelled and the loop seeing
--                        that, a task that ends and one that is joined. Slots and Drain are about it.
--   Http, Http/*         src/http.rs: route, its handlers, load_view, parse_job_id and the statuses.
--   Jobctl/Sql, Jobctl/Sql/*    crates/jobctl/src/sql.rs: escape, format_table and truncate.
--   Jobctl/Qbo, Jobctl/Qbo/*    crates/jobctl/src/qbo.rs: the tools, authorize and call (Access), the
--                        arguments (Args, Dates, DateText), query literals and URL parameters (Literals),
--                        named_amount and omit_zero_rows (Report), class_ids_for_rep (Reps).
--   Jobctl/Watch, Jobctl/Watch/Finished  crates/jobctl/src/main.rs: watch_row, with message of chats.rs.
--   Jobctl/CommandLine, Jobctl/CommandLine/Printed  crates/jobctl/src/main.rs: Args::parse.
--   Mcp, Mcp/*           crates/jobctl-mcp/src/main.rs: handle, call, sql, qbo, connection, and the loop of
--                        main. Replies is about its answers, Guarded about the tools that it refuses.
--   Examples, Examples/*        the theorems at concrete inputs.
--
-- Bounds and fuel: ids are integers, and the theorems that read an id back ask for an `i64`. The loop
-- of claim_next has its own five rounds. The loop of class_ids_for_rep runs for one round more than
-- there are classes, which is proved to be enough. Decimals print with one round more than the
-- number is large. An `f64` is its 64 bits, and its parsing and printing are parameters.
--
-- Not modelled: the listener of the HTTP API, the signals and the child process; MySQL stands as functions
-- on tables. serde_json's parser and printer, AES-GCM, base64, the HTTP client, the clock, the random
-- source, the file system's outcomes and std's readers of floats and addresses are parameters. Of
-- crates/jobctl, the methods that call QuickBooks and shape its answers, the rest of the command line and
-- of the other clients (main.rs, db.rs, chats.rs, api.rs) are left out.
-- Other clients that act while finish_done's transaction is open are not modelled: it is serialised at
-- its BEGIN. The counter of AUTO_INCREMENT has no bound, where the schema's INT columns have one.
-- Logging has no effect in the model.
pub mod Broker
pub mod Claude
pub mod Config
pub mod Db
pub mod Examples
pub mod Http
pub mod Job
pub mod Jobctl
pub mod Json
pub mod Mcp
pub mod Prelude
pub mod Start
pub mod Store
pub mod Worker
pub mod Workspace
