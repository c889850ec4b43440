-- ===== src/Jobctl/Watch.antt =====
-- crates/jobctl/src/main.rs: `watch_row`, on the tables of Db; crates/jobctl/src/chats.rs: `message`. What is
-- printed is what goes to the standard output.
pub mod Finished
use claude_job_runner.Prelude.{
  Bool, true, false, not, ◌&&◌, Option, none, some, List, [], ◌∷◌, ◌++◌, find, if◌then◌else◌, ℤ,
  pos, eq_ℤ, show_ℤ, Str, text, eq_str, Result, ok, err, ok_or, ◌>>=◌,
}
use claude_job_runner.Json.{Value, get, as_i64, as_str}
use claude_job_runner.Db.{Db, Message, has_id, is_user}
use claude_job_runner.Store.{and_then}

-- SELECT ... WHERE id = ?
unfoldable pub message : ℤ → Db → Option Message
message id d = find (has_id id) d.messages

-- `CAST(COALESCE(is_agentic, 0) AS SIGNED) != 0`
unfoldable pub is_agentic : Option ℤ → Bool
is_agentic none = false
is_agentic (some n) = not (eq_ℤ n (pos 0))

unfoldable pub payload_str : Message → Str → Option Str
unfolding get as_str
payload_str m key = and_then (and_then m.payload (λ p. get p key)) as_str

unfoldable pub payload_i64 : Message → Str → Option ℤ
unfolding get as_i64
payload_i64 m key = and_then (and_then m.payload (λ p. get p key)) as_i64

-- The tables at the two SELECTs of one round, or the driver's error.
pub record Poll : Type 0 where
  pub job : Result Str Db
  pub answer : Result Str Db

-- What was printed, and whether the exit code is success.
abbrev pub Finished : Type 0
Finished = List Str × Bool

unfoldable pub job_row : ℤ → Option Message → Result Str Message
unfolding is_agentic
job_row id none = err (text "message #" ++ (show_ℤ id ++ text " is not an agentic user message"))
job_row id (some m) =
    if is_user m.sender && is_agentic m.is_agentic
    then ok m
    else err (text "message #" ++ (show_ℤ id ++ text " is not an agentic user message"))

unfoldable pub show_answer : Result Str Db → Message → Result Str (Option Finished)
unfolding payload_i64 message
show_answer at row = do
  reply_id ← ok_or (payload_i64 row (text "reply_id")) (text "done row has no payload.reply_id")
  d ← at
  reply ← ok_or (message reply_id d) (text "reply #" ++ (show_ℤ reply_id ++ text " is missing"))
  ok (some (reply.content ∷ [], true))

abbrev pub printed : Option Str → List Str
printed none = []
printed (some partial) = partial ∷ []

unfoldable pub by_status : Result Str Db → Message → Option Str → Result Str (Option Finished)
unfolding show_answer payload_str
by_status at row none = ok none
by_status at row (some status) =
    if eq_str status (text "done")
    then show_answer at row
    else if eq_str status (text "failed")
    then ok (some (printed (payload_str row (text "result")), false))
    else ok none

-- One round of the loop; `none` sleeps.
unfoldable pub look : ℤ → Poll → Result Str (Option Finished)
unfolding job_row by_status message
look id p = do d ← p.job; row ← job_row id (message id d); by_status p.answer row row.status

abbrev pub unless_finished :
    Result Str (Option Finished) → Result Str (Option Finished) → Result Str (Option Finished)
unless_finished (ok none) later = later
unless_finished (ok (some finished)) later = ok (some finished)
unless_finished (err e) later = err e

-- The loop over these rounds; `none` has not ended.
unfoldable pub watch_row : ℤ → List Poll → Result Str (Option Finished)
unfolding look
watch_row id [] = ok none
watch_row id (p ∷ ps) = unless_finished (look id p) (watch_row id ps)
