-- ===== src/Db.antt =====
-- The tables of schema/mysql.sql as the runner's statements see them, and the statements of
-- src/store.rs as functions on them. A statement that the database refuses gives `none`.
pub mod Rows
pub mod Evolves
pub mod Tidy
use claude_job_runner.Prelude.{
  ℕ, suc, ◌+◌, Bool, true, false, ◌&&◌, Option, none, some, List, [], ◌∷◌, ◌++◌, ◌==◌,
  if◌then◌else◌, length, filter, find, is_some, ℤ, pos, eq_ℤ, ltb_ℤ, Str, text, eq_str, unwrap_or,
}
use claude_job_runner.Json.{Value, num, str, object, end, field, int, json_set}
use claude_job_runner.Job.{to_db, pending, done, failed}

pub data Sender : Type 0 where
  user ai : Sender

-- A row of `chat_messages`.
pub record Message : Type 0 where
  pub id : ℤ
  pub chat_id : ℤ
  pub sender : Sender
  pub content : Str
  pub is_agentic : Option ℤ
  pub payload : Option Value
  pub status : Option Str

-- A row of `chats`.
pub record Chat : Type 0 where
  pub id : ℤ
  pub user_id : ℤ
  pub company_id : ℤ

pub record Db : Type 0 where
  pub messages : List Message
  pub chats : List Chat
  -- the AUTO_INCREMENT counter of `chat_messages`, with no bound: that the INT column of
  -- schema/mysql.sql refuses an id above 2147483647 is left out
  pub next_id : ℕ

abbrev pub is_user : Sender → Bool
is_user user = true
is_user ai = false

-- `status IS NULL`, `status = ?`
abbrev pub is_null : Option Str → Bool
is_null none = true
is_null (some _) = false

abbrev pub sql_eq : Option Str → Option Str → Bool
sql_eq (some a) (some b) = eq_str a b
sql_eq _ _ = false

abbrev pub is_one : Option ℤ → Bool
is_one none = false
is_one (some n) = eq_ℤ n (pos 1)

-- `sender = 'user' AND is_agentic = 1`
unfoldable pub is_job : Message → Bool
is_job m = is_user m.sender && is_one m.is_agentic

unfoldable pub unclaimed : Message → Bool
unfolding is_job
unclaimed m = is_job m && is_null m.status

abbrev pub has_id : ℤ → Message → Bool
has_id id m = eq_ℤ m.id id

-- `id = ? AND status = 'pending'`
unfoldable pub pending_row : ℤ → Message → Bool
unfolding to_db
pending_row id m = has_id id m && sql_eq m.status (to_db pending)

-- UPDATE ... SET f WHERE p
unfoldable pub update : (Message → Bool) → (Message → Message) → List Message → List Message
update p f [] = []
update p f (m ∷ ms) = (if p m then f m else m) ∷ update p f ms

-- rows_affected
unfoldable pub count : (Message → Bool) → List Message → ℕ
count p [] = 0
count p (m ∷ ms) = let rest = count p ms in if p m then suc rest else rest

abbrev min_id : ℤ → Option ℤ → ℤ
min_id a none = a
min_id a (some b) = if ltb_ℤ b a then b else a

-- SELECT id ... WHERE unclaimed ORDER BY id LIMIT 1
unfoldable pub oldest : List Message → Option ℤ
oldest [] = none
oldest (m ∷ ms) = let rest = oldest ms in if unclaimed m then some (min_id m.id rest) else rest

unfoldable pub chat_exists : ℤ → List Chat → Bool
chat_exists id cs = is_some (find (λ c. eq_ℤ c.id id) cs)

-- The row of `INSERT INTO chat_messages (chat_id, sender, content, is_agentic) VALUES (?, 'user', ?,
-- 1)`: the other columns take their defaults.
unfoldable pub user_row : ℤ → Str → ℕ → Message
user_row chat content n = record {
  id = pos n;
  chat_id = chat;
  sender = user;
  content = content;
  is_agentic = some (pos 1);
  payload = none;
  status = none;
}

-- That statement: the foreign key refuses a chat that is not there.
unfoldable pub insert_user : ℤ → Str → Db → Option (ℕ × Db)
unfolding chat_exists
insert_user chat content d =
    if chat_exists chat d.chats
    then some (
      d.next_id,
      record d {
        messages = d.messages ++ user_row chat content d.next_id ∷ [];
        next_id = suc d.next_id;
      },
    )
    else none

-- The row that `INSERT ... SELECT chat_id, 'ai', ?, 1, JSON_OBJECT('in_reply_to', id)` makes of a
-- selected row.
unfoldable pub reply_row : Str → ℕ → Message → Message
reply_row answer n m = record {
  id = pos n;
  chat_id = m.chat_id;
  sender = ai;
  content = answer;
  is_agentic = some (pos 1);
  payload = some (object (field (text "in_reply_to") (num (int m.id)) end));
  status = none;
}

unfoldable pub reply_rows : ℕ → Str → List Message → List Message
reply_rows n answer [] = []
reply_rows n answer (m ∷ ms) = reply_row answer n m ∷ reply_rows (suc n) answer ms

-- That statement for the pending row `id`: the number of rows, `LAST_INSERT_ID()`, the tables.
unfoldable pub insert_replies : ℤ → Str → Db → ℕ × ℕ × Db
unfolding reply_rows pending_row
insert_replies id answer d =
    let rows = reply_rows d.next_id answer (filter (pending_row id) d.messages) in
    (
      length rows,
      d.next_id,
      record d { messages = d.messages ++ rows; next_id = d.next_id + length rows },
    )

-- `COALESCE(payload, JSON_OBJECT())`
abbrev pub payload_of : Message → Value
payload_of m = unwrap_or m.payload (object end)

unfoldable pub mark_done : ℤ → Message → Message
unfolding to_db
mark_done reply_id m = record m {
  status = to_db done;
  payload = some (json_set (payload_of m) (text "reply_id") (num (int reply_id)));
}

-- The two forms of the statement of `finish_failed`.
unfoldable pub mark_failed : Str → Option Str → Message → Message
unfolding to_db
mark_failed error none m = record m {
  status = to_db failed;
  payload = some (json_set (payload_of m) (text "error") (str error));
}
mark_failed error (some result) m = record m {
  status = to_db failed;
  payload =
      some (
        json_set (json_set (payload_of m) (text "error") (str error)) (text "result") (str result));
}

unfoldable pub mark_pending : Message → Message
unfolding to_db
mark_pending m = record m { status = to_db pending }

unfoldable pub mark_new : Message → Message
mark_new m = record m { status = none }
