-- ===== src/Store.antt =====
-- src/store.rs: `JobStore` over the tables, one function for each method.
pub mod Exec
pub mod Steps
pub mod Keeps
pub mod Transactions
pub mod Lifecycle
pub mod Race
pub mod Claiming
pub mod Finishing
pub mod RoundTrip
pub mod Recorded
pub mod Queue
use claude_job_runner.Prelude.{
  ℕ, zero, suc, Bool, true, false, not, Option, none, some, List, [], ◌∷◌, ◌==◌, leb, if◌then◌else◌,
  find, is_some, ℤ, pos, eq_ℤ, max_i64, Str, text, eq_str, Result, ok, err, map_err, ◌&&◌, ◌||◌,
}
use claude_job_runner.Json.{Value, get as get_key, as_i64, as_str, as_bool}
use claude_job_runner.Job.{
  MessageId, ChatId, Job, JobStatus, UnknownStatus, JobOutcome, Requester, success, failure,
  from_db,
}
use claude_job_runner.Db.{
  Db, Message, Chat, ai, is_user, is_job, unclaimed, has_id, update, count, oldest, insert_user,
  insert_replies, mark_done, mark_failed, mark_pending, mark_new, pending_row, sql_eq,
}
use claude_job_runner.Store.Exec.{
  Query, StoreError, invalid_status, not_pending, insert_id_out_of_range, pure, raise, lift, run,
  in_tx, begin, commit, ◌>>=◌, ◌>>◌,
}

abbrev pub claim_attempts : ℕ
claim_attempts = 5

-- `i64::try_from` on `LAST_INSERT_ID()`
unfoldable pub insert_id : ℕ → Result StoreError MessageId
insert_id raw =
    if leb raw max_i64 then ok (record { get = pos raw }) else err (insert_id_out_of_range raw)

pub record JobRow : Type 0 where
  pub id : ℤ
  pub chat_id : ℤ
  pub content : Str
  pub status : Option Str
  pub payload : Option Value
  pub user_id : Option ℤ
  pub company_id : Option ℤ

abbrev pub and_then {ℓ κ} : {A : Type ℓ} {B : Type κ} → Option A → (A → Option B) → Option B
and_then none f = none
and_then (some a) f = f a

-- `payload.and_then(|p| p.get(key))`
unfoldable pub payload_get : Option Value → Str → Option Value
payload_get p key = and_then p (λ v. get_key v key)

abbrev is_true : Option Bool → Bool
is_true none = false
is_true (some b) = b

abbrev is_number_one : Option ℤ → Bool
is_number_one none = false
is_number_one (some n) = eq_ℤ n (pos 1)

-- `v.as_bool() == Some(true) || v.as_i64() == Some(1)`
unfoldable pub grants_admin : Option Value → Bool
unfolding as_bool as_i64
grants_admin none = false
grants_admin (some v) = is_true (as_bool v) || is_number_one (as_i64 v)

-- `user_id.zip(company_id)`
unfoldable pub requester_of : Option ℤ → Option ℤ → Bool → Option Requester
requester_of (some u) (some c) admin =
    some (record { user_id = u; company_id = c; is_admin = admin })
requester_of _ _ admin = none

abbrev pub id_of : ℤ → MessageId
id_of n = record { get = n }

-- The job of a row whose status has been read.
unfoldable pub job_of : JobRow → JobStatus → Job
unfolding payload_get grants_admin requester_of
job_of row status = record {
  id = id_of row.id;
  chat_id = record { get = row.chat_id };
  content = row.content;
  status = status;
  reply_id =
      and_then (and_then (payload_get row.payload (text "reply_id")) as_i64) (λ n. some (id_of n));
  error = and_then (payload_get row.payload (text "error")) as_str;
  requester =
      requester_of row.user_id row.company_id
        (grants_admin (payload_get row.payload (text "requester_is_admin")));
}

unfoldable pub with_status : JobRow → Result UnknownStatus JobStatus → Result StoreError Job
with_status row (err source) = err (invalid_status (id_of row.id) source)
with_status row (ok status) = ok (job_of row status)

-- `Job::try_from(JobRow)`
unfoldable pub try_from : JobRow → Result StoreError Job
unfolding with_status
try_from row = with_status row (from_db row.status)

-- The row of `get`'s SELECT: the LEFT JOIN leaves the chat's columns NULL if there is no chat.
unfoldable pub joined : List Chat → Message → JobRow
joined cs m =
    let c = find (λ c. eq_ℤ c.id m.chat_id) cs in
    record {
      id = m.id;
      chat_id = m.chat_id;
      content = m.content;
      status = m.status;
      payload = m.payload;
      user_id = and_then c (λ c. some c.user_id);
      company_id = and_then c (λ c. some c.company_id);
    }

unfoldable pub select_job : ℤ → Db → Option JobRow
unfolding joined is_job
select_job id d =
    and_then (find (λ m. has_id id m && is_job m) d.messages) (λ m. some (joined d.chats m))

abbrev pub transposed : Option JobRow → Result StoreError (Option Job)
transposed none = ok none
transposed (some row) = elim (try_from row) [ ok job ↦ ok (some job) | err e ↦ err e ]

unfoldable pub insert : ChatId → Str → Query MessageId
insert chat content = do raw ← run (insert_user chat.get content); lift (insert_id raw)

pub get : MessageId → Query (Option Job)
get id = do row ← run (λ d. some (select_job id.get d, d)); lift (transposed row)

-- SELECT content ... WHERE id = ? AND sender = 'ai'
unfoldable pub select_reply : ℤ → Db → Option Str
select_reply id d =
    and_then (find (λ m. has_id id m && not (is_user m.sender)) d.messages) (λ m. some m.content)

pub reply : MessageId → Query (Option Str)
reply id = run (λ d. some (select_reply id.get d, d))

pub oldest_unclaimed_id : Query (Option MessageId)
oldest_unclaimed_id = run (λ d. some (and_then (oldest d.messages) (λ n. some (id_of n)), d))

-- The UPDATE of `try_claim` with its `rows_affected`.
unfoldable pub claim_update : ℤ → Db → ℕ × Db
claim_update id d = (
  count (λ m. has_id id m && unclaimed m) d.messages,
  record d { messages = update (λ m. has_id id m && unclaimed m) mark_pending d.messages },
)

pub try_claim : MessageId → Query Bool
try_claim id = do affected ← run (λ d. some (claim_update id.get d)); pure (affected == 1)

-- The loop of `claim_next`, on the rounds left.
pub claim_rounds : ℕ → Query (Option Job)
claim_rounds zero = pure none
claim_rounds (suc rounds) = oldest_unclaimed_id >>= elim [
  | none ↦ pure none
  | some id ↦ try_claim id >>= elim [ true ↦ get id | false ↦ claim_rounds rounds ]
]

pub claim_next : Query (Option Job)
claim_next = claim_rounds claim_attempts

-- The UPDATE of `finish_done`, which has no guard on the status.
unfoldable pub done_update : ℤ → ℤ → Db → Db
done_update id reply_id d = record d {
  messages = update (has_id id) (mark_done reply_id) d.messages;
}

-- `finish_done` from its INSERT on, over the tables that the transaction began with.
pub finish_tx : MessageId → Str → Db → Query (Unit {0})
finish_tx id result base = do
  inserted ← in_tx (insert_replies id.get result base)
  if inserted.0 == 1
      then (do
        reply_id ← lift (insert_id inserted.1)
        copy ← in_tx (done_update id.get reply_id.get inserted.2)
        commit copy)
      else (do in_tx tt; raise (not_pending id))

pub finish_done : MessageId → Str → Query (Unit {0})
finish_done id result = do base ← begin; finish_tx id result base

unfoldable pub failed_update : ℤ → Str → Option Str → Db → ℕ × Db
failed_update id error result d = (
  count (pending_row id) d.messages,
  record d { messages = update (pending_row id) (mark_failed error result) d.messages },
)

pub finish_failed : MessageId → Str → Option Str → Query (Unit {0})
finish_failed id error result = do
  affected ← run (λ d. some (failed_update id.get error result d))
  if affected == 1 then pure tt else raise (not_pending id)

pub finish : MessageId → JobOutcome → Query (Unit {0})
finish id (success result) = finish_done id result
finish id (failure error result) = finish_failed id error result

unfoldable pub is_pending : Message → Bool
is_pending m = sql_eq m.status (some (text "pending"))

unfoldable pub requeue_update : Db → ℕ × Db
unfolding is_pending
requeue_update d =
    (count is_pending d.messages, record d { messages = update is_pending mark_new d.messages })

unfoldable pub requeue_pending : Query ℕ
requeue_pending = run (λ d. some (requeue_update d))
