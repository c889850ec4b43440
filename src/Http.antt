-- ===== src/Http.antt =====
-- src/http.rs: the HTTP API for enqueuing and inspecting jobs.
pub mod Paths
pub mod Jobs
use claude_job_runner.Prelude.{
  ℕ, ◌*◌, Bool, true, false, ◌&&◌, Option, none, some, List, [], ◌∷◌, ◌++◌, Str, text, Result, ok,
  err, if◌then◌else◌, ℤ, pos, ltb_ℤ, eq_str, trim, is_empty, strip_prefix, starts_with, parse_i64,
  map_err, concat,
}
use claude_job_runner.Job.{MessageId, ChatId, Job}
use claude_job_runner.Store.{insert, get, reply, id_of}
use claude_job_runner.Store.Exec.{Query, World, StoreError}

pub data Method : Type 0 where
  get_method post_method other_method : Method

pub record CreateJob : Type 0 where
  pub chat_id : ChatId
  pub content : Str

pub record JobView : Type 0 where
  pub job : Job
  pub reply : Option Str

pub data ApiError : Type 0 where
  not_found : ApiError
  bad_request : Str → ApiError
  store : StoreError → ApiError

unfoldable pub error_status : ApiError → ℕ
error_status not_found = 404
error_status (bad_request _) = 400
error_status (store _) = 500

-- `to_string` of an error
unfoldable pub error_text : ApiError → Str
error_text not_found = text "not found"
error_text (bad_request what) = text "bad request: " ++ what
error_text (store _) = text "internal error"

-- The values that `json_response` serialises.
pub data Body : Type 0 where
  health : Body
  view : JobView → Body
  failure : Str → Body

pub record Response : Type 0 where
  pub status : ℕ
  pub body : Body

-- `MAX_BODY_BYTES`
abbrev pub max_body_bytes : ℕ
max_body_bytes = 256 * 1024

abbrev pub Api : Type 0 → Type 0
Api A = World → Result ApiError A × World

module _ {A B : Type 0} where
  abbrev proceed : Result ApiError A → (A → Api B) → Api B
  proceed (ok a) f w = f a w
  proceed (err e) f w = (err e, w)

  infixl 5 ◌>>=◌ ◌>>◌
  -- `?` in a handler
  unfoldable pub ◌>>=◌ : Api A → (A → Api B) → Api B
  ◌>>=◌ m f w = let (r, w') = m w in proceed r f w'

  abbrev pub ◌>>◌ : Api A → Api B → Api B
  m >> n = m >>= λ _. n

module _ {A : Type 0} where
  -- A call of the store, its error by `ApiError::Store`.
  unfoldable pub from_store : Query A → Api A
  from_store q w = let (r, w') = q w in (map_err store r, w')

  unfoldable pub lift : Result ApiError A → Api A
  lift r w = (r, w)

unfoldable pub ok_or_not_found {ℓ} : {A : Type ℓ} → Option A → Result ApiError A
ok_or_not_found none = err not_found
ok_or_not_found (some a) = ok a

unfoldable pub positive : Option ℤ → Option MessageId
positive none = none
positive (some raw) = if ltb_ℤ (pos 0) raw then some (id_of raw) else none

unfoldable pub parse_after : Option Str → Option MessageId
unfolding positive
parse_after none = none
parse_after (some raw) = positive (parse_i64 raw)

unfoldable pub parse_job_id : Str → Option MessageId
unfolding parse_after
parse_job_id path = parse_after (strip_prefix (text "/jobs/") path)

-- The `match` on the job's reply id.
unfoldable pub load_reply : Option MessageId → Api (Option Str)
unfolding from_store lift
load_reply (some reply_id) = from_store (reply reply_id)
load_reply none = lift (ok none)

unfoldable pub load_view : MessageId → Api JobView
unfolding ◌>>=◌ from_store lift ok_or_not_found load_reply
load_view id = do
  found ← from_store (get id)
  job ← lift (ok_or_not_found found)
  answer ← load_reply job.reply_id
  lift (ok (record { job = job; reply = answer }))

-- The body of a request, as `Limited::collect` reads it up to a size, and as `serde_json::from_slice`
-- parses it; both give the text of their error.
module _ {Incoming : Type 0} (collect : ℕ → Incoming → Result Str (List ℕ))
    (from_slice : List ℕ → Result Str CreateJob) where
  unfoldable pub parse_body : Result Str (List ℕ) → Result ApiError CreateJob
  parse_body (err e) = err (bad_request (text "could not read body: " ++ e))
  parse_body (ok raw) =
      map_err (λ e. bad_request (text "invalid JSON body: " ++ e)) (from_slice raw)

  unfoldable pub read_json : Incoming → Result ApiError CreateJob
  unfolding parse_body
  read_json body = parse_body (collect max_body_bytes body)

  unfoldable pub check_content : CreateJob → Result ApiError CreateJob
  check_content create =
      if is_empty (trim create.content)
      then err (bad_request (text "content must not be empty"))
      else ok create

  unfoldable pub post_job : Incoming → Api Response
  unfolding ◌>>=◌ from_store lift load_view read_json check_content
  post_job body = do
    read ← lift (read_json body)
    create ← lift (check_content read)
    id ← from_store (insert create.chat_id create.content)
    shown ← load_view id
    lift (ok (record { status = 201; body = view shown }))

  unfoldable pub get_job : Str → Api Response
  unfolding ◌>>=◌ lift load_view parse_job_id ok_or_not_found
  get_job path = do
    id ← lift (ok_or_not_found (parse_job_id path))
    shown ← load_view id
    lift (ok (record { status = 200; body = view shown }))

  unfoldable pub route : Method → Str → Incoming → Api Response
  unfolding lift post_job get_job
  route get_method path body =
      if eq_str path (text "/health")
      then lift (ok (record { status = 200; body = health }))
      else if starts_with (text "/jobs/") path
      then get_job path
      else lift (err not_found)
  route post_method path body =
      if eq_str path (text "/jobs") then post_job body else lift (err not_found)
  route other_method path body = lift (err not_found)

  unfoldable pub respond : Result ApiError Response → Response
  unfolding error_status error_text
  respond (ok response) = response
  respond (err e) = record { status = error_status e; body = failure (error_text e) }

  unfoldable pub handle : Method → Str → Incoming → World → Response × World
  unfolding route respond
  handle method path body w = let (outcome, w') = route method path body w in (respond outcome, w')
