-- ===== src/Broker/Refresh.antt =====
-- src/qbo.rs: `QboBroker::new`, `client_credentials`, `refresh`, and the row that a refresh leads to.
use claude_job_runner.Prelude.{
  ℕ, ℤ, pos, ◌+ℤ◌, wrap_i64, max_i64, Bool, ◌&&◌, Option, none, some, List, [], ◌∷◌, ◌++◌, take,
  leb, if◌then◌else◌, Str, text, trim, len, bytes, Result, ok, err, map_err, ok_or, ◌>>=◌,
}
use claude_job_runner.Store.Exec.{Fault, fine, lost, late}
use claude_job_runner.Jobctl.Qbo.Args.{percent_encode, and_then, keep_if}
use claude_job_runner.Broker.{
  QboEnvironment, QboConfig, QboError, config, undecryptable, database, http, CompanyRow, TokenSet,
}
use claude_job_runner.Broker.Crypto.{Cipher, parse_key, decrypt, encrypt}

-- `Inner`, without the pool and the client.
pub record QboBroker : Type 0 where
  pub key : List ℕ
  pub app_credentials : Option (Str × Str)
  pub environment : QboEnvironment
  -- in seconds
  pub valid_for : ℕ

pub record Request : Type 0 where
  pub url : Str
  pub user : Str
  pub password : Str
  pub headers : List (Str × Str)
  pub body : Str

-- A status, and the body where it can be read.
abbrev pub Response : Type 0
Response = ℕ × Result Str Str

-- What one call of `access` meets: its statements' faults, the clock's two readings (seconds since the
-- epoch, if it is not before it), the nonces, and Intuit's answer.
pub record Circumstances : Type 0 where
  pub begun : Fault
  pub selected : Fault
  pub updated : Fault
  pub committed : Fault
  pub now : Option ℕ
  pub later : Option ℕ
  pub access_nonce : Option (List ℕ)
  pub refresh_nonce : Option (List ℕ)
  pub post : Request → Result Str Response
  -- a status with its reason phrase, and serde_json's reader of a token response
  pub status_text : ℕ → Str
  pub read_tokens : Str → Result Str TokenSet

-- `i64::try_from(_).unwrap_or(i64::MAX)`
unfoldable pub to_i64 : ℕ → ℤ
to_i64 n = if leb n max_i64 then pos n else pos max_i64

unfoldable pub unix_now : Option ℕ → ℤ
unfolding to_i64
unix_now none = pos 0
unix_now (some secs) = to_i64 secs

-- A statement inside the transaction: any failure drops it.
unfoldable pub stmt : Fault → Result QboError (Unit {0})
stmt fine = ok tt
stmt (lost e) = err (database e)
stmt (late e) = err (database e)

abbrev pub min_credential_len : ℕ
min_credential_len = 10

unfoldable pub long_enough : Str → Bool
unfolding len
long_enough value = leb min_credential_len (len value)

unfoldable pub app_pair : Option Str → Option Str → Option (Str × Str)
unfolding long_enough trim
app_pair (some id) (some secret) =
    if long_enough (trim id) && long_enough (trim secret) then some (trim id, trim secret) else none
app_pair _ _ = none

abbrev pub no_credentials : QboError
no_credentials =
    config (text "no QuickBooks app credentials: set QBO_CLIENT_ID and QBO_CLIENT_SECRET")

abbrev pub token_url : Str
token_url = text "https://oauth.platform.intuit.com/oauth2/v1/tokens/bearer"

unfoldable pub refresh_request : Str → Str → Str → Request
unfolding percent_encode
refresh_request client_id client_secret refresh_token = record {
  url = token_url;
  user = client_id;
  password = client_secret;
  headers =
      (text "Accept", text "application/json")
      ∷ ((text "Content-Type", text "application/x-www-form-urlencoded") ∷ []);
  body = text "grant_type=refresh_token&refresh_token=" ++ percent_encode refresh_token;
}

abbrev pub refresh_failed : Str → QboError
refresh_failed e = http (text "QuickBooks token refresh: " ++ e)

unfoldable pub is_success : ℕ → Bool
is_success status = leb 200 status && leb status 299

unfoldable pub read_response : Circumstances → Response → Result QboError TokenSet
unfolding is_success
read_response o (status, err e) = err (refresh_failed e)
read_response o (status, ok body) =
    if is_success status
    then map_err (λ e. refresh_failed (text "bad response: " ++ e)) (o.read_tokens body)
    else err
        (refresh_failed (text "HTTP " ++ (o.status_text status ++ (text ": " ++ take 300 body))))

unfoldable pub refresh : Circumstances → Str → Str → Str → Result QboError TokenSet
unfolding refresh_request read_response
refresh o client_id client_secret refresh_token = do
  response ← map_err refresh_failed (o.post (refresh_request client_id client_secret refresh_token))
  read_response o response

-- The row that the UPDATE writes.
unfoldable pub renewed_row : Circumstances → CompanyRow → TokenSet → Str → Str → CompanyRow
unfolding unix_now bytes
renewed_row o row tokens access refreshed = record row {
  access_token = some (bytes access);
  refresh_token = some (bytes refreshed);
  access_expires = some (wrap_i64 (unix_now o.later +ℤ tokens.expires_in));
  refresh_expires = some (wrap_i64 (unix_now o.later +ℤ tokens.x_refresh_token_expires_in));
}

module _ (c : Cipher) where
  -- `new`; the flag tells whether the HTTP client can be built, else why not.
  unfoldable pub new : Result Str (Unit {0}) → QboConfig → ℕ → Result QboError QboBroker
  unfolding parse_key app_pair
  new client cfg valid_for = do
    key ← parse_key c cfg.aes_key_hex
    _ ← map_err (λ e. http (text "cannot build HTTP client: " ++ e)) client
    ok (record {
      key = key;
      app_credentials = app_pair cfg.client_id cfg.client_secret;
      environment = cfg.environment;
      valid_for = valid_for;
    })

  unfoldable pub own_credential : List ℕ → Option (List ℕ) → Option Str
  unfolding decrypt trim long_enough keep_if
  own_credential key blob =
      keep_if long_enough (and_then (and_then blob (decrypt c key)) (λ value. some (trim value)))

  unfoldable pub choose_credentials :
      Option Str → Option Str → Option (Str × Str) → Result QboError (Str × Str)
  choose_credentials (some id) (some secret) app = ok (id, secret)
  choose_credentials none _ app = ok_or app no_credentials
  choose_credentials (some id) none app = ok_or app no_credentials

  unfoldable pub client_credentials : QboBroker → CompanyRow → Result QboError (Str × Str)
  unfolding own_credential choose_credentials
  client_credentials b row =
      choose_credentials (own_credential b.key row.client_id)
        (own_credential b.key row.client_secret) b.app_credentials

  -- Encryption and the UPDATE.
  unfoldable pub store :
      Circumstances → QboBroker → CompanyRow → TokenSet → Result QboError (TokenSet × CompanyRow)
  unfolding encrypt renewed_row stmt
  store o b row tokens = do
    access ← encrypt c o.access_nonce b.key tokens.access_token
    refreshed ← encrypt c o.refresh_nonce b.key tokens.refresh_token
    _ ← stmt o.updated
    ok (tokens, renewed_row o row tokens access refreshed)

  -- The refresh and the row it leads to.
  unfoldable pub renew :
      Circumstances → QboBroker → CompanyRow → List ℕ → Result QboError (TokenSet × CompanyRow)
  unfolding decrypt client_credentials refresh store
  renew o b row blob = do
    token ← ok_or (decrypt c b.key blob) (undecryptable (text "refresh token"))
    credentials ← client_credentials b row
    tokens ← refresh o (credentials.0) (credentials.1) token
    store o b row tokens
