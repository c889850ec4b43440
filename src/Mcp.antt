-- ===== src/Mcp.antt =====
-- crates/jobctl-mcp/src/main.rs: the server that offers a job's tools over stdio. The database, QuickBooks
-- and the environment are a state `S` of the outside; the driver, serde_json's parser and printer, and
-- Rust's quoting of a string are parameters. A tool is listed with its name and required arguments.
pub mod Replies
pub mod Guarded
use claude_job_runner.Prelude.{
  ℤ, pos, negsuc, Bool, true, false, Option, none, some, List, [], ◌∷◌, ◌++◌, map, Str, text, trim,
  is_empty, eq_str, strip_prefix, if◌then◌else◌, unwrap_or, Result, ok, err,
}
use claude_job_runner.Json.{
  Value, null, bool, num, int, str, array, object, end, from_fields, from_list, get, index, as_str,
}
use claude_job_runner.Jobctl.{
  Error, database, config, SqlxKind, sqlx_io, protocol, tls, other, to_string,
}
use claude_job_runner.Jobctl.Qbo.{Scope, Handlers, tools, authorize, call}

unfoldable pub default_protocol_version : Str
default_protocol_version = text "2025-06-18"

-- What the server calls: opening a connection with the job's DATABASE_URL, `sql::query`, the methods of a
-- QuickBooks session on a connection, the printer of their values, quoting and the package's version.
pub record Outside (S Conn : Type 0) : Type 0 where
  pub connect : S → Result Error Conn × S
  pub query : Conn → Str → S → Result Error Str × S
  pub handlers : Conn → Handlers S
  pub print : Value → Str
  pub parse : Str → Result Str Value
  pub quoted : Str → Str
  pub version : Str

-- A session is known by its scope.
pub record Server (Conn : Type 0) : Type 0 where
  pub conn : Option Conn
  pub qbo : Option Scope

unfoldable pub is_connection_error : Error → Bool
is_connection_error (database sqlx_io _) = true
is_connection_error (database protocol _) = true
is_connection_error (database tls _) = true
is_connection_error _ = false

-- The connection that a call leaves behind.
unfoldable pub forget_broken_connection :
    {A Conn : Type 0} → Result Error A → Server Conn → Server Conn
unfolding is_connection_error
forget_broken_connection (ok a) server = server
forget_broken_connection (err e) server =
    if is_connection_error e then record server { conn = none } else server

abbrev fields : List (Str × Value) → Value
fields kvs = object (from_fields kvs)

unfoldable pub tool_value : Str × List Str → Value
unfolding from_fields from_list
tool_value (name, required) = fields (
    (text "name", str name)
    ∷ ((
      text "inputSchema",
      fields (
          (text "type", str (text "object"))
          ∷ ((text "required", array (from_list (map str required))) ∷ [])),
    )
        ∷ []))

abbrev pub sql_tool : Str × List Str
sql_tool = (text "sql", text "sql" ∷ [])

abbrev pub session_tools : Option Scope → List (Str × List Str)
session_tools none = []
session_tools (some scope) = tools scope.is_admin

unfoldable pub all_tools : Option Scope → List (Str × List Str)
all_tools session = sql_tool ∷ session_tools session

unfoldable pub reply_with : Value → Str → Value → Value
unfolding from_fields
reply_with id key body =
    fields ((text "jsonrpc", str (text "2.0")) ∷ ((text "id", id) ∷ ((key, body) ∷ [])))

unfoldable pub error : Value → ℤ → Str → Value
unfolding reply_with from_fields
error id code message =
    reply_with id (text "error")
      (fields ((text "code", num (int code)) ∷ ((text "message", str message) ∷ [])))

unfoldable pub str_or_empty : Value → Str
unfolding as_str
str_or_empty v = unwrap_or (as_str v) []

unfoldable pub tool_result : Option (Result Error Str) → Option (Str × Bool)
tool_result none = none
tool_result (some (ok out)) = some (out, false)
tool_result (some (err e)) = some (to_string e, true)

module _ {S Conn : Type 0} (o : Outside S Conn) where
  abbrev pub State : Type 0
  State = Server Conn × S

  unfoldable pub opened : Server Conn → Result Error Conn × S → Result Error Conn × State
  opened server (ok conn, s) = (ok conn, (record server { conn = some conn }, s))
  opened server (err e, s) = (err e, (server, s))

  unfoldable pub connection_at : Option Conn → State → Result Error Conn × State
  unfolding opened
  connection_at (some conn) (server, s) = (ok conn, (server, s))
  connection_at none (server, s) = opened server (o.connect s)

  unfoldable pub connection : State → Result Error Conn × State
  unfolding connection_at
  connection (server, s) = connection_at server.conn (server, s)

  abbrev pub after_query : Server Conn → Result Error Str × S → Result Error Str × State
  after_query server (outcome, s) = (outcome, (forget_broken_connection outcome server, s))

  unfoldable pub query_on : Str → Result Error Conn × State → Result Error Str × State
  unfolding forget_broken_connection
  query_on statement (err e, state) = (err e, state)
  query_on statement (ok conn, (server, s)) = after_query server (o.query conn statement s)

  unfoldable pub sql : Str → State → Result Error Str × State
  unfolding connection query_on trim
  sql statement state =
      if is_empty (trim statement)
      then (err (config (text "the sql argument is empty")), state)
      else query_on statement (connection state)

  -- `None` of the session's call leaves the connection as it is.
  abbrev pub after_call :
      Server Conn → Option (Result Error Str) × S → Option (Result Error Str) × State
  after_call server (none, s) = (none, (server, s))
  after_call server (some outcome, s) = (some outcome, (forget_broken_connection outcome server, s))

  unfoldable pub call_on :
      Scope → Str → Value → Result Error Conn × State → Option (Result Error Str) × State
  unfolding forget_broken_connection call
  call_on scope name args (err e, state) = (some (err e), state)
  call_on scope name args (ok conn, (server, s)) =
      after_call server (call (o.handlers conn) o.print scope name args s)

  unfoldable pub qbo_authorized :
      Option (Result Error (Unit {0}))
      → Scope
      → Str
      → Value
      → State
      → Option (Result Error Str) × State
  unfolding connection call_on
  qbo_authorized none scope name args state = (none, state)
  qbo_authorized (some (err e)) scope name args state = (some (err e), state)
  qbo_authorized (some (ok _)) scope name args state = call_on scope name args (connection state)

  unfoldable pub qbo_in : Option Scope → Str → Value → State → Option (Result Error Str) × State
  unfolding qbo_authorized authorize
  qbo_in none name args state = (none, state)
  qbo_in (some scope) name args state = qbo_authorized (authorize scope name) scope name args state

  unfoldable pub qbo : Str → Value → State → Option (Result Error Str) × State
  unfolding qbo_in
  qbo name args (server, s) = qbo_in server.qbo name args (server, s)

  unfoldable pub qbo_named : Option Str → Value → State → Option (Result Error Str) × State
  unfolding qbo
  qbo_named none args state = (none, state)
  qbo_named (some name) args state = qbo name args state

  abbrev pub as_some : Result Error Str × State → Option (Result Error Str) × State
  as_some (r, state) = (some r, state)

  abbrev pub texts_of : Option (Result Error Str) × State → Option (Str × Bool) × State
  texts_of (r, state) = (tool_result r, state)

  -- `Server::call`
  unfoldable pub call_tool : Str → Value → State → Option (Str × Bool) × State
  unfolding sql qbo_named tool_result str_or_empty index strip_prefix eq_str
  call_tool name args state = texts_of (
      if eq_str name (text "sql")
      then as_some (sql (str_or_empty (index args (text "sql"))) state)
      else qbo_named (strip_prefix (text "qbo_") name) args state)

  unfoldable pub call_reply : Value → Str → Option (Str × Bool) → Value
  unfolding error reply_with from_fields from_list
  call_reply id name none = error id (negsuc 32601) (text "unknown tool " ++ o.quoted name)
  call_reply id name (some (content, is_error)) = reply_with id (text "result") (
      fields (
        (
          text "content",
          array (
              from_list (
                fields ((text "type", str (text "text")) ∷ ((text "text", str content) ∷ []))
                ∷ [])),
        )
        ∷ ((text "isError", bool is_error) ∷ [])))

  abbrev pub call_replied : Value → Str → Option (Str × Bool) × State → Value × State
  call_replied id name (outcome, state) = (call_reply id name outcome, state)

  unfoldable pub initialize_result : Value → Value
  unfolding from_fields index as_str
  initialize_result params = fields (
      (
        text "protocolVersion",
        str (unwrap_or (as_str (index params (text "protocolVersion"))) default_protocol_version),
      )
      ∷ ((text "capabilities", fields ((text "tools", fields []) ∷ []))
          ∷ ((
            text "serverInfo",
            fields ((text "name", str (text "jobctl")) ∷ ((text "version", str o.version) ∷ [])),
          )
              ∷ [])))

  unfoldable pub tools_result : Option Scope → Value
  unfolding from_fields from_list all_tools tool_value
  tools_result session =
      fields ((text "tools", array (from_list (map tool_value (all_tools session)))) ∷ [])

  -- A request's answer, by its method.
  unfoldable pub answer : Str → Value → Value → State → Value × State
  unfolding call_tool call_reply reply_with error initialize_result tools_result index str_or_empty
      eq_str
  answer method id params (server, s) =
      if eq_str method (text "initialize")
      then (reply_with id (text "result") (initialize_result params), (server, s))
      else if eq_str method (text "tools/list")
      then (reply_with id (text "result") (tools_result server.qbo), (server, s))
      else if eq_str method (text "tools/call")
      then (let name = str_or_empty (index params (text "name")) in
          call_replied id name (call_tool name (index params (text "arguments")) (server, s)))
      else if eq_str method (text "ping")
      then (reply_with id (text "result") (fields []), (server, s))
      else (error id (negsuc 32600) (text "method not found: " ++ method), (server, s))

  abbrev pub replied : Value × State → Option Value × State
  replied (reply, state) = (some reply, state)

  unfoldable pub handle_id : Option Value → Value → State → Option Value × State
  unfolding answer get index str_or_empty
  handle_id none message state = (none, state)
  handle_id (some id) message state = replied (
      answer (str_or_empty (index message (text "method"))) id
        (unwrap_or (get message (text "params")) null) state)

  -- `Server::handle`
  unfoldable pub handle : Value → State → Option Value × State
  unfolding handle_id get
  handle message state = handle_id (get message (text "id")) message state

  unfoldable pub parsed : Result Str Value → State → Option Value × State
  unfolding handle error
  parsed (err e) state = (some (error null (negsuc 32699) (text "parse error: " ++ e)), state)
  parsed (ok message) state = handle message state

  unfoldable pub respond : Str → State → Option Value × State
  unfolding parsed trim
  respond line state = if is_empty (trim line) then (none, state) else parsed (o.parse line) state

  -- Each line of the input, or the error of reading it, with whether a reply to it can be written; what
  -- is written, and whether the server exits with success.
  abbrev pub Line : Type 0
  Line = Result Str Str × Bool

  abbrev pub emit :
      Option Value → Bool → State → (List Value × Bool) × State → (List Value × Bool) × State
  emit none written state later = later
  emit (some reply) false state later = (([], false), state)
  emit (some reply) true state ((replies, success), state') = ((reply ∷ replies, success), state')

  -- `main`'s loop
  unfoldable pub serve : List Line → State → (List Value × Bool) × State
  unfolding respond
  serve [] state = (([], true), state)
  serve ((err e, _) ∷ _) state = (([], false), state)
  serve ((ok line, written) ∷ lines) state =
      let (reply, state') = respond line state in emit reply written state' (serve lines state')
