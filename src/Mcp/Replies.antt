-- ===== src/Mcp/Replies.antt =====
-- crates/jobctl-mcp/src/main.rs: what the server answers.
use claude_job_runner.Prelude.{
  ℤ, negsuc, ◌++◌, ◌≡◌, refl, Bool, not, Option, none, some, Str, text, eq_str, is_some, unwrap_or,
  Bool-cases, inl, inr,
}
use claude_job_runner.Json.{Value, null, str, object, end, from_fields, get, lookup, index}
use claude_job_runner.Mcp.{
  Outside, State, reply_with, error, call_tool, call_reply, call_replied, answer, handle, handle_id,
  replied, str_or_empty, initialize_result, tools_result,
}

-- A JSON-RPC reply to the request with this id: it names the version and the id, and has a result or an
-- error, not both.
abbrev pub Reply : Value → Value → Type 0
Reply id v =
    (get v (text "jsonrpc") ≡ some (str (text "2.0")))
    × ((get v (text "id") ≡ some id)
        × (is_some (get v (text "result")) ≡ not (is_some (get v (text "error")))))

result-Reply : (id body : Value) → Reply id (reply_with id (text "result") body)
unfolding reply_with from_fields get lookup eq_str
result-Reply id body = (refl, (refl, refl))

error-Reply : (id : Value) (code : ℤ) (message : Str) → Reply id (error id code message)
unfolding error reply_with from_fields get lookup eq_str
error-Reply id code message = (refl, (refl, refl))

module _ {S Conn : Type 0} (o : Outside S Conn) where
  call_reply-Reply :
      (id : Value) (name : Str) (r : Option (Str × Bool)) → Reply id (call_reply o id name r)
  call_reply-Reply id name none = unfold call_reply in error-Reply id _ _
  call_reply-Reply id name (some (content, is_error)) = unfold call_reply in result-Reply id _

  call_replied-Reply :
      (id : Value) (name : Str) (r : Option (Str × Bool) × State o)
      → Reply id ((call_replied o id name r).0)
  call_replied-Reply id name (r, state) = call_reply-Reply id name r

  answer-Reply :
      (method : Str) (id params : Value) (state : State o)
      → Reply id ((answer o method id params state).0)
  unfolding answer
  answer-Reply method id params (server, s) =
      elim (Bool-cases (eq_str method (text "initialize"))) [
        | inl e ↦ rw e (result-Reply id (initialize_result o params))
        | inr e ↦ elim (Bool-cases (eq_str method (text "tools/list"))) [
          | inl e1 ↦ rw e (rw e1 (result-Reply id (tools_result o server.qbo)))
          | inr e1 ↦ elim (Bool-cases (eq_str method (text "tools/call"))) [
            | inl e2 ↦ rw e (
                rw e1 (
                  rw e2 (
                    call_replied-Reply id (str_or_empty (index params (text "name"))) (
                      call_tool o (str_or_empty (index params (text "name")))
                        (index params (text "arguments")) (server, s)))))
            | inr e2 ↦ elim (Bool-cases (eq_str method (text "ping"))) [
              | inl e3 ↦ rw e (rw e1 (rw e2 (rw e3 (result-Reply id (object end)))))
              | inr e3 ↦ rw e (
                  rw e1 (
                    rw e2 (
                      rw e3 (error-Reply id (negsuc 32600) (text "method not found: " ++ method)))))
            ]
          ]
        ]
      ]

  replied-Reply :
      (id : Value) (r : Value × State o)
      → Reply id (r.0)
      → (reply : Value) × (((replied o r).0 ≡ some reply) × Reply id reply)
  replied-Reply id (reply, state) h = (reply, (refl, h))

  -- What a message gets: nothing happens and nothing is answered if it has no id.
  abbrev pub Answered : Option Value → State o → Option Value × State o → Type 0
  Answered none state outcome = outcome ≡ (none, state)
  Answered (some id) state outcome = (reply : Value) × ((outcome.0 ≡ some reply) × Reply id reply)

  handle_id-Answered :
      (id : Option Value) (message : Value) (state : State o)
      → Answered id state (handle_id o id message state)
  unfolding handle_id
  handle_id-Answered none message state = refl
  handle_id-Answered (some id) message state =
      replied-Reply id
        (answer o (str_or_empty (index message (text "method"))) id
          (unwrap_or (get message (text "params")) null) state)
        (answer-Reply (str_or_empty (index message (text "method"))) id
          (unwrap_or (get message (text "params")) null) state)

  -- A message without an id, a notification, is not answered and changes nothing. Any other is answered
  -- by one JSON-RPC reply that carries its id and has a result or an error, not both, whatever the method
  -- and the outcome of the tool.
  pub handle_answers :
      (message : Value) (state : State o)
      → Answered (get message (text "id")) state (handle o message state)
  unfolding handle
  handle_answers message state = handle_id-Answered (get message (text "id")) message state
