-- ===== src/Http/Jobs.antt =====
-- What the job routes of the API answer, and what they do to the tables.
use claude_job_runner.Prelude.{
  ℕ, ◌≤◌, ◌<◌, ◌≡◌, refl, ◌∙◌, ap, Bool, true, false, ◌&&◌, none, some, List, [], ◌∷◌, ◌++◌, arith,
  Str, text, ℤ, pos, max_i64, Result, ok, err, is_empty, trim, find, inl, inr, eq_ℤ, show_ℤ,
  starts_with, strip_prefix, eq_str, Result-cases, map_err,
}
use claude_job_runner.Job.{MessageId, ChatId, Job, new, to_db}
use claude_job_runner.Db.{Db, Message, count, has_id, is_job, insert_user, user_row, chat_exists}
use claude_job_runner.Db.Rows.{find-append, count_mono}
use claude_job_runner.Db.Tidy.{inserted, count-fresh}
use claude_job_runner.Db.Evolves.{IsTidy}
use claude_job_runner.Store.{
  insert, insert_id, get, id_of, job_of, joined, select_job, and_then, payload_get, transposed,
}
use claude_job_runner.Store.Exec.{World, quiet, run, lift as lift_store, ◌>>=◌ as ◌>=>◌}
use claude_job_runner.Store.Claiming.{get_quiet, read_status}
use claude_job_runner.Http.Paths.{parse_job_id-show}
use claude_job_runner.Http.{
  Method, get_method, post_method, CreateJob, JobView, ApiError, Response, view, load_view,
  load_reply, from_store, lift, ok_or_not_found, post_job, get_job, route, handle, respond, ◌>>=◌,
  parse_job_id, check_content, read_json, parse_body, error_status, max_body_bytes, bad_request,
}

-- A new job's row, in tables that have no row of its id.
new_row : ℤ → Str → Db → Message
new_row chat content d = user_row chat content d.next_id

select_new :
    (chat : ℤ) (content : Str) (d : Db)
    → IsTidy d
    → select_job (pos d.next_id) (inserted d (new_row chat content d))
      ≡ some (joined d.chats (new_row chat content d))
unfolding select_job new_row
select_new chat content d h =
    let mine : Message → Bool = λ m. has_id (pos d.next_id) m && is_job m in
    let free : count mine d.messages ≡ 0 = omega (
      arith,
      count_mono mine (has_id (pos d.next_id)) (λ m e. ground arith) d.messages,
      count-fresh d.next_id d.messages h.fresh,
    ) in
    rw (find-append mine d.messages (user_row chat content d.next_id ∷ []) free)
      (found chat content d)
  where
    found :
        (chat : ℤ) (content : Str) (d : Db)
        → and_then
            (find
              (λ m. has_id (pos d.next_id) m && is_job m)
              (user_row chat content d.next_id ∷ []))
            (λ m. some (joined d.chats m))
          ≡ some (joined d.chats (user_row chat content d.next_id))
    found chat content d = unfold user_row is_job eq_ℤ in ground arith

-- The new job as the API shows it.
abbrev pub new_job : ChatId → Str → Db → Job
new_job chat content d = job_of (joined d.chats (user_row chat.get content d.next_id)) new

get_new :
    (chat : ChatId) (content : Str) (d : Db)
    → IsTidy d
    → get (id_of (pos d.next_id)) (quiet (inserted d (user_row chat.get content d.next_id))) ≡ (
      ok (some (new_job chat content d)),
      quiet (inserted d (user_row chat.get content d.next_id)),
    )
unfolding new_row
get_new chat content d h =
    let d' : Db = inserted d (user_row chat.get content d.next_id) in
    get_quiet (pos d.next_id) d'
    ∙ ap (λ o. (transposed o, quiet d')) (select_new chat.get content d h)
    ∙ ap (λ r. (r, quiet d'))
        (read_status d.chats (user_row chat.get content d.next_id) new
          (unfold user_row to_db in refl))

insert_new :
    (chat : ChatId) (content : Str) (d : Db)
    → chat_exists chat.get d.chats ≡ true
    → d.next_id ≤ max_i64
    → insert chat content (quiet d)
      ≡ (ok (id_of (pos d.next_id)), quiet (inserted d (user_row chat.get content d.next_id)))
unfolding insert run ◌>=>◌ insert_user insert_id lift_store
insert_new chat content d there fits = rw there (ground (arith, fits))

-- A job without a reply, as the API shows it.
load_unanswered :
    (id : MessageId) (job : Job) (w : World)
    → get id w ≡ (ok (some job), w)
    → job.reply_id ≡ none
    → load_view id w ≡ (ok (record { job = job; reply = none }), w)
unfolding load_view ◌>>=◌ from_store lift ok_or_not_found load_reply
load_unanswered id job w e r = rw e (rw r refl)

no_reply : (chat : ChatId) (content : Str) (d : Db) → (new_job chat content d).reply_id ≡ none
unfolding job_of payload_get user_row joined
no_reply chat content d = refl

load_new :
    (chat : ChatId) (content : Str) (d : Db)
    → IsTidy d
    → load_view (id_of (pos d.next_id)) (quiet (inserted d (user_row chat.get content d.next_id)))
      ≡ (
        ok (record { job = new_job chat content d; reply = none }),
        quiet (inserted d (user_row chat.get content d.next_id)),
      )
load_new chat content d h =
    load_unanswered (id_of (pos d.next_id)) (new_job chat content d)
      (quiet (inserted d (user_row chat.get content d.next_id))) (get_new chat content d h)
      (no_reply chat content d)

module _ {Incoming : Type 0} (collect : ℕ → Incoming → Result Str (List ℕ))
    (from_slice : List ℕ → Result Str CreateJob) where
  post_new :
      (body : Incoming) (create : CreateJob) (d : Db)
      → read_json collect from_slice body ≡ ok create
      → is_empty (trim create.content) ≡ false
      → chat_exists create.chat_id.get d.chats ≡ true
      → IsTidy d
      → d.next_id ≤ max_i64
      → post_job collect from_slice body (quiet d) ≡ (
        ok (record {
          status = 201;
          body = view (record { job = new_job create.chat_id create.content d; reply = none });
        }),
        quiet (inserted d (user_row create.chat_id.get create.content d.next_id)),
      )
  unfolding post_job ◌>>=◌ lift from_store check_content
  post_new body create d e kept there h fits = rw e (
      rw kept (
        rw (insert_new create.chat_id create.content d there fits)
          (rw (load_new create.chat_id create.content d h) refl)))

  get_found :
      (path : Str) (id : MessageId) (shown : JobView) (w : World)
      → parse_job_id path ≡ some id
      → load_view id w ≡ (ok shown, w)
      → get_job collect from_slice path w ≡ (ok (record { status = 200; body = view shown }), w)
  unfolding get_job ◌>>=◌ lift ok_or_not_found
  get_found path id shown w e load = rw e (rw load refl)

  -- The path of a job is not that of the health check.
  to_job :
      (raw : Str) (body : Incoming) (w : World)
      → route collect from_slice get_method (text "/jobs/" ++ raw) body w
        ≡ get_job collect from_slice (text "/jobs/" ++ raw) w
  unfolding route starts_with eq_str strip_prefix
  to_job raw body w = refl

  handled :
      (method : Method) (path : Str) (body : Incoming) (w after : World) (response : Response)
      → route collect from_slice method path body w ≡ (ok response, after)
      → handle collect from_slice method path body w ≡ (response, after)
  unfolding handle respond
  handled method path body w after response e = rw e refl

  -- POST /jobs with content that is not blank, for a chat that exists, answers 201 with the new job,
  -- which has not been claimed and has no reply, and adds its row and nothing else; GET of that
  -- job's path then answers 200 with the same job and changes nothing. Nothing interferes with the
  -- database and the new id is a positive `i64`.
  pub post_then_get :
      (body later : Incoming) (create : CreateJob) (d : Db)
      → read_json collect from_slice body ≡ ok create
      → is_empty (trim create.content) ≡ false
      → chat_exists create.chat_id.get d.chats ≡ true
      → IsTidy d
      → 0 < d.next_id
      → d.next_id ≤ max_i64
      → (let shown : JobView = record {
        job = new_job create.chat_id create.content d;
        reply = none;
      } in
          let after : World =
            quiet (inserted d (user_row create.chat_id.get create.content d.next_id)) in
          (handle collect from_slice post_method (text "/jobs") body (quiet d)
            ≡ (record { status = 201; body = view shown }, after))
          × (handle collect from_slice get_method
                (text "/jobs/" ++ show_ℤ (pos d.next_id))
                later
                after
              ≡ (record { status = 200; body = view shown }, after)))
  unfolding route eq_str
  post_then_get body later create d e kept there h positive fits =
      let after : World =
        quiet (inserted d (user_row create.chat_id.get create.content d.next_id)) in
      (
        handled post_method (text "/jobs") body (quiet d) after _
            (post_new body create d e kept there h fits),
        handled get_method (text "/jobs/" ++ show_ℤ (pos d.next_id)) later after after _ (
            to_job (show_ℤ (pos d.next_id)) later after
            ∙ get_found (text "/jobs/" ++ show_ℤ (pos d.next_id)) (id_of (pos d.next_id)) _ after
                (parse_job_id-show d.next_id positive fits)
                (load_new create.chat_id create.content d h)),
      )

  slice_status :
      (r : Result Str CreateJob) (e : ApiError)
      → map_err (λ e. bad_request (text "invalid JSON body: " ++ e)) r ≡ err e
      → error_status e ≡ 400
  unfolding error_status
  slice_status (ok _) e h = ground arith
  slice_status (err _) e h = ground arith

  -- Reading a body fails by `BadRequest` only.
  unread_status :
      (o : Result Str (List ℕ)) (e : ApiError)
      → parse_body collect from_slice o ≡ err e
      → error_status e ≡ 400
  unfolding parse_body error_status
  unread_status (err _) e h = ground arith
  unread_status (ok raw) e h = slice_status (from_slice raw) e h

  -- A body that cannot be read or parsed, or whose content is blank, answers 400, and no statement
  -- reaches the database.
  pub post_rejected :
      (body : Incoming) (w : World)
      → ((create : CreateJob)
          → read_json collect from_slice body ≡ ok create
          → is_empty (trim create.content) ≡ true)
      → ((handle collect from_slice post_method (text "/jobs") body w).0.status ≡ 400)
        × ((handle collect from_slice post_method (text "/jobs") body w).1 ≡ w)
  unfolding handle route respond post_job ◌>>=◌ lift check_content error_status read_json eq_str
  post_rejected body w blank = elim (Result-cases (read_json collect from_slice body)) [
    | inl (create, e) ↦ rw e (rw (blank create e) (refl, refl))
    | inr (e, unread) ↦ rw unread (unread_status (collect max_body_bytes body) e unread, refl)
  ]
