-- ===== src/Store/RoundTrip.antt =====
-- What the HTTP API reads back of a finished job.
use claude_job_runner.Prelude.{
  ℕ, ◌≤◌, ◌≡◌, refl, ◌∙◌, ap, Bool, true, false, not, ◌&&◌, none, some, List, [], ◌∷◌, ◌++◌, arith,
  All, All-append, ℤ, pos, Bool-cases, inl, inr, Str, text, find, ◌⊎◌, ok, max_i64, eq_str_iff,
  eq_ℤ_refl, sym, subst,
}
use claude_job_runner.Json.{
  Fields, object, num, int, get as get_key, as_i64, json_set, put, lookup-put, end,
}
use claude_job_runner.Job.{Job, done, to_db, success}
use claude_job_runner.Db.{
  Db, Message, insert_replies, count, update, has_id, is_job, is_user, pending_row, reply_row,
  mark_done,
}
use claude_job_runner.Db.Rows.{
  count-append, count-update, find-append, update-append, count_mono, count_mono_All,
}
use claude_job_runner.Db.Evolves.{IsTidy}
use claude_job_runner.Db.Tidy.{inserted, count-fresh}
use claude_job_runner.Store.{
  get, reply, select_job, select_reply, joined, job_of, payload_get, transposed, done_update, id_of,
  finish, and_then,
}
use claude_job_runner.Store.Exec.{World, quiet, run}
use claude_job_runner.Store.Steps.{insert_replies_one}
use claude_job_runner.Store.Claiming.{find_job, get_quiet, read_status}
use claude_job_runner.Store.Finishing.{
  done_tables, outcome_tables, finish_pending, length-insert_replies,
}

-- The payload column is NULL or an object, as the chat application leaves it.
abbrev pub HasObject : Message → Type 0
HasObject m = (m.payload ≡ none) ⊎ ((fs : Fields) × (m.payload ≡ some (object fs)))

-- The status and the reply's id that a row shows.
abbrev pub ShowsReply : ℤ → Message → Type 0
ShowsReply reply_id m =
    (m.status ≡ to_db done)
    × (and_then (payload_get m.payload (text "reply_id")) as_i64 ≡ some reply_id)

put_reply_id :
    (n : ℕ) (fs : Fields)
    → n ≤ max_i64
    → and_then
        (get_key (object (put (text "reply_id") (num (int (pos n))) fs)) (text "reply_id"))
        as_i64
      ≡ some (pos n)
unfolding get_key as_i64
put_reply_id n fs h = ground (
  arith,
  lookup-put (text "reply_id") (text "reply_id") (num (int (pos n))) fs,
  eq_str_iff (text "reply_id") (text "reply_id"),
)

mark_done-ShowsReply :
    (n : ℕ) (m : Message) → n ≤ max_i64 → HasObject m → ShowsReply (pos n) (mark_done (pos n) m)
unfolding mark_done payload_get json_set
mark_done-ShowsReply n m h (inl e) = (refl, rw e (put_reply_id n end h))
mark_done-ShowsReply n m h (inr (fs, e)) = (refl, rw e (put_reply_id n fs h))

-- The update of `finish_done` on the row that it meets.
marked :
    (id : ℤ) (n : ℕ) (xs : List Message)
    → n ≤ max_i64
    → All HasObject xs
    → All
        (λ m. has_id id m ≡ true → ShowsReply (pos n) m)
        (update (has_id id) (mark_done (pos n)) xs)
unfolding update
marked id n [] fits h = tt
marked id n (x ∷ xs) fits (hx, h) = elim (Bool-cases (has_id id x)) [
  | inl e ↦ rw e (λ _. mark_done-ShowsReply n x fits hx, marked id n xs fits h)
  | inr e ↦ rw e (λ same. absurd (ground arith), marked id n xs fits h)
]

-- The pending row of tidy tables is a job.
pending_jobs :
    (id : ℤ) (xs : List Message)
    → All (λ m. is_job m ≡ false → m.status ≡ none) xs
    → All (λ m. pending_row id m ≡ true → has_id id m && is_job m ≡ true) xs
unfolding pending_row
pending_jobs id [] h = tt
pending_jobs id (x ∷ xs) (hx, h) = (λ p. ground (arith, hx), pending_jobs id xs h)

module _ (id : ℤ) (result : Str) (d : Db) (h : IsTidy d)
    (one : count (pending_row id) d.messages ≡ 1) where
  -- The tables after `finish_done`, with the pending row and the row of the answer named.
  done_shape :
      (m : Message) × (done_tables id result d
        ≡ done_update id (pos d.next_id) (inserted d (reply_row result d.next_id m)))
  unfolding done_tables
  done_shape =
      let (m, _, _, shape) =
        insert_replies_one id result d (length-insert_replies id result d ∙ one) in
      (m, rw shape)

  -- The job's row.
  pub find_done :
      d.next_id ≤ max_i64
      → All HasObject d.messages
      → (m : Message) × (find (λ m. has_id id m && is_job m) (done_tables id result d).messages
          ≡ some m)
        × ShowsReply (pos d.next_id) m
  unfolding done_update
  find_done fits objects =
      let (m, shape) = done_shape in
      let new : Message = reply_row result d.next_id m in
      let rows : List Message = d.messages ++ new ∷ [] in
      let (row, found, same, shows) =
        find_job (λ m. has_id id m ≡ true → ShowsReply (pos d.next_id) m) id
          (update (has_id id) (mark_done (pos d.next_id)) rows)
          (omega (
            arith,
            count-update (λ m. has_id id m && is_job m) (has_id id) (mark_done (pos d.next_id))
                (λ m. unfold mark_done is_job in refl) rows,
            count-append (λ m. has_id id m && is_job m) d.messages (new ∷ []),
            count_mono_All (pending_row id) (λ m. has_id id m && is_job m) d.messages
                (pending_jobs id d.messages h.only_jobs),
          ))
          (marked id d.next_id rows fits (
            All-append _ d.messages (new ∷ []) objects
              (unfold reply_row in (inr (_, refl)), tt))) in
      (row, rw shape found, shows same)

  select_done :
      d.next_id ≤ max_i64
      → All HasObject d.messages
      → (m : Message) × (select_job id (done_tables id result d) ≡ some (joined d.chats m))
        × ShowsReply (pos d.next_id) m
  unfolding select_job done_tables done_update insert_replies
  select_done fits objects =
      let (m, found, shows) = find_done fits objects in
      (m, ap (λ o. and_then o (λ m. some (joined d.chats m))) found, shows)

  -- The answer's row.
  pub select_answer : select_reply (pos d.next_id) (done_tables id result d) ≡ some result
  unfolding done_update select_reply
  select_answer =
      let (m, shape) = done_shape in
      let new : Message = reply_row result d.next_id m in
      let mine : Message → Bool = λ m. has_id (pos d.next_id) m && not (is_user m.sender) in
      let free : count mine (update (has_id id) (mark_done (pos d.next_id)) d.messages) ≡ 0 =
        omega (
          arith,
          count-update mine (has_id id) (mark_done (pos d.next_id)) (λ m. unfold mark_done in refl)
              d.messages,
          count_mono mine (has_id (pos d.next_id)) (λ m e. ground arith) d.messages,
          count-fresh d.next_id d.messages h.fresh,
        ) in
      rw shape (
        rw (update-append (has_id id) (mark_done (pos d.next_id)) d.messages (new ∷ [])) (
          rw (find-append mine (update (has_id id) (mark_done (pos d.next_id)) d.messages) _ free)
            (answer_row m)))
    where
      answer_row :
          (m : Message)
          → and_then
              (find
                (λ m. has_id (pos d.next_id) m && not (is_user m.sender))
                (update
                  (has_id id)
                  (mark_done (pos d.next_id))
                  (reply_row result d.next_id m ∷ [])))
              (λ m. some m.content)
            ≡ some result
      answer_row m = unfold update reply_row mark_done in ground (arith, eq_ℤ_refl (pos d.next_id))

  -- What `get` and `reply` say of the job in tables where it is finished.
  abbrev pub ReadsBack : World → Type 0
  ReadsBack w =
      (job : Job) × (get (id_of id) w ≡ (ok (some job), w))
      × (job.status ≡ done)
      × (job.reply_id ≡ some (id_of (pos d.next_id)))
      × (reply (id_of (pos d.next_id)) w ≡ (ok (some result), w))

  done_tables-ReadsBack :
      d.next_id ≤ max_i64 → All HasObject d.messages → ReadsBack (quiet (done_tables id result d))
  unfolding reply run
  done_tables-ReadsBack fits objects =
      let (m, found, (st, shown)) = select_done fits objects in
      (
        job_of (joined d.chats m) done,
        get_quiet id (done_tables id result d)
            ∙ ap (λ o. (transposed o, quiet (done_tables id result d))) found
            ∙ ap (λ r. (r, quiet (done_tables id result d))) (read_status d.chats m done st),
        unfold job_of in refl,
        unfold job_of joined in ap (λ o. and_then o (λ n. some (id_of n))) shown,
        ap (λ o. (ok o, quiet (done_tables id result d))) select_answer,
      )

  -- Where exactly one row is pending under an id, `finish` with an answer succeeds, and in the tables
  -- that it leaves `get` returns that job as done, with the id of the new row as its reply's, and `reply`
  -- returns the answer as the content of that row. The tables are tidy, all payloads are NULL or objects,
  -- the new id is an `i64`, no statement fails and no other client changes the tables.
  pub get-finish_done :
      d.next_id ≤ max_i64
      → All HasObject d.messages
      → (let (r, w) = finish (id_of id) (success result) (quiet d) in (r ≡ ok tt) × ReadsBack w)
  unfolding outcome_tables
  get-finish_done fits objects =
      let finished : finish (id_of id) (success result) (quiet d)
          ≡ (ok tt, quiet (done_tables id result d)) =
        finish_pending (id_of id) (success result) d h fits one in
      (
        ap (λ x. x.0) finished,
        subst (λ x. ReadsBack x.1) (sym finished) (done_tables-ReadsBack fits objects),
      )
