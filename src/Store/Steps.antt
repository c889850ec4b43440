-- ===== src/Store/Steps.antt =====
-- Every statement of the store makes only allowed changes to the tables.
use claude_job_runner.Prelude.{
  ℕ, suc, ◌+◌, ◌≤◌, ◌≡◌, refl, sym, ◌∙◌, ap, true, false, Option, none, some, List, [], ◌∷◌, ◌++◌,
  arith, length, filter, All, ℤ, pos, Str, eq_str, Bool-cases, inl, inr, subst,
}
use claude_job_runner.Db.{
  Db, Message, count, is_job, has_id, unclaimed, mark_pending, mark_done, mark_failed, pending_row,
  insert_user, insert_replies, reply_rows, chat_exists, user_row, reply_row,
}
use claude_job_runner.Db.Rows.{count-append, count_tight, count-filter}
use claude_job_runner.Db.Evolves.{IsTidy, DbStep, RowStep, DbStep-trans, rank}
use claude_job_runner.Db.Tidy.{inserted, inserted-DbStep, updated-DbStep}
use claude_job_runner.Store.{claim_update, done_update, failed_update}

All-intro {ℓ} : (P : Message → Type ℓ) → ((m : Message) → P m) → (xs : List Message) → All P xs
All-intro P h [] = tt
All-intro P h (x ∷ xs) = (h x, All-intro P h xs)

All-zip {ℓ κ μ} :
    (P : Message → Type ℓ) (Q : Message → Type κ) (R : Message → Type μ)
    → ((m : Message) → P m → Q m → R m)
    → (xs : List Message) → All P xs
    → All Q xs
    → All R xs
All-zip P Q R h [] a b = tt
All-zip P Q R h (x ∷ xs) (p, a) (q, b) = (h x p q, All-zip P Q R h xs a b)

All-map {ℓ κ} :
    (P : Message → Type ℓ) (Q : Message → Type κ)
    → ((m : Message) → P m → Q m)
    → (xs : List Message) → All P xs
    → All Q xs
All-map P Q h [] a = tt
All-map P Q h (x ∷ xs) (p, a) = (h x p, All-map P Q h xs a)

claim-RowStep : (m : Message) → unclaimed m ≡ true → RowStep m (mark_pending m)
unfolding unclaimed mark_pending eq_str
claim-RowStep m h = record {
  same_id = refl;
  same_chat = refl;
  same_sender = refl;
  same_content = refl;
  same_agentic = refl;
  forward = ground arith;
  settled = λ s. ground arith;
  bystander = λ j. ground arith;
}

pub claim_update-DbStep : (id : ℤ) (d : Db) → IsTidy d → DbStep d (claim_update id d).1
unfolding claim_update mark_pending
claim_update-DbStep id d h =
    updated-DbStep _ mark_pending d h (λ m. refl)
      (All-intro _ (λ m e. claim-RowStep m (ground arith)) d.messages)

user_row_lem :
    (chat : ℤ) (content : Str) (n : ℕ)
    → ((user_row chat content n).id ≡ pos n) × ((user_row chat content n).status ≡ none)
unfolding user_row
user_row_lem chat content n = (refl, refl)

pub insert_user-DbStep :
    (chat : ℤ) (content : Str) (d : Db) {n : ℕ} {d' : Db}
    → IsTidy d
    → insert_user chat content d ≡ some (n, d')
    → DbStep d d'
unfolding insert_user
insert_user-DbStep chat content d {n} {d'} h e = elim (Bool-cases (chat_exists chat d.chats)) [
  | inl there ↦
      let same : inserted d (user_row chat content d.next_id) ≡ d' = ground arith in
      subst (DbStep d) same (
        inserted-DbStep d (user_row chat content d.next_id) h (user_row_lem _ _ _).0
          (user_row_lem chat content d.next_id).1)
  | inr gone ↦ absurd (ground arith)
]

-- A row that a pending row's test accepts is a job, by the tidiness of the tables.
pending-is_job :
    (id : ℤ) (m : Message)
    → (is_job m ≡ false → m.status ≡ none)
    → pending_row id m ≡ true
    → (is_job m ≡ true) × (rank m.status ≡ 1)
unfolding pending_row
pending-is_job id m h p = ground (arith)

pub pending-has_id : (id : ℤ) (m : Message) → pending_row id m ≡ true → has_id id m ≡ true
unfolding pending_row
pending-has_id id m h = ground arith

-- `m'` is `m` with another payload and a final status.
record Finishes (m m' : Message) : Type 0 where
  id : m'.id ≡ m.id
  chat_id : m'.chat_id ≡ m.chat_id
  sender : m'.sender ≡ m.sender
  content : m'.content ≡ m.content
  is_agentic : m'.is_agentic ≡ m.is_agentic
  final : rank m'.status ≡ 2

mark_done-Finishes : (reply_id : ℤ) (m : Message) → Finishes m (mark_done reply_id m)
unfolding mark_done eq_str
mark_done-Finishes reply_id m = record {
  id = refl;
  chat_id = refl;
  sender = refl;
  content = refl;
  is_agentic = refl;
  final = refl;
}

mark_failed-Finishes :
    (error : Str) (result : Option Str) (m : Message) → Finishes m (mark_failed error result m)
unfolding mark_failed eq_str
mark_failed-Finishes error none m = record {
  id = refl;
  chat_id = refl;
  sender = refl;
  content = refl;
  is_agentic = refl;
  final = refl;
}
mark_failed-Finishes error (some result) m = record {
  id = refl;
  chat_id = refl;
  sender = refl;
  content = refl;
  is_agentic = refl;
  final = refl;
}

finish-RowStep :
    (id : ℤ) {m m' : Message}
    → Finishes m m'
    → (is_job m ≡ false → m.status ≡ none)
    → pending_row id m ≡ true
    → RowStep m m'
finish-RowStep id {m} {m'} f h p =
    let (job, pending) = pending-is_job id m h p in
    record {
      same_id = f.id;
      same_chat = f.chat_id;
      same_sender = f.sender;
      same_content = f.content;
      same_agentic = f.is_agentic;
      forward = omega (arith, f.final);
      settled = λ s. absurd (omega arith);
      bystander = λ j. cc;
    }

pub failed_update-DbStep :
    (id : ℤ) (error : Str) (result : Option Str) (d : Db)
    → IsTidy d
    → DbStep d (failed_update id error result d).1
unfolding failed_update
failed_update-DbStep id error result d h =
    updated-DbStep (pending_row id) (mark_failed error result) d h
      (λ m. (mark_failed-Finishes error result m).id)
      (All-map _ _ (λ m tidy p. finish-RowStep id (mark_failed-Finishes error result m) tidy p)
        d.messages h.only_jobs)

-- Where the row `id` is pending, the update of `finish_done` meets that row alone.
pub done_update-DbStep :
    (id reply_id : ℤ) (d : Db)
    → IsTidy d
    → 1 ≤ count (pending_row id) d.messages
    → DbStep d (done_update id reply_id d)
unfolding done_update
done_update-DbStep id reply_id d h one =
    updated-DbStep (has_id id) (mark_done reply_id) d h (λ m. (mark_done-Finishes reply_id m).id)
      (All-zip _ _ _
        (λ m tidy only e. finish-RowStep id (mark_done-Finishes reply_id m) tidy (only e))
        d.messages h.only_jobs
        (count_tight (pending_row id) (has_id id) (pending-has_id id) d.messages
          (omega (arith, h.unique id))))

-- A list with one row.
singleton : (xs : List Message) → length xs ≡ 1 → (m : Message) × (xs ≡ m ∷ [])
singleton [] h = absurd (omega arith)
singleton (m ∷ []) h = (m, refl)
singleton (m ∷ (n ∷ xs)) h = absurd (omega arith)

pub length-reply_rows :
    (n : ℕ) (answer : Str) (ms : List Message) → length (reply_rows n answer ms) ≡ length ms
unfolding reply_rows
length-reply_rows n answer [] = refl
length-reply_rows n answer (m ∷ ms) = ap suc (length-reply_rows (suc n) answer ms)

inserted_shape :
    (d : Db) (answer : Str) (m : Message) (rows : List Message)
    → rows ≡ m ∷ []
    → (let new = reply_rows d.next_id answer rows in
        ◌≡◌ {A = Db}
          (record d { messages = d.messages ++ new; next_id = d.next_id + length new })
          (inserted d (reply_row answer d.next_id m)))
unfolding reply_rows
inserted_shape d answer m rows one = rw one (
    ap
      (λ (k : ℕ). record d {
        messages = d.messages ++ reply_row answer d.next_id m ∷ [];
        next_id = k;
      })
      (omega arith))

-- What the INSERT of `finish_done` does when it inserts one row.
pub insert_replies_one :
    (id : ℤ) (answer : Str) (d : Db)
    → (insert_replies id answer d).0 ≡ 1
    → (m : Message) × (filter (pending_row id) d.messages ≡ m ∷ [])
      × ((insert_replies id answer d).1 ≡ d.next_id)
      × ((insert_replies id answer d).2 ≡ inserted d (reply_row answer d.next_id m))
unfolding insert_replies
insert_replies_one id answer d e =
    let rows = filter (pending_row id) d.messages in
    let (m, one) = singleton rows (sym (length-reply_rows d.next_id answer rows) ∙ e) in
    (m, one, refl, inserted_shape d answer m rows one)

-- The tables that a successful `finish_done` commits.
pub finished-DbStep :
    (id reply_id : ℤ) (answer : Str) (d : Db)
    → IsTidy d
    → (insert_replies id answer d).0 ≡ 1
    → DbStep d (done_update id reply_id (insert_replies id answer d).2)
finished-DbStep id reply_id answer d h e =
    let (m, one, _, shape) = insert_replies_one id answer d e in
    let new = reply_row answer d.next_id m in
    let first : DbStep d (inserted d new) =
      inserted-DbStep d new h (reply_row_lem answer d.next_id m).0
        (reply_row_lem answer d.next_id m).1 in
    let counted : count (pending_row id) d.messages ≡ 1 =
      sym (count-filter (pending_row id) d.messages) ∙ ap length one in
    rw shape (
      DbStep-trans d (inserted d new) (done_update id reply_id (inserted d new)) first (
        done_update-DbStep id reply_id (inserted d new) first.tidy
          (omega (arith, count-append (pending_row id) d.messages (new ∷ [])))))
  where
    reply_row_lem :
        (answer : Str) (n : ℕ) (m : Message)
        → ((reply_row answer n m).id ≡ pos n) × ((reply_row answer n m).status ≡ none)
    reply_row_lem answer n m = unfold reply_row in (refl, refl)
