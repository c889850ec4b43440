-- ===== src/Db/Evolves.antt =====
-- How a row may change while jobs run: its status only moves forward, a finished row and a row that
-- is no job stay as they are, and no row disappears.
use claude_job_runner.Prelude.{
  ℕ, ◌≤◌, ◌≡◌, refl, ◌∙◌, Bool, true, false, Option, none, some, List, [], ◌∷◌, ◌++◌, arith,
  if◌then◌else◌, All, ℤ, pos, ◌<ℤ◌, Str, text, eq_str, Bool-cases, inl, inr,
}
use claude_job_runner.Db.{Db, Message, count, update, is_job, has_id}

-- How far a job has come: NULL, pending, finished.
abbrev pub rank : Option Str → ℕ
rank none = 0
rank (some s) = if eq_str s (text "pending") then 1 else 2

pub record RowStep (x y : Message) : Type 0 where
  pub same_id : y.id ≡ x.id
  pub same_chat : y.chat_id ≡ x.chat_id
  pub same_sender : y.sender ≡ x.sender
  pub same_content : y.content ≡ x.content
  pub same_agentic : y.is_agentic ≡ x.is_agentic
  pub forward : rank x.status ≤ rank y.status
  pub settled : 2 ≤ rank x.status → y ≡ x
  pub bystander : is_job x ≡ false → y ≡ x

pub RowStep-refl : (x : Message) → RowStep x x
RowStep-refl x = record {
  same_id = refl;
  same_chat = refl;
  same_sender = refl;
  same_content = refl;
  same_agentic = refl;
  forward = omega arith;
  settled = λ _. refl;
  bystander = λ _. refl;
}

pub is_job-RowStep : {x y : Message} → RowStep x y → is_job y ≡ is_job x
unfolding is_job
is_job-RowStep s = cc (s.same_sender, s.same_agentic)

pub RowStep-trans : {x y z : Message} → RowStep x y → RowStep y z → RowStep x z
RowStep-trans {x} {y} {z} s t = record {
  same_id = t.same_id ∙ s.same_id;
  same_chat = t.same_chat ∙ s.same_chat;
  same_sender = t.same_sender ∙ s.same_sender;
  same_content = t.same_content ∙ s.same_content;
  same_agentic = t.same_agentic ∙ s.same_agentic;
  forward = omega (arith, s.forward, t.forward);
  settled = λ h. t.settled (omega (arith, s.forward)) ∙ s.settled h;
  bystander = λ h. t.bystander (is_job-RowStep s ∙ h) ∙ s.bystander h;
}

-- Row by row, with new rows at the end.
abbrev pub Evolves : List Message → List Message → Type 0
Evolves [] ys = Unit
Evolves (x ∷ xs) [] = ⊥
Evolves (x ∷ xs) (y ∷ ys) = RowStep x y × Evolves xs ys

pub Evolves-refl : (xs : List Message) → Evolves xs xs
Evolves-refl [] = tt
Evolves-refl (x ∷ xs) = (RowStep-refl x, Evolves-refl xs)

pub Evolves-trans : (xs ys zs : List Message) → Evolves xs ys → Evolves ys zs → Evolves xs zs
Evolves-trans [] ys zs h k = tt
Evolves-trans (x ∷ xs) [] zs h k = absurd h
Evolves-trans (x ∷ xs) (y ∷ ys) [] h k = absurd k
Evolves-trans (x ∷ xs) (y ∷ ys) (z ∷ zs) (h, hs) (k, ks) =
    (RowStep-trans h k, Evolves-trans xs ys zs hs ks)

pub Evolves-append : (xs ys new : List Message) → Evolves xs ys → Evolves xs (ys ++ new)
Evolves-append [] ys new h = tt
Evolves-append (x ∷ xs) [] new h = absurd h
Evolves-append (x ∷ xs) (y ∷ ys) new (h, hs) = (h, Evolves-append xs ys new hs)

-- An UPDATE that makes only allowed changes to the rows of these tables.
pub Evolves-update :
    (p : Message → Bool) (f : Message → Message) (xs : List Message)
    → All (λ m. p m ≡ true → RowStep m (f m)) xs
    → Evolves xs (update p f xs)
unfolding update
Evolves-update p f [] h = tt
Evolves-update p f (x ∷ xs) (h, hs) = elim (Bool-cases (p x)) [
  | inl e ↦ rw e (h e, Evolves-update p f xs hs)
  | inr e ↦ rw e (RowStep-refl x, Evolves-update p f xs hs)
]

-- The primary key, the counter behind it, and no status on rows that are no jobs.
pub record IsTidy (d : Db) : Type 0 where
  pub unique : (i : ℤ) → count (has_id i) d.messages ≤ 1
  pub fresh : All (λ m. m.id <ℤ pos d.next_id) d.messages
  pub only_jobs : All (λ m. is_job m ≡ false → m.status ≡ none) d.messages

-- What any client does to the tables, from tidy tables.
pub record DbStep (d d' : Db) : Type 0 where
  pub tidy : IsTidy d'
  pub rows : Evolves d.messages d'.messages

pub DbStep-refl : (d : Db) → IsTidy d → DbStep d d
DbStep-refl d h = record { tidy = h; rows = Evolves-refl d.messages }

pub DbStep-trans : (a b c : Db) → DbStep a b → DbStep b c → DbStep a c
DbStep-trans a b c h k = record {
  tidy = k.tidy;
  rows = Evolves-trans a.messages b.messages c.messages h.rows k.rows;
}

-- The row `id` has been claimed at some time.
abbrev pub Taken : ℤ → Message → Type 0
Taken id m = has_id id m ≡ true → 1 ≤ rank m.status

-- A claimed row stays claimed, and no other row gets its id.
pub Taken-Evolves :
    (id : ℤ) (xs ys : List Message)
    → Evolves xs ys
    → count (has_id id) ys ≤ count (has_id id) xs
    → All (Taken id) xs
    → All (Taken id) ys
unfolding count
Taken-Evolves id [] [] e le t = tt
Taken-Evolves id [] (y ∷ ys) e le t = (ground arith, Taken-Evolves id [] ys tt (ground arith) tt)
Taken-Evolves id (x ∷ xs) [] e le t = absurd e
Taken-Evolves id (x ∷ xs) (y ∷ ys) (s, e) le (tx, t) = (
  λ h. ground (arith, tx (rw (← s.same_id) h), s.forward),
  Taken-Evolves id xs ys e (ground (arith, s.same_id)) t,
)
