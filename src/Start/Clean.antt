-- ===== src/Start/Clean.antt =====
-- src/main.rs: what the start-up leaves behind.
use claude_job_runner.Prelude.{
  ℕ, ◌+◌, ◌≡◌, refl, sym, ap, ◌∙◌, subst, Bool, true, false, ◌&&◌, Option, none, some, List, Str,
  ltb, Result, ok, err, AllOk, is_some, map_err, map_ok, max_u64, Bool-cases, inl, inr,
  Result-cases, append-nil, [],
}
use claude_job_runner.Job.{new, pending, to_db}
use claude_job_runner.Job.Status.{from_db-to_db}
use claude_job_runner.Db.{Db, Message, count, is_job, sql_eq, mark_new}
use claude_job_runner.Db.Evolves.{IsTidy}
use claude_job_runner.Store.{requeue_pending, requeue_update, is_pending}
use claude_job_runner.Store.Exec.{
  StoreError, run, World, Moment, Fault, fine, lost, late, head, rest, settle, pure, continue,
  ◌>>=◌,
}
use claude_job_runner.Store.Finishing.{at_first, count-update_none}
use claude_job_runner.Store.Queue.{Entry, runs, jobs, set_status, entry, status_or_none}
use claude_job_runner.Store.Queue.Jobs.{Matches, jobs-update, runs-from_db}
use claude_job_runner.Store.Queue.Updates.{All-map}
use claude_job_runner.Workspace.{Root, WorkspaceError, sweep, prepare}
use claude_job_runner.Workspace.Sweep.{kept, PartlySwept, SweptBy, sweep-SweptBy}
use claude_job_runner.Broker.{QboConfig, QboError}
use claude_job_runner.Broker.Crypto.{Cipher, parse_key}
use claude_job_runner.Broker.Refresh.{QboBroker, new as new_broker}
use claude_job_runner.Config.{Std, Env, Config, ConfigError, from_env}
use claude_job_runner.Start.{
  Outcomes, Started, StartError, slack, bad_broker, requeue_if, broker_for, with_broker, swept,
  prepared, beside, requeued, opened, configured, set_up, State,
}

-- No job is pending, and those that were wait again; the other jobs are as before.
abbrev pub Reset : Db → Db → Type 0
Reset before after =
    (count is_pending after.messages ≡ 0)
    × (jobs after.messages ≡ set_status (λ (e : Entry). runs e.1) new (jobs before.messages))

mark_new-not_pending : (m : Message) → is_pending (mark_new m) ≡ false
unfolding is_pending mark_new
mark_new-not_pending m = refl

pending_job :
    (m : Message)
    → (is_job m ≡ false → m.status ≡ none)
    → is_pending m ≡ (is_job m && runs (entry m).1)
unfolding is_pending to_db
pending_job m h = elim (Bool-cases (is_job m)) [
  | inl e ↦ sym (runs-from_db m.status) ∙ ap (λ b. b && runs (entry m).1) (sym e)
  | inr e ↦ ap (λ s. sql_eq s (to_db pending)) (h e) ∙ ap (λ b. b && runs (entry m).1) (sym e)
]

mark_new-Matches :
    (m : Message)
    → (is_job m ≡ false → m.status ≡ none)
    → Matches is_pending mark_new (λ (e : Entry). runs e.1) new m
unfolding is_pending mark_new is_job to_db
mark_new-Matches m h =
    (pending_job m h, (refl, ap (λ s. (m.id, status_or_none s)) (from_db-to_db new)))

requeue_update-Reset : (d : Db) → IsTidy d → Reset d (requeue_update d).1
unfolding requeue_update
requeue_update-Reset d h = (
  count-update_none is_pending is_pending mark_new (λ m e. e) mark_new-not_pending d.messages,
  jobs-update is_pending mark_new (λ (e : Entry). runs e.1) new d.messages
      (All-map mark_new-Matches d.messages h.only_jobs),
)

-- What the requeuing does, if it is asked for.
abbrev pub ResetIf : Bool → World → Db → Type 0
ResetIf true w after = Reset (at_first w) after
ResetIf false w after = after ≡ w.db

abbrev Requeues : Bool → World → Result StoreError (Unit {0}) × World → Type 0
Requeues flag w (err e, w') = Unit
Requeues flag w (ok _, w') = ResetIf flag w w'.db

unfoldable requeue_with : Result StoreError ℕ × World → Result StoreError (Unit {0}) × World
requeue_with (r, w) = continue r (λ requeued. pure tt) w

settled :
    (w : World) (f : Fault) (ms : List Moment)
    → IsTidy (at_first w)
    → Requeues true w
        ((requeue_with (settle f (at_first w) (some (requeue_update (at_first w))) ms)))
unfolding settle requeue_with pure
settled w fine ms h = requeue_update-Reset (at_first w) h
settled w (lost e) ms h = tt
settled w (late e) ms h = tt

requeue_if-Requeues :
    (flag : Bool) (w : World) → IsTidy (at_first w) → Requeues flag w (requeue_if flag w)
unfolding requeue_if requeue_pending ◌>>=◌ pure run requeue_with
requeue_if-Requeues false w h = refl
requeue_if-Requeues true w h = settled w (head w.moments).fault (rest w.moments) h

-- The tokens that the broker hands out are meant to outlive a job, and their server is there.
abbrev pub Outlives : {std : Std} → Config std → Option QboBroker → Type 0
Outlives config none = Unit
Outlives config (some b) =
    (b.valid_for ≡ config.claude.timeout + 300)
    × ((is_some config.claude.jobctl_mcp ≡ true) × (is_some config.qbo ≡ true))

unswept : (root : Root) → PartlySwept root root
unswept root = ([], root, refl, refl)

all_swept : (root root' : Root) → root' ≡ kept root → PartlySwept root root'
all_swept root root' h = (root, [], sym (append-nil root), h ∙ sym (append-nil (kept root)))

module _ (c : Cipher) (std : Std) (o : Outcomes) where
  new-valid_for : (q : QboConfig) (n : ℕ) → AllOk (λ b. b.valid_for ≡ n) (new_broker c o.client q n)
  unfolding new_broker
  new-valid_for q n = elim (Result-cases (parse_key c q.aes_key_hex)) [
    | inr (_, e) ↦ rw e tt
    | inl (key, e) ↦ elim (Result-cases o.client) [
      | inr (_, e1) ↦ rw e (rw e1 tt)
      | inl (_, e1) ↦ rw e (rw e1 refl)
    ]
  ]

  abbrev OutlivesAt : Option QboConfig → Option Str → ℕ → Option QboBroker → Type 0
  OutlivesAt qbo mcp timeout none = Unit
  OutlivesAt qbo mcp timeout (some b) =
      (b.valid_for ≡ timeout + 300) × ((is_some mcp ≡ true) × (is_some qbo ≡ true))

  wrapped :
      (q : QboConfig) (m : Str) (timeout : ℕ) (r : Result QboError QboBroker)
      → AllOk (λ b. b.valid_for ≡ timeout + 300) r
      → AllOk (OutlivesAt (some q) (some m) timeout) (map_err bad_broker (map_ok some r))
  wrapped q m timeout (ok b) h = (h, (refl, refl))
  wrapped q m timeout (err e) h = tt

  broker_for-Outlives :
      (qbo : Option QboConfig) (mcp : Option Str) (timeout : ℕ)
      → AllOk (OutlivesAt qbo mcp timeout) (broker_for c std o qbo mcp timeout)
  unfolding broker_for
  broker_for-Outlives none mcp timeout = tt
  broker_for-Outlives (some q) none timeout = tt
  broker_for-Outlives (some q) (some m) timeout =
      elim (Bool-cases (ltb max_u64 (timeout + slack))) [
        | inl e ↦ rw e tt
        | inr e ↦ rw e (wrapped q m timeout _ (new-valid_for q (timeout + slack)))
      ]

  -- What is true of the root and the broker after the sweep.
  abbrev Swept : Config std → Root → Result StartError (Started std) × Root → Type 0
  Swept config root (err e, root') = PartlySwept root root'
  Swept config root (ok started, root') =
      (started.config ≡ config) × ((root' ≡ kept root) × Outlives config started.broker)

  with_broker-Swept :
      (config : Config std) (path : Str) (root root' : Root)
      (r : Result StartError (Option QboBroker))
      → root' ≡ kept root
      → AllOk (OutlivesAt config.qbo config.claude.jobctl_mcp config.claude.timeout) r
      → Swept config root (with_broker c std o config path r, root')
  unfolding with_broker
  with_broker-Swept config path root root' (err e) h b = all_swept root root' h
  with_broker-Swept config path root root' (ok none) h b = (refl, (h, tt))
  with_broker-Swept config path root root' (ok (some broker)) h b = (refl, (h, b))

  swept-Swept :
      (config : Config std) (path : Str) (root : Root) (r : Result WorkspaceError ℕ × Root)
      → SweptBy root r
      → Swept config root (swept c std o config path r)
  unfolding swept
  swept-Swept config path root (err e, root') h = h
  swept-Swept config path root (ok n, root') (count, left) =
      with_broker-Swept config path root root' _ left
        (broker_for-Outlives config.qbo config.claude.jobctl_mcp config.claude.timeout)

  prepared-Swept :
      (config : Config std) (r : Result WorkspaceError Str) (root : Root)
      → Swept config root (prepared c std o config r root)
  unfolding prepared
  prepared-Swept config (err e) root = unswept root
  prepared-Swept config (ok path) root =
      swept-Swept config path root (sweep o.listed path root) (sweep-SweptBy o.listed path root)

  abbrev pub Cleaned : World → Root → Result StartError (Started std) × State c std o → Type 0
  Cleaned w root (err e, (w', root')) = PartlySwept root root'
  Cleaned w root (ok started, (w', root')) =
      ResetIf started.config.requeue_pending_on_start w w'.db
      × ((root' ≡ kept root) × Outlives started.config started.broker)

  beside-Cleaned :
      (config : Config std) (w w' : World) (root : Root)
      (r : Result StartError (Started std) × Root)
      → ResetIf config.requeue_pending_on_start w w'.db
      → Swept config root r
      → Cleaned w root (beside c std o w' r)
  beside-Cleaned config w w' root (err e, root') reset h = h
  beside-Cleaned config w w' root (ok started, root') reset (same, (k, b)) = (
    subst (λ (x : Config std). ResetIf x.requeue_pending_on_start w w'.db) (sym same) reset,
    (k, subst (λ (x : Config std). Outlives x started.broker) (sym same) b),
  )

  requeued-Cleaned :
      (config : Config std) (w : World) (root : Root) (x : Result StoreError (Unit {0}) × World)
      → Requeues config.requeue_pending_on_start w x
      → Cleaned w root (requeued c std o config x root)
  unfolding requeued
  requeued-Cleaned config w root (err e, w') h = unswept root
  requeued-Cleaned config w root (ok _, w') h =
      beside-Cleaned config w w' root _ h
        (prepared-Swept config (prepare o.made o.resolved config.workspace_root) root)

  opened-Cleaned :
      (config : Config std) (failed : Option StoreError) (w : World) (root : Root)
      → IsTidy (at_first w)
      → Cleaned w root (opened c std o config failed (w, root))
  unfolding opened
  opened-Cleaned config (some e) w root h = unswept root
  opened-Cleaned config none w root h =
      requeued-Cleaned config w root _ (requeue_if-Requeues config.requeue_pending_on_start w h)

  configured-Cleaned :
      (r : Result ConfigError (Config std)) (w : World) (root : Root)
      → IsTidy (at_first w)
      → Cleaned w root (configured c std o r (w, root))
  unfolding configured
  configured-Cleaned (err e) w root h = unswept root
  configured-Cleaned (ok config) w root h = opened-Cleaned config o.connected w root h

  -- When the worker starts, with REQUEUE_PENDING_ON_START no job is pending: those that a crash left
  -- behind wait again, and no other job has changed. The workspace root has lost its deletable
  -- directories with a name that begins with "job-", and nothing else. A broker is there only with an AES_KEY and the server of its tools, and
  -- asks for tokens that last five minutes longer than a job may. A start that fails has swept
  -- the entries up to some place in the listing, be it none or all, and left the later ones alone. The
  -- tables that the start-up meets are tidy.
  pub set_up-Cleaned :
      (env : Env) (w : World) (root : Root)
      → IsTidy (at_first w)
      → Cleaned w root (set_up c std o env (w, root))
  unfolding set_up
  set_up-Cleaned env w root h = configured-Cleaned (from_env std env) w root h
