-- ===== src/Claude/Environment.antt =====
-- What a job's process finds in its environment, whatever the runner has in its own.
use claude_job_runner.Prelude.{
  ◌≡◌, refl, Bool, true, false, Option, none, some, Str, text, eq_str, if◌then◌else◌, show_ℤ, arith,
  ◌⊎◌, inl, inr, is_some, Option-cases,
}
use claude_job_runner.Job.{Requester}
use claude_job_runner.Broker.{QboJobAccess, connected, unavailable}
use claude_job_runner.Claude.{ClaudeConfig, child_env, env_calls}

-- A variable of the job.
abbrev pub sees :
    ClaudeConfig → Option Requester → Option QboJobAccess → (Str → Option Str) → Str → Option Str
sees c requester qbo inherited name = child_env (env_calls c requester qbo) inherited name

-- Whatever the runner's own environment holds, the job sees neither the AES key nor the Intuit app's
-- credentials nor `CLAUDECODE`, and its `DATABASE_URL` is exactly the one configured for agents, if
-- any.
pub secrets_hidden :
    (c : ClaudeConfig) (requester : Option Requester) (qbo : Option QboJobAccess)
    (inherited : Str → Option Str)
    → (sees c requester qbo inherited (text "AES_KEY") ≡ none)
      × (sees c requester qbo inherited (text "QBO_CLIENT_ID") ≡ none)
      × (sees c requester qbo inherited (text "QBO_CLIENT_SECRET") ≡ none)
      × (sees c requester qbo inherited (text "CLAUDECODE") ≡ none)
      × (sees c requester qbo inherited (text "DATABASE_URL") ≡ c.agent_database_url)
unfolding child_env env_calls eq_str
secrets_hidden c requester qbo inherited = ground arith

-- The job has a connected account, a requester and the `jobctl-mcp` server.
abbrev pub is_granted : ClaudeConfig → Option Requester → Option QboJobAccess → Bool
is_granted c (some r) (some (connected realm token base)) = is_some c.jobctl_mcp
is_granted c _ _ = false

-- The QuickBooks variables are the job's own: a job that is granted access sees the account of its
-- requester and whether that is an admin, and any other job sees none of them, even where the
-- runner has them set.
pub qbo_granted :
    (c : ClaudeConfig) (requester : Option Requester) (qbo : Option QboJobAccess)
    (inherited : Str → Option Str)
    → ((is_granted c requester qbo ≡ true)
        × ((realm : Str) × (token : Str) × (base : Str) × (r : Requester) × (qbo
              ≡ some (connected realm token base))
            × (requester ≡ some r)
            × (sees c requester qbo inherited (text "QBO_ACCESS_TOKEN") ≡ some token)
            × (sees c requester qbo inherited (text "QBO_REALM_ID") ≡ some realm)
            × (sees c requester qbo inherited (text "QBO_API_BASE") ≡ some base)
            × (sees c requester qbo inherited (text "QBO_COMPANY_ID") ≡ some (show_ℤ r.company_id))
            × (sees c requester qbo inherited (text "QBO_USER_ID") ≡ some (show_ℤ r.user_id))
            × (sees c requester qbo inherited (text "QBO_REQUESTER_IS_ADMIN")
                ≡ some (if r.is_admin then text "1" else text "0"))))
      ⊎ ((is_granted c requester qbo ≡ false)
          × (sees c requester qbo inherited (text "QBO_ACCESS_TOKEN") ≡ none)
          × (sees c requester qbo inherited (text "QBO_REALM_ID") ≡ none)
          × (sees c requester qbo inherited (text "QBO_API_BASE") ≡ none)
          × (sees c requester qbo inherited (text "QBO_COMPANY_ID") ≡ none)
          × (sees c requester qbo inherited (text "QBO_USER_ID") ≡ none)
          × (sees c requester qbo inherited (text "QBO_REQUESTER_IS_ADMIN") ≡ none))
unfolding child_env env_calls eq_str
qbo_granted c (some r) (some (connected realm token base)) inherited =
    elim (Option-cases c.jobctl_mcp) [
      | inl e ↦ inr (ground arith)
      | inr (j, e) ↦ inl (
        ground arith,
        (
          realm,
          token,
          base,
          r,
          refl,
          refl,
          ground arith,
          ground arith,
          ground arith,
          ground arith,
          ground arith,
          ground arith,
        ),
      )
    ]
qbo_granted c none qbo inherited = inr (ground arith)
qbo_granted c (some r) none inherited = inr (ground arith)
qbo_granted c (some r) (some (unavailable reason)) inherited = inr (ground arith)
