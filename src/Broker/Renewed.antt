-- ===== src/Broker/Renewed.antt =====
-- src/qbo.rs: the row that a refresh leads to.
use claude_job_runner.Prelude.{
  AllOk, AllOk-ok, AllOk-map, map_err-AllOk, ℕ, Option, none, some, List, All, length, ◌≡◌, ◌≤◌,
  ◌∙◌, ap, inl, inr, refl, Str, bytes, IsScalar, Result, ok, err, Bool-cases, Option-cases,
  Result-cases, arith,
}
use claude_job_runner.Broker.{CompanyRow, TokenSet}
use claude_job_runner.Broker.Crypto.{Cipher, CipherLaws, Bytes, decrypt, encrypt}
use claude_job_runner.Broker.Tokens.{decrypt-encrypt}
use claude_job_runner.Broker.Refresh.{
  QboBroker, Circumstances, stmt, client_credentials, refresh, renewed_row, store, renew,
  read_response, refresh_request, is_success,
}

-- The 12 random bytes of a nonce, where the system gives them.
abbrev pub IsNonce : Option (List ℕ) → Type 0
IsNonce none = Unit
IsNonce (some iv) = (length iv ≡ 12) × Bytes iv

-- A token response is read into texts.
abbrev pub ReadsTexts : Circumstances → Type 0
ReadsTexts o =
    (body : Str) (tokens : TokenSet)
    → o.read_tokens body ≡ ok tokens
    → All IsScalar tokens.access_token × All IsScalar tokens.refresh_token

module _ (c : Cipher) where
  decrypts :
      CipherLaws c
      → (nonce : Option (List ℕ)) (key : List ℕ) (plain stored : Str) → IsNonce nonce
      → All IsScalar plain
      → encrypt c nonce key plain ≡ ok stored
      → decrypt c key (bytes stored) ≡ some plain
  decrypts laws none key plain stored hn hp e = unfold encrypt in absurd (ground arith)
  decrypts laws (some iv) key plain stored hn hp e =
      decrypt-encrypt c laws key iv plain stored hn.0 hn.1 hp e

  read_response-texts :
      (o : Circumstances) (r : ℕ × Result Str Str)
      → ReadsTexts o
      → AllOk (λ tokens. All IsScalar tokens.access_token) (read_response o r)
  unfolding read_response
  read_response-texts o (status, err e) h = tt
  read_response-texts o (status, ok body) h = elim (Bool-cases (is_success status)) [
    | inl e ↦ rw e (map_err-AllOk _ _ (o.read_tokens body) (λ tokens r. (h body tokens r).0))
    | inr e ↦ rw e tt
  ]

  refresh-texts :
      (o : Circumstances) (id secret token : Str)
      → ReadsTexts o
      → AllOk (λ tokens. All IsScalar tokens.access_token) (refresh o id secret token)
  unfolding refresh
  refresh-texts o id secret token h =
      elim (Result-cases (o.post (refresh_request id secret token))) [
        | inl (response, e) ↦ rw e (read_response-texts o response h)
        | inr (_, e) ↦ rw e tt
      ]

  -- Intuit gave the tokens: the stored refresh token was sent to it under the company's credentials or
  -- the app's, and it answered with a success status and a body that is read as these tokens.
  pub record FromIntuit (o : Circumstances) (b : QboBroker) (row : CompanyRow) (blob : List ℕ)
      (tokens : TokenSet) : Type 0 where
    pub sent : Str
    pub client_id : Str
    pub client_secret : Str
    pub status : ℕ
    pub body : Str
    pub opens : decrypt c b.key blob ≡ some sent
    pub credentials : client_credentials c b row ≡ ok (client_id, client_secret)
    pub answered : o.post (refresh_request client_id client_secret sent) ≡ ok (status, ok body)
    pub succeeded : (200 ≤ status) × (status ≤ 299)
    pub reads : o.read_tokens body ≡ ok tokens

  abbrev InResponse : Circumstances → ℕ × Result Str Str → TokenSet → Type 0
  InResponse o (status, answer) tokens =
      (body : Str) × (answer ≡ ok body)
      × ((200 ≤ status) × (status ≤ 299))
      × (o.read_tokens body ≡ ok tokens)

  read_response-InResponse :
      (o : Circumstances) (r : ℕ × Result Str Str) → AllOk (InResponse o r) (read_response o r)
  unfolding read_response is_success
  read_response-InResponse o (status, err e) = tt
  read_response-InResponse o (status, ok body) = elim (Bool-cases (is_success status)) [
    | inl e ↦
        let between : (200 ≤ status) × (status ≤ 299) = (ground (arith, e), ground (arith, e)) in
        rw e (map_err-AllOk _ _ (o.read_tokens body) (λ tokens r. (body, refl, between, r)))
    | inr e ↦ rw e tt
  ]

  refresh-FromIntuit :
      (o : Circumstances) (b : QboBroker) (row : CompanyRow) (blob : List ℕ) (id secret sent : Str)
      → decrypt c b.key blob ≡ some sent
      → client_credentials c b row ≡ ok (id, secret)
      → AllOk (FromIntuit o b row blob) (refresh o id secret sent)
  unfolding refresh
  refresh-FromIntuit o b row blob id secret sent opens credentials =
      elim (Result-cases (o.post (refresh_request id secret sent))) [
        | inr (_, e) ↦ rw e tt
        | inl (response, e) ↦ rw e (
            AllOk-map _ _ (read_response o response) (λ tokens h. from response tokens e h)
              (read_response-InResponse o response))
      ]
    where
      from :
          (response : ℕ × Result Str Str) (tokens : TokenSet)
          → o.post (refresh_request id secret sent) ≡ ok response
          → InResponse o response tokens
          → FromIntuit o b row blob tokens
      from (status, answer) tokens e (body, same, between, reads) = record {
        sent = sent;
        client_id = id;
        client_secret = secret;
        status = status;
        body = body;
        opens = opens;
        credentials = credentials;
        answered = e ∙ ap (λ r. ok (status, r)) same;
        succeeded = between;
        reads = reads;
      }

  -- The row of a refresh holds the new access token and the new refresh token.
  abbrev pub RenewedRow :
      Circumstances → QboBroker → CompanyRow → List ℕ → TokenSet × CompanyRow → Type 0
  RenewedRow o b row blob (tokens, new) =
      (stored refreshed : Str) × ((new ≡ renewed_row o row tokens stored refreshed)
        × ((decrypt c b.key (bytes stored) ≡ some tokens.access_token)
            × ((encrypt c o.refresh_nonce b.key tokens.refresh_token ≡ ok refreshed)
                × FromIntuit o b row blob tokens)))

  stored_row :
      CipherLaws c
      → (o : Circumstances) (b : QboBroker) (row : CompanyRow) (blob : List ℕ) (tokens : TokenSet)
      → All IsScalar tokens.access_token
      → IsNonce o.access_nonce
      → FromIntuit o b row blob tokens
      → AllOk (RenewedRow o b row blob) (store c o b row tokens)
  unfolding store
  stored_row laws o b row blob tokens texts hn given =
      elim (Result-cases (encrypt c o.access_nonce b.key tokens.access_token)) [
        | inr (_, e) ↦ rw e tt
        | inl (stored, e) ↦
            elim (Result-cases (encrypt c o.refresh_nonce b.key tokens.refresh_token)) [
              | inr (_, e1) ↦ rw e (rw e1 tt)
              | inl (refreshed, e1) ↦
                  let reads =
                    decrypts laws o.access_nonce b.key tokens.access_token stored hn texts e in
                  elim (Result-cases (stmt o.updated)) [
                    | inr (_, e2) ↦ rw e (rw e1 (rw e2 tt))
                    | inl (done, e2) ↦
                        rw e (rw e1 (rw e2 (stored, refreshed, (refl, (reads, (e1, given))))))
                  ]
            ]
      ]

  pub renew-Row :
      CipherLaws c
      → (o : Circumstances) (b : QboBroker) (row : CompanyRow) (blob : List ℕ) → ReadsTexts o
      → IsNonce o.access_nonce
      → AllOk (RenewedRow o b row blob) (renew c o b row blob)
  unfolding renew
  renew-Row laws o b row blob h hn = elim (Option-cases (decrypt c b.key blob)) [
    | inl e ↦ rw e tt
    | inr (token, e) ↦ elim (Result-cases (client_credentials c b row)) [
      | inr (_, e1) ↦ rw e (rw e1 tt)
      | inl (pair, e1) ↦ elim (Result-cases (refresh o (pair.0) (pair.1) token)) [
        | inr (_, e2) ↦ rw e (rw e1 (rw e2 tt))
        | inl (tokens, e2) ↦
            let texts = AllOk-ok _ _ tokens (refresh-texts o (pair.0) (pair.1) token h) e2 in
            let given =
              AllOk-ok _ _ tokens (refresh-FromIntuit o b row blob (pair.0) (pair.1) token e e1)
                e2 in
            rw e (rw e1 (rw e2 (stored_row laws o b row blob tokens texts hn given)))
      ]
    ]
  ]
