-- ===== src/Examples/Company.antt =====
-- The theorems on the QuickBooks broker, at one company and a cipher that hides nothing.
use claude_job_runner.Prelude.{
  ℕ, ◌+◌, ◌-◌, ◌*◌, ◌/◌, ◌%◌, ◌<◌, ◌≡◌, refl, ap, ◌∙◌, true, Option, none, some, List, [], ◌∷◌,
  ◌++◌, arith, take, length, length-append, All, All-append, bytes, encode_utf8, from_utf8,
  utf8_from, trim, trim_start, trim_end, is_whitespace, len, Str, text, Result, ok, err, pos, subst,
  IsScalar, ◌+ℤ◌, ◌-ℤ◌, wrap_i64, eq_ℤ,
}
use claude_job_runner.Store.Exec.{fine}
use claude_job_runner.Jobctl.Qbo.Args.{keep_if}
use claude_job_runner.Broker.{sandbox, api_base, CompanyRow, TokenSet, connected, QboJobAccess}
use claude_job_runner.Broker.Crypto.{
  Cipher, CipherLaws, Graphic, Bytes, decrypt, decrypt_text, decrypt_bytes, unseal_parts, encrypt,
  seal_text, cons_byte,
}
use claude_job_runner.Broker.Tokens.{take-prefix, decrypt-encrypt}
use claude_job_runner.Broker.Refresh.{
  QboBroker, Circumstances, renew, store, refresh, refresh_request, read_response, is_success,
  client_credentials, own_credential, choose_credentials, renewed_row, stmt, unix_now, to_i64,
}
use claude_job_runner.Broker.Decide.{
  Table, access, lookup, replace_row, lasts, stored_connection, try_access, Connection, locked,
  decide, decide_enabled, decide_stored, decide_connection, use_stored, use_renewed, commit,
  connected_to, refresh_expired, connection_of,
}
use claude_job_runner.Broker.Grants.{Granted}
use claude_job_runner.Broker.Granted.{access-Granted}
use claude_job_runner.Broker.Again.{access_again, lasts-StoredLasts}
use claude_job_runner.Broker.Isolated.{access_isolated}

-- Two letters for each byte.
unfoldable pub letters : List ℕ → Str
letters [] = []
letters (b ∷ bs) = (0x41 + b / 16) ∷ ((0x41 + b % 16) ∷ letters bs)

unfoldable pub unletters : Str → Option (List ℕ)
unletters [] = some []
unletters (c ∷ []) = none
unletters (c ∷ (d ∷ s)) = cons_byte (some ((c - 0x41) * 16 + (d - 0x41))) (unletters s)

abbrev pub zeros : List ℕ
zeros = 0 ∷ 0 ∷ 0 ∷ 0 ∷ 0 ∷ 0 ∷ 0 ∷ 0 ∷ 0 ∷ 0 ∷ 0 ∷ 0 ∷ 0 ∷ 0 ∷ 0 ∷ 0 ∷ []

abbrev pub plain_cipher : Cipher
plain_cipher = record {
  base64 = letters;
  unbase64 = unletters;
  accepts_key = λ key. true;
  seal = λ key iv plain. some (zeros, plain);
  unseal = λ key iv sealed. some (take (length sealed - 16) sealed);
}

letters-Graphic : (bs : List ℕ) → Bytes bs → Graphic (letters bs)
unfolding letters
letters-Graphic [] h = tt
letters-Graphic (b ∷ bs) (hb, h) =
    ((omega arith, omega (arith, hb)), ((omega arith, omega arith), letters-Graphic bs h))

unletters-letters : (bs : List ℕ) → Bytes bs → unletters (letters bs) ≡ some bs
unfolding letters unletters
unletters-letters [] h = refl
unletters-letters (b ∷ bs) (hb, h) =
    ap (cons_byte (some ((0x41 + b / 16 - 0x41) * 16 + (0x41 + b % 16 - 0x41))))
      (unletters-letters bs h)
    ∙ ap (λ n. some (n ∷ bs)) (omega arith)

take_sealed : (plain : List ℕ) → take (length (plain ++ zeros) - 16) (plain ++ zeros) ≡ plain
take_sealed plain =
    take-prefix (length (plain ++ zeros) - 16) plain zeros
      (omega (arith, length-append plain zeros))

abbrev Sealed : Type 0
Sealed = Option (List ℕ × List ℕ)

abbrev sealed : List ℕ → List ℕ → Sealed
sealed tag body = some (tag, body)

abbrev first : Sealed → List ℕ
first none = []
first (some (tag, body)) = tag

abbrev second : Sealed → List ℕ
second none = []
second (some (tag, body)) = body

tag_part : (plain tag body : List ℕ) → sealed zeros plain ≡ sealed tag body → zeros ≡ tag
tag_part plain tag body e = ap first e

body_part : (plain tag body : List ℕ) → sealed zeros plain ≡ sealed tag body → plain ≡ body
body_part plain tag body e = ap second e

zeros-Bytes : Bytes zeros
zeros-Bytes = ground arith

plain_cipher-CipherLaws : CipherLaws plain_cipher
plain_cipher-CipherLaws = record {
  base64-Graphic = letters-Graphic;
  unbase64-base64 = unletters-letters;
  unseal-seal = λ key iv plain tag body e.
      subst (λ t. plain_cipher.unseal key iv (body ++ t) ≡ some plain) (tag_part plain tag body e)
        (subst (λ u. plain_cipher.unseal key iv (u ++ zeros) ≡ some plain)
          (body_part plain tag body e) (ap some (take_sealed plain)));
  tag_length =
      λ key iv plain tag body e. subst (λ t. length t ≡ 16) (tag_part plain tag body e) refl;
  sealed_bytes = λ key iv plain tag body h e.
      subst (λ t. Bytes (t ++ body)) (tag_part plain tag body e)
        (subst (λ u. Bytes (zeros ++ u)) (body_part plain tag body e)
          (All-append (λ b. b < 256) zeros plain zeros-Bytes h));
}

abbrev nonce : List ℕ
nonce = 1 ∷ 2 ∷ 3 ∷ 4 ∷ 5 ∷ 6 ∷ 7 ∷ 8 ∷ 9 ∷ 10 ∷ 11 ∷ 12 ∷ []

abbrev key : List ℕ
key = []

abbrev broker : QboBroker
broker = record {
  key = key;
  app_credentials = some (text "client-id-123", text "client-secret");
  environment = sandbox;
  valid_for = 600;
}

abbrev blob : Str → List ℕ
blob s = letters (nonce ++ (zeros ++ s))

abbrev company : CompanyRow
company = record {
  enabled = true;
  realm_id = some (text " 123 ");
  access_token = some (blob (text "old"));
  refresh_token = some (blob (text "turn"));
  access_expires = some (pos 1100);
  refresh_expires = some (pos 9000);
  client_id = none;
  client_secret = none;
}

abbrev tables : Table
tables = (pos 4, company) ∷ ((pos 9, company) ∷ [])

-- Intuit answers any refresh with new tokens for an hour.
abbrev refreshing : Circumstances
refreshing = record {
  begun = fine;
  selected = fine;
  updated = fine;
  committed = fine;
  now = some 1000;
  later = some 1002;
  access_nonce = some nonce;
  refresh_nonce = some nonce;
  post = λ request. ok (200, ok request.body);
  status_text = λ status. [];
  read_tokens = λ body. ok (record {
    access_token = text "new";
    refresh_token = text "next";
    expires_in = pos 3600;
    x_refresh_token_expires_in = pos 8000;
  });
}

-- No call of Intuit would succeed.
abbrev cut_off : Circumstances
cut_off = record refreshing { now = some 2000; post = λ request. err (text "unreachable") }

decrypt-encrypt_example :
    decrypt plain_cipher key (bytes (blob (text "secret"))) ≡ some (text "secret")
unfolding encrypt seal_text bytes encode_utf8
decrypt-encrypt_example =
    decrypt-encrypt plain_cipher plain_cipher-CipherLaws key nonce (text "secret")
      (blob (text "secret")) refl (ground arith) (ground arith) refl

abbrev access_of : Result Str TokenSet → Str
access_of (ok tokens) = tokens.access_token
access_of (err e) = []

abbrev refresh_of : Result Str TokenSet → Str
refresh_of (ok tokens) = tokens.refresh_token
refresh_of (err e) = []

reads_texts :
    (body : Str) (tokens : TokenSet)
    → refreshing.read_tokens body ≡ ok tokens
    → All IsScalar tokens.access_token × All IsScalar tokens.refresh_token
reads_texts body tokens e =
    subst (λ t. All IsScalar (access_of t) × All IsScalar (refresh_of t)) e
      (ground arith, ground arith)

access-Granted_example :
    Granted plain_cipher refreshing broker
      (pos 4)
      tables
      (try_access plain_cipher refreshing broker (pos 4) tables)
access-Granted_example =
    access-Granted plain_cipher plain_cipher-CipherLaws refreshing broker (pos 4) tables reads_texts
      (refl, ground arith)

abbrev new_row : CompanyRow
new_row = record company {
  access_token = some (bytes (blob (text "new")));
  refresh_token = some (bytes (blob (text "next")));
  access_expires = some (pos 4602);
  refresh_expires = some (pos 9002);
}

abbrev new_connection : Connection
new_connection = record {
  access_blob = bytes (blob (text "new"));
  refresh_blob = bytes (blob (text "next"));
  access_expires = pos 4602;
  refresh_expires = pos 9002;
}

abbrev new_tables : Table
new_tables = (pos 4, new_row) ∷ ((pos 9, company) ∷ [])

abbrev given : QboJobAccess
given = connected (text "123") (text "new") (text "https://sandbox-quickbooks.api.intuit.com")

access_again_example : access plain_cipher cut_off broker (pos 4) new_tables ≡ (given, new_tables)
unfolding access try_access locked decide decide_enabled decide_stored decide_connection use_stored
    use_renewed commit connected_to refresh_expired connection_of renew store refresh
    refresh_request read_response is_success client_credentials own_credential choose_credentials
    renewed_row stmt unix_now to_i64 lookup replace_row lasts stored_connection eq_ℤ ◌+ℤ◌ ◌-ℤ◌
    wrap_i64 decrypt decrypt_text decrypt_bytes unseal_parts encrypt seal_text bytes encode_utf8
    from_utf8 utf8_from trim trim_start trim_end is_whitespace len api_base letters unletters
    keep_if
access_again_example =
    access_again plain_cipher plain_cipher-CipherLaws refreshing cut_off broker (pos 4) tables
      new_tables (text "123") (text "new") (text "https://sandbox-quickbooks.api.intuit.com")
      reads_texts (refl, ground arith) refl (refl, (refl, refl))
      (lasts-StoredLasts broker cut_off (pos 4) new_tables new_row new_connection refl refl refl)

access_isolated_example :
    lookup (pos 9) ((access plain_cipher refreshing broker (pos 4) tables).1)
    ≡ lookup (pos 9) tables
access_isolated_example =
    access_isolated plain_cipher refreshing broker (pos 4) (pos 9) tables
      (λ e. absurd (ground arith))
