-- ===== src/Broker/Crypto.antt =====
-- src/qbo.rs: `parse_key`, `decrypt` and `encrypt`. base64 and ring are parameters.
use claude_job_runner.Prelude.{
  ℕ, ◌+◌, ◌-◌, ◌*◌, ◌<◌, ◌≤◌, ◌≡◌, Bool, ◌&&◌, Option, none, some, List, [], ◌∷◌, ◌++◌, All, length,
  take, drop, leb, ltb, ◌==◌, if◌then◌else◌, Str, text, trim, len, bytes, from_utf8, Result, ok,
  err,
}
use claude_job_runner.Broker.{QboError, config}

-- The code of other crates: base64's standard alphabet, and AES-256-GCM without associated data. `seal`
-- takes key, nonce and plain text and gives tag and cipher text; `unseal` takes cipher text and tag.
pub record Cipher : Type 0 where
  pub base64 : List ℕ → Str
  pub unbase64 : Str → Option (List ℕ)
  pub accepts_key : List ℕ → Bool
  pub seal : List ℕ → List ℕ → List ℕ → Option (List ℕ × List ℕ)
  pub unseal : List ℕ → List ℕ → List ℕ → Option (List ℕ)

-- Graphic ASCII characters.
abbrev pub Graphic : Str → Type 0
Graphic s = All (λ c. (0x21 ≤ c) × (c < 0x7f)) s

abbrev pub Bytes : List ℕ → Type 0
Bytes bs = All (λ b. b < 256) bs

-- What their documentation says of them.
pub record CipherLaws (c : Cipher) : Type 0 where
  pub base64-Graphic : (bs : List ℕ) → Bytes bs → Graphic (c.base64 bs)
  pub unbase64-base64 : (bs : List ℕ) → Bytes bs → c.unbase64 (c.base64 bs) ≡ some bs
  pub unseal-seal :
      (key iv plain tag body : List ℕ)
      → c.seal key iv plain ≡ some (tag, body)
      → c.unseal key iv (body ++ tag) ≡ some plain
  pub tag_length :
      (key iv plain tag body : List ℕ) → c.seal key iv plain ≡ some (tag, body) → length tag ≡ 16
  pub sealed_bytes :
      (key iv plain tag body : List ℕ)
      → Bytes plain
      → c.seal key iv plain ≡ some (tag, body)
      → Bytes (tag ++ body)

-- `NONCE_LEN` of ring, and `TAG_LEN`
abbrev pub nonce_len : ℕ
nonce_len = 12

abbrev pub tag_len : ℕ
tag_len = 16

unfoldable pub hex_digit : ℕ → Option ℕ
hex_digit c =
    if leb b'0' c && leb c b'9'
    then some (c - 48)
    else if leb b'a' c && leb c b'f'
    then some (c - 87)
    else if leb b'A' c && leb c b'F'
    then some (c - 55)
    else none

abbrev pub pair_byte : Option ℕ → Option ℕ → Option ℕ
pair_byte (some hi) (some lo) = some (hi * 16 + lo)
pair_byte _ _ = none

-- `u8::from_str_radix(_, 16)` on two characters: a sign may stand before the digit.
unfoldable pub hex_byte : ℕ → ℕ → Option ℕ
unfolding hex_digit
hex_byte c d = if c == b'+' then hex_digit d else pair_byte (hex_digit c) (hex_digit d)

abbrev pub cons_byte : Option ℕ → Option (List ℕ) → Option (List ℕ)
cons_byte (some b) (some bs) = some (b ∷ bs)
cons_byte _ _ = none

-- The bytes of each two characters; a character that is not ASCII is no digit, and cuts its slice.
unfoldable pub hex_bytes : Str → Option (List ℕ)
unfolding hex_byte
hex_bytes [] = some []
hex_bytes (c ∷ []) = none
hex_bytes (c ∷ (d ∷ s)) = cons_byte (hex_byte c d) (hex_bytes s)

unfoldable pub key_bytes : Str → Option (List ℕ)
unfolding hex_bytes len
key_bytes hex = if len hex == 64 then hex_bytes hex else none

module _ (c : Cipher) where
  unfoldable pub check_key : Option (List ℕ) → Result QboError (List ℕ)
  check_key none = err (config (text "AES_KEY must be 64 hex characters (a 256-bit key)"))
  check_key (some key) =
      if c.accepts_key key then ok key else err (config (text "AES_KEY is not a valid AES-256 key"))

  unfoldable pub parse_key : Str → Result QboError (List ℕ)
  unfolding check_key key_bytes trim
  parse_key hex = check_key (key_bytes (trim hex))

  -- `split_at`, then `ciphertext | tag` for ring.
  unfoldable pub unseal_parts : List ℕ → List ℕ → Option (List ℕ)
  unseal_parts key raw =
      let rest = drop nonce_len raw in
      c.unseal key (take nonce_len raw) (drop tag_len rest ++ take tag_len rest)

  unfoldable pub decrypt_bytes : List ℕ → Option (List ℕ) → Option (List ℕ)
  unfolding unseal_parts
  decrypt_bytes key none = none
  decrypt_bytes key (some raw) =
      if ltb (length raw) (nonce_len + tag_len) then none else unseal_parts key raw

  abbrev pub as_text : Option (List ℕ) → Option Str
  as_text none = none
  as_text (some plain) = from_utf8 plain

  unfoldable pub decrypt_text : List ℕ → Option Str → Option Str
  unfolding decrypt_bytes trim
  decrypt_text key none = none
  decrypt_text key (some stored) = as_text (decrypt_bytes key (c.unbase64 (trim stored)))

  unfoldable pub decrypt : List ℕ → List ℕ → Option Str
  unfolding decrypt_text
  decrypt key stored = decrypt_text key (from_utf8 stored)

  unfoldable pub seal_text : List ℕ → Option (List ℕ × List ℕ) → Result QboError Str
  seal_text iv none = err (config (text "encryption failed"))
  seal_text iv (some (tag, body)) = ok (c.base64 (iv ++ (tag ++ body)))

  -- `encrypt`, with the nonce that the system's randomness gives, if any.
  unfoldable pub encrypt : Option (List ℕ) → List ℕ → Str → Result QboError Str
  unfolding seal_text bytes
  encrypt none key plain = err (config (text "no system randomness"))
  encrypt (some iv) key plain = seal_text iv (c.seal key iv (bytes plain))
