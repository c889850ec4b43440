-- ===== src/Broker/Tokens.antt =====
-- src/qbo.rs: reading back what `encrypt` writes.
use claude_job_runner.Prelude.{
  ℕ, zero, suc, ◌≤◌, ◌<◌, ◌≡◌, refl, ap, ◌∙◌, subst, false, Option, none, some, List, [], ◌∷◌, ◌++◌,
  arith, All, All-append, length, length-append, take, drop, ltb, Str, trim, trim_start, trim_end,
  is_whitespace, bytes, from_utf8-bytes, IsScalar, scalar_bound, ok, inl,
}
use claude_job_runner.Jobctl.Qbo.Literals.{Scalars, bytes-All}
use claude_job_runner.Broker.Crypto.{
  Cipher, CipherLaws, Graphic, Bytes, decrypt, decrypt_text, decrypt_bytes, unseal_parts, encrypt,
  seal_text,
}

graphic-not_whitespace : (c : ℕ) → 0x21 ≤ c → c < 0x7f → is_whitespace c ≡ false
unfolding is_whitespace
graphic-not_whitespace c lo hi = ground arith

trim_end-Graphic : (s : Str) → Graphic s → trim_end s ≡ s
unfolding trim_end
trim_end-Graphic [] h = refl
trim_end-Graphic (c ∷ s) (hc, h) =
    rw (trim_end-Graphic s h) (rw (graphic-not_whitespace c hc.0 hc.1) refl)

pub trim-Graphic : (s : Str) → Graphic s → trim s ≡ s
unfolding trim trim_start
trim-Graphic [] h = unfold trim_end in refl
trim-Graphic (c ∷ s) (hc, h) =
    rw (graphic-not_whitespace c hc.0 hc.1) (trim_end-Graphic (c ∷ s) (hc, h))

Graphic-ascii : (s : Str) → Graphic s → All (λ c. c < 0x80) s
Graphic-ascii [] h = tt
Graphic-ascii (c ∷ s) (hc, h) = (omega (arith, hc.1), Graphic-ascii s h)

Graphic-scalars : (s : Str) → Graphic s → All IsScalar s
Graphic-scalars [] h = tt
Graphic-scalars (c ∷ s) (hc, h) = (inl (omega (arith, hc.1)), Graphic-scalars s h)

pub take-prefix : (n : ℕ) (xs ys : List ℕ) → length xs ≡ n → take n (xs ++ ys) ≡ xs
take-prefix zero [] ys h = refl
take-prefix zero (x ∷ xs) ys h = absurd (omega (arith, h))
take-prefix (suc n) [] ys h = absurd (omega (arith, h))
take-prefix (suc n) (x ∷ xs) ys h = ap (λ r. x ∷ r) (take-prefix n xs ys (omega (arith, h)))

drop-prefix : (n : ℕ) (xs ys : List ℕ) → length xs ≡ n → drop n (xs ++ ys) ≡ ys
drop-prefix zero [] ys h = refl
drop-prefix zero (x ∷ xs) ys h = absurd (omega (arith, h))
drop-prefix (suc n) [] ys h = absurd (omega (arith, h))
drop-prefix (suc n) (x ∷ xs) ys h = drop-prefix n xs ys (omega (arith, h))

scalars : (s : Str) → All IsScalar s → Scalars s
scalars [] h = tt
scalars (c ∷ s) (hc, h) = (scalar_bound c hc, scalars s h)

utf8_bytes : (s : Str) → All IsScalar s → Bytes (bytes s)
utf8_bytes s h = bytes-All s (scalars s h)

module _ (c : Cipher) (laws : CipherLaws c) where
  -- The parts that `encrypt` joins are those that `decrypt` takes apart.
  unseal_parts-sealed :
      (key iv tag body plain : List ℕ)
      → length iv ≡ 12
      → c.seal key iv plain ≡ some (tag, body)
      → unseal_parts c key (iv ++ (tag ++ body)) ≡ some plain
  unfolding unseal_parts
  unseal_parts-sealed key iv tag body plain hi hs =
      let ht = laws.tag_length key iv plain tag body hs in
      let first = take-prefix 12 iv (tag ++ body) hi in
      let others = drop-prefix 12 iv (tag ++ body) hi in
      let raw = iv ++ (tag ++ body) in
      ap (λ nonce. c.unseal key nonce (drop 16 (drop 12 raw) ++ take 16 (drop 12 raw))) first
      ∙ ap (λ rest. c.unseal key iv (drop 16 rest ++ take 16 rest)) others
      ∙ ap (λ cut. c.unseal key iv (cut ++ take 16 (tag ++ body))) (drop-prefix 16 tag body ht)
      ∙ ap (λ kept. c.unseal key iv (body ++ kept)) (take-prefix 16 tag body ht)
      ∙ laws.unseal-seal key iv plain tag body hs

  long_enough :
      (key iv tag body plain : List ℕ)
      → length iv ≡ 12
      → c.seal key iv plain ≡ some (tag, body)
      → ltb (length (iv ++ (tag ++ body))) 28 ≡ false
  long_enough key iv tag body plain hi hs =
      let ht = laws.tag_length key iv plain tag body hs in
      let l1 = length-append iv (tag ++ body) in
      let l2 = length-append tag body in ground (arith, hi, ht, l1, l2)

  decrypt_bytes-sealed :
      (key iv tag body plain : List ℕ)
      → length iv ≡ 12
      → c.seal key iv plain ≡ some (tag, body)
      → decrypt_bytes c key (some (iv ++ (tag ++ body))) ≡ some plain
  unfolding decrypt_bytes
  decrypt_bytes-sealed key iv tag body plain hi hs =
      rw (long_enough key iv tag body plain hi hs) (unseal_parts-sealed key iv tag body plain hi hs)

  decrypt-stored :
      (key raw : List ℕ) (plain : Str)
      → Bytes raw
      → All IsScalar plain
      → decrypt_bytes c key (some raw) ≡ some (bytes plain)
      → decrypt c key (bytes (c.base64 raw)) ≡ some plain
  unfolding decrypt decrypt_text
  decrypt-stored key raw plain hr hp e =
      let graphic = laws.base64-Graphic raw hr in
      rw (from_utf8-bytes (c.base64 raw) (Graphic-scalars (c.base64 raw) graphic)) (
        rw (trim-Graphic (c.base64 raw) graphic)
          (rw (laws.unbase64-base64 raw hr) (rw e (from_utf8-bytes plain hp))))

  decrypt-seal_text :
      (key iv : List ℕ) (plain : Str) (r : Option (List ℕ × List ℕ)) (stored : Str)
      → length iv ≡ 12
      → Bytes iv
      → All IsScalar plain
      → c.seal key iv (bytes plain) ≡ r
      → seal_text c iv r ≡ ok stored
      → decrypt c key (bytes stored) ≡ some plain
  unfolding seal_text
  decrypt-seal_text key iv plain none stored hi hb hp hs e = absurd (ground arith)
  decrypt-seal_text key iv plain (some (tag, body)) stored hi hb hp hs e =
      let same : c.base64 (iv ++ (tag ++ body)) ≡ stored = cc in
      subst (λ t. decrypt c key (bytes t) ≡ some plain) same
        (decrypt-stored key (iv ++ (tag ++ body)) plain
          (All-append _ iv (tag ++ body) hb
            (laws.sealed_bytes key iv (bytes plain) tag body (utf8_bytes plain hp) hs))
          hp (decrypt_bytes-sealed key iv tag body (bytes plain) hi hs))

  -- What `encrypt` makes of a text, `decrypt` reads as that text. The cipher obeys its documentation,
  -- the nonce is 12 bytes, and the text is made of Unicode scalar values.
  pub decrypt-encrypt :
      (key iv : List ℕ) (plain stored : Str)
      → length iv ≡ 12
      → Bytes iv
      → All IsScalar plain
      → encrypt c (some iv) key plain ≡ ok stored
      → decrypt c key (bytes stored) ≡ some plain
  unfolding encrypt
  decrypt-encrypt key iv plain stored hi hb hp e =
      decrypt-seal_text key iv plain (c.seal key iv (bytes plain)) stored hi hb hp refl e
