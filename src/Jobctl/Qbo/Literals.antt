-- ===== src/Jobctl/Qbo/Literals.antt =====
-- The texts that reach QuickBooks: query literals and URL parameters can be read back.
use claude_job_runner.Prelude.{
  ℕ, ◌+◌, ◌-◌, ◌*◌, ◌/◌, ◌%◌, ◌<◌, ◌≡◌, refl, ◌∙◌, ap, Bool, true, false, ◌||◌, Option, none, some,
  List, [], ◌∷◌, ◌++◌, arith, All, All-append, Str, if◌then◌else◌, ltb, leb, ◌&&◌, ◌==◌, ==→eq,
  ltb→lt, Bool-cases, inl, inr, bytes, encode_utf8, replace,
}
use claude_job_runner.Jobctl.Qbo.Args.{
  quote, escape, hex_digit, is_unreserved, encode_byte, encode_bytes, percent_encode,
}

-- A text does not begin with a quote.
abbrev pub Unquoted : Str → Type 0
Unquoted [] = Unit
Unquoted (c ∷ s) = (c == quote) ≡ false

abbrev push : ℕ → Option (Str × Str) → Option (Str × Str)
push c none = none
push c (some (value, rest)) = some (c ∷ value, rest)

-- The reader of a literal, behind its opening quote: two quotes stand for one, and one quote ends it.
-- The flag tells that the last character was a quote.
unfoldable pub read_literal : Bool → Str → Option (Str × Str)
read_literal false [] = none
read_literal true [] = some ([], [])
read_literal false (c ∷ s) =
    let closing = read_literal true s in
    let plain = push c (read_literal false s) in if c == quote then closing else plain
read_literal true (c ∷ s) =
    let doubled = push quote (read_literal false s) in
    if c == quote then doubled else some ([], c ∷ s)

literal_ends : (rest : Str) → Unquoted rest → read_literal true rest ≡ some ([], rest)
unfolding read_literal
literal_ends [] h = refl
literal_ends (c ∷ s) h = rw h refl

-- Whatever a value holds, a reader for which two quotes inside a literal stand for one, and a single
-- one ends it, reads the literal made of it as that value, and leaves the rest of the query as it was
-- written: for such a reader a value cannot end its literal. The rest does not begin with a quote.
pub literal_contained :
    (value rest : Str)
    → Unquoted rest
    → read_literal false (escape value ++ quote ∷ rest) ≡ some (value, rest)
unfolding read_literal escape replace
literal_contained [] rest h = literal_ends rest h
literal_contained (c ∷ value) rest h = elim (Bool-cases (c == quote)) [
  | inl e ↦ rw (==→eq c quote e) (rw (literal_contained value rest h) refl)
  | inr e ↦ rw e (rw e (rw (literal_contained value rest h) refl))
]

-- The reader of percent-encoded text.
abbrev hex_value : ℕ → ℕ
hex_value c = if ltb c 0x3a then c - 48 else c - 55

unfoldable pub percent_decode : Str → List ℕ
percent_decode [] = []
percent_decode (c ∷ []) = c ∷ []
percent_decode (c ∷ (d ∷ [])) = c ∷ (d ∷ [])
percent_decode (c ∷ (d ∷ (e ∷ s))) =
    let byte = (hex_value d * 16 + hex_value e) ∷ percent_decode s in
    let plain = c ∷ percent_decode (d ∷ (e ∷ s)) in if c == b'%' then byte else plain

utf8-All : (c : ℕ) → c < 0x110000 → All (λ b. b < 256) (encode_utf8 c)
unfolding encode_utf8
utf8-All c h = elim (Bool-cases (ltb c 0x80)) [
  | inl a ↦ rw a (omega (arith, ltb→lt c 0x80 a), tt)
  | inr a ↦ elim (Bool-cases (ltb c 0x800)) [
    | inl b ↦ rw a (rw b (omega (arith, ltb→lt c 0x800 b), (omega arith, tt)))
    | inr b ↦ elim (Bool-cases (ltb c 0x10000)) [
      | inl d ↦
          rw a (rw b (rw d (omega (arith, ltb→lt c 0x10000 d), (omega arith, (omega arith, tt)))))
      | inr d ↦ rw a (rw b (rw d (omega arith, (omega arith, (omega arith, (omega arith, tt))))))
    ]
  ]
]

abbrev pub Scalars : Str → Type 0
Scalars s = All (λ c. c < 0x110000) s

pub bytes-All : (s : Str) → Scalars s → All (λ b. b < 256) (bytes s)
unfolding bytes
bytes-All [] h = tt
bytes-All (c ∷ s) (hc, h) = All-append _ (encode_utf8 c) (bytes s) (utf8-All c hc) (bytes-All s h)

hex_value-digit : (n : ℕ) → n < 16 → hex_value (hex_digit n) ≡ n
unfolding hex_digit
hex_value-digit n h = ground arith

unreserved-not_percent : (b : ℕ) → is_unreserved b ≡ true → (b == b'%') ≡ false
unfolding is_unreserved
unreserved-not_percent b h = ground arith

decode-plain :
    (c : ℕ) (s : Str) → (c == b'%') ≡ false → percent_decode (c ∷ s) ≡ c ∷ percent_decode s
unfolding percent_decode
decode-plain c [] h = refl
decode-plain c (d ∷ []) h = refl
decode-plain c (d ∷ (e ∷ s)) h = rw h refl

decode-byte :
    (b : ℕ) (s : Str) → b < 256 → percent_decode (encode_byte b ++ s) ≡ b ∷ percent_decode s
unfolding encode_byte
decode-byte b s h = elim (Bool-cases (is_unreserved b)) [
  | inl e ↦ rw e (decode-plain b s (unreserved-not_percent b e))
  | inr e ↦ rw e (escaped b s h)
]
  where
    escaped :
        (b : ℕ) (s : Str)
        → b < 256
        → percent_decode (b'%' ∷ (hex_digit (b / 16) ∷ (hex_digit (b % 16) ∷ s)))
          ≡ b ∷ percent_decode s
    escaped b s h =
        unfold percent_decode in
        rw (hex_value-digit (b / 16) (omega (arith, h))) (
          rw (hex_value-digit (b % 16) (omega arith))
            (ap (λ n. n ∷ percent_decode s) (omega arith)))

decode-bytes : (bs : List ℕ) → All (λ b. b < 256) bs → percent_decode (encode_bytes bs) ≡ bs
unfolding encode_bytes
decode-bytes [] h = unfold percent_decode in refl
decode-bytes (b ∷ bs) (hb, h) =
    decode-byte b (encode_bytes bs) hb ∙ ap (λ rest. b ∷ rest) (decode-bytes bs h)

-- The unreserved characters of RFC 3986, section 2.3 (letters, digits and `-`, `.`, `_`, `~`), and
-- the percent sign.
abbrev pub is_url_text : ℕ → Bool
is_url_text c =
    (leb b'A' c && leb c b'Z')
    || ((leb b'a' c && leb c b'z')
        || ((leb b'0' c && leb c b'9')
            || ((c == b'-') || ((c == b'.') || ((c == b'_') || ((c == b'~') || (c == b'%')))))))

unreserved-url : (c : ℕ) → is_unreserved c ≡ true → is_url_text c ≡ true
unfolding is_unreserved
unreserved-url c h = ground arith

hex_digit-url : (n : ℕ) → n < 16 → is_url_text (hex_digit n) ≡ true
unfolding hex_digit is_unreserved
hex_digit-url n h = unreserved-url (hex_digit n) (ground arith)

encode_byte-url : (b : ℕ) → b < 256 → All (λ c. is_url_text c ≡ true) (encode_byte b)
unfolding encode_byte
encode_byte-url b h = elim (Bool-cases (is_unreserved b)) [
  | inl e ↦ rw e (unreserved-url b e, tt)
  | inr e ↦ rw e (
    refl,
    (hex_digit-url (b / 16) (omega (arith, h)), (hex_digit-url (b % 16) (omega arith), tt)),
  )
]

encode_bytes-url :
    (bs : List ℕ) → All (λ b. b < 256) bs → All (λ c. is_url_text c ≡ true) (encode_bytes bs)
unfolding encode_bytes
encode_bytes-url [] h = tt
encode_bytes-url (b ∷ bs) (hb, h) =
    All-append _ (encode_byte b) (encode_bytes bs) (encode_byte-url b hb) (encode_bytes-url bs h)

-- A parameter of a QuickBooks URL holds only letters, digits, `-`, `.`, `_`, `~` and percent signs, so
-- none of the characters that separate parameters, and it decodes to the bytes of the value; the value is made of Unicode scalar values.
pub percent_encode_exact :
    (value : Str)
    → Scalars value
    → (percent_decode (percent_encode value) ≡ bytes value)
      × All (λ c. is_url_text c ≡ true) (percent_encode value)
unfolding percent_encode
percent_encode_exact value h =
    let small = bytes-All value h in
    (decode-bytes (bytes value) small, encode_bytes-url (bytes value) small)
