-- ===== src/Jobctl/Qbo/DateText.antt =====
-- The texts of the shape YYYY-MM-DD, and texts of one byte per character.
use claude_job_runner.Prelude.{
  ℕ, suc, ◌≤◌, ◌<◌, ◌≡◌, refl, true, false, List, [], ◌∷◌, ◌++◌, arith, All, all, length, Str, ltb,
  ◌==◌, Bool-cases, inl, inr, bytes, encode_utf8, is_ascii_digit, subst, sym,
}
use claude_job_runner.Jobctl.Qbo.Args.{quote, date_byte, all_at, is_date}

-- A character whose bytes are below 128 is its one byte.
ascii_char :
    (c : ℕ) (rest : List ℕ)
    → All (λ b. b < 128) (encode_utf8 c ++ rest)
    → (encode_utf8 c ≡ c ∷ []) × All (λ b. b < 128) rest
unfolding encode_utf8
ascii_char c rest = elim (Bool-cases (ltb c 0x80)) [
  | inl a ↦ rw a (λ h. (refl, h.1))
  | inr a ↦ elim (Bool-cases (ltb c 0x800)) [
    | inl b ↦ rw a (rw b (λ h. absurd (omega (arith, h.0))))
    | inr b ↦ elim (Bool-cases (ltb c 0x10000)) [
      | inl d ↦ rw a (rw b (rw d (λ h. absurd (omega (arith, h.0)))))
      | inr d ↦ rw a (rw b (rw d (λ h. absurd (omega (arith, h.0)))))
    ]
  ]
]

-- A text whose bytes are all below 128 is its bytes.
pub ascii_text : (s : Str) → All (λ b. b < 128) (bytes s) → bytes s ≡ s
unfolding bytes
ascii_text [] h = refl
ascii_text (c ∷ s) h =
    let (one, rest) = ascii_char c (bytes s) h in rw one (rw (ascii_text s rest) refl)

digit-ascii : (b : ℕ) → is_ascii_digit b ≡ true → b < 128
digit-ascii b h = ground arith

date_byte-ascii : (i b : ℕ) → date_byte i b ≡ true → (b < 128) × ((b == quote) ≡ false)
unfolding date_byte
date_byte-ascii i b h = (ground arith, ground arith)

date_bytes :
    (i : ℕ) (bs : List ℕ)
    → all_at date_byte i bs ≡ true
    → All (λ b. (b < 128) × ((b == quote) ≡ false)) bs
unfolding all_at
date_bytes i [] h = tt
date_bytes i (b ∷ bs) h = (date_byte-ascii i b (ground arith), date_bytes (suc i) bs (ground arith))

pub digits : (bs : List ℕ) → all is_ascii_digit bs ≡ true → All (λ b. b < 128) bs
digits [] h = tt
digits (b ∷ bs) h = (digit-ascii b (ground arith), digits bs (ground arith))

All-map : {P Q : ℕ → Type 0} (f : (b : ℕ) → P b → Q b) (bs : List ℕ) → All P bs → All Q bs
All-map f [] h = tt
All-map f (b ∷ bs) (hb, h) = (f b hb, All-map f bs h)

-- A decimal digit.
abbrev pub Digit : ℕ → Type 0
Digit c = (48 ≤ c) × (c ≤ 57)

-- The shape YYYY-MM-DD: four digits, a dash, two digits, a dash and two digits, and nothing more.
abbrev pub DateText : Str → Type 0
DateText v =
    (a : ℕ) × (b : ℕ) × (c : ℕ) × (d : ℕ) × (e : ℕ) × (f : ℕ) × (g : ℕ) × (h : ℕ) × (v
      ≡ a ∷ (b ∷ (c ∷ (d ∷ (b'-' ∷ (e ∷ (f ∷ (b'-' ∷ (g ∷ (h ∷ []))))))))))
    × All Digit (a ∷ (b ∷ (c ∷ (d ∷ (e ∷ (f ∷ (g ∷ (h ∷ []))))))))

date_byte-Digit : (i c : ℕ) → (i == 4) ≡ false → (i == 7) ≡ false → date_byte i c ≡ true → Digit c
unfolding date_byte
date_byte-Digit i c h k e = (ground arith, ground arith)

Digit-date_byte : (i c : ℕ) → (i == 4) ≡ false → (i == 7) ≡ false → Digit c → date_byte i c ≡ true
unfolding date_byte
Digit-date_byte i c h k (low, high) = ground arith

dash_at : (c : ℕ) → date_byte 4 c ≡ true → c ≡ b'-'
unfolding date_byte
dash_at c e = ground arith

late_dash_at : (c : ℕ) → date_byte 7 c ≡ true → c ≡ b'-'
unfolding date_byte
late_dash_at c e = ground arith

step_at :
    (i b : ℕ) (bs : List ℕ)
    → all_at date_byte i (b ∷ bs) ≡ true
    → (date_byte i b ≡ true) × (all_at date_byte (suc i) bs ≡ true)
unfolding all_at
step_at i b bs h = (ground arith, ground arith)

ten_bytes : (v : Str) → length v ≡ 10 → all_at date_byte 0 v ≡ true → DateText v
ten_bytes (a ∷ (b ∷ (c ∷ (d ∷ (p ∷ (e ∷ (f ∷ (q ∷ (g ∷ (h ∷ [])))))))))) ten shape =
    let (a_ok, s1) = step_at 0 a _ shape in
    let (b_ok, s2) = step_at 1 b _ s1 in
    let (c_ok, s3) = step_at 2 c _ s2 in
    let (d_ok, s4) = step_at 3 d _ s3 in
    let (p_ok, s5) = step_at 4 p _ s4 in
    let (e_ok, s6) = step_at 5 e _ s5 in
    let (f_ok, s7) = step_at 6 f _ s6 in
    let (q_ok, s8) = step_at 7 q _ s7 in
    let (g_ok, s9) = step_at 8 g _ s8 in
    let (h_ok, _) = step_at 9 h _ s9 in
    (
      a,
      b,
      c,
      d,
      e,
      f,
      g,
      h,
      rw (dash_at p p_ok) (rw (late_dash_at q q_ok) refl),
      (
        date_byte-Digit 0 a refl refl a_ok,
        (
          date_byte-Digit 1 b refl refl b_ok,
          (
            date_byte-Digit 2 c refl refl c_ok,
            (
              date_byte-Digit 3 d refl refl d_ok,
              (
                date_byte-Digit 5 e refl refl e_ok,
                (
                  date_byte-Digit 6 f refl refl f_ok,
                  (date_byte-Digit 8 g refl refl g_ok, (date_byte-Digit 9 h refl refl h_ok, tt)),
                ),
              ),
            ),
          ),
        ),
      ),
    )
ten_bytes _ ten shape = absurd (omega arith)

pub is_date-DateText : (v : Str) → is_date v ≡ true → DateText v
unfolding is_date
is_date-DateText v h =
    let shape : all_at date_byte 0 (bytes v) ≡ true = ground arith in
    let ten : length (bytes v) ≡ 10 = ground arith in
    let ascii = date_bytes 0 (bytes v) shape in
    let same = ascii_text v (All-map (λ b h. h.0) (bytes v) ascii) in
    subst DateText same (ten_bytes (bytes v) ten shape)

-- The UTF-8 form of a text below 128 is the text.
bytes-ascii : (v : Str) → All (λ c. c < 128) v → bytes v ≡ v
unfolding bytes encode_utf8
bytes-ascii [] h = refl
bytes-ascii (c ∷ v) (small, h) =
    let below : ltb c 0x80 ≡ true = ground arith in rw below (rw (bytes-ascii v h) refl)

Digit-ascii : (c : ℕ) → Digit c → c < 128
Digit-ascii c (low, high) = omega arith

date_texts :
    (a b c d e f g h : ℕ)
    → All Digit (a ∷ (b ∷ (c ∷ (d ∷ (e ∷ (f ∷ (g ∷ (h ∷ []))))))))
    → is_date (a ∷ (b ∷ (c ∷ (d ∷ (b'-' ∷ (e ∷ (f ∷ (b'-' ∷ (g ∷ (h ∷ [])))))))))) ≡ true
date_texts a b c d e f g h (ha, (hb, (hc, (hd, (he, (hf, (hg, (hh, _)))))))) =
    let below = bytes-ascii (a ∷ (b ∷ (c ∷ (d ∷ (b'-' ∷ (e ∷ (f ∷ (b'-' ∷ (g ∷ (h ∷ [])))))))))) (
      Digit-ascii a ha,
      (
        Digit-ascii b hb,
        (
          Digit-ascii c hc,
          (
            Digit-ascii d hd,
            (
              omega arith,
              (
                Digit-ascii e he,
                (Digit-ascii f hf, (omega arith, (Digit-ascii g hg, (Digit-ascii h hh, tt)))),
              ),
            ),
          ),
        ),
      ),
    ) in
    unfold is_date all_at in
    rw below (
      rw (Digit-date_byte 0 a refl refl ha) (
        rw (Digit-date_byte 1 b refl refl hb) (
          rw (Digit-date_byte 2 c refl refl hc) (
            rw (Digit-date_byte 3 d refl refl hd) (
              rw (Digit-date_byte 5 e refl refl he) (
                rw (Digit-date_byte 6 f refl refl hf) (
                  rw (Digit-date_byte 8 g refl refl hg)
                    (rw (Digit-date_byte 9 h refl refl hh) (unfold date_byte in refl)))))))))

pub DateText-is_date : (v : Str) → DateText v → is_date v ≡ true
DateText-is_date v (a, b, c, d, e, f, g, h, same, shape) =
    subst (λ t. is_date t ≡ true) (sym same) (date_texts a b c d e f g h shape)
