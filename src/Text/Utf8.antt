-- ===== src/Text/Utf8.antt =====
-- `bytes.decode("utf-8", errors="ignore")` and `str.encode("utf-8")`.
use dpi_engine_python.Prelude.{
  ℕ, zero, suc, ◌+◌, ◌-◌, ◌*◌, ◌/◌, ◌%◌, ◌≤◌, ◌<◌, ◌≡◌, refl, ap, ◌∙◌, ◌⊎◌, inl, inr, ◌&&◌, List,
  [], ◌∷◌, ◌++◌, arith, leb, ltb, if◌then◌else◌, All, Bool-cases, append_assoc, append-nil,
}
use dpi_engine_python.Prelude.Eq.{◌==◌, nat_eq}
use dpi_engine_python.Text.Trim.{Str}

-- Between two characters, or inside one: bytes still to come after the next, the bits so far, and
-- the range that the next byte must lie in.
pub data Mode : Type 0 where
  idle : Mode
  inside : (left bits lo hi : ℕ) → Mode

-- A byte where a character may start. A byte that starts none is ignored.
lead : ℕ → Str × Mode
lead b =
    if ltb b 0x80
    then (b ∷ [], idle)
    else if ltb b 0xc2
    then ([], idle)
    else if ltb b 0xe0
    then ([], inside 0 (b - 0xc0) 0x80 0xbf)
    else if b == 0xe0
    then ([], inside 1 0 0xa0 0xbf)
    else if b == 0xed
    then ([], inside 1 0xd 0x80 0x9f)
    else if ltb b 0xf0
    then ([], inside 1 (b - 0xe0) 0x80 0xbf)
    else if b == 0xf0
    then ([], inside 2 0 0x90 0xbf)
    else if ltb b 0xf4
    then ([], inside 2 (b - 0xf0) 0x80 0xbf)
    else if b == 0xf4
    then ([], inside 2 4 0x80 0x8f)
    else ([], idle)

after_byte : ℕ → ℕ → Str × Mode
after_byte zero bits = (bits ∷ [], idle)
after_byte (suc left) bits = ([], inside left bits 0x80 0xbf)

-- A byte out of range ends the broken character, which is ignored, and is read afresh.
feed : Mode → ℕ → Str × Mode
unfolding lead after_byte
feed idle b = lead b
feed (inside left bits lo hi) b =
    if leb lo b && leb b hi then after_byte left (bits * 64 + (b - 0x80)) else lead b

-- A character that the end cuts off is ignored.
decode_from : Mode → List ℕ → Str
decode_from mode [] = []
decode_from mode (b ∷ bs) = let (out, next) = feed mode b in out ++ decode_from next bs

unfoldable pub decode : List ℕ → Str
unfolding decode_from feed
decode bs = decode_from idle bs

-- The bytes of one code point that is no surrogate.
unfoldable pub encode_code : ℕ → List ℕ
encode_code c =
    if ltb c 0x80
    then c ∷ []
    else if ltb c 0x800
    then (0xc0 + c / 64) ∷ (0x80 + c % 64) ∷ []
    else if ltb c 0x10000
    then (0xe0 + c / 4096) ∷ (0x80 + c / 64 % 64) ∷ (0x80 + c % 64) ∷ []
    else (0xf0 + c / 262144) ∷ (0x80 + c / 4096 % 64) ∷ (0x80 + c / 64 % 64) ∷ (0x80 + c % 64) ∷ []

abbrev pub encode : Str → List ℕ
encode [] = []
encode (c ∷ cs) = encode_code c ++ encode cs

-- A code point that UTF-8 can carry: not a surrogate.
abbrev pub IsScalar : ℕ → Type 0
IsScalar c = (c < 0xd800) ⊎ (0xe000 ≤ c) × (c < 0x110000)

-- The lower and upper bound of the second byte of a character, by the bits of the first.
abbrev lo3 : ℕ → ℕ
lo3 h = if h == 0 then 0xa0 else 0x80

abbrev hi3 : ℕ → ℕ
hi3 h = if h == 0xd then 0x9f else 0xbf

abbrev lo4 : ℕ → ℕ
lo4 h = if h == 0 then 0x90 else 0x80

abbrev hi4 : ℕ → ℕ
hi4 h = if h == 4 then 0x8f else 0xbf

lead_two : (h : ℕ) → 2 ≤ h → h < 32 → lead (0xc0 + h) ≡ ([], inside 0 h 0x80 0xbf)
unfolding lead
lead_two h p q = ground arith

lead_three : (h : ℕ) → h < 16 → lead (0xe0 + h) ≡ ([], inside 1 h (lo3 h) (hi3 h))
unfolding lead
lead_three h p = ground arith

lead_four : (h : ℕ) → h < 5 → lead (0xf0 + h) ≡ ([], inside 2 h (lo4 h) (hi4 h))
unfolding lead
lead_four h p = ground arith

feed_inside :
    (left bits lo hi x : ℕ)
    → lo ≤ 0x80 + x
    → 0x80 + x ≤ hi
    → feed (inside left bits lo hi) (0x80 + x) ≡ after_byte left (bits * 64 + x)
unfolding feed
feed_inside left bits lo hi x p q = ground arith

-- A character of two bytes, in its groups of six bits.
decode_two :
    (h x : ℕ) (rest : List ℕ)
    → 2 ≤ h
    → h < 32
    → x < 64
    → decode_from idle ((0xc0 + h) ∷ (0x80 + x) ∷ rest) ≡ (h * 64 + x) ∷ decode_from idle rest
unfolding decode_from after_byte
decode_two h x rest p q r =
    let a : feed idle (0xc0 + h) ≡ ([], inside 0 h 0x80 0xbf) = unfold feed in lead_two h p q in
    rw a (rw (feed_inside 0 h 0x80 0xbf x (omega arith) (omega arith)))

decode_three :
    (h y x : ℕ) (rest : List ℕ)
    → h < 16
    → lo3 h ≤ 0x80 + y
    → 0x80 + y ≤ hi3 h
    → x < 64
    → decode_from idle ((0xe0 + h) ∷ (0x80 + y) ∷ (0x80 + x) ∷ rest)
      ≡ ((h * 64 + y) * 64 + x) ∷ decode_from idle rest
unfolding decode_from after_byte
decode_three h y x rest p q r k =
    let a : feed idle (0xe0 + h) ≡ ([], inside 1 h (lo3 h) (hi3 h)) =
      unfold feed in lead_three h p in
    rw a (
      rw (feed_inside 1 h (lo3 h) (hi3 h) y q r)
        (rw (feed_inside 0 (h * 64 + y) 0x80 0xbf x (omega arith) (omega arith))))

decode_four :
    (h z y x : ℕ) (rest : List ℕ)
    → h < 5
    → lo4 h ≤ 0x80 + z
    → 0x80 + z ≤ hi4 h
    → y < 64
    → x < 64
    → decode_from idle ((0xf0 + h) ∷ (0x80 + z) ∷ (0x80 + y) ∷ (0x80 + x) ∷ rest)
      ≡ (((h * 64 + z) * 64 + y) * 64 + x) ∷ decode_from idle rest
unfolding decode_from after_byte
decode_four h z y x rest p q r k l =
    let a : feed idle (0xf0 + h) ≡ ([], inside 2 h (lo4 h) (hi4 h)) =
      unfold feed in lead_four h p in
    rw a (
      rw (feed_inside 2 h (lo4 h) (hi4 h) z q r) (
        rw (feed_inside 1 (h * 64 + z) 0x80 0xbf y (omega arith) (omega arith))
          (rw (feed_inside 0 ((h * 64 + z) * 64 + y) 0x80 0xbf x (omega arith) (omega arith)))))

decode_from-encode_code :
    (c : ℕ) (rest : List ℕ)
    → IsScalar c
    → decode_from idle (encode_code c ++ rest) ≡ c ∷ decode_from idle rest
unfolding encode_code
decode_from-encode_code c rest h = elim (Bool-cases (ltb c 0x80)) [
  | inl one ↦ rw one (unfold decode_from feed lead in ground arith)
  | inr a ↦ elim (Bool-cases (ltb c 0x800)) [
    | inl two ↦
        rw (a, two)
          (decode_two (c / 64) (c % 64) rest (ground arith) (ground arith) (omega arith)
            ∙ ap (λ n. n ∷ decode_from idle rest) (omega arith))
    | inr b ↦ elim (Bool-cases (ltb c 0x10000)) [
      | inl three ↦
          rw (a, b, three)
            (decode_three (c / 4096) (c / 64 % 64) (c % 64) rest (ground arith) (ground arith)
                (ground arith) (omega arith)
              ∙ ap (λ n. n ∷ decode_from idle rest) (omega arith))
      | inr d ↦
          rw (a, b, d)
            (decode_four (c / 262144) (c / 4096 % 64) (c / 64 % 64) (c % 64) rest (ground arith)
                (ground arith) (ground arith) (omega arith) (omega arith)
              ∙ ap (λ n. n ∷ decode_from idle rest) (omega arith))
    ]
  ]
]

decode_from-encode :
    (s : Str) (rest : List ℕ)
    → All IsScalar s
    → decode_from idle (encode s ++ rest) ≡ s ++ decode_from idle rest
decode_from-encode [] rest h = refl
decode_from-encode (c ∷ cs) rest h = rw (append_assoc (encode_code c) (encode cs) rest) (
    decode_from-encode_code c (encode cs ++ rest) h.0 ∙ ap (◌∷◌ c) (decode_from-encode cs rest h.1))

-- Decoding gives back every text that can be encoded.
pub decode-encode : (s : Str) → All IsScalar s → decode (encode s) ≡ s
unfolding decode decode_from
decode-encode s h = rw (← append-nil (encode s)) (decode_from-encode s [] h ∙ append-nil s)
