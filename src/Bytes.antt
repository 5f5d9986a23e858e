-- ===== src/Bytes.antt =====
-- Python's `bytes`: reading by index and by slice, and numbers in network order.
use dpi_engine_python.Prelude.{
  ℕ, ◌+◌, ◌-◌, ◌*◌, ◌/◌, ◌%◌, ◌≤◌, ◌<◌, ◌≡◌, ap, none, some, List, [], ◌∷◌, ◌++◌, arith, length,
  get_elem?, take, drop, length-drop, take-append, drop-append, get_elem?-append, get_elem?-lt, ltb,
  if◌then◌else◌,
}
use dpi_engine_python.Prelude.Result.{Result, ok, err, index_error, overflow_error}

abbrev pub Bytes : Type 0
Bytes = List ℕ

-- `payload[i]`, for an index that is not negative.
unfoldable pub index : Bytes → ℕ → Result ℕ
index p i = elim (get_elem? p i) [ none ↦ err index_error | some b ↦ ok b ]

-- `payload[a:b]`
abbrev pub slice : Bytes → ℕ → ℕ → Bytes
slice p a b = take (b - a) (drop a p)

abbrev big_endian : ℕ → Bytes → ℕ
big_endian acc [] = acc
big_endian acc (b ∷ bs) = big_endian (acc * 256 + b) bs

-- `int.from_bytes(payload[a:a + 2], byteorder="big")`
unfoldable pub u16 : Bytes → ℕ → ℕ
u16 p a = big_endian 0 (slice p a (a + 2))

-- `n.to_bytes(2, "big")` and `n.to_bytes(3, "big")`.
abbrev pub to_bytes2 : ℕ → Result Bytes
to_bytes2 n = if ltb n 65536 then ok ((n / 256) ∷ (n % 256) ∷ []) else err overflow_error

abbrev pub to_bytes3 : ℕ → Result Bytes
to_bytes3 n =
    if ltb n 16777216
    then ok ((n / 65536) ∷ (n / 256 % 256) ∷ (n % 256) ∷ [])
    else err overflow_error

pub index_ok : (p : Bytes) (i : ℕ) → i < length p → (b : ℕ) × (index p i ≡ ok b)
unfolding index
index_ok p i h = let (b, e) = get_elem?-lt p i h in (b, rw (e, index))

pub index-append : (p q : Bytes) (i : ℕ) → i < length p → index (p ++ q) i ≡ index p i
unfolding index
index-append p q i h = rw (index, get_elem?-append p q i h)

pub slice-append : (p q : Bytes) (a b : ℕ) → a ≤ b → b ≤ length p → slice (p ++ q) a b ≡ slice p a b
slice-append p q a b h k =
    rw (drop-append a p q (omega arith))
      (take-append (b - a) (drop a p) q (omega (arith, length-drop a p)))

pub u16-append : (p q : Bytes) (a : ℕ) → a + 2 ≤ length p → u16 (p ++ q) a ≡ u16 p a
unfolding u16
u16-append p q a h = ap (big_endian 0) (slice-append p q a (a + 2) (omega arith) h)
