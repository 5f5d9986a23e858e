-- ===== src/Sni/Total.antt =====
-- The reads and the loop of src/sni_extractor.py.
use dpi_engine_python.Bytes.{Bytes, index_ok, u16}
use dpi_engine_python.Prelude.{
  ℕ, zero, suc, ◌+◌, ◌<◌, ◌≡◌, refl, inl, inr, Option, none, [], ◌∷◌, arith, length, leb, ltb,
  Bool-cases, leb→le,
}
use dpi_engine_python.Prelude.Eq.{◌==◌, nat_eq}
use dpi_engine_python.Prelude.Result.{Result, ok}
use dpi_engine_python.Sni.{
  session_id_offset, extension_type_sni, server_name, walk, read_extensions, read_compression,
  read_ciphers, read_session, read_handshake, extract,
}
use dpi_engine_python.Text.{Str}

abbrev pub Returns : Result (Option Str) → Type 0
Returns r = (name : Option Str) × (r ≡ ok name)

-- Each round moves on by four bytes or more, so fuel for the bytes that are left is enough.
walk-Returns :
    (fuel : ℕ) (p : Bytes) (offset end : ℕ)
    → 0 < fuel
    → end < offset + fuel
    → Returns (walk fuel p offset end)
unfolding walk
walk-Returns zero p offset end some_fuel h = absurd (omega arith)
walk-Returns (suc fuel) p offset end some_fuel h = elim (Bool-cases (leb (offset + 4) end)) [
  | inr out ↦ (none, rw out)
  | inl more ↦
      let fits = leb→le (offset + 4) end more in
      elim (Bool-cases (u16 p offset == extension_type_sni)) [
        | inl found ↦ (server_name p offset, rw (more, found))
        | inr other ↦
            rw (more, other)
              (walk-Returns fuel p (offset + (4 + u16 p (offset + 2))) end (omega arith)
                (omega arith))
      ]
]

read_extensions-Returns : (p : Bytes) (offset : ℕ) → Returns (read_extensions p offset)
unfolding read_extensions
read_extensions-Returns p offset = elim (Bool-cases (ltb (length p) (offset + 2))) [
  | inl short ↦ (none, rw short)
  | inr long ↦ rw long (walk-Returns (suc (length p)) p _ _ (omega arith) (omega arith))
]

read_compression-Returns : (p : Bytes) (offset : ℕ) → Returns (read_compression p offset)
unfolding read_compression
read_compression-Returns p offset = elim (Bool-cases (leb (length p) offset)) [
  | inl short ↦ (none, rw short)
  | inr long ↦
      let (n, e) = index_ok p offset (ground arith) in rw (long, e) (read_extensions-Returns p _)
]

read_ciphers-Returns : (p : Bytes) (offset : ℕ) → Returns (read_ciphers p offset)
unfolding read_ciphers
read_ciphers-Returns p offset = elim (Bool-cases (ltb (length p) (offset + 2))) [
  | inl short ↦ (none, rw short)
  | inr long ↦ rw long (read_compression-Returns p _)
]

read_session-Returns : (p : Bytes) (offset : ℕ) → Returns (read_session p offset)
unfolding read_session
read_session-Returns p offset = elim (Bool-cases (leb (length p) offset)) [
  | inl short ↦ (none, rw short)
  | inr long ↦
      let (n, e) = index_ok p offset (ground arith) in rw (long, e) (read_ciphers-Returns p _)
]

read_handshake-Returns : (p : Bytes) → 5 < length p → Returns (read_handshake p)
unfolding read_handshake
read_handshake-Returns p h =
    let (b, e) = index_ok p 5 h in
    elim (Bool-cases (b == 0x01)) [
      | inl hello ↦ rw (e, hello) (read_session-Returns p session_id_offset)
      | inr other ↦ (none, rw (e, other))
    ]

-- Every payload, whatever its bytes, gets an answer: no index is out of range and the loop over
-- the extensions ends.
pub extract_total : (payload : Bytes) → (name : Option Str) × (extract payload ≡ ok name)
unfolding extract
extract_total [] = (none, refl)
extract_total (c ∷ cs) = elim (Bool-cases (ltb (length (c ∷ cs)) 6)) [
  | inl short ↦ (none, rw short)
  | inr long ↦
      let (b, e) = index_ok (c ∷ cs) 0 (omega arith) in
      elim (Bool-cases (b == 0x16)) [
        | inl tls ↦ rw (long, e, tls) (read_handshake-Returns (c ∷ cs) (ground arith))
        | inr other ↦ (none, rw (long, e, other))
      ]
]
