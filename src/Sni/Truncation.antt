-- ===== src/Sni/Truncation.antt =====
-- src/sni_extractor.py on a payload that is cut short.
use dpi_engine_python.Bytes.{Bytes, index, index-append, slice, slice-append, u16, u16-append}
use dpi_engine_python.Prelude.{
  ℕ, zero, suc, ◌+◌, ◌≤◌, ◌<◌, ◌≡◌, refl, ap, inl, inr, Bool, true, false, not, Option, none, some,
  [], ◌∷◌, ◌++◌, arith, length, leb, ltb, Bool-cases, length-append, if◌then◌else◌,
}
use dpi_engine_python.Prelude.Eq.{◌==◌, nat_eq}
use dpi_engine_python.Prelude.Result.{Result, ok, >>=-eq-ok}
use dpi_engine_python.Sni.{
  extension_type_sni, session_id_offset, server_name, walk, read_extensions, read_compression,
  read_ciphers, read_session, read_handshake, extract,
}
use dpi_engine_python.Text.{Str, decode, or_none}

-- A guard of the form `if short: return None`, passed on the way to a name.
pub passed :
    (b : Bool) (r : Result (Option Str)) {s : Str}
    → (if b then ok none else r) ≡ ok (some s)
    → (b ≡ false) × (r ≡ ok (some s))
passed true r h = absurd (cc)
passed false r h = (refl, h)

pub passed_name :
    (b : Bool) (r : Option Str) {s : Str}
    → (if b then none else r) ≡ some s
    → (b ≡ false) × (r ≡ some s)
passed_name true r h = absurd (cc)
passed_name false r h = (refl, h)

module _ (p q : Bytes) (s : Str) where
  server_name-append :
      (offset : ℕ) → server_name p offset ≡ some s → server_name (p ++ q) offset ≡ some s
  unfolding server_name
  server_name-append offset h =
      let start = offset + 4 + 5 in
      let stop = start + u16 p (offset + 4 + 3) in
      let name = or_none (decode (slice p start stop)) in
      let (long, r) =
        passed_name (ltb (length p) start) (if ltb (length p) stop then none else name) h in
      let (fits, r') = passed_name (ltb (length p) stop) name r in
      let longer : ltb (length (p ++ q)) start ≡ false = ground (arith, length-append p q) in
      let fits' : ltb (length (p ++ q)) stop ≡ false = ground (arith, length-append p q) in
      rw (longer, u16-append p q (offset + 4 + 3) (ground arith), fits')
        (rw (slice-append p q start stop (omega arith) (ground arith)) r')

  walk-append :
      (fuel fuel' offset end end' : ℕ)
      → walk fuel p offset end ≡ ok (some s)
      → fuel ≤ fuel'
      → end ≤ length p
      → end ≤ end'
      → walk fuel' (p ++ q) offset end' ≡ ok (some s)
  unfolding walk
  walk-append zero fuel' offset end end' h f e e' = absurd (cc)
  walk-append (suc fuel) zero offset end end' h f e e' = absurd (omega arith)
  walk-append (suc fuel) (suc fuel') offset end end' h f e e' =
      let next = offset + (4 + u16 p (offset + 2)) in
      elim (Bool-cases (leb (offset + 4) end)) [
        | inr out ↦ absurd (ground arith)
        | inl more ↦
            let more' : leb (offset + 4) end' ≡ true = ground arith in
            let same = u16-append p q offset (ground arith) in
            let same' = u16-append p q (offset + 2) (ground arith) in
            elim (Bool-cases (u16 p offset == extension_type_sni)) [
              | inl found ↦
                  let name : server_name p offset ≡ some s = ground arith in
                  rw (more', same, found) (ap ok (server_name-append offset name))
              | inr other ↦
                  let later : walk fuel p next end ≡ ok (some s) = ground arith in
                  rw (more', same, other, same')
                    (walk-append fuel fuel' next end end' later (omega arith) e e')
            ]
      ]

  read_extensions-append :
      (offset : ℕ)
      → read_extensions p offset ≡ ok (some s)
      → read_extensions (p ++ q) offset ≡ ok (some s)
  unfolding read_extensions
  read_extensions-append offset h =
      let (long, r) = passed (ltb (length p) (offset + 2)) _ h in
      let longer : ltb (length (p ++ q)) (offset + 2) ≡ false = ground (arith, length-append p q) in
      rw (longer, u16-append p q offset (ground arith))
        (walk-append (suc (length p)) (suc (length (p ++ q))) (offset + 2) _ _ r
          (omega (arith, length-append p q)) (omega arith) (omega (arith, length-append p q)))

  read_compression-append :
      (offset : ℕ)
      → read_compression p offset ≡ ok (some s)
      → read_compression (p ++ q) offset ≡ ok (some s)
  unfolding read_compression
  read_compression-append offset h =
      let (long, r) = passed (leb (length p) offset) _ h in
      let longer : leb (length (p ++ q)) offset ≡ false = ground (arith, length-append p q) in
      let (n, e, next) = >>=-eq-ok (index p offset) _ r in
      rw (longer, index-append p q offset (ground arith), e) (read_extensions-append _ next)

  read_ciphers-append :
      (offset : ℕ)
      → read_ciphers p offset ≡ ok (some s)
      → read_ciphers (p ++ q) offset ≡ ok (some s)
  unfolding read_ciphers
  read_ciphers-append offset h =
      let (long, r) = passed (ltb (length p) (offset + 2)) _ h in
      let longer : ltb (length (p ++ q)) (offset + 2) ≡ false = ground (arith, length-append p q) in
      rw (longer, u16-append p q offset (ground arith)) (read_compression-append _ r)

  read_session-append :
      (offset : ℕ)
      → read_session p offset ≡ ok (some s)
      → read_session (p ++ q) offset ≡ ok (some s)
  unfolding read_session
  read_session-append offset h =
      let (long, r) = passed (leb (length p) offset) _ h in
      let longer : leb (length (p ++ q)) offset ≡ false = ground (arith, length-append p q) in
      let (n, e, next) = >>=-eq-ok (index p offset) _ r in
      rw (longer, index-append p q offset (ground arith), e) (read_ciphers-append _ next)

  read_handshake-append :
      5 < length p → read_handshake p ≡ ok (some s) → read_handshake (p ++ q) ≡ ok (some s)
  unfolding read_handshake
  read_handshake-append long h =
      let (b, e, next) = >>=-eq-ok (index p 5) _ h in
      let (hello, r) = passed (not (b == 0x01)) (read_session p session_id_offset) next in
      rw (index-append p q 5 long, e, hello) (read_session-append session_id_offset r)

-- If the extractor finds a name in the first bytes of a payload, it finds the same name in the
-- whole payload; so a capture that is cut short yields the right name or none.
pub extract-append :
    (p q : Bytes) (s : Str) → extract p ≡ ok (some s) → extract (p ++ q) ≡ ok (some s)
unfolding extract
extract-append [] q s h = absurd (cc)
extract-append (c ∷ cs) q s h =
    let p = c ∷ cs in
    let (long, r) = passed (ltb (length p) 6) _ h in
    let longer : ltb (length (p ++ q)) 6 ≡ false = ground (arith, length-append p q) in
    let (b, e, next) = >>=-eq-ok (index p 0) _ r in
    let (tls, found) = passed (not (b == 0x16)) (read_handshake p) next in
    rw (longer, index-append p q 0 (omega arith), e, tls)
      (read_handshake-append p q s (ground arith) found)
