-- ===== src/Sni/Sound.antt =====
-- What a name that the extractor finds is made of.
use dpi_engine_python.Bytes.{Bytes, index, slice, u16}
use dpi_engine_python.Prelude.{
  ℕ, zero, suc, ◌+◌, ◌≤◌, ◌≡◌, ◌≢◌, refl, min, ap, ◌∙◌, inl, inr, not, none, some, [], ◌∷◌, arith,
  length, leb, ltb, Bool-cases, if◌then◌else◌,
}
use dpi_engine_python.Prelude.Eq.{◌==◌, nat_eq, beq-eq-true}
use dpi_engine_python.Prelude.Result.{ok, >>=-eq-ok}
use dpi_engine_python.Sni.{
  extension_type_sni, session_id_offset, server_name, walk, read_extensions, read_compression,
  read_ciphers, read_session, read_handshake, extract,
}
use dpi_engine_python.Sni.Truncation.{passed, passed_name}
use dpi_engine_python.Text.{Str, decode, or_none, or_none-eq}

-- The extensions from `start` on that are read before `end`, each four bytes and as many as its length
-- says, lead to the one at `at`; those before it are of other types than server_name.
pub data Leads (p : Bytes) (end at : ℕ) : ℕ → Type 0 where
  here : at + 4 ≤ end → Leads p end at at
  next :
      {start : ℕ}
      → start + 4 ≤ end
      → u16 p start ≢ 0
      → Leads p end at (start + (4 + u16 p (start + 2)))
      → Leads p end at start

-- Where the extensions of a ClientHello start: after the session id at byte 43, the cipher suites
-- and the compression methods, which have their lengths in front, and two bytes for their own length.
pub record IsExtensionList (p : Bytes) (start end : ℕ) : Type 0 where
  pub session : ℕ
  pub methods : ℕ
  pub session_read : index p 43 ≡ ok session
  pub methods_read : index p (44 + session + (2 + u16 p (44 + session))) ≡ ok methods
  pub starts : start ≡ 44 + session + (2 + u16 p (44 + session)) + (1 + methods) + 2
  pub ends :
      end
      ≡ min (start + u16 p (44 + session + (2 + u16 p (44 + session)) + (1 + methods))) (length p)

-- `name` is the text, not empty, of the first server_name extension in the list of extensions, which
-- lies whole inside the payload: its type stands at `at`, the length of the name seven bytes on and
-- the name nine bytes on.
pub record IsServerName (p : Bytes) (name : Str) : Type 0 where
  pub start : ℕ
  pub end : ℕ
  pub at : ℕ
  pub extensions : IsExtensionList p start end
  pub leads : Leads p end at start
  pub typed : u16 p at ≡ 0
  pub inside : at + 9 + u16 p (at + 7) ≤ length p
  pub text : name ≡ decode (slice p (at + 9) (at + 9 + u16 p (at + 7)))
  pub filled : name ≢ []

module _ (p : Bytes) (s : Str) where
  -- The text of the extension at `at`.
  record IsTextAt (at : ℕ) : Type 0 where
    inside : at + 9 + u16 p (at + 7) ≤ length p
    text : s ≡ decode (slice p (at + 9) (at + 9 + u16 p (at + 7)))
    filled : s ≢ []

  server_name_sound : (offset : ℕ) → server_name p offset ≡ some s → IsTextAt offset
  unfolding server_name
  server_name_sound offset h =
      let start = offset + 4 + 5 in
      let stop = start + u16 p (offset + 4 + 3) in
      let name = or_none (decode (slice p start stop)) in
      let (long, r) =
        passed_name (ltb (length p) start) (if ltb (length p) stop then none else name) h in
      let (fits, r') = passed_name (ltb (length p) stop) name r in
      let (text, filled) = or_none-eq (decode (slice p start stop)) s r' in
      let a : offset + 9 ≡ start = omega arith in
      let b : offset + 7 ≡ offset + 4 + 3 = omega arith in
      record { inside = rw (a, b) (ground arith); text = rw (a, b) text; filled = filled }

  -- What the loop finds from an offset on.
  record IsFoundFrom (end offset : ℕ) : Type 0 where
    at : ℕ
    leads : Leads p end at offset
    typed : u16 p at ≡ 0
    found : IsTextAt at

  walk_sound : (fuel offset end : ℕ) → walk fuel p offset end ≡ ok (some s) → IsFoundFrom end offset
  unfolding walk
  walk_sound zero offset end h = absurd (cc)
  walk_sound (suc fuel) offset end h = elim (Bool-cases (leb (offset + 4) end)) [
    | inr out ↦ absurd (ground arith)
    | inl more ↦ elim (Bool-cases (u16 p offset == extension_type_sni)) [
      | inl found ↦ record {
        at = offset;
        leads = here (ground arith);
        typed = beq-eq-true (u16 p offset) 0 found;
        found = server_name_sound offset (ground arith);
      }
      | inr other ↦
          let later = walk_sound fuel (offset + (4 + u16 p (offset + 2))) end (ground arith) in
          record {
            at = later.at;
            leads = next (ground arith) (ground arith) later.leads;
            typed = later.typed;
            found = later.found;
          }
    ]
  ]

  -- A name in the extensions whose length stands at `offset`.
  IsFoundAt : ℕ → Type 0
  IsFoundAt offset = IsFoundFrom (min (offset + 2 + u16 p offset) (length p)) (offset + 2)

  read_extensions_sound : (offset : ℕ) → read_extensions p offset ≡ ok (some s) → IsFoundAt offset
  unfolding read_extensions IsFoundAt
  read_extensions_sound offset h =
      walk_sound (suc (length p)) (offset + 2) _ (passed (ltb (length p) (offset + 2)) _ h).1

  read_compression_sound :
      (offset : ℕ)
      → read_compression p offset ≡ ok (some s)
      → (methods : ℕ) × (index p offset ≡ ok methods) × IsFoundAt (offset + (1 + methods))
  unfolding read_compression
  read_compression_sound offset h =
      let (n, e, onward) = >>=-eq-ok (index p offset) _ (passed (leb (length p) offset) _ h).1 in
      (n, e, read_extensions_sound (offset + (1 + n)) onward)

  read_ciphers_sound :
      (offset : ℕ)
      → read_ciphers p offset ≡ ok (some s)
      → (methods : ℕ) × (index p (offset + (2 + u16 p offset)) ≡ ok methods)
        × IsFoundAt (offset + (2 + u16 p offset) + (1 + methods))
  unfolding read_ciphers
  read_ciphers_sound offset h =
      read_compression_sound (offset + (2 + u16 p offset))
        (passed (ltb (length p) (offset + 2)) _ h).1

  read_session_sound : read_session p session_id_offset ≡ ok (some s) → IsServerName p s
  unfolding read_session IsFoundAt
  read_session_sound h =
      let (n, e, onward) = >>=-eq-ok (index p 43) _ (passed (leb (length p) 43) _ h).1 in
      let (methods, read, found) = read_ciphers_sound (43 + (1 + n)) onward in
      let same : 44 + n ≡ 43 + (1 + n) = omega arith in
      record {
        start = _;
        end = _;
        at = found.at;
        extensions = record {
          session = n;
          methods = methods;
          session_read = e;
          methods_read = rw same read;
          starts = rw same refl;
          ends = rw same refl;
        };
        leads = found.leads;
        typed = found.typed;
        inside = found.found.inside;
        text = found.found.text;
        filled = found.found.filled;
      }

  read_handshake_sound : read_handshake p ≡ ok (some s) → (index p 5 ≡ ok 0x01) × IsServerName p s
  unfolding read_handshake
  read_handshake_sound h =
      let (b, e, onward) = >>=-eq-ok (index p 5) _ h in
      let (hello, r) = passed (not (b == 0x01)) (read_session p session_id_offset) onward in
      (e ∙ ap ok (ground arith), read_session_sound r)

-- A name is found only in a TLS handshake record (0x16) that holds a ClientHello (0x01), and it is
-- the text of the first server_name extension in the list of extensions of the ClientHello, which
-- lies whole inside the payload.
pub extract_sound :
    (p : Bytes) (s : Str)
    → extract p ≡ ok (some s)
    → (index p 0 ≡ ok 0x16) × (index p 5 ≡ ok 0x01) × IsServerName p s
unfolding extract
extract_sound [] s h = absurd (cc)
extract_sound (c ∷ cs) s h =
    let p = c ∷ cs in
    let (b, e, onward) = >>=-eq-ok (index p 0) _ (passed (ltb (length p) 6) _ h).1 in
    let (tls, r) = passed (not (b == 0x16)) (read_handshake p) onward in
    let (hello, found) = read_handshake_sound p s r in (e ∙ ap ok (ground arith), hello, found)
