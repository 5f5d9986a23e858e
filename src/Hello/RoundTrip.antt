-- ===== src/Hello/RoundTrip.antt =====
-- The extractor of src/sni_extractor.py on the ClientHello of generate_test_pcap.py.
use dpi_engine_python.Bytes.{Bytes, index, slice, u16, to_bytes2, to_bytes3}
use dpi_engine_python.Hello.{hello_prefix, build_client_hello}
use dpi_engine_python.Prelude.{
  ℕ, zero, suc, ◌+◌, ◌-◌, ◌/◌, ◌%◌, ◌<◌, ◌≡◌, ◌≢◌, refl, ap, true, false, some, List, [], ◌∷◌, ◌++◌,
  arith, length, leb, ltb, min, take, All, lt→ltb,
}
use dpi_engine_python.Prelude.Eq.{nat_eq}
use dpi_engine_python.Prelude.Result.{ok, ◌>>=◌}
use dpi_engine_python.Sni.{
  server_name, walk, read_extensions, read_compression, read_ciphers, read_session, read_handshake,
  extract,
}
use dpi_engine_python.Text.{Str, or_none, or_none_filled, decode, encode, IsScalar, decode-encode}

-- `k` successors: what the length of a list with `k` known entries computes to.
abbrev sucs : ℕ → ℕ → ℕ
sucs zero n = n
sucs (suc k) n = suc (sucs k n)

sucs-eq-add : (k n : ℕ) → sucs k n ≡ n + k
sucs-eq-add zero n = omega arith
sucs-eq-add (suc k) n = omega (arith, sucs-eq-add k n)

take-length : {A : Type 0} (xs : List A) → take (length xs) xs ≡ xs
take-length [] = refl
take-length (x ∷ xs) = ap (◌∷◌ x) (take-length xs)

-- What the extractor looks at in a ClientHello of the generator's shape.
record IsPlainHello (p host : Bytes) : Type 0 where
  size : length p ≡ 61 + length host
  content : index p 0 ≡ ok 0x16
  handshake : index p 5 ≡ ok 0x01
  session : index p 43 ≡ ok 0
  ciphers : u16 p 44 ≡ 2
  compression : index p 48 ≡ ok 1
  extensions : u16 p 50 ≡ length host + 9
  typed : u16 p 52 ≡ 0
  named : u16 p 59 ≡ length host
  text : slice p 61 (61 + length host) ≡ host

module _ (p host : Bytes) (name : Str) (h : IsPlainHello p host)
    (e : or_none (decode host) ≡ some name) where
  server_name_plain : server_name p 52 ≡ some name
  unfolding server_name
  server_name_plain =
      let long : ltb (length p) 61 ≡ false = ground (arith, h.size) in
      let fits : ltb (length p) (61 + length host) ≡ false = ground (arith, h.size) in
      rw (long, h.named, fits, h.text) e

  read_extensions_plain : read_extensions p 50 ≡ ok (some name)
  unfolding read_extensions walk
  read_extensions_plain =
      let long : ltb (length p) 52 ≡ false = ground (arith, h.size) in
      let more : leb 56 (min (52 + u16 p 50) (length p)) ≡ true =
        ground (arith, h.size, h.extensions) in
      rw (long, more, h.typed) (ap ok server_name_plain)

  read_session_plain : read_session p 43 ≡ ok (some name)
  unfolding read_session read_ciphers read_compression
  read_session_plain =
      let a : leb (length p) 43 ≡ false = ground (arith, h.size) in
      let b : ltb (length p) 46 ≡ false = ground (arith, h.size) in
      let c : leb (length p) 48 ≡ false = ground (arith, h.size) in
      rw (a, h.session, b, h.ciphers, c, h.compression) read_extensions_plain

  read_handshake_plain : read_handshake p ≡ ok (some name)
  unfolding read_handshake
  read_handshake_plain = rw h.handshake read_session_plain

extract_plain :
    (p host : Bytes) (name : Str)
    → IsPlainHello p host
    → or_none (decode host) ≡ some name
    → extract p ≡ ok (some name)
unfolding extract
extract_plain [] host name h e = absurd (omega (arith, h.size))
extract_plain (c ∷ cs) host name h e =
    let long : ltb (length (c ∷ cs)) 6 ≡ false = ground (arith, h.size) in
    rw (long, h.content) (read_handshake_plain (c ∷ cs) host name h e)

-- The generator's record: `n1`, `n2`, ... are the lengths that it writes.
abbrev plain_hello : (n1 n2 n3 n4 n5 n6 : ℕ) → Bytes → Bytes
plain_hello n1 n2 n3 n4 n5 n6 host =
    0x16
    ∷ 0x03
    ∷ 0x01
    ∷ (n1 / 256)
    ∷ (n1 % 256)
    ∷ 0x01
    ∷ (n2 / 65536)
    ∷ (n2 / 256 % 256)
    ∷ (n2 % 256)
    ∷ (hello_prefix
        ++ (n3 / 256)
          ∷ (n3 % 256)
          ∷ 0x00
          ∷ 0x00
          ∷ (n4 / 256)
          ∷ (n4 % 256)
          ∷ (n5 / 256)
          ∷ (n5 % 256)
          ∷ 0x00
          ∷ (n6 / 256)
          ∷ (n6 % 256)
          ∷ host)

module _ (n1 n2 n4 n5 : ℕ) (host : Bytes) where
  abbrev made : Bytes
  made = plain_hello n1 n2 (length host + 9) n4 n5 (length host) host

  text_of_made : slice made 61 (61 + length host) ≡ host
  text_of_made =
      let span : 61 + length host - 61 ≡ length host = omega arith in rw span (take-length host)

  made-IsPlainHello : IsPlainHello made host
  unfolding index u16
  made-IsPlainHello = record {
    size = omega arith;
    content = refl;
    handshake = refl;
    session = refl;
    ciphers = refl;
    compression = refl;
    extensions = omega arith;
    typed = refl;
    named = omega arith;
    text = text_of_made;
  }

to_bytes2_fits : (m n : ℕ) → m ≡ n → n < 65536 → to_bytes2 m ≡ ok ((n / 256) ∷ (n % 256) ∷ [])
to_bytes2_fits m n e h = rw (e, lt→ltb n 65536 h)

to_bytes3_fits :
    (m n : ℕ)
    → m ≡ n
    → n < 16777216
    → to_bytes3 m ≡ ok ((n / 65536) ∷ (n / 256 % 256) ∷ (n % 256) ∷ [])
to_bytes3_fits m n e h = rw (e, lt→ltb n 16777216 h)

build_plain :
    (domain : Str)
    → length (encode domain) < 65480
    → (n1 n2 n4 n5 : ℕ) × (build_client_hello domain ≡ ok (made n1 n2 n4 n5 (encode domain)))
unfolding build_client_hello
build_plain domain h =
    let n = length (encode domain) in
    (
      n + 56,
      n + 52,
      n + 5,
      n + 3,
      rw (to_bytes2_fits n n refl (omega arith)) (
          rw (to_bytes2_fits (sucs 3 n) (n + 3) (sucs-eq-add 3 n) (omega arith)) (
            rw (to_bytes2_fits (sucs 5 n) (n + 5) (sucs-eq-add 5 n) (omega arith)) (
              rw (to_bytes2_fits (sucs 9 n) (n + 9) (sucs-eq-add 9 n) (omega arith)) (
                rw (to_bytes3_fits (sucs 52 n) (n + 52) (sucs-eq-add 52 n) (omega arith))
                  (rw (to_bytes2_fits (sucs 56 n) (n + 56) (sucs-eq-add 56 n) (omega arith))))))),
    )

-- The extractor finds in the generated ClientHello the very name that was put in, for every name
-- that is not empty, can be encoded and takes fewer than 65480 bytes.
pub extract-build_client_hello :
    (domain : Str)
    → All IsScalar domain
    → domain ≢ []
    → length (encode domain) < 65480
    → (build_client_hello domain >>= extract) ≡ ok (some domain)
extract-build_client_hello domain scalars filled short =
    let (n1, n2, n4, n5, built) = build_plain domain short in
    rw built (
      extract_plain (made n1 n2 n4 n5 (encode domain)) (encode domain) domain
        (made-IsPlainHello n1 n2 n4 n5 (encode domain))
        (rw (decode-encode domain scalars) (or_none_filled domain filled)))
