-- ===== src/Sni/Tests.antt =====
-- Runs of src/sni_extractor.py, and instances of its theorems.
use dpi_engine_python.Bytes.{index, u16}
use dpi_engine_python.Prelude.{◌≡◌, refl, Option, none, some, [], ◌∷◌, ◌++◌}
use dpi_engine_python.Prelude.Result.{ok}
use dpi_engine_python.Sni.{
  server_name, walk, read_extensions, read_compression, read_ciphers, read_session, read_handshake,
  extract,
}
use dpi_engine_python.Sni.Samples.{hello_bytes}
use dpi_engine_python.Sni.Sound.{IsServerName, extract_sound}
use dpi_engine_python.Sni.Total.{extract_total}
use dpi_engine_python.Sni.Truncation.{extract-append}
use dpi_engine_python.Text.{Str, codes, decode}

extract_hello : extract hello_bytes ≡ ok (some (codes "a.io"))
unfolding extract read_handshake read_session read_ciphers read_compression read_extensions walk
    server_name index u16 decode
extract_hello = refl

extract_plain : extract (codes "GET / HTTP/1.1") ≡ ok none
unfolding extract index
extract_plain = refl

extract_total_example : (name : Option Str) × (extract hello_bytes ≡ ok name)
extract_total_example = extract_total hello_bytes

extract-append_example : extract (hello_bytes ++ 0x17 ∷ 0x03 ∷ []) ≡ ok (some (codes "a.io"))
extract-append_example = extract-append hello_bytes (0x17 ∷ 0x03 ∷ []) (codes "a.io") extract_hello

extract_sound_example :
    (index hello_bytes 0 ≡ ok 0x16)
    × (index hello_bytes 5 ≡ ok 0x01)
    × IsServerName hello_bytes (codes "a.io")
extract_sound_example = extract_sound hello_bytes (codes "a.io") extract_hello
