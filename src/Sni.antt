-- ===== src/Sni.antt =====
-- src/sni_extractor.py: the server name in a TLS ClientHello.
pub mod Samples
pub mod Total
pub mod Truncation
pub mod Sound
mod Tests
use dpi_engine_python.Bytes.{Bytes, index, slice, u16}
use dpi_engine_python.Prelude.{
  ℕ, zero, suc, ◌+◌, not, Option, none, some, List, [], ◌∷◌, length, leb, ltb, min, if◌then◌else◌,
}
use dpi_engine_python.Prelude.Eq.{◌==◌, nat_eq}
use dpi_engine_python.Prelude.Result.{Result, ok, err, no_fuel, ◌>>=◌}
use dpi_engine_python.Text.{Str, decode, or_none}

abbrev pub session_id_offset : ℕ
session_id_offset = 43

abbrev pub extension_type_sni : ℕ
extension_type_sni = 0

-- The body of the test for a server_name extension that starts at `offset`.
unfoldable pub server_name : Bytes → ℕ → Option Str
server_name payload offset =
    let sni_offset = offset + 4 in
    if ltb (length payload) (sni_offset + 5)
    then none
    else let name_start = sni_offset + 5 in
      let name_end = name_start + u16 payload (sni_offset + 3) in
      if ltb (length payload) name_end
      then none
      else or_none (decode (slice payload name_start name_end))

-- The `while` loop over the extensions, on fuel.
unfoldable pub walk : ℕ → Bytes → ℕ → ℕ → Result (Option Str)
walk zero payload offset extensions_end = err no_fuel
walk (suc fuel) payload offset extensions_end =
    let rest = walk fuel payload (offset + (4 + u16 payload (offset + 2))) extensions_end in
    if leb (offset + 4) extensions_end
    then (if u16 payload offset == extension_type_sni
        then ok (server_name payload offset)
        else rest)
    else ok none

-- From the length of the extensions on. Each round passes over four bytes or more.
unfoldable pub read_extensions : Bytes → ℕ → Result (Option Str)
read_extensions payload offset =
    if ltb (length payload) (offset + 2)
    then ok none
    else let start = offset + 2 in
      let extensions_end = min (start + u16 payload offset) (length payload) in
      walk (suc (length payload)) payload start extensions_end

-- From the length of the compression methods on.
unfoldable pub read_compression : Bytes → ℕ → Result (Option Str)
read_compression payload offset =
    if leb (length payload) offset
    then ok none
    else do n ← index payload offset; read_extensions payload (offset + (1 + n))

-- From the length of the cipher suites on.
unfoldable pub read_ciphers : Bytes → ℕ → Result (Option Str)
read_ciphers payload offset =
    if ltb (length payload) (offset + 2)
    then ok none
    else read_compression payload (offset + (2 + u16 payload offset))

-- From the length of the session id on.
unfoldable pub read_session : Bytes → ℕ → Result (Option Str)
read_session payload offset =
    if leb (length payload) offset
    then ok none
    else do n ← index payload offset; read_ciphers payload (offset + (1 + n))

-- From the handshake type on, of a record of the handshake type.
unfoldable pub read_handshake : Bytes → Result (Option Str)
read_handshake payload = do
  handshake ← index payload 5
  if not (handshake == 0x01) then ok none else read_session payload session_id_offset

-- An empty payload is turned away by the test on its length too.
unfoldable pub extract : Bytes → Result (Option Str)
extract [] = ok none
extract payload = if ltb (length payload) 6 then ok none else do
  content ← index payload 0
  if not (content == 0x16) then ok none else read_handshake payload
