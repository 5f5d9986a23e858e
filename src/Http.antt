-- ===== src/Http.antt =====
-- src/http_host_extractor.py: the Host header of a plain HTTP request.
pub mod Headers
mod Tests
use dpi_engine_python.Bytes.{Bytes}
use dpi_engine_python.Prelude.{Option, none, some, List, [], ◌∷◌, drop, if◌then◌else◌}
use dpi_engine_python.Text.{Str, codes, lower, strip, starts_with, split, decode, or_none}

abbrev pub crlf : Str
crlf = 0x0d ∷ 0x0a ∷ []

-- The body of the loop over the lines: the host to return, if this line gives one.
unfoldable pub host_of_line : Str → Option Str
host_of_line line =
    if starts_with (lower line) (codes "host:") then or_none (strip (drop 5 line)) else none

unfoldable pub first_host : List Str → Option Str
first_host [] = none
first_host (line ∷ lines) = elim (host_of_line line) [
  | some host ↦ some host
  | none ↦ first_host lines
]

-- Decoding with errors ignored never raises, so the `except` is never taken.
unfoldable pub extract : Bytes → Option Str
extract [] = none
extract payload = first_host (split crlf (decode payload))
