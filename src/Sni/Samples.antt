-- ===== src/Sni/Samples.antt =====
-- A ClientHello for a.io, as the generator writes it.
use dpi_engine_python.Bytes.{Bytes}
use dpi_engine_python.Prelude.{[], ◌∷◌}

abbrev pub hello_bytes : Bytes
hello_bytes =
    0x16 ∷ 0x03 ∷ 0x01 ∷ 0x00 ∷ 0x3c ∷ 0x01 ∷ 0x00 ∷ 0x00 ∷ 0x38 ∷ 0x03 ∷ 0x03 ∷ 0x00 ∷ 0x00 ∷ 0x00
    ∷ 0x00 ∷ 0x00 ∷ 0x00 ∷ 0x00 ∷ 0x00 ∷ 0x00 ∷ 0x00 ∷ 0x00 ∷ 0x00 ∷ 0x00 ∷ 0x00 ∷ 0x00 ∷ 0x00
    ∷ 0x00 ∷ 0x00 ∷ 0x00 ∷ 0x00 ∷ 0x00 ∷ 0x00 ∷ 0x00 ∷ 0x00 ∷ 0x00 ∷ 0x00 ∷ 0x00 ∷ 0x00 ∷ 0x00
    ∷ 0x00 ∷ 0x00 ∷ 0x00 ∷ 0x00 ∷ 0x00 ∷ 0x02 ∷ 0x00 ∷ 0x2f ∷ 0x01 ∷ 0x00 ∷ 0x00 ∷ 0x0d ∷ 0x00
    ∷ 0x00 ∷ 0x00 ∷ 0x09 ∷ 0x00 ∷ 0x07 ∷ 0x00 ∷ 0x00 ∷ 0x04 ∷ 0x61 ∷ 0x2e ∷ 0x69 ∷ 0x6f ∷ []
