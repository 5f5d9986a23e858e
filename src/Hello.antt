-- ===== src/Hello.antt =====
-- generate_test_pcap.py: the ClientHello and the HTTP request that the generator writes.
pub mod RoundTrip
mod Tests
use dpi_engine_python.Bytes.{Bytes, to_bytes2, to_bytes3}
use dpi_engine_python.Prelude.{ℕ, List, [], ◌∷◌, ◌++◌, length, replicate, ltb, if◌then◌else◌}
use dpi_engine_python.Prelude.Result.{Result, ok, err, ◌>>=◌}
use dpi_engine_python.Text.{Str, encode, codes}

-- The server_name extension, with its type and length in front.
unfoldable pub sni_extension : Bytes → Result Bytes
sni_extension host = do
  host_length ← to_bytes2 (length host)
  let server_name_list = 0x00 ∷ (host_length ++ host)
  list_length ← to_bytes2 (length server_name_list)
  let extension_data = list_length ++ server_name_list
  data_length ← to_bytes2 (length extension_data)
  ok (0x00 ∷ 0x00 ∷ (data_length ++ extension_data))

-- Client version, random, an empty session id, one cipher suite and one compression method.
abbrev pub hello_prefix : Bytes
hello_prefix = 0x03 ∷ 0x03 ∷ (replicate 32 0 ++ 0x00 ∷ 0x00 ∷ 0x02 ∷ 0x00 ∷ 0x2f ∷ 0x01 ∷ 0x00 ∷ [])

unfoldable pub build_client_hello : Str → Result Bytes
unfolding sni_extension
build_client_hello domain = do
  extension ← sni_extension (encode domain)
  extensions_length ← to_bytes2 (length extension)
  let body = hello_prefix ++ extensions_length ++ extension
  body_length ← to_bytes3 (length body)
  let handshake = 0x01 ∷ (body_length ++ body)
  handshake_length ← to_bytes2 (length handshake)
  ok (0x16 ∷ 0x03 ∷ 0x01 ∷ (handshake_length ++ handshake))

-- The request that `build_packets` writes for a host, before it is encoded.
unfoldable pub http_request : Str → Str
http_request host =
    codes "GET / HTTP/1.1\r\nHost: " ++ (host ++ codes "\r\nUser-Agent: DPI-Test/1.0\r\n\r\n")
