-- ===== src/Hello/Tests.antt =====
-- An instance of the round trip of generate_test_pcap.py.
use dpi_engine_python.Hello.{build_client_hello}
use dpi_engine_python.Hello.RoundTrip.{extract-build_client_hello}
use dpi_engine_python.Prelude.{◌<◌, ◌≡◌, refl, some, arith, length}
use dpi_engine_python.Prelude.Result.{ok, ◌>>=◌}
use dpi_engine_python.Sni.{extract}
use dpi_engine_python.Sni.Samples.{hello_bytes}
use dpi_engine_python.Text.{codes, encode, encode_code}

build_hello : build_client_hello (codes "a.io") ≡ ok hello_bytes
unfolding build_client_hello encode_code
build_hello = refl

short_name : length (encode (codes "a.io")) < 65480
unfolding encode_code
short_name = omega arith

extract-build_client_hello_example :
    (build_client_hello (codes "a.io") >>= extract) ≡ ok (some (codes "a.io"))
extract-build_client_hello_example =
    extract-build_client_hello (codes "a.io") (omega arith) (λ e. cc) short_name
