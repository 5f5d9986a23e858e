-- ===== src/Http/Tests.antt =====
-- Runs of src/http_host_extractor.py, and instances of its theorems.
use dpi_engine_python.Bytes.{Bytes}
use dpi_engine_python.Http.{crlf, host_of_line, first_host, extract}
use dpi_engine_python.Http.Headers.{Answers, extract-Answers}
use dpi_engine_python.Prelude.{◌≡◌, refl, none, some}
use dpi_engine_python.Text.{codes, decode, split, strip, is_space, lower_code}

abbrev request : Bytes
request = codes "GET / HTTP/1.1\r\nhost:  a.io \r\nHost: b.io\r\n\r\n"

extract-request : extract request ≡ some (codes "a.io")
unfolding extract first_host host_of_line lower_code decode split strip is_space
extract-request = refl

extract_nothing : extract (codes "HTTP/1.1 200 OK\r\n\r\n") ≡ none
unfolding extract first_host host_of_line lower_code decode split strip is_space
extract_nothing = refl

extract-Answers_example : Answers (split crlf (decode request)) (extract request)
extract-Answers_example = extract-Answers request

strip_host : strip (codes "a.io") ≡ codes "a.io"
unfolding strip is_space
strip_host = refl
