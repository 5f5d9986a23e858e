-- ===== src/Generator/Tests.antt =====
-- Instances of the theorems on the packets of generate_test_pcap.py, and runs.
use dpi_engine_python.Generator.{
  Generated, tls_domains, http_hosts, http_flows, encrypted, dns_queries, tls_flows,
}
use dpi_engine_python.Generator.Names.{domains_of, snis_in, parsed, snis_in-tls_flows}
use dpi_engine_python.Prelude.{◌≡◌, refl, List, [], ◌∷◌, ◌++◌, length, arith}
use dpi_engine_python.Prelude.Result.{ok}
use dpi_engine_python.Text.{Str, codes, encode_code}

abbrev two_domains : List (Str × Str)
two_domains =
    (codes "github.com", codes "140.82.114.4") ∷ (codes "zoom.us", codes "35.186.224.25") ∷ []

snis_in-tls_flows_example :
    (packets : List Generated) × (tls_flows 54000 two_domains ≡ ok packets)
    × (snis_in (parsed (λ p. 60) packets) ≡ domains_of two_domains)
unfolding encode_code
snis_in-tls_flows_example =
    snis_in-tls_flows (λ p. 60) 54000 two_domains
      (
        record { scalars = ground arith; filled = cc; short = omega arith },
        (record { scalars = ground arith; filled = cc; short = omega arith }, tt),
      )

-- Three packets for each TLS domain, two for each HTTP host, and the others.
sizes :
    (length tls_domains ≡ 16)
    × (length (http_flows 54016 http_hosts ++ encrypted 54018 0 21) ≡ 25)
    × (length (dns_queries 54039 4) ≡ 4)
unfolding tls_domains http_hosts http_flows encrypted dns_queries
sizes = (refl, refl, refl)
