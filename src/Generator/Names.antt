-- ===== src/Generator/Names.antt =====
-- The names in the generated TLS flows, as the rest of the program reads them.
use dpi_engine_python.Bytes.{Bytes}
use dpi_engine_python.Generator.{Generated, generated_scapy, tls_flow, tls_flows}
use dpi_engine_python.Hello.{build_client_hello}
use dpi_engine_python.Hello.RoundTrip.{extract-build_client_hello}
use dpi_engine_python.Packet.{ParsedPacket, parse}
use dpi_engine_python.Prelude.{
  ℕ, ◌+◌, ◌<◌, ◌≡◌, ◌≢◌, refl, ap, ◌∙◌, Option, none, some, List, [], ◌∷◌, ◌++◌, map, length, All,
}
use dpi_engine_python.Prelude.Result.{Result, ok, >>=-eq-ok}
use dpi_engine_python.Processor.{payload_of}
use dpi_engine_python.Sni
use dpi_engine_python.Text.{Str, encode, IsScalar}

abbrev with_name : Result (Option Str) → List Str → List Str
with_name (ok (some name)) names = name ∷ names
with_name _ names = names

-- The names that the SNI extractor finds in packets, in order.
abbrev pub snis_in : List ParsedPacket → List Str
snis_in [] = []
snis_in (p ∷ packets) = with_name (Sni.extract (payload_of p)) (snis_in packets)

-- A name that fits into a ClientHello.
pub record IsHost (domain : Str) : Type 0 where
  pub scalars : All IsScalar domain
  pub filled : domain ≢ []
  pub short : length (encode domain) < 65480

abbrev pub IsHosts : List (Str × Str) → Type 0
IsHosts [] = Unit
IsHosts ((domain, server_ip) ∷ domains) = IsHost domain × IsHosts domains

abbrev pub domains_of : List (Str × Str) → List Str
domains_of domains = map (λ d. d.0) domains

no_name : Sni.extract [] ≡ ok none
unfolding Sni.extract
no_name = refl

module _ (len : Generated → ℕ) where
  abbrev pub parsed : List Generated → List ParsedPacket
  parsed packets = map (parse (generated_scapy len)) packets

  snis_in-tls_flow :
      (port : ℕ) (domain server_ip : Str) (hello : Bytes) (rest : List Generated)
      → Sni.extract hello ≡ ok (some domain)
      → snis_in (parsed (tls_flow port domain server_ip hello ++ rest))
        ≡ domain ∷ snis_in (parsed rest)
  unfolding tls_flow parse
  snis_in-tls_flow port domain server_ip hello rest h = rw (no_name, h) refl

  -- For any domains that fit into a ClientHello the generator has its packets, and the names that the
  -- parser and the SNI extractor find in them are these domains, each once and in order.
  pub snis_in-tls_flows :
      (port : ℕ) (domains : List (Str × Str))
      → IsHosts domains
      → (packets : List Generated) × (tls_flows port domains ≡ ok packets)
        × (snis_in (parsed packets) ≡ domains_of domains)
  unfolding tls_flows
  snis_in-tls_flows port [] hosts = ([], refl, refl)
  snis_in-tls_flows port ((domain, server_ip) ∷ domains) (host, hosts) =
      let (hello, built, found) =
        >>=-eq-ok (build_client_hello domain) Sni.extract
          (extract-build_client_hello domain host.scalars host.filled host.short) in
      let (rest, made, names) = snis_in-tls_flows (port + 1) domains hosts in
      (
        tls_flow (port + 1) domain server_ip hello ++ rest,
        rw (built, made) refl,
        snis_in-tls_flow (port + 1) domain server_ip hello rest found ∙ ap (λ l. domain ∷ l) names,
      )
