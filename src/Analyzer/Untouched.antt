-- ===== src/Analyzer/Untouched.antt =====
-- src/analyzer.py: what reading the text of a packet leaves of the counters and the tracker.
use dpi_engine_python.Analyzer.{
  PacketAnalyzer, note_sni, count_tls, note_host, note_hosts, note_agent_in, note_agent,
}
use dpi_engine_python.Analyzer.Loop.{
  count_request, path_in, note_path, status_in, note_response, read_text,
}
use dpi_engine_python.Bytes.{Bytes}
use dpi_engine_python.Dict.{Dict}
use dpi_engine_python.Http.{crlf}
use dpi_engine_python.Prelude.{
  ℕ, ◌+◌, ◌≡◌, refl, sym, ◌∙◌, inl, inr, Bool, true, false, ◌||◌, Option, none, some, List, [], ◌∷◌,
  Bool-cases, if◌then◌else◌,
}
use dpi_engine_python.Prelude.Eq.{◌==◌, nat_eq, list_eq}
use dpi_engine_python.Text.{Str, codes, starts_with, split, decode}
use dpi_engine_python.Tracker.{ConnectionTracker}

-- The part of the state that the text of a packet does not change.
pub record Core : Type 0 where
  pub protocol_count : Dict Str ℕ
  pub total_bytes : ℕ
  pub source_ip_count : Dict Str ℕ
  pub https_packet_count : ℕ
  pub connection_tracker : ConnectionTracker

abbrev pub core : PacketAnalyzer → Core
core a = record {
  protocol_count = a.protocol_count;
  total_bytes = a.total_bytes;
  source_ip_count = a.source_ip_count;
  https_packet_count = a.https_packet_count;
  connection_tracker = a.connection_tracker;
}

core-note_sni : (sni : Option Str) (a : PacketAnalyzer) → core (note_sni sni a) ≡ core a
unfolding note_sni
core-note_sni none a = refl
core-note_sni (some []) a = refl
core-note_sni (some (c ∷ cs)) a = refl

core-count_tls : (payload : Bytes) (a : PacketAnalyzer) → core (count_tls payload a) ≡ core a
unfolding count_tls
core-count_tls [] a = refl
core-count_tls (b ∷ bs) a = elim (Bool-cases (b == 0x16)) [
  | inl tls ↦ rw tls refl
  | inr other ↦ rw other refl
]

core-if : (b : Bool) (x y : PacketAnalyzer) → core x ≡ core y → core (if b then x else y) ≡ core y
core-if true x y e = e
core-if false x y e = refl

core-note_host : (line : Str) (a : PacketAnalyzer) → core (note_host line a) ≡ core a
unfolding note_host
core-note_host line a = core-if (starts_with line (codes "Host:")) _ a refl

core-note_hosts : (lines : List Str) (a : PacketAnalyzer) → core (note_hosts lines a) ≡ core a
unfolding note_hosts
core-note_hosts [] a = refl
core-note_hosts (line ∷ lines) a = core-note_hosts lines (note_host line a) ∙ core-note_host line a

core-note_agent_in : (rest : Option Str) (a : PacketAnalyzer) → core (note_agent_in rest a) ≡ core a
unfolding note_agent_in
core-note_agent_in none a = refl
core-note_agent_in (some rest) a = refl

core-count_request : (text : Str) (a : PacketAnalyzer) → core (count_request text a) ≡ core a
unfolding count_request
core-count_request text a = refl

core-path_in :
    (text : Str) (path : Option Str) (a : PacketAnalyzer) → core (path_in text path a) ≡ core a
unfolding path_in
core-path_in text none a = refl
core-path_in text (some path) a = core-count_request text _

core-note_path : (text : Str) (a : PacketAnalyzer) → core (note_path text a) ≡ core a
unfolding note_path
core-note_path text a =
    core-if (starts_with text (codes "GET") || starts_with text (codes "POST")) _
      (count_request text a) (core-path_in text _ a ∙ sym (core-count_request text a))
    ∙ core-count_request text a

core-status_in :
    (text : Str) (code : Option Str) (a : PacketAnalyzer) → core (status_in text code a) ≡ core a
unfolding status_in
core-status_in text none a = refl
core-status_in text (some code) a = core-note_path text _

core-note_response : (text : Str) (a : PacketAnalyzer) → core (note_response text a) ≡ core a
unfolding note_response
core-note_response text a =
    core-if (starts_with text (codes "HTTP/")) _ (note_path text a) (
      core-status_in text _ (record a { http_response_count = a.http_response_count + 1 })
      ∙ sym (core-note_path text a))
    ∙ core-note_path text a

core-read_text : (payload : Bytes) (a : PacketAnalyzer) → core (read_text payload a) ≡ core a
unfolding read_text note_agent
core-read_text payload a =
    let text = decode payload in
    core-note_response text _ ∙ core-note_agent_in _ _ ∙ core-note_hosts (split crlf text) a

-- The SNI, the TLS test and the text together.
pub core-payload :
    (sni : Option Str) (payload : Bytes) (a : PacketAnalyzer)
    → core (read_text payload (count_tls payload (note_sni sni a))) ≡ core a
core-payload sni payload a =
    core-read_text payload _ ∙ core-count_tls payload _ ∙ core-note_sni sni a
