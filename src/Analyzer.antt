-- ===== src/Analyzer.antt =====
-- src/analyzer.py: the statistics over parsed packets.
pub mod Loop
pub mod Untouched
pub mod Counts
pub mod Totals
pub mod Keys
mod Tests
use dpi_engine_python.Bytes.{Bytes, index}
use dpi_engine_python.Dict.{Dict, get, put, values}
use dpi_engine_python.Http.{crlf}
use dpi_engine_python.Packet.{ParsedPacket}
use dpi_engine_python.Prelude.{
  ℕ, ◌+◌, Bool, true, false, ◌&&◌, ◌||◌, Option, none, some, List, [], ◌∷◌, ◌++◌, get_elem?, ltb,
  if◌then◌else◌,
}
use dpi_engine_python.Prelude.Eq.{Equality, ◌==◌, nat_eq, list_eq, option_eq, contains}
use dpi_engine_python.Prelude.Result.{Result, ok, err}
use dpi_engine_python.Rules.{default_blocked_domains}
use dpi_engine_python.Sni
use dpi_engine_python.Text.{Str, codes, lower, truthy, starts_with, strip, split, remove, decode}
use dpi_engine_python.Tracker.{ConnectionTracker, get_or_create_flow, create_five_tuple, or_zero}
use dpi_engine_python.Types.{app_name, FiveTuple, five_tuple_eq, Flow}

-- An entry of `sni_application_report`.
pub record SniReport : Type 0 where
  pub sni : Option Str
  pub application : Str
  pub blocked : Bool

-- `connection_tracker` is the tracker that the caller shares.
pub record PacketAnalyzer : Type 0 where
  pub http_packet_count : ℕ
  pub https_packet_count : ℕ
  pub tls_handshake_count : ℕ
  pub http_method_count : Dict Str ℕ
  pub http_hosts : List Str
  pub user_agents : List Str
  pub http_paths : List Str
  pub protocol_count : Dict Str ℕ
  pub total_bytes : ℕ
  pub unique_source_ips : List Str
  pub source_ip_count : Dict Str ℕ
  pub destination_port_count : Dict ℕ ℕ
  pub service_count : Dict Str ℕ
  pub application_count : Dict Str ℕ
  pub top_service : Option Str
  pub http_status_codes : Dict Str ℕ
  pub http_response_count : ℕ
  pub http_host_count : Dict Str ℕ
  pub user_agent_count : Dict Str ℕ
  pub sni_domains : List Str
  pub sni_application_report : List SniReport
  pub connection_tracker : ConnectionTracker
  pub suspicious_domains : List Str

abbrev pub packet_analyzer : ConnectionTracker → PacketAnalyzer
packet_analyzer tracker = record {
  http_packet_count = 0;
  https_packet_count = 0;
  tls_handshake_count = 0;
  http_method_count = (codes "GET", 0) ∷ (codes "POST", 0) ∷ [];
  http_hosts = [];
  user_agents = [];
  http_paths = [];
  protocol_count = (codes "TCP", 0) ∷ (codes "UDP", 0) ∷ (codes "ICMP", 0) ∷ [];
  total_bytes = 0;
  unique_source_ips = [];
  source_ip_count = [];
  destination_port_count = [];
  service_count = [];
  application_count = [];
  top_service = none;
  http_status_codes = [];
  http_response_count = 0;
  http_host_count = [];
  user_agent_count = [];
  sni_domains = [];
  sni_application_report = [];
  connection_tracker = tracker;
  suspicious_domains = [];
}

-- `self.blacklist`
abbrev blacklist : List Str
blacklist =
    codes "malicious.com"
    ∷ codes "phishing.com"
    ∷ codes "evil-site.net"
    ∷ codes "fake-login.com"
    ∷ []

-- `if k not in d: d[k] = 0`, then `d[k] += 1`.
unfoldable pub bump : {K : Type 0} ⦃e : Equality K⦄ → Dict K ℕ → K → Dict K ℕ
bump d k = put d k (or_zero (get d k) + 1)

-- `service_map.get(port)`
unfoldable pub service_of : ℕ → Option Str
service_of port =
    if port == 80
    then some (codes "HTTP")
    else if port == 443
    then some (codes "HTTPS")
    else if port == 53
    then some (codes "DNS")
    else if port == 22
    then some (codes "SSH")
    else if port == 21
    then some (codes "FTP")
    else if port == 25
    then some (codes "SMTP")
    else none

-- The bytes of the packet and its source.
unfoldable pub count_source : Option Str → PacketAnalyzer → PacketAnalyzer
count_source (some (c ∷ cs)) a = record a {
  unique_source_ips =
      if contains (c ∷ cs) a.unique_source_ips
      then a.unique_source_ips
      else a.unique_source_ips ++ (c ∷ cs) ∷ [];
  source_ip_count = bump a.source_ip_count (c ∷ cs);
}
count_source _ a = a

unfoldable pub service_in : Option Str → PacketAnalyzer → PacketAnalyzer
service_in none a = a
service_in (some service) a = record a { service_count = bump a.service_count service }

unfoldable pub count_service : Option ℕ → PacketAnalyzer → PacketAnalyzer
count_service none a = a
count_service (some port) a = service_in (service_of port) a

-- The name of the flow, in the lists of names.
unfoldable pub note_sni : Option Str → PacketAnalyzer → PacketAnalyzer
note_sni (some (c ∷ cs)) a = record a {
  sni_domains = a.sni_domains ++ (c ∷ cs) ∷ [];
  suspicious_domains =
      if contains (lower (c ∷ cs)) blacklist
      then a.suspicious_domains ++ (c ∷ cs) ∷ []
      else a.suspicious_domains;
}
note_sni _ a = a

unfoldable pub count_tls : Bytes → PacketAnalyzer → PacketAnalyzer
count_tls [] a = a
count_tls (b ∷ bs) a =
    if b == 0x16 then record a { tls_handshake_count = a.tls_handshake_count + 1 } else a

-- A line that starts with "Host:".
unfoldable pub note_host : Str → PacketAnalyzer → PacketAnalyzer
note_host line a =
    let host = strip (remove (codes "Host:") line) in
    if starts_with line (codes "Host:")
    then record a {
      http_hosts = a.http_hosts ++ host ∷ [];
      http_host_count = bump a.http_host_count host;
    }
    else a

-- The loop over the lines.
unfoldable pub note_hosts : List Str → PacketAnalyzer → PacketAnalyzer
note_hosts [] a = a
note_hosts (line ∷ lines) a = note_hosts lines (note_host line a)

abbrev first_piece : List Str → Str
first_piece [] = []
first_piece (piece ∷ pieces) = piece

-- With the text that follows the first "User-Agent:".
unfoldable pub note_agent_in : Option Str → PacketAnalyzer → PacketAnalyzer
note_agent_in none a = a
note_agent_in (some rest) a =
    let user_agent = strip (first_piece (split crlf rest)) in
    record a {
      user_agents = a.user_agents ++ user_agent ∷ [];
      user_agent_count = bump a.user_agent_count user_agent;
    }

-- "User-Agent:" is in the text exactly when the text splits there into two pieces or more.
unfoldable pub note_agent : Str → PacketAnalyzer → PacketAnalyzer
note_agent text a = note_agent_in (get_elem? (split (codes "User-Agent:") text) 1) a
