-- ===== src/Packet.antt =====
-- src/packet_parser.py: what the program keeps of a packet. Scapy's packet is a parameter: the code
-- only asks it for its length and its layers.
pub mod Samples
mod Tests
use dpi_engine_python.Prelude.{ℕ, Option, none, some, List, ◌||◌, if◌then◌else◌}
use dpi_engine_python.Prelude.Eq.{◌==◌, nat_eq}
use dpi_engine_python.Text.{Str, codes}

pub record IpLayer : Type 0 where
  pub src : Str
  pub dst : Str
  pub proto : ℕ

pub record TransportLayer : Type 0 where
  pub sport : ℕ
  pub dport : ℕ
  pub payload : List ℕ

-- `len(packet)`, and `packet[L]` where `L in packet`.
pub record Scapy : Type 1 where
  pub Packet : Type 0
  pub len : Packet → ℕ
  pub ip : Packet → Option IpLayer
  pub tcp : Packet → Option TransportLayer
  pub udp : Packet → Option TransportLayer

-- The dictionary that `parse` returns: a key that is not set is none.
pub record ParsedPacket : Type 0 where
  pub packet_length : Option ℕ
  pub src_ip : Option Str
  pub dst_ip : Option Str
  pub protocol : Option Str
  pub src_port : Option ℕ
  pub dst_port : Option ℕ
  pub payload : Option (List ℕ)

-- `protocol_map.get(protocol_number, "UNKNOWN")`
unfoldable pub protocol_name : ℕ → Str
protocol_name n =
    if n == 1
    then codes "ICMP"
    else if n == 6
    then codes "TCP"
    else if n == 17
    then codes "UDP"
    else codes "UNKNOWN"

-- The layer that gives the ports and the payload: TCP, or else UDP.
abbrev pub transport_of : Option TransportLayer → Option TransportLayer → Option TransportLayer
transport_of (some tcp) udp = some tcp
transport_of none udp = udp

abbrev pub map_option {ℓ κ} : {A : Type ℓ} {B : Type κ} → (A → B) → Option A → Option B
map_option f none = none
map_option f (some a) = some (f a)

unfoldable pub parse : (s : Scapy) → s.Packet → ParsedPacket
unfolding protocol_name
parse s packet =
    let layer = transport_of (s.tcp packet) (s.udp packet) in
    record {
      packet_length = some (s.len packet);
      src_ip = map_option (λ ip. ip.src) (s.ip packet);
      dst_ip = map_option (λ ip. ip.dst) (s.ip packet);
      protocol = map_option (λ ip. protocol_name ip.proto) (s.ip packet);
      src_port = map_option (λ l. l.sport) layer;
      dst_port = map_option (λ l. l.dport) layer;
      payload = map_option (λ l. l.payload) layer;
    }
