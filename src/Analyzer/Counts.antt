-- ===== src/Analyzer/Counts.antt =====
-- The counters after `analyze`, as counts over the packets.
use dpi_engine_python.Analyzer.{
  PacketAnalyzer, bump, service_of, service_in, count_source, count_service, note_sni, count_tls,
}
use dpi_engine_python.Analyzer.Loop.{
  read_text, count_protocol, Turn, counted, tracked, with_sni, at_port, analyze_packet, analyze_all,
}
use dpi_engine_python.Analyzer.Untouched.{Core, core, core-payload}
use dpi_engine_python.Dict.{Dict}
use dpi_engine_python.Packet.{ParsedPacket}
use dpi_engine_python.Prelude.{
  ℕ, ◌+◌, ◌≡◌, refl, sym, ap, subst, ◌∙◌, inl, inr, Bool, false, ◌||◌, Option, none, some, List, [],
  ◌∷◌, arith, Bool-cases, if◌then◌else◌,
}
use dpi_engine_python.Prelude.Eq.{◌==◌, nat_eq, list_eq, option_eq}
use dpi_engine_python.Prelude.Result.{Result, ok, err}
use dpi_engine_python.Processor.{payload_of}
use dpi_engine_python.Sni
use dpi_engine_python.Sni.Total.{extract_total}
use dpi_engine_python.Text.{Str, codes}
use dpi_engine_python.Tracker.{ConnectionTracker, get_or_create_flow, create_five_tuple, or_zero}
use dpi_engine_python.Tracker.Blocking.{IsValid, get_or_create_flow-IsValid, get_or_create_flow_ok}
use dpi_engine_python.Types.{FiveTuple}

-- The SNI that the packet carries.
abbrev pub sni_in : Result (Option Str) → Option Str
sni_in (err e) = none
sni_in (ok sni) = sni

abbrev pub touched_at : ConnectionTracker → Option FiveTuple → Option Str → ConnectionTracker
touched_at t none sni = t
touched_at t (some key) sni = (get_or_create_flow t (some key) sni).1

-- The tracker after the packet: the analyzer touches the flow of a packet with a destination port.
abbrev pub touched : ParsedPacket → ConnectionTracker → ConnectionTracker
touched p t =
    if or_zero p.dst_port == 0
    then t
    else touched_at t (create_five_tuple p) (sni_in (Sni.extract (payload_of p)))

abbrev pub is_counted : Str → Bool
is_counted protocol =
    protocol == codes "TCP" || (protocol == codes "UDP" || protocol == codes "ICMP")

abbrev pub protocol_after : Option Str → Dict Str ℕ → Dict Str ℕ
protocol_after none counts = counts
protocol_after (some protocol) counts = if is_counted protocol then bump counts protocol else counts

abbrev pub sources_after : Option Str → Dict Str ℕ → Dict Str ℕ
sources_after (some (c ∷ cs)) counts = bump counts (c ∷ cs)
sources_after _ counts = counts

-- What a packet does to the counters.
abbrev pub core_after : ParsedPacket → Core → Core
core_after p c = record {
  protocol_count = protocol_after p.protocol c.protocol_count;
  total_bytes = c.total_bytes + or_zero p.packet_length;
  source_ip_count = sources_after p.src_ip c.source_ip_count;
  https_packet_count =
      if or_zero p.dst_port == 443 then c.https_packet_count + 1 else c.https_packet_count;
  connection_tracker = touched p c.connection_tracker;
}

abbrev with_protocol : Option Str → Core → Core
with_protocol protocol c = record c { protocol_count = protocol_after protocol c.protocol_count }

core-count_protocol :
    (protocol : Option Str) (a : PacketAnalyzer)
    → core (count_protocol protocol a) ≡ with_protocol protocol (core a)
unfolding count_protocol
core-count_protocol none a = refl
core-count_protocol (some protocol) a = elim (Bool-cases (is_counted protocol)) [
  | inl counts ↦ rw counts refl
  | inr other ↦ rw other refl
]

-- The turn goes on, with these counters.
abbrev GoesOn : Turn → Core → Type 0
GoesOn turn c = (turn.0 ≡ none) × (core turn.1 ≡ c)

tracked-GoesOn :
    (p : ParsedPacket) (sni : Option Str) (key : Option FiveTuple) (a : PacketAnalyzer)
    → IsValid a.connection_tracker
    → GoesOn (tracked p sni key a) (
        with_protocol p.protocol
          (record (core a) { connection_tracker = touched_at a.connection_tracker key sni }))
unfolding tracked counted
tracked-GoesOn p sni none a v = (refl, core-count_protocol p.protocol a)
tracked-GoesOn p sni (some key) a v =
    let (flow, e) = get_or_create_flow_ok a.connection_tracker key sni v in
    rw e (refl, core-count_protocol p.protocol _)

-- The counters after the call of the tracker, from those before the payload was read.
abbrev with_flow : ParsedPacket → Option FiveTuple → Option Str → Core → Core
with_flow p key sni c =
    with_protocol p.protocol
      (record c { connection_tracker = touched_at c.connection_tracker key sni })

with_sni-GoesOn :
    (p : ParsedPacket) (sni : Result (Option Str)) (a : PacketAnalyzer)
    → (name : Option Str) × (sni ≡ ok name)
    → IsValid a.connection_tracker
    → GoesOn (with_sni p sni a) (with_flow p (create_five_tuple p) (sni_in sni) (core a))
unfolding with_sni
with_sni-GoesOn p (err e) a (name, h) v = absurd cc
with_sni-GoesOn p (ok sni) a h v =
    let read = read_text (payload_of p) (count_tls (payload_of p) (note_sni sni a)) in
    let key = create_five_tuple p in
    subst
      (λ c. IsValid c.connection_tracker → GoesOn (tracked p sni key read) (with_flow p key sni c))
      (core-payload sni (payload_of p) a) (tracked-GoesOn p sni key read) v

-- The counters of addresses and ports, for destination port `port`.
abbrev with_port : ParsedPacket → ℕ → Core → Core
with_port p port c =
    if port == 0
    then with_protocol p.protocol c
    else with_flow p (create_five_tuple p) (sni_in (Sni.extract (payload_of p))) (record c {
      https_packet_count = if port == 443 then c.https_packet_count + 1 else c.https_packet_count;
    })

at_port-GoesOn :
    (p : ParsedPacket) (port : ℕ) (a : PacketAnalyzer)
    → IsValid a.connection_tracker
    → GoesOn (at_port p port a) (with_port p port (core a))
unfolding at_port
at_port-GoesOn p port a v = elim (Bool-cases (port == 0)) [
  | inl zero ↦ rw zero (refl, core-count_protocol p.protocol a)
  | inr other ↦
      rw other (with_sni-GoesOn p (Sni.extract (payload_of p)) _ (extract_total (payload_of p)) v)
]

core-count_source :
    (source : Option Str) (a : PacketAnalyzer)
    → core (count_source source a)
      ≡ record (core a) { source_ip_count = sources_after source a.source_ip_count }
unfolding count_source
core-count_source none a = refl
core-count_source (some []) a = refl
core-count_source (some (c ∷ cs)) a = refl

core-service_in : (service : Option Str) (a : PacketAnalyzer) → core (service_in service a) ≡ core a
unfolding service_in
core-service_in none a = refl
core-service_in (some service) a = refl

core-count_service : (port : Option ℕ) (a : PacketAnalyzer) → core (count_service port a) ≡ core a
unfolding count_service
core-count_service none a = refl
core-count_service (some port) a = core-service_in (service_of port) a

with_port-core_after :
    (p : ParsedPacket) (c : Core)
    → with_port p (or_zero p.dst_port) (record c {
      total_bytes = c.total_bytes + or_zero p.packet_length;
      source_ip_count = sources_after p.src_ip c.source_ip_count;
    })
      ≡ core_after p c
with_port-core_after p c = elim (Bool-cases (or_zero p.dst_port == 0)) [
  | inr other ↦ rw other refl
  | inl zero ↦
      let not_https : (or_zero p.dst_port == 443) ≡ false = ground arith in
      rw (zero, not_https) refl
]

-- No packet raises on a valid table, and each changes the counters in this way.
pub analyze_packet-GoesOn :
    (p : ParsedPacket) (a : PacketAnalyzer)
    → IsValid a.connection_tracker
    → GoesOn (analyze_packet p a) (core_after p (core a))
unfolding analyze_packet
analyze_packet-GoesOn p a v =
    let sized : PacketAnalyzer = record a {
      total_bytes = a.total_bytes + or_zero p.packet_length;
    } in
    let before = count_service p.dst_port (count_source p.src_ip sized) in
    let same =
      core-count_service p.dst_port (count_source p.src_ip sized)
      ∙ core-count_source p.src_ip sized in
    let port = or_zero p.dst_port in
    let (raised, after) =
      subst
        (λ c. IsValid c.connection_tracker → GoesOn (at_port p port before) (with_port p port c))
        same (at_port-GoesOn p port before) v in
    (raised, after ∙ with_port-core_after p (core a))

-- The counters after all the packets.
abbrev pub core_after_all : List ParsedPacket → Core → Core
core_after_all [] c = c
core_after_all (p ∷ packets) c = core_after_all packets (core_after p c)

pub touched-IsValid : (p : ParsedPacket) (t : ConnectionTracker) → IsValid t → IsValid (touched p t)
touched-IsValid p t v = elim (Bool-cases (or_zero p.dst_port == 0)) [
  | inl zero ↦ rw zero v
  | inr other ↦ rw other (at_key (create_five_tuple p))
]
  where
    at_key :
        (key : Option FiveTuple) → IsValid (touched_at t key (sni_in (Sni.extract (payload_of p))))
    at_key none = v
    at_key (some key) = get_or_create_flow-IsValid t (some key) _ v

pub analyze_all-GoesOn :
    (packets : List ParsedPacket) (a : PacketAnalyzer)
    → IsValid a.connection_tracker
    → GoesOn (analyze_all packets a) (core_after_all packets (core a))
unfolding analyze_all
analyze_all-GoesOn [] a v = (refl, refl)
analyze_all-GoesOn (p ∷ packets) a v =
    let (goes_on, same) = analyze_packet-GoesOn p a v in
    let next = (analyze_packet p a).1 in
    let valid : IsValid next.connection_tracker =
      subst (λ (c : Core). IsValid c.connection_tracker) (sym same)
        (touched-IsValid p a.connection_tracker v) in
    let (raised, after) = analyze_all-GoesOn packets next valid in
    rw goes_on (raised, after ∙ ap (core_after_all packets) same)
