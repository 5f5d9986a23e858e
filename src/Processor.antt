-- ===== src/Processor.antt =====
-- src/v2/dpi_processor.py: one packet through parser, flow table, extractors and rules.
pub mod Effect
pub mod Decisions
pub mod Raising
pub mod Flows
mod Tests
use dpi_engine_python.Bytes.{Bytes}
use dpi_engine_python.Dict.{put}
use dpi_engine_python.Http
use dpi_engine_python.Packet.{Scapy, ParsedPacket, parse}
use dpi_engine_python.Prelude.{
  ℕ, ◌+◌, Bool, true, false, Option, none, some, List, [], ◌∷◌, if◌then◌else◌,
}
use dpi_engine_python.Prelude.Eq.{option_eq}
use dpi_engine_python.Prelude.Result.{Result, ok, err, ◌>>=◌}
use dpi_engine_python.Rules.{RuleManager, classify_domain}
use dpi_engine_python.Sni
use dpi_engine_python.Text.{Str, truthy}
use dpi_engine_python.Tracker.{
  ConnectionTracker, connection_tracker, apply_blocking_rules, get_or_create_flow,
  create_five_tuple,
}
use dpi_engine_python.Types.{AppType, FiveTuple, five_tuple_eq, Flow}

pub data Decision : Type 0 where
  forward drop : Decision

abbrev pub decide_for : Flow → Decision
decide_for flow = if flow.blocked then drop else forward

pub record DpiProcessor : Type 0 where
  pub tracker : ConnectionTracker
  pub processed_packets : ℕ

abbrev pub dpi_processor :
    Option (List Str) → Option (List AppType) → Option (List Str) → DpiProcessor
dpi_processor ips apps domains = record {
  tracker = connection_tracker ips apps domains;
  processed_packets = 0;
}

-- The dictionary that `process` returns. Its "flow" is the object in the table, so it is kept as
-- the five-tuple under which the table holds it.
pub record Processed (P : Type 0) : Type 0 where
  pub packet : ParsedPacket
  pub raw_packet : P
  pub flow : Option FiveTuple
  pub sni : Option Str
  pub http_host : Option Str
  pub decision : Decision

abbrev pub payload_of : ParsedPacket → Bytes
payload_of p = elim p.payload [ none ↦ [] | some payload ↦ payload ]

-- The SNI, and the Host header where there is no SNI.
unfoldable pub names_in : Bytes → Result (Option Str × Option Str)
names_in payload = do
  sni ← Sni.extract payload
  ok (sni, if truthy sni then none else Http.extract payload)

-- `sni or http_host`
abbrev pub domain_of : Option Str → Option Str → Option Str
domain_of sni http_host = if truthy sni then sni else http_host

-- What `process` writes into a flow for which it has a domain.
abbrev pub named_flow : RuleManager → Option Str → Flow → Flow
named_flow m domain flow = record flow { sni = domain; app_type = classify_domain m domain }

module _ {P : Type 0} (parsed : ParsedPacket) (raw : P) (key : Option FiveTuple) where
  -- What is left once the rules have been applied to the named flow, which is written back. (The
  -- code changes the object in the table, and only where it has a domain.)
  unfoldable pub conclude :
      DpiProcessor
      → Option Str
      → Option Str
      → Flow
      → Result Flow
      → Result (Processed P) × DpiProcessor
  conclude p sni http_host named (err e) =
      (err e, record p { tracker = record p.tracker { flows = put p.tracker.flows key named } })
  conclude p sni http_host named (ok flow) = (
    ok (record {
      packet = parsed;
      raw_packet = raw;
      flow = key;
      sni = sni;
      http_host = http_host;
      decision = decide_for flow;
    }),
    record {
      tracker = record p.tracker { flows = put p.tracker.flows key flow };
      processed_packets = p.processed_packets + 1;
    },
  )

  -- From the extractors on.
  unfoldable pub name_and_decide :
      DpiProcessor → Flow → Result (Option Str × Option Str) → Result (Processed P) × DpiProcessor
  name_and_decide p flow (err e) = (err e, p)
  name_and_decide p flow (ok (sni, http_host)) =
      let domain = domain_of sni http_host in
      let m = p.tracker.rules in
      let named = if truthy domain then named_flow m domain flow else flow in
      let result = if truthy domain then apply_blocking_rules m named else ok named in
      conclude p sni http_host named result

  -- From the flow on, in the state that the tracker left.
  unfoldable pub resume : DpiProcessor → Result Flow → Result (Processed P) × DpiProcessor
  resume p (err e) = (err e, p)
  resume p (ok flow) = name_and_decide p flow (names_in (payload_of parsed))

-- `process`, on the packet as parsed.
unfoldable pub process_parsed :
    {P : Type 0} → DpiProcessor → ParsedPacket → P → Result (Processed P) × DpiProcessor
process_parsed p parsed raw =
    let key = create_five_tuple parsed in
    let (found, tracker) = get_or_create_flow p.tracker key none in
    resume parsed raw key (record p { tracker = tracker }) found

module _ (s : Scapy) where
  unfoldable pub process : DpiProcessor → s.Packet → Result (Processed s.Packet) × DpiProcessor
  process p packet = process_parsed p (parse s packet) packet
