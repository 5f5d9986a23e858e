-- ===== src/Main/Verdict.antt =====
-- The first filtered capture of main.py, told by the rules and the packets alone.
use dpi_engine_python.Analyzer.{packet_analyzer}
use dpi_engine_python.Analyzer.Counts.{sni_in, touched, core_after, core_after_all}
use dpi_engine_python.Analyzer.Keys.{IsTable}
use dpi_engine_python.Tracker.Runs.{empty-IsValid}
use dpi_engine_python.Analyzer.Loop.{analyze}
use dpi_engine_python.Analyzer.Totals.{analyze-core}
use dpi_engine_python.Analyzer.Untouched.{Core, core}
use dpi_engine_python.Dict.{get}
use dpi_engine_python.Engine.Results.{parse_all}
use dpi_engine_python.Main.Consistent.{analyzed, analyzed-IsTable, blocked_of, is_packet_blocked-eq}
use dpi_engine_python.Main.Phases.{v1_packets}
use dpi_engine_python.Packet.{Scapy, ParsedPacket, parse}
use dpi_engine_python.Prelude.{
  ◌≡◌, refl, ap, ◌∙◌, inl, inr, Bool, false, not, ◌&&◌, ◌||◌, Option, none, some, List, [], ◌∷◌,
  keep, arith, Bool-cases, Option-cases, if◌then◌else◌,
}
use dpi_engine_python.Prelude.Eq.{◌==◌, nat_eq, option_eq, contains, beq-eq-true}
use dpi_engine_python.Processor.{payload_of}
use dpi_engine_python.Rules.{
  RuleManager, rule_manager, classify_domain, is_ip_blocked, is_app_blocked, is_domain_blocked,
}
use dpi_engine_python.Sni
use dpi_engine_python.Text.{Str, truthy}
use dpi_engine_python.Tracker.{
  ConnectionTracker, connection_tracker, create_five_tuple, get_or_create_flow, is_packet_blocked,
  update_flow, flow_or_new, apply_blocking_rules, or_zero,
}
use dpi_engine_python.Tracker.Blocking.{
  IsValid, IsSettled, verdict, after_packet, get-get_or_create_flow,
}
use dpi_engine_python.Types.{AppType, unknown, app_eq, FiveTuple, five_tuple_eq, Flow}

-- What is known of a flow: nothing before its first packet, then its name, if it has one.
abbrev pub Known : Type 0
Known = Option (Option Str)

-- The first packet gives its SNI; later ones only where there is no name yet.
abbrev pub next_name : Option Str → Known → Known
next_name sni none = some sni
next_name sni (some none) = some (if truthy sni then sni else none)
next_name sni (some (some name)) = some (some name)

-- Only packets with a destination port count.
abbrev pub is_of : FiveTuple → ParsedPacket → Bool
is_of key p = not (or_zero p.dst_port == 0) && create_five_tuple p == some key

abbrev pub known_of : FiveTuple → List ParsedPacket → Known → Known
known_of key [] known = known
known_of key (p ∷ packets) known =
    known_of key packets
      (if is_of key p then next_name (sni_in (Sni.extract (payload_of p))) known else known)

-- What the rules say of a flow of which this is known.
abbrev pub rules_block : RuleManager → FiveTuple → Known → Bool
rules_block m key none = false
rules_block m key (some name) =
    is_ip_blocked m (some key.src_ip)
    || is_app_blocked m (some (classify_domain m name))
    || is_domain_blocked m name

-- The same for the five-tuple of a packet, in a capture of these packets.
abbrev pub key_blocked : RuleManager → List ParsedPacket → Option FiveTuple → Bool
key_blocked m packets none = false
key_blocked m packets (some key) = rules_block m key (known_of key packets none)

abbrev pub is_blocked_in : RuleManager → List ParsedPacket → ParsedPacket → Bool
is_blocked_in m packets p = key_blocked m packets (create_five_tuple p)

abbrev pub name_in : Option Flow → Known
name_in none = none
name_in (some flow) = some flow.sni

after_packet-name :
    (t : ConnectionTracker) (key : Option FiveTuple) (sni : Option Str)
    → some (after_packet t.rules sni (flow_or_new t key sni)).sni
      ≡ next_name sni (name_in (get t.flows key))
unfolding after_packet update_flow apply_blocking_rules flow_or_new
after_packet-name t key sni = ground arith

-- One packet changes what is known of its own flow.
touched-name :
    (p : ParsedPacket) (t : ConnectionTracker) (key : FiveTuple)
    → name_in (get (touched p t).flows (some key)) ≡ (
        if is_of key p
        then next_name (sni_in (Sni.extract (payload_of p))) (name_in (get t.flows (some key)))
        else name_in (get t.flows (some key)))
touched-name p t key = elim (Bool-cases (or_zero p.dst_port == 0)) [
  | inl zero ↦ rw zero refl
  | inr other ↦ rw other (elim (Option-cases (create_five_tuple p)) [
    | inl no_key ↦ rw no_key refl
    | inr (k, keyed) ↦ rw keyed (at_key k)
  ])
]
  where
    at_key :
        (k : FiveTuple)
        → name_in (
            get
              (get_or_create_flow t (some k) (sni_in (Sni.extract (payload_of p)))).1.flows
              (some key))
          ≡ (if some k == some key
              then next_name
                  (sni_in (Sni.extract (payload_of p)))
                  (name_in (get t.flows (some key)))
              else name_in (get t.flows (some key)))
    at_key k = elim (Bool-cases (some k == some key)) [
      | inr other ↦
          rw
            (
              get-get_or_create_flow t (some k) (sni_in (Sni.extract (payload_of p))) (some key),
              other,
            )
            refl
      | inl same ↦
          let e = beq-eq-true (some k) (some key) same in
          rw
            (
              get-get_or_create_flow t (some k) (sni_in (Sni.extract (payload_of p))) (some key),
              same,
            )
            (rw (← e) (after_packet-name t (some k) (sni_in (Sni.extract (payload_of p)))))
    ]

touched-rules : (p : ParsedPacket) (t : ConnectionTracker) → (touched p t).rules ≡ t.rules
unfolding get_or_create_flow
touched-rules p t = ground arith

after_all-name :
    (packets : List ParsedPacket) (c : Core) (key : FiveTuple)
    → name_in (get (core_after_all packets c).connection_tracker.flows (some key))
      ≡ known_of key packets (name_in (get c.connection_tracker.flows (some key)))
after_all-name [] c key = refl
after_all-name (p ∷ packets) c key =
    after_all-name packets (core_after p c) key
    ∙ ap (known_of key packets) (touched-name p c.connection_tracker key)

after_all-rules :
    (packets : List ParsedPacket) (c : Core)
    → (core_after_all packets c).connection_tracker.rules ≡ c.connection_tracker.rules
after_all-rules [] c = refl
after_all-rules (p ∷ packets) c =
    after_all-rules packets (core_after p c) ∙ touched-rules p c.connection_tracker

settled-blocked :
    (m : RuleManager) (key : FiveTuple) (flow : Flow)
    → contains unknown m.blocked_apps ≡ false
    → IsSettled m (some key) flow
    → flow.blocked ≡ rules_block m key (some flow.sni)
settled-blocked m key flow open_app s =
    let same : flow.blocked ≡ verdict m key flow =
      ground (arith, s.enforced key refl, s.justified key refl open_app) in
    same ∙ rw s.classified refl

table-blocked :
    (t : ConnectionTracker) (key : FiveTuple)
    → contains unknown t.rules.blocked_apps ≡ false
    → IsValid t
    → blocked_of (get t.flows (some key))
      ≡ rules_block t.rules key (name_in (get t.flows (some key)))
unfolding blocked_of
table-blocked t key open_app v = elim (Option-cases (get t.flows (some key))) [
  | inl missing ↦ rw missing refl
  | inr (flow, found) ↦
      rw found (settled-blocked t.rules key flow open_app (v.settled (some key) flow found))
]

is_packet_blocked-verdict :
    (t : ConnectionTracker) (packets : List ParsedPacket) (p : ParsedPacket)
    → contains unknown t.rules.blocked_apps ≡ false
    → IsTable t
    → ((key : FiveTuple) → name_in (get t.flows (some key)) ≡ known_of key packets none)
    → is_packet_blocked t p ≡ is_blocked_in t.rules packets p
is_packet_blocked-verdict t packets p open_app h known = elim (Option-cases (create_five_tuple p)) [
  | inl no_key ↦
      let nothing : get t.flows none ≡ none = elim (h.full none) [
        | inl nothing ↦ nothing
        | inr never ↦ absurd never
      ] in
      is_packet_blocked-eq t p none no_key ∙ rw (no_key, nothing) (unfold blocked_of in refl)
  | inr (key, keyed) ↦
      is_packet_blocked-eq t p (some key) keyed
      ∙ table-blocked t key open_app h.valid
      ∙ rw (keyed, known key) refl
]

module _ (s : Scapy) (ips : Option (List Str)) (apps : Option (List AppType))
    (domains : Option (List Str)) (packets : List s.Packet) where
  analyzed-core :
      core (analyze (parse_all s packets) (packet_analyzer (connection_tracker ips apps domains))).1
      ≡ core_after_all
          (parse_all s packets)
          (core (packet_analyzer (connection_tracker ips apps domains)))
  analyzed-core =
      (analyze-core (parse_all s packets) (packet_analyzer (connection_tracker ips apps domains))
        (empty-IsValid (rule_manager ips apps domains))).1

  -- The flows after the analysis have the names that the packets give them.
  pub analyzed-name :
      (key : FiveTuple)
      → name_in (get (analyzed s ips apps domains packets).flows (some key))
        ≡ known_of key (parse_all s packets) none
  analyzed-name key =
      ap (λ (c : Core). name_in (get c.connection_tracker.flows (some key))) analyzed-core
      ∙ after_all-name (parse_all s packets) _ key
      ∙ unfold get in refl

  analyzed-rules : (analyzed s ips apps domains packets).rules ≡ rule_manager ips apps domains
  analyzed-rules =
      ap (λ (c : Core). c.connection_tracker.rules) analyzed-core
      ∙ after_all-rules (parse_all s packets) _

keep-eq :
    {A : Type 0} (p q : A → Bool) (xs : List A) → ((x : A) → p x ≡ q x) → keep p xs ≡ keep q xs
keep-eq p q [] h = refl
keep-eq p q (x ∷ xs) h = rw (h x, keep-eq p q xs h)

-- The first filtered capture holds, in order, the packets that the rules do not block, told by the
-- rules and the capture alone: a packet with a five-tuple is blocked where a packet of the same
-- five-tuple has a destination port and the rules block the source, the application or the name of
-- the flow, which is the SNI of its first packet with one (the rules must not block UNKNOWN).
pub v1_packets-verdict :
    (s : Scapy) (ips : Option (List Str)) (apps : Option (List AppType))
    (domains : Option (List Str)) (packets : List s.Packet)
    → contains unknown (rule_manager ips apps domains).blocked_apps ≡ false
    → v1_packets s (analyzed s ips apps domains packets) packets
      ≡ keep
          (λ packet.
            not (
              is_blocked_in (rule_manager ips apps domains) (parse_all s packets) (parse s packet)))
          packets
unfolding v1_packets
v1_packets-verdict s ips apps domains packets open_app =
    let rules = analyzed-rules s ips apps domains packets in
    let t = analyzed s ips apps domains packets in
    keep-eq _ _ packets (λ packet. ap not (
      is_packet_blocked-verdict t (parse_all s packets) (parse s packet) (rw rules open_app)
        (analyzed-IsTable s ips apps domains packets) (analyzed-name s ips apps domains packets)
      ∙ rw rules refl))
