-- ===== src/Emitter/Lookup.antt =====
-- The flows that src/data_engineering/emitter.py finds, and the number of its events.
use dpi_engine_python.Dict.{Dict, values, get, put, get-put, IsDict, get-none_of_absent}
use dpi_engine_python.Emitter.{NetworkEvent, index_flows, lookup_key, lookup_flow}
use dpi_engine_python.Packet.{ParsedPacket}
use dpi_engine_python.Pipeline.{or_text}
use dpi_engine_python.Text.{Str, codes}
use dpi_engine_python.Prelude.{
  ℕ, map, ◌≡◌, refl, sym, ap, ◌∙◌, inl, inr, Bool, false, Option, none, some, List, [], ◌∷◌, arith,
  Bool-cases,
}
use dpi_engine_python.Prelude.Eq.{◌==◌, option_eq, beq-eq-true, beq_refl}
use dpi_engine_python.Processor.{Decision}
use dpi_engine_python.Tracker.{ConnectionTracker, create_five_tuple, create_from, or_zero}
use dpi_engine_python.Tracker.Blocking.{IsValid}
use dpi_engine_python.Types.{app_name, FiveTuple, five_tuple_eq, Flow}

abbrev or_else : Option Flow → Option Flow → Option Flow
or_else none other = other
or_else (some flow) other = some flow

abbrev IsKeyedBy : Dict (Option FiveTuple) Flow → Type 0
IsKeyedBy d = (k : Option FiveTuple) (f : Flow) → get d k ≡ some f → f.five_tuple ≡ k

rest-IsKeyedBy :
    (j : Option FiveTuple) (f : Flow) (d : Dict (Option FiveTuple) Flow)
    → IsDict ((j, f) ∷ d)
    → IsKeyedBy ((j, f) ∷ d)
    → IsKeyedBy d
unfolding get
rest-IsKeyedBy j f d (absent, distinct) keyed k g found = elim (Bool-cases (j == k)) [
  | inr other ↦ keyed k g (rw other found)
  | inl same ↦
      let missing = get-none_of_absent d j absent in
      let never : ◌≡◌ {A = Option Flow} none (some g) =
        sym missing ∙ rw (beq-eq-true j k same) found in
      absurd cc
]

get-index_flows :
    (d found : Dict (Option FiveTuple) Flow) (k : Option FiveTuple)
    → IsDict d
    → IsKeyedBy d
    → get (index_flows (values d) found) k ≡ or_else (get d k) (get found k)
unfolding index_flows get
get-index_flows [] found k distinct keyed = refl
get-index_flows ((j, f) ∷ d) found k (absent, distinct) keyed =
    let here : f.five_tuple ≡ j = keyed j f (rw (beq_refl j) refl) in
    let later =
      get-index_flows d (put found f.five_tuple f) k distinct
        (rest-IsKeyedBy j f d (absent, distinct) keyed) in
    let put_here = ap (λ x. get (put found x f) k) here ∙ get-put found j k f in
    later
    ∙ rw put_here (elim (Bool-cases (j == k)) [
      | inr other ↦ rw other refl
      | inl same ↦
          let missing : get d k ≡ none =
            rw (← beq-eq-true j k same) (get-none_of_absent d j absent) in
          rw (same, missing) refl
    ])

or_else-none : (o : Option Flow) → or_else o none ≡ o
or_else-none none = refl
or_else-none (some flow) = refl

lookup_key-eq :
    (p : ParsedPacket) (key : FiveTuple) → create_five_tuple p ≡ some key → lookup_key p ≡ key
unfolding create_five_tuple create_from
lookup_key-eq p key h = ground arith

-- On a valid table the emitter finds the flow of the key that it builds.
pub lookup_flow-get :
    (t : ConnectionTracker) (p : ParsedPacket)
    → IsValid t
    → lookup_flow t p ≡ get t.flows (some (lookup_key p))
unfolding lookup_flow
lookup_flow-get t p v =
    let keyed : IsKeyedBy t.flows = λ k f e. (v.settled k f e).keyed in
    get-index_flows t.flows [] (some (lookup_key p)) v.distinct keyed
    ∙ unfold get in or_else-none (get t.flows (some (lookup_key p)))

-- On a valid table the emitter finds for a packet with a five-tuple the flow of that five-tuple.
pub lookup_flow-eq :
    (t : ConnectionTracker) (p : ParsedPacket) (key : FiveTuple)
    → IsValid t
    → create_five_tuple p ≡ some key
    → lookup_flow t p ≡ get t.flows (some key)
lookup_flow-eq t p key v h =
    lookup_flow-get t p v ∙ ap (λ k. get t.flows (some k)) (lookup_key-eq p key h)

-- What an event says of a packet, and what the packet says.
abbrev pub Traffic : Type 0
Traffic = Str × Str × ℕ × ℕ × Str × ℕ

abbrev pub traffic_of : NetworkEvent → Traffic
traffic_of e = (e.src_ip, e.dst_ip, e.src_port, e.dst_port, e.protocol, e.packet_length)

abbrev pub traffic_in : ParsedPacket → Traffic
traffic_in p = (
  or_text [] p.src_ip,
  or_text [] p.dst_ip,
  or_zero p.src_port,
  or_zero p.dst_port,
  or_text [] p.protocol,
  or_zero p.packet_length,
)

-- What an event says of a flow, and what the flow says: its name, application, blocking and count.
abbrev pub Facts : Type 0
Facts = Option Str × Str × Bool × ℕ

abbrev pub facts_of : NetworkEvent → Facts
facts_of e = (e.sni, e.application, e.blocked, e.flow_packet_count)

abbrev pub facts_in : Option Flow → Facts
facts_in none = (none, codes "UNKNOWN", false, 0)
facts_in (some f) = (f.sni, app_name f.app_type, f.blocked, f.packet_count)

-- The events tell of these packets, with these decisions, and of the flows that the table has for
-- the packets, in order.
pub record IsToldOf (t : ConnectionTracker) (packets : List ParsedPacket)
    (decisions : List Decision) (events : List NetworkEvent) : Type 0 where
  pub traffic : map traffic_of events ≡ map traffic_in packets
  pub decided : map (λ (e : NetworkEvent). e.decision) events ≡ decisions
  pub flows : map facts_of events ≡ map (λ p. facts_in (get t.flows (some (lookup_key p)))) packets
