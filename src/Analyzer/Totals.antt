-- ===== src/Analyzer/Totals.antt =====
-- What `analyze` reports, against counts over the packets and the flows.
use dpi_engine_python.Analyzer.{PacketAnalyzer, bump}
use dpi_engine_python.Analyzer.Counts.{
  is_counted, protocol_after, sources_after, core_after, core_after_all, analyze_all-GoesOn,
}
use dpi_engine_python.Analyzer.Loop.{
  analyze_all, max_key, find_top, count_flows, summarise, finish_analysis, analyze,
}
use dpi_engine_python.Analyzer.Untouched.{Core, core}
use dpi_engine_python.Dict.{Dict, get, get-put, values}
use dpi_engine_python.Packet.{ParsedPacket}
use dpi_engine_python.Prelude.{
  ℕ, ◌+◌, ◌≤◌, ◌<◌, ◌≡◌, ◌≢◌, refl, ap, ◌∙◌, inl, inr, Bool, true, false, Option, none, some, List,
  [], ◌∷◌, arith, In, ltb, Bool-cases,
}
use dpi_engine_python.Prelude.Eq.{Equality, ◌==◌, nat_eq, list_eq, option_eq, beq-eq-true}
use dpi_engine_python.Prelude.Result.{ok}
use dpi_engine_python.Text.{Str}
use dpi_engine_python.Tracker.{or_zero}
use dpi_engine_python.Tracker.Blocking.{IsValid}
use dpi_engine_python.Types.{app_name, Flow}

-- The count that stands for a key; 0 where it is missing.
abbrev pub tally : {K : Type 0} ⦃e : Equality K⦄ → Dict K ℕ → K → ℕ
tally d k = or_zero (get d k)

abbrev pub one_if : Bool → ℕ
one_if true = 1
one_if false = 0

tally-bump :
    {K : Type 0} ⦃e : Equality K⦄ (d : Dict K ℕ) (k j : K)
    → tally (bump d k) j ≡ tally d j + one_if (k == j)
unfolding bump
tally-bump d k j = elim (Bool-cases (k == j)) [
  | inl same ↦ rw (get-put d k j (or_zero (get d k) + 1), same) (rw (beq-eq-true k j same) refl)
  | inr other ↦ rw (get-put d k j (or_zero (get d k) + 1), other) (omega arith)
]

-- The sum of an amount over the packets.
abbrev pub total : (ParsedPacket → ℕ) → List ParsedPacket → ℕ
total amount [] = 0
total amount (p ∷ packets) = amount p + total amount packets

sources_after-tally :
    (source : Option Str) (d : Dict Str ℕ) (ip : Str)
    → ip ≢ []
    → tally (sources_after source d) ip ≡ tally d ip + one_if (source == some ip)
sources_after-tally none d ip ne = omega arith
sources_after-tally (some []) d [] ne = absurd (ne refl)
sources_after-tally (some []) d (c ∷ cs) ne = omega arith
sources_after-tally (some (c ∷ cs)) d ip ne = tally-bump d (c ∷ cs) ip

protocol_after-tally :
    (protocol : Option Str) (d : Dict Str ℕ) (name : Str)
    → is_counted name ≡ true
    → tally (protocol_after protocol d) name ≡ tally d name + one_if (protocol == some name)
protocol_after-tally none d name h = omega arith
protocol_after-tally (some protocol) d name h = elim (Bool-cases (is_counted protocol)) [
  | inl counts ↦ rw counts (tally-bump d protocol name)
  | inr other ↦ elim (Bool-cases (protocol == name)) [
    | inl same ↦
        let absurd_case : is_counted name ≡ false = rw (← beq-eq-true protocol name same) other in
        absurd cc
    | inr differs ↦ rw (other, differs) (omega arith)
  ]
]

-- A number that every packet raises by an amount is raised by the sum of the amounts.
pub after_all-total :
    (f : Core → ℕ) (amount : ParsedPacket → ℕ)
    → ((p : ParsedPacket) (c : Core) → f (core_after p c) ≡ f c + amount p)
    → (packets : List ParsedPacket) (c : Core)
    → f (core_after_all packets c) ≡ f c + total amount packets
after_all-total f amount step [] c = omega arith
after_all-total f amount step (p ∷ packets) c =
    omega (arith, step p c, after_all-total f amount step packets (core_after p c))

summarise-core : (a : PacketAnalyzer) → core (summarise a) ≡ core a
unfolding summarise
summarise-core a = refl

pub analyze-core :
    (packets : List ParsedPacket) (a : PacketAnalyzer)
    → IsValid a.connection_tracker
    → ((analyze packets a).0 ≡ ok (analyze packets a).1.protocol_count)
      × (core (analyze packets a).1 ≡ core_after_all packets (core a))
unfolding analyze finish_analysis
analyze-core packets a v =
    let (goes_on, after) = analyze_all-GoesOn packets a v in
    rw goes_on (refl, summarise-core (analyze_all packets a).1 ∙ after)

-- On a valid table `analyze` does not raise, and returns the counts of the protocols. The bytes, the
-- HTTPS packets, the packets of a source address and those of a protocol that is counted rise by
-- what the packets have of them.
pub analyze_counts :
    (packets : List ParsedPacket) (a : PacketAnalyzer)
    → IsValid a.connection_tracker
    → ((analyze packets a).0 ≡ ok (analyze packets a).1.protocol_count)
      × ((analyze packets a).1.total_bytes
          ≡ a.total_bytes + total (λ p. or_zero p.packet_length) packets)
      × ((analyze packets a).1.https_packet_count
          ≡ a.https_packet_count + total (λ p. one_if (or_zero p.dst_port == 443)) packets)
      × ((ip : Str)
          → ip ≢ []
          → tally (analyze packets a).1.source_ip_count ip
            ≡ tally a.source_ip_count ip + total (λ p. one_if (p.src_ip == some ip)) packets)
      × ((name : Str)
          → is_counted name ≡ true
          → tally (analyze packets a).1.protocol_count name
            ≡ tally a.protocol_count name + total (λ p. one_if (p.protocol == some name)) packets)
analyze_counts packets a v =
    let (returned, after) = analyze-core packets a v in
    (
      returned,
      ap (λ (c : Core). c.total_bytes) after
          ∙ after_all-total (λ c. c.total_bytes) _ (λ p c. refl) packets (core a),
      ap (λ (c : Core). c.https_packet_count) after
          ∙ after_all-total (λ c. c.https_packet_count) _ https_step packets (core a),
      λ ip ne.
          ap (λ (c : Core). tally c.source_ip_count ip) after
          ∙ after_all-total (λ c. tally c.source_ip_count ip) _
              (λ p c. sources_after-tally p.src_ip c.source_ip_count ip ne) packets (core a),
      λ name h.
          ap (λ (c : Core). tally c.protocol_count name) after
          ∙ after_all-total (λ c. tally c.protocol_count name) _
              (λ p c. protocol_after-tally p.protocol c.protocol_count name h) packets (core a),
    )
  where
    https_step :
        (p : ParsedPacket) (c : Core)
        → (core_after p c).https_packet_count
          ≡ c.https_packet_count + one_if (or_zero p.dst_port == 443)
    https_step p c = elim (Bool-cases (or_zero p.dst_port == 443)) [
      | inl https ↦ rw https refl
      | inr other ↦ rw other (omega arith)
    ]

abbrev pub flows_named : Str → List Flow → ℕ
flows_named name [] = 0
flows_named name (flow ∷ flows) = one_if (app_name flow.app_type == name) + flows_named name flows

-- Every name of an application stands in the report with the number of its flows.
count_flows-tally :
    (flows : List Flow) (counts : Dict Str ℕ) (name : Str)
    → tally (count_flows flows counts) name ≡ tally counts name + flows_named name flows
unfolding count_flows
count_flows-tally [] counts name = omega arith
count_flows-tally (flow ∷ flows) counts name = omega (
  arith,
  count_flows-tally flows (bump counts (app_name flow.app_type)) name,
  tally-bump counts (app_name flow.app_type) name,
)

-- A key with a value that no other exceeds, in a dictionary that begins with `(best, n)`.
pub record IsGreatest (d : Dict Str ℕ) (best : Str) (n : ℕ) (key : Str) : Type 0 where
  pub value : ℕ
  pub above : n ≤ value
  pub found : In (key, value) ((best, n) ∷ d)
  pub bound : (k : Str) (i : ℕ) → In (k, i) d → i ≤ value

max_key-IsGreatest : (d : Dict Str ℕ) (best : Str) (n : ℕ) → IsGreatest d best n (max_key best n d)
unfolding max_key
max_key-IsGreatest [] best n = record {
  value = n;
  above = omega arith;
  found = inl refl;
  bound = λ k i h. absurd h;
}
max_key-IsGreatest ((j, m) ∷ d) best n = elim (Bool-cases (ltb n m)) [
  | inl less ↦
      let g = max_key-IsGreatest d j m in
      let beyond : n < m = ground arith in
      rw less (record {
        value = g.value;
        above = omega (arith, g.above);
        found = inr g.found;
        bound = λ k i h. elim h [
          | inl e ↦ let same : m ≡ i = ap (λ x. x.1) e in omega (arith, g.above)
          | inr later ↦ g.bound k i later
        ];
      })
  | inr least ↦
      let g = max_key-IsGreatest d best n in
      let within : m ≤ n = ground arith in
      rw least (record {
        value = g.value;
        above = g.above;
        found = elim g.found [ inl e ↦ inl e | inr later ↦ inr (inr later) ];
        bound = λ k i h. elim h [
          | inl e ↦ let same : m ≡ i = ap (λ x. x.1) e in omega (arith, g.above)
          | inr later ↦ g.bound k i later
        ];
      })
]

find_top-greatest :
    (d : Dict Str ℕ) (old : Option Str) (k : Str) (i : ℕ)
    → In (k, i) d
    → (top : Str) × (m : ℕ) × (find_top d old ≡ some top) × In (top, m) d × (i ≤ m)
unfolding find_top
find_top-greatest [] old k i h = absurd h
find_top-greatest ((j, n) ∷ d) old k i h =
    let g = max_key-IsGreatest d j n in
    (
      max_key j n d,
      g.value,
      refl,
      g.found,
      elim h [
        | inl e ↦ let same : n ≡ i = ap (λ x. x.1) e in omega (arith, g.above)
        | inr later ↦ g.bound k i later
      ],
    )

-- What `analyze` reports in the end: the top service is one that was counted, and no service has a
-- greater count; every name of an application stands with the number of flows of that application.
pub summarise_reports :
    (a : PacketAnalyzer)
    → ((service : Str) (i : ℕ)
        → In (service, i) a.service_count
        → (top : Str) × (m : ℕ) × ((summarise a).top_service ≡ some top)
          × In (top, m) a.service_count
          × (i ≤ m))
      × ((name : Str)
          → tally (summarise a).application_count name
            ≡ flows_named name (values a.connection_tracker.flows))
unfolding summarise get
summarise_reports a = (
  λ service i h. find_top-greatest a.service_count a.top_service service i h,
  λ name. count_flows-tally (values a.connection_tracker.flows) [] name ∙ omega arith,
)
