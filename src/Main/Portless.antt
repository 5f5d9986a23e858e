-- ===== src/Main/Portless.antt =====
-- Packets without a destination port, such as those of ICMP, in the first filtered capture of main.py.
use dpi_engine_python.Dict.{get}
use dpi_engine_python.Engine.Results.{parse_all}
use dpi_engine_python.Main.Consistent.{analyzed, analyzed-IsTable, blocked_of, is_packet_blocked-eq}
use dpi_engine_python.Main.Phases.{v1_packets}
use dpi_engine_python.Main.Verdict.{is_of, known_of, name_in, analyzed-name}
use dpi_engine_python.Packet.{Scapy, ParsedPacket, parse}
use dpi_engine_python.Prelude.{
  ℕ, ◌≡◌, refl, sym, ap, ◌∙◌, inl, inr, Bool, true, false, not, Option, none, some, List, [], ◌∷◌,
  In, keep, arith, Bool-cases, Option-cases,
}
use dpi_engine_python.Prelude.Eq.{◌==◌, nat_eq, option_eq, beq-eq-true}
use dpi_engine_python.Text.{Str}
use dpi_engine_python.Tracker.{create_from, create_five_tuple, is_packet_blocked, or_zero}
use dpi_engine_python.Types.{AppType, FiveTuple, five_tuple_eq, Flow}

create_from-dst_port :
    (src dst protocol : Option Str) (sport dport : ℕ) (key : FiveTuple)
    → create_from src dst protocol sport dport ≡ some key
    → key.dst_port ≡ dport
unfolding create_from
create_from-dst_port src dst protocol sport dport key h = ground (arith, h)

create_five_tuple-dst_port :
    (p : ParsedPacket) (key : FiveTuple)
    → create_five_tuple p ≡ some key
    → key.dst_port ≡ or_zero p.dst_port
unfolding create_five_tuple
create_five_tuple-dst_port p key h =
    create_from-dst_port p.src_ip p.dst_ip p.protocol (or_zero p.src_port) (or_zero p.dst_port) key
      h

-- No packet counts for a five-tuple without a destination port.
no_packet-is_of : (key : FiveTuple) (p : ParsedPacket) → key.dst_port ≡ 0 → is_of key p ≡ false
no_packet-is_of key p h = elim (Bool-cases (create_five_tuple p == some key)) [
  | inr other ↦ rw other (ground arith)
  | inl same ↦
      let keyed = beq-eq-true (create_five_tuple p) (some key) same in
      let zero : or_zero p.dst_port ≡ 0 = sym (create_five_tuple-dst_port p key keyed) ∙ h in
      rw zero refl
]

known_of-none :
    (key : FiveTuple) (packets : List ParsedPacket)
    → key.dst_port ≡ 0
    → known_of key packets none ≡ none
known_of-none key [] h = refl
known_of-none key (p ∷ packets) h = rw (no_packet-is_of key p h) (known_of-none key packets h)

absent-name : (flow : Option Flow) → name_in flow ≡ none → blocked_of flow ≡ false
unfolding blocked_of
absent-name none h = refl
absent-name (some flow) h = absurd cc

In-keep :
    {A : Type 0} (q : A → Bool) (x : A) (xs : List A) → q x ≡ true → In x xs → In x (keep q xs)
In-keep q x [] h never = absurd never
In-keep q x (y ∷ xs) h (inl here) = let kept = rw (← here) at h in rw (← here, kept) (inl refl)
In-keep q x (y ∷ xs) h (inr later) = elim (Bool-cases (q y)) [
  | inl kept ↦ rw kept (inr (In-keep q x xs h later))
  | inr left ↦ rw left (In-keep q x xs h later)
]

module _ (s : Scapy) (ips : Option (List Str)) (apps : Option (List AppType))
    (domains : Option (List Str)) (packets : List s.Packet) where
  portless-not_blocked :
      (p : ParsedPacket)
      → or_zero p.dst_port ≡ 0
      → is_packet_blocked (analyzed s ips apps domains packets) p ≡ false
  portless-not_blocked p zero =
      let t = analyzed s ips apps domains packets in
      elim (Option-cases (create_five_tuple p)) [
        | inl no_key ↦
            let nothing : get t.flows none ≡ none =
              elim ((analyzed-IsTable s ips apps domains packets).full none) [
                | inl nothing ↦ nothing
                | inr never ↦ absurd never
              ] in
            is_packet_blocked-eq t p none no_key ∙ absent-name _ (ap name_in nothing)
        | inr (key, keyed) ↦
            is_packet_blocked-eq t p (some key) keyed
            ∙ absent-name _ (
                analyzed-name s ips apps domains packets key
                ∙ known_of-none key (parse_all s packets)
                    (create_five_tuple-dst_port p key keyed ∙ zero))
      ]

  -- A packet without a destination port is written to the first filtered capture whatever the rules
  -- say of it, also where they block its source address.
  pub portless-kept :
      (packet : s.Packet)
      → In packet packets
      → or_zero (parse s packet).dst_port ≡ 0
      → In packet (v1_packets s (analyzed s ips apps domains packets) packets)
  unfolding v1_packets
  portless-kept packet inside zero =
      In-keep (λ q. not (is_packet_blocked (analyzed s ips apps domains packets) (parse s q)))
        packet packets (ap not (portless-not_blocked (parse s packet) zero)) inside
