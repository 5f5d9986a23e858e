-- ===== src/Analyzer/Keys.antt =====
-- The keys of the flows that src/analyzer.py leaves in the table.
use dpi_engine_python.Analyzer.{PacketAnalyzer}
use dpi_engine_python.Analyzer.Counts.{
  sni_in, touched_at, touched, core_after, core_after_all, touched-IsValid,
}
use dpi_engine_python.Analyzer.Loop.{analyze}
use dpi_engine_python.Analyzer.Totals.{analyze-core}
use dpi_engine_python.Analyzer.Untouched.{Core, core}
use dpi_engine_python.Dict.{get}
use dpi_engine_python.Packet.{ParsedPacket}
use dpi_engine_python.Prelude.{
  ℕ, ◌≡◌, ◌≢◌, refl, ap, sym, subst, ◌⊎◌, inl, inr, Option, none, some, List, [], ◌∷◌, Bool-cases,
}
use dpi_engine_python.Prelude.Eq.{◌==◌, nat_eq, option_eq, beq-eq-true}
use dpi_engine_python.Processor.{payload_of}
use dpi_engine_python.Sni
use dpi_engine_python.Text.{Str}
use dpi_engine_python.Tracker.{ConnectionTracker, create_from, create_five_tuple, or_zero}
use dpi_engine_python.Tracker.Blocking.{IsValid, get-get_or_create_flow}
use dpi_engine_python.Types.{FiveTuple, five_tuple_eq}

pub record IsFull (key : FiveTuple) : Type 0 where
  pub src : key.src_ip ≢ []
  pub dst : key.dst_ip ≢ []
  pub named : key.protocol ≢ []

abbrev pub IsFullKey : Option FiveTuple → Type 0
IsFullKey none = ⊥
IsFullKey (some key) = IsFull key

-- The table has flows under full keys only.
abbrev pub HasFullKeys : ConnectionTracker → Type 0
HasFullKeys t = (k : Option FiveTuple) → (get t.flows k ≡ none) ⊎ IsFullKey k

create_from-IsFull :
    (src dst protocol : Option Str) (sport dport : ℕ) (key : FiveTuple)
    → create_from src dst protocol sport dport ≡ some key
    → IsFull key
unfolding create_from
create_from-IsFull (some (a ∷ src)) (some (b ∷ dst)) (some (c ∷ protocol)) sport dport key h =
    subst IsFull (from_some h) (record { src = cc; dst = cc; named = cc })
  where
    from_some : {A : Type 0} {x y : A} → some x ≡ some y → x ≡ y
    from_some h = cc
create_from-IsFull none dst protocol sport dport key h = absurd cc
create_from-IsFull (some []) dst protocol sport dport key h = absurd cc
create_from-IsFull (some (a ∷ src)) none protocol sport dport key h = absurd cc
create_from-IsFull (some (a ∷ src)) (some []) protocol sport dport key h = absurd cc
create_from-IsFull (some (a ∷ src)) (some (b ∷ dst)) none sport dport key h = absurd cc
create_from-IsFull (some (a ∷ src)) (some (b ∷ dst)) (some []) sport dport key h = absurd cc

-- A five-tuple that is made from a packet is full.
pub create_five_tuple-IsFull :
    (p : ParsedPacket) (key : FiveTuple) → create_five_tuple p ≡ some key → IsFull key
unfolding create_five_tuple
create_five_tuple-IsFull p key h =
    create_from-IsFull p.src_ip p.dst_ip p.protocol (or_zero p.src_port) (or_zero p.dst_port) key h

touched_at-HasFullKeys :
    (t : ConnectionTracker) (key : Option FiveTuple) (sni : Option Str)
    → ((k : FiveTuple) → key ≡ some k → IsFull k)
    → HasFullKeys t
    → HasFullKeys (touched_at t key sni)
touched_at-HasFullKeys t none sni full h k = h k
touched_at-HasFullKeys t (some key) sni full h k =
    rw (get-get_or_create_flow t (some key) sni k) (elim (Bool-cases (some key == k)) [
      | inl same ↦ inr (subst IsFullKey (beq-eq-true (some key) k same) (full key refl))
      | inr other ↦ rw other (h k)
    ])

-- What holds of the table at every moment.
pub record IsTable (t : ConnectionTracker) : Type 0 where
  pub valid : IsValid t
  pub full : HasFullKeys t

touched-HasFullKeys :
    (p : ParsedPacket) (t : ConnectionTracker) → HasFullKeys t → HasFullKeys (touched p t)
touched-HasFullKeys p t h = elim (Bool-cases (or_zero p.dst_port == 0)) [
  | inl zero ↦ rw zero h
  | inr other ↦ rw other (
      touched_at-HasFullKeys t (create_five_tuple p) (sni_in (Sni.extract (payload_of p)))
        (create_five_tuple-IsFull p) h)
]

after_all-IsTable :
    (packets : List ParsedPacket) (c : Core)
    → IsTable c.connection_tracker
    → IsTable (core_after_all packets c).connection_tracker
after_all-IsTable [] c h = h
after_all-IsTable (p ∷ packets) c h = after_all-IsTable packets (core_after p c) (record {
  valid = touched-IsValid p c.connection_tracker h.valid;
  full = touched-HasFullKeys p c.connection_tracker h.full;
})

-- The table is valid and has full keys after the analysis if it was so before.
pub analyze-IsTable :
    (packets : List ParsedPacket) (a : PacketAnalyzer)
    → IsTable a.connection_tracker
    → IsTable (analyze packets a).1.connection_tracker
analyze-IsTable packets a h =
    let (_, after) = analyze-core packets a h.valid in
    subst IsTable (sym (ap (λ c. c.connection_tracker) after))
      (after_all-IsTable packets (core a) h)
