-- ===== src/Balancer/Direction.antt =====
-- The two directions of a connection in src/v2/flow_balancer.py.
use mathlib.Core.Quot
use mathlib.Core.Quot.{Quot}
use native.Mathlib.Nat.{ℕ_set}
use dpi_engine_python.Prelude.{ℕ, ◌%◌, ◌<◌, ◌≡◌, ap, ◌∙◌, ◌⊎◌, ◌↔◌, inl, inr, arith}
use dpi_engine_python.Prelude.Eq.{nat_eq}
use dpi_engine_python.Prelude.Result.{ok}
use dpi_engine_python.Text.{encode}
use dpi_engine_python.Balancer.{
  FlowKey, forward, backward, canonical, joined, flow_text, crc32, flow_balancer, get_worker,
}
use dpi_engine_python.Balancer.Order.{endpoints_min_comm, endpoints_min_cases}

-- The key of a packet that travels the other way.
abbrev pub reverse : FlowKey → FlowKey
reverse k = record {
  src_ip = k.dst_ip;
  dst_ip = k.src_ip;
  src_port = k.dst_port;
  dst_port = k.src_port;
  protocol = k.protocol;
}

canonical-reverse : (k : FlowKey) → canonical (reverse k) ≡ canonical k
unfolding canonical
canonical-reverse k = rw (endpoints_min_comm (backward k) (forward k))

canonical_cases : (k : FlowKey) → (canonical k ≡ k) ⊎ (canonical k ≡ reverse k)
unfolding canonical
canonical_cases k = ground (arith, endpoints_min_cases (forward k) (backward k))

-- Two keys have the same canonical form exactly when they are the same key or the two directions
-- of one connection.
pub canonical_iff : (a b : FlowKey) → (canonical a ≡ canonical b) ↔ (a ≡ b) ⊎ (a ≡ reverse b)
canonical_iff a b = (to, from)
  where
    to : canonical a ≡ canonical b → (a ≡ b) ⊎ (a ≡ reverse b)
    to e = ground (arith, canonical_cases a, canonical_cases b)

    from : (a ≡ b) ⊎ (a ≡ reverse b) → canonical a ≡ canonical b
    from (inl e) = ap canonical e
    from (inr e) = ap canonical e ∙ canonical-reverse b

-- Both directions of a connection go to the same worker, and the text that is hashed is the same.
pub get_worker-reverse :
    (worker_count : ℕ) (k : FlowKey)
    → (get_worker worker_count (reverse k) ≡ get_worker worker_count k)
      × (flow_text (reverse k) ≡ flow_text k)
unfolding get_worker flow_text
get_worker-reverse n k =
    let same = ap joined (canonical-reverse k) in (ap (λ t. crc32 (encode t) % n) same, same)

pub get_worker-lt_pos : (n : ℕ) (k : FlowKey) → 0 < n → get_worker n k < n
unfolding get_worker
get_worker-lt_pos n k h = let c = crc32 (encode (flow_text k)) in omega arith

-- A balancer that could be made sends every flow to one of its workers.
pub get_worker-lt :
    (worker_count n : ℕ) (k : FlowKey)
    → flow_balancer worker_count ≡ ok n
    → get_worker n k < worker_count
unfolding flow_balancer get_worker
get_worker-lt worker_count n k h =
    let c = crc32 (encode (flow_text k)) in
    let same : n ≡ worker_count = ground arith in
    let positive : 0 < worker_count = ground arith in rw same (omega arith)

-- A connection: a flow key, up to its direction.
abbrev pub SameConnection : FlowKey → FlowKey → Type 0
SameConnection a b = (a ≡ b) ⊎ (a ≡ reverse b)

abbrev pub Connection : Type 0
Connection = Quot SameConnection

FlowKey-set : IsSet FlowKey
FlowKey-set = hlevel ℕ_set

canonical_of : Connection → FlowKey
canonical_of = Quot.lift FlowKey-set canonical (λ a b h. (canonical_iff a b).1 h)

-- The canonical key tells connections apart, and no more than connections.
pub canonical-exact :
    (a b : FlowKey) → (◌≡◌ {A = Connection} (Quot.mk a) (Quot.mk b)) ↔ (canonical a ≡ canonical b)
unfolding canonical_of
canonical-exact a b = (λ e. ap canonical_of e, λ e. Quot.sound ((canonical_iff a b).0 e))
