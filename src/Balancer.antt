-- ===== src/Balancer.antt =====
-- src/v2/flow_balancer.py: the worker of a flow, by a checksum of the flow's addresses.
mod Order
pub mod Direction
mod Tests
use Prim.Native.Nat.{bit_xor}
use dpi_engine_python.Bytes.{Bytes}
use dpi_engine_python.Prelude.{
  ℕ, zero, suc, ◌+◌, ◌/◌, ◌%◌, Bool, true, false, not, List, [], ◌∷◌, ◌++◌, ltb, if◌then◌else◌,
}
use dpi_engine_python.Prelude.Eq.{◌==◌, nat_eq, list_eq}
use dpi_engine_python.Prelude.Result.{Result, ok, err, value_error}
use dpi_engine_python.Text.{Str, encode}

pub record FlowKey : Type 0 where
  pub src_ip : Str
  pub dst_ip : Str
  pub src_port : ℕ
  pub dst_port : ℕ
  pub protocol : Str

-- The tuples `forward` and `reverse` of `canonical`.
pub record Endpoints : Type 0 where
  pub first_ip : Str
  pub second_ip : Str
  pub first_port : ℕ
  pub second_port : ℕ

-- Python's `<` on texts, by code points.
unfoldable pub str_lt : Str → Str → Bool
str_lt s [] = false
str_lt [] (y ∷ t) = true
str_lt (x ∷ s) (y ∷ t) = if x == y then str_lt s t else ltb x y

-- Python's `<` on tuples: the first components that differ decide.
unfoldable pub endpoints_lt : Endpoints → Endpoints → Bool
endpoints_lt a b =
    if not (a.first_ip == b.first_ip)
    then str_lt a.first_ip b.first_ip
    else if not (a.second_ip == b.second_ip)
    then str_lt a.second_ip b.second_ip
    else if not (a.first_port == b.first_port)
    then ltb a.first_port b.first_port
    else ltb a.second_port b.second_port

-- `min(a, b)`, which is `a` unless `b < a`.
unfoldable pub endpoints_min : Endpoints → Endpoints → Endpoints
endpoints_min a b = if endpoints_lt b a then b else a

abbrev pub forward : FlowKey → Endpoints
forward k = record {
  first_ip = k.src_ip;
  second_ip = k.dst_ip;
  first_port = k.src_port;
  second_port = k.dst_port;
}

abbrev pub backward : FlowKey → Endpoints
backward k = record {
  first_ip = k.dst_ip;
  second_ip = k.src_ip;
  first_port = k.dst_port;
  second_port = k.src_port;
}

unfoldable pub canonical : FlowKey → FlowKey
unfolding endpoints_min endpoints_lt
canonical k =
    let endpoints = endpoints_min (forward k) (backward k) in
    record {
      src_ip = endpoints.first_ip;
      dst_ip = endpoints.second_ip;
      src_port = endpoints.first_port;
      dst_port = endpoints.second_port;
      protocol = k.protocol;
    }

-- `str(n)`; the fuel is more than the number of digits.
unfoldable pub decimal : ℕ → ℕ → Str
decimal zero n = []
decimal (suc fuel) n =
    let higher = decimal fuel (n / 10) in
    let last = b'0' + n % 10 in if ltb n 10 then last ∷ [] else higher ++ last ∷ []

unfoldable pub str_of : ℕ → Str
unfolding decimal
str_of n = decimal (suc n) n

-- One bit of CRC-32, least significant bit first.
unfoldable pub crc_bit : ℕ → ℕ
crc_bit c = if c % 2 == 1 then bit_xor (c / 2) 0xedb88320 else c / 2

unfoldable pub crc_byte : ℕ → ℕ → ℕ
unfolding crc_bit
crc_byte c b =
    let x = bit_xor c b in
    crc_bit (crc_bit (crc_bit (crc_bit (crc_bit (crc_bit (crc_bit (crc_bit x)))))))

unfoldable pub crc_from : ℕ → Bytes → ℕ
crc_from c [] = c
crc_from c (b ∷ bs) = crc_from (crc_byte c b) bs

-- `zlib.crc32`
unfoldable pub crc32 : Bytes → ℕ
unfolding crc_from crc_byte
crc32 bs = bit_xor (crc_from 0xffffffff bs) 0xffffffff

-- `"|".join(str(part) for part in c)`
unfoldable pub joined : FlowKey → Str
unfolding str_of
joined c =
    c.src_ip
    ++ (b'|'
        ∷ (c.dst_ip
            ++ (b'|' ∷ (str_of c.src_port ++ (b'|' ∷ (str_of c.dst_port ++ (b'|' ∷ c.protocol)))))))

unfoldable pub flow_text : FlowKey → Str
flow_text k = joined (canonical k)

-- The constructor refuses a count that is not positive.
unfoldable pub flow_balancer : ℕ → Result ℕ
flow_balancer worker_count = if worker_count == 0 then err value_error else ok worker_count

unfoldable pub get_worker : ℕ → FlowKey → ℕ
get_worker worker_count k = crc32 (encode (flow_text k)) % worker_count
