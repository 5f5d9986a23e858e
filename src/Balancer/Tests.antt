-- ===== src/Balancer/Tests.antt =====
-- Runs of src/v2/flow_balancer.py, and instances of its theorems.
use mathlib.Core.Quot
use dpi_engine_python.Balancer.{
  FlowKey, str_lt, endpoints_lt, endpoints_min, canonical, decimal, str_of, crc_bit, crc_byte,
  crc_from, crc32, joined, flow_text, flow_balancer, get_worker,
}
use dpi_engine_python.Balancer.Direction.{reverse, get_worker-reverse, Connection, canonical-exact}
use dpi_engine_python.Prelude.{◌≡◌, refl, ◌↔◌}
use dpi_engine_python.Prelude.Result.{ok}
use dpi_engine_python.Text.{codes}

crc32_check : crc32 (codes "123456789") ≡ 0xcbf43926
unfolding crc32 crc_from crc_byte crc_bit
crc32_check = refl

abbrev key : FlowKey
key = record {
  src_ip = codes "9.9.9.9";
  dst_ip = codes "1.2.3.4";
  src_port = 5000;
  dst_port = 443;
  protocol = codes "TCP";
}

text_of_key : flow_text key ≡ codes "1.2.3.4|9.9.9.9|443|5000|TCP"
unfolding flow_text joined canonical endpoints_min endpoints_lt str_lt str_of decimal
text_of_key = refl

four : flow_balancer 4 ≡ ok 4
unfolding flow_balancer
four = refl

get_worker-reverse_example :
    (get_worker 4 (reverse key) ≡ get_worker 4 key) × (flow_text (reverse key) ≡ flow_text key)
get_worker-reverse_example = get_worker-reverse 4 key

canonical-exact_example :
    (◌≡◌ {A = Connection} (Quot.mk key) (Quot.mk (reverse key)))
    ↔ (canonical key ≡ canonical (reverse key))
canonical-exact_example = canonical-exact key (reverse key)
