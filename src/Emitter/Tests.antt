-- ===== src/Emitter/Tests.antt =====
-- Instances of the theorems on src/data_engineering/emitter.py.
use dpi_engine_python.Packet.{protocol_name, parse}
use dpi_engine_python.Packet.Samples.{sample_scapy, hello_packet}
use dpi_engine_python.Prelude.{◌≡◌, refl, none, some}
use dpi_engine_python.Prelude.Eq.{option_eq}
use dpi_engine_python.Text.{codes}
use dpi_engine_python.Tracker.{
  ConnectionTracker, connection_tracker, get_or_create_flow, create_five_tuple, create_from,
}
use dpi_engine_python.Types.{FiveTuple, five_tuple_eq}

abbrev key : FiveTuple
key = record {
  src_ip = codes "10.0.0.1";
  dst_ip = codes "1.2.3.4";
  src_port = 5000;
  dst_port = 443;
  protocol = codes "TCP";
}

abbrev start : ConnectionTracker
start = connection_tracker none none none

abbrev tracker : ConnectionTracker
tracker = (get_or_create_flow start (some key) none).1

hello-key : create_five_tuple (parse sample_scapy hello_packet) ≡ some key
unfolding create_five_tuple create_from parse protocol_name
hello-key = refl
