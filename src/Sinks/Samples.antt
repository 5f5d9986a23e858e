-- ===== src/Sinks/Samples.antt =====
-- Two events, for the tests of what writes them.
use dpi_engine_python.Emitter.{NetworkEvent}
use dpi_engine_python.Prelude.{true, false, none, some}
use dpi_engine_python.Processor.{forward, drop}
use dpi_engine_python.Text.{codes}

abbrev pub an_event : NetworkEvent
an_event = record {
  src_ip = codes "10.0.0.1";
  dst_ip = codes "1.2.3.4";
  src_port = 5000;
  dst_port = 443;
  protocol = codes "TCP";
  packet_length = 60;
  sni = some (codes "github.com");
  http_host = none;
  http_method = none;
  http_path = none;
  user_agent = none;
  application = codes "GITHUB";
  decision = forward;
  blocked = false;
  flow_packet_count = 3;
}

abbrev pub other_event : NetworkEvent
other_event = record an_event { sni = none; decision = drop; blocked = true }
