-- ===== src/Processor/Tests.antt =====
-- Runs of src/v2/dpi_processor.py, and instances of its theorems.
use dpi_engine_python.Dict.{get}
use dpi_engine_python.Packet.{ParsedPacket, parse}
use dpi_engine_python.Packet.Samples.{sample_scapy, hello_packet, arp_packet}
use dpi_engine_python.Prelude.{◌≡◌, refl, none, some}
use dpi_engine_python.Prelude.Eq.{option_eq}
use dpi_engine_python.Prelude.Result.{err, attribute_error}
use dpi_engine_python.Processor.{DpiProcessor, dpi_processor, process_parsed}
use dpi_engine_python.Processor.Effect.{or_new}
use dpi_engine_python.Processor.Raising.{IsKeyed, dpi_processor-IsKeyed, process_parsed_raises}
use dpi_engine_python.Http
use dpi_engine_python.Sni
use dpi_engine_python.Text.{codes}
use dpi_engine_python.Tracker.{update_flow, create_five_tuple, create_from}
use dpi_engine_python.Types.{FiveTuple, five_tuple_eq}

abbrev fresh : DpiProcessor
fresh = dpi_processor none none none

abbrev fresh-IsKeyed : IsKeyed fresh
fresh-IsKeyed = dpi_processor-IsKeyed none none none

abbrev hello : ParsedPacket
hello = parse sample_scapy hello_packet

abbrev key : FiveTuple
key = record {
  src_ip = codes "10.0.0.1";
  dst_ip = codes "1.2.3.4";
  src_port = 5000;
  dst_port = 443;
  protocol = codes "TCP";
}

arp_key : create_five_tuple (parse sample_scapy arp_packet) ≡ none
unfolding create_five_tuple create_from parse
arp_key = refl

process_parsed_raises_example :
    ((process_parsed fresh (parse sample_scapy arp_packet) arp_packet).0 ≡ err attribute_error)
    × (get (process_parsed fresh (parse sample_scapy arp_packet) arp_packet).1.tracker.flows none
        ≡ some (update_flow fresh.tracker.rules none (or_new none (get fresh.tracker.flows none))))
process_parsed_raises_example =
    process_parsed_raises fresh (parse sample_scapy arp_packet) arp_packet fresh-IsKeyed arp_key
