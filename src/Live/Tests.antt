-- ===== src/Live/Tests.antt =====
-- Instances of the theorems on src/live_capture.py, and runs.
use dpi_engine_python.Dict.{Dict, keys}
use dpi_engine_python.Io.{World}
use dpi_engine_python.Live.{
  Iface, LivePacketCapture, has_text, is_loopback, get_hwaddr, is_candidate, candidates, matching,
  LiveCall, scapy_sniff, Host,
}
use dpi_engine_python.Live.Callback.{Quiet, sniff-Quiet}
use dpi_engine_python.Live.Capture.{choose, resolve_for, resolve_interface, sniff}
use dpi_engine_python.Live.Stream.{
  Action, step, stop_all, started, looping, ended, died, after_max, after_sniff, count_packets,
  turn, stop_streaming, act, run, IsSilent, run-IsSilent,
}
use dpi_engine_python.Packet.Samples.{Sample, hello_packet, arp_packet}
use dpi_engine_python.Prelude.{◌≡◌, refl, Bool, true, false, none, some, List, [], ◌∷◌}
use dpi_engine_python.Prelude.Result.{Error, ok, err}
use dpi_engine_python.Text.{Str, codes, lower_code}

abbrev an_iface : Iface
an_iface = record {
  isloopback = none;
  name = some (codes "Ethernet");
  description = none;
  mac = some (codes "00:11:22:33:44:55");
  hwaddr = none;
  ip = some (codes "10.0.0.1");
  info = none;
}

abbrev loopback : Iface
loopback = record an_iface { name = some (codes "Software Loopback Interface") }

abbrev ifaces : Dict Str Iface
ifaces =
    (codes "lo", loopback)
    ∷ (codes "dead", record an_iface { mac = some (codes "00:00:00:00:00:00") })
    ∷ (codes "NPF_eth0", an_iface)
    ∷ []

-- Sniffing fails; everything else answers.
abbrev no_npcap : World (LiveCall Sample)
no_npcap log (scapy_sniff iface promisc timeout filter count store) = err Error.other
no_npcap log event = ok tt

abbrev host : Host Sample
host = record {
  world = no_npcap;
  ifaces = ifaces;
  path_exists = λ path. true;
  captured = λ store. if_stored store;
  replayed = λ path. hello_packet ∷ [];
}
  where
    if_stored : Bool → List Sample
    if_stored true = arp_packet ∷ []
    if_stored false = []

abbrev capture : LivePacketCapture
capture = record {
  interface = none;
  promiscuous = true;
  timeout = 10;
  filter = none;
  stop_after = none;
  pcap_save = none;
}

the_candidates : candidates ifaces ≡ codes "NPF_eth0" ∷ []
unfolding candidates is_candidate is_loopback has_text get_hwaddr lower_code
the_candidates = refl

by_suffix : matching (codes "eth0") (keys ifaces) ≡ codes "NPF_eth0"
unfolding matching
by_suffix = refl

resolved : (resolve_interface host capture []).result ≡ ok (some (codes "NPF_eth0"))
unfolding resolve_interface resolve_for choose candidates is_candidate is_loopback has_text
    get_hwaddr lower_code
resolved = refl

sniff-Quiet_example : Quiet host (sniff host capture true []).log
sniff-Quiet_example = sniff-Quiet host capture true refl

abbrev actions : List Action
actions = step 0 ∷ step 2 ∷ stop_all ∷ step 1 ∷ []

run-IsSilent_example : IsSilent {P = Sample} (run actions (started (some 5)))
run-IsSilent_example = run-IsSilent actions (some 5)

-- With a bound on the packets a thread dies in its first turn.
dies :
    ((run {P = Sample} actions (started (some 5))).threads 2 ≡ died Error.unbound_local)
    × ((run {P = Sample} actions (started (some 5))).threads 1 ≡ ended)
    × ((run {P = Sample} actions (started (some 5))).threads 3 ≡ looping none)
unfolding run act turn after_sniff after_max count_packets stop_streaming
dies = (refl, refl, refl)
