-- ===== src/Live/Capture.antt =====
-- src/live_capture.py: the methods of `LivePacketCapture` that call other code.
use dpi_engine_python.Dict.{keys}
use dpi_engine_python.Io.{
  Io, any_error, is_os_error, return, call, record_event, ◌>>=◌, ◌>>◌, attempt, try_else, rescue,
  for_each,
}
use dpi_engine_python.Live.{
  LivePacketCapture, candidates, matching, Reason, no_interface, no_packets, failed, LiveCall,
  get_if_hwaddr, warn_selected, load_dll, set_resolved, read_packets, warn_unavailable, set_promisc,
  scapy_sniff, use_callback, write_pcap, Host,
}
use dpi_engine_python.Prelude.{
  Bool, true, false, not, Option, none, some, List, [], ◌∷◌, if◌then◌else◌,
}
use dpi_engine_python.Prelude.Eq.{list_eq, nat_eq, contains}
use dpi_engine_python.Text.{Str, codes}

-- `NPCAP_PATHS`
abbrev pub first_npcap_path : Str
first_npcap_path = codes "C:\\Program Files\\Npcap\\Npcap.dll"

abbrev pub npcap_paths : List Str
npcap_paths = first_npcap_path ∷ codes "C:\\Program Files (x86)\\Npcap\\Npcap.dll" ∷ []

module _ {P : Type 0} (host : Host P) where
  abbrev Live : Type 0 → Type 0
  Live A = Io (LiveCall P) A

  unfoldable pub npcap_in : List Str → Live Bool
  npcap_in [] = return false
  npcap_in (path ∷ paths) =
      try_else (call host.world (load_dll path)) is_os_error (npcap_in paths) (λ _. return true)

  unfoldable pub npcap_available : Live Bool
  npcap_available = npcap_in npcap_paths

  -- The first of the candidates; the warning asks for its address.
  unfoldable pub choose : List Str → Live (Option Str)
  choose [] = return none
  choose (chosen ∷ others) =
      call host.world (get_if_hwaddr chosen)
      >> (record_event (warn_selected chosen) >> return (some chosen))

  unfoldable pub resolve_for : Option Str → Live (Option Str)
  resolve_for none = choose (candidates host.ifaces)
  resolve_for (some wanted) = return (
      some
        (if contains wanted (keys host.ifaces) then wanted else matching wanted (keys host.ifaces)))

  unfoldable pub resolve_interface : LivePacketCapture → Live (Option Str)
  resolve_interface c = resolve_for c.interface

  -- With the answer of `_npcap_available`.
  unfoldable pub set_all_promisc : LivePacketCapture → Bool → Live (Unit {0})
  set_all_promisc c false = return tt
  set_all_promisc c true =
      attempt
        (call host.world (load_dll first_npcap_path)
          >> for_each (keys host.ifaces) (λ name. call host.world (set_promisc name c.promiscuous)))
        any_error (return tt)

  unfoldable pub setup_npcap_promisc : LivePacketCapture → Live (Unit {0})
  setup_npcap_promisc c = npcap_available >>= set_all_promisc c

  -- The file that is replayed.
  unfoldable pub candidate_file : Str
  candidate_file =
      if host.path_exists (codes "input/test_dpi.pcap")
      then codes "input/test_dpi.pcap"
      else codes "output/network_events.parquet"

  unfoldable pub simulate_capture : Reason → Live (List P)
  simulate_capture reason =
      record_event (warn_unavailable reason)
      >> (call host.world (read_packets candidate_file) >> return (host.replayed candidate_file))

  unfoldable pub use_all : Bool → List P → Live (Unit {0})
  use_all false packets = return tt
  use_all true packets =
      for_each packets (λ p. attempt (call host.world (use_callback p)) any_error (return tt))

  unfoldable pub save_packets : Option Str → List P → Live (Unit {0})
  save_packets (some (c ∷ path)) packets = call host.world (write_pcap (c ∷ path) packets)
  save_packets _ packets = return tt

  unfoldable pub or_simulated : List P → Live (List P)
  or_simulated [] = simulate_capture no_packets
  or_simulated (p ∷ packets) = return (p ∷ packets)

  -- The `try` block of `sniff`.
  unfoldable pub capture_on : LivePacketCapture → Bool → Str → Live (List P)
  capture_on c callback resolved =
      let packets = host.captured (not callback) in
      call host.world
        (scapy_sniff resolved c.promiscuous c.timeout c.filter c.stop_after (not callback))
      >> (use_all callback packets >> (save_packets c.pcap_save packets >> or_simulated packets))

  unfoldable pub sniff_on : LivePacketCapture → Bool → Option Str → Live (List P)
  sniff_on c callback none = simulate_capture no_interface
  sniff_on c callback (some resolved) =
      record_event (set_resolved resolved)
      >> (attempt (setup_npcap_promisc c) any_error (return tt)
          >> rescue (capture_on c callback resolved) (λ e. simulate_capture (failed e)))

  -- With or without a callback.
  unfoldable pub sniff : LivePacketCapture → Bool → Live (List P)
  sniff c callback = resolve_interface c >>= sniff_on c callback
