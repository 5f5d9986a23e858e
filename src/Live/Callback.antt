-- ===== src/Live/Callback.antt =====
-- When `sniff` uses its callback.
use dpi_engine_python.Dict.{keys}
use dpi_engine_python.Io.{
  any_error, is_os_error, return, call, record_event, ◌>>=◌, ◌>>◌, attempt, rescue, for_each,
}
use dpi_engine_python.Io.Keeps.{Keeps, >>=-Keeps, rescue-Keeps, try_else-Keeps, for_each-Keeps}
use dpi_engine_python.Live.{
  LivePacketCapture, candidates, Reason, no_packets, no_interface, failed, LiveCall, get_if_hwaddr,
  load_dll, read_packets, set_promisc, scapy_sniff, use_callback, write_pcap, Host, set_resolved,
  warn_selected, warn_unavailable,
}
use dpi_engine_python.Live.Capture.{
  npcap_paths, first_npcap_path, npcap_in, npcap_available, choose, resolve_for, resolve_interface,
  set_all_promisc, setup_npcap_promisc, candidate_file, simulate_capture, use_all, save_packets,
  or_simulated, capture_on, sniff_on, sniff,
}
use dpi_engine_python.Prelude.{
  ◌≡◌, refl, Bool, true, false, not, Option, none, some, List, [], ◌∷◌, ◌++◌, any, arith,
}
use dpi_engine_python.Text.{Str}

module _ {P : Type 0} (host : Host P) where
  abbrev pub is_callback : LiveCall P → Bool
  is_callback (use_callback p) = true
  is_callback _ = false

  -- No packet was given to the callback.
  abbrev pub Quiet : List (LiveCall P) → Type 0
  Quiet log = any is_callback log ≡ false

  Quiet-append :
      (event : LiveCall P)
      → is_callback event ≡ false
      → (log : List (LiveCall P)) → Quiet log
      → Quiet (log ++ event ∷ [])
  Quiet-append event h [] quiet = rw h refl
  Quiet-append event h (first ∷ log) quiet = ground (arith, Quiet-append event h log)

  npcap_in-Quiet : (paths : List Str) → Keeps Quiet (npcap_in host paths)
  unfolding npcap_in
  npcap_in-Quiet [] log quiet = quiet
  npcap_in-Quiet (path ∷ paths) log quiet =
      try_else-Keeps Quiet (call host.world (load_dll path)) is_os_error (npcap_in host paths)
        (λ _. return true) (Quiet-append (load_dll path) refl) (npcap_in-Quiet paths) (λ _ l q. q)
        log quiet

  choose-Quiet : (names : List Str) → Keeps Quiet (choose host names)
  unfolding choose
  choose-Quiet [] log quiet = quiet
  choose-Quiet (name ∷ names) log quiet =
      >>=-Keeps Quiet (call host.world (get_if_hwaddr name))
        (λ _. record_event (warn_selected name) >> return (some name))
        (Quiet-append (get_if_hwaddr name) refl) (λ _. Quiet-append (warn_selected name) refl) log
        quiet

  resolve_interface-Quiet : (wanted : Option Str) → Keeps Quiet (resolve_for host wanted)
  unfolding resolve_for
  resolve_interface-Quiet none log quiet = choose-Quiet (candidates host.ifaces) log quiet
  resolve_interface-Quiet (some wanted) log quiet = quiet

  simulate_capture-Quiet : (reason : Reason) → Keeps Quiet (simulate_capture host reason)
  unfolding simulate_capture
  simulate_capture-Quiet reason log quiet =
      >>=-Keeps Quiet (call host.world (read_packets (candidate_file host)))
        (λ _. return (host.replayed (candidate_file host)))
        (Quiet-append (read_packets (candidate_file host)) refl) (λ _ l q. q) _
        (Quiet-append (warn_unavailable reason) refl log quiet)

  set_all_promisc-Quiet :
      (c : LivePacketCapture) (available : Bool) → Keeps Quiet (set_all_promisc host c available)
  unfolding set_all_promisc
  set_all_promisc-Quiet c false log quiet = quiet
  set_all_promisc-Quiet c true log quiet =
      let set_one = λ (name : Str). call host.world (set_promisc name c.promiscuous) in
      let set_each = for_each (keys host.ifaces) set_one in
      try_else-Keeps Quiet (call host.world (load_dll first_npcap_path) >> set_each) any_error
        (return tt) return
        (>>=-Keeps Quiet (call host.world (load_dll first_npcap_path)) (λ _. set_each)
          (Quiet-append (load_dll first_npcap_path) refl)
          (λ _.
            for_each-Keeps Quiet set_one
              (λ name. Quiet-append (set_promisc name c.promiscuous) refl) (keys host.ifaces)))
        (λ l q. q) (λ _ l q. q) log quiet

  or_simulated-Quiet : (packets : List P) → Keeps Quiet (or_simulated host packets)
  unfolding or_simulated
  or_simulated-Quiet [] log quiet = simulate_capture-Quiet no_packets log quiet
  or_simulated-Quiet (p ∷ packets) log quiet = quiet

  save_packets-Quiet :
      (path : Option Str) (packets : List P) → Keeps Quiet (save_packets host path packets)
  unfolding save_packets
  save_packets-Quiet none packets log quiet = quiet
  save_packets-Quiet (some []) packets log quiet = quiet
  save_packets-Quiet (some (c ∷ path)) packets log quiet =
      Quiet-append (write_pcap (c ∷ path) packets) refl log quiet

  -- A callback is used only on packets that Scapy returns without storing any.
  use_all-Quiet :
      (callback : Bool)
      → host.captured false ≡ []
      → Keeps Quiet (use_all host callback (host.captured (not callback)))
  unfolding use_all
  use_all-Quiet false none_stored log quiet = quiet
  use_all-Quiet true none_stored log quiet = rw none_stored quiet

  capture_on-Quiet :
      (c : LivePacketCapture) (callback : Bool) (resolved : Str)
      → host.captured false ≡ []
      → Keeps Quiet (capture_on host c callback resolved)
  unfolding capture_on
  capture_on-Quiet c callback resolved none_stored =
      let packets = host.captured (not callback) in
      let sniffing =
        scapy_sniff resolved c.promiscuous c.timeout c.filter c.stop_after (not callback) in
      let save = save_packets host c.pcap_save packets in
      let using = use_all host callback packets in
      let last = λ (_ : Unit {0}). or_simulated host packets in
      >>=-Keeps Quiet (call host.world sniffing) (λ _. using >> (save >>= last))
        (Quiet-append sniffing refl)
        (λ _.
          >>=-Keeps Quiet using (λ _. save >>= last) (use_all-Quiet callback none_stored)
            (λ _.
              >>=-Keeps Quiet save last (save_packets-Quiet c.pcap_save packets)
                (λ _. or_simulated-Quiet packets)))

  sniff_on-Quiet :
      (c : LivePacketCapture) (callback : Bool) (chosen : Option Str)
      → host.captured false ≡ []
      → Keeps Quiet (sniff_on host c callback chosen)
  unfolding sniff_on setup_npcap_promisc npcap_available
  sniff_on-Quiet c callback none none_stored log quiet =
      simulate_capture-Quiet no_interface log quiet
  sniff_on-Quiet c callback (some resolved) none_stored log quiet =
      let set_up = attempt (setup_npcap_promisc host c) any_error (return tt) in
      let capture =
        rescue (capture_on host c callback resolved) (λ e. simulate_capture host (failed e)) in
      >>=-Keeps Quiet set_up (λ _. capture)
        (try_else-Keeps Quiet (setup_npcap_promisc host c) any_error (return tt) return
          (>>=-Keeps Quiet (npcap_available host) (set_all_promisc host c)
            (npcap_in-Quiet npcap_paths) (set_all_promisc-Quiet c))
          (λ l q. q) (λ _ l q. q))
        (λ _.
          rescue-Keeps Quiet (capture_on host c callback resolved)
            (λ e. simulate_capture host (failed e))
            (capture_on-Quiet c callback resolved none_stored)
            (λ e. simulate_capture-Quiet (failed e)))
        _ (Quiet-append (set_resolved resolved) refl log quiet)

  -- Where Scapy returns no packet of a capture that it does not store, `sniff` with a callback does
  -- not give it any packet, whatever is captured: the callback's packets are asked for unstored.
  pub sniff-Quiet :
      (c : LivePacketCapture) (callback : Bool)
      → host.captured false ≡ []
      → Quiet (sniff host c callback []).log
  unfolding sniff resolve_interface
  sniff-Quiet c callback none_stored =
      >>=-Keeps Quiet (resolve_interface host c) (sniff_on host c callback)
        (resolve_interface-Quiet c.interface)
        (λ chosen. sniff_on-Quiet c callback chosen none_stored) [] refl
