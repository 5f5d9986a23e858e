-- ===== src/Main/Whole.antt =====
-- Properties of the log, for the whole of `main`.
use dpi_engine_python.Analyzer.{PacketAnalyzer, packet_analyzer}
use dpi_engine_python.Analyzer.Loop.{analyze}
use dpi_engine_python.Dict.{Dict}
use dpi_engine_python.Engine.Results.{parse_all}
use dpi_engine_python.Io.{
  Io, any_error, return, call, record_event, ◌>>=◌, ◌>>◌, try_else, for_each, evaluate,
}
use dpi_engine_python.Io.Keeps.{Keeps, >>=-Keeps, try_else-Keeps, for_each-Keeps}
use dpi_engine_python.Live.Capture.{sniff}
use dpi_engine_python.Main.{
  Arguments, text, Line, line, MainCall, print, read_pcap, write_pcap, make_temp, close_temp,
  write_report, run_v2, live_call, Surroundings, within,
}
use dpi_engine_python.Main.Apps.{blocked_apps}
use dpi_engine_python.Main.Keeps.{
  is_external, call-Keeps, within-Keeps, say_all-Keeps, phases-Keeps, MaySkip,
}
use dpi_engine_python.Main.Lines.{
  application_lines, protocol_share, source_lines, http_lines, security_lines, first_packet,
  security_report, v2_title, v2_lines,
}
use dpi_engine_python.Main.Phases.{events_of, v1_packets, phases}
use dpi_engine_python.Main.Run.{
  about, capture_for, captured_line, host_of, save_temp, load, protocol_lines, print_statistics,
  second_pipeline, report_on, tracker_for, analyze_packets, main_live, main,
}
use dpi_engine_python.Packet.{Scapy, ParsedPacket}
use dpi_engine_python.Pipeline.{packet_pool}
use dpi_engine_python.Prelude.{ℕ, ◌≡◌, refl, Bool, true, false, Option, List, [], ◌∷◌, ◌++◌, length}
use dpi_engine_python.Prelude.Result.{Result}
use dpi_engine_python.Text.{Str, codes}
use dpi_engine_python.Types.{AppType}

module _ (s : Scapy) (around : Surroundings s.Packet) (Holds : List (MainCall s.Packet) → Type 0)
    (Fine : MainCall s.Packet → Type 0)
    (step : (event : MainCall s.Packet) (log : List (MainCall s.Packet))
      → Fine event
      → Holds log
      → Holds (log ++ event ∷ []))
    (fine : (event : MainCall s.Packet) → is_external event ≡ false → Fine event) where
  say-Keeps : (printed : Line) → Keeps Holds (record_event (print printed))
  say-Keeps printed log held = step (print printed) log (fine (print printed) refl) held

  calls-Keeps :
      (event : MainCall s.Packet)
      → is_external event ≡ false
      → Keeps Holds (call around.world event)
  calls-Keeps event h = call-Keeps Holds Fine step around.world event (fine event h)

  says-Keeps : (lines : List Line) → Keeps Holds (for_each lines (λ l. record_event (print l)))
  says-Keeps = say_all-Keeps Holds Fine step (λ l. fine (print l) refl)

  evaluated-Keeps :
      {A : Type 0} (r : Result A) (next : A → Io (MainCall s.Packet) (Unit {0}))
      → ((a : A) → Keeps Holds (next a))
      → Keeps Holds (evaluate r >>= next)
  evaluated-Keeps r next h = >>=-Keeps Holds (evaluate r) next (λ l held. held) h

  then-Keeps :
      {A B : Type 0} (first : Io (MainCall s.Packet) A) (next : Io (MainCall s.Packet) B)
      → Keeps Holds first
      → Keeps Holds next
      → Keeps Holds (first >> next)
  then-Keeps first next h k = >>=-Keeps Holds first (λ _. next) h (λ _. k)

  said-Keeps :
      {A : Type 0} (printed : Line) (next : Io (MainCall s.Packet) A)
      → Keeps Holds next
      → Keeps Holds (record_event (print printed) >> next)
  said-Keeps printed next h = then-Keeps (record_event (print printed)) next (say-Keeps printed) h

  called-Keeps :
      {A : Type 0} (event : MainCall s.Packet) (next : Io (MainCall s.Packet) A)
      → is_external event ≡ false
      → Keeps Holds next
      → Keeps Holds (call around.world event >> next)
  called-Keeps event next h k = then-Keeps (call around.world event) next (calls-Keeps event h) k

  return-Keeps : {A : Type 0} (value : A) → Keeps Holds (return value)
  return-Keeps value log held = held

  save_temp-Keeps :
      (args : Arguments) (packets : List s.Packet) → Keeps Holds (save_temp s around args packets)
  unfolding save_temp
  save_temp-Keeps args packets =
      let written = write_pcap around.temp_path packets in
      let warned =
        record_event
          (print (line (codes "Warning: Could not write temporary PCAP for V2 pipeline"))) in
      let noted = record_event (
        print
          (text (codes "Live packets written to temporary PCAP: ") ∷ text around.temp_path ∷ [])) in
      let writing =
        try_else (call around.world written) any_error (warned >> return args.input)
          (λ _. noted >> return around.temp_path) in
      called-Keeps make_temp (call around.world close_temp >> writing) refl (
        called-Keeps close_temp writing refl (
          try_else-Keeps Holds (call around.world written) any_error (warned >> return args.input)
            (λ _. noted >> return around.temp_path) (calls-Keeps written refl) (say-Keeps _)
            (λ _. say-Keeps _)))

  load-Keeps : (args : Arguments) (live : Bool) → Keeps Holds (load s around args live)
  unfolding load
  load-Keeps args true =
      let sniffing =
        within live_call around.world (λ w. sniff (host_of s around w) (capture_for args) false) in
      let saving = λ (packets : List s.Packet). save_temp s around args packets >>= λ path.
      return {A = List s.Packet × Str} (packets, path) in
      let go_on = λ (packets : List s.Packet).
        record_event (print (captured_line args.pcap_save (length packets))) >> saving packets in
      said-Keeps (line (codes "Starting live packet capture...")) (sniffing >>= go_on) (
        >>=-Keeps Holds sniffing go_on
          (within-Keeps Holds Fine step live_call around.world
            (λ w. sniff (host_of s around w) (capture_for args) false)
            (λ e. fine (live_call e) refl))
          (λ packets. said-Keeps (captured_line args.pcap_save (length packets)) (saving packets) (
            >>=-Keeps Holds (save_temp s around args packets)
              (λ path. return {A = List s.Packet × Str} (packets, path))
              (save_temp-Keeps args packets)
              (λ path. return-Keeps {A = List s.Packet × Str} (packets, path)))))
  load-Keeps args false =
      let packets = around.in_file args.input in
      said-Keeps (text (codes "Reading packets from PCAP file: ") ∷ text args.input ∷ [])
        (call around.world (read_pcap args.input)
          >> return {A = List s.Packet × Str} (packets, args.input))
        (called-Keeps (read_pcap args.input)
          (return {A = List s.Packet × Str} (packets, args.input)) refl
          (return-Keeps {A = List s.Packet × Str} (packets, args.input)))

  protocol_lines-Keeps :
      (total : ℕ) (counts : Dict Str ℕ) → Keeps Holds (protocol_lines s around total counts)
  unfolding protocol_lines
  protocol_lines-Keeps total counts =
      for_each-Keeps Holds
        (λ entry. evaluate (protocol_share total entry) >>= λ l. record_event (print l))
        (λ entry.
          evaluated-Keeps (protocol_share total entry) (λ l. record_event (print l)) say-Keeps)
        counts

  print_statistics-Keeps :
      (statistics : Dict Str ℕ) (a : PacketAnalyzer) (parsed : List ParsedPacket)
      → Keeps Holds (print_statistics s around statistics a parsed)
  unfolding print_statistics
  print_statistics-Keeps statistics a parsed =
      let say = λ (l : Line). record_event {E = MainCall s.Packet} (print l) in
      let first = evaluate (first_packet parsed) >>= say in
      let security = for_each (security_lines a) say in
      let http = for_each (http_lines a) say in
      let sources = for_each (source_lines a) say in
      let protocols = protocol_lines s around (length parsed) statistics in
      then-Keeps (for_each (application_lines a) say)
        (protocols >> (sources >> (http >> (security >> first)))) (says-Keeps (application_lines a))
        (then-Keeps protocols (sources >> (http >> (security >> first)))
          (protocol_lines-Keeps (length parsed) statistics)
          (then-Keeps sources (http >> (security >> first)) (says-Keeps (source_lines a)) (
            then-Keeps http (security >> first) (says-Keeps (http_lines a)) (
              then-Keeps security first (says-Keeps (security_lines a))
                (evaluated-Keeps (first_packet parsed) say say-Keeps)))))

  pub second_pipeline-Keeps :
      (args : Arguments) (apps : Option (List AppType)) (path : Str)
      → Keeps Holds (second_pipeline s around args apps path)
  unfolding second_pipeline
  second_pipeline-Keeps args apps path =
      let say = λ (l : Line). record_event {E = MainCall s.Packet} (print l) in
      let pool = packet_pool s args.workers args.block_ip apps args.block_domain in
      let results = for_each (v2_lines around.v2_report args.output) say in
      let run = run_v2 path args.output args.workers in
      let running = call around.world run >> results in
      then-Keeps (for_each v2_title say) (evaluate pool >>= λ p. running) (says-Keeps v2_title) (
        evaluated-Keeps pool (λ p. running)
          (λ p. called-Keeps run results refl (says-Keeps (v2_lines around.v2_report args.output))))

  -- From the filtered capture on.
  pub report_on-Keeps :
      (args : Arguments) (packets : List s.Packet) (parsed : List ParsedPacket)
      (statistics : Dict Str ℕ) (a : PacketAnalyzer)
      → MaySkip Holds Fine step around fine
      → Keeps Holds (report_on s around args packets parsed statistics a)
  unfolding report_on
  report_on-Keeps args packets parsed statistics a skip =
      let say = λ (l : Line). record_event {E = MainCall s.Packet} (print l) in
      let report = write_report (security_report statistics a) in
      let filtered = write_pcap args.v1_output (v1_packets s a.connection_tracker packets) in
      let events = events_of a.connection_tracker parsed in
      let told = text (codes "V1 filtered PCAP saved as ") ∷ text args.v1_output ∷ [] in
      let saved = line (codes "\nSecurity report saved as security_report.json") in
      let last = say told >> phases around events in
      let middle = say saved >> (call around.world filtered >> last) in
      then-Keeps (print_statistics s around statistics a parsed)
        (call around.world report >> middle) (print_statistics-Keeps statistics a parsed)
        (called-Keeps report middle refl (
          said-Keeps saved (call around.world filtered >> last) (
            called-Keeps filtered last refl (
              said-Keeps told (phases around events)
                (phases-Keeps Holds Fine step around fine events skip)))))

  analyze_packets-Keeps :
      (args : Arguments) (packets : List s.Packet) (path : Str) (apps : Option (List AppType))
      → MaySkip Holds Fine step around fine
      → Keeps Holds (analyze_packets s around args packets path apps)
  unfolding analyze_packets
  analyze_packets-Keeps args packets path apps skip =
      let parsed = parse_all s packets in
      let done = analyze parsed (packet_analyzer (tracker_for s around args apps)) in
      let last = second_pipeline s around args apps path in
      evaluated-Keeps done.0
        (λ counts. report_on s around args packets parsed counts done.1 >> last)
        (λ counts.
          then-Keeps (report_on s around args packets parsed counts done.1) last
            (report_on-Keeps args packets parsed counts done.1 skip)
            (second_pipeline-Keeps args apps path))

  -- Everything that `main` does.
  pub main-Keeps :
      (args : Arguments) → MaySkip Holds Fine step around fine → Keeps Holds (main s around args)
  unfolding main main_live
  main-Keeps args skip =
      let apps = blocked_apps args.block_app in
      let go_on = λ (loaded : List s.Packet × Str).
        evaluate apps >>= analyze_packets s around args loaded.0 loaded.1 in
      let told = λ (loaded : List s.Packet × Str).
        about (codes "Successfully processed ") (length loaded.0) (codes " packets.") in
      let rest =
        λ (loaded : List s.Packet × Str). record_event (print (told loaded)) >> go_on loaded in
      said-Keeps (line (codes "Python DPI Engine")) (load s around args args.live >>= rest) (
        >>=-Keeps Holds (load s around args args.live) rest (load-Keeps args args.live) (λ loaded.
          said-Keeps (told loaded) (go_on loaded) (
            evaluated-Keeps apps (analyze_packets s around args loaded.0 loaded.1)
              (λ chosen. analyze_packets-Keeps args loaded.0 loaded.1 chosen skip))))
