-- ===== src/Main/Run.antt =====
-- main.py: `main`, from the packets to the report of the second pipeline.
use dpi_engine_python.Analyzer.{PacketAnalyzer, packet_analyzer}
use dpi_engine_python.Analyzer.Loop.{analyze}
use dpi_engine_python.Dict.{Dict}
use dpi_engine_python.Engine.Results.{parse_all}
use dpi_engine_python.Io.{
  Io, World, any_error, return, call, record_event, ◌>>=◌, ◌>>◌, try_else, for_each, evaluate,
}
use dpi_engine_python.Live.{LivePacketCapture, LiveCall, Host}
use dpi_engine_python.Live.Capture.{sniff}
use dpi_engine_python.Main.{
  Arguments, text, number, Line, line, MainCall, print, read_pcap, write_pcap, make_temp,
  close_temp, write_report, run_v2, live_call, Surroundings, within,
}
use dpi_engine_python.Main.Apps.{blocked_apps}
use dpi_engine_python.Main.Lines.{
  application_lines, protocol_share, source_lines, http_lines, security_lines, first_packet,
  security_report, v2_title, v2_lines,
}
use dpi_engine_python.Main.Phases.{events_of, v1_packets, phases}
use dpi_engine_python.Packet.{Scapy, ParsedPacket}
use dpi_engine_python.Pipeline.{packet_pool}
use dpi_engine_python.Prelude.{ℕ, Bool, true, false, Option, none, some, List, [], ◌∷◌, length}
use dpi_engine_python.Text.{Str, codes}
use dpi_engine_python.Tracker.{ConnectionTracker, connection_tracker}
use dpi_engine_python.Types.{AppType}

abbrev pub about : Str → ℕ → Str → Line
about before count after = text before ∷ number count ∷ text after ∷ []

-- The capture object that `main` makes.
abbrev pub capture_for : Arguments → LivePacketCapture
capture_for args = record {
  interface = args.interface;
  promiscuous = true;
  timeout = args.timeout;
  filter = args.filter;
  stop_after = args.stop_after;
  pcap_save = args.pcap_save;
}

-- The line on the captured packets.
unfoldable pub captured_line : Option Str → ℕ → Line
captured_line none ℕ.zero = line (codes "Warning: No packets captured in live mode.")
captured_line none count = about (codes "Captured ") count (codes " packets via live capture.")
captured_line (some path) count =
    text (codes "Captured ")
    ∷ number count
    ∷ text (codes " packets (saved to ")
    ∷ text path
    ∷ text (codes ").")
    ∷ []

module _ (s : Scapy) (around : Surroundings s.Packet) where
  abbrev Main : Type 0 → Type 0
  Main A = Io (MainCall s.Packet) A

  abbrev say : Line → Main (Unit {0})
  say printed = record_event (print printed)

  abbrev say_all : List Line → Main (Unit {0})
  say_all lines = for_each lines say

  abbrev pub host_of : World (LiveCall s.Packet) → Host s.Packet
  host_of world = record {
    world = world;
    ifaces = around.ifaces;
    path_exists = around.path_exists;
    captured = around.captured;
    replayed = around.in_file;
  }

  -- The captured packets go to a temporary file, the input of the second pipeline; where that fails it
  -- gets the input file. The line on the failure is here without the text of the exception.
  unfoldable pub save_temp : Arguments → List s.Packet → Main Str
  save_temp args packets =
      call around.world make_temp
      >> (call around.world close_temp
          >> try_else (call around.world (write_pcap around.temp_path packets)) any_error
              (say (line (codes "Warning: Could not write temporary PCAP for V2 pipeline"))
                >> return args.input)
              (λ _.
                say (
                  text (codes "Live packets written to temporary PCAP: ")
                  ∷ text around.temp_path
                  ∷ [])
                >> return around.temp_path))

  -- The packets, and the input file of the second pipeline.
  unfoldable pub load : Arguments → Bool → Main (List s.Packet × Str)
  load args true =
      say (line (codes "Starting live packet capture..."))
      >> (within live_call around.world (λ w. sniff (host_of w) (capture_for args) false)
          >>= λ packets.
              say (captured_line args.pcap_save (length packets))
              >> (save_temp args packets >>= λ path. return (packets, path)))
  load args false =
      say (text (codes "Reading packets from PCAP file: ") ∷ text args.input ∷ [])
      >> (call around.world (read_pcap args.input)
          >> return (around.in_file args.input, args.input))

  -- The lines of the protocols, with their share of all packets.
  unfoldable pub protocol_lines : ℕ → Dict Str ℕ → Main (Unit {0})
  protocol_lines total counts =
      for_each counts (λ entry. evaluate (protocol_share total entry) >>= say)

  unfoldable pub print_statistics :
      Dict Str ℕ → PacketAnalyzer → List ParsedPacket → Main (Unit {0})
  print_statistics statistics a parsed =
      say_all (application_lines a)
      >> (protocol_lines (length parsed) statistics
          >> (say_all (source_lines a)
              >> (say_all (http_lines a)
                  >> (say_all (security_lines a) >> (evaluate (first_packet parsed) >>= say)))))

  -- The second pipeline, whose constructor makes the pool of workers.
  unfoldable pub second_pipeline : Arguments → Option (List AppType) → Str → Main (Unit {0})
  second_pipeline args apps path =
      say_all v2_title
      >> (evaluate (packet_pool s args.workers args.block_ip apps args.block_domain) >>= λ pool.
          call around.world (run_v2 path args.output args.workers)
          >> say_all (v2_lines around.v2_report args.output))

  -- From the analysis on.
  unfoldable pub report_on :
      Arguments → List s.Packet → List ParsedPacket → Dict Str ℕ → PacketAnalyzer → Main (Unit {0})
  report_on args packets parsed statistics a =
      print_statistics statistics a parsed
      >> (call around.world (write_report (security_report statistics a))
          >> (say (line (codes "\nSecurity report saved as security_report.json"))
              >> (call around.world
                    (write_pcap args.v1_output (v1_packets s a.connection_tracker packets))
                  >> (say (text (codes "V1 filtered PCAP saved as ") ∷ text args.v1_output ∷ [])
                      >> phases around (events_of a.connection_tracker parsed)))))

  abbrev pub tracker_for : Arguments → Option (List AppType) → ConnectionTracker
  tracker_for args apps = connection_tracker args.block_ip apps args.block_domain

  unfoldable pub analyze_packets :
      Arguments → List s.Packet → Str → Option (List AppType) → Main (Unit {0})
  analyze_packets args packets path apps =
      let parsed = parse_all s packets in
      let (statistics, a) = analyze parsed (packet_analyzer (tracker_for args apps)) in
      evaluate statistics >>= λ counts.
      report_on args packets parsed counts a >> second_pipeline args apps path

  -- With the value of `args.live`.
  unfoldable pub main_live : Arguments → Bool → Main (Unit {0})
  main_live args live =
      say (line (codes "Python DPI Engine"))
      >> (load args live >>= λ (packets, path).
          say (about (codes "Successfully processed ") (length packets) (codes " packets."))
          >> (evaluate (blocked_apps args.block_app) >>= analyze_packets args packets path))

  unfoldable pub main : Arguments → Main (Unit {0})
  main args = main_live args args.live
