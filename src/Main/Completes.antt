-- ===== src/Main/Completes.antt =====
-- `main` where the code of other projects answers.
use dpi_engine_python.Analyzer.{PacketAnalyzer, packet_analyzer}
use dpi_engine_python.Analyzer.Loop.{analyze}
use dpi_engine_python.Analyzer.Totals.{analyze_counts}
use dpi_engine_python.Dict.{Dict}
use dpi_engine_python.Emitter.{NetworkEvent}
use dpi_engine_python.Engine.Results.{parse_all}
use dpi_engine_python.Io.{
  Io, Outcome, World, is_import_error, return, call, record_event, ◌>>=◌, ◌>>◌, attempt, for_each,
  evaluate,
}
use dpi_engine_python.Io.Calls.{Result-cases}
use dpi_engine_python.Main.{
  Arguments, MainCall, Line, print, import_dag, read_pcap, write_pcap, write_report, run_v2,
  Surroundings,
}
use dpi_engine_python.Main.Apps.{blocked_apps}
use dpi_engine_python.Main.Keeps.{phases-Keeps, say_all-Keeps}
use dpi_engine_python.Main.Lines.{
  application_lines, protocol_share, source_lines, http_lines, security_lines, first_packet,
  security_report, v2_title, v2_lines,
}
use dpi_engine_python.Main.Phases.{
  connection, table_name, events_of, v1_packets, parquet_phase, etl_phase, postgres_unless,
  postgres_phase, kafka_unless, kafka_phase, print_dag, airflow_phase, phases,
}
use dpi_engine_python.Main.Run.{
  load, protocol_lines, print_statistics, report_on, second_pipeline, tracker_for, analyze_packets,
  main_live, main,
}
use dpi_engine_python.Main.Verdict.{is_blocked_in, v1_packets-verdict}
use dpi_engine_python.Packet.{Scapy, ParsedPacket, parse}
use dpi_engine_python.Pipeline.{PacketPool, packet_pool}
use dpi_engine_python.Pool.{worker_pool}
use dpi_engine_python.Balancer.{flow_balancer}
use dpi_engine_python.Prelude.Eq.{◌==◌, nat_eq, beq-eq-true, contains}
use dpi_engine_python.Prelude.{
  ℕ, suc, ◌≡◌, ◌≢◌, refl, ap, inl, inr, Bool, true, false, Option, List, [], ◌∷◌, ◌++◌, In, length,
  Bool-cases, map, keep, not, sym, subst, ◌∙◌, append-nil, append_assoc,
}
use dpi_engine_python.Prelude.Result.{Error, Result, ok, err}
use dpi_engine_python.Rules.{rule_manager}
use dpi_engine_python.Sinks.Kafka.{KafkaCall, send_event, send_all, connect_and_send, publish}
use dpi_engine_python.Sinks.Parquet.{write_parquet}
use dpi_engine_python.Sinks.Postgres.{SqlCall, fill_table, store, connect_and_store, write}
use dpi_engine_python.Spark.{run_etl, with_session, transform, write_all}
use dpi_engine_python.Text.{Str, codes}
use dpi_engine_python.Tracker.Runs.{empty-IsValid}
use dpi_engine_python.Types.{AppType, unknown, app_eq}

-- Every call answers.
abbrev answering : {E : Type 0} → World E
answering log event = ok tt

-- Every call answers but the run of the second pipeline, which ends as it does.
abbrev pub answering_but :
    {P : Type 0} → (List (MainCall P) → Result (Unit {0})) → World (MainCall P)
answering_but v2 log (run_v2 path output workers) = v2 log
answering_but v2 log event = ok tt

-- The statement does not raise.
abbrev Ends : {E : Type 0} → Io E (Unit {0}) → Type 0
Ends m = (log : List _) → (m log).result ≡ ok tt

Ends-then :
    {E : Type 0} (first next : Io E (Unit {0})) → Ends first → Ends next → Ends (first >> next)
Ends-then first next h k log = rw (h log) (k (first log).log)

Ends-attempt :
    {E : Type 0} (body : Io E (Unit {0}))
    → Ends body
    → Ends (attempt body is_import_error (return tt))
Ends-attempt body h log = rw (h log) refl

said_ok :
    {P : Type 0} (lines : List Line) (log : List (MainCall P))
    → (for_each lines (λ l. record_event (print l)) log).result ≡ ok tt
said_ok [] log = refl
said_ok (l ∷ lines) log = said_ok lines (log ++ print l ∷ [])

write-ok :
    (events : List NetworkEvent) (database table : Str) (log : List SqlCall)
    → (b : Bool) × ((write answering events database table log).result ≡ ok b)
unfolding write connect_and_store store fill_table
write-ok [] database table log = (false, refl)
write-ok (e ∷ events) database table log = (true, refl)

sent_ok :
    (topic : Str) (events : List NetworkEvent) (log : List KafkaCall)
    → (for_each events (send_event answering topic) log).result ≡ ok tt
sent_ok topic [] log = refl
sent_ok topic (e ∷ events) log = sent_ok topic events _

publish-completes :
    (events : List NetworkEvent) (topic servers : Str) (log : List KafkaCall)
    → (b : Bool) × ((publish answering events topic servers log).result ≡ ok b)
unfolding publish connect_and_send send_all
publish-completes [] topic servers log = (false, refl)
publish-completes (e ∷ events) topic servers log = (true, rw (sent_ok topic events _) refl)

module _ {P : Type 0} (around : Surroundings P) (v2 : List (MainCall P) → Result (Unit {0}))
    (answered : around.world ≡ answering_but v2) where
  postgres_ok :
      (skipped : Bool) (events : List NetworkEvent) (log : List (MainCall P))
      → (postgres_unless around skipped events log).result ≡ ok tt
  unfolding postgres_unless
  postgres_ok true events log = refl
  postgres_ok false events log = rw (answered, (write-ok events connection table_name []).1) refl

  kafka_ok :
      (skipped : Bool) (events : List NetworkEvent) (log : List (MainCall P))
      → (kafka_unless around skipped events log).result ≡ ok tt
  unfolding kafka_unless
  kafka_ok true events log = refl
  kafka_ok false events log =
      rw (answered, (publish-completes events table_name (codes "localhost:9092") []).1) refl

  dag_ok : (b : Bool) (log : List (MainCall P)) → (print_dag around b log).result ≡ ok tt
  dag_ok true log = refl
  dag_ok false log = refl

  parquet_ok : (events : List NetworkEvent) → Ends (parquet_phase around events)
  unfolding parquet_phase write_parquet
  parquet_ok events log = rw answered refl

  etl_ok : Ends (etl_phase around)
  unfolding etl_phase run_etl with_session transform write_all
  etl_ok log = rw answered refl

  airflow_ok : Ends (airflow_phase around)
  unfolding airflow_phase
  airflow_ok = Ends-attempt (call around.world import_dag >> print_dag around around.has_dag) (
      Ends-then (call around.world import_dag) (print_dag around around.has_dag)
        (λ log. rw answered refl) (dag_ok around.has_dag))

  phases-ok : (events : List NetworkEvent) → Ends (phases around events)
  unfolding phases postgres_phase kafka_phase
  phases-ok events =
      let airflow = airflow_phase around in
      let kafka = kafka_phase around events in
      let postgres = postgres_phase around events in
      let etl = etl_phase around in
      Ends-then (parquet_phase around events) (etl >> (postgres >> (kafka >> airflow)))
        (parquet_ok events)
        (Ends-then etl (postgres >> (kafka >> airflow)) etl_ok (
          Ends-then postgres (kafka >> airflow) (Ends-attempt _ (postgres_ok _ events))
            (Ends-then kafka airflow (Ends-attempt _ (kafka_ok _ events)) airflow_ok)))

-- The run ended as the second pipeline did, which was run after `event`.
pub record EndsAs {P : Type 0} (v2 : List (MainCall P) → Result (Unit {0})) (event run : MainCall P)
    (o : Outcome (MainCall P) (Unit {0})) : Type 0 where
  pub before : List (MainCall P)
  pub rest : List (MainCall P)
  pub ended : o.result ≡ v2 before
  pub logged : o.log ≡ (before ++ run ∷ []) ++ rest
  pub written : In event before

said_log :
    {P : Type 0} (lines : List Line) (log : List (MainCall P))
    → (for_each lines (λ l. record_event (print l)) log).log ≡ log ++ map (λ l. print l) lines
said_log [] log = sym (append-nil log)
said_log (l ∷ lines) log =
    said_log lines (log ++ print l ∷ [])
    ∙ append_assoc log (print l ∷ []) (map (λ l. print l) lines)

module _ (s : Scapy) (around : Surroundings s.Packet)
    (v2 : List (MainCall s.Packet) → Result (Unit {0}))
    (answered : around.world ≡ answering_but v2) where
  protocol_lines-ok : (n : ℕ) (counts : Dict Str ℕ) → Ends (protocol_lines s around (suc n) counts)
  unfolding protocol_lines protocol_share
  protocol_lines-ok n [] log = refl
  protocol_lines-ok n (entry ∷ counts) log = protocol_lines-ok n counts _

  print_statistics-ok :
      (statistics : Dict Str ℕ) (a : PacketAnalyzer) (p : ParsedPacket) (parsed : List ParsedPacket)
      → Ends (print_statistics s around statistics a (p ∷ parsed))
  unfolding print_statistics first_packet
  print_statistics-ok statistics a p parsed =
      let say = λ (l : Line). record_event {E = MainCall s.Packet} (print l) in
      let first = evaluate (first_packet (p ∷ parsed)) >>= say in
      let security = for_each (security_lines a) say in
      let http = for_each (http_lines a) say in
      let sources = for_each (source_lines a) say in
      let protocols = protocol_lines s around (length (p ∷ parsed)) statistics in
      Ends-then (for_each (application_lines a) say)
        (protocols >> (sources >> (http >> (security >> first)))) (said_ok (application_lines a))
        (Ends-then protocols (sources >> (http >> (security >> first)))
          (protocol_lines-ok (length parsed) statistics)
          (Ends-then sources (http >> (security >> first)) (said_ok (source_lines a)) (
            Ends-then http (security >> first) (said_ok (http_lines a))
              (Ends-then security first (said_ok (security_lines a)) (λ log. refl)))))

  abbrev filtered : Arguments → List s.Packet → PacketAnalyzer → MainCall s.Packet
  filtered args packets a = write_pcap args.v1_output (v1_packets s a.connection_tracker packets)

  In-append : {A : Type 0} (x y : A) (xs : List A) → In x xs → In x (xs ++ y ∷ [])
  In-append x y [] h = absurd h
  In-append x y (z ∷ xs) (inl same) = inl same
  In-append x y (z ∷ xs) (inr later) = inr (In-append x y xs later)

  In-last : {A : Type 0} (x : A) (xs : List A) → In x (xs ++ x ∷ [])
  In-last x [] = inl refl
  In-last x (z ∷ xs) = inr (In-last x xs)

  answers :
      (log : List (MainCall s.Packet)) (event : MainCall s.Packet)
      → around.world log event ≡ answering_but v2 log event
  answers log event = ap (λ w. w log event) answered

  kept_by_phases :
      (args : Arguments) (packets : List s.Packet) (a : PacketAnalyzer) (events : List NetworkEvent)
      (log : List (MainCall s.Packet)) (printed : MainCall s.Packet)
      → In
          (filtered args packets a)
          (phases around events ((log ++ filtered args packets a ∷ []) ++ printed ∷ [])).log
  kept_by_phases args packets a events log printed =
      phases-Keeps (In (filtered args packets a)) (λ e. Unit {0})
        (λ e l fine there. In-append (filtered args packets a) e l there) around (λ e h. tt) events
        (inr ((λ e. tt), (λ e. tt))) _
        (In-append (filtered args packets a) printed _ (In-last (filtered args packets a) log))

  report_on-ok :
      (args : Arguments) (packets : List s.Packet) (p : ParsedPacket) (parsed : List ParsedPacket)
      (statistics : Dict Str ℕ) (a : PacketAnalyzer) (log : List (MainCall s.Packet))
      → (let o = report_on s around args packets (p ∷ parsed) statistics a log in
          (o.result ≡ ok tt) × In (filtered args packets a) o.log)
  unfolding report_on
  report_on-ok args packets p parsed statistics a log =
      let events = events_of a.connection_tracker (p ∷ parsed) in
      rw
        (
          print_statistics-ok statistics a p parsed log,
          answers _ (write_report (security_report statistics a)),
          answers _ (filtered args packets a),
        )
        (phases-ok around v2 answered events _, kept_by_phases args packets a events _ _)

  pool-ok :
      (args : Arguments) (apps : Option (List AppType))
      → args.workers ≢ 0
      → (pool : PacketPool s) × (packet_pool s args.workers args.block_ip apps args.block_domain
          ≡ ok pool)
  pool-ok args apps workers =
      elim (Result-cases (packet_pool s args.workers args.block_ip apps args.block_domain)) [
        | inl made ↦ made
        | inr (e, refused) ↦ elim (Bool-cases (args.workers == 0)) [
          | inl none_there ↦ absurd (workers (beq-eq-true args.workers 0 none_there))
          | inr other ↦ unfold worker_pool flow_balancer in absurd (never (rw other at refused))
        ]
      ]
    where
      never : {A : Type 0} {a : A} {e : Error} → ¬ ok a ≡ err e
      never = cc

  running-ok :
      (path output : Str) (workers : ℕ) (lines : List Line) (event : MainCall s.Packet)
      (log : List (MainCall s.Packet))
      → In event log
      → EndsAs v2 event (run_v2 path output workers) (
          (call around.world (run_v2 path output workers)
              >> for_each lines (λ l. record_event (print l)))
            log)
  running-ok path output workers lines event log there =
      let run = run_v2 path output workers in
      elim (Result-cases (v2 log)) [
        | inl (_, e) ↦
            rw (answers log run, e)
              (record {
                before = log;
                rest = map (λ l. print l) lines;
                ended = said_ok lines (log ++ run ∷ []) ∙ sym e;
                logged = said_log lines (log ++ run ∷ []);
                written = there;
              })
        | inr (e, raised) ↦
            rw (answers log run, raised)
              (record {
                before = log;
                rest = [];
                ended = sym raised;
                logged = sym (append-nil (log ++ run ∷ []));
                written = there;
              })
      ]

  second_pipeline-ok :
      (args : Arguments) (apps : Option (List AppType)) (path : Str) (event : MainCall s.Packet)
      (log : List (MainCall s.Packet))
      → args.workers ≢ 0
      → In event log
      → EndsAs v2 event
          (run_v2 path args.output args.workers)
          (second_pipeline s around args apps path log)
  unfolding second_pipeline
  second_pipeline-ok args apps path event log workers there =
      let (pool, made) = pool-ok args apps workers in
      let still =
        say_all-Keeps (In event) (λ e. Unit {0}) (λ e l fine held. In-append event e l held)
          (λ l. tt) v2_title log there in
      rw made (
        running-ok path args.output args.workers (v2_lines around.v2_report args.output) event _
          still)

  analyze_packets-ok :
      (args : Arguments) (packets : List s.Packet) (path : Str) (apps : Option (List AppType))
      (log : List (MainCall s.Packet))
      → packets ≢ []
      → args.workers ≢ 0
      → (let o = analyze_packets s around args packets path apps log in
          let a =
            (analyze (parse_all s packets) (packet_analyzer (tracker_for s around args apps))).1 in
          EndsAs v2 (filtered args packets a) (run_v2 path args.output args.workers) o)
  unfolding analyze_packets
  analyze_packets-ok args [] path apps log some_packet workers = absurd (some_packet refl)
  analyze_packets-ok args (p ∷ packets) path apps log some_packet workers =
      let parsed = parse_all s (p ∷ packets) in
      let start = packet_analyzer (tracker_for s around args apps) in
      let counts =
        (analyze_counts parsed start
          (empty-IsValid (rule_manager args.block_ip apps args.block_domain))).0 in
      let a = (analyze parsed start).1 in
      let (reported, there) =
        report_on-ok args (p ∷ packets) (parse s p) (parse_all s packets) a.protocol_count a log in
      rw (counts, reported)
        (second_pipeline-ok args apps path (filtered args (p ∷ packets) a) _ workers there)

  main_live-ok :
      (args : Arguments) (apps : Option (List AppType)) (live : Bool)
      → live ≡ false
      → around.in_file args.input ≢ []
      → blocked_apps args.block_app ≡ ok apps
      → args.workers ≢ 0
      → (let o = main_live s around args live [] in
          let packets = around.in_file args.input in
          let a =
            (analyze (parse_all s packets) (packet_analyzer (tracker_for s around args apps))).1 in
          EndsAs v2 (filtered args packets a) (run_v2 args.input args.output args.workers) o)
  unfolding main_live load
  main_live-ok args apps true offline some_packet chosen workers = absurd cc
  main_live-ok args apps false offline some_packet chosen workers =
      rw (answers _ (read_pcap args.input), chosen)
        (analyze_packets-ok args (around.in_file args.input) args.input apps _ some_packet workers)

  -- Where every call but the second pipeline answers, `main` gets to that pipeline on a capture file
  -- that has packets, with names of applications that it knows, UNKNOWN not among the blocked ones, and
  -- some workers; and it ends as the pipeline ends, whether that returns or raises. Before the run it has
  -- written to the first capture the packets that the rules do not block, told by the rules and the
  -- packets alone.
  pub main-run_v2 :
      (args : Arguments) (apps : Option (List AppType))
      → args.live ≡ false
      → around.in_file args.input ≢ []
      → blocked_apps args.block_app ≡ ok apps
      → contains unknown (rule_manager args.block_ip apps args.block_domain).blocked_apps ≡ false
      → args.workers ≢ 0
      → (let packets = around.in_file args.input in
          let m = rule_manager args.block_ip apps args.block_domain in
          let passed =
            keep (λ packet. not (is_blocked_in m (parse_all s packets) (parse s packet))) packets in
          EndsAs v2
            (write_pcap args.v1_output passed)
            (run_v2 args.input args.output args.workers)
            (main s around args []))
  unfolding main
  main-run_v2 args apps offline some_packet chosen open_app workers =
      subst
        (λ written.
          EndsAs v2 (write_pcap args.v1_output written) (run_v2 args.input args.output args.workers)
            (main_live s around args args.live []))
        (v1_packets-verdict s args.block_ip apps args.block_domain (around.in_file args.input)
          open_app)
        (main_live-ok args apps args.live offline some_packet chosen workers)
