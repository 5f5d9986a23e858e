-- ===== src/Main/Phases.antt =====
-- main.py: what follows the analysis, from the filtered capture to the hooks of the data engineering.
use dpi_engine_python.Emitter.{NetworkEvent, emit_all}
use dpi_engine_python.Io.{Io, is_import_error, return, call, record_event, ◌>>=◌, ◌>>◌, attempt}
use dpi_engine_python.Main.{
  text, number, Line, line, MainCall, print, import_etl, import_dag, parquet_call, spark_call,
  sql_call, kafka_call, Surroundings, within,
}
use dpi_engine_python.Packet.{Scapy, ParsedPacket, parse}
use dpi_engine_python.Prelude.{
  ℕ, Bool, true, false, not, Option, some, List, [], ◌∷◌, map, keep, length, if◌then◌else◌,
}
use dpi_engine_python.Prelude.Eq.{◌==◌, option_eq, list_eq, nat_eq}
use dpi_engine_python.Processor.{Decision, forward, drop}
use dpi_engine_python.Sinks.Kafka.{publish}
use dpi_engine_python.Sinks.Parquet.{write_parquet}
use dpi_engine_python.Sinks.Postgres.{write}
use dpi_engine_python.Spark.{run_etl}
use dpi_engine_python.Text.{Str, codes}
use dpi_engine_python.Tracker.{ConnectionTracker, is_packet_blocked}

-- `"DROP" if connection_tracker.is_packet_blocked(p) else "FORWARD"`
unfoldable pub decision_of : ConnectionTracker → ParsedPacket → Decision
decision_of t p = if is_packet_blocked t p then drop else forward

unfoldable pub decisions_of : ConnectionTracker → List ParsedPacket → List Decision
decisions_of t packets = map (decision_of t) packets

-- The events of the first phase.
unfoldable pub events_of : ConnectionTracker → List ParsedPacket → List NetworkEvent
events_of t packets = emit_all t packets (decisions_of t packets)

-- The packets of `v1_output`.
unfoldable pub v1_packets : (s : Scapy) → ConnectionTracker → List s.Packet → List s.Packet
v1_packets s t packets = keep (λ packet. not (is_packet_blocked t (parse s packet))) packets

abbrev pub parquet_path : Str
parquet_path = codes "output/network_events.parquet"

abbrev pub etl_path : Str
etl_path = codes "output/pyspark_etl_output"

abbrev pub connection : Str
connection = codes "dbname=dpi user=postgres password=secret host=localhost port=5432"

abbrev pub table_name : Str
table_name = codes "network_events"

unfoldable pub skips : Option Str → Bool
skips setting = setting == some (codes "1")

module _ {P : Type 0} (around : Surroundings P) where
  abbrev Main : Type 0 → Type 0
  Main A = Io (MainCall P) A

  abbrev pub parquet_line : ℕ → Line
  parquet_line count =
      text (codes "\nParquet events written: ")
      ∷ text parquet_path
      ∷ text (codes " (")
      ∷ number count
      ∷ text (codes " events)")
      ∷ []

  -- The name `events` is bound before the file is written, so an ImportError leaves the events.
  unfoldable pub parquet_phase : List NetworkEvent → Main (Unit {0})
  parquet_phase events =
      attempt
        (within parquet_call around.world (λ w. write_parquet w events parquet_path)
          >> record_event (print (parquet_line (length events))))
        is_import_error (return tt)

  unfoldable pub etl_phase : Main (Unit {0})
  etl_phase =
      attempt
        (call around.world import_etl
          >> within spark_call around.world (λ w. run_etl w parquet_path etl_path))
        is_import_error (return tt)

  -- What the call returned is not looked at.
  abbrev then_print : Line → Bool → Main (Unit {0})
  then_print printed returned = record_event (print printed)

  abbrev pub postgres_line : ℕ → Line
  postgres_line count =
      text (codes "\nPostgreSQL: ")
      ∷ number count
      ∷ text (codes " rows written to 'network_events'.")
      ∷ []

  -- With whether the external sinks are skipped.
  unfoldable pub postgres_unless : Bool → List NetworkEvent → Main (Unit {0})
  postgres_unless true events = return tt
  postgres_unless false events =
      within sql_call around.world (λ w. write w events connection table_name)
      >>= then_print (postgres_line (length events))

  unfoldable pub postgres_phase : List NetworkEvent → Main (Unit {0})
  postgres_phase events =
      attempt (postgres_unless (skips around.skip_external_sinks) events) is_import_error
        (return tt)

  abbrev pub kafka_line : ℕ → Line
  kafka_line count =
      text (codes "\nKafka: ")
      ∷ number count
      ∷ text (codes " events published to 'network_events'.")
      ∷ []

  unfoldable pub kafka_unless : Bool → List NetworkEvent → Main (Unit {0})
  kafka_unless true events = return tt
  kafka_unless false events =
      within kafka_call around.world (λ w. publish w events table_name (codes "localhost:9092"))
      >>= then_print (kafka_line (length events))

  unfoldable pub kafka_phase : List NetworkEvent → Main (Unit {0})
  kafka_phase events =
      attempt (kafka_unless (skips around.skip_external_sinks) events) is_import_error (return tt)

  abbrev pub print_dag : Bool → Main (Unit {0})
  print_dag false = return tt
  print_dag true =
      record_event
        (print (line (codes "\nAirflow DAG 'dpi_data_engineering_pipeline' registered.")))

  unfoldable pub airflow_phase : Main (Unit {0})
  airflow_phase =
      attempt (call around.world import_dag >> print_dag around.has_dag) is_import_error (return tt)

  unfoldable pub phases : List NetworkEvent → Main (Unit {0})
  phases events =
      parquet_phase events
      >> (etl_phase >> (postgres_phase events >> (kafka_phase events >> airflow_phase)))
