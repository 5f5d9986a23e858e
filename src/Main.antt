-- ===== src/Main.antt =====
-- main.py: the command line program. What argparse makes of the command line is a record, the lines
-- that are printed are data, and the code that `main` calls is either that of the other modules or a
-- part of the surroundings.
pub mod Lines
pub mod Apps
pub mod Phases
pub mod Run
pub mod Events
pub mod Consistent
pub mod Verdict
pub mod Portless
pub mod Keeps
pub mod Whole
pub mod Skips
pub mod Completes
pub mod Failures
mod Tests
use dpi_engine_python.Dict.{Dict}
use dpi_engine_python.Emitter.{NetworkEvent}
use dpi_engine_python.Io.{Outcome, Io, World}
use dpi_engine_python.Live.{Iface, LiveCall}
use dpi_engine_python.Packet.{Scapy, ParsedPacket}
use dpi_engine_python.Pipeline.{Report}
use dpi_engine_python.Prelude.{ℕ, Bool, true, false, Option, none, some, List, [], ◌∷◌, ◌++◌, map}
use dpi_engine_python.Prelude.Result.{Error, Result, ok, err}
use dpi_engine_python.Sinks.Kafka.{KafkaCall}
use dpi_engine_python.Sinks.Parquet.{ParquetCall}
use dpi_engine_python.Sinks.Postgres.{SqlCall}
use dpi_engine_python.Spark.{SparkCall}
use dpi_engine_python.Text.{Str, codes}

-- What `parse_arguments` returns.
pub record Arguments : Type 0 where
  pub input : Str
  pub output : Str
  pub v1_output : Str
  pub workers : ℕ
  pub block_ip : Option (List Str)
  pub block_domain : Option (List Str)
  pub block_app : Option (List Str)
  pub live : Bool
  pub interface : Option Str
  pub timeout : ℕ
  pub filter : Option Str
  pub stop_after : Option ℕ
  pub pcap_save : Option Str

-- An empty command line.
abbrev pub default_arguments : Arguments
default_arguments = record {
  input = codes "input/test_dpi.pcap";
  output = codes "output/v2_filtered_output.pcap";
  v1_output = codes "output/v1_filtered_output.pcap";
  workers = 4;
  block_ip = none;
  block_domain = none;
  block_app = none;
  live = false;
  interface = none;
  timeout = 10;
  filter = none;
  stop_after = none;
  pcap_save = none;
}

-- A part of a printed line. `padded n t` is `{t:<n}`, and `percent a b` is `{a / b * 100:.1f}`.
pub data Piece : Type 0 where
  text : Str → Piece
  number : ℕ → Piece
  padded : ℕ → Str → Piece
  padded_number : ℕ → ℕ → Piece
  optional : Option Str → Piece
  percent : ℕ → ℕ → Piece
  packet : ParsedPacket → Piece

abbrev pub Line : Type 0
Line = List Piece

abbrev pub line : Str → Line
line t = text t ∷ []

-- `security_report.json`
pub record SecurityReport : Type 0 where
  pub protocol_statistics : Dict Str ℕ
  pub http_packets : ℕ
  pub https_packets : ℕ
  pub tls_handshakes : ℕ
  pub http_methods : Dict Str ℕ
  pub http_hosts : List Str
  pub http_paths : List Str
  pub sni_domains : List Str
  pub suspicious_domains : List Str
  pub risk_level : Str

-- The calls of other code, in the order of the program.
pub data MainCall (P : Type 0) : Type 0 where
  print : Line → MainCall P
  read_pcap : Str → MainCall P
  write_pcap : Str → List P → MainCall P
  make_temp close_temp import_etl import_dag : MainCall P
  write_report : SecurityReport → MainCall P
  run_v2 : Str → Str → ℕ → MainCall P
  live_call : LiveCall P → MainCall P
  parquet_call : ParquetCall → MainCall P
  spark_call : SparkCall → MainCall P
  sql_call : SqlCall → MainCall P
  kafka_call : KafkaCall → MainCall P

-- What the program meets: what the calls answer, what files and Scapy hold, the value of
-- DPI_SKIP_EXTERNAL_SINKS, whether there is a DAG, and the report of the second pipeline.
pub record Surroundings (P : Type 0) : Type 0 where
  pub world : World (MainCall P)
  pub ifaces : Dict Str Iface
  pub path_exists : Str → Bool
  pub captured : Bool → List P
  pub in_file : Str → List P
  pub temp_path : Str
  pub skip_external_sinks : Option Str
  pub has_dag : Bool
  pub v2_report : Report

-- A program with calls of its own, as a part of this one.
abbrev pub within :
    {P E A : Type 0}
    → (E → MainCall P)
    → World (MainCall P)
    → (World E → Io E A)
    → Io (MainCall P) A
within wrap world program log =
    let o = program (λ own event. world (log ++ map wrap own) (wrap event)) [] in
    record { log = log ++ map wrap o.log; result = o.result }
