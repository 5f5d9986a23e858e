-- ===== src/Sinks.antt =====
-- src/data_engineering: the sinks of the events. The columns of an event, as every sink writes them.
pub mod Columns
pub mod Kafka
pub mod Postgres
pub mod Parquet
pub mod Samples
mod Tests
use dpi_engine_python.Dict.{Dict}
use dpi_engine_python.Emitter.{NetworkEvent}
use dpi_engine_python.Prelude.{ℕ, ◌≡◌, Bool, true, false, Option, none, some, List, [], ◌∷◌, map}
use dpi_engine_python.Processor.{Decision, forward, drop}
use dpi_engine_python.Text.{Str, codes}

-- A value of an event, as the libraries get it: Python's str, int, bool or None.
pub data Value : Type 0 where
  text : Str → Value
  number : ℕ → Value
  flag : Bool → Value
  missing : Value

abbrev pub optional_text : Option Str → Value
optional_text none = missing
optional_text (some t) = text t

unfoldable pub decision_name : Decision → Str
decision_name forward = codes "FORWARD"
decision_name drop = codes "DROP"

abbrev pub is_drop : Decision → Bool
is_drop forward = false
is_drop drop = true

-- An event that is marked as blocked exactly where it is dropped.
abbrev pub IsConsistent : NetworkEvent → Type 0
IsConsistent e = e.blocked ≡ is_drop e.decision

-- The message that `KafkaSink.publish` builds from an event.
unfoldable pub kafka_message : NetworkEvent → Dict Str Value
kafka_message e =
    (codes "src_ip", text e.src_ip)
    ∷ (codes "dst_ip", text e.dst_ip)
    ∷ (codes "src_port", number e.src_port)
    ∷ (codes "dst_port", number e.dst_port)
    ∷ (codes "protocol", text e.protocol)
    ∷ (codes "packet_length", number e.packet_length)
    ∷ (codes "sni", optional_text e.sni)
    ∷ (codes "http_host", optional_text e.http_host)
    ∷ (codes "http_method", optional_text e.http_method)
    ∷ (codes "http_path", optional_text e.http_path)
    ∷ (codes "user_agent", optional_text e.user_agent)
    ∷ (codes "application", text e.application)
    ∷ (codes "decision", text (decision_name e.decision))
    ∷ (codes "blocked", flag e.blocked)
    ∷ (codes "flow_packet_count", number e.flow_packet_count)
    ∷ []

-- The row that `PostgresSink.write` builds from an event.
unfoldable pub postgres_row : NetworkEvent → List Value
postgres_row e =
    text e.src_ip
    ∷ text e.dst_ip
    ∷ number e.src_port
    ∷ number e.dst_port
    ∷ text e.protocol
    ∷ number e.packet_length
    ∷ optional_text e.sni
    ∷ optional_text e.http_host
    ∷ optional_text e.http_method
    ∷ optional_text e.http_path
    ∷ optional_text e.user_agent
    ∷ text e.application
    ∷ text (decision_name e.decision)
    ∷ flag e.blocked
    ∷ number e.flow_packet_count
    ∷ []

-- The columns of `INSERT_SQL`, which take the values of a row in order.
unfoldable pub insert_columns : List Str
insert_columns =
    codes "src_ip"
    ∷ codes "dst_ip"
    ∷ codes "src_port"
    ∷ codes "dst_port"
    ∷ codes "protocol"
    ∷ codes "packet_length"
    ∷ codes "sni"
    ∷ codes "http_host"
    ∷ codes "http_method"
    ∷ codes "http_path"
    ∷ codes "user_agent"
    ∷ codes "application"
    ∷ codes "decision"
    ∷ codes "blocked"
    ∷ codes "flow_packet_count"
    ∷ []

pub data SqlType : Type 0 where
  sql_text sql_integer sql_boolean : SqlType

-- The columns of `CREATE TABLE`, with their types.
unfoldable pub create_columns : List (Str × SqlType)
create_columns =
    (codes "src_ip", sql_text)
    ∷ (codes "dst_ip", sql_text)
    ∷ (codes "src_port", sql_integer)
    ∷ (codes "dst_port", sql_integer)
    ∷ (codes "protocol", sql_text)
    ∷ (codes "packet_length", sql_integer)
    ∷ (codes "sni", sql_text)
    ∷ (codes "http_host", sql_text)
    ∷ (codes "http_method", sql_text)
    ∷ (codes "http_path", sql_text)
    ∷ (codes "user_agent", sql_text)
    ∷ (codes "application", sql_text)
    ∷ (codes "decision", sql_text)
    ∷ (codes "blocked", sql_boolean)
    ∷ (codes "flow_packet_count", sql_integer)
    ∷ []

-- The table of `ParquetSink.write`: a list of values for each column.
abbrev pub Table : Type 0
Table = Dict Str (List Value)

unfoldable pub table_of : List NetworkEvent → Table
table_of events =
    (codes "src_ip", map (λ e. text e.src_ip) events)
    ∷ (codes "dst_ip", map (λ e. text e.dst_ip) events)
    ∷ (codes "src_port", map (λ e. number e.src_port) events)
    ∷ (codes "dst_port", map (λ e. number e.dst_port) events)
    ∷ (codes "protocol", map (λ e. text e.protocol) events)
    ∷ (codes "packet_length", map (λ e. number e.packet_length) events)
    ∷ (codes "sni", map (λ e. optional_text e.sni) events)
    ∷ (codes "http_host", map (λ e. optional_text e.http_host) events)
    ∷ (codes "http_method", map (λ e. optional_text e.http_method) events)
    ∷ (codes "http_path", map (λ e. optional_text e.http_path) events)
    ∷ (codes "user_agent", map (λ e. optional_text e.user_agent) events)
    ∷ (codes "application", map (λ e. text e.application) events)
    ∷ (codes "decision", map (λ e. text (decision_name e.decision)) events)
    ∷ (codes "blocked", map (λ e. flag e.blocked) events)
    ∷ (codes "flow_packet_count", map (λ e. number e.flow_packet_count) events)
    ∷ []
