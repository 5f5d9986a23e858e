-- ===== src/Spark.antt =====
-- src/data_engineering/pyspark_etl.py: the Spark job on the events. The queries that the code builds
-- are data; what Spark answers to them is a parameter, with what its documentation says of the
-- operations that are used.
pub mod Summary
pub mod Stops
pub mod Samples
mod Tests
use dpi_engine_python.Emitter.{NetworkEvent}
use dpi_engine_python.Io.{
  Outcome, Io, World, any_error, is_import_error, return, raise, call, record_event, on_result,
  ◌>>=◌, ◌>>◌, try_else, finally,
}
use dpi_engine_python.Prelude.{
  ℕ, ◌≡◌, ◌↔◌, Bool, true, false, ◌&&◌, List, [], ◌∷◌, ◌++◌, keep, length, any,
}
use dpi_engine_python.Prelude.Eq.{◌==◌, list_eq, nat_eq, contains}
use dpi_engine_python.Prelude.Result.{Error, Result, ok, err}
use dpi_engine_python.Sinks.{decision_name}
use dpi_engine_python.Text.{Str, codes}

-- The columns of the events that the job groups by or selects.
pub data Column : Type 0 where
  application src_ip protocol : Column

-- `F.col("decision") == text`, `F.col("blocked") == flag` and `&`.
pub data Condition : Type 0 where
  decision_is : Str → Condition
  blocked_is : Bool → Condition
  both : Condition → Condition → Condition

-- `F.count("*")`, `F.sum(F.when(c, 1).otherwise(0))`, `F.approx_count_distinct("src_ip")` and
-- `F.avg("packet_length")`.
pub data Aggregate : Type 0 where
  count_rows approx_distinct_sources average_length : Aggregate
  sum_when : Condition → Aggregate

-- The tables that the job makes of the events: `groupBy(column).agg(...)`, which may be ordered by a
-- column and cut, and `filter(condition).select(column).distinct()`.
pub data Query : Type 0 where
  group_by : Column → List (Str × Aggregate) → Query
  top : ℕ → Str → Query → Query
  distinct_where : Condition → Column → Query

abbrev pub is_blocked : Condition
is_blocked = both (decision_is (codes "DROP")) (blocked_is true)

abbrev pub is_forwarded : Condition
is_forwarded = decision_is (codes "FORWARD")

unfoldable pub app_summary : Query
app_summary = group_by application (
    (codes "total_packets", count_rows)
    ∷ (codes "blocked_packets", sum_when is_blocked)
    ∷ (codes "forwarded_packets", sum_when is_forwarded)
    ∷ (codes "unique_src_ips", approx_distinct_sources)
    ∷ (codes "avg_packet_length", average_length)
    ∷ [])

unfoldable pub top_talkers : Query
top_talkers =
    top 10 (codes "packet_count") (group_by src_ip ((codes "packet_count", count_rows) ∷ []))

unfoldable pub protocol_dist : Query
protocol_dist = group_by protocol ((codes "packet_count", count_rows) ∷ [])

unfoldable pub blocked_apps_query : Query
blocked_apps_query = distinct_where is_blocked application

-- The calls of PySpark, and the lines that are printed. A query is evaluated where it is written.
pub data SparkCall : Type 0 where
  import_pyspark get_session stop print_no_java : SparkCall
  read_parquet : Str → SparkCall
  write_query : Query → Str → SparkCall
  print_completed : Str → SparkCall

module _ (world : World SparkCall) where
  -- The queries in order, each into a directory of its own.
  unfoldable pub write_all : Str → Io SparkCall (Unit {0})
  write_all output_path =
      call world (write_query app_summary (output_path ++ codes "/app_summary"))
      >> (call world (write_query top_talkers (output_path ++ codes "/top_talkers"))
          >> (call world (write_query protocol_dist (output_path ++ codes "/protocol_dist"))
              >> (call world (write_query blocked_apps_query (output_path ++ codes "/blocked_apps"))
                  >> record_event (print_completed output_path))))

  -- The block whose `finally` stops the session.
  unfoldable pub transform : Str → Str → Io SparkCall (Unit {0})
  transform input_path output_path =
      finally (call world (read_parquet input_path) >> write_all output_path) (call world stop)

  unfoldable pub with_session : Str → Str → Io SparkCall (Unit {0})
  with_session input_path output_path =
      try_else (call world get_session) any_error (record_event print_no_java)
        (λ _. transform input_path output_path)

  unfoldable pub run_etl : Str → Str → Io SparkCall (Unit {0})
  run_etl input_path output_path =
      try_else (call world import_pyspark) is_import_error (return tt)
        (λ _. with_session input_path output_path)

abbrev pub column_of : Column → NetworkEvent → Str
column_of application e = e.application
column_of src_ip e = e.src_ip
column_of protocol e = e.protocol

-- What Spark's documentation says. Where a condition holds is read off the row; `count` counts the
-- rows of a group, and the sum over `when(c, 1).otherwise(0)` those where c holds; the group of a value
-- has the rows with that value; `distinct` after `filter` and `select` has the values of the rows that
-- were kept.
pub record Spark : Type 0 where
  pub holds : Condition → NetworkEvent → Bool
  pub holds-decision :
      (t : Str) (e : NetworkEvent) → holds (decision_is t) e ≡ (decision_name e.decision == t)
  pub holds-blocked :
      (b : Bool) (e : NetworkEvent) → (holds (blocked_is b) e ≡ true) ↔ (e.blocked ≡ b)
  pub holds-both :
      (c d : Condition) (e : NetworkEvent) → holds (both c d) e ≡ (holds c e && holds d e)
  pub aggregate : Aggregate → List NetworkEvent → ℕ
  pub aggregate-count : (rows : List NetworkEvent) → aggregate count_rows rows ≡ length rows
  pub aggregate-sum :
      (c : Condition) (rows : List NetworkEvent)
      → aggregate (sum_when c) rows ≡ length (keep (holds c) rows)
  -- The cell of an aggregate in the group of a value.
  pub cell : Column → Aggregate → List NetworkEvent → Str → ℕ
  pub cell-group :
      (column : Column) (a : Aggregate) (rows : List NetworkEvent) (value : Str)
      → cell column a rows value ≡ aggregate a (keep (λ e. column_of column e == value) rows)
  pub distinct : Condition → Column → List NetworkEvent → List Str
  pub distinct-kept :
      (c : Condition) (column : Column) (rows : List NetworkEvent) (value : Str)
      → contains value (distinct c column rows)
        ≡ any (λ e. holds c e && column_of column e == value) rows
