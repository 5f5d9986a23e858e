-- ===== src/Airflow.antt =====
-- src/data_engineering/airflow_dag.py: the tasks that load and publish the events of the Parquet file,
-- and the DAG that orders them. What `pq.read_table(...).to_pylist()` answers is an argument.
pub mod Rows
pub mod Load
pub mod Publish
mod Tests
use dpi_engine_python.Airflow.Rows.{Row, all_values, message_key}
use dpi_engine_python.Io.{
  Outcome, Io, World, return, raise, call, record_event, on_result, ◌>>=◌, ◌>>◌, for_each, evaluate,
}
use dpi_engine_python.Prelude.{
  ℕ, Bool, true, false, Option, none, some, List, [], ◌∷◌, ◌++◌, length,
}
use dpi_engine_python.Prelude.Result.{Error, Result, ok, err}
use dpi_engine_python.Sinks.Postgres.{SqlCall, connect, print_loaded, store}
use dpi_engine_python.Text.{Str, codes}

module _ (world : World SqlCall) where
  unfoldable pub load_rows : List Row → Io SqlCall (Unit {0})
  load_rows [] = raise Error.runtime_error
  load_rows (row ∷ rows) =
      call world (connect (codes "dpi_postgres"))
      >> (store world (codes "network_events") (all_values (row ∷ rows))
            (print_loaded (length (row ∷ rows)))
          >> return tt)

  unfoldable pub load_parquet_to_postgres : Result (List Row) → Io SqlCall (Unit {0})
  load_parquet_to_postgres read = evaluate read >>= load_rows

-- The messages that `produce_network_events` yields, before it ends or raises.
unfoldable pub yield_rows : List Row → Io (Str × Row) (Unit {0})
yield_rows rows =
    for_each rows (λ row. evaluate (message_key row) >>= λ key. record_event (key, row))

unfoldable pub produce_network_events : Result (List Row) → Io (Str × Row) (Unit {0})
produce_network_events read = evaluate read >>= yield_rows

-- The calls of confluent_kafka. A value is the row whose JSON text is sent.
pub data ProducerCall : Type 0 where
  import_confluent poll flush : ProducerCall
  create : Str → ProducerCall
  produce : Str → Str → Row → ProducerCall
  print_rows : ℕ → ProducerCall

module _ (world : World ProducerCall) where
  -- The body of the loop.
  abbrev pub publish_row : Row → Io ProducerCall (Unit {0})
  publish_row row = evaluate (message_key row) >>= λ key.
      call world (produce (codes "network_events") key row) >> call world poll

  unfoldable pub publish_rows : List Row → Io ProducerCall (Unit {0})
  publish_rows [] = raise Error.runtime_error
  publish_rows (row ∷ rows) =
      call world (create (codes "kafka:29092"))
      >> (for_each (row ∷ rows) publish_row
          >> (call world flush >> record_event (print_rows (length (row ∷ rows)))))

  -- The imports come before the file is read.
  unfoldable pub publish_network_events : Result (List Row) → Io ProducerCall (Unit {0})
  publish_network_events read = call world import_confluent >> (evaluate read >>= publish_rows)

-- What a task of the DAG runs: a shell command with variables of its environment, or a function.
pub data Command : Type 0 where
  bash : Str → List (Str × Str) → Command
  call_load_parquet_to_postgres call_publish_network_events : Command

pub record Task : Type 0 where
  pub task_id : Str
  pub command : Command

-- `tasks` stand in the order of `>>`: each waits for the one before it.
pub record Dag : Type 0 where
  pub dag_id : Str
  pub schedule : Str
  pub start_date : ℕ × ℕ × ℕ
  pub catchup : Bool
  pub tags : List Str
  pub tasks : List Task

abbrev pub run_dpi : Task
run_dpi = record {
  task_id = codes "run_dpi";
  command =
      bash (codes "cd /workspace && python main.py")
        ((codes "DPI_SKIP_EXTERNAL_SINKS", codes "1") ∷ []);
}

abbrev run_pyspark : Task
run_pyspark = record {
  task_id = codes "run_pyspark_etl";
  command =
      bash
        (codes
          "cd /workspace && python -c 'from src.data_engineering.pyspark_etl import NetworkEventETL; NetworkEventETL().run(\"output/network_events.parquet\", \"output/pyspark_etl_output\")'")
        [];
}

abbrev load_postgres : Task
load_postgres = record { task_id = codes "load_postgres"; command = call_load_parquet_to_postgres }

abbrev publish_kafka : Task
publish_kafka = record { task_id = codes "publish_kafka"; command = call_publish_network_events }

-- None where Airflow is not installed.
unfoldable pub build_dag : Bool → Option Dag
build_dag false = none
build_dag true = some (record {
  dag_id = codes "dpi_data_engineering_pipeline";
  schedule = codes "@daily";
  start_date = (2026, 9, 13);
  catchup = false;
  tags = codes "dpi" ∷ codes "data-engineering" ∷ [];
  tasks = run_dpi ∷ run_pyspark ∷ load_postgres ∷ publish_kafka ∷ [];
})
