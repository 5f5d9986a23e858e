-- ===== src/Airflow/Tests.antt =====
-- Instances of the theorems on the tasks of Airflow, and runs.
use dpi_engine_python.Airflow.{
  load_rows, load_parquet_to_postgres, yield_rows, produce_network_events, ProducerCall,
  import_confluent, flush, create, print_rows, publish_rows, publish_network_events, build_dag,
}
use dpi_engine_python.Airflow.Load.{IsRowsOf, load-as_sink}
use dpi_engine_python.Airflow.Publish.{calls_for_messages, publish-as_yielded}
use dpi_engine_python.Airflow.Rows.{Row, item, message_key, shown}
use dpi_engine_python.Dict.{get}
use dpi_engine_python.Io.{World}
use dpi_engine_python.Prelude.{
  ℕ, zero, suc, ◌≡◌, ◌≢◌, refl, false, ◌⊎◌, none, some, List, [], ◌∷◌, ◌++◌, map, any, length,
  get_elem?,
}
use dpi_engine_python.Prelude.Eq.{list_eq, nat_eq}
use dpi_engine_python.Prelude.Result.{Error, ok, err}
use dpi_engine_python.Sinks.{kafka_message, postgres_row, table_of}
use dpi_engine_python.Sinks.Columns.{present, row_at}
use dpi_engine_python.Sinks.Postgres.{SqlCall, connect, commit, close}
use dpi_engine_python.Sinks.Postgres.Commit.{is_commit, statements}
use dpi_engine_python.Sinks.Samples.{an_event}
use dpi_engine_python.Text.{codes}

abbrev rows : List Row
rows = kafka_message an_event ∷ []

rows-IsRowsOf : IsRowsOf rows (table_of (an_event ∷ [])) 1
unfolding table_of kafka_message
rows-IsRowsOf = record { counted = refl; in_order = in_order }
  where
    in_order :
        (i : ℕ) (row : Row)
        → get_elem? rows i ≡ some row
        → map present row ≡ row_at (table_of (an_event ∷ [])) i
    in_order zero row h = cc
    in_order (suc i) row h = absurd cc

abbrev failing_commit : World SqlCall
failing_commit log commit = err Error.other
failing_commit log event = ok tt

load-as_sink_example :
    (let o = load_parquet_to_postgres failing_commit (ok rows) [] in
      ((l : List SqlCall) × (any is_commit l ≡ false)
        × ((e : Error) × (o.result ≡ err e))
        × (o.log ≡ connect (codes "dpi_postgres") ∷ (l ++ close ∷ [])))
      ⊎ ((rest : List SqlCall) × (o.log
            ≡ connect (codes "dpi_postgres")
              ∷ (statements (codes "network_events") (map postgres_row (an_event ∷ []))
                  ++ commit ∷ (rest ++ close ∷ [])))))
load-as_sink_example = load-as_sink failing_commit rows (an_event ∷ []) (cc) rows-IsRowsOf refl

abbrev answering : World ProducerCall
answering log event = ok tt

published : (publish_network_events answering (ok rows) []).result ≡ ok tt
unfolding publish_network_events publish_rows message_key item get kafka_message
published = refl

publish-as_yielded_example :
    (rows ≢ [])
    × ((produce_network_events (ok rows) []).result ≡ ok tt)
    × ((publish_network_events answering (ok rows) []).log
        ≡ import_confluent
          ∷ create (codes "kafka:29092")
          ∷ (calls_for_messages (produce_network_events (ok rows) []).log
              ++ flush ∷ print_rows (length rows) ∷ []))
publish-as_yielded_example = publish-as_yielded answering rows published

-- Without rows both tasks raise RuntimeError, before they connect.
no_rows :
    (load_parquet_to_postgres failing_commit (ok []) []
      ≡ record { log = []; result = err Error.runtime_error })
    × (publish_network_events answering (ok []) []
        ≡ record { log = import_confluent ∷ []; result = err Error.runtime_error })
unfolding load_parquet_to_postgres load_rows publish_network_events publish_rows
no_rows = (refl, refl)

yielded :
    (produce_network_events (ok rows) []).log
    ≡ (codes "10.0.0.1->1.2.3.4", kafka_message an_event) ∷ []
unfolding produce_network_events yield_rows message_key item get kafka_message shown
yielded = refl

-- A row without an address raises KeyError.
key_error : message_key [] ≡ err Error.key_error
unfolding message_key item get
key_error = refl

no_dag : build_dag false ≡ none
unfolding build_dag
no_dag = refl
