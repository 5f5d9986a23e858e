-- ===== src/Sinks/Tests.antt =====
-- Instances of the theorems on the sinks, and runs.
use dpi_engine_python.Emitter.{NetworkEvent}
use dpi_engine_python.Io.{World}
use dpi_engine_python.Prelude.{◌≡◌, ◌≢◌, refl, true, false, ◌⊎◌, List, [], ◌∷◌, ◌++◌, map, any}
use dpi_engine_python.Prelude.Result.{Error, ok, err}
use dpi_engine_python.Sinks.{kafka_message, table_of, postgres_row, insert_columns, create_columns}
use dpi_engine_python.Sinks.Columns.{zip, present, row_at, columns-kafka_message}
use dpi_engine_python.Prelude.{map}
use dpi_engine_python.Sinks.Kafka
use dpi_engine_python.Sinks.Kafka.{
  KafkaCall, import_kafka, print_no_kafka, connect_and_send, send_all, publish, calls_for,
  NothingSent, publish-log,
}
use dpi_engine_python.Sinks.Postgres
use dpi_engine_python.Sinks.Postgres.{
  SqlCall, import_psycopg2, open_cursor, close_cursor, commit, create_table, insert_rows,
  fill_table, store, connect_and_store, write,
}
use dpi_engine_python.Sinks.Postgres.Commit.{is_commit, statements, NotOpened, write-log}
use dpi_engine_python.Sinks.Samples.{an_event, other_event}
use dpi_engine_python.Text.{codes}

abbrev two_events : List NetworkEvent
two_events = an_event ∷ other_event ∷ []

columns-kafka_message_example :
    (zip insert_columns (postgres_row other_event) ≡ kafka_message other_event)
    × (row_at (table_of two_events) 1 ≡ map present (kafka_message other_event))
columns-kafka_message_example = columns-kafka_message two_events 1 other_event refl

-- The second statement that is sent fails.
abbrev failing_kafka : World KafkaCall
failing_kafka (a ∷ b ∷ c ∷ log) event = err Error.other
failing_kafka log event = ok tt

publish-log_example :
    (let o = publish failing_kafka two_events (codes "t") (codes "b:9092") [] in
      NothingSent o
      ⊎ ((done rest : List KafkaCall) × (done ++ rest ≡ calls_for two_events (codes "t"))
          × (o.log ≡ import_kafka ∷ Kafka.connect (codes "b:9092") ∷ (done ++ Kafka.close ∷ []))))
publish-log_example = publish-log failing_kafka two_events (codes "t") (codes "b:9092")

-- The commit fails, and so does the connection's close after it.
abbrev failing_sql : World SqlCall
failing_sql log commit = err Error.other
failing_sql log event = ok tt

write-log_example :
    (let o = write failing_sql two_events (codes "dbname=dpi") (codes "t") [] in
      NotOpened o
      ⊎ ((l : List SqlCall) × (any is_commit l ≡ false)
          × (o.result ≢ ok true)
          × (o.log
              ≡ import_psycopg2
                ∷ Postgres.connect (codes "dbname=dpi")
                ∷ (l ++ Postgres.close ∷ [])))
      ⊎ ((rest : List SqlCall) × (o.log
            ≡ import_psycopg2
              ∷ Postgres.connect (codes "dbname=dpi")
              ∷ (statements (codes "t") (map postgres_row two_events)
                  ++ commit ∷ (rest ++ Postgres.close ∷ [])))))
write-log_example = write-log failing_sql two_events (codes "dbname=dpi") (codes "t")

-- kafka-python is not installed.
abbrev no_kafka : World KafkaCall
no_kafka log event = err Error.import_error

publish_skips :
    publish no_kafka two_events (codes "t") (codes "b") []
    ≡ record { log = import_kafka ∷ print_no_kafka ∷ []; result = ok false }
unfolding publish
publish_skips = refl

-- The insert fails: the cursor and the connection are closed, nothing is committed.
abbrev failing_insert : World SqlCall
failing_insert log (insert_rows table columns rows) = err Error.other
failing_insert log event = ok tt

write_fails : write failing_insert (an_event ∷ []) (codes "d") (codes "t") [] ≡ record {
  log =
      import_psycopg2
      ∷ Postgres.connect (codes "d")
      ∷ open_cursor
      ∷ create_table (codes "t") create_columns
      ∷ insert_rows (codes "t") insert_columns (postgres_row an_event ∷ [])
      ∷ close_cursor
      ∷ Postgres.close
      ∷ [];
  result = err Error.other;
}
unfolding write connect_and_store store fill_table
write_fails = refl
