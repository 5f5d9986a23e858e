-- ===== src/Sinks/Postgres.antt =====
-- src/data_engineering/postgres_sink.py: the sink that inserts events into a table, in one
-- transaction. airflow_dag.py has the same block for rows that it reads.
pub mod Commit
use dpi_engine_python.Emitter.{NetworkEvent}
use dpi_engine_python.Io.{
  Outcome, Io, World, any_error, is_import_error, return, raise, call, record_event, on_result,
  ◌>>=◌, ◌>>◌, try_else, finally, evaluate,
}
use dpi_engine_python.Prelude.{ℕ, Bool, true, false, List, [], ◌∷◌, ◌++◌, map, length}
use dpi_engine_python.Prelude.Result.{Error, Result, ok, err}
use dpi_engine_python.Sinks.{Value, postgres_row, insert_columns, SqlType, create_columns}
use dpi_engine_python.Text.{Str}

-- The calls of psycopg2, and the lines that are printed. A statement is given by what it names.
pub data SqlCall : Type 0 where
  import_psycopg2 open_cursor close_cursor commit close : SqlCall
  print_no_psycopg2 print_no_events print_no_server : SqlCall
  connect : Str → SqlCall
  create_table : Str → List (Str × SqlType) → SqlCall
  insert_rows : Str → List Str → List (List Value) → SqlCall
  print_written : ℕ → Str → SqlCall
  print_loaded : ℕ → SqlCall

module _ (world : World SqlCall) where
  -- The block of the cursor, which is closed at its end. The rows are built inside the block.
  unfoldable pub fill_table : Str → Result (List (List Value)) → Io SqlCall (Unit {0})
  fill_table table rows =
      call world open_cursor
      >> finally
          (call world (create_table table create_columns)
            >> (evaluate rows >>= λ values. call world (insert_rows table insert_columns values)))
          (call world close_cursor)

  -- The block whose `finally` closes the connection. It prints a line in the end.
  unfoldable pub store : Str → Result (List (List Value)) → SqlCall → Io SqlCall Bool
  store table rows line =
      finally (fill_table table rows >> (call world commit >> (record_event line >> return true)))
        (call world close)

  unfoldable pub connect_and_store : List NetworkEvent → Str → Str → Io SqlCall Bool
  connect_and_store [] connection table = record_event print_no_events >> return false
  connect_and_store (event ∷ events) connection table =
      try_else (call world (connect connection)) any_error
        (record_event print_no_server >> return false)
        (λ _.
          store table (ok (map postgres_row (event ∷ events)))
            (print_written (length (event ∷ events)) table))

  unfoldable pub write : List NetworkEvent → Str → Str → Io SqlCall Bool
  write events connection table =
      try_else (call world import_psycopg2) is_import_error
        (record_event print_no_psycopg2 >> return false)
        (λ _. connect_and_store events connection table)
