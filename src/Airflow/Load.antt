-- ===== src/Airflow/Load.antt =====
-- The task that loads the rows (src/data_engineering/airflow_dag.py) beside the Postgres sink.
use dpi_engine_python.Airflow.{load_rows, load_parquet_to_postgres}
use dpi_engine_python.Airflow.Rows.{Row, item, values_of, all_values}
use dpi_engine_python.Dict.{get}
use dpi_engine_python.Emitter.{NetworkEvent}
use dpi_engine_python.Io.{Io, World}
use dpi_engine_python.Io.Calls.{log-return}
use dpi_engine_python.Prelude.{
  ℕ, suc, ◌≡◌, refl, sym, ◌∙◌, ◌≢◌, Bool, false, ◌⊎◌, inl, inr, some, List, [], ◌∷◌, ◌++◌, map,
  arith, length, get_elem?, any,
}
use dpi_engine_python.Prelude.Eq.{list_eq, nat_eq}
use dpi_engine_python.Prelude.Result.{Error, ok, err, ok-inj}
use dpi_engine_python.Sinks.{kafka_message, postgres_row, insert_columns, Table, table_of}
use dpi_engine_python.Sinks.Columns.{present, row_at, row_at-table_of}
use dpi_engine_python.Sinks.Postgres.{SqlCall, connect, commit, close, print_loaded, store}
use dpi_engine_python.Sinks.Postgres.Commit.{is_commit, statements, store-cases}
use dpi_engine_python.Text.{codes}

-- The rows of a table: `to_pylist` gives a dictionary for each, with the columns in order.
pub record IsRowsOf (rows : List Row) (table : Table) (count : ℕ) : Type 0 where
  pub counted : length rows ≡ count
  pub in_order :
      (i : ℕ) (row : Row) → get_elem? rows i ≡ some row → map present row ≡ row_at table i

map-present-inj : (r q : Row) → map present r ≡ map present q → r ≡ q
map-present-inj [] [] h = refl
map-present-inj [] (y ∷ q) h = absurd cc
map-present-inj (x ∷ r) [] h = absurd cc
map-present-inj ((n, v) ∷ r) ((m, w) ∷ q) h =
    let later : map present r ≡ map present q = cc in cc (map-present-inj r q later)

values_of-kafka_message :
    (e : NetworkEvent) → values_of insert_columns (kafka_message e) ≡ ok (postgres_row e)
unfolding values_of item get insert_columns kafka_message postgres_row
values_of-kafka_message e = refl

-- The rows of the table of some events are their messages, so their values are the rows of Postgres.
all_values-of_table :
    (rows : List Row) (events : List NetworkEvent)
    → IsRowsOf rows (table_of events) (length events)
    → all_values rows ≡ ok (map postgres_row events)
unfolding all_values
all_values-of_table [] [] h = refl
all_values-of_table [] (e ∷ events) h = absurd (omega (arith, h.counted))
all_values-of_table (row ∷ rows) [] h = absurd (omega (arith, h.counted))
all_values-of_table (row ∷ rows) (e ∷ events) h =
    let first : row ≡ kafka_message e =
      map-present-inj row (kafka_message e)
        (h.in_order 0 row refl ∙ row_at-table_of (e ∷ events) 0 e refl) in
    let later : IsRowsOf rows (table_of events) (length events) = record {
      counted = omega (arith, h.counted);
      in_order = λ i r found. h.in_order (suc i) r found ∙ unfold table_of in refl;
    } in
    rw (first, values_of-kafka_message e, all_values-of_table rows events later) refl

module _ (world : World SqlCall) where
  -- Whatever Postgres answers once it is connected, the task that reads the rows of the table that
  -- the Parquet sink builds from some events, which are not none, either commits nothing and raises,
  -- or it creates the table, inserts the rows of the Postgres sink for these events, in order, closes
  -- the cursor and commits; the last call closes the connection.
  pub load-as_sink :
      (rows : List Row) (events : List NetworkEvent)
      → events ≢ []
      → IsRowsOf rows (table_of events) (length events)
      → world [] (connect (codes "dpi_postgres")) ≡ ok tt
      → (let o = load_parquet_to_postgres world (ok rows) [] in
          ((l : List SqlCall) × (any is_commit l ≡ false)
            × ((e : Error) × (o.result ≡ err e))
            × (o.log ≡ connect (codes "dpi_postgres") ∷ (l ++ close ∷ [])))
          ⊎ ((rest : List SqlCall) × (o.log
                ≡ connect (codes "dpi_postgres")
                  ∷ (statements (codes "network_events") (map postgres_row events)
                      ++ commit ∷ (rest ++ close ∷ [])))))
  unfolding load_parquet_to_postgres load_rows
  load-as_sink [] [] some_event h connected = absurd (some_event refl)
  load-as_sink [] (e ∷ events) some_event h connected = absurd (omega (arith, h.counted))
  load-as_sink (row ∷ rows) events some_event h connected =
      let table = codes "network_events" in
      let opened = connect (codes "dpi_postgres") ∷ [] in
      let stored : Io SqlCall Bool =
        store world table (all_values (row ∷ rows)) (print_loaded (length (row ∷ rows))) in
      rw connected
        (elim (store-cases world table (all_values (row ∷ rows))
          (print_loaded (length (row ∷ rows))) opened) [
            | inl (l, e, free, o) ↦ inl (l, free, (e, rw o refl), rw o refl)
            | inr (values, rest, evaluated, log) ↦ inr (
              rest,
              log-return stored tt opened
                  ∙ log
                  ∙ rw (sym (ok-inj (sym (all_values-of_table (row ∷ rows) events h) ∙ evaluated)))
                      refl,
            )
          ])
