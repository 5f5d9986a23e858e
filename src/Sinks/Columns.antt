-- ===== src/Sinks/Columns.antt =====
-- The columns and values that the three sinks write.
use dpi_engine_python.Emitter.{NetworkEvent}
use dpi_engine_python.Prelude.{ℕ, zero, suc, ◌≡◌, refl, Option, some, List, [], ◌∷◌, map, get_elem?}
use dpi_engine_python.Sinks.{Value, kafka_message, postgres_row, insert_columns, Table, table_of}
use dpi_engine_python.Text.{Str}

-- The named values that an INSERT of columns and a row writes.
abbrev pub zip : {A B : Type 0} → List A → List B → List (A × B)
zip (a ∷ as_) (b ∷ bs) = (a, b) ∷ zip as_ bs
zip _ _ = []

-- A row of a table, with the names of its columns.
abbrev pub value_at : ℕ → Str × List Value → Str × Option Value
value_at i (name, values) = (name, get_elem? values i)

abbrev pub row_at : Table → ℕ → List (Str × Option Value)
row_at table i = map (value_at i) table

-- A message, in the form of a row of a table.
abbrev pub present : Str × Value → Str × Option Value
present (name, value) = (name, some value)

-- The INSERT of Postgres pairs each column with the value that the message of Kafka has under the
-- same name, in the same order.
pub zip-insert_columns : (e : NetworkEvent) → zip insert_columns (postgres_row e) ≡ kafka_message e
unfolding insert_columns postgres_row kafka_message
zip-insert_columns e = refl

get_elem?-map :
    {A B : Type 0} (f : A → B) (xs : List A) (i : ℕ) (x : A)
    → get_elem? xs i ≡ some x
    → get_elem? (map f xs) i ≡ some (f x)
get_elem?-map f [] i x h = absurd cc
get_elem?-map f (y ∷ xs) zero x h = cc
get_elem?-map f (y ∷ xs) (suc i) x h = get_elem?-map f xs i x h

-- Row i of the table that Parquet writes is the message that Kafka gets for event i: the columns
-- are not shifted against each other.
pub row_at-table_of :
    (events : List NetworkEvent) (i : ℕ) (e : NetworkEvent)
    → get_elem? events i ≡ some e
    → row_at (table_of events) i ≡ map present (kafka_message e)
unfolding table_of kafka_message
row_at-table_of [] i e h = absurd cc
row_at-table_of (y ∷ events) zero e h = cc
row_at-table_of (y ∷ events) (suc i) e h = row_at-table_of events i e h

-- The three sinks write the same values under the same names, in the same order: for every event of a
-- list, the columns of Postgres paired with its row are the message that Kafka gets, and so is the row
-- at the place of the event in the table that Parquet writes.
pub columns-kafka_message :
    (events : List NetworkEvent) (i : ℕ) (e : NetworkEvent)
    → get_elem? events i ≡ some e
    → (zip insert_columns (postgres_row e) ≡ kafka_message e)
      × (row_at (table_of events) i ≡ map present (kafka_message e))
columns-kafka_message events i e h = (zip-insert_columns e, row_at-table_of events i e h)
