-- ===== src/Airflow/Rows.antt =====
-- src/data_engineering/airflow_dag.py: the rows of the Parquet file, which are dictionaries.
use dpi_engine_python.Balancer.{str_of}
use dpi_engine_python.Dict.{Dict, get}
use dpi_engine_python.Prelude.{true, false, Option, none, some, List, [], ◌∷◌, ◌++◌}
use dpi_engine_python.Prelude.Eq.{list_eq, nat_eq}
use dpi_engine_python.Prelude.Result.{Error, Result, ok, err, ◌>>=◌}
use dpi_engine_python.Sinks.{Value, text, number, flag, missing, insert_columns}
use dpi_engine_python.Text.{Str, codes}

abbrev pub Row : Type 0
Row = Dict Str Value

abbrev or_key_error : Option Value → Result Value
or_key_error none = err Error.key_error
or_key_error (some value) = ok value

-- `row[name]`
unfoldable pub item : Row → Str → Result Value
item row name = or_key_error (get row name)

unfoldable pub values_of : List Str → Row → Result (List Value)
values_of [] row = ok []
values_of (name ∷ names) row = do
  value ← item row name
  values ← values_of names row
  ok (value ∷ values)

-- The tuples for `executemany`, from all rows.
unfoldable pub all_values : List Row → Result (List (List Value))
all_values [] = ok []
all_values (row ∷ rows) = do
  values ← values_of insert_columns row
  rest ← all_values rows
  ok (values ∷ rest)

-- A value in an f-string.
unfoldable pub shown : Value → Str
shown (text t) = t
shown (number n) = str_of n
shown (flag true) = codes "True"
shown (flag false) = codes "False"
shown missing = codes "None"

-- `f"{row['src_ip']}->{row['dst_ip']}"`
unfoldable pub message_key : Row → Result Str
message_key row = do
  src ← item row (codes "src_ip")
  dst ← item row (codes "dst_ip")
  ok (shown src ++ (codes "->" ++ shown dst))
