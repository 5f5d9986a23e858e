-- ===== src/Sinks/Parquet.antt =====
-- src/data_engineering/parquet_sink.py: the sink that writes a columnar file.
use dpi_engine_python.Emitter.{NetworkEvent}
use dpi_engine_python.Io.{Io, World, call, ◌>>◌}
use dpi_engine_python.Prelude.{List}
use dpi_engine_python.Sinks.{Table, table_of}
use dpi_engine_python.Text.{Str}

-- The calls of pyarrow. The import is of both modules; `pa.table` raises on values that it cannot
-- hold, as a list of one column.
pub data ParquetCall : Type 0 where
  import_pyarrow import_parquet : ParquetCall
  build_table : Table → ParquetCall
  write_table : Table → Str → ParquetCall

unfoldable pub write_parquet :
    World ParquetCall → List NetworkEvent → Str → Io ParquetCall (Unit {0})
write_parquet world events path =
    call world import_pyarrow
    >> (call world import_parquet
        >> (call world (build_table (table_of events))
            >> call world (write_table (table_of events) path)))
