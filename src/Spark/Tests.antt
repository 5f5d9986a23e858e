-- ===== src/Spark/Tests.antt =====
-- Instances of the theorems on the Spark job, and runs.
use dpi_engine_python.Io.{World}
use dpi_engine_python.Prelude.{◌≡◌, refl, ◌⊎◌, false, List, [], ◌∷◌, ◌++◌, any}
use dpi_engine_python.Prelude.Eq.{list_eq, nat_eq}
use dpi_engine_python.Prelude.Result.{Error, ok, err}
use dpi_engine_python.Spark.{
  SparkCall, import_pyspark, get_session, stop, print_no_java, write_query, with_session, run_etl,
}
use dpi_engine_python.Spark.Stops.{is_table_call, job, run_etl-log}
use dpi_engine_python.Text.{codes}

-- The second table cannot be written.
abbrev failing_spark : World SparkCall
failing_spark (a ∷ b ∷ c ∷ d ∷ []) (write_query query path) = err Error.other
failing_spark log event = ok tt

run_etl-log_example :
    (let o = run_etl failing_spark (codes "in") (codes "out") [] in
      (any is_table_call o.log ≡ false)
      ⊎ ((done rest : List SparkCall) × (done ++ rest ≡ job (codes "in") (codes "out"))
          × (o.log ≡ import_pyspark ∷ get_session ∷ (done ++ stop ∷ []))))
run_etl-log_example = run_etl-log failing_spark (codes "in") (codes "out")

-- Without Java the job is skipped.
abbrev no_java : World SparkCall
no_java log get_session = err Error.other
no_java log event = ok tt

skipped :
    run_etl no_java (codes "in") (codes "out") []
    ≡ record { log = import_pyspark ∷ get_session ∷ print_no_java ∷ []; result = ok tt }
unfolding run_etl with_session
skipped = refl
