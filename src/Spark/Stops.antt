-- ===== src/Spark/Stops.antt =====
-- The session of the Spark job, whatever Spark answers.
use dpi_engine_python.Io.{Io, World, is_import_error, call, record_event, ◌>>◌}
use dpi_engine_python.Io.Calls.{Result-cases, log-finally}
use dpi_engine_python.Io.Prefixes.{MakesFirst, record_event-MakesFirst, call-MakesFirst}
use dpi_engine_python.Prelude.{
  ◌≡◌, refl, ◌∙◌, ◌⊎◌, inl, inr, Bool, true, false, List, [], ◌∷◌, ◌++◌, any, Bool-cases,
}
use dpi_engine_python.Spark.{
  app_summary, top_talkers, protocol_dist, blocked_apps_query, SparkCall, import_pyspark,
  get_session, stop, read_parquet, write_query, print_completed, write_all, transform, with_session,
  run_etl,
}
use dpi_engine_python.Text.{Str, codes}

-- A call that reads or writes tables.
abbrev pub is_table_call : SparkCall → Bool
is_table_call (read_parquet path) = true
is_table_call (write_query query path) = true
is_table_call _ = false

-- What the job has to do: read the events and write the four tables, in order.
unfoldable pub job : Str → Str → List SparkCall
job input_path output_path =
    read_parquet input_path
    ∷ write_query app_summary (output_path ++ codes "/app_summary")
    ∷ write_query top_talkers (output_path ++ codes "/top_talkers")
    ∷ write_query protocol_dist (output_path ++ codes "/protocol_dist")
    ∷ write_query blocked_apps_query (output_path ++ codes "/blocked_apps")
    ∷ print_completed output_path
    ∷ []

module _ (world : World SparkCall) (input_path output_path : Str) where
  abbrev working : Io SparkCall (Unit {0})
  working = call world (read_parquet input_path) >> write_all world output_path

  working-MakesFirst : MakesFirst working (job input_path output_path)
  unfolding write_all job
  working-MakesFirst =
      let done = record_event (print_completed output_path) in
      let last =
        call world (write_query blocked_apps_query (output_path ++ codes "/blocked_apps"))
        >> done in
      let third =
        call world (write_query protocol_dist (output_path ++ codes "/protocol_dist")) >> last in
      let second =
        call world (write_query top_talkers (output_path ++ codes "/top_talkers")) >> third in
      let first =
        call world (write_query app_summary (output_path ++ codes "/app_summary")) >> second in
      call-MakesFirst world (read_parquet input_path) first _ (
        call-MakesFirst world (write_query app_summary _) second _ (
          call-MakesFirst world (write_query top_talkers _) third _ (
            call-MakesFirst world (write_query protocol_dist _) last _ (
              call-MakesFirst world (write_query blocked_apps_query _) done _
                (record_event-MakesFirst (print_completed output_path))))))

  -- Whatever Spark answers, either no table is read or written, or a session was opened, the job was
  -- done up to some point, in order, and the last call stopped the session.
  pub run_etl-log :
      let o = run_etl world input_path output_path [] in
      (any is_table_call o.log ≡ false)
      ⊎ ((done rest : List SparkCall) × (done ++ rest ≡ job input_path output_path)
          × (o.log ≡ import_pyspark ∷ get_session ∷ (done ++ stop ∷ [])))
  unfolding run_etl
  run_etl-log = elim (Result-cases (world [] import_pyspark)) [
    | inr (e, raised) ↦ rw raised (elim (Bool-cases (is_import_error e)) [
      | inl absent ↦ inl (rw absent refl)
      | inr passed ↦ inl (rw passed refl)
    ])
    | inl (_, imported) ↦
        rw imported (elim (Result-cases (world (import_pyspark ∷ []) get_session)) [
          | inr (e, raised) ↦ unfold with_session in inl (rw raised refl)
          | inl (_, opened) ↦
              let start = import_pyspark ∷ get_session ∷ [] in
              let (done, rest, parts, log) = working-MakesFirst start in
              unfold with_session transform in
              rw opened
                (inr (done, rest, parts, log-finally world working stop start ∙ rw log refl))
        ])
  ]
