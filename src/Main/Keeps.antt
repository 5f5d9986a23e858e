-- ===== src/Main/Keeps.antt =====
-- Properties of the log that `main` keeps.
use dpi_engine_python.Emitter.{NetworkEvent}
use dpi_engine_python.Io.{
  Io, World, is_import_error, return, call, record_event, ◌>>◌, attempt, for_each,
}
use dpi_engine_python.Io.Keeps.{Keeps, >>=-Keeps, try_else-Keeps, for_each-Keeps}
use dpi_engine_python.Main.{
  Line, MainCall, print, import_etl, import_dag, parquet_call, spark_call, sql_call, kafka_call,
  Surroundings, within,
}
use dpi_engine_python.Main.Phases.{
  parquet_path, etl_path, connection, table_name, skips, parquet_line, parquet_phase, etl_phase,
  postgres_line, postgres_unless, postgres_phase, kafka_line, kafka_unless, kafka_phase, print_dag,
  airflow_phase, phases,
}
use dpi_engine_python.Sinks.Kafka.{KafkaCall, publish}
use dpi_engine_python.Sinks.Parquet.{write_parquet}
use dpi_engine_python.Sinks.Postgres.{SqlCall, write}
use dpi_engine_python.Prelude.{
  ◌≡◌, refl, sym, ◌⊎◌, inl, inr, Bool, true, false, List, [], ◌∷◌, ◌++◌, map, append-nil,
  append_assoc, length,
}
use dpi_engine_python.Spark.{run_etl}
use dpi_engine_python.Text.{codes}

-- A call of a sink of another system.
abbrev pub is_external : {P : Type 0} → MainCall P → Bool
is_external (sql_call e) = true
is_external (kafka_call e) = true
is_external _ = false

module _ {P : Type 0} (Holds : List (MainCall P) → Type 0) (Fine : MainCall P → Type 0)
    (step : (event : MainCall P) (log : List (MainCall P))
      → Fine event
      → Holds log
      → Holds (log ++ event ∷ [])) where
  pub call-Keeps :
      (world : World (MainCall P)) (event : MainCall P)
      → Fine event
      → Keeps Holds (call world event)
  call-Keeps world event fine log held = step event log fine held

  extend :
      {E : Type 0} (wrap : E → MainCall P)
      → ((e : E) → Fine (wrap e))
      → (own : List E) (log : List (MainCall P)) → Holds log
      → Holds (log ++ map wrap own)
  extend wrap fine [] log held = rw (append-nil log) held
  extend wrap fine (e ∷ own) log held =
      rw (sym (append_assoc log (wrap e ∷ []) (map wrap own)))
        (extend wrap fine own (log ++ wrap e ∷ []) (step (wrap e) log (fine e) held))

  pub within-Keeps :
      {E A : Type 0} (wrap : E → MainCall P) (world : World (MainCall P))
      (program : World E → Io E A)
      → ((e : E) → Fine (wrap e))
      → Keeps Holds (within wrap world program)
  within-Keeps wrap world program fine log held = extend wrap fine _ log held

  pub say_all-Keeps :
      (fine : (printed : Line) → Fine (print printed)) (lines : List Line)
      → Keeps Holds (for_each lines (λ printed. record_event (print printed)))
  say_all-Keeps fine =
      for_each-Keeps Holds (λ printed. record_event (print printed))
        (λ printed. step_on (print printed) (fine printed))
    where
      step_on : (event : MainCall P) → Fine event → Keeps Holds (record_event event)
      step_on event fine log held = step event log fine held

  attempt_import-Keeps :
      (body : Io (MainCall P) (Unit {0}))
      → Keeps Holds body
      → Keeps Holds (attempt body is_import_error (return tt))
  attempt_import-Keeps body h =
      try_else-Keeps Holds body is_import_error (return tt) return h (λ l held. held)
        (λ _ l held. held)

  module _ (around : Surroundings P)
      (fine : (event : MainCall P) → is_external event ≡ false → Fine event) where
    says : (printed : Line) → Keeps Holds (record_event (print printed))
    says printed log held = step (print printed) log (fine (print printed) refl) held

    print_dag-Keeps : (b : Bool) → Keeps Holds (print_dag around b)
    print_dag-Keeps false log held = held
    print_dag-Keeps true log held = says _ log held

    postgres_unless-Keeps :
        (skipped : Bool) (events : List NetworkEvent)
        → (skipped ≡ true) ⊎ ((e : SqlCall) → Fine (sql_call e))
        → Keeps Holds (postgres_unless around skipped events)
    unfolding postgres_unless
    postgres_unless-Keeps true events h log held = held
    postgres_unless-Keeps false events (inl h) log held = absurd cc
    postgres_unless-Keeps false events (inr h) log held =
        >>=-Keeps Holds (within sql_call around.world (λ w. write w events connection table_name))
          (λ _. record_event (print (postgres_line around (length events))))
          (within-Keeps sql_call around.world (λ w. write w events connection table_name) h)
          (λ _. says (postgres_line around (length events))) log held

    kafka_unless-Keeps :
        (skipped : Bool) (events : List NetworkEvent)
        → (skipped ≡ true) ⊎ ((e : KafkaCall) → Fine (kafka_call e))
        → Keeps Holds (kafka_unless around skipped events)
    unfolding kafka_unless
    kafka_unless-Keeps true events h log held = held
    kafka_unless-Keeps false events (inl h) log held = absurd cc
    kafka_unless-Keeps false events (inr h) log held =
        let broker = codes "localhost:9092" in
        >>=-Keeps Holds (within kafka_call around.world (λ w. publish w events table_name broker))
          (λ _. record_event (print (kafka_line around (length events))))
          (within-Keeps kafka_call around.world (λ w. publish w events table_name broker) h)
          (λ _. says (kafka_line around (length events))) log held

    parquet_kept : (events : List NetworkEvent) → Keeps Holds (parquet_phase around events)
    unfolding parquet_phase
    parquet_kept events =
        let writing = within parquet_call around.world (λ w. write_parquet w events parquet_path) in
        let printing = record_event (print (parquet_line around (length events))) in
        attempt_import-Keeps (writing >> printing) (
          >>=-Keeps Holds writing (λ _. printing)
            (within-Keeps parquet_call around.world (λ w. write_parquet w events parquet_path)
              (λ e. fine (parquet_call e) refl))
            (λ _. says (parquet_line around (length events))))

    etl_kept : Keeps Holds (etl_phase around)
    unfolding etl_phase
    etl_kept =
        let importing = call around.world import_etl in
        let running = within spark_call around.world (λ w. run_etl w parquet_path etl_path) in
        attempt_import-Keeps (importing >> running) (
          >>=-Keeps Holds importing (λ _. running)
            (call-Keeps around.world import_etl (fine import_etl refl))
            (λ _.
              within-Keeps spark_call around.world (λ w. run_etl w parquet_path etl_path)
                (λ e. fine (spark_call e) refl)))

    airflow_kept : Keeps Holds (airflow_phase around)
    unfolding airflow_phase
    airflow_kept =
        let importing = call around.world import_dag in
        attempt_import-Keeps (importing >> print_dag around around.has_dag) (
          >>=-Keeps Holds importing (λ _. print_dag around around.has_dag)
            (call-Keeps around.world import_dag (fine import_dag refl))
            (λ _. print_dag-Keeps around.has_dag))

    -- The two phases that may be skipped.
    abbrev pub MaySkip : Type 0
    MaySkip =
        (skips around.skip_external_sinks ≡ true)
        ⊎ (((e : SqlCall) → Fine (sql_call e)) × ((e : KafkaCall) → Fine (kafka_call e)))

    postgres_kept :
        (events : List NetworkEvent) → MaySkip → Keeps Holds (postgres_phase around events)
    unfolding postgres_phase
    postgres_kept events h = attempt_import-Keeps _ (postgres_unless-Keeps _ events (either h))
      where
        either :
            MaySkip
            → (skips around.skip_external_sinks ≡ true) ⊎ ((e : SqlCall) → Fine (sql_call e))
        either (inl skipped) = inl skipped
        either (inr (sql, kafka)) = inr sql

    kafka_kept : (events : List NetworkEvent) → MaySkip → Keeps Holds (kafka_phase around events)
    unfolding kafka_phase
    kafka_kept events h = attempt_import-Keeps _ (kafka_unless-Keeps _ events (either h))
      where
        either :
            MaySkip
            → (skips around.skip_external_sinks ≡ true) ⊎ ((e : KafkaCall) → Fine (kafka_call e))
        either (inl skipped) = inl skipped
        either (inr (sql, kafka)) = inr kafka

    -- The phases keep a property that all their calls keep; those of the external sinks count only
    -- where these are not skipped.
    pub phases-Keeps : (events : List NetworkEvent) → MaySkip → Keeps Holds (phases around events)
    unfolding phases
    phases-Keeps events h =
        let etl = etl_phase around in
        let postgres = postgres_phase around events in
        let kafka = kafka_phase around events in
        let airflow = airflow_phase around in
        >>=-Keeps Holds (parquet_phase around events) (λ _. etl >> (postgres >> (kafka >> airflow)))
          (parquet_kept events)
          (λ _.
            >>=-Keeps Holds etl (λ _. postgres >> (kafka >> airflow)) etl_kept
              (λ _.
                >>=-Keeps Holds postgres (λ _. kafka >> airflow) (postgres_kept events h)
                  (λ _.
                    >>=-Keeps Holds kafka (λ _. airflow) (kafka_kept events h)
                      (λ _. airflow_kept))))
