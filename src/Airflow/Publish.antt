-- ===== src/Airflow/Publish.antt =====
-- The task and the generator that publish rows (src/data_engineering/airflow_dag.py).
use dpi_engine_python.Airflow.{
  yield_rows, produce_network_events, ProducerCall, import_confluent, poll, flush, create, produce,
  print_rows, publish_row, publish_rows, publish_network_events,
}
use dpi_engine_python.Airflow.Rows.{Row, message_key}
use dpi_engine_python.Io.{Io, World, record_event, ◌>>=◌, for_each, evaluate}
use dpi_engine_python.Io.Calls.{Result-cases}
use dpi_engine_python.Prelude.{
  ◌≡◌, refl, ap, sym, ◌∙◌, ◌≢◌, inl, inr, List, [], ◌∷◌, ◌++◌, append-nil, append_assoc, length,
}
use dpi_engine_python.Prelude.Result.{Error, ok, err}
use dpi_engine_python.Text.{Str, codes}

-- The calls for some messages: each is given to the producer, which is then polled.
abbrev pub calls_for_messages : List (Str × Row) → List ProducerCall
calls_for_messages [] = []
calls_for_messages ((key, row) ∷ messages) =
    produce (codes "network_events") key row ∷ poll ∷ calls_for_messages messages

abbrev yield_row : Row → Io (Str × Row) (Unit {0})
yield_row row = evaluate (message_key row) >>= λ key. record_event (key, row)

never : {e : Error} → ¬ err e ≡ ok (tt {0})
never = cc

module _ (world : World ProducerCall) where
  loop-ok :
      (rows : List Row) (log : List ProducerCall) (yielded : List (Str × Row))
      → (for_each rows (publish_row world) log).result ≡ ok tt
      → (messages : List (Str × Row)) × (for_each rows yield_row yielded
          ≡ record { log = yielded ++ messages; result = ok tt })
        × ((for_each rows (publish_row world) log).log ≡ log ++ calls_for_messages messages)
  loop-ok [] log yielded h = ([], rw (append-nil yielded) refl, sym (append-nil log))
  loop-ok (row ∷ rows) log yielded h = elim (Result-cases (message_key row)) [
    | inr (e, raised) ↦ absurd (never (rw raised at h))
    | inl (key, keyed) ↦
        let sent = produce (codes "network_events") key row in
        elim (Result-cases (world log sent)) [
          | inr (e, raised) ↦ absurd (never (rw (keyed, raised) at h))
          | inl (_, answered) ↦ elim (Result-cases (world (log ++ sent ∷ []) poll)) [
            | inr (e, raised) ↦ absurd (never (rw (keyed, answered, raised) at h))
            | inl (_, polled) ↦
                let (messages, yields, calls) =
                  loop-ok rows ((log ++ sent ∷ []) ++ poll ∷ []) (yielded ++ (key, row) ∷ [])
                    (rw (keyed, answered, polled) at h) in
                (
                  (key, row) ∷ messages,
                  rw keyed (yields ∙ rw (append_assoc yielded ((key, row) ∷ []) messages) refl),
                  rw (keyed, answered, polled)
                      (calls
                        ∙ append_assoc (log ++ sent ∷ []) (poll ∷ []) _
                        ∙ append_assoc log (sent ∷ []) _),
                )
          ]
        ]
  ]

  from_rows :
      (rows : List Row)
      → (publish_rows world rows (import_confluent ∷ [])).result ≡ ok tt
      → (rows ≢ [])
        × ((yield_rows rows []).result ≡ ok tt)
        × ((publish_rows world rows (import_confluent ∷ [])).log
            ≡ import_confluent
              ∷ create (codes "kafka:29092")
              ∷ (calls_for_messages (yield_rows rows []).log
                  ++ flush ∷ print_rows (length rows) ∷ []))
  unfolding publish_rows yield_rows
  from_rows [] h = absurd cc
  from_rows (row ∷ rows) h =
      let created = import_confluent ∷ create (codes "kafka:29092") ∷ [] in
      elim (Result-cases (world (import_confluent ∷ []) (create (codes "kafka:29092")))) [
        | inr (e, raised) ↦ absurd (never (rw raised at h))
        | inl (_, answered) ↦
            let loop = for_each (row ∷ rows) (publish_row world) in
            elim (Result-cases (loop created).result) [
              | inr (e, raised) ↦ absurd (never (rw (answered, raised) at h))
              | inl (_, looped) ↦ elim (Result-cases (world (loop created).log flush)) [
                | inr (e, raised) ↦ absurd (never (rw (answered, looped, raised) at h))
                | inl (_, flushed) ↦
                    let (messages, yields, calls) = loop-ok (row ∷ rows) created [] looped in
                    (
                      cc,
                      ap (λ o. o.result) yields,
                      rw (answered, looped, flushed, calls, yields)
                          (ap (λ l. import_confluent ∷ create (codes "kafka:29092") ∷ l)
                            (append_assoc (calls_for_messages messages) (flush ∷ []) _)),
                    )
              ]
            ]
      ]

  -- Where the task ends well there were rows, the generator yields a message for each of them, and
  -- the task has given these messages to the producer, in order, and then flushed it.
  pub publish-as_yielded :
      (rows : List Row)
      → (publish_network_events world (ok rows) []).result ≡ ok tt
      → (rows ≢ [])
        × ((produce_network_events (ok rows) []).result ≡ ok tt)
        × ((publish_network_events world (ok rows) []).log
            ≡ import_confluent
              ∷ create (codes "kafka:29092")
              ∷ (calls_for_messages (produce_network_events (ok rows) []).log
                  ++ flush ∷ print_rows (length rows) ∷ []))
  unfolding publish_network_events publish_rows produce_network_events yield_rows
  publish-as_yielded rows h = elim (Result-cases (world [] import_confluent)) [
    | inr (e, raised) ↦ absurd (never (rw raised at h))
    | inl (_, imported) ↦
        let (some_row, yields, log) = from_rows rows (rw imported at h) in
        (some_row, yields, rw imported log)
  ]
