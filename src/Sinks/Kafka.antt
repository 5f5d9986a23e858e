-- ===== src/Sinks/Kafka.antt =====
-- src/data_engineering/kafka_sink.py: the sink that publishes events.
use dpi_engine_python.Dict.{Dict}
use dpi_engine_python.Emitter.{NetworkEvent}
use dpi_engine_python.Io.{
  Outcome, Io, World, any_error, is_import_error, return, call, record_event, ◌>>◌, try_else,
  finally, for_each,
}
use dpi_engine_python.Io.Calls.{Result-cases, log-finally, finally-eq-ok, for_each-calls}
use dpi_engine_python.Prelude.{
  ℕ, ◌≡◌, refl, ap, sym, ◌∙◌, ◌≢◌, Bool, true, false, ◌⊎◌, inl, inr, List, [], ◌∷◌, ◌++◌, map,
  append_assoc, append-nil, length, any, Bool-cases,
}
use dpi_engine_python.Prelude.Result.{Error, ok, err}
use dpi_engine_python.Sinks.{Value, kafka_message}
use dpi_engine_python.Text.{Str}

-- The calls of kafka-python, and the lines that the sink prints.
pub data KafkaCall : Type 0 where
  import_kafka flush close print_no_kafka print_no_events print_no_broker : KafkaCall
  connect : Str → KafkaCall
  send : Str → Dict Str Value → KafkaCall
  print_published : ℕ → Str → KafkaCall

module _ (world : World KafkaCall) where
  -- The body of the `for` loop.
  abbrev pub send_event : Str → NetworkEvent → Io KafkaCall (Unit {0})
  send_event topic event = call world (send topic (kafka_message event))

  -- The block whose `finally` closes the producer.
  unfoldable pub send_all : List NetworkEvent → Str → Io KafkaCall Bool
  send_all events topic =
      finally
        (for_each events (send_event topic)
          >> (call world flush
              >> (record_event (print_published (length events) topic) >> return true)))
        (call world close)

  unfoldable pub connect_and_send : List NetworkEvent → Str → Str → Io KafkaCall Bool
  connect_and_send [] topic servers = record_event print_no_events >> return false
  connect_and_send (event ∷ events) topic servers =
      try_else (call world (connect servers)) any_error
        (record_event print_no_broker >> return false) (λ _. send_all (event ∷ events) topic)

  unfoldable pub publish : List NetworkEvent → Str → Str → Io KafkaCall Bool
  publish events topic servers =
      try_else (call world import_kafka) is_import_error
        (record_event print_no_kafka >> return false) (λ _. connect_and_send events topic servers)

-- What is to be sent for a list of events: one message each, in order, and then a flush.
abbrev pub calls_for : List NetworkEvent → Str → List KafkaCall
calls_for events topic =
    map (λ e. send topic (kafka_message e)) events
    ++ flush ∷ print_published (length events) topic ∷ []

abbrev pub is_message : KafkaCall → Bool
is_message (send topic message) = true
is_message _ = false

-- The log has no message, and the sink does not say True.
abbrev pub NothingSent : Outcome KafkaCall Bool → Type 0
NothingSent o = (any is_message o.log ≡ false) × (o.result ≢ ok true)

ok-ne-err : {A : Type 0} {a : A} {e : Error} → ok a ≢ err e
ok-ne-err = cc

module _ (world : World KafkaCall) where
  abbrev sending : List NetworkEvent → Str → Io KafkaCall Bool
  sending events topic =
      for_each events (send_event world topic)
      >> (call world flush >> (record_event (print_published (length events) topic) >> return true))

  -- The log of the block, and what its result says of it.
  sending-log :
      (events : List NetworkEvent) (topic : Str) (log : List KafkaCall)
      → (done rest : List KafkaCall) × (done ++ rest ≡ calls_for events topic)
        × ((sending events topic log).log ≡ log ++ done)
        × (((rest ≡ []) × ((sending events topic log).result ≡ ok true))
            ⊎ ((e : Error) × ((sending events topic log).result ≡ err e)))
  sending-log events topic log =
      let messages = map (λ e. send topic (kafka_message e)) events in
      let last_calls = flush ∷ print_published (length events) topic ∷ [] in
      elim (for_each-calls world (λ e. send topic (kafka_message e)) events log) [
        | inr (e, done, rest, parts, failed) ↦ (
          done,
          rest ++ last_calls,
          sym (append_assoc done rest last_calls) ∙ ap (λ l. l ++ last_calls) parts,
          rw failed refl,
          inr (e, rw failed refl),
        )
        | inl all ↦ rw all (elim (Result-cases (world (log ++ messages) flush)) [
          | inr (e, raised) ↦ (
            messages ++ flush ∷ [],
            print_published (length events) topic ∷ [],
            append_assoc messages (flush ∷ []) _,
            rw raised (append_assoc log messages (flush ∷ [])),
            inr (e, rw raised refl),
          )
          | inl (_, answered) ↦ (
            messages ++ last_calls,
            [],
            append-nil _,
            rw answered (
                append_assoc (log ++ messages) (flush ∷ []) _
                ∙ append_assoc log messages last_calls),
            inl (refl, rw answered refl),
          )
        ])
      ]

  opened : Str → List KafkaCall
  opened servers = import_kafka ∷ connect servers ∷ []

  connect_and_send-cases :
      (events : List NetworkEvent) (topic servers : Str)
      → (let o = connect_and_send world events topic servers (import_kafka ∷ []) in
          NothingSent o ⊎ ((events ≢ []) × (o ≡ send_all world events topic (opened servers))))
  unfolding connect_and_send opened
  connect_and_send-cases [] topic servers = inl (refl, cc)
  connect_and_send-cases (event ∷ events) topic servers =
      elim (Result-cases (world (import_kafka ∷ []) (connect servers))) [
        | inr (e, raised) ↦ inl (rw raised (refl, cc))
        | inl (_, answered) ↦ inr (cc, rw answered refl)
      ]

  publish-cases :
      (events : List NetworkEvent) (topic servers : Str)
      → (let o = publish world events topic servers [] in
          NothingSent o ⊎ ((events ≢ []) × (o ≡ send_all world events topic (opened servers))))
  unfolding publish
  publish-cases events topic servers = elim (Result-cases (world [] import_kafka)) [
    | inl (_, imported) ↦ rw imported (connect_and_send-cases events topic servers)
    | inr (e, raised) ↦ rw raised (elim (Bool-cases (is_import_error e)) [
      | inl absent ↦ inl (rw absent (refl, cc))
      | inr passed ↦ inl (rw passed (refl, cc))
    ])
  ]

  -- Whatever Kafka answers, either nothing was sent and the sink did not say True, or a producer was
  -- opened, the messages of the first events, or of all, were sent in order, one for each event,
  -- and the last call closed the producer.
  pub publish-log :
      (events : List NetworkEvent) (topic servers : Str)
      → (let o = publish world events topic servers [] in
          NothingSent o
          ⊎ ((done rest : List KafkaCall) × (done ++ rest ≡ calls_for events topic)
              × (o.log ≡ import_kafka ∷ connect servers ∷ (done ++ close ∷ []))))
  unfolding send_all opened
  publish-log events topic servers = elim (publish-cases events topic servers) [
    | inl nothing ↦ inl nothing
    | inr (some_event, e) ↦
        let (done, rest, parts, log, _) = sending-log events topic (opened servers) in
        inr (
          done,
          rest,
          parts,
          ap (λ o. o.log) e
              ∙ log-finally world (sending events topic) close (opened servers)
              ∙ rw log refl,
        )
  ]

  -- Where the sink says True there were events, one message was sent for each in order, then they
  -- were flushed, and then the producer was closed.
  pub publish-ok :
      (events : List NetworkEvent) (topic servers : Str)
      → (publish world events topic servers []).result ≡ ok true
      → (events ≢ [])
        × ((publish world events topic servers []).log
            ≡ import_kafka ∷ connect servers ∷ (calls_for events topic ++ close ∷ []))
  unfolding send_all opened
  publish-ok events topic servers h = elim (publish-cases events topic servers) [
    | inl (_, nothing) ↦ absurd (nothing h)
    | inr (some_event, e) ↦
        let sent =
          finally-eq-ok world (sending events topic) close (opened servers)
            (sym (ap (λ o. o.result) e) ∙ h) in
        let (done, rest, parts, log, ended) = sending-log events topic (opened servers) in
        let all : done ≡ calls_for events topic = elim ended [
          | inl (none_left, _) ↦ sym (append-nil done) ∙ rw none_left at parts
          | inr (e, failed) ↦ absurd (ok-ne-err (sym sent ∙ failed))
        ] in
        (
          some_event,
          ap (λ o. o.log) e
              ∙ log-finally world (sending events topic) close (opened servers)
              ∙ rw (log, all) refl,
        )
  ]
