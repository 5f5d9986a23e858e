-- ===== src/Sinks/Postgres/Commit.antt =====
-- The transaction of the Postgres sink, whatever the server answers.
use dpi_engine_python.Emitter.{NetworkEvent}
use dpi_engine_python.Io.{
  Outcome, Io, World, is_import_error, return, call, record_event, ◌>>=◌, ◌>>◌, evaluate,
}
use dpi_engine_python.Io.Calls.{Result-cases, log-finally, finally-of_ok, finally-of_err}
use dpi_engine_python.Prelude.{
  ◌≡◌, refl, ap, sym, ◌∙◌, ◌≢◌, Bool, true, false, ◌⊎◌, inl, inr, List, [], ◌∷◌, ◌++◌, map, arith,
  append_assoc, length, any, Bool-cases,
}
use dpi_engine_python.Prelude.Result.{Error, Result, ok, err, ok-inj}
use dpi_engine_python.Sinks.{Value, postgres_row, insert_columns, create_columns}
use dpi_engine_python.Sinks.Postgres.{
  SqlCall, import_psycopg2, open_cursor, close_cursor, commit, close, print_no_psycopg2,
  print_no_events, print_no_server, connect, create_table, insert_rows, print_written, fill_table,
  store, connect_and_store, write,
}
use dpi_engine_python.Text.{Str}

abbrev pub is_commit : SqlCall → Bool
is_commit commit = true
is_commit _ = false

-- No commit, and the sink does not say True.
abbrev pub NothingStored : Outcome SqlCall Bool → Type 0
NothingStored o = (any is_commit o.log ≡ false) × (o.result ≢ ok true)

any-append :
    (l : List SqlCall) → any is_commit l ≡ false → any is_commit (l ++ close_cursor ∷ []) ≡ false
any-append [] h = refl
any-append (x ∷ l) h = ground (arith, any-append l)

abbrev inserts : Str → List (List Value) → List SqlCall
inserts table values =
    create_table table create_columns ∷ insert_rows table insert_columns values ∷ []

-- The statements on the rows, inside the block of the cursor.
abbrev pub statements : Str → List (List Value) → List SqlCall
statements table values =
    open_cursor
    ∷ create_table table create_columns
    ∷ insert_rows table insert_columns values
    ∷ close_cursor
    ∷ []

module _ (world : World SqlCall) where
  abbrev inserting : Str → Result (List (List Value)) → Io SqlCall (Unit {0})
  inserting table rows =
      call world (create_table table create_columns)
      >> (evaluate rows >>= λ values. call world (insert_rows table insert_columns values))

  inserting-cases :
      (table : Str) (rows : Result (List (List Value))) (log : List SqlCall)
      → (let o = inserting table rows log in
          ((values : List (List Value)) × (rows ≡ ok values)
            × (o ≡ record {
              log =
                  log
                  ++ create_table table create_columns
                    ∷ insert_rows table insert_columns values
                    ∷ [];
              result = ok tt;
            }))
          ⊎ ((l : List SqlCall) × (e : Error) × (any is_commit l ≡ false)
              × (o ≡ record { log = log ++ l; result = err e })))
  inserting-cases table (err f) log =
      let first = create_table table create_columns in
      elim (Result-cases (world log first)) [
        | inr (e, raised) ↦ inr (first ∷ [], e, refl, rw raised refl)
        | inl (_, created) ↦ inr (first ∷ [], f, refl, rw created refl)
      ]
  inserting-cases table (ok values) log =
      let first = create_table table create_columns in
      let second = insert_rows table insert_columns values in
      elim (Result-cases (world log first)) [
        | inr (e, raised) ↦ inr (first ∷ [], e, refl, rw raised refl)
        | inl (_, created) ↦ rw created (elim (Result-cases (world (log ++ first ∷ []) second)) [
          | inr (e, raised) ↦ inr (
            first ∷ second ∷ [],
            e,
            refl,
            rw (raised, append_assoc log (first ∷ []) (second ∷ [])) refl,
          )
          | inl (_, inserted) ↦
              inl (values, refl, rw (inserted, append_assoc log (first ∷ []) (second ∷ [])) refl)
        ])
      ]

  -- The block of the cursor ends well after all its statements, or it raises before the commit.
  fill_table-cases :
      (table : Str) (rows : Result (List (List Value))) (log : List SqlCall)
      → (let o = fill_table world table rows log in
          ((values : List (List Value)) × (rows ≡ ok values)
            × (o ≡ record { log = log ++ statements table values; result = ok tt }))
          ⊎ ((l : List SqlCall) × (e : Error) × (any is_commit l ≡ false)
              × (o ≡ record { log = log ++ l; result = err e })))
  unfolding fill_table
  fill_table-cases table rows log = elim (Result-cases (world log open_cursor)) [
    | inr (e, raised) ↦ inr (open_cursor ∷ [], e, refl, rw raised refl)
    | inl (_, opened) ↦ rw opened (elim (inserting-cases table rows (log ++ open_cursor ∷ [])) [
      | inr (l, e, free, raised) ↦
          let (f, o) = finally-of_err world (inserting table rows) close_cursor _ _ e raised in
          inr (
            open_cursor ∷ (l ++ close_cursor ∷ []),
            f,
            any-append l free,
            o
                ∙ rw
                    (
                      append_assoc log (open_cursor ∷ []) l,
                      append_assoc log (open_cursor ∷ l) (close_cursor ∷ []),
                    )
                    refl,
          )
      | inl (values, evaluated, inserted) ↦
          elim (finally-of_ok world (inserting table rows) close_cursor _ _ tt inserted) [
            | inl o ↦ inl (
              values,
              evaluated,
              o
                  ∙ rw
                      (
                        append_assoc log (open_cursor ∷ []) (inserts table values),
                        append_assoc log (open_cursor ∷ inserts table values) (close_cursor ∷ []),
                      )
                      refl,
            )
            | inr (e, o) ↦ inr (
              statements table values,
              e,
              refl,
              o
                  ∙ rw
                      (
                        append_assoc log (open_cursor ∷ []) (inserts table values),
                        append_assoc log (open_cursor ∷ inserts table values) (close_cursor ∷ []),
                      )
                      refl,
            )
          ]
    ])
  ]

  abbrev storing : Str → Result (List (List Value)) → SqlCall → Io SqlCall Bool
  storing table rows line =
      fill_table world table rows >> (call world commit >> (record_event line >> return true))

  -- The block ends its log with the commit after all statements and what follows it, or it raises
  -- before the commit.
  storing-cases :
      (table : Str) (rows : Result (List (List Value))) (line : SqlCall) (log : List SqlCall)
      → (let o = storing table rows line log in
          ((l : List SqlCall) × (e : Error) × (any is_commit l ≡ false)
            × (o ≡ record { log = log ++ l; result = err e }))
          ⊎ ((values : List (List Value)) × (rest : List SqlCall) × (rows ≡ ok values)
              × (o.log ≡ log ++ (statements table values ++ commit ∷ rest))))
  storing-cases table rows line log = elim (fill_table-cases table rows log) [
    | inr (l, e, free, o) ↦ inl (l, e, free, rw o refl)
    | inl (values, evaluated, o) ↦
        let before = log ++ statements table values in
        rw o (elim (Result-cases (world before commit)) [
          | inr (e, raised) ↦
              inr (values, [], evaluated, rw raised (append_assoc log (statements table values) _))
          | inl (_, committed) ↦ inr (
            values,
            line ∷ [],
            evaluated,
            rw (committed, append_assoc before (commit ∷ []) (line ∷ []))
                (append_assoc log (statements table values) _),
          )
        ])
  ]

  -- What `store` leaves: the commit stands after all statements, or there is none and the result is
  -- an error; the connection is closed last.
  pub store-cases :
      (table : Str) (rows : Result (List (List Value))) (line : SqlCall) (log : List SqlCall)
      → (let o = store world table rows line log in
          ((l : List SqlCall) × (e : Error) × (any is_commit l ≡ false)
            × (o ≡ record { log = log ++ (l ++ close ∷ []); result = err e }))
          ⊎ ((values : List (List Value)) × (rest : List SqlCall) × (rows ≡ ok values)
              × (o.log ≡ log ++ (statements table values ++ commit ∷ (rest ++ close ∷ [])))))
  unfolding store
  store-cases table rows line log = elim (storing-cases table rows line log) [
    | inl (l, e, free, o) ↦
        let (f, closed) = finally-of_err world (storing table rows line) close log _ e o in
        inl (l, f, free, closed ∙ rw (append_assoc log l (close ∷ [])) refl)
    | inr (values, rest, evaluated, written) ↦ inr (
      values,
      rest,
      evaluated,
      log-finally world (storing table rows line) close log
          ∙ rw (written, append_assoc log (statements table values ++ commit ∷ rest) (close ∷ []))
              refl,
    )
  ]

abbrev pub is_statement : SqlCall → Bool
is_statement import_psycopg2 = false
is_statement (connect connection) = false
is_statement print_no_psycopg2 = false
is_statement print_no_events = false
is_statement print_no_server = false
is_statement _ = true

-- Neither a statement nor a commit, and the sink does not say True.
abbrev pub NotOpened : Outcome SqlCall Bool → Type 0
NotOpened o = (any is_statement o.log ≡ false) × (o.result ≢ ok true)

module _ (world : World SqlCall) where
  abbrev opened : Str → List SqlCall
  opened connection = import_psycopg2 ∷ connect connection ∷ []

  connect_and_store-cases :
      (events : List NetworkEvent) (connection table : Str)
      → (let o = connect_and_store world events connection table (import_psycopg2 ∷ []) in
          NotOpened o
          ⊎ (o
              ≡ store world table
                  (ok (map postgres_row events))
                  (print_written (length events) table)
                  (opened connection)))
  unfolding connect_and_store
  connect_and_store-cases [] connection table = inl (refl, cc)
  connect_and_store-cases (event ∷ events) connection table =
      elim (Result-cases (world (import_psycopg2 ∷ []) (connect connection))) [
        | inr (e, raised) ↦ inl (rw raised (refl, cc))
        | inl (_, answered) ↦ inr (rw answered refl)
      ]

  write-cases :
      (events : List NetworkEvent) (connection table : Str)
      → (let o = write world events connection table [] in
          NotOpened o
          ⊎ (o
              ≡ store world table
                  (ok (map postgres_row events))
                  (print_written (length events) table)
                  (opened connection)))
  unfolding write
  write-cases events connection table = elim (Result-cases (world [] import_psycopg2)) [
    | inl (_, imported) ↦ rw imported (connect_and_store-cases events connection table)
    | inr (e, raised) ↦ rw raised (elim (Bool-cases (is_import_error e)) [
      | inl absent ↦ inl (rw absent (refl, cc))
      | inr passed ↦ inl (rw passed (refl, cc))
    ])
  ]

  -- Whatever Postgres answers, one of three things happened: no statement was made and the sink did
  -- not say True; or statements were made without a commit, and it did not say True; or the table was
  -- created, the rows of all events were inserted in order, the cursor was closed, and then they were
  -- committed. In the last two cases the final call closed the connection.
  pub write-log :
      (events : List NetworkEvent) (connection table : Str)
      → (let o = write world events connection table [] in
          NotOpened o
          ⊎ ((l : List SqlCall) × (any is_commit l ≡ false)
              × (o.result ≢ ok true)
              × (o.log ≡ import_psycopg2 ∷ connect connection ∷ (l ++ close ∷ [])))
          ⊎ ((rest : List SqlCall) × (o.log
                ≡ import_psycopg2
                  ∷ connect connection
                  ∷ (statements table (map postgres_row events) ++ commit ∷ (rest ++ close ∷ [])))))
  write-log events connection table = elim (write-cases events connection table) [
    | inl nothing ↦ inl nothing
    | inr e ↦
        rw e
          (elim (store-cases world table (ok (map postgres_row events))
            (print_written (length events) table) (opened connection)) [
              | inl (l, f, free, o) ↦ inr (inl (l, free, rw o (cc), ap (λ o. o.log) o))
              | inr (values, rest, evaluated, log) ↦
                  inr (inr (rest, log ∙ rw (sym (ok-inj evaluated)) refl))
            ])
  ]
