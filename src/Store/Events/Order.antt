-- ===== src/Store/Events/Order.antt =====
-- src/state/state_store.cpp: the sequence numbers of the events of a run, and what `events_after`
-- reads.
use mathlib.Core.List.{append-nil}
use runi.Prelude.{
  ℕ, zero, suc, ◌+◌, ◌-◌, ◌<◌, max, ◌≡◌, refl, sym, ap, ◌∙◌, true, false, ◌&&◌, not, List, [], ◌∷◌,
  ◌++◌, map, Bytes, bytes, eq_bytes, eq_bytes_iff, mem, arith, length, drop, Bool-cases, ◌⊎◌, inl,
  inr, if◌then◌else◌, ltb, leb,
}
use runi.Error.{Result, success, Result-cases}
use runi.Store.Engine.{works, Engine, statement, execute}
use runi.Store.Events.{
  EventRow, RuntimeEvent, last_sequence, insert_event, has_event, event_row, appended, append_event,
  read_event, events_of, insert_in_order, in_order, events_after,
}

-- The rows have the numbers after `n`, one after the other.
abbrev pub Numbered : ℕ → List EventRow → Type 0
Numbered n [] = Unit {0}
Numbered n (row ∷ rows) = (row.sequence ≡ suc n) × Numbered (suc n) rows

-- The rows of a run, in the order in which they were appended.
unfoldable pub of_run : Bytes → List EventRow → List EventRow
of_run run_id [] = []
of_run run_id (row ∷ rows) =
    let rest = of_run run_id rows in if eq_bytes row.run_id run_id then row ∷ rest else rest

last_of : List EventRow → ℕ
last_of [] = 0
last_of (row ∷ rows) = max row.sequence (last_of rows)

last_sequence-of_run :
    (run_id : Bytes) (rows : List EventRow)
    → last_sequence run_id rows ≡ last_of (of_run run_id rows)
unfolding last_sequence of_run last_of
last_sequence-of_run run_id [] = refl
last_sequence-of_run run_id (row ∷ rows) = elim (Bool-cases (eq_bytes row.run_id run_id)) [
  | inl e ↦ rw (e, last_sequence-of_run run_id rows) refl
  | inr e ↦ rw (e, last_sequence-of_run run_id rows) refl
]

last_of-Numbered :
    (n : ℕ) (rows : List EventRow)
    → Numbered n rows
    → 0 < length rows
    → last_of rows ≡ n + length rows
unfolding last_of
last_of-Numbered n [] v p = absurd (omega arith)
last_of-Numbered n (row ∷ []) v p = omega (arith, v.0)
last_of-Numbered n (row ∷ next ∷ rows) v p =
    omega (arith, v.0, last_of-Numbered (suc n) (next ∷ rows) v.1 (omega arith))

last_of_all : (rows : List EventRow) → Numbered 0 rows → last_of rows ≡ length rows
unfolding last_of
last_of_all [] v = refl
last_of_all (row ∷ rows) v = omega (arith, last_of-Numbered 0 (row ∷ rows) v (omega arith))

Numbered-append :
    (n : ℕ) (rows : List EventRow) (row : EventRow)
    → Numbered n rows
    → row.sequence ≡ suc (n + length rows)
    → Numbered n (rows ++ row ∷ [])
Numbered-append n [] row v e = (omega (arith, e), tt)
Numbered-append n (first ∷ rows) row v e =
    (v.0, Numbered-append (suc n) rows row v.1 (omega (arith, e)))

of_run-append :
    (run_id : Bytes) (rows : List EventRow) (row : EventRow)
    → of_run run_id (rows ++ row ∷ [])
      ≡ of_run run_id rows ++ (if eq_bytes row.run_id run_id then row ∷ [] else [])
unfolding of_run
of_run-append run_id [] row = refl
of_run-append run_id (first ∷ rows) row = elim (Bool-cases (eq_bytes first.run_id run_id)) [
  | inl e ↦ rw (e, of_run-append run_id rows row) refl
  | inr e ↦ rw (e, of_run-append run_id rows row) refl
]

-- A call of `append_event`: the engine, the ids of the runs, and its arguments.
pub record Append (J : Type 0) : Type 0 where
  pub engine : Engine
  pub run_ids : List Bytes
  pub run_id : Bytes
  pub event_type : Bytes
  pub payload : J
  pub now : Bytes

module _ {J : Type 0} (dump : J → Bytes) where
  abbrev pub append : Append J → List EventRow → List EventRow × Result (RuntimeEvent J)
  append a rows = append_event dump a.engine a.run_ids a.run_id a.event_type a.payload a.now rows

  unfoldable pub appends : List (Append J) → List EventRow → List EventRow
  appends [] rows = rows
  appends (a ∷ calls) rows = appends calls (append a rows).0

  abbrev new_event : Append J → List EventRow → EventRow
  new_event a rows =
      event_row a.run_id (last_sequence a.run_id rows + 1) a.event_type (dump a.payload) a.now

  insert_event_rows :
      (engine : Engine) (run_ids : List Bytes) (row : EventRow) (rows inserted : List EventRow)
      → insert_event engine run_ids row rows ≡ success inserted
      → inserted ≡ rows ++ row ∷ []
  unfolding insert_event
  insert_event_rows engine run_ids row rows inserted h =
      elim (Result-cases (
        statement (engine.fault 2) (bytes "event_append_failed")
          (bytes "Could not append runtime event"))) [
            | inr (e, f) ↦ absurd (cc (rw (f, insert_event) at h))
            | inl (a, f) ↦
                elim (Bool-cases
                  (mem row.run_id run_ids && not (has_event row.run_id row.sequence rows))) [
                    | inr n ↦ absurd (cc (rw (f, n, insert_event) at h))
                    | inl y ↦ elim (Result-cases (execute (engine.fault 3))) [
                      | inr (e, k) ↦ absurd (cc (rw (f, y, k, insert_event) at h))
                      | inl (c, k) ↦ cc (rw (f, y, k, insert_event) at h)
                    ]
                  ]
          ]

  append_rows :
      (a : Append J) (rows : List EventRow)
      → ((append a rows).0 ≡ rows) ⊎ ((append a rows).0 ≡ rows ++ new_event a rows ∷ [])
  unfolding append_event appended
  append_rows a rows = elim (Result-cases (execute (a.engine.fault 0))) [
    | inr (e, f) ↦ inl (rw (f, append_event) refl)
    | inl (b, f) ↦
        elim (Result-cases (
          statement (a.engine.fault 1) (bytes "event_sequence_failed")
            (bytes "Could not allocate runtime event sequence"))) [
              | inr (e, g) ↦ inl (rw (f, g, append_event) refl)
              | inl (c, g) ↦
                  elim (Result-cases (insert_event a.engine a.run_ids (new_event a rows) rows)) [
                    | inr (e, k) ↦ inl (rw (f, g, k, append_event) refl)
                    | inl (inserted, k) ↦ inr (
                        rw (f, g, k, append_event)
                          (insert_event_rows a.engine a.run_ids (new_event a rows) rows inserted k))
                  ]
            ]
  ]

  append-Numbered :
      (run_id : Bytes) (a : Append J) (rows : List EventRow)
      → Numbered 0 (of_run run_id rows)
      → Numbered 0 (of_run run_id (append a rows).0)
  append-Numbered run_id a rows v = elim (append_rows a rows) [
    | inl unchanged ↦ rw unchanged v
    | inr added ↦ rw (added, of_run-append run_id rows (new_event a rows)) (next run_id v)
  ]
    where
      next :
          (run_id : Bytes)
          → Numbered 0 (of_run run_id rows)
          → Numbered 0 (
              of_run run_id rows
              ++ (if eq_bytes a.run_id run_id then new_event a rows ∷ [] else []))
      next run_id v = elim (Bool-cases (eq_bytes a.run_id run_id)) [
        | inl e ↦ rw e (
            Numbered-append 0 (of_run run_id rows) (new_event a rows) v (
              omega (
                arith,
                ap (λ r. last_sequence r rows) ((eq_bytes_iff a.run_id run_id).0 e),
                last_sequence-of_run run_id rows,
                last_of_all (of_run run_id rows) v,
              )))
        | inr e ↦ rw (e, append-nil (of_run run_id rows)) v
      ]

  -- Whatever calls of `append_event` are made, for whichever runs and with whatever failures, the
  -- events of a run, in the order of their appending, have the sequence numbers 1, 2, 3 and so on.
  pub appends-Numbered :
      (run_id : Bytes) (calls : List (Append J)) → Numbered 0 (of_run run_id (appends calls []))
  unfolding appends of_run
  appends-Numbered run_id calls = from calls [] tt
    where
      from :
          (calls : List (Append J)) (rows : List EventRow)
          → Numbered 0 (of_run run_id rows)
          → Numbered 0 (of_run run_id (appends calls rows))
      from [] rows v = v
      from (a ∷ calls) rows v = from calls (append a rows).0 (append-Numbered run_id a rows v)

above : ℕ → List EventRow → List EventRow
above n [] = []
above n (row ∷ rows) = if ltb n row.sequence then row ∷ above n rows else above n rows

events_of-of_run :
    (run_id : Bytes) (n : ℕ) (rows : List EventRow)
    → events_of run_id n rows ≡ above n (of_run run_id rows)
unfolding events_of of_run above
events_of-of_run run_id n [] = refl
events_of-of_run run_id n (row ∷ rows) = elim (Bool-cases (eq_bytes row.run_id run_id)) [
  | inl e ↦ rw (e, events_of-of_run run_id n rows) refl
  | inr e ↦ rw (e, events_of-of_run run_id n rows) refl
]

above-Numbered :
    (m n : ℕ) (rows : List EventRow) → Numbered m rows → above n rows ≡ drop (n - m) rows
unfolding above
above-Numbered m n [] v = sym (drop_nil (n - m))
  where
    no_rows : List EventRow
    no_rows = []

    drop_nil : (k : ℕ) → drop k no_rows ≡ no_rows
    drop_nil zero = refl
    drop_nil (suc k) = refl
above-Numbered m n (row ∷ rows) (at, v) = elim (Bool-cases (ltb n row.sequence)) [
  | inl e ↦
      let none_left : n - m ≡ 0 = ground (arith, at) in
      let none_after : n - suc m ≡ 0 = ground (arith, at) in
      rw (e, none_left)
        (ap (◌∷◌ row) (above-Numbered (suc m) n rows v ∙ ap (λ k. drop k rows) none_after))
  | inr e ↦
      let one_more : n - m ≡ suc (n - suc m) = ground (arith, at) in
      rw (e, one_more) (above-Numbered (suc m) n rows v)
]

drop-Numbered :
    (m k : ℕ) (rows : List EventRow) → Numbered m rows → (j : ℕ) × Numbered j (drop k rows)
drop-Numbered m zero rows v = (m, v)
drop-Numbered m (suc k) [] v = (m, tt)
drop-Numbered m (suc k) (row ∷ rows) v = drop-Numbered (suc m) k rows v.1

in_order-Numbered : (m : ℕ) (rows : List EventRow) → Numbered m rows → in_order rows ≡ rows
unfolding in_order insert_in_order
in_order-Numbered m [] v = refl
in_order-Numbered m (row ∷ []) v = refl
in_order-Numbered m (row ∷ next ∷ rows) (at, v) =
    let below : leb row.sequence next.sequence ≡ true = ground (arith, at, v.0) in
    ap (insert_in_order row) (in_order-Numbered (suc m) (next ∷ rows) v) ∙ rw below refl

-- After any calls of `append_event`, `events_after` gives exactly the events of the run that come
-- after the first `n`, in the order of their appending: a reader that passes the number of events
-- it has seen misses none and sees none twice.
pub events_after-appends :
    {J : Type 0} (dump : J → Bytes) (parse : Bytes → J) (calls : List (Append J)) (engine : Engine)
    (run_id : Bytes) (n : ℕ)
    → engine.fault 0 ≡ works
    → events_after parse engine run_id n (appends dump calls [])
      ≡ success (map (read_event parse) (drop n (of_run run_id (appends dump calls []))))
unfolding events_after statement
events_after-appends dump parse calls engine run_id n w =
    rw w (ap (λ rows. success (map (read_event parse) rows)) ordered)
  where
    less_zero : n - 0 ≡ n
    less_zero = omega arith

    ordered :
        in_order (events_of run_id n (appends dump calls []))
        ≡ drop n (of_run run_id (appends dump calls []))
    ordered =
        let v = appends-Numbered dump run_id calls in
        ap in_order (
          events_of-of_run run_id n (appends dump calls [])
          ∙ (above-Numbered 0 n (of_run run_id (appends dump calls [])) v
              ∙ ap (λ k. drop k (of_run run_id (appends dump calls []))) less_zero))
        ∙ in_order-Numbered (drop-Numbered 0 n (of_run run_id (appends dump calls [])) v).0
            (drop n (of_run run_id (appends dump calls [])))
            (drop-Numbered 0 n (of_run run_id (appends dump calls [])) v).1

fresh_number :
    (run_id : Bytes) (n : ℕ) (rows : List EventRow)
    → last_sequence run_id rows < n
    → has_event run_id n rows ≡ false
unfolding has_event last_sequence
fresh_number run_id n [] h = refl
fresh_number run_id n (row ∷ rows) h = elim (Bool-cases (eq_bytes row.run_id run_id)) [
  | inl e ↦
      let below : max row.sequence (last_sequence run_id rows) < n = rw e at h in
      rw (e, fresh_number run_id n rows (omega (arith, below))) (ground (arith, below))
  | inr e ↦ rw (e, fresh_number run_id n rows (rw e at h)) refl
]

-- After any calls of `append_event`, one more for a run that exists, with statements that work,
-- succeeds; the event that it returns has the number after those of the run's events, and only its
-- row is added.
pub append_event-appends :
    {J : Type 0} (dump : J → Bytes) (calls : List (Append J)) (a : Append J)
    → ((n : ℕ) → a.engine.fault n ≡ works)
    → mem a.run_id a.run_ids ≡ true
    → (event : RuntimeEvent J) × (append_event dump a.engine a.run_ids a.run_id a.event_type
          a.payload a.now
          (appends dump calls [])
        ≡ (
          appends dump calls []
              ++ event_row a.run_id event.sequence a.event_type (dump a.payload) a.now ∷ [],
          success event,
        ))
      × (event.sequence ≡ suc (length (of_run a.run_id (appends dump calls []))))
      × (event.payload ≡ a.payload)
unfolding append_event insert_event appended statement execute
append_event-appends dump calls a w known =
    let rows = appends dump calls [] in
    let number = last_sequence a.run_id rows + 1 in
    (
      record {
        run_id = a.run_id;
        sequence = number;
        event_type = a.event_type;
        payload = a.payload;
        created_at = a.now;
      },
      rw (w 0, w 1, w 2, known, fresh_number a.run_id number rows (omega arith), w 3) refl,
      omega (
        arith,
        last_sequence-of_run a.run_id rows,
        last_of_all (of_run a.run_id rows) (appends-Numbered dump a.run_id calls),
      ),
      refl,
    )
