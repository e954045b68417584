-- ===== src/Examples/Events.antt =====
-- Events of two runs, one of which refers to no run, and a payload that is its own JSON text.
use runi.Prelude.{
  ◌≡◌, refl, true, suc, length, List, [], ◌∷◌, ◌++◌, Bytes, bytes, eq_bytes, mem, drop, map,
}
use runi.Error.{success}
use runi.Store.Engine.{working, step_fails, column_text}
use runi.Store.Events.{RuntimeEvent, event_row, append_event, read_event, events_after}
use runi.Store.Events.Order.{
  Append, appends, of_run, Numbered, appends-Numbered, events_after-appends, append_event-appends,
}

abbrev text : Bytes → Bytes
text payload = payload

abbrev event : Bytes → Bytes → Append Bytes
event run_id payload = record {
  engine = working;
  run_ids = bytes "r" ∷ bytes "q" ∷ [];
  run_id = run_id;
  event_type = bytes "log";
  payload = payload;
  now = bytes "t0";
}

abbrev calls : List (Append Bytes)
calls =
    event (bytes "r") (bytes "1")
    ∷ event (bytes "q") (bytes "2")
    ∷ event (bytes "x") (bytes "3")
    ∷ record (event (bytes "r") (bytes "4")) {
      engine = record { fault = λ n. step_fails (bytes "locked"); constraint = [] };
    }
    ∷ event (bytes "r") (bytes "5")
    ∷ []

-- The run `r` has its second event from the last call.
resumed :
    events_after text working (bytes "r") 1 (appends text calls [])
    ≡ success (
        record {
          run_id = bytes "r";
          sequence = 2;
          event_type = bytes "log";
          payload = bytes "5";
          created_at = bytes "t0";
        }
        ∷ [])
unfolding events_after append_event appends bytes eq_bytes mem column_text
resumed = refl

appends-Numbered_example : Numbered 0 (of_run (bytes "r") (appends text calls []))
appends-Numbered_example = appends-Numbered text (bytes "r") calls

events_after-appends_example :
    events_after text working (bytes "r") 1 (appends text calls [])
    ≡ success (map (read_event text) (drop 1 (of_run (bytes "r") (appends text calls []))))
events_after-appends_example = events_after-appends text text calls working (bytes "r") 1 refl

known : mem (bytes "q") (bytes "r" ∷ bytes "q" ∷ []) ≡ true
unfolding mem bytes eq_bytes
known = refl

append_event-appends_example :
    (next : RuntimeEvent Bytes) × (append_event text working
        (bytes "r" ∷ bytes "q" ∷ [])
        (bytes "q")
        (bytes "log")
        (bytes "6")
        (bytes "t0")
        (appends text calls [])
      ≡ (
        appends text calls []
            ++ event_row (bytes "q") next.sequence (bytes "log") (bytes "6") (bytes "t0") ∷ [],
        success next,
      ))
    × (next.sequence ≡ suc (length (of_run (bytes "q") (appends text calls []))))
    × (next.payload ≡ bytes "6")
append_event-appends_example =
    append_event-appends text calls (event (bytes "q") (bytes "6")) (λ n. refl) known
