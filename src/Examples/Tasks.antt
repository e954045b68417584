-- ===== src/Examples/Tasks.antt =====
-- A task that makes a step, ends and is saved.
use runi.Prelude.{arith, true, refl, ◌≡◌, some, [], ◌∷◌, ◌++◌, Bytes, bytes, is_empty}
use runi.Error.{success}
use runi.Json.Value.{JsonValue}
use runi.Json.Parser.{parse_json}
use runi.Json.Printer.{dump_json}
use runi.TaskState.{
  TaskState, create, record_attempt, record_tool, finish_success, from_json, to_json,
}
use runi.TaskState.Saved.{saved-read}
use runi.Json.Reader.{is_space}
use runi.Json.RoundTrip.Blanks.{AllBlank}
use runi.Json.RoundTrip.Ascii.{is_ascii}
use runi.Examples.Documents.{no_real}

abbrev ended : TaskState
unfolding create record_attempt record_tool finish_success is_empty
ended = finish_success (bytes "Done.") (
    record_tool (bytes "read_file")
      (record_attempt (create (bytes "run_1") (bytes "task_1") (bytes "read it") [])))

-- As the program saves it: indented, with `ensure_ascii` and a newline.
saved-read_example :
    (value : JsonValue Bytes) × (parse_json no_real
        (dump_json (λ d. d) (some 2) true (to_json ended) ++ b'\n' ∷ [])
      ≡ success value)
    × (from_json value ≡ ended)
unfolding ended is_ascii bytes
saved-read_example =
    saved-read (λ d. d) no_real (some 2) true ended (b'\n' ∷ [])
      ((refl, refl, refl, refl, refl), (refl, refl, refl, refl)) (omega arith) (omega arith) newline
  where
    newline : AllBlank (b'\n' ∷ [])
    newline = unfold is_space in (refl, tt)
