-- ===== src/TaskState/Saved.antt =====
-- src/state/task_state.cpp: a task that is written as JSON and read again.
use runi.Prelude.{
  ℕ, ◌<◌, ◌^◌, ◌≡◌, refl, sym, ap, ◌∙◌, ◌++◌, Bool, true, subst, false, Bytes, bytes, Option, arith,
  less, eq_bytes,
}
use runi.Error.{success}
use runi.Json.Value.{JsonValue, pos, signed}
use runi.Json.Parser.{parse_json}
use runi.Json.Printer.{dump_json}
use runi.Json.RoundTrip.Numbers.{InRange}
use runi.Json.RoundTrip.Fields.{IsExact}
use runi.Json.RoundTrip.Mapped.{IsExact-mapped}
use runi.Json.RoundTrip.Blanks.{AllBlank}
use runi.Json.RoundTrip.Ascii.{is_ascii, IsAscii, AllAscii, dump_json-ascii}
use runi.Json.RoundTrip.Values.{parse_json-padded}
use runi.TaskState.{TaskState, from_json, to_json}

signed-small : (n : ℕ) → n < 2 ^ 63 → signed n ≡ pos n
unfolding signed
signed-small n h = ground arith

from_json-to_json :
    (D : Type 0) (state : TaskState)
    → state.attempts < 2 ^ 63
    → state.tool_steps < 2 ^ 63
    → from_json (to_json {D = D} state) ≡ state
unfolding from_json to_json bytes eq_bytes
from_json-to_json D state h k =
    rw (signed-small state.attempts h, signed-small state.tool_steps k) refl

to_json-IsExact :
    (D : Type 0) (state : TaskState)
    → state.attempts < 2 ^ 63
    → state.tool_steps < 2 ^ 63
    → IsExact (to_json {D = D} state)
unfolding to_json bytes less
to_json-IsExact D state h k = (
  (refl, (refl, (refl, (refl, (refl, (refl, (refl, (refl, (refl, (refl, tt)))))))))),
  subst InRange (sym (signed-small state.attempts h)) h,
  (
    (refl, (refl, (refl, (refl, (refl, (refl, (refl, (refl, (refl, tt))))))))),
    tt,
    (
      (refl, (refl, (refl, (refl, (refl, (refl, (refl, (refl, tt)))))))),
      tt,
      (
        (refl, (refl, (refl, (refl, (refl, (refl, (refl, tt))))))),
        tt,
        (
          (refl, (refl, (refl, (refl, (refl, (refl, tt)))))),
          tt,
          (
            (refl, (refl, (refl, (refl, (refl, tt))))),
            tt,
            (
              (refl, (refl, (refl, (refl, tt)))),
              tt,
              (
                (refl, (refl, (refl, tt))),
                tt,
                (
                  (refl, (refl, tt)),
                  tt,
                  (
                    (refl, tt),
                    subst InRange (sym (signed-small state.tool_steps k)) k,
                    (tt, tt, tt),
                  ),
                ),
              ),
            ),
          ),
        ),
      ),
    ),
  ),
)

-- What `ensure_ascii` asks of the texts of a task: with it they are ASCII, without it they are any
-- bytes.
abbrev pub IsSaveable : Bool → TaskState → Type 0
IsSaveable false state = Unit {0}
IsSaveable true state =
    (IsAscii state.checkpoint_id
      × IsAscii state.final_answer
      × IsAscii state.last_tool
      × IsAscii state.resume_status
      × IsAscii state.run_id)
    × (IsAscii state.status
        × IsAscii state.stop_reason
        × IsAscii state.task_id
        × IsAscii state.user_request)

to_json-AllAscii :
    (D : Type 0) (state : TaskState) → IsSaveable true state → AllAscii (to_json {D = D} state)
unfolding to_json bytes is_ascii
to_json-AllAscii D state
      ((checkpoint_id, answer, tool, resume, run), (status, reason, task, request)) =
    (
      refl,
      tt,
      (
        refl,
        checkpoint_id,
        (
          refl,
          answer,
          (
            refl,
            tool,
            (
              refl,
              resume,
              (
                refl,
                run,
                (refl, status, (refl, reason, (refl, task, (refl, tt, (refl, request, tt))))),
              ),
            ),
          ),
        ),
      ),
    )

dump_json-to_json :
    {D : Type 0} (real_text : D → Bytes) (indent : Option ℕ) (ensure_ascii : Bool)
    (state : TaskState)
    → IsSaveable ensure_ascii state
    → dump_json real_text indent ensure_ascii (to_json state)
      ≡ dump_json real_text indent false (to_json state)
dump_json-to_json real_text indent false state h = refl
dump_json-to_json real_text indent true state h =
    dump_json-ascii real_text indent (to_json state) (to_json-AllAscii _ state h)

-- A task state whose counts are less than `2 ^ 63` comes back unchanged from its JSON text, in
-- whatever indent and with whatever blanks after it: `parse_json` reads what `dump_json` wrote of
-- `to_json`, and `from_json` makes the same state of it. With `ensure_ascii` that is so for texts
-- that are ASCII, without it for texts of any bytes.
pub saved-read :
    {D : Type 0} (real_text : D → Bytes) (strtod : Bytes → Option D) (indent : Option ℕ)
    (ensure_ascii : Bool) (state : TaskState) (rest : Bytes)
    → IsSaveable ensure_ascii state
    → state.attempts < 2 ^ 63
    → state.tool_steps < 2 ^ 63
    → AllBlank rest
    → (value : JsonValue D) × (parse_json strtod
          (dump_json real_text indent ensure_ascii (to_json state) ++ rest)
        ≡ success value)
      × (from_json value ≡ state)
saved-read real_text strtod indent ensure_ascii state rest s h k blank =
    let (readable, same) = IsExact-mapped (to_json state) (to_json-IsExact _ state h k) in
    (
      to_json state,
      ap (λ t. parse_json strtod (t ++ rest))
            (dump_json-to_json real_text indent ensure_ascii state s)
          ∙ (parse_json-padded real_text strtod indent (to_json state) rest readable blank
              ∙ ap success same),
      from_json-to_json _ state h k,
    )
