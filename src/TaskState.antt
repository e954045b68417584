-- ===== src/TaskState.antt =====
-- src/state/task_state.cpp: the state of a task as its run goes on, and its JSON. The proofs are in the
-- module below.
pub mod Saved
use runi.Prelude.{
  ℕ, zero, suc, ◌+◌, ◌%◌, ◌^◌, Bool, true, false, Option, none, some, List, [], ◌∷◌, Bytes, bytes,
  if◌then◌else◌, is_empty,
}
use runi.Json.Value.{
  JsonValue, Fields, ℤ, pos, negsuc, integer, string, object, end, field, find, string_or,
  integer_or, signed,
}

pub record TaskState : Type 0 where
  pub run_id : Bytes
  pub task_id : Bytes
  pub user_request : Bytes
  pub status : Bytes
  pub tool_steps : ℕ
  pub attempts : ℕ
  pub last_tool : Bytes
  pub stop_reason : Bytes
  pub final_answer : Bytes
  pub checkpoint_id : Bytes
  pub resume_status : Bytes

abbrev pub status_running : Bytes
status_running = bytes "running"

abbrev pub status_completed : Bytes
status_completed = bytes "completed"

abbrev pub status_stopped : Bytes
status_stopped = bytes "stopped"

abbrev pub status_failed : Bytes
status_failed = bytes "failed"

abbrev pub stop_final_answer_returned : Bytes
stop_final_answer_returned = bytes "final_answer_returned"

abbrev pub stop_step_limit_reached : Bytes
stop_step_limit_reached = bytes "step_limit_reached"

abbrev pub stop_retry_limit_reached : Bytes
stop_retry_limit_reached = bytes "retry_limit_reached"

abbrev pub stop_model_error_reason : Bytes
stop_model_error_reason = bytes "model_error"

abbrev pub stop_cancelled : Bytes
stop_cancelled = bytes "cancelled"

-- `TaskState::create`; `new_run_id` is what the function of that name returns.
unfoldable pub create : Bytes → Bytes → Bytes → Bytes → TaskState
create new_run_id task request run = record {
  run_id = if is_empty run then new_run_id else run;
  task_id = task;
  user_request = request;
  status = status_running;
  tool_steps = 0;
  attempts = 0;
  last_tool = [];
  stop_reason = [];
  final_answer = [];
  checkpoint_id = [];
  resume_status = [];
}

unfoldable pub record_attempt : TaskState → TaskState
record_attempt state = record state { attempts = suc state.attempts % 2 ^ 64 }

unfoldable pub record_tool : Bytes → TaskState → TaskState
record_tool name state = record state {
  tool_steps = suc state.tool_steps % 2 ^ 64;
  last_tool = name;
}

unfoldable pub stop : Bytes → Bytes → Bytes → TaskState → TaskState
stop reason terminal_status final state = record state {
  status = terminal_status;
  stop_reason = reason;
  final_answer = if is_empty final then state.final_answer else final;
}

unfoldable pub stop_step_limit : Bytes → TaskState → TaskState
unfolding stop
stop_step_limit = stop stop_step_limit_reached status_stopped

unfoldable pub stop_retry_limit : Bytes → TaskState → TaskState
unfolding stop
stop_retry_limit = stop stop_retry_limit_reached status_stopped

unfoldable pub stop_model_error : Bytes → TaskState → TaskState
unfolding stop
stop_model_error = stop stop_model_error_reason status_failed

unfoldable pub finish_success : Bytes → TaskState → TaskState
finish_success final state = record state {
  status = status_completed;
  stop_reason = stop_final_answer_returned;
  final_answer = final;
}

-- A number below 0 counts as 0.
unfoldable natural : ℤ → ℕ
natural (pos n) = n
natural (negsuc n) = 0

module _ {D : Type 0} where
  or_fallback : Bytes → Option (JsonValue D) → Bytes
  unfolding string_or
  or_fallback fallback none = fallback
  or_fallback fallback (some item) = string_or fallback item

  unfoldable pub string_field : JsonValue D → Bytes → Bytes → Bytes
  unfolding or_fallback find
  string_field value key fallback = or_fallback fallback (find key value)

  or_zero : Option (JsonValue D) → ℕ
  unfolding natural integer_or
  or_zero none = 0
  or_zero (some item) = natural (integer_or (pos 0) item)

  unfoldable pub size_field : JsonValue D → Bytes → ℕ
  unfolding or_zero find
  size_field value key = or_zero (find key value)

  -- `TaskState::from_json`.
  unfoldable pub from_json : JsonValue D → TaskState
  unfolding string_field size_field
  from_json value = record {
    run_id = string_field value (bytes "run_id") [];
    task_id = string_field value (bytes "task_id") [];
    user_request = string_field value (bytes "user_request") [];
    status = string_field value (bytes "status") status_running;
    tool_steps = size_field value (bytes "tool_steps");
    attempts = size_field value (bytes "attempts");
    last_tool = string_field value (bytes "last_tool") [];
    stop_reason = string_field value (bytes "stop_reason") [];
    final_answer = string_field value (bytes "final_answer") [];
    checkpoint_id = string_field value (bytes "checkpoint_id") [];
    resume_status = string_field value (bytes "resume_status") [];
  }

  -- `TaskState::to_json`.
  unfoldable pub to_json : TaskState → JsonValue D
  unfolding signed
  to_json state = object (
      field (bytes "attempts") (integer (signed state.attempts)) (
        field (bytes "checkpoint_id") (string state.checkpoint_id) (
          field (bytes "final_answer") (string state.final_answer) (
            field (bytes "last_tool") (string state.last_tool) (
              field (bytes "resume_status") (string state.resume_status) (
                field (bytes "run_id") (string state.run_id) (
                  field (bytes "status") (string state.status) (
                    field (bytes "stop_reason") (string state.stop_reason) (
                      field (bytes "task_id") (string state.task_id) (
                        field (bytes "tool_steps") (integer (signed state.tool_steps))
                          (field (bytes "user_request") (string state.user_request) end)))))))))))
