-- ===== src/AgentLoop.antt =====
-- src/agent/agent_loop.cpp: `AgentLoop::run`. What it calls answers by the fields of `Session` and
-- `Turn`, and what it does is written in a log. The proofs are in the modules below.
pub mod Counts
pub mod Limits
pub mod Reports
use runi.Prelude.{
  ℕ, zero, suc, ◌+◌, ◌*◌, ◌%◌, ◌^◌, Bool, true, false, ◌&&◌, Option, none, some, List, [], ◌∷◌,
  Bytes, bytes, ltb, leb, if◌then◌else◌, is_empty, eq_bytes,
}
use runi.Error.{Error, Result, success, failure, make_error, timeout}
use runi.Text.{trim}
use runi.Json.Value.{Fields}
use runi.ActionParser.{ModelAction, tool_call, retry_request, final_answer, parse}
use runi.TaskState.{
  TaskState, create, record_attempt, record_tool, stop, stop_step_limit, stop_retry_limit,
  finish_success, stop_cancelled, status_stopped,
}

-- What the loop does to the world outside, in the order of the calls. A trace is its event, without the
-- payload; a checkpoint is its trigger.
pub data Effect (D : Type 0) : Type 0 where
  recorded : Bytes → Bytes → Effect D
  tool_recorded : Bytes → Fields D → Bytes → Effect D
  started wrote reported : TaskState → Effect D
  traced checkpointed promoted : Bytes → Effect D
  requested : Effect D
  executed : Bytes → Fields D → Effect D

-- What `build_prompt` tells in its metadata.
pub record Prompt : Type 0 where
  pub resume_status : Bytes
  pub has_reductions : Bool

-- What the calls of one attempt return, and whether a stop is requested when the loop asks: at its
-- head, after the completion and after the tool.
pub record Turn : Type 0 where
  pub stop_at_head : Bool
  pub written : Result (Unit {0})
  pub prompt : Result Prompt
  pub completion : Result Bytes
  pub stop_after_completion : Bool
  pub tool_content : Bytes
  pub stop_after_tool : Bool
  pub saved : Result (Unit {0})
  pub report : Result (Unit {0})

-- What the other calls return; `turns` are the attempts, and `checkpoint_ids` those of the checkpoints,
-- in their order.
pub record Session : Type 0 where
  pub stop_at_start : Bool
  pub user_saved : Result (Unit {0})
  pub task_id : Bytes
  pub run_id : Bytes
  pub resume_status : Bytes
  pub run_started : Result (Unit {0})
  pub turns : ℕ → Turn
  pub checkpoint_ids : ℕ → Bytes
  pub last_saved : Result (Unit {0})
  pub last_report : Result (Unit {0})

-- The variables of `run`, with the log, the latest effect first.
pub record Run (D : Type 0) : Type 0 where
  pub task : TaskState
  pub tool_steps : ℕ
  pub attempts : ℕ
  pub checkpoints : ℕ
  pub log : List (Effect D)

-- How a pass of the loop ends.
pub data Pass (D : Type 0) : Type 0 where
  returned : Result Bytes → Run D → Pass D
  going : Run D → Pass D

unfoldable pub max_attempts : ℕ → ℕ
max_attempts max_steps =
    if ltb (max_steps * 3 % 2 ^ 64) ((max_steps + 4) % 2 ^ 64)
    then (max_steps + 4) % 2 ^ 64
    else max_steps * 3 % 2 ^ 64

abbrev pub run_cancelled : Bytes → Error
run_cancelled = make_error timeout (bytes "run_cancelled")

module _ {D : Type 0} where
  unfoldable pub note : Effect D → Run D → Run D
  note effect run = record run { log = effect ∷ run.log }

  unfoldable pub emit_trace : Bytes → Run D → Run D
  unfolding note
  emit_trace event run = note (traced event) run

  unfoldable pub write_task_state : Run D → Run D
  unfolding note
  write_task_state run = note (wrote run.task) run

  unfoldable pub with_task : TaskState → Run D → Run D
  with_task task run = record run { task = task }

  -- A call whose failure is returned.
  unfoldable pub or_return : Result (Unit {0}) → Run D → Pass D → Pass D
  or_return (failure e) run pass = returned (failure e) run
  or_return (success done) run pass = pass

  -- What a pass that returns leaves.
  unfoldable pub returned_of : Pass D → Option (Result Bytes × List (Effect D))
  returned_of (returned result run) = some (result, run.log)
  returned_of (going run) = none

module _ {D : Type 0} (checkpoint_ids : ℕ → Bytes) where
  unfoldable pub create_task_checkpoint : Bytes → Run D → Run D
  create_task_checkpoint trigger run = record run {
    task = record run.task { checkpoint_id = checkpoint_ids run.checkpoints };
    checkpoints = suc run.checkpoints;
    log = checkpointed trigger ∷ run.log;
  }

  -- A checkpoint, the state of the task and the trace of both.
  unfoldable pub checkpoint_written : Bytes → Run D → Run D
  unfolding emit_trace write_task_state create_task_checkpoint
  checkpoint_written trigger run =
      emit_trace (bytes "checkpoint_created")
        (write_task_state (create_task_checkpoint trigger run))

  unfoldable pub finish_cancelled : Run D → Pass D
  unfolding stop checkpoint_written emit_trace with_task note
  finish_cancelled run =
      let stopped =
        with_task (stop stop_cancelled status_stopped (bytes "Run cancelled.") run.task) run in
      let traces = emit_trace (bytes "run_cancelled") (checkpoint_written stop_cancelled stopped) in
      returned (failure (run_cancelled (bytes "Run cancelled.")))
        (note (reported traces.task) traces)

  -- What the metadata of the prompt asks for before the model is called.
  unfoldable pub checkpoint_resume : Bytes → Run D → Run D
  unfolding checkpoint_written emit_trace
  checkpoint_resume resume_status run =
      if eq_bytes resume_status (bytes "partial-stale")
      then checkpoint_written (bytes "freshness_mismatch") run
      else if eq_bytes resume_status (bytes "workspace-mismatch")
      then checkpoint_written (bytes "workspace_mismatch")
          (emit_trace (bytes "runtime_identity_mismatch") run)
      else run

  unfoldable pub prompt_built : Prompt → Run D → Run D
  unfolding checkpoint_resume checkpoint_written emit_trace
  prompt_built prompt run =
      let resumed =
        checkpoint_resume prompt.resume_status (emit_trace (bytes "prompt_built") run) in
      emit_trace (bytes "model_requested") (
        if prompt.has_reductions
        then checkpoint_written (bytes "context_reduction") resumed
        else resumed)

  -- The last traces of a run, and its report.
  unfoldable pub end_run : Result (Unit {0}) → Bytes → Run D → Pass D
  unfolding emit_trace note or_return
  end_run report final run =
      let traces =
        emit_trace (bytes "run_finished") (emit_trace (bytes "checkpoint_created") run) in
      let ended = note (reported traces.task) traces in
      or_return report ended (returned (success final) ended)

  unfoldable pub take_tool : Turn → Bytes → Fields D → Run D → Pass D
  unfolding record_tool note finish_cancelled checkpoint_written emit_trace write_task_state
      or_return
  take_tool turn name args run =
      let called =
        note (executed name args)
          (record run { tool_steps = suc run.tool_steps; task = record_tool name run.task }) in
      if turn.stop_after_tool
      then finish_cancelled called
      else let kept = note (tool_recorded name args turn.tool_content) called in
        or_return turn.saved kept (
          going (
            checkpoint_written (bytes "tool_executed")
              (emit_trace (bytes "tool_executed") (write_task_state kept))))

  unfoldable pub take_retry : Turn → Bytes → Run D → Pass D
  unfolding note write_task_state or_return
  take_retry turn notice run =
      let kept = note (recorded (bytes "assistant") notice) run in
      or_return turn.saved kept (going (write_task_state kept))

  unfoldable pub take_final : Turn → Bytes → Run D → Pass D
  unfolding note or_return with_task finish_success create_task_checkpoint write_task_state end_run
  take_final turn final run =
      let kept = note (recorded (bytes "assistant") final) run in
      let finished = note (promoted final) (with_task (finish_success final run.task) kept) in
      or_return turn.saved kept (
        end_run turn.report final
          (write_task_state (create_task_checkpoint (bytes "run_finished") finished)))

  unfoldable pub take_action : Turn → Bytes → ModelAction D → Run D → Pass D
  unfolding take_tool take_retry take_final emit_trace trim
  take_action turn text (tool_call name args) run =
      take_tool turn name args (emit_trace (bytes "model_parsed") run)
  take_action turn text (retry_request notice) run =
      take_retry turn notice (emit_trace (bytes "model_parsed") run)
  take_action turn text (final_answer answer) run =
      take_final turn (trim (if is_empty answer then text else answer))
        (emit_trace (bytes "model_parsed") run)

  -- From the call of the model on.
  unfoldable pub ask_model : (Bytes → Option D) → Turn → Run D → Pass D
  unfolding parse take_action finish_cancelled note
  ask_model strtod turn run = elim turn.completion [
    | failure e ↦ returned (failure e) (note requested run)
    | success text ↦
        if turn.stop_after_completion
        then finish_cancelled (note requested run)
        else take_action turn text (parse strtod text) (note requested run)
  ]

  -- The body of the loop.
  unfoldable pub attempt : (Bytes → Option D) → Turn → Run D → Pass D
  unfolding finish_cancelled record_attempt write_task_state prompt_built ask_model
  attempt strtod turn run =
      let counted =
        write_task_state
          (record run { attempts = suc run.attempts; task = record_attempt run.task }) in
      if turn.stop_at_head then finish_cancelled run else (elim turn.written [
        | failure e ↦ returned (failure e) counted
        | success done ↦ elim turn.prompt [
          | failure e ↦ returned (failure e) counted
          | success prompt ↦ ask_model strtod turn (prompt_built prompt counted)
        ]
      ])

unfoldable pub retry_limit_text : Bytes
retry_limit_text =
    bytes
      "Stopped after too many malformed model responses without a valid tool call or final answer."

unfoldable pub step_limit_text : Bytes
step_limit_text = bytes "Stopped after reaching the step limit without a final answer."

module _ {D : Type 0} (max_steps : ℕ) (session : Session) where
  -- After the loop.
  unfoldable pub stop_at_limit : Run D → Pass D
  unfolding max_attempts stop_retry_limit stop_step_limit retry_limit_text step_limit_text note
      or_return create_task_checkpoint write_task_state end_run with_task
  stop_at_limit run =
      let retried = leb (max_attempts max_steps) run.attempts && ltb run.tool_steps max_steps in
      let final = if retried then retry_limit_text else step_limit_text in
      let stopped =
        with_task
          (if retried then stop_retry_limit final run.task else stop_step_limit final run.task)
          run in
      let kept = note (recorded (bytes "assistant") final) stopped in
      let written = write_task_state (note (promoted final) kept) in
      or_return session.last_saved kept (
        end_run session.checkpoint_ids session.last_report final (
          create_task_checkpoint session.checkpoint_ids
            (if is_empty stopped.task.stop_reason
              then bytes "run_stopped"
              else stopped.task.stop_reason)
            written))

-- `initialize_task`, and `run` from there to the loop.
unfoldable pub initial_run : {D : Type 0} → Session → Bytes → Run D
unfolding create
initial_run session user_message = record {
  task = record (create session.run_id session.task_id user_message session.run_id) {
    resume_status =
        if is_empty session.resume_status then bytes "no-checkpoint" else session.resume_status;
  };
  tool_steps = 0;
  attempts = 0;
  checkpoints = 0;
  log = recorded (bytes "user") user_message ∷ [];
}

module _ {D : Type 0} (strtod : Bytes → Option D) (max_steps : ℕ) (session : Session) where
  -- The `while` loop, on fuel: `none` when it is spent.
  unfoldable pub attempt_loop : ℕ → Run D → Option (Result Bytes × List (Effect D))
  unfolding attempt stop_at_limit max_attempts returned_of
  attempt_loop zero run = none
  attempt_loop (suc fuel) run =
      elim (ltb run.tool_steps max_steps && ltb run.attempts (max_attempts max_steps)) [
        | false ↦ returned_of (stop_at_limit max_steps session run)
        | true ↦ elim (attempt session.checkpoint_ids strtod (session.turns run.attempts) run) [
          | returned result ended ↦ some (result, ended.log)
          | going next ↦ attempt_loop fuel next
        ]
      ]

  -- `AgentLoop::run`: its result and its log.
  unfoldable pub run_agent : Bytes → Option (Result Bytes × List (Effect D))
  unfolding attempt_loop initial_run note emit_trace
  run_agent user_message =
      let initial : Run D = initial_run session user_message in
      let opened = note (started initial.task) initial in
      if session.stop_at_start
      then some (failure (run_cancelled (bytes "Agent run was cancelled before it started")), [])
      else (elim session.user_saved [
        | failure e ↦ some (failure e, initial.log)
        | success done ↦ elim session.run_started [
          | failure e ↦ some (failure e, opened.log)
          | success dir ↦
              attempt_loop (suc (max_attempts max_steps)) (emit_trace (bytes "run_started") opened)
        ]
      ])
