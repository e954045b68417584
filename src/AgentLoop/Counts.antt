-- ===== src/AgentLoop/Counts.antt =====
-- src/agent/agent_loop.cpp: what the log of a run counts, and how an attempt adds to it.
use runi.Prelude.{
  ℕ, suc, ◌+◌, ◌≤◌, ◌≡◌, ap, Option, List, [], ◌∷◌, Bytes, bytes, arith, eq_bytes, Bool-cases, inl,
  inr,
}
use runi.Error.{Result, success, failure, Result-cases}
use runi.ActionParser.{ModelAction, tool_call, retry_request, final_answer, parse}
use runi.TaskState.{record_attempt}
use runi.AgentLoop.{
  Effect, recorded, tool_recorded, started, wrote, reported, traced, checkpointed, promoted,
  requested, executed, Prompt, Turn, Run, Pass, returned, going, note, emit_trace, write_task_state,
  or_return, finish_cancelled, checkpoint_resume, prompt_built, take_action, ask_model, attempt,
}

-- How many tools the log has executed.
unfoldable pub executions : {D : Type 0} → List (Effect D) → ℕ
executions [] = 0
executions (executed name args ∷ log) = suc (executions log)
executions (recorded role content ∷ log) = executions log
executions (tool_recorded name args content ∷ log) = executions log
executions (started task ∷ log) = executions log
executions (wrote task ∷ log) = executions log
executions (reported task ∷ log) = executions log
executions (traced event ∷ log) = executions log
executions (checkpointed trigger ∷ log) = executions log
executions (promoted final ∷ log) = executions log
executions (requested ∷ log) = executions log

-- How many completions the log has asked the model for.
unfoldable pub requests : {D : Type 0} → List (Effect D) → ℕ
requests [] = 0
requests (requested ∷ log) = suc (requests log)
requests (executed name args ∷ log) = requests log
requests (recorded role content ∷ log) = requests log
requests (tool_recorded name args content ∷ log) = requests log
requests (started task ∷ log) = requests log
requests (wrote task ∷ log) = requests log
requests (reported task ∷ log) = requests log
requests (traced event ∷ log) = requests log
requests (checkpointed trigger ∷ log) = requests log
requests (promoted final ∷ log) = requests log

-- The log has what the counters say, with `ahead` attempts that have not asked the model yet.
abbrev pub Within : {D : Type 0} → ℕ → ℕ → ℕ → Run D → Type 0
Within ahead steps attempts run =
    (executions run.log ≡ run.tool_steps)
    × (run.tool_steps ≤ steps)
    × (ahead + requests run.log ≤ run.attempts)
    × (run.attempts ≡ attempts)

-- A run that goes on has made the attempt; one that has returned may have stopped before it.
abbrev pub PassWithin : {D : Type 0} → ℕ → ℕ → Pass D → Type 0
PassWithin steps attempts (returned result run) =
    (executions run.log ≤ steps) × (requests run.log ≤ attempts)
PassWithin steps attempts (going run) = Within 0 steps attempts run

-- A log within the limits, for a pass that returns.
pub LogWithin :
    {D : Type 0} (ahead steps attempts : ℕ) (run : Run D)
    → Within ahead steps attempts run
    → (executions run.log ≤ steps) × (requests run.log ≤ attempts)
LogWithin ahead steps attempts run (e, s, r, a) = (omega arith, omega arith)

or_return-PassWithin :
    {D : Type 0} (steps attempts : ℕ) (result : Result (Unit {0})) (kept : Run D) (pass : Pass D)
    → (executions kept.log ≤ steps) × (requests kept.log ≤ attempts)
    → PassWithin steps attempts pass
    → PassWithin steps attempts (or_return result kept pass)
unfolding or_return
or_return-PassWithin steps attempts (failure e) kept pass h k = h
or_return-PassWithin steps attempts (success done) kept pass h k = k

module _ {D : Type 0} (ids : ℕ → Bytes) (steps attempts : ℕ) where
  checkpoint_resume-Within :
      (status : Bytes) (run : Run D)
      → Within 1 steps attempts run
      → Within 1 steps attempts (checkpoint_resume ids status run)
  unfolding checkpoint_resume executions requests
  checkpoint_resume-Within status run w =
      elim (Bool-cases (eq_bytes status (bytes "partial-stale"))) [
        | inl e ↦ rw e w
        | inr e ↦ elim (Bool-cases (eq_bytes status (bytes "workspace-mismatch"))) [
          | inl f ↦ rw (e, f) w
          | inr f ↦ rw (e, f) w
        ]
      ]

  prompt_built-Within :
      (prompt : Prompt) (run : Run D)
      → Within 1 steps attempts run
      → Within 1 steps attempts (prompt_built ids prompt run)
  unfolding prompt_built executions requests
  prompt_built-Within prompt run w =
      let resumed =
        checkpoint_resume-Within prompt.resume_status (emit_trace (bytes "prompt_built") run) w in
      elim (Bool-cases prompt.has_reductions) [ inl e ↦ rw e resumed | inr e ↦ rw e resumed ]

  finish_cancelled-PassWithin :
      (ahead : ℕ) (run : Run D)
      → Within ahead steps attempts run
      → PassWithin steps attempts (finish_cancelled ids run)
  unfolding finish_cancelled executions requests
  finish_cancelled-PassWithin ahead run w = LogWithin ahead steps attempts run w

  take_action-PassWithin :
      (turn : Turn) (text : Bytes) (action : ModelAction D) (run : Run D)
      → Within 0 steps attempts run
      → PassWithin (suc steps) attempts (take_action ids turn text action run)
  unfolding take_action executions requests
  take_action-PassWithin turn text (tool_call name args) run (e, s, r, a) =
      elim (Bool-cases turn.stop_after_tool) [
        | inl f ↦ rw f (omega arith, omega arith)
        | inr f ↦ elim (Result-cases turn.saved) [
          | inl (done, g) ↦ rw (f, g) (omega arith, omega arith, r, a)
          | inr (error, g) ↦ rw (f, g) (omega arith, omega arith)
        ]
      ]
  take_action-PassWithin turn text (retry_request notice) run (e, s, r, a) =
      elim (Result-cases turn.saved) [
        | inl (done, g) ↦ rw g (e, omega arith, r, a)
        | inr (error, g) ↦ rw g (omega arith, omega arith)
      ]
  take_action-PassWithin turn text (final_answer answer) run (e, s, r, a) =
      elim (Result-cases turn.saved) [
        | inl (done, g) ↦ elim (Result-cases turn.report) [
          | inl (written, h) ↦ rw (g, h) (omega arith, omega arith)
          | inr (error, h) ↦ rw (g, h) (omega arith, omega arith)
        ]
        | inr (error, g) ↦ rw g (omega arith, omega arith)
      ]

  ask_model-PassWithin :
      (strtod : Bytes → Option D) (turn : Turn) (run : Run D)
      → Within 1 steps attempts run
      → PassWithin (suc steps) attempts (ask_model ids strtod turn run)
  unfolding ask_model executions requests
  ask_model-PassWithin strtod turn run (e, s, r, a) = elim (Result-cases turn.completion) [
    | inr (error, f) ↦ rw f (omega arith, omega arith)
    | inl (text, f) ↦ elim (Bool-cases turn.stop_after_completion) [
      | inl g ↦ rw (f, g) (omega arith, omega arith)
      | inr g ↦
          simp (f, g, ask_model)
            (take_action-PassWithin turn text (parse strtod text) (note requested run)
              (e, s, omega arith, a))
    ]
  ]

pub attempt-PassWithin :
    {D : Type 0} (ids : ℕ → Bytes) (strtod : Bytes → Option D) (steps attempts : ℕ) (turn : Turn)
    (run : Run D)
    → Within 0 steps attempts run
    → PassWithin (suc steps) (suc attempts) (attempt ids strtod turn run)
unfolding attempt executions requests
attempt-PassWithin {D} ids strtod steps attempts turn run (e, s, r, a) =
    let counted : Run D =
      write_task_state
        (record run { attempts = suc run.attempts; task = record_attempt run.task }) in
    let w : Within 1 steps (suc attempts) counted = (e, s, omega arith, ap suc a) in
    elim (Bool-cases turn.stop_at_head) [
      | inl f ↦ simp f (omega arith, omega arith)
      | inr f ↦ elim (Result-cases turn.written) [
        | inr (error, g) ↦ simp (f, g) (omega arith, omega arith)
        | inl (done, g) ↦ elim (Result-cases turn.prompt) [
          | inr (error, h) ↦ simp (f, g, h) (omega arith, omega arith)
          | inl (prompt, h) ↦
              simp (f, g, h)
                (ask_model-PassWithin ids steps (suc attempts) strtod turn
                  (prompt_built ids prompt counted)
                  (prompt_built-Within ids steps (suc attempts) prompt counted w))
        ]
      ]
    ]
