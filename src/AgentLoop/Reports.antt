-- ===== src/AgentLoop/Reports.antt =====
-- src/agent/agent_loop.cpp: what the report of a run that returns a text says of it.
use runi.Prelude.{
  ℕ, zero, suc, ◌≡◌, ◌⊎◌, refl, subst, ◌&&◌, Option, none, some, List, ◌∷◌, Bytes, bytes, ltb, leb,
  is_empty, Bool-cases, inl, inr,
}
use runi.Error.{Result, success, failure, Result-cases}
use runi.ActionParser.{ModelAction, tool_call, retry_request, final_answer, parse}
use runi.TaskState.{
  record_attempt, status_completed, status_stopped, stop_final_answer_returned,
  stop_step_limit_reached, stop_retry_limit_reached,
}
use runi.AgentLoop.{
  Effect, started, reported, requested, Turn, Session, Run, Pass, returned, going, max_attempts,
  note, emit_trace, write_task_state, prompt_built, take_action, ask_model, attempt, stop_at_limit,
  returned_of, attempt_loop, initial_run, run_agent,
}
use runi.AgentLoop.Limits.{Pass-cases}

-- The log ends with the report of a task whose final answer is the text, completed or stopped at a limit.
abbrev pub EndsWith : {D : Type 0} → Bytes → List (Effect D) → Type 0
EndsWith text (reported task ∷ log) =
    (task.final_answer ≡ text)
    × (((task.status ≡ status_completed) × (task.stop_reason ≡ stop_final_answer_returned))
        ⊎ ((task.status ≡ status_stopped)
            × ((task.stop_reason ≡ stop_step_limit_reached)
                ⊎ (task.stop_reason ≡ stop_retry_limit_reached))))
EndsWith text _ = ⊥

abbrev pub Reports : {D : Type 0} → Result Bytes → List (Effect D) → Type 0
Reports (success text) log = EndsWith text log
Reports (failure e) log = Unit {0}

abbrev pub PassReports : {D : Type 0} → Pass D → Type 0
PassReports (returned result run) = Reports result run.log
PassReports (going run) = Unit {0}

module _ {D : Type 0} (ids : ℕ → Bytes) where
  take_action-PassReports :
      (turn : Turn) (text : Bytes) (action : ModelAction D) (run : Run D)
      → PassReports (take_action ids turn text action run)
  unfolding take_action
  take_action-PassReports turn text (tool_call name args) run =
      elim (Bool-cases turn.stop_after_tool) [
        | inl f ↦ simp f tt
        | inr f ↦ elim (Result-cases turn.saved) [
          | inl (done, g) ↦ simp (f, g) tt
          | inr (error, g) ↦ simp (f, g) tt
        ]
      ]
  take_action-PassReports turn text (retry_request notice) run = elim (Result-cases turn.saved) [
    | inl (done, g) ↦ simp g tt
    | inr (error, g) ↦ simp g tt
  ]
  take_action-PassReports turn text (final_answer answer) run = elim (Result-cases turn.saved) [
    | inl (done, g) ↦ elim (Result-cases turn.report) [
      | inl (written, h) ↦ simp (g, h) (refl, inl (refl, refl))
      | inr (error, h) ↦ simp (g, h) tt
    ]
    | inr (error, g) ↦ simp g tt
  ]

  ask_model-PassReports :
      (strtod : Bytes → Option D) (turn : Turn) (run : Run D)
      → PassReports (ask_model ids strtod turn run)
  unfolding ask_model
  ask_model-PassReports strtod turn run = elim (Result-cases turn.completion) [
    | inr (error, f) ↦ rw f tt
    | inl (text, f) ↦ elim (Bool-cases turn.stop_after_completion) [
      | inl g ↦ rw (f, g) tt
      | inr g ↦
          simp (f, g, ask_model)
            (take_action-PassReports turn text (parse strtod text) (note requested run))
    ]
  ]

  attempt-PassReports :
      (strtod : Bytes → Option D) (turn : Turn) (run : Run D)
      → PassReports (attempt ids strtod turn run)
  unfolding attempt
  attempt-PassReports strtod turn run =
      let counted : Run D =
        write_task_state
          (record run { attempts = suc run.attempts; task = record_attempt run.task }) in
      elim (Bool-cases turn.stop_at_head) [
        | inl f ↦ simp f tt
        | inr f ↦ elim (Result-cases turn.written) [
          | inr (error, g) ↦ simp (f, g) tt
          | inl (done, g) ↦ elim (Result-cases turn.prompt) [
            | inr (error, h) ↦ simp (f, g, h) tt
            | inl (prompt, h) ↦
                simp (f, g, h) (ask_model-PassReports strtod turn (prompt_built ids prompt counted))
          ]
        ]
      ]

stop_at_limit-PassReports :
    {D : Type 0} (max_steps : ℕ) (session : Session) (run : Run D)
    → PassReports (stop_at_limit max_steps session run)
unfolding stop_at_limit bytes is_empty
stop_at_limit-PassReports max_steps session run =
    elim (Bool-cases (leb (max_attempts max_steps) run.attempts && ltb run.tool_steps max_steps)) [
      | inl f ↦ elim (Result-cases session.last_saved) [
        | inr (error, g) ↦ simp (f, g) tt
        | inl (done, g) ↦ elim (Result-cases session.last_report) [
          | inr (error, h) ↦ simp (f, g, h) tt
          | inl (written, h) ↦ simp (f, g, h) (refl, inr (refl, inr refl))
        ]
      ]
      | inr f ↦ elim (Result-cases session.last_saved) [
        | inr (error, g) ↦ simp (f, g) tt
        | inl (done, g) ↦ elim (Result-cases session.last_report) [
          | inr (error, h) ↦ simp (f, g, h) tt
          | inl (written, h) ↦ simp (f, g, h) (refl, inr (refl, inl refl))
        ]
      ]
    ]

abbrev pub LoopReports : {D : Type 0} → Option (Result Bytes × List (Effect D)) → Type 0
LoopReports none = Unit {0}
LoopReports (some (result, log)) = Reports result log

-- What a pass that returns leaves has the report that the pass has.
returned_of-LoopReports :
    {D : Type 0} (pass : Pass D) → PassReports pass → LoopReports (returned_of pass)
unfolding returned_of
returned_of-LoopReports (returned result run) h = h
returned_of-LoopReports (going run) h = tt

attempt_loop-LoopReports :
    {D : Type 0} (strtod : Bytes → Option D) (max_steps : ℕ) (session : Session) (fuel : ℕ)
    (run : Run D)
    → LoopReports (attempt_loop strtod max_steps session fuel run)
unfolding attempt_loop
attempt_loop-LoopReports strtod max_steps session zero run = tt
attempt_loop-LoopReports strtod max_steps session (suc fuel) run =
    elim (Bool-cases (ltb run.tool_steps max_steps && ltb run.attempts (max_attempts max_steps))) [
      | inr c ↦
          rw (c, attempt_loop)
            (returned_of-LoopReports (stop_at_limit max_steps session run)
              (stop_at_limit-PassReports max_steps session run))
      | inl c ↦
          let pass = attempt session.checkpoint_ids strtod (session.turns run.attempts) run in
          elim (Pass-cases pass) [
            | inl (result, ended, g) ↦
                rw (c, attempt_loop)
                  (rw g (
                    subst PassReports g (
                      attempt-PassReports session.checkpoint_ids strtod (session.turns run.attempts)
                        run)))
            | inr (next, g) ↦
                rw (c, attempt_loop)
                  (rw g (attempt_loop-LoopReports strtod max_steps session fuel next))
          ]
    ]

run_agent-LoopReports :
    {D : Type 0} (strtod : Bytes → Option D) (max_steps : ℕ) (session : Session)
    (user_message : Bytes)
    → LoopReports (run_agent strtod max_steps session user_message)
unfolding run_agent
run_agent-LoopReports {D} strtod max_steps session user_message =
    let initial : Run D = initial_run session user_message in
    let opened = emit_trace (bytes "run_started") (note (started initial.task) initial) in
    elim (Bool-cases session.stop_at_start) [
      | inl f ↦ simp f tt
      | inr f ↦ elim (Result-cases session.user_saved) [
        | inr (error, g) ↦ simp (f, g) tt
        | inl (done, g) ↦ elim (Result-cases session.run_started) [
          | inr (error, k) ↦ simp (f, g, k) tt
          | inl (dir, k) ↦
              simp (f, g, k)
                (attempt_loop-LoopReports strtod max_steps session (suc (max_attempts max_steps))
                  opened)
        ]
      ]
    ]

-- When a run of the agent loop returns a text, the last thing that it did was to write the report
-- of its task, in which the text is the final answer, and the task is completed with an answer of
-- the model, or stopped at the step limit or the retry limit.
pub run_agent-EndsWith :
    {D : Type 0} (strtod : Bytes → Option D) (max_steps : ℕ) (session : Session)
    (user_message text : Bytes) (log : List (Effect D))
    → run_agent strtod max_steps session user_message ≡ some (success text, log)
    → EndsWith text log
run_agent-EndsWith strtod max_steps session user_message text log h =
    subst LoopReports h (run_agent-LoopReports strtod max_steps session user_message)
