-- ===== src/AgentLoop/Limits.antt =====
-- src/agent/agent_loop.cpp: the limits on the steps and the attempts of a run, and its end.
use runi.Prelude.{
  ℕ, zero, suc, ◌+◌, ◌≤◌, ◌<◌, ◌≡◌, ◌⊎◌, refl, subst, true, ◌&&◌, Option, some, List, [], ◌∷◌,
  Bytes, bytes, ltb, arith, Bool-cases, inl, inr,
}
use runi.Error.{Result, failure, Result-cases}
use runi.AgentLoop.{
  Effect, started, Session, Run, Pass, returned, going, max_attempts, run_cancelled, note,
  emit_trace, attempt, stop_at_limit, returned_of, attempt_loop, initial_run, run_agent,
}
use runi.AgentLoop.Counts.{executions, requests, Within, PassWithin, attempt-PassWithin}

-- A pass that returns with so many executions and requests in its log.
abbrev pub ReturnedWith : {D : Type 0} → ℕ → ℕ → Pass D → Type 0
ReturnedWith steps asked (returned result run) =
    (executions run.log ≡ steps) × (requests run.log ≡ asked)
ReturnedWith steps asked (going run) = ⊥

ReturnedWith-returned_of :
    {D : Type 0} (steps asked : ℕ) (pass : Pass D)
    → ReturnedWith steps asked pass
    → (result : Result Bytes) × (log : List (Effect D)) × (returned_of pass ≡ some (result, log))
      × (executions log ≡ steps)
      × (requests log ≡ asked)
unfolding returned_of
ReturnedWith-returned_of steps asked (returned result run) (e, r) = (result, run.log, refl, e, r)
ReturnedWith-returned_of steps asked (going run) h = absurd h

stop_at_limit-ReturnedWith :
    {D : Type 0} (max_steps : ℕ) (session : Session) (run : Run D)
    → ReturnedWith (executions run.log) (requests run.log) (stop_at_limit max_steps session run)
unfolding stop_at_limit executions requests
stop_at_limit-ReturnedWith max_steps session run = elim (Result-cases session.last_saved) [
  | inr (error, g) ↦ simp g (refl, refl)
  | inl (done, g) ↦ elim (Result-cases session.last_report) [
    | inr (error, h) ↦ simp (g, h) (refl, refl)
    | inl (written, h) ↦ simp (g, h) (refl, refl)
  ]
]

pub Pass-cases :
    {D : Type 0} (pass : Pass D)
    → ((result : Result Bytes) × (run : Run D) × (pass ≡ returned result run))
      ⊎ ((run : Run D) × (pass ≡ going run))
Pass-cases (returned result run) = inl (result, run, refl)
Pass-cases (going run) = inr (run, refl)

both_below : (x y u v : ℕ) → (ltb x y && ltb u v) ≡ true → (x < y) × (u < v)
both_below x y u v h = ground arith

attempt_loop_returns :
    {D : Type 0} (strtod : Bytes → Option D) (max_steps : ℕ) (session : Session) (fuel : ℕ)
    (run : Run D)
    → Within 0 run.tool_steps run.attempts run
    → run.tool_steps ≤ max_steps
    → run.attempts ≤ max_attempts max_steps
    → max_attempts max_steps < fuel + run.attempts
    → (result : Result Bytes) × (log : List (Effect D)) × (attempt_loop strtod max_steps session
          fuel run
        ≡ some (result, log))
      × (executions log ≤ max_steps)
      × (requests log ≤ max_attempts max_steps)
unfolding attempt_loop
attempt_loop_returns strtod max_steps session zero run w s a f = absurd (omega arith)
attempt_loop_returns {D} strtod max_steps session (suc fuel) run (e, t, r, q) s a f =
    elim (Bool-cases (ltb run.tool_steps max_steps && ltb run.attempts (max_attempts max_steps))) [
      | inr c ↦
          let (result, log, there, steps, asked) =
            ReturnedWith-returned_of _ _ (stop_at_limit max_steps session run)
              (stop_at_limit-ReturnedWith max_steps session run) in
          (result, log, rw (c, attempt_loop) there, omega arith, omega arith)
      | inl c ↦
          let pass = attempt session.checkpoint_ids strtod (session.turns run.attempts) run in
          let (more_steps, more_attempts) =
            both_below run.tool_steps max_steps run.attempts (max_attempts max_steps) c in
          let within =
            attempt-PassWithin session.checkpoint_ids strtod run.tool_steps run.attempts
              (session.turns run.attempts) run (e, t, r, refl) in
          elim (Pass-cases pass) [
            | inl (result, ended, g) ↦
                let (steps, asked) =
                  subst (PassWithin (suc run.tool_steps) (suc run.attempts)) g within in
                (result, ended.log, rw (c, attempt_loop) (rw g refl), omega arith, omega arith)
            | inr (next, g) ↦
                let (e2, t2, r2, q2) =
                  subst (PassWithin (suc run.tool_steps) (suc run.attempts)) g within in
                let (result, log, there, steps, asked) =
                  attempt_loop_returns strtod max_steps session fuel next
                    (e2, omega arith, r2, refl) (omega arith) (omega arith) (omega arith) in
                (result, log, rw (c, attempt_loop) (rw g there), steps, asked)
          ]
    ]

-- A run of the agent loop always comes to an end, with a result: whatever the model answers,
-- whichever calls fail and whenever a stop is requested. On the way it executes at most `max_steps`
-- tools and asks the model at most `max_attempts` times.
pub run_agent_returns :
    {D : Type 0} (strtod : Bytes → Option D) (max_steps : ℕ) (session : Session)
    (user_message : Bytes)
    → (result : Result Bytes) × (log : List (Effect D)) × (run_agent strtod max_steps session
          user_message
        ≡ some (result, log))
      × (executions log ≤ max_steps)
      × (requests log ≤ max_attempts max_steps)
unfolding run_agent executions requests
run_agent_returns {D} strtod max_steps session user_message =
    let initial : Run D = initial_run session user_message in
    let opened = emit_trace (bytes "run_started") (note (started initial.task) initial) in
    let looped =
      attempt_loop_returns strtod max_steps session (suc (max_attempts max_steps)) opened
        (refl, omega arith, omega arith, refl) (omega arith) (omega arith) (omega arith) in
    elim (Bool-cases session.stop_at_start) [
      | inl f ↦ (
        failure (run_cancelled (bytes "Agent run was cancelled before it started")),
        [],
        simp f refl,
        omega arith,
        omega arith,
      )
      | inr f ↦ elim (Result-cases session.user_saved) [
        | inr (error, g) ↦ (failure error, initial.log, simp (f, g) refl, omega arith, omega arith)
        | inl (done, g) ↦ elim (Result-cases session.run_started) [
          | inr (error, h) ↦ (
            failure error,
            started initial.task ∷ initial.log,
            simp (f, g, h) refl,
            omega arith,
            omega arith,
          )
          | inl (dir, h) ↦
              let (result, log, there, steps, asked) = looped in
              (result, log, simp (f, g, h) there, steps, asked)
        ]
      ]
    ]
