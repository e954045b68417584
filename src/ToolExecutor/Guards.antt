-- ===== src/ToolExecutor/Guards.antt =====
-- src/tool/tool_executor.cpp: what has to hold before a tool runs.
use runi.Prelude.{
  ◌≡◌, ◌⊎◌, inl, inr, refl, Bool-cases, Option-cases, arith, ℕ, suc, Bool, true, false, some, List,
  [], ◌∷◌, Bytes,
}
use runi.Error.{success, Result-cases}
use runi.Text.{clip}
use runi.Json.Value.{Fields}
use runi.ToolExecutor.{
  Tool, Host, HostCall, asked_approval, ran, captured_snapshot, updated_memory, recorded_note,
  Execution, finished, thrown, Outcome, ok, failed, out_of_range, outcome_of, find_tool, is_allowed,
  refused, tool_failed, tool_ended, tool_returned, run_tool, invalid_arguments, check_call, execute,
}

-- How often a log has run a tool.
unfoldable pub runs : {D : Type 0} → List (HostCall D) → ℕ
runs [] = 0
runs (ran name args ∷ log) = suc (runs log)
runs (asked_approval name args ∷ log) = runs log
runs (captured_snapshot ∷ log) = runs log
runs (updated_memory name args content ∷ log) = runs log
runs (recorded_note name metadata ∷ log) = runs log

unfoldable pub host_calls : {D : Type 0} → Execution D → List (HostCall D)
host_calls (finished result log) = log
host_calls (thrown log) = log

-- What a call needs for its tool to run.
pub record Permitted {D S : Type 0} (host : Host D S) (tools : List (Tool D))
    (stop_requested : Bool) (name : Bytes) (args : Fields D) : Type 0 where
  pub goes_on : stop_requested ≡ false
  pub may_use : is_allowed host.allowed_tools name ≡ true
  pub tool : Tool D
  pub found : find_tool name tools ≡ some tool
  pub valid : tool.validate args ≡ success tt
  pub new_call : host.repeated_tool_call name args ≡ false
  pub approved : tool.risky ≡ true → host.approve name args ≡ true

Outcome-cases : (o : Outcome) → (o ≡ ok) ⊎ ((o ≡ failed) ⊎ (o ≡ out_of_range))
Outcome-cases ok = inl refl
Outcome-cases failed = inr (inl refl)
Outcome-cases out_of_range = inr (inr refl)

module _ {D S : Type 0} (tool_example : Bytes → Bytes) (host : Host D S) where
  tool_returned-runs :
      (tool : Tool D) (name : Bytes) (args : Fields D) (content : Bytes) (log : List (HostCall D))
      → runs (host_calls (tool_returned tool_example host tool name args content log)) ≡ runs log
  unfolding tool_returned tool_ended runs host_calls
  tool_returned-runs tool name args content log = elim (Outcome-cases (outcome_of name content)) [
    | inl e ↦ rw (e, tool_returned) refl
    | inr (inl e) ↦ rw (e, tool_returned) refl
    | inr (inr e) ↦ rw (e, tool_returned) refl
  ]

  run_tool-runs :
      (tool : Tool D) (name : Bytes) (args : Fields D) (log : List (HostCall D))
      → runs (host_calls (run_tool tool_example host tool name args log)) ≡ suc (runs log)
  unfolding run_tool tool_failed runs host_calls
  run_tool-runs tool name args log = elim (Result-cases (tool.run args)) [
    | inr (e, f) ↦ elim (Bool-cases tool.risky) [
      | inl r ↦ rw (f, r, run_tool) refl
      | inr r ↦ rw (f, r, run_tool) refl
    ]
    | inl (text, f) ↦ elim (Bool-cases tool.risky) [
      | inl r ↦
          simp (f, r, run_tool)
            (tool_returned-runs tool name args (clip text 4000)
              (captured_snapshot ∷ ran name args ∷ captured_snapshot ∷ log))
      | inr r ↦
          simp (f, r, run_tool)
            (tool_returned-runs tool name args (clip text 4000) (ran name args ∷ log))
    ]
  ]

  check_call-Checked :
      (tool : Tool D) (name : Bytes) (args : Fields D)
      → (runs (host_calls (check_call tool_example host tool name args)) ≡ 0)
        ⊎ ((runs (host_calls (check_call tool_example host tool name args)) ≡ 1)
            × (tool.validate args ≡ success tt)
            × (host.repeated_tool_call name args ≡ false)
            × (tool.risky ≡ true → host.approve name args ≡ true))
  unfolding check_call refused invalid_arguments runs host_calls
  check_call-Checked tool name args = elim (Result-cases (tool.validate args)) [
    | inr (error, v) ↦ inl (rw (v, check_call) refl)
    | inl (done, v) ↦ elim (Bool-cases (host.repeated_tool_call name args)) [
      | inl r ↦ inl (rw (v, check_call) (rw r refl))
      | inr r ↦ elim (Bool-cases tool.risky) [
        | inr k ↦
            inr (
              simp (v, r, k, check_call) (run_tool-runs tool name args []),
              v,
              r,
              λ h. ground arith,
            )
        | inl k ↦ elim (Bool-cases (host.approve name args)) [
          | inr p ↦ inl (simp (v, r, k, p, check_call) refl)
          | inl p ↦ inr (
            simp (v, r, k, p, check_call)
                (run_tool-runs tool name args (asked_approval name args ∷ [])),
            v,
            r,
            λ h. p,
          )
        ]
      ]
    ]
  ]

  Checked-check_call :
      (tool : Tool D) (name : Bytes) (args : Fields D)
      → tool.validate args ≡ success tt
      → host.repeated_tool_call name args ≡ false
      → (tool.risky ≡ true → host.approve name args ≡ true)
      → runs (host_calls (check_call tool_example host tool name args)) ≡ 1
  unfolding check_call runs host_calls
  Checked-check_call tool name args v r approved = elim (Bool-cases tool.risky) [
    | inr k ↦ simp (v, r, k, check_call) (run_tool-runs tool name args [])
    | inl k ↦
        simp (v, r, k, approved k, check_call)
          (run_tool-runs tool name args (asked_approval name args ∷ []))
  ]

  -- A call of `execute` runs its tool at most once, and only when no stop is requested, the run
  -- allows the name, the tool is registered, it accepts the arguments, the host does not call the
  -- call repeated, and, if the tool is risky, the call has been approved.
  pub execute-Permitted :
      (tools : List (Tool D)) (stop_requested : Bool) (name : Bytes) (args : Fields D)
      → (runs (host_calls (execute tool_example host tools stop_requested name args)) ≡ 0)
        ⊎ ((runs (host_calls (execute tool_example host tools stop_requested name args)) ≡ 1)
            × Permitted host tools stop_requested name args)
  unfolding execute refused runs host_calls
  execute-Permitted tools stop_requested name args = elim (Bool-cases stop_requested) [
    | inl e ↦ inl (simp e refl)
    | inr e ↦ elim (Bool-cases (is_allowed host.allowed_tools name)) [
      | inr a ↦ inl (simp (e, a) refl)
      | inl a ↦ elim (Option-cases (find_tool name tools)) [
        | inl f ↦ inl (simp (e, a, f) refl)
        | inr (tool, f) ↦ elim (check_call-Checked tool name args) [
          | inl none_ran ↦ inl (simp (e, a, f) none_ran)
          | inr (one_ran, valid, new_call, approved) ↦ inr (
            simp (e, a, f) one_ran,
            record {
              goes_on = e;
              may_use = a;
              tool = tool;
              found = f;
              valid = valid;
              new_call = new_call;
              approved = approved;
            },
          )
        ]
      ]
    ]
  ]

  -- A call of `execute` that meets these conditions runs its tool, exactly once.
  pub Permitted-execute :
      (tools : List (Tool D)) (stop_requested : Bool) (name : Bytes) (args : Fields D)
      → Permitted host tools stop_requested name args
      → runs (host_calls (execute tool_example host tools stop_requested name args)) ≡ 1
  unfolding execute check_call runs host_calls
  Permitted-execute tools stop_requested name args p =
      simp (p.goes_on, p.may_use, p.found)
        (Checked-check_call p.tool name args p.valid p.new_call p.approved)
