-- ===== src/ToolExecutor.antt =====
-- src/tool/tool_executor.cpp: `ToolExecutor::execute`. What the tools and the host answer are the fields
-- of `Tool` and `Host`, and what is asked of them is written in a log. The proofs are in the module below.
pub mod Guards
use runi.Prelude.{
  ℕ, zero, suc, ◌+◌, ◌*◌, ◌≤◌, ◌^◌, Bool, true, false, ◌||◌, ◌&&◌, not, Option, none, some, List,
  [], ◌∷◌, ◌++◌, Bytes, bytes, ltb, leb, ◌==◌, if◌then◌else◌, is_empty, eq_bytes, mem, drop,
  starts_with, has_substring,
}
use runi.Error.{Error, Result, success, failure}
use runi.Text.{clip}
use runi.Json.Value.{JsonValue, Items, Fields, bool, string, array, object, nil, cons, end, field}
use runi.Json.Reader.{is_digit, decimal}
use runi.ActionParser.{run_of, is_white}

-- A registered tool; `run` is what it returns.
pub record Tool (D : Type 0) : Type 0 where
  pub name : Bytes
  pub risky : Bool
  pub validate : Fields D → Result (Unit {0})
  pub run : Fields D → Result Bytes

-- What the host answers. A snapshot of the workspace is a value of `S`; `diff_workspace_snapshots` compares two.
pub record Host (D S : Type 0) : Type 0 where
  pub allowed_tools : Option (List Bytes)
  pub repeated_tool_call : Bytes → Fields D → Bool
  pub approve : Bytes → Fields D → Bool
  pub read_only : Bool
  pub no_snapshot : S
  pub snapshot_before : S
  pub snapshot_after : S
  pub diff_workspace_snapshots : S → S → List Bytes × List Bytes
  pub workspace_fingerprint : Bytes

-- What a call of `execute` does, the latest first.
pub data HostCall (D : Type 0) : Type 0 where
  asked_approval ran : Bytes → Fields D → HostCall D
  captured_snapshot : HostCall D
  updated_memory : Bytes → Fields D → Bytes → HostCall D
  recorded_note : Bytes → JsonValue D → HostCall D

pub record ToolExecutionResult (D : Type 0) : Type 0 where
  pub content : Bytes
  pub metadata : JsonValue D

-- `thrown` is the exception of `std::stoi`.
pub data Execution (D : Type 0) : Type 0 where
  finished : ToolExecutionResult D → List (HostCall D) → Execution D
  thrown : List (HostCall D) → Execution D

unfoldable pub path_security_event : Bytes → Bytes
unfolding has_substring
path_security_event message =
    if has_substring (bytes "path escapes workspace") message then bytes "path_escape" else []

-- `-?\d+` at the front of a text: whether the number is zero, and whether an `int` holds it.
unfoldable pub match_code : Bytes → Option (Bool × Bool)
unfolding run_of is_digit decimal
match_code [] = none
match_code (c ∷ cs) =
    let signed = c == b'-' in
    let digits = (run_of is_digit (if signed then cs else c ∷ cs)).0 in
    if is_empty digits
    then none
    else some
        (decimal 0 digits == 0, leb (decimal 0 digits) (if signed then 2 ^ 31 else 2147483647))

-- The first match of `exit_code:\s*(-?\d+)`.
unfoldable pub search_exit_code : Bytes → Option (Bool × Bool)
unfolding run_of is_white match_code starts_with
search_exit_code [] = none
search_exit_code (c ∷ cs) =
    let rest = search_exit_code cs in
    if starts_with (c ∷ cs) (bytes "exit_code:")
    then (elim (match_code (run_of is_white (drop 10 (c ∷ cs))).1) [
      | none ↦ rest
      | some code ↦ some code
    ])
    else rest

-- How a tool that ran has ended.
pub data Outcome : Type 0 where
  ok failed out_of_range : Outcome

unfoldable pub outcome_of : Bytes → Bytes → Outcome
unfolding search_exit_code eq_bytes
outcome_of name content =
    if eq_bytes name (bytes "run_shell")
    then (elim (search_exit_code content) [
      | none ↦ ok
      | some (is_zero, in_range) ↦
          if in_range then (if is_zero then ok else failed) else out_of_range
    ])
    else ok

module _ {D : Type 0} where
  unfoldable pub strings : List Bytes → Items D
  strings [] = nil
  strings (value ∷ values) = cons (string value) (strings values)

  unfoldable pub metadata :
      Bytes → Bytes → Bytes → Bytes → Bool → List Bytes → Bool → Bytes → List Bytes → JsonValue D
  unfolding strings
  metadata status code event risk is_read_only paths is_changed fingerprint summary = object (
      field (bytes "affected_paths") (array (strings paths)) (
        field (bytes "diff_summary") (array (strings summary)) (
          field (bytes "read_only") (bool is_read_only) (
            field (bytes "risk_level") (string risk) (
              field (bytes "security_event_type") (string event) (
                field (bytes "tool_error_code") (string code) (
                  field (bytes "tool_status") (string status) (
                    field (bytes "workspace_changed") (bool is_changed) (
                      if is_empty fingerprint
                      then end
                      else field (bytes "workspace_fingerprint") (string fingerprint) end)))))))))

  -- A call that is refused before the tool runs.
  unfoldable pub refused :
      Bytes → Bytes → Bytes → Bytes → Bytes → Bool → List (HostCall D) → Execution D
  unfolding metadata
  refused message status code event risk is_read_only log =
      finished
        (record {
          content = message;
          metadata = metadata status code event risk is_read_only [] false [] [];
        })
        log

  unfoldable pub risk_level : Tool D → Bytes
  risk_level tool = if tool.risky then bytes "high" else bytes "low"

  unfoldable pub find_tool : Bytes → List (Tool D) → Option (Tool D)
  unfolding eq_bytes
  find_tool name [] = none
  find_tool name (tool ∷ tools) =
      let rest = find_tool name tools in if eq_bytes tool.name name then some tool else rest

unfoldable pub is_allowed : Option (List Bytes) → Bytes → Bool
unfolding mem
is_allowed none name = true
is_allowed (some names) name = mem name names

is_nil : List Bytes → Bool
is_nil [] = true
is_nil (x ∷ xs) = false

-- The status and the error code of a tool that did not end well.
unfoldable pub failure_status : Bool → Bytes × Bytes
failure_status is_changed =
    if is_changed
    then (bytes "partial_success", bytes "tool_partial_success")
    else (bytes "error", bytes "tool_failed")

-- `tool_example` is the function of that name.
module _ {D S : Type 0} (tool_example : Bytes → Bytes) (host : Host D S) where
  -- The paths that differ and the summary, for a tool that may change the workspace.
  unfoldable pub changes_of : Tool D → List Bytes × List Bytes
  changes_of tool =
      if tool.risky
      then host.diff_workspace_snapshots host.snapshot_before host.snapshot_after
      else host.diff_workspace_snapshots host.no_snapshot host.no_snapshot

  unfoldable pub tool_metadata : Tool D → Bytes × Bytes → Bytes → JsonValue D
  unfolding metadata risk_level changes_of is_nil
  tool_metadata tool status event =
      metadata status.0 status.1 event (risk_level tool) (not tool.risky) (changes_of tool).0
        (not (is_nil (changes_of tool).0)) host.workspace_fingerprint (changes_of tool).1

  -- The end of a tool that failed.
  unfoldable pub tool_failed : Tool D → Bytes → Error → List (HostCall D) → Execution D
  unfolding tool_metadata failure_status path_security_event changes_of is_nil
  tool_failed tool name error log =
      let result_metadata =
        tool_metadata tool (failure_status (not (is_nil (changes_of tool).0)))
          (path_security_event error.message) in
      finished
        (record {
          content = bytes "error: tool " ++ (name ++ (bytes " failed: " ++ error.message));
          metadata = result_metadata;
        })
        (recorded_note name result_metadata ∷ log)

  -- The end of a tool that returned a text.
  unfoldable pub tool_ended :
      Tool D → Bytes → Fields D → Bytes → Bytes × Bytes → List (HostCall D) → Execution D
  unfolding tool_metadata
  tool_ended tool name args content status log =
      let result_metadata = tool_metadata tool status [] in
      finished (record { content = content; metadata = result_metadata })
        (recorded_note name result_metadata ∷ updated_memory name args content ∷ log)

  unfoldable pub tool_returned : Tool D → Bytes → Fields D → Bytes → List (HostCall D) → Execution D
  unfolding outcome_of tool_ended failure_status changes_of is_nil
  tool_returned tool name args content log = elim (outcome_of name content) [
    | ok ↦ tool_ended tool name args content (bytes "ok", []) log
    | failed ↦
        tool_ended tool name args content (failure_status (not (is_nil (changes_of tool).0))) log
    | out_of_range ↦ thrown log
  ]

  -- From the snapshot before the tool on.
  unfoldable pub run_tool : Tool D → Bytes → Fields D → List (HostCall D) → Execution D
  unfolding tool_failed tool_returned clip
  run_tool tool name args log =
      let ran_log =
        if tool.risky
        then captured_snapshot ∷ ran name args ∷ captured_snapshot ∷ log
        else ran name args ∷ log in
      elim (tool.run args) [
        | failure e ↦ tool_failed tool name e ran_log
        | success text ↦ tool_returned tool name args (clip text 4000) ran_log
      ]

  unfoldable pub invalid_arguments : Tool D → Bytes → Error → Execution D
  unfolding refused path_security_event risk_level
  invalid_arguments tool name error =
      let message =
        bytes "error: invalid arguments for " ++ (name ++ (bytes ": " ++ error.message)) in
      refused
        (if is_empty (tool_example name)
          then message
          else message ++ (bytes "\nexample: " ++ tool_example name))
        (bytes "rejected") (bytes "invalid_arguments") (path_security_event error.message)
        (risk_level tool) (not tool.risky) []

  -- The checks on a call of a tool that is there.
  unfoldable pub check_call : Tool D → Bytes → Fields D → Execution D
  unfolding invalid_arguments refused risk_level run_tool
  check_call tool name args = elim (tool.validate args) [
    | failure e ↦ invalid_arguments tool name e
    | success done ↦
        if host.repeated_tool_call name args
        then refused
            (bytes "error: repeated identical tool call for "
              ++ (name ++ bytes "; choose a different tool or return a final answer"))
            (bytes "rejected") (bytes "repeated_identical_call") [] (risk_level tool)
            (not tool.risky) []
        else if tool.risky && not (host.approve name args)
        then refused (bytes "error: approval denied for " ++ name) (bytes "rejected")
            (bytes "approval_denied")
            (if host.read_only then bytes "read_only_block" else bytes "approval_denied")
            (bytes "high") false (asked_approval name args ∷ [])
        else run_tool tool name args (if tool.risky then asked_approval name args ∷ [] else [])
  ]

  -- `execute`; `stop_requested` is what the stop token says.
  unfoldable pub execute : List (Tool D) → Bool → Bytes → Fields D → Execution D
  unfolding refused is_allowed find_tool check_call
  execute tools stop_requested name args =
      if stop_requested
      then refused (bytes "error: tool execution cancelled") (bytes "cancelled")
          (bytes "run_cancelled") [] (bytes "low") true []
      else if not (is_allowed host.allowed_tools name)
      then refused (bytes "error: tool '" ++ (name ++ bytes "' is not allowed in this run"))
          (bytes "rejected") (bytes "tool_not_allowed") [] (bytes "high") false []
      else (elim (find_tool name tools) [
        | none ↦
            refused (bytes "error: unknown tool '" ++ (name ++ bytes "'")) (bytes "rejected")
              (bytes "unknown_tool") [] (bytes "high") false []
        | some tool ↦ check_call tool name args
      ])
