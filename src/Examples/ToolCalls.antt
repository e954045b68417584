-- ===== src/Examples/ToolCalls.antt =====
-- Calls of tools: one that runs, one that is refused, and what a shell reports.
use runi.Prelude.{
  ◌≡◌, ◌⊎◌, refl, true, false, Bool, some, List, [], ◌∷◌, Bytes, bytes, is_empty, eq_bytes,
  starts_with, mem,
}
use runi.Error.{success}
use runi.Json.Value.{Fields, string, end, field}
use runi.ToolExecutor.{Tool, Host, is_allowed, find_tool, execute, failed, ok, outcome_of}
use runi.ToolExecutor.Guards.{runs, host_calls, Permitted, execute-Permitted, Permitted-execute}

abbrev writing : Tool Bytes
writing = record {
  name = bytes "write_file";
  risky = true;
  validate = λ args. success tt;
  run = λ args. success (bytes "written");
}

-- A snapshot is the list of the paths here.
abbrev host_with : Bool → Host Bytes (List Bytes)
host_with approves = record {
  allowed_tools = some (bytes "write_file" ∷ []);
  repeated_tool_call = λ name args. false;
  approve = λ name args. approves;
  read_only = false;
  no_snapshot = [];
  snapshot_before = [];
  snapshot_after = bytes "a.py" ∷ [];
  diff_workspace_snapshots = λ before after. (after, []);
  workspace_fingerprint = bytes "f";
}

abbrev path_args : Fields Bytes
path_args = field (bytes "path") (string (bytes "a.py")) end

-- No tool has an example here.
abbrev no_example : Bytes → Bytes
no_example name = []

shell_failed : outcome_of (bytes "run_shell") (bytes "exit_code: 2\nstdout:") ≡ failed
unfolding outcome_of bytes eq_bytes starts_with is_empty
shell_failed = refl

shell_ok : outcome_of (bytes "run_shell") (bytes "exit_code: 0\nexit_code: 1") ≡ ok
unfolding outcome_of bytes eq_bytes starts_with is_empty
shell_ok = refl

denied :
    runs (
      host_calls
        (execute no_example (host_with false) (writing ∷ []) false (bytes "write_file") path_args))
    ≡ 0
unfolding execute bytes eq_bytes mem is_empty runs host_calls
denied = refl

execute-Permitted_example :
    (runs (
        host_calls
          (execute no_example (host_with true) (writing ∷ []) false (bytes "write_file") path_args))
      ≡ 0)
    ⊎ ((runs (
            host_calls (
              execute no_example
                (host_with true)
                (writing ∷ [])
                false
                (bytes "write_file")
                path_args))
          ≡ 1)
        × Permitted (host_with true) (writing ∷ []) false (bytes "write_file") path_args)
execute-Permitted_example =
    execute-Permitted no_example (host_with true) (writing ∷ []) false (bytes "write_file")
      path_args

writing-Permitted : Permitted (host_with true) (writing ∷ []) false (bytes "write_file") path_args
unfolding is_allowed find_tool bytes eq_bytes mem
writing-Permitted = record {
  goes_on = refl;
  may_use = refl;
  tool = writing;
  found = refl;
  valid = refl;
  new_call = refl;
  approved = λ risky. refl;
}

Permitted-execute_example :
    runs (
      host_calls
        (execute no_example (host_with true) (writing ∷ []) false (bytes "write_file") path_args))
    ≡ 1
Permitted-execute_example =
    Permitted-execute no_example (host_with true) (writing ∷ []) false (bytes "write_file")
      path_args writing-Permitted
