-- ===== src/Examples/Loops.antt =====
-- A run of the agent loop: a call of a tool, then a final answer; and a run that finds no end.
use runi.Prelude.{
  ℕ, zero, suc, ◌≤◌, ◌≡◌, refl, false, none, some, Option, List, [], Bytes, bytes, is_empty,
  starts_with, has_substring, eq_bytes, less,
}
use runi.Error.{Result, success}
use runi.AgentLoop.{Effect, Turn, Session, run_agent, max_attempts}
use runi.AgentLoop.Counts.{executions, requests}
use runi.AgentLoop.Limits.{run_agent_returns}
use runi.AgentLoop.Reports.{EndsWith, run_agent-EndsWith}
use runi.Examples.Documents.{no_real}

abbrev turn_of : Bytes → Turn
turn_of text = record {
  stop_at_head = false;
  written = success tt;
  prompt = success (record { resume_status = []; has_reductions = false });
  completion = success text;
  stop_after_completion = false;
  tool_content = bytes "# Runi";
  stop_after_tool = false;
  saved = success tt;
  report = success tt;
}

abbrev turns : ℕ → Turn
turns zero = turn_of (bytes "<tool>{\"name\":\"read_file\",\"args\":{}}</tool>")
turns (suc n) = turn_of (bytes "<final>Done.</final>")

abbrev session_with : (ℕ → Turn) → Session
session_with attempts = record {
  stop_at_start = false;
  user_saved = success tt;
  task_id = bytes "task_1";
  run_id = bytes "run_1";
  resume_status = [];
  run_started = success tt;
  turns = attempts;
  checkpoint_ids = λ n. bytes "ckpt";
  last_saved = success tt;
  last_report = success tt;
}

abbrev log_of : Option (Result Bytes × List (Effect Bytes)) → List (Effect Bytes)
log_of none = []
log_of (some (result, log)) = log

abbrev two_turns : Option (Result Bytes × List (Effect Bytes))
two_turns = run_agent no_real 6 (session_with turns) (bytes "read it")

finds_answer : two_turns ≡ some (success (bytes "Done."), log_of two_turns)
unfolding run_agent bytes is_empty starts_with has_substring eq_bytes less
finds_answer = refl

counts : (executions (log_of two_turns) ≡ 1) × (requests (log_of two_turns) ≡ 2)
unfolding run_agent bytes is_empty starts_with has_substring eq_bytes less executions requests
counts = (refl, refl)

run_agent-EndsWith_example : EndsWith (bytes "Done.") (log_of two_turns)
run_agent-EndsWith_example =
    run_agent-EndsWith no_real 6 (session_with turns) (bytes "read it") (bytes "Done.")
      (log_of two_turns) finds_answer

run_agent_returns_example :
    (result : Result Bytes) × (log : List (Effect Bytes)) × (run_agent no_real 2
        (session_with λ n. turn_of [])
        (bytes "read it")
      ≡ some (result, log))
    × (executions log ≤ 2)
    × (requests log ≤ max_attempts 2)
run_agent_returns_example =
    run_agent_returns no_real 2 (session_with λ n. turn_of []) (bytes "read it")
