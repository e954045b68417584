-- ===== src/Store/Status.antt =====
-- src/state/state_store.cpp, the states of a run, their names and the transitions between them.
use runi.Prelude.{
  ◌≡◌, refl, sym, ap, ◌∙◌, Bool, true, false, Option, none, some, Bytes, bytes, eq_bytes,
  if◌then◌else◌,
}

pub data RunStatus : Type 0 where
  queued running succeeded failed cancelling cancelled interrupted : RunStatus

-- `to_string`.
unfoldable pub status_name : RunStatus → Bytes
status_name queued = bytes "queued"
status_name running = bytes "running"
status_name succeeded = bytes "succeeded"
status_name failed = bytes "failed"
status_name cancelling = bytes "cancelling"
status_name cancelled = bytes "cancelled"
status_name interrupted = bytes "interrupted"

unfoldable pub run_status_from_string : Bytes → Option RunStatus
run_status_from_string value =
    if eq_bytes value (bytes "queued")
    then some queued
    else if eq_bytes value (bytes "running")
    then some running
    else if eq_bytes value (bytes "succeeded")
    then some succeeded
    else if eq_bytes value (bytes "failed")
    then some failed
    else if eq_bytes value (bytes "cancelling")
    then some cancelling
    else if eq_bytes value (bytes "cancelled")
    then some cancelled
    else if eq_bytes value (bytes "interrupted")
    then some interrupted
    else none

-- The rows of `valid_transition`: the states that a `switch` case compares `desired` with.
unfoldable pub valid_transition : RunStatus → RunStatus → Bool
valid_transition queued running = true
valid_transition queued cancelled = true
valid_transition queued failed = true
valid_transition running succeeded = true
valid_transition running failed = true
valid_transition running cancelling = true
valid_transition running cancelled = true
valid_transition running interrupted = true
valid_transition cancelling cancelled = true
valid_transition cancelling failed = true
valid_transition cancelling interrupted = true
valid_transition interrupted queued = true
valid_transition interrupted cancelled = true
valid_transition _ _ = false

-- `run_status_from_string` reads the name that `to_string` gives to a state as that state.
pub status_name-read : (s : RunStatus) → run_status_from_string (status_name s) ≡ some s
unfolding run_status_from_string status_name eq_bytes bytes
status_name-read queued = refl
status_name-read running = refl
status_name-read succeeded = refl
status_name-read failed = refl
status_name-read cancelling = refl
status_name-read cancelled = refl
status_name-read interrupted = refl

pub status_name-injective : (s t : RunStatus) → status_name s ≡ status_name t → s ≡ t
status_name-injective s t e =
    some_payload (sym (status_name-read s) ∙ (ap run_status_from_string e ∙ status_name-read t))
  where
    read_or : Option RunStatus → RunStatus
    read_or (some x) = x
    read_or none = s

    some_payload : some s ≡ some t → s ≡ t
    some_payload p = ap read_or p

-- A run that has succeeded, failed or been cancelled.
abbrev pub IsTerminal : RunStatus → Type 0
IsTerminal succeeded = Unit {0}
IsTerminal failed = Unit {0}
IsTerminal cancelled = Unit {0}
IsTerminal _ = ⊥

pub terminal_stays : (s t : RunStatus) → IsTerminal s → valid_transition s t ≡ false
unfolding valid_transition
terminal_stays succeeded queued h = refl
terminal_stays succeeded _ h = refl
terminal_stays failed queued h = refl
terminal_stays failed _ h = refl
terminal_stays cancelled queued h = refl
terminal_stays cancelled _ h = refl
terminal_stays queued t h = absurd h
terminal_stays running t h = absurd h
terminal_stays cancelling t h = absurd h
terminal_stays interrupted t h = absurd h
