-- ===== src/Registry.antt =====
-- include/runi/orchestration/multi_agent.hpp and src/orchestration/multi_agent.cpp, the agent
-- registry and its leases. Each function is one critical section under `SharedState::mutex`; a stop
-- token is a Boolean and a time point a number. The capabilities are `std::set`s, of which only
-- membership is used.
pub mod Invariant
pub mod Totals
pub mod Selection
use runi.Prelude.{
  ℕ, suc, ◌+◌, ◌-◌, ◌%◌, ◌^◌, Bool, true, false, ◌||◌, ◌&&◌, not, Option, none, some, List, [], ◌∷◌,
  ◌++◌, Bytes, bytes, leb, ltb, ◌==◌, if◌then◌else◌, length, is_empty, mem,
}
use runi.Prelude.Maps.{Map, find, insert, erase, contains}
use runi.Error.{Error, Result, success, failure, make_error, internal, validation, timeout}

pub data AgentRole : Type 0 where
  coordinator worker reviewer : AgentRole

unfoldable pub role_name : AgentRole → Bytes
role_name coordinator = bytes "coordinator"
role_name worker = bytes "worker"
role_name reviewer = bytes "reviewer"

same_role : AgentRole → AgentRole → Bool
same_role coordinator coordinator = true
same_role worker worker = true
same_role reviewer reviewer = true
same_role _ _ = false

-- The input and the context snapshot of a task are passed to the agent only.
pub record AgentTask : Type 0 where
  pub id : Bytes
  pub role : AgentRole
  pub required_capabilities : List Bytes
  pub input : Bytes
  pub deadline : ℕ

-- The second argument is `stop_requested` of the stop token.
abbrev pub AgentFunction : Type 0
AgentFunction = AgentTask → Bool → Result Bytes

pub record AgentDescriptor : Type 0 where
  pub id : Bytes
  pub role : AgentRole
  pub capabilities : List Bytes
  pub max_concurrency : ℕ
  pub read_only : Bool
  -- `none` for an empty `std::function`.
  pub execute : Option AgentFunction

pub record Entry : Type 0 where
  pub descriptor : AgentDescriptor
  pub active_tasks : ℕ

abbrev pub Registry : Type 0
Registry = Map Entry

pub contains_all : List Bytes → List Bytes → Bool
unfolding mem
contains_all available [] = true
contains_all available (c ∷ required) = mem c available && contains_all available required

abbrev pub cancelled_error : Error
cancelled_error = make_error timeout (bytes "agent_cancelled") (bytes "Agent task was cancelled")

is_some {ℓ} : {A : Type ℓ} → Option A → Bool
is_some none = false
is_some (some a) = true

-- `AgentRegistry::add`.
unfoldable pub add : AgentDescriptor → Registry → Registry × Result (Unit {0})
unfolding is_some
add descriptor entries =
    if is_empty descriptor.id
    then (
      entries,
      failure
          (make_error validation (bytes "invalid_agent_id") (bytes "Agent id must not be empty")),
    )
    else if descriptor.max_concurrency == 0
    then (
      entries,
      failure (
          make_error validation (bytes "invalid_agent_capacity")
            (bytes "Agent max_concurrency must be positive")),
    )
    else if not (is_some descriptor.execute)
    then (
      entries,
      failure (
          make_error validation (bytes "invalid_agent_executor")
            (bytes "Agent executor must be registered")),
    )
    else if contains descriptor.id entries
    then (
      entries,
      failure (
          make_error validation (bytes "duplicate_agent") (bytes "Agent id is already registered")),
    )
    else (
      insert descriptor.id (record { descriptor = descriptor; active_tasks = 0 }) entries,
      success tt,
    )

-- `AgentRegistry::remove`.
unfoldable pub remove : Bytes → Registry → Registry × Result (Unit {0})
remove id entries = elim (find id entries) [
  | none ↦ (
    entries,
    failure (make_error validation (bytes "agent_not_found") (bytes "Agent is not registered")),
  )
  | some entry ↦
      if not (entry.active_tasks == 0)
      then (
        entries,
        failure
            (make_error validation (bytes "agent_busy") (bytes "Agent still has active leases")),
      )
      else (erase id entries, success tt)
]

-- The lambda `matches` of `acquire`.
unfoldable pub matches : AgentRole → List Bytes → Entry → Bool
unfolding same_role contains_all
matches role required entry =
    same_role entry.descriptor.role role && contains_all entry.descriptor.capabilities required

any_matching : AgentRole → List Bytes → Registry → Bool
unfolding matches
any_matching role required [] = false
any_matching role required ((_, entry) ∷ entries) =
    matches role required entry || any_matching role required entries

-- May be granted now.
unfoldable pub has_room : AgentRole → List Bytes → Entry → Bool
unfolding matches
has_room role required entry =
    matches role required entry && ltb entry.active_tasks entry.descriptor.max_concurrency

-- `selected == end() || entry.active_tasks < selected->active_tasks`.
unfoldable pub better : Entry → Option (Bytes × Entry) → Bool
better entry none = true
better entry (some (_, best)) = ltb entry.active_tasks best.active_tasks

-- The body of the `for` loop of `acquire`, with the entry that is selected so far.
unfoldable pub choose :
    AgentRole → List Bytes → Bytes → Entry → Option (Bytes × Entry) → Option (Bytes × Entry)
choose role required id entry selected =
    if has_room role required entry && better entry selected then some (id, entry) else selected

pub select : AgentRole → List Bytes → Option (Bytes × Entry) → Registry → Option (Bytes × Entry)
select role required selected [] = selected
select role required selected ((id, entry) ∷ entries) =
    select role required (choose role required id entry selected) entries

pub record Lease : Type 0 where
  pub agent_id : Bytes
  pub function : Option AgentFunction

-- What one pass of the `while` loop comes to.
pub data Attempt : Type 0 where
  granted : Lease → Registry → Attempt
  refused : Error → Attempt
  waits : Attempt

abbrev pub capacity_timeout : Error
capacity_timeout = record {
  category = timeout;
  code = bytes "agent_capacity_timeout";
  message = bytes "Timed out waiting for an available agent capacity";
  retryable = true;
}

grant : Option (Bytes × Entry) → Bool → ℕ → ℕ → Registry → Attempt
grant (some (id, entry)) stop now deadline entries =
    granted (record { agent_id = id; function = entry.descriptor.execute })
      (insert id (record entry { active_tasks = entry.active_tasks + 1 }) entries)
grant none stop now deadline entries =
    if stop
    then refused cancelled_error
    else if leb deadline now
    then refused capacity_timeout
    else waits

unfoldable pub try_acquire : AgentRole → List Bytes → Bool → ℕ → ℕ → Registry → Attempt
unfolding select grant
try_acquire role required stop now deadline entries =
    grant (select role required none entries) stop now deadline entries

-- A wake-up of the thread that waits: the registry as other threads left it, the stop token and
-- the clock.
pub record Wakeup : Type 0 where
  pub entries : Registry
  pub stop : Bool
  pub now : ℕ

-- The `while` loop over the wake-ups; `waits` if it still waits after the last.
acquire_loop : AgentRole → List Bytes → ℕ → Attempt → List Wakeup → Attempt
unfolding try_acquire
acquire_loop role required deadline waits (w ∷ ws) =
    acquire_loop role required deadline (try_acquire role required w.stop w.now deadline w.entries)
      ws
acquire_loop role required deadline attempt ws = attempt

-- `AgentRegistry::acquire`; the first wake-up is the state at the call.
unfoldable pub acquire : AgentRole → List Bytes → ℕ → Wakeup → List Wakeup → Attempt
unfolding any_matching acquire_loop
acquire role required deadline first later =
    if not (any_matching role required first.entries)
    then refused (
        make_error validation (bytes "agent_not_found")
          (bytes "No registered agent satisfies the requested role and capabilities"))
    else acquire_loop role required deadline
        (try_acquire role required first.stop first.now deadline first.entries) later

-- `AgentLease::release` of a lease that still holds its state, as the destructor calls it.
unfoldable pub release : Bytes → Registry → Registry
release id entries = elim (find id entries) [
  | none ↦ entries
  | some entry ↦
      if not (entry.active_tasks == 0)
      then insert id (record entry { active_tasks = entry.active_tasks - 1 }) entries
      else entries
]

-- `AgentLease::execute` of a lease that still holds its state.
unfoldable pub execute : Lease → AgentTask → Bool → Result Bytes
execute lease task stop = elim lease.function [
  | none ↦
      failure (
        make_error internal (bytes "invalid_agent_lease") (bytes "Agent lease is no longer active"))
  | some function ↦ if stop then failure cancelled_error else function task stop
]

pub record RegistrySnapshot : Type 0 where
  pub registered : ℕ
  pub active : ℕ
  pub capacity : ℕ

-- `AgentRegistry::snapshot`; the sums are of type `std::size_t`, and wrap.
unfoldable pub snapshot : Registry → RegistrySnapshot
snapshot [] = record { registered = 0; active = 0; capacity = 0 }
snapshot ((_, entry) ∷ entries) =
    let rest = snapshot entries in
    record {
      registered = rest.registered + 1;
      active = (entry.active_tasks + rest.active) % 2 ^ 64;
      capacity = (entry.descriptor.max_concurrency + rest.capacity) % 2 ^ 64;
    }
