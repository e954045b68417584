-- ===== src/Examples/Agents.antt =====
-- A registry with two workers, of which one is busy.
use runi.Prelude.{
  length, is_empty, ℕ, ◌+◌, ◌≡◌, ◌≤◌, refl, true, false, some, List, [], ◌∷◌, Bytes, bytes,
  eq_bytes, arith, mem, less, if◌then◌else◌, leb, Bool-cases, inl, inr,
}
use runi.Prelude.Maps.{find, insert, erase, contains}
use runi.Prelude.Maps.Order.{IsSorted}
use runi.Error.{success, failure}
use runi.Registry.{
  worker, reviewer, AgentDescriptor, AgentFunction, Entry, Registry, role_name, has_room, granted,
  refused, waits, cancelled_error, capacity_timeout, try_acquire, acquire, choose, better, execute,
  snapshot, add, remove, release,
}
use runi.Registry.Totals.{declared, snapshot_within}
use runi.Registry.Selection.{try_acquire_granted, try_acquire_full}
use runi.Registry.Invariant.{
  init, Call, adds, removes, acquires, releases, calls, IsValid, calls-IsValid, call, count,
}

abbrev answer : AgentFunction
answer task stop = success (bytes "done")

abbrev agent : Bytes → ℕ → AgentDescriptor
agent id limit = record {
  id = id;
  role = worker;
  capabilities = bytes "cpp" ∷ [];
  max_concurrency = limit;
  read_only = true;
  execute = some answer;
}

abbrev busy : Entry
busy = record { descriptor = agent (bytes "a") 2; active_tasks = 1 }

abbrev idle : Entry
idle = record { descriptor = agent (bytes "b") 1; active_tasks = 0 }

abbrev two : Registry
two = (bytes "a", busy) ∷ (bytes "b", idle) ∷ []

two-IsSorted : IsSorted two
unfolding bytes less
two-IsSorted = ((refl, tt), (tt, tt))

idle_there : find (bytes "b") two ≡ some idle
unfolding bytes find eq_bytes
idle_there = refl

idle-has_room : has_room worker (bytes "cpp" ∷ []) idle ≡ true
unfolding bytes has_room mem eq_bytes
idle-has_room = refl

try_acquire_granted_example :
    (id : Bytes) × (e : Entry) × (find id two ≡ some e)
    × (has_room worker (bytes "cpp" ∷ []) e ≡ true)
    × (try_acquire worker (bytes "cpp" ∷ []) false 0 9 two
        ≡ granted
            (record { agent_id = id; function = e.descriptor.execute })
            (insert id (record e { active_tasks = e.active_tasks + 1 }) two))
    × ((k : Bytes) (g : Entry)
        → find k two ≡ some g
        → has_room worker (bytes "cpp" ∷ []) g ≡ true
        → e.active_tasks ≤ g.active_tasks)
try_acquire_granted_example =
    try_acquire_granted worker (bytes "cpp" ∷ []) false 0 9 two (bytes "b") idle two-IsSorted
      idle_there idle-has_room

abbrev full : Entry
full = record { descriptor = agent (bytes "b") 1; active_tasks = 1 }

abbrev one : Registry
one = (bytes "b", full) ∷ []

one_full : (k : Bytes) (g : Entry) → find k one ≡ some g → has_room worker [] g ≡ false
unfolding find has_room
one_full k g h = elim (Bool-cases (eq_bytes (bytes "b") k)) [
  | inl e ↦ ground arith
  | inr e ↦ ground arith
]

try_acquire_full_example : try_acquire worker [] false 9 9 one ≡ (
    if false then refused cancelled_error else if leb 9 9 then refused capacity_timeout else waits)
try_acquire_full_example = try_acquire_full worker [] false 9 9 one (tt, tt) one_full

-- An agent is added, leased, cannot be removed, and is released.
abbrev some_calls : List Call
some_calls =
    adds (agent (bytes "a") 1)
    ∷ acquires worker [] false 0 9
    ∷ removes (bytes "a")
    ∷ acquires worker [] false 1 9
    ∷ releases (bytes "a")
    ∷ []

calls-IsValid_example : IsValid (calls init some_calls)
calls-IsValid_example = calls-IsValid some_calls

some_calls-declared : declared (calls init some_calls).entries ≡ 1
unfolding declared calls call add remove try_acquire choose better has_room release bytes mem find
    insert erase eq_bytes count is_empty contains
some_calls-declared = refl

snapshot_within_example :
    ((snapshot (calls init some_calls).entries).active ≡ length (calls init some_calls).leases)
    × ((snapshot (calls init some_calls).entries).capacity
        ≡ declared (calls init some_calls).entries)
    × ((snapshot (calls init some_calls).entries).active
        ≤ (snapshot (calls init some_calls).entries).capacity)
snapshot_within_example = snapshot_within some_calls (rw some_calls-declared (omega arith))

-- A wait for room, until the lease of another thread is released.
waited :
    acquire worker [] 9
      (record { entries = one; stop = false; now = 0 })
      (record { entries = one; stop = false; now = 3 }
        ∷ record { entries = (bytes "b", idle) ∷ []; stop = false; now = 4 }
        ∷ [])
    ≡ granted (record { agent_id = bytes "b"; function = some answer }) one
unfolding acquire choose better has_room bytes mem insert eq_bytes
waited = refl

abandoned :
    execute
      (record { agent_id = bytes "b"; function = some answer })
      (record {
        id = bytes "t";
        role = reviewer;
        required_capabilities = [];
        input = [];
        deadline = 9;
      })
      true
    ≡ failure cancelled_error
unfolding execute
abandoned = refl

named : role_name reviewer ≡ bytes "reviewer"
unfolding role_name
named = refl
