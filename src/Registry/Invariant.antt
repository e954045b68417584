-- ===== src/Registry/Invariant.antt =====
-- src/orchestration/multi_agent.cpp: the registry together with the leases that are out, and the
-- calls of its clients as a list.
use runi.Prelude.{
  ℕ, ◌+◌, ◌-◌, ◌≤◌, ◌<◌, ◌≡◌, refl, subst, inl, inr, Bool, true, false, ◌&&◌, Option, none, some,
  List, [], ◌∷◌, Bytes, eq_bytes, eq_bytes_iff, ltb, leb, if◌then◌else◌, arith, Bool-cases,
  Option-cases,
}
use runi.Prelude.Maps.{find, insert, find-insert, find-erase, contains}
use runi.Prelude.Maps.Order.{IsSorted, insert-IsSorted, erase-IsSorted}
use runi.Registry.{
  AgentRole, AgentDescriptor, Entry, Registry, has_room, matches, cancelled_error, capacity_timeout,
  select, grant, try_acquire, granted, refused, waits, Attempt, add, remove, release,
}
use runi.Registry.Selection.{select-Fits}

-- The registry, and the agent id of each lease that is out.
pub record System : Type 0 where
  pub entries : Registry
  pub leases : List Bytes

-- How many leases of an agent are out.
unfoldable pub count : Bytes → List Bytes → ℕ
count id [] = 0
count id (x ∷ xs) = (if eq_bytes x id then 1 else 0) + count id xs

pub take_one : Bytes → List Bytes → List Bytes
take_one id [] = []
take_one id (x ∷ xs) = if eq_bytes x id then xs else x ∷ take_one id xs

-- The calls of the registry. A lease is released once, by its holder.
pub data Call : Type 0 where
  adds : AgentDescriptor → Call
  removes : Bytes → Call
  acquires : AgentRole → List Bytes → Bool → ℕ → ℕ → Call
  releases : Bytes → Call

attempted : System → Attempt → System
attempted s (granted lease entries) = record {
  entries = entries;
  leases = lease.agent_id ∷ s.leases;
}
attempted s (refused e) = s
attempted s waits = s

unfoldable pub call : System → Call → System
unfolding attempted
call s (adds descriptor) = record s { entries = (add descriptor s.entries).0 }
call s (removes id) = record s { entries = (remove id s.entries).0 }
call s (acquires role required stop now deadline) =
    attempted s (try_acquire role required stop now deadline s.entries)
call s (releases id) =
    if leb 1 (count id s.leases)
    then record { entries = release id s.entries; leases = take_one id s.leases }
    else s

unfoldable pub calls : System → List Call → System
calls s [] = s
calls s (c ∷ cs) = calls (call s c) cs

-- What the registry says of an agent agrees with the `n` leases that are out.
abbrev pub Agrees : Option Entry → ℕ → Type 0
Agrees none n = n ≡ 0
Agrees (some e) n = (e.active_tasks ≡ n) × (n ≤ e.descriptor.max_concurrency)

pub record IsValid (s : System) : Type 0 where
  pub sorted : IsSorted s.entries
  pub agrees : (id : Bytes) → Agrees (find id s.entries) (count id s.leases)

count-take_one :
    (id j : Bytes) (xs : List Bytes)
    → 1 ≤ count id xs
    → count j (take_one id xs) + (if eq_bytes id j then 1 else 0) ≡ count j xs
unfolding count take_one
count-take_one id j [] h = absurd (omega arith)
count-take_one id j (x ∷ xs) h =
    ground (arith, eq_bytes_iff x id, eq_bytes_iff id j, eq_bytes_iff x j, count-take_one id j xs)

add-Agrees :
    (d : AgentDescriptor) (entries : Registry) (j : Bytes) (n : ℕ)
    → Agrees (find j entries) n
    → Agrees (find j (add d entries).0) n
unfolding add contains
add-Agrees d entries j n h = ground (
  arith,
  find-insert d.id j (record { descriptor = d; active_tasks = 0 }) entries,
  eq_bytes_iff d.id j,
)

add-IsSorted :
    (d : AgentDescriptor) (entries : Registry) → IsSorted entries → IsSorted (add d entries).0
unfolding add
add-IsSorted d entries h =
    ground (arith, insert-IsSorted d.id (record { descriptor = d; active_tasks = 0 }) entries h)

remove-Agrees :
    (id : Bytes) (entries : Registry) (j : Bytes) (n : ℕ)
    → Agrees (find j entries) n
    → Agrees (find j (remove id entries).0) n
unfolding remove
remove-Agrees id entries j n h = ground (arith, find-erase id j entries, eq_bytes_iff id j)

remove-IsSorted :
    (id : Bytes) (entries : Registry) → IsSorted entries → IsSorted (remove id entries).0
unfolding remove
remove-IsSorted id entries h = ground (arith, erase-IsSorted id entries h)

has_room-lt :
    (role : AgentRole) (required : List Bytes) (e : Entry)
    → has_room role required e ≡ true
    → e.active_tasks < e.descriptor.max_concurrency
unfolding has_room
has_room-lt role required e h = has_room_of (matches role required e) h
  where
    has_room_of :
        (b : Bool)
        → (b && ltb e.active_tasks e.descriptor.max_concurrency) ≡ true
        → e.active_tasks < e.descriptor.max_concurrency
    has_room_of true h = ground arith
    has_room_of false h = cc

module _ (s : System) (id : Bytes) (e : Entry) where
  taken : System
  taken = record {
    entries = insert id (record e { active_tasks = e.active_tasks + 1 }) s.entries;
    leases = id ∷ s.leases;
  }

  taken-IsValid :
      e.active_tasks < e.descriptor.max_concurrency
      → find id s.entries ≡ some e
      → IsValid s
      → IsValid taken
  unfolding taken count
  taken-IsValid room there v = record {
    sorted = insert-IsSorted id _ s.entries v.sorted;
    agrees = λ j. rw find-insert (ground (arith, v.agrees j, eq_bytes_iff id j));
  }

release-IsValid :
    (s : System) (id : Bytes)
    → 1 ≤ count id s.leases
    → IsValid s
    → IsValid (record { entries = release id s.entries; leases = take_one id s.leases })
release-IsValid s id out v = elim (Option-cases (find id s.entries)) [
  | inl missing ↦
      absurd (omega (arith, subst (λ o. Agrees o (count id s.leases)) missing (v.agrees id)))
  | inr (e, there) ↦
      let counted = subst (λ o. Agrees o (count id s.leases)) there (v.agrees id) in
      rw (there_lem e there (omega arith)) (record {
        sorted = insert-IsSorted id _ s.entries v.sorted;
        agrees = λ j. rw find-insert (
            ground (arith, v.agrees j, there, eq_bytes_iff id j, count-take_one id j s.leases out));
      })
]
  where
    there_lem :
        (e : Entry)
        → find id s.entries ≡ some e
        → 1 ≤ e.active_tasks
        → release id s.entries
          ≡ insert id (record e { active_tasks = e.active_tasks - 1 }) s.entries
    there_lem e there some_out = unfold release in rw (there, release) (ground arith)

acquire-IsValid :
    (s : System) (role : AgentRole) (required : List Bytes) (stop : Bool) (now deadline : ℕ)
    → IsValid s
    → IsValid (attempted s (try_acquire role required stop now deadline s.entries))
unfolding try_acquire attempted taken
acquire-IsValid s role required stop now deadline v =
    selected (select role required none s.entries) refl
  where
    selected :
        (r : Option (Bytes × Entry))
        → select role required none s.entries ≡ r
        → IsValid
            (attempted s (grant (select role required none s.entries) stop now deadline s.entries))
    selected none h = rw h (kept stop (leb deadline now))
      where
        kept :
            (b c : Bool)
            → IsValid (
                attempted s (
                  if b
                  then refused cancelled_error
                  else if c
                  then refused capacity_timeout
                  else waits))
        kept true c = v
        kept false true = v
        kept false false = v
    selected (some (id, e)) h = elim (select-Fits role required none s.entries id e v.sorted h) [
      | inl impossible ↦ absurd (cc)
      | inr (there, fits) ↦ rw h (taken-IsValid s id e (has_room-lt role required e fits) there v)
    ]

pub call-IsValid : (s : System) (c : Call) → IsValid s → IsValid (call s c)
unfolding call
call-IsValid s (adds d) v = record {
  sorted = add-IsSorted d s.entries v.sorted;
  agrees = λ j. add-Agrees d s.entries j _ (v.agrees j);
}
call-IsValid s (removes id) v = record {
  sorted = remove-IsSorted id s.entries v.sorted;
  agrees = λ j. remove-Agrees id s.entries j _ (v.agrees j);
}
call-IsValid s (acquires role required stop now deadline) v =
    acquire-IsValid s role required stop now deadline v
call-IsValid s (releases id) v = elim (Bool-cases (leb 1 (count id s.leases))) [
  | inl out ↦ rw out (release-IsValid s id (ground arith) v)
  | inr not_out ↦ rw not_out v
]

abbrev pub init : System
init = record { entries = []; leases = [] }

init-IsValid : IsValid init
unfolding find count
init-IsValid = record { sorted = tt; agrees = λ id. refl }

calls-IsValid_from : (s : System) (cs : List Call) → IsValid s → IsValid (calls s cs)
unfolding calls
calls-IsValid_from s [] v = v
calls-IsValid_from s (c ∷ cs) v = calls-IsValid_from (call s c) cs (call-IsValid s c v)

-- After any calls from the empty registry, in any order and with any outcomes: the registry is in
-- the order of its keys; the active tasks of each registered agent are the leases of it that are
-- out, and at most its `max_concurrency`; and no lease of an agent that is not registered is out.
pub calls-IsValid : (cs : List Call) → IsValid (calls init cs)
calls-IsValid cs = calls-IsValid_from init cs init-IsValid
