-- ===== src/Registry/Selection.antt =====
-- src/orchestration/multi_agent.cpp: the loop of `AgentRegistry::acquire` over the entries.
use runi.Prelude.{
  ℕ, ◌+◌, ◌≤◌, ◌≡◌, refl, ap, ◌∙◌, subst, ◌⊎◌, inl, inr, Bool, true, false, ◌&&◌, Option, none,
  some, List, [], ◌∷◌, Bytes, eq_bytes, eq_bytes_iff, leb, ltb, if◌then◌else◌, arith, Bool-cases,
}
use runi.Prelude.Maps.{find, insert}
use runi.Prelude.Maps.Order.{IsSorted, find_below}
use runi.Registry.{
  AgentRole, Entry, Registry, has_room, better, choose, select, grant, try_acquire, granted,
  refused, waits, cancelled_error, capacity_timeout,
}

abbrev pub Selected : Type 0
Selected = Option (Bytes × Entry)

-- The selected entry, if any, has at most `n` tasks; there is one.
abbrev pub AtMost : Selected → ℕ → Type 0
AtMost none n = ⊥
AtMost (some (_, e)) n = e.active_tasks ≤ n

-- The selected entry, if any, stands in the registry and has room.
abbrev pub Fits : AgentRole → List Bytes → Registry → Selected → Type 0
Fits role required entries none = Unit {0}
Fits role required entries (some (id, e)) =
    (find id entries ≡ some e) × (has_room role required e ≡ true)

module _ (role : AgentRole) (required : List Bytes) where
  choose-AtMost :
      (id : Bytes) (entry : Entry) (selected : Selected) (n : ℕ)
      → AtMost selected n
      → AtMost (choose role required id entry selected) n
  unfolding choose better
  choose-AtMost id entry none n h = absurd h
  choose-AtMost id entry (some (i, best)) n h = ground arith

  choose-entry :
      (id : Bytes) (entry : Entry) (selected : Selected)
      → has_room role required entry ≡ true
      → AtMost (choose role required id entry selected) entry.active_tasks
  unfolding choose better
  choose-entry id entry none h = rw h (omega arith)
  choose-entry id entry (some (i, best)) h =
      rw h (elim (Bool-cases (ltb entry.active_tasks best.active_tasks)) [
        | inl e ↦ rw e (omega arith)
        | inr e ↦ rw e (ground arith)
      ])

  -- The loop only ever moves to less loaded entries.
  select-AtMost :
      (selected : Selected) (entries : Registry) (n : ℕ)
      → AtMost selected n
      → AtMost (select role required selected entries) n
  unfolding select
  select-AtMost selected [] n h = h
  select-AtMost selected ((id, entry) ∷ entries) n h =
      select-AtMost (choose role required id entry selected) entries n
        (choose-AtMost id entry selected n h)

  select_least :
      (selected : Selected) (entries : Registry) (j : Bytes) (f : Entry)
      → find j entries ≡ some f
      → has_room role required f ≡ true
      → AtMost (select role required selected entries) f.active_tasks
  unfolding select find
  select_least selected [] j f h room = ground arith
  select_least selected ((id, entry) ∷ entries) j f h room = elim (Bool-cases (eq_bytes id j)) [
    | inl e ↦ select-AtMost (choose role required id entry selected) entries f.active_tasks (
        subst (λ g. AtMost (choose role required id entry selected) g.active_tasks) (hit e)
          (choose-entry id entry selected (ap (has_room role required) (hit e) ∙ room)))
    | inr e ↦ select_least (choose role required id entry selected) entries j f (ground arith) room
  ]
    where
      hit : eq_bytes id j ≡ true → entry ≡ f
      hit e = ground arith

  choose-Fits :
      (id : Bytes) (entry : Entry) (selected : Selected) (i : Bytes) (e : Entry)
      → choose role required id entry selected ≡ some (i, e)
      → (selected ≡ some (i, e)) ⊎ ((id ≡ i) × (entry ≡ e) × (has_room role required e ≡ true))
  unfolding choose
  choose-Fits id entry selected i e h =
      elim (Bool-cases (has_room role required entry && better entry selected)) [
        | inl t ↦ inr (ground arith, ground arith, ground arith)
        | inr f ↦ inl (ground arith)
      ]

  -- What comes out was there before, or stands in the list with room.
  pub select-Fits :
      (selected : Selected) (entries : Registry) (i : Bytes) (e : Entry)
      → IsSorted entries
      → select role required selected entries ≡ some (i, e)
      → (selected ≡ some (i, e)) ⊎ ((find i entries ≡ some e) × (has_room role required e ≡ true))
  unfolding select find
  select-Fits selected [] i e s h = inl h
  select-Fits selected ((id, entry) ∷ entries) i e s h =
      elim (select-Fits (choose role required id entry selected) entries i e s.1 h) [
        | inr (found, room) ↦ inr (rw (find_below id i entries s.0 found) found, room)
        | inl chosen ↦ elim (choose-Fits id entry selected i e chosen) [
          | inl old ↦ inl old
          | inr (same, entry_same, room) ↦ inr (ground (arith, eq_bytes_iff id i), room)
        ]
      ]

  select-none :
      (selected : Selected) (entries : Registry) (j : Bytes) (f : Entry)
      → select role required selected entries ≡ none
      → find j entries ≡ some f
      → has_room role required f ≡ false
  select-none selected entries j f h found = elim (Bool-cases (has_room role required f)) [
    | inl room ↦
        absurd
          (subst (λ r. AtMost r f.active_tasks) h (select_least selected entries j f found room))
    | inr full ↦ full
  ]

-- When an agent of a registry in the order of its keys has the role, all the capabilities and room,
-- a pass of `acquire` grants a lease, whatever the stop token and the clock say; the agent that it
-- grants fits the request, has room, and no other agent that fits and has room has fewer active
-- tasks; only its count changes, by one.
pub try_acquire_granted :
    (role : AgentRole) (required : List Bytes) (stop : Bool) (now deadline : ℕ) (entries : Registry)
    (j : Bytes) (f : Entry)
    → IsSorted entries
    → find j entries ≡ some f
    → has_room role required f ≡ true
    → (id : Bytes) × (e : Entry) × (find id entries ≡ some e)
      × (has_room role required e ≡ true)
      × (try_acquire role required stop now deadline entries
          ≡ granted
              (record { agent_id = id; function = e.descriptor.execute })
              (insert id (record e { active_tasks = e.active_tasks + 1 }) entries))
      × ((k : Bytes) (g : Entry)
          → find k entries ≡ some g
          → has_room role required g ≡ true
          → e.active_tasks ≤ g.active_tasks)
unfolding try_acquire
try_acquire_granted role required stop now deadline entries j f s found room =
    granted_from (select role required none entries) refl
  where
    granted_from :
        (r : Selected)
        → select role required none entries ≡ r
        → (id : Bytes) × (e : Entry) × (find id entries ≡ some e)
          × (has_room role required e ≡ true)
          × (grant (select role required none entries) stop now deadline entries
              ≡ granted
                  (record { agent_id = id; function = e.descriptor.execute })
                  (insert id (record e { active_tasks = e.active_tasks + 1 }) entries))
          × ((k : Bytes) (g : Entry)
              → find k entries ≡ some g
              → has_room role required g ≡ true
              → e.active_tasks ≤ g.active_tasks)
    granted_from none h = absurd (
        subst (λ r. AtMost r f.active_tasks) h
          (select_least role required none entries j f found room))
    granted_from (some (id, e)) h = elim (select-Fits role required none entries id e s h) [
      | inl impossible ↦ absurd (cc)
      | inr (there, fits) ↦ (
        id,
        e,
        there,
        fits,
        rw h,
        λ k g at_k room_k.
            subst (λ r. AtMost r g.active_tasks) h
              (select_least role required none entries k g at_k room_k),
      )
    ]

-- When no agent that fits has room, in a registry in the order of its keys, a pass of `acquire`
-- grants nothing: it fails with `agent_cancelled` if a stop was requested, else with
-- `agent_capacity_timeout` if the deadline has come, and else it waits.
pub try_acquire_full :
    (role : AgentRole) (required : List Bytes) (stop : Bool) (now deadline : ℕ) (entries : Registry)
    → IsSorted entries
    → ((k : Bytes) (g : Entry) → find k entries ≡ some g → has_room role required g ≡ false)
    → try_acquire role required stop now deadline entries ≡ (
        if stop
        then refused cancelled_error
        else if leb deadline now
        then refused capacity_timeout
        else waits)
unfolding try_acquire
try_acquire_full role required stop now deadline entries s full =
    refused_from (select role required none entries) refl
  where
    refused_from :
        (r : Selected)
        → select role required none entries ≡ r
        → grant (select role required none entries) stop now deadline entries ≡ (
            if stop
            then refused cancelled_error
            else if leb deadline now
            then refused capacity_timeout
            else waits)
    refused_from none h = rw h
    refused_from (some (id, e)) h = elim (select-Fits role required none entries id e s h) [
      | inl impossible ↦ cc
      | inr (there, fits) ↦ cc (full id e there)
    ]
