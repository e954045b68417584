-- ===== src/Registry/Totals.antt =====
-- src/orchestration/multi_agent.cpp: the sums that `AgentRegistry::snapshot` shows.
use runi.Prelude.{
  ℕ, ◌+◌, ◌^◌, ◌≤◌, ◌<◌, length, sym, ◌∙◌, ◌≡◌, refl, subst, inl, inr, none, some, List, [], ◌∷◌,
  Bytes, eq_bytes, eq_bytes_iff, eq_bytes_refl, if◌then◌else◌, arith, Bool-cases,
}
use runi.Prelude.Maps.{find}
use runi.Prelude.Maps.Order.{IsSorted, find_below, find_above}
use runi.Registry.{Entry, Registry, snapshot}
use runi.Registry.Invariant.{System, count, Call, calls, init, Agrees, IsValid, calls-IsValid}

-- What the registered agents can take together, as a number that does not wrap.
unfoldable pub declared : Registry → ℕ
declared [] = 0
declared ((_, entry) ∷ entries) = entry.descriptor.max_concurrency + declared entries

-- The active tasks of all agents.
abbrev active_total : Registry → ℕ
active_total [] = 0
active_total ((_, entry) ∷ entries) = entry.active_tasks + active_total entries

snapshot-declared :
    (entries : Registry)
    → IsSorted entries
    → ((id : Bytes) (e : Entry)
        → find id entries ≡ some e
        → e.active_tasks ≤ e.descriptor.max_concurrency)
    → declared entries < 2 ^ 64
    → ((snapshot entries).active ≡ active_total entries)
      × (active_total entries ≤ declared entries)
      × ((snapshot entries).capacity ≡ declared entries)
unfolding snapshot find declared
snapshot-declared [] s h fits = (refl, omega arith, refl)
snapshot-declared ((k, e) ∷ entries) s h fits =
    let (active, most, capacity) =
      snapshot-declared entries s.1
        (λ id f there. h id f (rw (find_below k id entries s.0 there) there)) (omega arith) in
    let here = h k e (rw eq_bytes_refl refl) in
    (omega (arith, here, active, most), omega (arith, here, most), omega (arith, capacity))

-- The leases of the other agents.
without : Bytes → List Bytes → List Bytes
without id [] = []
without id (x ∷ xs) = let rest = without id xs in if eq_bytes x id then rest else x ∷ rest

length-without : (id : Bytes) (xs : List Bytes) → length xs ≡ count id xs + length (without id xs)
unfolding count without
length-without id [] = omega arith
length-without id (x ∷ xs) = ground (arith, length-without id xs)

count-without :
    (id j : Bytes) (xs : List Bytes)
    → count j (without id xs) ≡ (if eq_bytes id j then 0 else count j xs)
unfolding count without
count-without id j [] = ground arith
count-without id j (x ∷ xs) =
    ground (arith, eq_bytes_iff x id, eq_bytes_iff id j, eq_bytes_iff x j, count-without id j xs)

no_leases : (xs : List Bytes) → ((id : Bytes) → count id xs ≡ 0) → length xs ≡ 0
unfolding count
no_leases [] h = refl
no_leases (x ∷ xs) h = let one = h x in ground (arith, eq_bytes_refl x)

active_total-leases :
    (entries : Registry) (leases : List Bytes)
    → IsSorted entries
    → ((id : Bytes) → Agrees (find id entries) (count id leases))
    → active_total entries ≡ length leases
unfolding find
active_total-leases [] leases s h = sym (no_leases leases h)
active_total-leases ((k, e) ∷ entries) leases s h =
    omega (
      arith,
      here,
      length-without k leases,
      active_total-leases entries (without k leases) s.1 below,
    )
  where
    here : e.active_tasks ≡ count k leases
    here =
        let found : find k ((k, e) ∷ entries) ≡ some e = rw eq_bytes_refl refl in
        let agrees : Agrees (some e) (count k leases) =
          subst (λ o. Agrees o (count k leases)) found (h k) in
        agrees.0

    below : (id : Bytes) → Agrees (find id entries) (count id (without k leases))
    below id = elim (Bool-cases (eq_bytes k id)) [
      | inl y ↦
          subst (λ o. Agrees o (count id (without k leases)))
            (sym (
              subst (λ i. find i entries ≡ none) ((eq_bytes_iff k id).0 y)
                (find_above k entries s.0)))
            (count-without k id leases ∙ rw y refl)
      | inr n ↦
          let further : find id ((k, e) ∷ entries) ≡ find id entries = rw n refl in
          let same : count id (without k leases) ≡ count id leases =
            count-without k id leases ∙ rw n refl in
          subst (Agrees (find id entries)) (sym same)
            (subst (λ o. Agrees o (count id leases)) further (h id))
    ]

-- After any calls from the empty registry that leave agents whose `max_concurrency` together is
-- less than `2 ^ 64`, the snapshot shows that sum as the capacity and the number of leases that are
-- out as the active tasks, which are no more.
pub snapshot_within :
    (cs : List Call)
    → declared (calls init cs).entries < 2 ^ 64
    → ((snapshot (calls init cs).entries).active ≡ length (calls init cs).leases)
      × ((snapshot (calls init cs).entries).capacity ≡ declared (calls init cs).entries)
      × ((snapshot (calls init cs).entries).active ≤ (snapshot (calls init cs).entries).capacity)
snapshot_within cs fits =
    let v = calls-IsValid cs in
    let (active, most, capacity) =
      snapshot-declared (calls init cs).entries v.sorted
        (λ id e there. within (calls init cs) v id e there) fits in
    (
      active ∙ active_total-leases (calls init cs).entries (calls init cs).leases v.sorted v.agrees,
      capacity,
      omega (arith, active, most, capacity),
    )
  where
    within :
        (s : System)
        → IsValid s
        → (id : Bytes) (e : Entry) → find id s.entries ≡ some e
        → e.active_tasks ≤ e.descriptor.max_concurrency
    within s v id e there = ground (arith, v.agrees id)
