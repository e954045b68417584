-- ===== src/Cache.antt =====
-- include/runi/state/context_cache.hpp and src/state/context_cache.cpp: a bounded cache with an
-- order of recency, an expiry for each entry, and one computation at a time for each key.
-- `get_or_compute` has two critical sections, `begin_get` and `finish_get`; the computation runs
-- between them, outside the lock. An iterator into `lru_` is the key that it points at.
pub mod Recency
pub mod Invariant
pub mod Flights
use runi.Prelude.{
  ℕ, zero, suc, ◌+◌, Bool, true, false, ◌||◌, not, Option, none, some, List, [], ◌∷◌, Bytes, bytes,
  ltb, leb, ◌==◌, if◌then◌else◌, eq_bytes, length,
}
use runi.Prelude.Maps.{Map, find, insert, erase, contains}
use runi.Error.{Error, Result, success, failure, make_error, internal}

pub record Entry : Type 0 where
  pub value : Bytes
  pub expires_at : ℕ

pub record ContextCache : Type 0 where
  pub capacity : ℕ
  pub lru : List Bytes
  pub entries : Map Entry
  -- The futures of the computations that run, by number.
  pub inflight : Map ℕ
  pub hits : ℕ
  pub misses : ℕ
  pub evictions : ℕ
  pub coalesced : ℕ

abbrev pub empty_cache : ℕ → ContextCache
empty_cache capacity = record {
  capacity = capacity;
  lru = [];
  entries = [];
  inflight = [];
  hits = 0;
  misses = 0;
  evictions = 0;
  coalesced = 0;
}

-- The constructor; `none` stands for the `std::invalid_argument` that it throws.
unfoldable pub construct : ℕ → Option ContextCache
construct capacity = if capacity == 0 then none else some (empty_cache capacity)

-- `lru_.erase` of the node of a key.
pub drop_key : Bytes → List Bytes → List Bytes
drop_key key [] = []
drop_key key (k ∷ ks) = if eq_bytes k key then ks else k ∷ drop_key key ks

-- An entry and its node go together.
pub forget : Bytes → ContextCache → ContextCache
unfolding drop_key
forget key c = record c { lru = drop_key key c.lru; entries = erase key c.entries }

-- How `get_or_compute` goes on after its first critical section.
pub data Begun : Type 0 where
  hit : Bytes → Begun
  follows : ℕ → Begun
  leads : Begun

-- The first section when no entry is fresh; `future` names the promise of a new leader.
join_or_lead : Bytes → ℕ → ContextCache → ContextCache × Begun
join_or_lead key future c = elim (find key c.inflight) [
  | some pending ↦ (record c { coalesced = c.coalesced + 1 }, follows pending)
  | none ↦ (record c { inflight = insert key future c.inflight; misses = c.misses + 1 }, leads)
]

unfoldable pub begin_get : Bytes → ℕ → ℕ → ContextCache → ContextCache × Begun
unfolding forget join_or_lead
begin_get key now future c = elim (find key c.entries) [
  | some entry ↦
      if ltb now entry.expires_at
      then (record c { lru = key ∷ drop_key key c.lru; hits = c.hits + 1 }, hit entry.value)
      else join_or_lead key future (forget key c)
  | none ↦ join_or_lead key future c
]

-- What `compute` did: it returned, or it threw.
pub data Computed : Type 0 where
  returned : Result Bytes → Computed
  threw_exception : Bytes → Computed
  threw_unknown : Computed

unfoldable pub result_of : Computed → Result Bytes
result_of (returned result) = result
result_of (threw_exception what) =
    failure (make_error internal (bytes "cache_compute_exception") what)
result_of threw_unknown = failure (
    make_error internal (bytes "cache_compute_exception")
      (bytes "Unknown cache computation exception"))

-- `back()` and `pop_back()`.
pub split_last : List Bytes → Option (List Bytes × Bytes)
split_last [] = none
split_last (k ∷ ks) = elim (split_last ks) [
  | none ↦ some ([], k)
  | some (front, last) ↦ some (k ∷ front, last)
]

-- The body of the loop that evicts.
unfoldable pub evict_last : ContextCache → ContextCache
unfolding split_last
evict_last c = elim (split_last c.lru) [
  | none ↦ c
  | some (front, victim) ↦ record c {
    lru = front;
    entries = erase victim c.entries;
    evictions = c.evictions + 1;
  }
]

-- `while (entries_.size() > capacity_)`; the fuel is the number of entries.
pub evict : ℕ → ContextCache → ContextCache
evict zero c = c
evict (suc fuel) c = elim (ltb c.capacity (length c.entries)) [
  | true ↦ evict fuel (evict_last c)
  | false ↦ c
]

-- `push_front` and `emplace`.
pub add_front : Bytes → Entry → ContextCache → ContextCache
add_front key entry c = record c { lru = key ∷ c.lru; entries = insert key entry c.entries }

-- The part of the second section for a successful result.
pub store : Bytes → ℕ → Bytes → ContextCache → ContextCache
unfolding forget evict add_front
store key expires_at value c =
    let added =
      add_front key (record { value = value; expires_at = expires_at })
        (if contains key c.entries then forget key c else c) in
    evict (length added.entries) added

-- The second critical section of a leader, at the time `now`. What it gives to the promise, and
-- returns, is the result.
unfoldable pub finish_get : Bytes → ℕ → ℕ → Computed → ContextCache → ContextCache × Result Bytes
unfolding result_of store
finish_get key ttl now computed c =
    let landed = record c { inflight = erase key c.inflight } in
    elim (result_of computed) [
      | success value ↦ (store key (now + ttl) value landed, success value)
      | failure error ↦ (landed, failure error)
    ]

unfoldable pub invalidate : Bytes → ContextCache → ContextCache
unfolding forget
invalidate key c = if contains key c.entries then forget key c else c

unfoldable pub clear : ContextCache → ContextCache
clear c = record c { lru = []; entries = [] }

pub record ContextCacheSnapshot : Type 0 where
  pub size : ℕ
  pub hits : ℕ
  pub misses : ℕ
  pub evictions : ℕ
  pub coalesced : ℕ

unfoldable pub snapshot : ContextCache → ContextCacheSnapshot
snapshot c = record {
  size = length c.entries;
  hits = c.hits;
  misses = c.misses;
  evictions = c.evictions;
  coalesced = c.coalesced;
}
