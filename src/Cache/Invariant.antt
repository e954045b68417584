-- ===== src/Cache/Invariant.antt =====
-- src/state/context_cache.cpp: the critical sections as a list, and the invariant of the cache.
use runi.Prelude.{
  ℕ, zero, suc, ◌+◌, ◌≤◌, ◌<◌, ◌≡◌, refl, sym, ap, ◌∙◌, true, false, ◌&&◌, ◌||◌, not, some, List,
  [], ◌∷◌, Bytes, eq_bytes, eq_bytes_iff, eq_bytes_refl, length, arith, mem, Distinct, Bool-cases,
  Option-cases, inl, inr, ltb, subst,
}
use runi.Prelude.Maps.{Map, find, insert, contains}
use runi.Prelude.Maps.Order.{
  IsSorted, insert-IsSorted, erase-IsSorted, length-insert, length-erase, contains-insert,
  contains-erase,
}
use runi.Error.{Result-cases}
use runi.Cache.{
  Entry, ContextCache, construct, empty_cache, drop_key, forget, begin_get, join_or_lead, Computed,
  result_of, split_last, evict_last, evict, store, finish_get, invalidate, clear,
}
use runi.Cache.Recency.{
  mem-drop_key, length-drop_key, drop_key-Distinct, split_last-drop_key, split_last-none,
}

-- The entries and the list of recency have the same keys, each once.
pub record Agrees (c : ContextCache) : Type 0 where
  pub sorted : IsSorted c.entries
  pub distinct : Distinct c.lru
  pub keys : (k : Bytes) → contains k c.entries ≡ mem k c.lru
  pub sizes : length c.entries ≡ length c.lru

pub record IsValid (c : ContextCache) : Type 0 where
  pub agrees : Agrees c
  pub within : length c.entries ≤ c.capacity
  pub positive : 0 < c.capacity

pub forget-Agrees :
    (key : Bytes) (c : ContextCache)
    → contains key c.entries ≡ true
    → Agrees c
    → Agrees (forget key c)
unfolding forget
forget-Agrees key c h a = record {
  sorted = erase-IsSorted key c.entries a.sorted;
  distinct = drop_key-Distinct key c.lru a.distinct;
  keys = λ k.
      contains-erase key k c.entries
      ∙ (ap (λ b. not (eq_bytes key k) && b) (a.keys k)
          ∙ sym (mem-drop_key key k c.lru a.distinct));
  sizes = omega (
    arith,
    a.sizes,
    length-erase key c.entries a.sorted h,
    length-drop_key key c.lru (sym (a.keys key) ∙ h),
  );
}

forget-length :
    (key : Bytes) (c : ContextCache)
    → contains key c.entries ≡ true
    → Agrees c
    → suc (length (forget key c).entries) ≡ length c.entries
unfolding forget
forget-length key c h a = length-erase key c.entries a.sorted h

-- Bringing a key to the front keeps the entries and the keys.
touch-Agrees :
    (key : Bytes) (c : ContextCache) (n : ℕ)
    → contains key c.entries ≡ true
    → Agrees c
    → Agrees (record c { lru = key ∷ drop_key key c.lru; hits = n })
unfolding mem
touch-Agrees key c n h a = record {
  sorted = a.sorted;
  distinct = (
    mem-drop_key key key c.lru a.distinct ∙ ground (arith, eq_bytes_refl key),
    drop_key-Distinct key c.lru a.distinct,
  );
  keys = λ k. a.keys k ∙ brought k;
  sizes = omega (arith, a.sizes, length-drop_key key c.lru (sym (a.keys key) ∙ h));
}
  where
    brought : (k : Bytes) → mem k c.lru ≡ (eq_bytes key k || mem k (drop_key key c.lru))
    brought k = elim (Bool-cases (eq_bytes key k)) [
      | inl same ↦ rw same (rw (sym ((eq_bytes_iff key k).0 same)) (sym (a.keys key) ∙ h))
      | inr other ↦ rw (other, mem-drop_key key k c.lru a.distinct) (ground (arith, other))
    ]

pub push-Agrees :
    (key : Bytes) (entry : Entry) (c : ContextCache)
    → contains key c.entries ≡ false
    → Agrees c
    → Agrees (record c { lru = key ∷ c.lru; entries = insert key entry c.entries })
unfolding mem
push-Agrees key entry c h a = record {
  sorted = insert-IsSorted key entry c.entries a.sorted;
  distinct = (sym (a.keys key) ∙ h, a.distinct);
  keys = λ k. contains-insert key k entry c.entries ∙ ap (λ b. eq_bytes key k || b) (a.keys k);
  sizes = ground (arith, length-insert key entry c.entries a.sorted, a.sizes);
}

-- One round of the loop takes one entry away, the one used longest ago.
pub evict_last-Agrees :
    (c : ContextCache)
    → Agrees c
    → 0 < length c.entries
    → Agrees (evict_last c) × (suc (length (evict_last c).entries) ≡ length c.entries)
unfolding evict_last
evict_last-Agrees c a p = elim (Option-cases (split_last c.lru)) [
  | inl empty ↦ absurd (omega (arith, split_last-none c.lru empty, a.sizes))
  | inr ((front, victim), split) ↦
      let s = split_last-drop_key c.lru front victim split a.distinct in
      let there : contains victim c.entries ≡ true = a.keys victim ∙ s.1 in
      let f = forget-Agrees victim c there a in
      rw (split, s.0, evict_last)
        (unfold forget in
          (
            record { sorted = f.sorted; distinct = f.distinct; keys = f.keys; sizes = f.sizes },
            length-erase victim c.entries a.sorted there,
          ))
]

pub evict_last-capacity : (c : ContextCache) → (evict_last c).capacity ≡ c.capacity
unfolding evict_last
evict_last-capacity c = ground arith

evict-IsValid :
    (fuel : ℕ) (c : ContextCache)
    → length c.entries ≤ fuel
    → 0 < c.capacity
    → Agrees c
    → IsValid (evict fuel c)
unfolding evict
evict-IsValid zero c h p a = record { agrees = a; within = omega arith; positive = p }
evict-IsValid (suc fuel) c h p a = elim (Bool-cases (ltb c.capacity (length c.entries))) [
  | inr fits ↦ rw (fits, evict) (record { agrees = a; within = ground arith; positive = p })
  | inl over ↦
      let e = evict_last-Agrees c a (ground arith) in
      rw (over, evict)
        (evict-IsValid fuel (evict_last c) (omega (arith, e.1))
          (omega (arith, evict_last-capacity c)) e.0)
]

-- Nothing of the invariant reads the futures or the counters.
pub landed-Agrees : (c : ContextCache) (m : Map ℕ) → Agrees c → Agrees (record c { inflight = m })
landed-Agrees c m a = record {
  sorted = a.sorted;
  distinct = a.distinct;
  keys = a.keys;
  sizes = a.sizes;
}

pub forget-absent :
    (key : Bytes) (c : ContextCache) → Agrees c → contains key (forget key c).entries ≡ false
unfolding forget
forget-absent key c a = contains-erase key key c.entries ∙ ground (arith, eq_bytes_refl key)

store-IsValid :
    (key : Bytes) (expires_at : ℕ) (value : Bytes) (c : ContextCache)
    → 0 < c.capacity
    → Agrees c
    → IsValid (store key expires_at value c)
unfolding store
store-IsValid key expires_at value c p a = elim (Bool-cases (contains key c.entries)) [
  | inl old ↦ rw old (
      evict-IsValid _ _ (omega arith) (unfold forget in p) (
        push-Agrees key (record { value = value; expires_at = expires_at }) (forget key c)
          (forget-absent key c a) (forget-Agrees key c old a)))
  | inr new ↦ rw new (
      evict-IsValid _ _ (omega arith) p
        (push-Agrees key (record { value = value; expires_at = expires_at }) c new a))
]

forget-IsValid :
    (key : Bytes) (c : ContextCache)
    → contains key c.entries ≡ true
    → IsValid c
    → IsValid (forget key c)
forget-IsValid key c h v = record {
  agrees = forget-Agrees key c h v.agrees;
  within = omega (arith, forget-length key c h v.agrees, v.within, forget-capacity key c);
  positive = omega (arith, forget-capacity key c, v.positive);
}
  where
    forget-capacity : (key : Bytes) (c : ContextCache) → (forget key c).capacity ≡ c.capacity
    forget-capacity key c = unfold forget in refl

join_or_lead-IsValid :
    (key : Bytes) (future : ℕ) (c : ContextCache)
    → IsValid c
    → IsValid (join_or_lead key future c).0
unfolding join_or_lead
join_or_lead-IsValid key future c v = elim (Option-cases (find key c.inflight)) [
  | inl free ↦ rw (free, join_or_lead) (same _)
  | inr (pending, taken) ↦ rw (taken, join_or_lead) (same _)
]
  where
    same :
        (r : record { inflight : Map ℕ; misses : ℕ; coalesced : ℕ })
        → IsValid (record c { inflight = r.inflight; misses = r.misses; coalesced = r.coalesced })
    same r = record {
      agrees = record {
        sorted = v.agrees.sorted;
        distinct = v.agrees.distinct;
        keys = v.agrees.keys;
        sizes = v.agrees.sizes;
      };
      within = v.within;
      positive = v.positive;
    }

contains-find :
    (key : Bytes) (m : Map Entry) (e : Entry) → find key m ≡ some e → contains key m ≡ true
unfolding contains
contains-find key m e h = rw (h, contains)

begin_get-IsValid :
    (key : Bytes) (now future : ℕ) (c : ContextCache)
    → IsValid c
    → IsValid (begin_get key now future c).0
unfolding begin_get
begin_get-IsValid key now future c v = elim (Option-cases (find key c.entries)) [
  | inl missing ↦ rw (missing, begin_get) (join_or_lead-IsValid key future c v)
  | inr (entry, found) ↦
      let there = contains-find key c.entries entry found in
      elim (Bool-cases (ltb now entry.expires_at)) [
        | inl fresh ↦
            rw (found, fresh, begin_get)
              (record {
                agrees = touch-Agrees key c (c.hits + 1) there v.agrees;
                within = v.within;
                positive = v.positive;
              })
        | inr stale ↦
            rw (found, stale, begin_get)
              (join_or_lead-IsValid key future (forget key c) (forget-IsValid key c there v))
      ]
]

finish_get-IsValid :
    (key : Bytes) (ttl now : ℕ) (computed : Computed) (c : ContextCache)
    → IsValid c
    → IsValid (finish_get key ttl now computed c).0
unfolding finish_get
finish_get-IsValid key ttl now computed c v = elim (Result-cases (result_of computed)) [
  | inl (value, fine) ↦
      rw (fine, finish_get)
        (store-IsValid key (now + ttl) value _ v.positive (landed-Agrees c _ v.agrees))
  | inr (error, failed) ↦
      rw (failed, finish_get)
        (record { agrees = landed-Agrees c _ v.agrees; within = v.within; positive = v.positive })
]

invalidate-IsValid : (key : Bytes) (c : ContextCache) → IsValid c → IsValid (invalidate key c)
unfolding invalidate
invalidate-IsValid key c v = elim (Bool-cases (contains key c.entries)) [
  | inl there ↦ rw there (forget-IsValid key c there v)
  | inr absent ↦ rw absent v
]

clear-IsValid : (c : ContextCache) → IsValid c → IsValid (clear c)
unfolding clear contains find mem
clear-IsValid c v = record {
  agrees = record { sorted = tt; distinct = tt; keys = λ k. refl; sizes = refl };
  within = omega arith;
  positive = v.positive;
}

-- The critical sections of the calls, in the order in which the threads come to them.
pub data Section : Type 0 where
  begins : Bytes → ℕ → ℕ → Section
  finishes : Bytes → ℕ → ℕ → Computed → Section
  invalidates : Bytes → Section
  clears : Section

unfoldable pub section : ContextCache → Section → ContextCache
section c (begins key now future) = (begin_get key now future c).0
section c (finishes key ttl now computed) = (finish_get key ttl now computed c).0
section c (invalidates key) = invalidate key c
section c clears = clear c

unfoldable pub sections : ContextCache → List Section → ContextCache
unfolding section
sections c [] = c
sections c (s ∷ ss) = sections (section c s) ss

section-IsValid : (c : ContextCache) (s : Section) → IsValid c → IsValid (section c s)
unfolding section
section-IsValid c (begins key now future) v = begin_get-IsValid key now future c v
section-IsValid c (finishes key ttl now computed) v = finish_get-IsValid key ttl now computed c v
section-IsValid c (invalidates key) v = invalidate-IsValid key c v
section-IsValid c (clears) v = clear-IsValid c v

sections-IsValid_from : (c : ContextCache) (ss : List Section) → IsValid c → IsValid (sections c ss)
sections-IsValid_from c [] v = unfold sections in v
sections-IsValid_from c (s ∷ ss) v =
    sections_step (sections-IsValid_from (section c s) ss (section-IsValid c s v))
  where
    sections_step : IsValid (sections (section c s) ss) → IsValid (sections c (s ∷ ss))
    sections_step h = unfold sections in h

empty-IsValid : (capacity : ℕ) → 0 < capacity → IsValid (empty_cache capacity)
unfolding contains find mem
empty-IsValid capacity p = record {
  agrees = record { sorted = tt; distinct = tt; keys = λ k. refl; sizes = refl };
  within = omega arith;
  positive = p;
}

construct_empty :
    (capacity : ℕ) {c : ContextCache}
    → construct capacity ≡ some c
    → (0 < capacity) × (empty_cache capacity ≡ c)
unfolding construct
construct_empty capacity h = (ground arith, ground arith)

construct-IsValid : (capacity : ℕ) {c : ContextCache} → construct capacity ≡ some c → IsValid c
construct-IsValid capacity {c} h =
    let e = construct_empty capacity h in subst IsValid e.1 (empty-IsValid capacity e.0)

-- After any interleaving of the critical sections of any calls, whatever was computed and whatever
-- the clock said: the cache holds at most `capacity` entries, its order of recency lists exactly
-- the keys of the entries, each once, and the two have the same size.
pub sections-IsValid :
    (capacity : ℕ) (ss : List Section) {c : ContextCache}
    → construct capacity ≡ some c
    → IsValid (sections c ss)
sections-IsValid capacity ss {c} h = sections-IsValid_from c ss (construct-IsValid capacity h)
