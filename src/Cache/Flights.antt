-- ===== src/Cache/Flights.antt =====
-- src/state/context_cache.cpp: the computations that run, and the calls of `get_or_compute` by
-- several threads as a list of events.
use runi.Prelude.{
  ℕ, zero, suc, ◌+◌, ◌<◌, ◌≡◌, ◌≢◌, refl, sym, ap, ◌∙◌, subst, Bool, false, ◌&&◌, ◌||◌, not, none,
  some, List, [], ◌∷◌, Bytes, bytes, eq_bytes, eq_bytes_refl, length, arith, mem, Distinct,
  Bool-cases, Option-cases, inl, inr, if◌then◌else◌, ltb,
}
use runi.Prelude.Maps.{Map, find, insert, erase, contains, find-insert, find-erase}
use runi.Prelude.Maps.Order.{contains-insert, contains-erase}
use runi.Error.{Error, success, failure, make_error, internal, Result-cases}
use runi.Cache.{
  Entry, ContextCache, empty_cache, drop_key, forget, begin_get, Begun, hit, follows, leads,
  join_or_lead, Computed, returned, threw_exception, threw_unknown, result_of, snapshot, split_last,
  evict_last, evict, add_front, store, finish_get, invalidate, clear,
}
use runi.Cache.Recency.{mem-drop_key, drop_key-Distinct, split_last-none, split_last_front}
use runi.Cache.Invariant.{
  Agrees, IsValid, Section, evict_last-Agrees, evict_last-capacity, push-Agrees, forget-Agrees,
  forget-absent, landed-Agrees,
}

-- The eviction never takes the key at the front, unless it is the only one.
evict_last-front :
    (key : Bytes) (rest : List Bytes) (c : ContextCache)
    → c.lru ≡ key ∷ rest
    → 1 < length c.entries
    → Agrees c
    → ((rest' : List Bytes) × ((evict_last c).lru ≡ key ∷ rest'))
      × (find key (evict_last c).entries ≡ find key c.entries)
unfolding evict_last
evict_last-front key rest c e more a = elim (Option-cases (split_last c.lru)) [
  | inl empty ↦ absurd (omega (arith, split_last-none c.lru empty, a.sizes))
  | inr ((front, victim), split) ↦
      let f =
        split_last_front key rest front victim
          (subst (λ l. split_last l ≡ some (front, victim)) e split) (subst Distinct e a.distinct)
          (omega (arith, a.sizes, ap length e)) in
      rw (split, evict_last) (f.1, find-erase victim key c.entries ∙ rw f.0)
]

evict-front :
    (fuel : ℕ) (key : Bytes) (rest : List Bytes) (c : ContextCache)
    → c.lru ≡ key ∷ rest
    → 0 < c.capacity
    → Agrees c
    → find key (evict fuel c).entries ≡ find key c.entries
unfolding evict
evict-front zero key rest c e p a = refl
evict-front (suc fuel) key rest c e p a = elim (Bool-cases (ltb c.capacity (length c.entries))) [
  | inr fits ↦ rw (fits, evict) refl
  | inl over ↦
      let more : 1 < length c.entries = ground arith in
      let f = evict_last-front key rest c e more a in
      rw (over, evict)
        (evict-front fuel key f.0.0 (evict_last c) f.0.1 (omega (arith, evict_last-capacity c))
            (evict_last-Agrees c a (omega arith)).0
          ∙ f.1)
]

store-find :
    (key : Bytes) (expires_at : ℕ) (value : Bytes) (c : ContextCache)
    → 0 < c.capacity
    → Agrees c
    → find key (store key expires_at value c).entries
      ≡ some (record { value = value; expires_at = expires_at })
unfolding store
store-find key expires_at value c p a = elim (Bool-cases (contains key c.entries)) [
  | inl old ↦ rw old (
      evict-front _ key (forget key c).lru _ refl (unfold forget in p)
        (push-Agrees key entry (forget key c) (forget-absent key c a) (forget-Agrees key c old a))
      ∙ (find-insert key key entry (forget key c).entries ∙ rw (eq_bytes_refl key)))
  | inr new ↦ rw new (
      evict-front _ key c.lru _ refl p (push-Agrees key entry c new a)
      ∙ (find-insert key key entry c.entries ∙ rw (eq_bytes_refl key)))
]
  where
    entry : Entry
    entry = record { value = value; expires_at = expires_at }

-- A value that a leader has computed is there for the next reader: from the end of the computation
-- until it expires, a call for the key is a hit with that value, whatever the cache, which is
-- valid, held and however full it was.
pub finish_begin_hit :
    (key value : Bytes) (ttl now later future : ℕ) (c : ContextCache)
    → IsValid c
    → later < now + ttl
    → (begin_get key later future (finish_get key ttl now (returned (success value)) c).0).1
      ≡ hit value
unfolding begin_get finish_get
finish_begin_hit key value ttl now later future c v before =
    rw
      (
        store-find key (now + ttl) value (record c { inflight = erase key c.inflight }) v.positive
            (landed-Agrees c (erase key c.inflight) v.agrees),
        begin_get,
      )
      (ground arith)

-- The ways in which a computation fails, each with the error that its callers get: an error that it
-- returns, an exception of the standard library with its text, and any other exception.
pub data Fails : Computed → Error → Type 0 where
  returns : (error : Error) → Fails (returned (failure error)) error
  throws :
      (what : Bytes)
      → Fails (threw_exception what) (make_error internal (bytes "cache_compute_exception") what)
  throws_unknown : Fails threw_unknown (
      make_error internal
        (bytes "cache_compute_exception")
        (bytes "Unknown cache computation exception"))

Fails-result_of :
    {computed : Computed} {error : Error}
    → Fails computed error
    → result_of computed ≡ failure error
unfolding result_of
Fails-result_of (returns error) = refl
Fails-result_of (throws what) = refl
Fails-result_of throws_unknown = refl

join_or_lead_alone :
    (key : Bytes) (future pending : ℕ) (c : ContextCache)
    → contains key c.inflight ≡ false
    → (join_or_lead key future c).1 ≢ follows pending
unfolding join_or_lead contains
join_or_lead_alone key future pending c h e = elim (Option-cases (find key c.inflight)) [
  | inl n ↦ absurd (cc (rw (n, join_or_lead) at e))
  | inr (other, y) ↦ absurd (cc (rw (y, contains) at h))
]

begin_get_alone :
    (key : Bytes) (now future pending : ℕ) (c : ContextCache)
    → contains key c.inflight ≡ false
    → (begin_get key now future c).1 ≢ follows pending
unfolding begin_get
begin_get_alone key now future pending c h e = elim (Option-cases (find key c.entries)) [
  | inl n ↦ join_or_lead_alone key future pending c h (rw (n, begin_get) at e)
  | inr (entry, y) ↦ elim (Bool-cases (ltb now entry.expires_at)) [
    | inl fresh ↦ absurd (cc (rw (y, begin_get, fresh) at e))
    | inr old ↦
        join_or_lead_alone key future pending (forget key c) (unfold forget in h)
          (rw (y, begin_get, old) at e)
  ]
]

-- However a computation fails, by an error that it returns or by an exception that it throws, its
-- leader gives that error, of an exception `cache_compute_exception` with its text or with that for
-- an unknown one; the entries, the order of recency and the counts are the same, of the futures
-- that of the key is gone and the others stay, and no call that comes next for the key waits for
-- the failed computation.
pub finish_failed :
    (key : Bytes) (ttl now later future pending : ℕ) (computed : Computed) (error : Error)
    (c : ContextCache)
    → Fails computed error
    → ((finish_get key ttl now computed c).1 ≡ failure error)
      × ((finish_get key ttl now computed c).0.entries ≡ c.entries)
      × ((finish_get key ttl now computed c).0.lru ≡ c.lru)
      × (snapshot (finish_get key ttl now computed c).0 ≡ snapshot c)
      × ((other : Bytes)
          → find other (finish_get key ttl now computed c).0.inflight
            ≡ (if eq_bytes key other then none else find other c.inflight))
      × ((begin_get key later future (finish_get key ttl now computed c).0).1 ≢ follows pending)
unfolding finish_get snapshot
finish_failed key ttl now later future pending computed error c f =
    rw (Fails-result_of f, finish_get)
      (
        refl,
        refl,
        refl,
        refl,
        λ other. find-erase key other c.inflight,
        begin_get_alone key later future pending (record c { inflight = erase key c.inflight })
            (contains-erase key key c.inflight ∙ ground (arith, eq_bytes_refl key)),
      )

-- The cache, and the key of each computation that runs.
pub record System : Type 0 where
  pub cache : ContextCache
  pub leaders : List Bytes

pub data Event : Type 0 where
  calls : Bytes → ℕ → ℕ → Event
  computes : Bytes → ℕ → ℕ → Computed → Event
  others : Section → Event

led : Bytes → Begun → List Bytes → List Bytes
led key (hit value) ls = ls
led key (follows future) ls = ls
led key leads ls = key ∷ ls

-- Only a leader comes to the second section.
pub event : System → Event → System
unfolding led
event s (calls key now future) = record {
  cache = (begin_get key now future s.cache).0;
  leaders = led key (begin_get key now future s.cache).1 s.leaders;
}
event s (computes key ttl now computed) =
    if mem key s.leaders
    then record {
      cache = (finish_get key ttl now computed s.cache).0;
      leaders = drop_key key s.leaders;
    }
    else s
event s (others (Section.invalidates key)) = record s { cache = invalidate key s.cache }
event s (others Section.clears) = record s { cache = clear s.cache }
event s (others _) = s

pub events : System → List Event → System
events s [] = s
events s (e ∷ es) = events (event s e) es

pub record OneLeader (s : System) : Type 0 where
  pub once : Distinct s.leaders
  pub flights : (k : Bytes) → contains k s.cache.inflight ≡ mem k s.leaders

-- What the first critical section does to the flights.
abbrev Flight : Bytes → ℕ → Map ℕ → ContextCache × Begun → Type 0
Flight key future before (c, hit value) = c.inflight ≡ before
Flight key future before (c, follows pending) = c.inflight ≡ before
Flight key future before (c, leads) =
    (contains key before ≡ false) × (c.inflight ≡ insert key future before)

join_or_lead-Flight :
    (key : Bytes) (future : ℕ) (c : ContextCache)
    → Flight key future c.inflight (join_or_lead key future c)
unfolding join_or_lead contains
join_or_lead-Flight key future c = elim (Option-cases (find key c.inflight)) [
  | inl free ↦ rw (free, join_or_lead) (rw (free, contains), refl)
  | inr (pending, taken) ↦ rw (taken, join_or_lead)
]

begin_get-Flight :
    (key : Bytes) (now future : ℕ) (c : ContextCache)
    → Flight key future c.inflight (begin_get key now future c)
unfolding begin_get
begin_get-Flight key now future c = elim (Option-cases (find key c.entries)) [
  | inl missing ↦ rw (missing, begin_get) (join_or_lead-Flight key future c)
  | inr (entry, found) ↦ elim (Bool-cases (ltb now entry.expires_at)) [
    | inl fresh ↦ rw (found, fresh, begin_get)
    | inr stale ↦ rw (found, stale, begin_get) (join_or_lead-Flight key future (forget key c))
  ]
]

evict-inflight : (fuel : ℕ) (c : ContextCache) → (evict fuel c).inflight ≡ c.inflight
unfolding evict evict_last
evict-inflight zero c = refl
evict-inflight (suc fuel) c = elim (Bool-cases (ltb c.capacity (length c.entries))) [
  | inr fits ↦ rw (fits, evict) refl
  | inl over ↦ rw (over, evict) (evict-inflight fuel (evict_last c) ∙ one)
]
  where
    one : (evict_last c).inflight ≡ c.inflight
    one = ground arith

store-inflight :
    (key : Bytes) (expires_at : ℕ) (value : Bytes) (c : ContextCache)
    → (store key expires_at value c).inflight ≡ c.inflight
unfolding store
store-inflight key expires_at value c =
    evict-inflight (length (added (contains key c.entries)).entries)
      (added (contains key c.entries))
    ∙ kept (contains key c.entries)
  where
    added : Bool → ContextCache
    added b =
        add_front key (record { value = value; expires_at = expires_at })
          (if b then forget key c else c)

    kept : (b : Bool) → (added b).inflight ≡ c.inflight
    kept b = ground arith

finish_get-inflight :
    (key : Bytes) (ttl now : ℕ) (computed : Computed) (c : ContextCache)
    → (finish_get key ttl now computed c).0.inflight ≡ erase key c.inflight
unfolding finish_get
finish_get-inflight key ttl now computed c = elim (Result-cases (result_of computed)) [
  | inr (error, failed) ↦ rw (failed, finish_get)
  | inl (value, fine) ↦
      rw (fine, finish_get)
        (store-inflight key (now + ttl) value (record c { inflight = erase key c.inflight }))
]

begun-OneLeader :
    (key : Bytes) (future : ℕ) (ls : List Bytes) (before : Map ℕ) (r : ContextCache × Begun)
    → Flight key future before r
    → Distinct ls
    → ((k : Bytes) → contains k before ≡ mem k ls)
    → OneLeader (record { cache = r.0; leaders = led key r.1 ls })
unfolding led mem
begun-OneLeader key future ls before (c, hit value) f d a = record {
  once = d;
  flights = λ k. ap (contains k) f ∙ a k;
}
begun-OneLeader key future ls before (c, follows pending) f d a = record {
  once = d;
  flights = λ k. ap (contains k) f ∙ a k;
}
begun-OneLeader key future ls before (c, leads) f d a = record {
  once = (sym (a key) ∙ f.0, d);
  flights = λ k.
      ap (contains k) f.1
      ∙ (contains-insert key k future before ∙ ap (λ b. eq_bytes key k || b) (a k));
}

event-OneLeader : (s : System) (e : Event) → OneLeader s → OneLeader (event s e)
unfolding event
event-OneLeader s (calls key now future) o =
    begun-OneLeader key future s.leaders s.cache.inflight (begin_get key now future s.cache)
      (begin_get-Flight key now future s.cache) o.once o.flights
event-OneLeader s (computes key ttl now computed) o = elim (Bool-cases (mem key s.leaders)) [
  | inr stranger ↦ rw stranger o
  | inl leader ↦ rw leader (record {
    once = drop_key-Distinct key s.leaders o.once;
    flights = λ k.
        ap (contains k) (finish_get-inflight key ttl now computed s.cache)
        ∙ (contains-erase key k s.cache.inflight
            ∙ (ap (λ b. not (eq_bytes key k) && b) (o.flights k)
                ∙ sym (mem-drop_key key k s.leaders o.once)));
  })
]
event-OneLeader s (others (Section.invalidates key)) o = record {
  once = o.once;
  flights = λ k. ap (contains k) (same k) ∙ o.flights k;
}
  where
    same : (k : Bytes) → (invalidate key s.cache).inflight ≡ s.cache.inflight
    same k = unfold invalidate forget in ground arith
event-OneLeader s (others Section.clears) o =
    unfold clear in record { once = o.once; flights = o.flights }
event-OneLeader s (others (Section.begins key now future)) o = o
event-OneLeader s (others (Section.finishes key ttl now computed)) o = o

abbrev pub init : ℕ → System
init capacity = record { cache = empty_cache capacity; leaders = [] }

events-OneLeader_from : (s : System) (es : List Event) → OneLeader s → OneLeader (events s es)
unfolding events
events-OneLeader_from s [] o = o
events-OneLeader_from s (e ∷ es) o = events-OneLeader_from (event s e) es (event-OneLeader s e o)

-- However the calls of the threads interleave, a key is computed by at most one leader at a time,
-- and the keys that have a future to wait for are exactly those that are being computed.
pub events-OneLeader : (capacity : ℕ) (es : List Event) → OneLeader (events (init capacity) es)
unfolding contains find mem
events-OneLeader capacity es =
    events-OneLeader_from (init capacity) es (record { once = tt; flights = λ k. refl })
