-- ===== src/Examples/Caching.antt =====
-- A cache with room for one entry.
use runi.Prelude.{
  ◌≡◌, ◌≢◌, refl, none, some, if◌then◌else◌, List, [], ◌∷◌, Bytes, bytes, eq_bytes, less, arith,
}
use runi.Prelude.Maps.{contains, find, insert, erase}
use runi.Error.{success, failure, make_error, internal}
use runi.Cache.{
  empty_cache, construct, begin_get, hit, finish_get, evict_last, follows, returned,
  threw_exception, threw_unknown, snapshot,
}
use runi.Cache.Invariant.{IsValid, Section, sections, sections-IsValid}
use runi.Cache.Flights.{
  finish_begin_hit, finish_failed, throws, Event, events, init, OneLeader, events-OneLeader,
}

abbrev a : Bytes
a = bytes "a"

abbrev b : Bytes
b = bytes "b"

built : construct 1 ≡ some (empty_cache 1)
unfolding construct
built = refl

abbrev both : List Section
both =
    Section.begins a 0 0
    ∷ Section.finishes a 5 1 (returned (success b))
    ∷ Section.begins b 2 1
    ∷ Section.finishes b 5 3 (returned (success a))
    ∷ []

-- The second entry takes the place of the first.
both-snapshot :
    snapshot (sections (empty_cache 1) both)
    ≡ record { size = 1; hits = 0; misses = 2; evictions = 1; coalesced = 0 }
unfolding snapshot sections begin_get finish_get evict_last bytes find insert erase contains
    eq_bytes less
both-snapshot = refl

sections-IsValid_example : IsValid (sections (empty_cache 1) both)
sections-IsValid_example = sections-IsValid 1 both built

finish_begin_hit_example :
    (begin_get b 4 2 (finish_get b 5 3 (returned (success a)) (sections (empty_cache 1) both)).0).1
    ≡ hit a
finish_begin_hit_example =
    finish_begin_hit b a 5 3 4 2 (sections (empty_cache 1) both) sections-IsValid_example
      (omega arith)

finish_failed_example :
    ((finish_get b 5 9 (threw_exception a) (sections (empty_cache 1) both)).1
      ≡ failure (make_error internal (bytes "cache_compute_exception") a))
    × ((finish_get b 5 9 (threw_exception a) (sections (empty_cache 1) both)).0.entries
        ≡ (sections (empty_cache 1) both).entries)
    × ((finish_get b 5 9 (threw_exception a) (sections (empty_cache 1) both)).0.lru
        ≡ (sections (empty_cache 1) both).lru)
    × (snapshot (finish_get b 5 9 (threw_exception a) (sections (empty_cache 1) both)).0
        ≡ snapshot (sections (empty_cache 1) both))
    × ((other : Bytes)
        → find other
            (finish_get b 5 9 (threw_exception a) (sections (empty_cache 1) both)).0.inflight
          ≡ (if eq_bytes b other
              then none
              else find other (sections (empty_cache 1) both).inflight))
    × ((begin_get b 10 4 (finish_get b 5 9 (threw_exception a) (sections (empty_cache 1) both)).0).1
        ≢ follows 3)
finish_failed_example =
    finish_failed b 5 9 10 4 3 (threw_exception a)
      (make_error internal (bytes "cache_compute_exception") a) (sections (empty_cache 1) both)
      (throws a)

-- Two calls of one key: the second waits for the first.
abbrev two_calls : List Event
two_calls = Event.calls a 0 0 ∷ Event.calls a 1 1 ∷ Event.computes a 5 2 threw_unknown ∷ []

events-OneLeader_example : OneLeader (events (init 1) two_calls)
events-OneLeader_example = events-OneLeader 1 two_calls
