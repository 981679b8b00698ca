-- ===== src/Balancing.antt =====
-- The balancing algorithms, upstream/balancing: round robin, the two random ones, ketama, its legacy
-- form and rendezvous.
pub mod Weighted
pub mod Fair
pub mod Ring
pub mod Search
pub mod Lookup
pub mod Rendezvous
pub mod Highest
mod Tests
use nedomi.Prelude.{
  ℕ, zero, suc, ◌+◌, ◌-◌, ◌*◌, ◌/◌, ◌%◌, ◌^◌, Bool, true, false, String, Option, none, some, List,
  [], ◌∷◌, ◌++◌, ltb, leb, ◌==◌, if◌then◌else◌, length, get_elem?,
}

-- The fields of types.UpstreamAddress that the algorithms read.
pub record UpstreamAddress : Type 0 where
  pub host : String
  pub hostname : String
  pub port : String
  pub weight : ℕ

-- unweighted/roundrobin; `counter` is a uint32
pub record RoundRobin : Type 0 where
  pub buckets : List UpstreamAddress
  pub counter : ℕ

unfoldable pub round_robin_set : RoundRobin → List UpstreamAddress → RoundRobin
round_robin_set rr buckets = record { buckets = buckets; counter = 0 }

-- Get: `none` is the error for no addresses, and the atomic addition wraps around.
unfoldable pub round_robin_get : RoundRobin → RoundRobin × Option UpstreamAddress
round_robin_get rr = if length rr.buckets == 0 then (rr, none) else (
  record rr { counter = (rr.counter + 1) % 2 ^ 32 },
  get_elem? rr.buckets
      (((rr.counter + 1) % 2 ^ 32 + 2 ^ 32 - 1) % 2 ^ 32 % (length rr.buckets % 2 ^ 32)),
)

-- `k` calls of Get in a row.
unfoldable pub round_robin_run : RoundRobin → ℕ → RoundRobin × List (Option UpstreamAddress)
unfolding round_robin_get
round_robin_run rr zero = (rr, [])
round_robin_run rr (suc k) =
    let (rr', a) = round_robin_get rr in let (rr'', as') = round_robin_run rr' k in (rr'', a ∷ as')

-- unweighted/random, Get: `intn n` is the next number below `n` of the random source.
unfoldable pub random_get : (ℕ → ℕ) → List UpstreamAddress → Option UpstreamAddress
random_get intn buckets =
    if length buckets == 0 then none else get_elem? buckets (intn (length buckets))
