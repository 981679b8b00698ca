-- ===== src/Balancing/Tests.antt =====
-- Two addresses, and a ring of two points.
use nedomi.Prelude.{
  ℕ, zero, suc, ◌≡◌, ◌<◌, ◌≤◌, get_or, ◌+◌, ◌-◌, ◌*◌, ◌/◌, ◌^◌, ltb, ◌⊎◌, refl, String, true, false,
  some, List, [], ◌∷◌, arith, length, map, get_elem?,
}
use nedomi.Balancing.{UpstreamAddress, RoundRobin, round_robin_set, round_robin_run}
use nedomi.Balancing.Weighted.{random_set, weighted_get, sum_weights, Owns, weighted_get-Owns}
use nedomi.Balancing.Fair.{round_robin_run-round_robin_set}
use nedomi.Balancing.Search.{reaches, IsRising}
use nedomi.Balancing.Ring.{ContinuumPoint, get_ketama_hash, ketama_get, legacy_get}
use nedomi.Balancing.Rendezvous.{
  Floats, float_weight, percents, multipliers, rendezvous_set, score, highest, rendezvous_get,
}
use nedomi.Balancing.Highest.{IsStrict, IsHighest, rendezvous_get-rendezvous_set}
use nedomi.Balancing.Lookup.{IsFalling, ketama_get_below, legacy_get-reaches}

abbrev first : UpstreamAddress
first = record { host = "a:80"; hostname = "a"; port = "80"; weight = 1 }

abbrev second : UpstreamAddress
second = record { host = "b:80"; hostname = "b"; port = "80"; weight = 2 }

abbrev both : List UpstreamAddress
both = first ∷ second ∷ []

abbrev unset : RoundRobin
unset = record { buckets = []; counter = 5 }

round_robin_run-round_robin_set_example :
    (round_robin_run (round_robin_set unset both) (length both)).1 ≡ map some both
round_robin_run-round_robin_set_example = round_robin_run-round_robin_set unset both (omega arith)

abbrev unsorted : List UpstreamAddress → List UpstreamAddress
unsorted l = l

abbrev draw : ℕ → ℕ
draw n = n - 1

total : sum_weights both ≡ 3
unfolding sum_weights
total = refl

weighted_get-Owns_example :
    (b : UpstreamAddress) × (weighted_get draw (random_set unsorted both) ≡ some b)
    × Owns (draw (sum_weights both)) both b
weighted_get-Owns_example =
    weighted_get-Owns unsorted draw both (omega (arith, total)) (omega (arith, total))
      (omega (arith, total))

-- The bytes of every digest are 0 but the last, which is 7.
abbrev md5 : String → ℕ → ℕ
md5 key zero = 7
md5 key (suc i) = 0

abbrev falling : List ContinuumPoint
falling = record { address = first; point = 9 } ∷ record { address = second; point = 5 } ∷ []

abbrev rising : List ContinuumPoint
rising = record { address = second; point = 5 } ∷ record { address = first; point = 9 } ∷ []

falling-IsFalling : IsFalling falling
unfolding IsFalling
falling-IsFalling zero zero p q = omega arith
falling-IsFalling zero (suc zero) p q = omega arith
falling-IsFalling (suc zero) zero p q = absurd (omega arith)
falling-IsFalling (suc zero) (suc zero) p q = omega arith
falling-IsFalling (suc (suc a)) b p q = absurd (omega arith)
falling-IsFalling zero (suc (suc b)) p q = absurd (omega arith)
falling-IsFalling (suc zero) (suc (suc b)) p q = absurd (omega arith)

ketama_get_below_example :
    (i : ℕ) × (u : UpstreamAddress) × (ketama_get md5 falling "/" ≡ some u)
    × (get_elem? (map (λ c. c.address) falling) i ≡ some u)
    × (((get_or (map (λ c. c.point) falling) i 0 < get_ketama_hash md5 "/" 0)
          × ((m : ℕ) → m < i → get_ketama_hash md5 "/" 0 ≤ get_or (map (λ c. c.point) falling) m 0))
        ⊎ ((i ≡ 0)
            × ((m : ℕ)
                → m < length falling
                → get_ketama_hash md5 "/" 0 ≤ get_or (map (λ c. c.point) falling) m 0)))
ketama_get_below_example = ketama_get_below md5 falling "/" (omega arith) falling-IsFalling

abbrev hex : String → String
hex s = s

reaches_rises :
    IsRising
      (reaches (map (λ c. c.point) rising) (get_ketama_hash md5 (hex "/") 0))
      (length rising - 1)
unfolding IsRising reaches get_ketama_hash
reaches_rises zero zero p q e = e
reaches_rises (suc a) b p q e = absurd (omega arith)
reaches_rises zero (suc b) p q e = absurd (omega arith)

legacy_get-reaches_example :
    (i : ℕ) × (u : UpstreamAddress) × (legacy_get md5 hex rising "/" ≡ some u)
    × (get_elem? (map (λ c. c.address) rising) i ≡ some u)
    × ((m : ℕ)
        → m < i
        → reaches (map (λ c. c.point) rising) (get_ketama_hash md5 (hex "/") 0) m ≡ false)
    × ((reaches (map (λ c. c.point) rising) (get_ketama_hash md5 (hex "/") 0) i ≡ true)
        ⊎ (i ≡ length rising - 1))
legacy_get-reaches_example = legacy_get-reaches md5 rising "/" (omega arith) hex reaches_rises

-- Natural numbers for floats.
abbrev nat_floats : Floats ℕ
nat_floats = record {
  of_nat = λ n. n;
  add = λ a b. a + b;
  sub = λ a b. a - b;
  mul = λ a b. a * b;
  div = λ a b. a / b;
  pow = λ a b. a ^ b;
  gt = λ a b. ltb b a;
}

nat_floats-IsStrict : IsStrict nat_floats
nat_floats-IsStrict = record {
  irreflexive = λ a. ground arith;
  transitive = λ a b c p q. ground arith;
}

-- A digest that is the same for every key.
abbrev digest : String → ℕ
digest key = 7

highest_example :
    rendezvous_get nat_floats digest "/" (rendezvous_set nat_floats (first ∷ [])) ≡ some first
unfolding rendezvous_get rendezvous_set multipliers percents float_weight highest score
highest_example = refl

rendezvous_get-rendezvous_set_example :
    (map (λ b. b.address) (rendezvous_set nat_floats (first ∷ [])) ≡ first ∷ [])
    × IsHighest nat_floats digest "/"
        (rendezvous_set nat_floats (first ∷ []))
        (rendezvous_get nat_floats digest "/" (rendezvous_set nat_floats (first ∷ [])))
rendezvous_get-rendezvous_set_example =
    rendezvous_get-rendezvous_set nat_floats nat_floats-IsStrict digest "/" (first ∷ [])
