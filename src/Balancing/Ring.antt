-- ===== src/Balancing/Ring.antt =====
-- The rings of upstream/balancing/weighted/ketama and legacyketama. `md5` gives the bytes of a
-- digest, and `sort` is sort.Sort by falling or, in legacyketama, by rising point.
use nedomi.Prelude.{
  ℕ, zero, suc, ◌+◌, ◌-◌, ◌*◌, ◌/◌, ◌%◌, ◌^◌, Bool, String, Option, none, List, [], ◌∷◌, ◌++◌, ltb,
  leb, not, ◌==◌, if◌then◌else◌, ◌&&◌, length, get_or, map, Outcome, ok, panic, get_elem?,
}
use nedomi.Balancing.{UpstreamAddress}
use nedomi.Balancing.Search.{search, find}

abbrev pub points_per_server : ℕ
points_per_server = 160

abbrev pub points_per_hash : ℕ
points_per_hash = 4

pub record ContinuumPoint : Type 0 where
  pub address : UpstreamAddress
  pub point : ℕ

-- The bytes of a digest are ored at different places of a uint32, which is a sum.
unfoldable pub get_ketama_hash : (String → ℕ → ℕ) → String → ℕ → ℕ
get_ketama_hash md5 key alignment =
    let digest = md5 key in
    digest (3 + alignment * 4) * 2 ^ 24
    + digest (2 + alignment * 4) * 2 ^ 16
    + digest (1 + alignment * 4) * 2 ^ 8
    + digest (alignment * 4)

-- The sum of the weights, a uint32.
unfoldable pub total_weight : ℕ → List UpstreamAddress → ℕ
total_weight total [] = total
total_weight total (u ∷ us) = total_weight ((total + u.weight) % 2 ^ 32) us

-- The points of ketama for an address and a hash source: `x` counts up to pointsPerHash, for `k`
-- more points.
unfoldable pub hash_points :
    (String → ℕ → ℕ) → UpstreamAddress → String → ℕ → ℕ → List ContinuumPoint
unfolding get_ketama_hash
hash_points md5 u source zero x = []
hash_points md5 u source (suc k) x =
    record { address = u; point = get_ketama_hash md5 source x }
    ∷ hash_points md5 u source k (x + 1)

-- The sources from `i` on, `k` of them; `name u i` is the string that Sprintf makes.
unfoldable pub source_points :
    (String → ℕ → ℕ)
    → (UpstreamAddress → ℕ → String)
    → UpstreamAddress
    → ℕ
    → ℕ
    → List ContinuumPoint
unfolding hash_points
source_points md5 name u zero i = []
source_points md5 name u (suc k) i =
    hash_points md5 u (name u i) points_per_hash 0 ++ source_points md5 name u k (i + 1)

unfoldable pub server_points :
    (String → ℕ → ℕ)
    → (UpstreamAddress → ℕ → String)
    → ℕ
    → ℕ
    → List UpstreamAddress
    → List ContinuumPoint
unfolding source_points
server_points md5 name max_points total [] = []
server_points md5 name max_points total (u ∷ us) =
    let points = u.weight * max_points % 2 ^ 32 / total in
    source_points md5 name u (points / points_per_hash) 0
    ++ server_points md5 name max_points total us

module _ (md5 : String → ℕ → ℕ) (name : UpstreamAddress → ℕ → String)
    (sort : List ContinuumPoint → List ContinuumPoint) where
  -- ketama, Set: the ring. With addresses of no weight the division panics.
  unfoldable pub ketama_set : List UpstreamAddress → Outcome (List ContinuumPoint)
  unfolding total_weight server_points
  ketama_set us =
      let max_points = length us % 2 ^ 32 * points_per_server % 2 ^ 32 in
      let total = total_weight 0 us in
      if not (length us == 0) && (total == 0)
      then panic []
      else ok (sort (server_points md5 name max_points total us))

-- The test that ketama gives to sort.Search.
unfoldable pub seeker : List ContinuumPoint → ℕ → ℕ → Bool
seeker ring point i = ltb (get_or (map (λ c. c.point) ring) i 0) point

-- ketama, Get
unfoldable pub ketama_get : (String → ℕ → ℕ) → List ContinuumPoint → String → Option UpstreamAddress
unfolding get_ketama_hash search seeker
ketama_get md5 ring path =
    if length ring == 0
    then none
    else let idx = search (length ring) (seeker ring (get_ketama_hash md5 path 0)) in
      get_elem? (map (λ c. c.address) ring) (if ltb idx (length ring) then idx else 0)

-- legacyketama, Get; `hex` is the encoding of the path's digest.
unfoldable pub legacy_get :
    (String → ℕ → ℕ) → (String → String) → List ContinuumPoint → String → Option UpstreamAddress
unfolding get_ketama_hash find
legacy_get md5 hex ring path =
    if length ring == 0
    then none
    else let idx = find (map (λ c. c.point) ring) (get_ketama_hash md5 (hex path) 0) in
      get_elem? (map (λ c. c.address) ring) (if ltb idx (length ring) then idx else 0)

-- The append of legacyketama: a point is dropped once the ring has `max_points`.
unfoldable pub append_capped : ℕ → List ContinuumPoint → List ContinuumPoint → List ContinuumPoint
append_capped max_points ring [] = ring
append_capped max_points ring (c ∷ cs) =
    append_capped max_points (if leb max_points (length ring) then ring else ring ++ c ∷ []) cs

-- The points of legacyketama for the addresses, before the cap. The count is a uint32.
unfoldable pub legacy_points :
    (String → ℕ → ℕ)
    → (UpstreamAddress → ℕ → String)
    → ℕ
    → ℕ
    → List UpstreamAddress
    → List ContinuumPoint
unfolding source_points
legacy_points md5 name max_points total [] = []
legacy_points md5 name max_points total (u ∷ us) =
    let points = u.weight * max_points % 2 ^ 32 / total in
    let rounded = (points + (points_per_hash - points % points_per_hash)) % 2 ^ 32 in
    source_points md5 name u (rounded / points_per_hash) 0
    ++ legacy_points md5 name max_points total us

module _ (md5 : String → ℕ → ℕ) (name : UpstreamAddress → ℕ → String)
    (sort : List ContinuumPoint → List ContinuumPoint) where
  -- legacyketama, Set: the ring.
  unfoldable pub legacy_set : List UpstreamAddress → Outcome (List ContinuumPoint)
  unfolding total_weight legacy_points append_capped
  legacy_set us =
      let max_points = length us % 2 ^ 32 * points_per_server % 2 ^ 32 in
      let total = total_weight 0 us in
      if not (length us == 0) && (total == 0)
      then panic []
      else ok (sort (append_capped max_points [] (legacy_points md5 name max_points total us)))
