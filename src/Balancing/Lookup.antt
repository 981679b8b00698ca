-- ===== src/Balancing/Lookup.antt =====
-- Get on the rings of ketama and legacyketama.
use nedomi.Prelude.{
  ℕ, zero, suc, ◌+◌, ◌-◌, ◌<◌, ◌≤◌, get_or, ◌≡◌, refl, sym, ◌∙◌, ◌⊎◌, true, false, String, some,
  List, [], ◌∷◌, ◌++◌, ltb, leb, ◌==◌, length, map, arith, Bool-cases, inl, inr, get_elem?,
  length-append, length-map, take, append-nil, append_assoc,
}
use nedomi.Balancing.{UpstreamAddress}
use nedomi.Balancing.Search.{search, find, reaches, IsFirst, IsRising, find-IsFirst, search-IsFirst}
use nedomi.Balancing.Ring.{
  ContinuumPoint, get_ketama_hash, seeker, ketama_get, legacy_get, append_capped,
}

get_elem?-some :
    {A : Type 0} (l : List A) (i : ℕ) → i < length l → (x : A) × (get_elem? l i ≡ some x)
get_elem?-some [] i b = absurd (omega arith)
get_elem?-some (x ∷ l) zero b = (x, refl)
get_elem?-some (x ∷ l) (suc i) b = get_elem?-some l i (omega arith)

abbrev addresses : List ContinuumPoint → List UpstreamAddress
addresses ring = map (λ c. c.address) ring

abbrev points : List ContinuumPoint → List ℕ
points ring = map (λ c. c.point) ring

-- The points of a ring do not rise.
unfoldable pub IsFalling : List ContinuumPoint → Type 0
IsFalling ring =
    (a b : ℕ)
    → a ≤ b
    → b < length ring
    → get_or (map (λ c. c.point) ring) b 0 ≤ get_or (map (λ c. c.point) ring) a 0

-- The test of ketama says what is below the hash.
seeker-true :
    (ring : List ContinuumPoint) (point i : ℕ)
    → seeker ring point i ≡ true
    → get_or (points ring) i 0 < point
unfolding seeker
seeker-true ring point i t = ground arith

seeker-false :
    (ring : List ContinuumPoint) (point i : ℕ)
    → seeker ring point i ≡ false
    → point ≤ get_or (points ring) i 0
unfolding seeker
seeker-false ring point i t = ground arith

seeker-IsRising :
    (ring : List ContinuumPoint) (point : ℕ)
    → IsFalling ring
    → IsRising (seeker ring point) (length ring)
unfolding IsFalling IsRising seeker
seeker-IsRising ring point falls a b le lt t = ground (arith, falls a b le lt)

module _ (md5 : String → ℕ → ℕ) (ring : List ContinuumPoint) (path : String)
    (filled : 0 < length ring) where
  -- ketama, on a ring that is not empty and whose points do not rise: Get returns the address of the
  -- first point below the hash of the path, or where there is none that of the first point of the
  -- ring.
  pub ketama_get_below :
      IsFalling ring
      → (i : ℕ) × (u : UpstreamAddress) × (ketama_get md5 ring path ≡ some u)
        × (get_elem? (map (λ c. c.address) ring) i ≡ some u)
        × (((get_or (map (λ c. c.point) ring) i 0 < get_ketama_hash md5 path 0)
              × ((m : ℕ)
                  → m < i
                  → get_ketama_hash md5 path 0 ≤ get_or (map (λ c. c.point) ring) m 0))
            ⊎ ((i ≡ 0)
                × ((m : ℕ)
                    → m < length ring
                    → get_ketama_hash md5 path 0 ≤ get_or (map (λ c. c.point) ring) m 0)))
  unfolding ketama_get
  ketama_get_below falls =
      let hash = get_ketama_hash md5 path 0 in
      let test = seeker ring (get_ketama_hash md5 path 0) in
      let n = length ring in
      let ne : (n == 0) ≡ false = ground arith in
      let r = search-IsFirst n test (seeker-IsRising ring hash falls) in
      elim (Bool-cases (ltb (search n test) n)) [
        | inl b ↦
            let (u, e) =
              get_elem?-some (addresses ring) (search n test)
                (ground (arith, length-map ring (λ c. c.address))) in
            (
              search n test,
              u,
              rw (ne, b) e,
              e,
              inl (
                seeker-true ring hash (search n test) (r.found (ground arith)),
                λ m p. seeker-false ring hash m (r.least m (omega arith) p),
              ),
            )
        | inr b ↦
            let (u, e) =
              get_elem?-some (addresses ring) 0 (omega (arith, length-map ring (λ c. c.address))) in
            (
              0,
              u,
              rw (ne, b) e,
              e,
              inr (
                refl,
                λ m p. seeker-false ring hash m (r.least m (omega arith) (ground (arith, r.high))),
              ),
            )
      ]

  -- legacyketama, on a ring that is not empty and does not fall: Get returns the address of the
  -- first point that is not below the hash of the path's encoded digest, or where there is none
  -- that of the last point of the ring.
  pub legacy_get-reaches :
      (hex : String → String)
      → IsRising
          (reaches (map (λ c. c.point) ring) (get_ketama_hash md5 (hex path) 0))
          (length ring - 1)
      → (i : ℕ) × (u : UpstreamAddress) × (legacy_get md5 hex ring path ≡ some u)
        × (get_elem? (map (λ c. c.address) ring) i ≡ some u)
        × ((m : ℕ)
            → m < i
            → reaches (map (λ c. c.point) ring) (get_ketama_hash md5 (hex path) 0) m ≡ false)
        × ((reaches (map (λ c. c.point) ring) (get_ketama_hash md5 (hex path) 0) i ≡ true)
            ⊎ (i ≡ length ring - 1))
  unfolding legacy_get
  legacy_get-reaches hex rising =
      let point = get_ketama_hash md5 (hex path) 0 in
      let test = reaches (points ring) point in
      let same = length-map ring (λ c. c.point) in
      let ne : (length ring == 0) ≡ false = ground arith in
      let r : IsFirst test 0 (length (points ring) - 1) (find (points ring) point) =
        find-IsFirst (points ring) point (omega (arith, same)) (rw same rising) in
      let i = find (points ring) point in
      let inside : i < length ring = omega (arith, r.high, same) in
      let b : ltb i (length ring) ≡ true = ground arith in
      let (u, e) =
        get_elem?-some (addresses ring) i
          (omega (arith, inside, length-map ring (λ c. c.address))) in
      (
        i,
        u,
        rw (ne, b) e,
        e,
        λ m p. r.least m (omega arith) p,
        elim (Bool-cases (ltb i (length (points ring) - 1))) [
          | inl t ↦ inl (r.found (ground arith))
          | inr t ↦ inr (ground (arith, r.high, same))
        ],
      )

-- Where the ring has room for `k` more points, legacyketama appends the first `k` of the points and
-- drops the others.
append_capped-take :
    (cs ring : List ContinuumPoint) (k max_points : ℕ)
    → length ring + k ≡ max_points
    → append_capped max_points ring cs ≡ ring ++ take k cs
unfolding append_capped
append_capped-take [] ring zero max_points b = sym (append-nil ring)
append_capped-take [] ring (suc k) max_points b = sym (append-nil ring)
append_capped-take (c ∷ cs) ring zero max_points b =
    let full : leb max_points (length ring) ≡ true = ground arith in
    rw full (append_capped-take cs ring zero max_points b)
append_capped-take (c ∷ cs) ring (suc k) max_points b =
    let room : leb max_points (length ring) ≡ false = ground arith in
    rw room (
      append_capped-take cs (ring ++ c ∷ []) k max_points
        (omega (arith, length-append ring (c ∷ [])))
      ∙ append_assoc ring (c ∷ []) (take k cs))
