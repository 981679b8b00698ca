-- ===== src/Lru/Shift.antt =====
-- The loop of freeSpaceInLastList that moves front elements upwards to a tier with free space.
use nedomi.Prelude.{
  ℕ, zero, suc, ◌+◌, ◌-◌, ◌<◌, ◌≤◌, ◌≡◌, refl, ap, ◌∙◌, inl, inr, none, some, List, [], ◌∷◌, arith,
  ltb, Bool-cases,
}
use nedomi.ContainerList.{Node, front}
use nedomi.Lru.{TieredLruCache, cache_tiers, unlink, place_back, free_list, move_up, move_all_up}
use nedomi.Lru.Valid.{IsValid, Listed}
use nedomi.Lru.Moves.{
  Moves, Moves-refl, Moves-trans, move_back-Moves, move_back-sizes, size_of, at, at_ne,
}

module _ {O H : Type 0} (dec : Discrete H) (hash : O → H) where
  -- In a valid cache the front element is in the map, so the round moves it.
  move_up_round :
      (s : TieredLruCache O H) (i : ℕ) (n : Node O) (l : List (Node O))
      → Listed dec hash s i n
      → front (s.tiers i) ≡ some n
      → move_up dec hash (n ∷ l) s i
        ≡ place_back dec hash (unlink dec hash s i n.addr) (i - 1) n.value
  unfolding move_up
  move_up_round s i n l e q = rw (q, move_up, e)

  move_up_nonempty :
      (s : TieredLruCache O H) (i : ℕ) (n : Node O) (l : List (Node O))
      → Listed dec hash s i n
      → s.tiers i ≡ n ∷ l
      → move_up dec hash (s.tiers i) s i
        ≡ place_back dec hash (unlink dec hash s i n.addr) (i - 1) n.value
  unfolding front
  move_up_nonempty s i n l e q =
      ap (λ m. move_up dec hash m s i) q ∙ move_up_round s i n l e (ap front q)

  -- What a sequence of rounds does, for the tiers from `i` upwards to `i - k`.
  pub record Shifted (s s' : TieredLruCache O H) (i k : ℕ) : Type 0 where
    pub moves : Moves dec hash s s'
    pub sizes : (j : ℕ) → size_of s' j + at i j ≡ size_of s j + at (i - k) j

  move_up-Shifted :
      (s : TieredLruCache O H) (i : ℕ)
      → IsValid dec hash s
      → i < cache_tiers
      → 0 < size_of s i
      → Shifted s (move_up dec hash (s.tiers i) s i) i 1
  move_up-Shifted s i v b p = go (s.tiers i) refl
    where
      go : (l : List (Node O)) → s.tiers i ≡ l → Shifted s (move_up dec hash (s.tiers i) s i) i 1
      go [] q = absurd (ground (arith, q))
      go (n ∷ l) q =
          let e : Listed dec hash s i n = (rw q at (v.listed i)).0 in
          rw (move_up_nonempty s i n l e q) (record {
            moves = move_back-Moves dec hash s v i n.addr (i - 1) n.value e (omega arith);
            sizes = move_back-sizes dec hash s v i n.addr (i - 1) n.value e (omega arith);
          })

  -- The loop, over tiers that are not empty.
  pub move_all_up-Shifted :
      (k : ℕ) (s : TieredLruCache O H) (i : ℕ)
      → IsValid dec hash s
      → i < cache_tiers
      → k ≤ i
      → ((j : ℕ) → i - k < j → j ≤ i → 0 < size_of s j)
      → Shifted s (move_all_up dec hash k s i) i k
  unfolding move_all_up
  move_all_up-Shifted zero s i v b le full = record {
    moves = Moves-refl dec hash v;
    sizes = λ j. let e : i - 0 ≡ i = omega arith in rw e;
  }
  move_all_up-Shifted (suc k) s i v b le full =
      let one = move_up-Shifted s i v b (full i (omega arith) (omega arith)) in
      let rest =
        move_all_up-Shifted k (move_up dec hash (s.tiers i) s i) (i - 1) one.moves.valid
          (omega arith) (omega arith)
          (λ j p q.
            omega
              (arith, one.sizes j, full j (omega arith) (omega arith), at_ne i j (omega arith))) in
      record {
        moves = Moves-trans dec hash one.moves rest.moves;
        sizes = λ j.
            let e : i - suc k ≡ i - 1 - k = omega arith in
            rw e (omega (arith, one.sizes j, rest.sizes j));
      }

  -- The tier that the search finds has free space, and those between it and `i` have none.
  pub free_list-some :
      (s : TieredLruCache O H) (i f : ℕ)
      → free_list dec hash s i ≡ some f
      → (f < i)
        × (size_of s f < s.tier_list_size)
        × ((j : ℕ) → f < j → j < i → s.tier_list_size ≤ size_of s j)
  unfolding free_list
  free_list-some s zero f e = absurd (cc)
  free_list-some s (suc i) f e = elim (Bool-cases (ltb (size_of s i) s.tier_list_size)) [
    | inl free ↦
        let q : i ≡ f = ground arith in rw (← q) (omega arith, ground arith, λ j p r. omega arith)
    | inr full ↦
        let (a, b, c) = free_list-some s i f (ground arith) in
        (
          omega arith,
          b,
          λ j p r. elim (Bool-cases (ltb j i)) [
            | inl below ↦ c j p (ground arith)
            | inr top ↦ let e' : j ≡ i = ground arith in rw e' (ground arith)
          ],
        )
  ]

  -- No tier below `i` has free space.
  pub free_list-none :
      (s : TieredLruCache O H) (i : ℕ)
      → free_list dec hash s i ≡ none
      → (j : ℕ) → j < i
      → s.tier_list_size ≤ size_of s j
  unfolding free_list
  free_list-none s zero e j b = absurd (omega arith)
  free_list-none s (suc i) e j b = elim (Bool-cases (ltb (size_of s i) s.tier_list_size)) [
    | inl free ↦ absurd (ground arith)
    | inr full ↦ elim (Bool-cases (ltb j i)) [
      | inl below ↦ free_list-none s i (ground arith) j (ground arith)
      | inr top ↦ let e' : j ≡ i = ground arith in rw e' (ground arith)
    ]
  ]
