-- ===== src/Lru/Room.antt =====
-- The space that AddObject makes in the last tier: by a shift upwards, or by an eviction.
use nedomi.Prelude.{
  ℕ, ◌+◌, ◌-◌, ◌<◌, ◌≤◌, ◌≡◌, refl, ap, inl, inr, true, false, none, some, [], ◌∷◌, ◌++◌, arith,
  length, ltb, leb, ◌==◌, Bool-cases, Option-cases, ite, ok,
}
use nedomi.ContainerList.{Node, back}
use nedomi.ContainerList.Laws.{back-Has, back-none, length-remove}
use nedomi.Lru.{
  TieredLruCache, cache_tiers, last, unlink, forget, free_list, move_all_up, evict, make_room,
}
use nedomi.Lru.Valid.{IsValid, Has-Listed, detach, detach-IsValid}
use nedomi.Lru.Moves.{Moves, Moves-refl, is_some-update, is_cached, size_of, at, at_self, at_ne}
use nedomi.Lru.Shift.{move_all_up-Shifted, free_list-some, free_list-none}

module _ {O H : Type 0} (dec : Discrete H) (hash : O → H) where
  -- The invariant, and no tier over its size, which is not 0.
  pub record IsSound (s : TieredLruCache O H) : Type 0 where
    pub valid : IsValid dec hash s
    pub bounded : (t : ℕ) → size_of s t ≤ s.tier_list_size
    pub sized : 0 < s.tier_list_size

  -- The outcome of making room: space in the last tier, and no tier over its size.
  pub record HasRoom (s s' : TieredLruCache O H) : Type 0 where
    pub valid : IsValid dec hash s'
    pub bounded : (t : ℕ) → size_of s' t ≤ s.tier_list_size
    pub room : size_of s' last < s.tier_list_size
    pub size : s'.tier_list_size ≡ s.tier_list_size
    pub cfg : s'.cfg ≡ s.cfg

  module _ (s : TieredLruCache O H) (v : IsSound s) where
    shifted-HasRoom :
        (f : ℕ)
        → f < last
        → size_of s f < s.tier_list_size
        → s.tier_list_size ≤ size_of s last
        → ((j : ℕ) → f < j → j < last → s.tier_list_size ≤ size_of s j)
        → HasRoom s (move_all_up dec hash (last - f) s last)
          × Moves dec hash s (move_all_up dec hash (last - f) s last)
    shifted-HasRoom f b free full between =
        let e : last - (last - f) ≡ f = omega arith in
        let sh =
          move_all_up-Shifted dec hash (last - f) s last v.valid (omega arith) (omega arith)
            λ j p q. elim (Bool-cases (ltb j last)) [
              | inl below ↦ omega (arith, between j (omega arith) (ground arith), v.sized)
              | inr top ↦ let q' : j ≡ last = ground arith in rw q' (omega (arith, v.sized))
            ] in
        let sizes : (j : ℕ)
            → size_of (move_all_up dec hash (last - f) s last) j + at last j
              ≡ size_of s j + at f j =
          λ j. rw e at (sh.sizes j) in
        (
          record {
            valid = sh.moves.valid;
            bounded = λ t. elim (Bool-cases (f == t)) [
              | inl here ↦
                  let q : f ≡ t = ground arith in rw (← q) (omega (arith, sizes f, at_self f))
              | inr other ↦ omega (arith, sizes t, v.bounded t, at_ne f t (ground arith))
            ];
            room =
                omega (arith, sizes last, v.bounded last, at_self last, at_ne f last (omega arith));
            size = sh.moves.size;
            cfg = sh.moves.cfg;
          },
          sh.moves,
        )

    -- With space in some tier nothing is evicted.
    pub make_room-room :
        (t : ℕ)
        → t < cache_tiers
        → size_of s t < s.tier_list_size
        → (s' : TieredLruCache O H) × (make_room dec hash s ≡ ok s')
          × HasRoom s s'
          × Moves dec hash s s'
    unfolding make_room
    make_room-room t b free = elim (Bool-cases (leb s.tier_list_size (size_of s last))) [
      | inr space ↦ (
        s,
        rw space,
        record {
          valid = v.valid;
          bounded = v.bounded;
          room = ground arith;
          size = refl;
          cfg = refl;
        },
        Moves-refl dec hash v.valid,
      )
      | inl full ↦
          let le : s.tier_list_size ≤ size_of s last = ground arith in
          let ne : (size_of s last == 0) ≡ false = ground (arith, v.sized) in
          elim (Option-cases (free_list dec hash s last)) [
            | inl e ↦ absurd (elim (Bool-cases (t == last)) [
              | inl q ↦ let q' : t ≡ last = ground arith in let u = rw q' at free in omega arith
              | inr q ↦ omega (arith, free_list-none dec hash s last e t (ground arith))
            ])
            | inr (f, e) ↦
                let (p, q, between) = free_list-some dec hash s last f e in
                let (r, m) = shifted-HasRoom f p q le between in
                (move_all_up dec hash (last - f) s last, rw (full, ne, e), r, m)
          ]
    ]

    -- The state after the eviction of the element `n` of the last tier.
    pub evicted : Node O → TieredLruCache O H
    evicted n = record (detach dec hash s last n.addr (hash n.value)) {
      removals = s.removals ++ n.value ∷ [];
    }

    -- The eviction of `n`.
    pub record Evicts (n : Node O) (s' : TieredLruCache O H) : Type 0 where
      pub removals : s'.removals ≡ s.removals ++ n.value ∷ []
      pub gone : (h : H) → is_cached s' h ≡ ite (dec h (hash n.value)) false (is_cached s h)

    evicted-HasRoom :
        (n : Node O)
        → back (s.tiers last) ≡ some n
        → s.lookup (hash n.value) ≡ some (record { list_elem = n.addr; list_tier = last })
        → HasRoom s (evicted n) × Evicts n (evicted n)
    unfolding evicted detach unlink forget
    evicted-HasRoom n b e =
        let d = detach-IsValid dec hash s v.valid last n.addr (hash n.value) e in
        let shorter =
          length-remove hash n.addr (hash n.value) (s.tiers last) (v.valid.distinct last)
            (back-Has hash (s.tiers last) n b) in
        (
          record {
            valid = record {
              listed = d.listed;
              located = d.located;
              fresh = d.fresh;
              distinct = d.distinct;
            };
            bounded = λ t. ground (arith, v.bounded t, v.bounded last, shorter);
            room = omega (arith, v.bounded last, shorter);
            size = refl;
            cfg = refl;
          },
          record { removals = refl; gone = λ h. is_some-update dec s.lookup (hash n.value) none h },
        )

    -- With every tier full the last element of the last tier is evicted.
    pub make_room-full :
        ((t : ℕ) → t < cache_tiers → s.tier_list_size ≤ size_of s t)
        → (n : Node O) × (s' : TieredLruCache O H) × (back (s.tiers last) ≡ some n)
          × (make_room dec hash s ≡ ok s')
          × HasRoom s s'
          × Evicts n s'
    unfolding make_room evict
    make_room-full full =
        let le : s.tier_list_size ≤ size_of s last = full last (omega arith) in
        let le' : leb s.tier_list_size (size_of s last) ≡ true = ground arith in
        let ne : (size_of s last == 0) ≡ false = ground (arith, v.sized) in
        elim (Option-cases (free_list dec hash s last)) [
          | inr (f, e) ↦
              let (p, q, _) = free_list-some dec hash s last f e in
              absurd (omega (arith, q, full f (omega arith)))
          | inl e ↦ elim (Option-cases (back (s.tiers last))) [
            | inl b ↦ absurd (omega (arith, ap (length {0}) (back-none (s.tiers last) b), v.sized))
            | inr (n, b) ↦
                let found =
                  Has-Listed dec hash s v.valid last n.addr (hash n.value)
                    (back-Has hash (s.tiers last) n b) in
                let (r, w) = evicted-HasRoom n b found in
                (
                  n,
                  evicted n,
                  b,
                  rw (le', ne, e) (rw (b, evict) (unfold evicted detach in refl)),
                  r,
                  w,
                )
          ]
        ]
