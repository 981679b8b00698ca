-- ===== src/Lru/Promote.antt =====
-- PromoteObject, for an object in the cache: it comes to the front of the tier above, and every
-- object stays in the cache.
use nedomi.Prelude.{
  ℕ, ◌+◌, ◌-◌, ◌<◌, ◌≤◌, ◌≡◌, refl, inl, inr, some, ◌∷◌, arith, ◌==◌, Bool-cases, length,
}
use nedomi.ContainerList.{Node, front, move_to_front}
use nedomi.ContainerList.Laws.{All, Distinct, Has}
use nedomi.ContainerList.Front.{
  All-move_to_front, Distinct-move_to_front, Has-move_to_front, length-move_to_front,
  front-move_to_front,
}
use nedomi.Lru.{TieredLruCache, Element, cache_tiers, set_tier, unlink, place_front, finish_promote}
use nedomi.Lru.Valid.{Listed, set_tier_elim}
use nedomi.Lru.Moves.{Moves, move_front-Moves, move_front-sizes, size_of, at_self, at_ne}
use nedomi.Lru.Room.{IsSound}

module _ {O H : Type 0} (dec : Discrete H) (hash : O → H) where
  -- The object with the hash `h` is at the front of tier `t`.
  abbrev pub IsAtFront : TieredLruCache O H → ℕ → H → Type 0
  IsAtFront s t h = (n : Node O) × (front (s.tiers t) ≡ some n) × (hash n.value ≡ h)

  pub Moves-IsSound :
      {s s' : TieredLruCache O H}
      → IsSound dec hash s
      → Moves dec hash s s'
      → ((t : ℕ) → size_of s' t ≤ s.tier_list_size)
      → IsSound dec hash s'
  Moves-IsSound v m b = record {
    valid = m.valid;
    bounded = λ t. omega (arith, b t, m.size);
    sized = omega (arith, v.sized, m.size);
  }

  pub place_front-IsAtFront :
      (s : TieredLruCache O H) (t : ℕ) (o : O) → IsAtFront (place_front dec hash s t o) t (hash o)
  unfolding place_front front
  place_front-IsAtFront s t o =
      set_tier_elim (λ i l. i ≡ t → (n : Node O) × (front l ≡ some n) × (hash n.value ≡ hash o))
        s.tiers t (record { addr = s.next_addr; value = o } ∷ s.tiers t)
        (λ _. (record { addr = s.next_addr; value = o }, refl, refl)) t (λ ne. absurd (ne refl))
        refl

  module _ (s : TieredLruCache O H) (v : IsSound dec hash s) (o : O) (el : Element)
      (e : s.lookup (hash o) ≡ some el) where
    in_tier : Has hash el.list_elem (hash o) (s.tiers el.list_tier)
    in_tier = (v.valid.located (hash o) el e).0

    pub in_range : el.list_tier < cache_tiers
    in_range = (v.valid.located (hash o) el e).1

    -- The first tier: the object comes to its front.
    unfoldable pub reordered : TieredLruCache O H
    reordered = record s { tiers = set_tier s.tiers 0 (move_to_front el.list_elem (s.tiers 0)) }

    module _ (top : el.list_tier ≡ 0) where
      here : Has hash el.list_elem (hash o) (s.tiers 0)
      here = rw top at in_tier

      pub reordered-Moves : Moves dec hash s reordered
      unfolding reordered
      reordered-Moves = record {
        valid = record {
          listed = λ t.
              set_tier_elim (λ i l. All (Listed dec hash s i) l) s.tiers 0 _
                (All-move_to_front hash el.list_elem (hash o) (s.tiers 0) here (Listed dec hash s 0)
                  (v.valid.listed 0))
                t (λ _. v.valid.listed t);
          located = λ k q f.
              let (m, b) = v.valid.located k q f in
              (
                set_tier_elim (λ i l. i ≡ q.list_tier → Has hash q.list_elem k l) s.tiers 0 _
                    (λ z.
                      Has-move_to_front hash el.list_elem (hash o) (s.tiers 0) here
                        (v.valid.distinct 0) q.list_elem k (rw z m))
                    q.list_tier (λ _ _. m) refl,
                b,
              );
          fresh = λ t.
              set_tier_elim (λ i l. All (λ n. n.addr < s.next_addr) l) s.tiers 0 _
                (All-move_to_front hash el.list_elem (hash o) (s.tiers 0) here
                  (λ n. n.addr < s.next_addr) (v.valid.fresh 0))
                t (λ _. v.valid.fresh t);
          distinct = λ t.
              set_tier_elim (λ _ l. Distinct l) s.tiers 0 _
                (Distinct-move_to_front hash el.list_elem (hash o) (s.tiers 0) here
                  (v.valid.distinct 0))
                t (λ _. v.valid.distinct t);
        };
        same = λ _. refl;
        size = refl;
        removals = refl;
        cfg = refl;
        removers = refl;
      }

      pub reordered-IsSound : IsSound dec hash reordered
      unfolding reordered
      reordered-IsSound = Moves-IsSound v reordered-Moves λ t.
          set_tier_elim (λ _ l. length l ≤ s.tier_list_size) s.tiers 0 _
            (omega (
              arith,
              length-move_to_front hash el.list_elem (hash o) (s.tiers 0) here (v.valid.distinct 0),
              v.bounded 0,
            ))
            t (λ _. v.bounded t)

      pub reordered-IsAtFront : IsAtFront reordered 0 (hash o)
      unfolding reordered
      reordered-IsAtFront =
          front-move_to_front hash el.list_elem (hash o) (s.tiers 0) here (v.valid.distinct 0)

    module _ (upper : ℕ) (below : el.list_tier ≡ upper + 1) where
      pub finish_promote_lem :
          (u : TieredLruCache O H)
          → u.lookup (hash o) ≡ some el
          → finish_promote dec hash u el.list_tier o
            ≡ place_front dec hash (unlink dec hash u el.list_tier el.list_elem) upper o
      unfolding finish_promote
      finish_promote_lem u q =
          let e' : el.list_tier - 1 ≡ upper = omega arith in rw (q, finish_promote) (rw e' refl)

      -- There is space in the upper tier.
      pub risen-IsSound :
          size_of s upper < s.tier_list_size
          → IsSound dec hash
              (place_front dec hash (unlink dec hash s el.list_tier el.list_elem) upper o)
      risen-IsSound free =
          Moves-IsSound v
            (move_front-Moves dec hash s v.valid el.list_tier el.list_elem upper o e
              (omega (arith, in_range)))
            λ t. elim (Bool-cases (upper == t)) [
              | inl q ↦
                  let q' : upper ≡ t = ground arith in
                  rw (← q') (
                    omega (
                      arith,
                      move_front-sizes dec hash s v.valid el.list_tier el.list_elem upper o e
                          (omega (arith, in_range)) upper,
                      at_self upper,
                    ))
              | inr q ↦ omega (
                arith,
                move_front-sizes dec hash s v.valid el.list_tier el.list_elem upper o e
                    (omega (arith, in_range)) t,
                at_ne upper t (ground arith),
                v.bounded t,
              )
            ]
