-- ===== src/Lru/Swap.antt =====
-- PromoteObject in whole: the swap with the last element of a full upper tier, and the theorem
-- over all the branches.
use nedomi.Prelude.{
  ℕ, ◌+◌, ◌-◌, ◌≤◌, ◌≡◌, refl, ap, ◌∙◌, inl, inr, false, some, arith, ◌==◌, ltb, Bool-cases,
  Option-cases, ok, length,
}
use nedomi.ContainerList.{Node, back}
use nedomi.ContainerList.Laws.{back-Has, back-none}
use nedomi.Lru.{
  TieredLruCache, Element, unlink, link, place_front, finish_promote, swap_down, promote_found,
  promote_object,
}
use nedomi.Lru.Valid.{Has-Listed, update_ne}
use nedomi.Lru.Moves.{Moves, Moves-trans, move_front-Moves, move_front-sizes, size_of}
use nedomi.Lru.Room.{IsSound}
use nedomi.Lru.Promote.{
  IsAtFront, Moves-IsSound, place_front-IsAtFront, in_range, reordered, reordered-Moves,
  reordered-IsSound, reordered-IsAtFront, finish_promote_lem, risen-IsSound,
}

module _ {O H : Type 0} (dec : Discrete H) (hash : O → H) where
  -- What PromoteObject does to an object of the tier `t`.
  pub record Promoted (s s' : TieredLruCache O H) (t : ℕ) (o : O) : Type 0 where
    pub sound : IsSound dec hash s'
    pub moves : Moves dec hash s s'
    pub front : IsAtFront dec hash s' (t - 1) (hash o)

  swap_down_step :
      (s : TieredLruCache O H) (current : ℕ) (o : O) (n : Node O) (el : Element)
      → back (s.tiers (current - 1)) ≡ some n
      → s.lookup (hash n.value) ≡ some el
      → swap_down dec hash s current o
        ≡ ok (
            finish_promote dec hash
              (place_front dec hash (unlink dec hash s (current - 1) n.addr) current n.value)
              current
              o)
  unfolding swap_down unlink
  swap_down_step s current o n el b q = rw (b, swap_down, q)

  module _ (s : TieredLruCache O H) (v : IsSound dec hash s) (o : O) (el : Element)
      (e : s.lookup (hash o) ≡ some el) where
    module _ (upper : ℕ) (below : el.list_tier ≡ upper + 1) where
      module _ (n : Node O) (b : back (s.tiers upper) ≡ some n) where
        victim : s.lookup (hash n.value) ≡ some (record { list_elem = n.addr; list_tier = upper })
        victim =
            Has-Listed dec hash s v.valid upper n.addr (hash n.value)
              (back-Has hash (s.tiers upper) n b)

        lowered : TieredLruCache O H
        lowered = place_front dec hash (unlink dec hash s upper n.addr) el.list_tier n.value

        lowered-Moves : Moves dec hash s lowered
        unfolding lowered
        lowered-Moves =
            move_front-Moves dec hash s v.valid upper n.addr el.list_tier n.value victim
              (in_range dec hash s v o el e)

        -- The entry of the promoted object is another one.
        lowered_lookup : lowered.lookup (hash o) ≡ some el
        unfolding lowered place_front link unlink
        lowered_lookup =
            update_ne dec s.lookup (hash n.value) _ (hash o)
              (λ q. absurd (ground (arith, e, victim, below, ap s.lookup q)))
            ∙ e

        swapped : TieredLruCache O H
        swapped = place_front dec hash (unlink dec hash lowered el.list_tier el.list_elem) upper o

        swapped-Moves : Moves dec hash s swapped
        unfolding swapped
        swapped-Moves = Moves-trans dec hash lowered-Moves (
            move_front-Moves dec hash lowered lowered-Moves.valid el.list_tier el.list_elem upper o
              lowered_lookup (omega (arith, in_range dec hash s v o el e)))

        swapped_sizes : (j : ℕ) → size_of swapped j ≡ size_of s j
        unfolding swapped lowered
        swapped_sizes j = omega (
          arith,
          move_front-sizes dec hash s v.valid upper n.addr el.list_tier n.value victim
              (in_range dec hash s v o el e) j,
          move_front-sizes dec hash lowered lowered-Moves.valid el.list_tier el.list_elem upper o
              lowered_lookup (omega (arith, in_range dec hash s v o el e)) j,
        )

        swap_down_lem : swap_down dec hash s el.list_tier o ≡ ok swapped
        unfolding swapped lowered
        swap_down_lem =
            let e' : el.list_tier - 1 ≡ upper = omega arith in
            swap_down_step s el.list_tier o n _ (rw e' b) victim
            ∙ rw e'
                (ap ok (finish_promote_lem dec hash s v o el e upper below lowered lowered_lookup))

        swapped-Promoted : Promoted s swapped el.list_tier o
        unfolding swapped
        swapped-Promoted = record {
          sound =
              Moves-IsSound dec hash v swapped-Moves
                (λ t. omega (arith, swapped_sizes t, v.bounded t));
          moves = swapped-Moves;
          front =
              let e' : el.list_tier - 1 ≡ upper = omega arith in
              rw e' (place_front-IsAtFront dec hash _ upper o);
        }

      -- The tier above is full, so it has a last element.
      swap_down-Promoted :
          s.tier_list_size ≤ size_of s upper
          → (s' : TieredLruCache O H) × (swap_down dec hash s el.list_tier o ≡ ok s')
            × Promoted s s' el.list_tier o
      swap_down-Promoted full = elim (Option-cases (back (s.tiers upper))) [
        | inl b ↦ absurd (omega (arith, ap (length {0}) (back-none (s.tiers upper) b), v.sized))
        | inr (n, b) ↦ (swapped n b, swap_down_lem n b, swapped-Promoted n b)
      ]

    promote_found-zero :
        el.list_tier ≡ 0
        → (s' : TieredLruCache O H) × (promote_found dec hash s o el ≡ ok s')
          × Promoted s s' el.list_tier o
    unfolding promote_found
    promote_found-zero top = (
      reordered dec hash s v o el e,
      rw (top, promote_found) (unfold reordered in refl),
      record {
        sound = reordered-IsSound dec hash s v o el e top;
        moves = reordered-Moves dec hash s v o el e top;
        front = rw top (reordered-IsAtFront dec hash s v o el e top);
      },
    )

    promote_found-suc :
        (upper : ℕ)
        → el.list_tier ≡ upper + 1
        → (s' : TieredLruCache O H) × (promote_found dec hash s o el ≡ ok s')
          × Promoted s s' el.list_tier o
    unfolding promote_found
    promote_found-suc upper below =
        let z : (el.list_tier == 0) ≡ false = ground (arith, below) in
        let e' : el.list_tier - 1 ≡ upper = omega arith in
        elim (Bool-cases (ltb (size_of s upper) s.tier_list_size)) [
          | inl free ↦ (
            place_front dec hash (unlink dec hash s el.list_tier el.list_elem) upper o,
            rw (z, e', free) (ap ok (finish_promote_lem dec hash s v o el e upper below s e)),
            record {
              sound = risen-IsSound dec hash s v o el e upper below (ground arith);
              moves =
                  move_front-Moves dec hash s v.valid el.list_tier el.list_elem upper o e
                    (omega (arith, in_range dec hash s v o el e));
              front = rw e' (place_front-IsAtFront dec hash _ upper o);
            },
          )
          | inr full ↦
              let (s', q, p) = swap_down-Promoted upper below (ground arith) in
              (s', rw (z, e', full) q, p)
        ]

    promote_found-Promoted :
        (s' : TieredLruCache O H) × (promote_found dec hash s o el ≡ ok s')
        × Promoted s s' el.list_tier o
    promote_found-Promoted = elim (Bool-cases (el.list_tier == 0)) [
      | inl top ↦ promote_found-zero (ground arith)
      | inr low ↦ promote_found-suc (el.list_tier - 1) (ground arith)
    ]

    -- In a sound cache the promotion of an object that it has does not panic. The object comes to
    -- the front of the tier above its own, or of tier 0; the cache stays sound, with the same
    -- objects, tier size and removals as before.
    pub promote_object-Promoted :
        (s' : TieredLruCache O H) × (promote_object dec hash s o ≡ ok s')
        × Promoted s s' el.list_tier o
    unfolding promote_object
    promote_object-Promoted =
        let (s', q, p) = promote_found-Promoted in (s', rw (e, promote_object) q, p)
