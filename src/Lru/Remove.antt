-- ===== src/Lru/Remove.antt =====
-- Remove and removeIfMissing.
use nedomi.Prelude.{
  ◌≤◌, ◌≡◌, refl, ap, sym, ◌∙◌, inl, inr, Bool, true, false, Option, none, some, List, [], ◌∷◌,
  ◌++◌, arith, append-nil, append_assoc, Option-cases, ite, if_pos, if_neg, length, if◌then◌else◌,
}
use nedomi.ContainerList.Laws.{length-remove-le}
use nedomi.Lru.{TieredLruCache, Element, unlink, forget, remove_one, remove_objects}
use nedomi.Lru.Resize.{remove_if_missing}
use nedomi.Lru.Valid.{detach, detach-IsValid, set_tier_elim}
use nedomi.Lru.Moves.{is_some, is_some-update, is_cached}
use nedomi.Lru.Room.{IsSound}

module _ {O H : Type 0} (dec : Discrete H) (hash : O → H) where
  -- The hash is that of one of the objects.
  unfoldable pub is_among : H → List O → Bool
  is_among h [] = false
  is_among h (o ∷ os) = ite (dec h (hash o)) true (is_among h os)

  module _ (s : TieredLruCache O H) (v : IsSound dec hash s) (o : O) where
    detached-IsSound :
        (el : Element)
        → s.lookup (hash o) ≡ some el
        → IsSound dec hash (detach dec hash s el.list_tier el.list_elem (hash o))
    unfolding detach unlink forget
    detached-IsSound el e =
        let d = detach-IsValid dec hash s v.valid el.list_tier el.list_elem (hash o) e in
        record {
          valid = d;
          bounded = λ t.
              set_tier_elim (λ _ l. length l ≤ s.tier_list_size) s.tiers el.list_tier _
                (omega (
                  arith,
                  length-remove-le el.list_elem (s.tiers el.list_tier),
                  v.bounded el.list_tier,
                ))
                t (λ _. v.bounded t);
          sized = v.sized;
        }

    remove_one-detach :
        (el : Element)
        → s.lookup (hash o) ≡ some el
        → remove_one dec hash s o ≡ detach dec hash s el.list_tier el.list_elem (hash o)
    unfolding remove_one detach unlink forget
    remove_one-detach el e = rw (e, remove_one)

    remove_one_absent : s.lookup (hash o) ≡ none → remove_one dec hash s o ≡ s
    unfolding remove_one
    remove_one_absent e = rw (e, remove_one)

    remove_one-IsSound : IsSound dec hash (remove_one dec hash s o)
    remove_one-IsSound = elim (Option-cases (s.lookup (hash o))) [
      | inl e ↦ rw (remove_one_absent e) v
      | inr (el, e) ↦ rw (remove_one-detach el e) (detached-IsSound el e)
    ]

    -- The object leaves the map, and no other does.
    remove_one_cached :
        (h : H) → is_cached (remove_one dec hash s o) h ≡ ite (dec h (hash o)) false (is_cached s h)
    unfolding detach unlink forget
    remove_one_cached h = elim (Option-cases (s.lookup (hash o))) [
      | inr (el, e) ↦
          ap (λ u. is_cached u h) (remove_one-detach el e)
          ∙ is_some-update dec s.lookup (hash o) none h
      | inl e ↦ ap (λ u. is_cached u h) (remove_one_absent e) ∙ elim (dec h (hash o)) [
        | yes p ↦
            ap is_some (ap s.lookup p ∙ e) ∙ sym (if_pos (dec h (hash o)) p false (is_cached s h))
        | no p ↦ sym (if_neg (dec h (hash o)) p false (is_cached s h))
      ]
    ]

    remove_one-removals : (remove_one dec hash s o).removals ≡ s.removals
    unfolding remove_one unlink forget
    remove_one-removals = ground arith

    remove_one-size : (remove_one dec hash s o).tier_list_size ≡ s.tier_list_size
    unfolding remove_one unlink forget
    remove_one-size = ground arith

  -- Remove keeps the invariant.
  pub remove_objects-IsSound :
      (os : List O) (s : TieredLruCache O H)
      → IsSound dec hash s
      → IsSound dec hash (remove_objects dec hash s os)
  unfolding remove_objects
  remove_objects-IsSound [] s v = v
  remove_objects-IsSound (o ∷ os) s v =
      remove_objects-IsSound os (remove_one dec hash s o) (remove_one-IsSound s v o)

  ite_among :
      {P : Type 0} (d : Dec P) (b c : Bool)
      → (if b then false else ite d false c) ≡ (if ite d true b then false else c)
  ite_among (yes p) true c = refl
  ite_among (yes p) false c = refl
  ite_among (no p) true c = refl
  ite_among (no p) false c = refl

  -- What is in the cache after Remove.
  objects_cached :
      (os : List O) (s : TieredLruCache O H) (h : H)
      → IsSound dec hash s
      → is_cached (remove_objects dec hash s os) h
        ≡ (if is_among h os then false else is_cached s h)
  unfolding remove_objects is_among
  objects_cached [] s h v = refl
  objects_cached (o ∷ os) s h v =
      objects_cached os (remove_one dec hash s o) h (remove_one-IsSound s v o)
      ∙ ap (λ (b : Bool). if is_among h os then false else b) (remove_one_cached s v o h)
      ∙ ite_among (dec h (hash o)) (is_among h os) (is_cached s h)

  remove_objects-removals :
      (os : List O) (s : TieredLruCache O H)
      → IsSound dec hash s
      → (remove_objects dec hash s os).removals ≡ s.removals
  unfolding remove_objects
  remove_objects-removals [] s v = refl
  remove_objects-removals (o ∷ os) s v =
      remove_objects-removals os (remove_one dec hash s o) (remove_one-IsSound s v o)
      ∙ remove_one-removals s v o

  pub remove_objects-size :
      (os : List O) (s : TieredLruCache O H)
      → IsSound dec hash s
      → (remove_objects dec hash s os).tier_list_size ≡ s.tier_list_size
  unfolding remove_objects
  remove_objects-size [] s v = refl
  remove_objects-size (o ∷ os) s v =
      remove_objects-size os (remove_one dec hash s o) (remove_one-IsSound s v o)
      ∙ remove_one-size s v o

  -- Remove of a list of objects from a sound cache leaves a sound one, with lists and map that agree.
  -- It has exactly the objects that it had and that have the hash of none in the list; nothing is
  -- given to the removal function, and the tiers keep their size.
  pub remove_objects_cached :
      (os : List O) (s : TieredLruCache O H)
      → IsSound dec hash s
      → IsSound dec hash (remove_objects dec hash s os)
        × ((h : H)
            → is_cached (remove_objects dec hash s os) h
              ≡ (if is_among h os then false else is_cached s h))
        × ((remove_objects dec hash s os).removals ≡ s.removals)
        × ((remove_objects dec hash s os).tier_list_size ≡ s.tier_list_size)
  remove_objects_cached os s v = (
    remove_objects-IsSound os s v,
    λ h. objects_cached os s h v,
    remove_objects-removals os s v,
    remove_objects-size os s v,
  )

  -- The objects that the cache does not have.
  unfoldable pub missing : (H → Option Element) → List O → List O
  missing lookup [] = []
  missing lookup (o ∷ os) =
      let rest = missing lookup os in if is_some (lookup (hash o)) then rest else o ∷ rest

  -- removeIfMissing hands exactly the objects that the cache does not have to the removal
  -- function, in order, and changes nothing else.
  pub remove_if_missing_lem :
      (os : List O) (s : TieredLruCache O H)
      → remove_if_missing dec hash s os ≡ record s { removals = s.removals ++ missing s.lookup os }
  unfolding remove_if_missing missing
  remove_if_missing_lem [] s = ap (λ r. record s { removals = r }) (sym (append-nil s.removals))
  remove_if_missing_lem (o ∷ os) s = elim (Option-cases (s.lookup (hash o))) [
    | inl e ↦
        let s' = record s { removals = s.removals ++ o ∷ [] } in
        rw e (
          remove_if_missing_lem os s'
          ∙ ap (λ r. record s { removals = r })
              (append_assoc s.removals (o ∷ []) (missing s.lookup os)))
    | inr (el, e) ↦ rw e (remove_if_missing_lem os s)
  ]
