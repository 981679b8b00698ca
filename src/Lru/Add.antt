-- ===== src/Lru/Add.antt =====
-- AddObject: what it adds, what it evicts, and that the tiers stay within their size.
use nedomi.Prelude.{
  ℕ, ◌<◌, ◌≤◌, ◌≡◌, refl, ap, ◌∙◌, Bool, true, false, Option, none, some, [], ◌∷◌, ◌++◌, arith, ite,
  ok,
}
use nedomi.ContainerList.{Node, front, back}
use nedomi.Lru.{
  last, TieredLruCache, cache_tiers, place_front, make_room, add_new, add_object, already_in_cache,
}
use nedomi.Lru.Place.{place_front-IsValid}
use nedomi.Lru.Moves.{is_some, is_some-update, is_cached, size_of}
use nedomi.Lru.Room.{IsSound, HasRoom, make_room-room, make_room-full}

none_of_not {ℓ} : {A : Type ℓ} (o : Option A) → is_some o ≡ false → o ≡ none
none_of_not none e = refl
none_of_not (some a) e = cc

ite-false {ℓ} : {P : Type ℓ} (d : Dec P) (b : Bool) → b ≡ false → ite d false b ≡ false
ite-false (yes p) b e = refl
ite-false (no p) b e = e

module _ {O H : Type 0} (dec : Discrete H) (hash : O → H) where
  -- The object `o` is at the front of the last tier.
  abbrev pub IsNewest : TieredLruCache O H → O → Type 0
  IsNewest s o = (n : Node O) × (front (s.tiers last) ≡ some n) × (n.value ≡ o)

  module _ (s s' : TieredLruCache O H) (r : HasRoom dec hash s s') (o : O)
      (new : is_cached s' (hash o) ≡ false) (positive : 0 < s.tier_list_size) where
    added-IsSound : IsSound dec hash (place_front dec hash s' last o)
    unfolding place_front
    added-IsSound = record {
      valid = place_front-IsValid dec hash s' r.valid last o (none_of_not _ new) (omega arith);
      bounded = λ t. rw r.size (ground (arith, r.bounded t, r.room));
      sized = rw r.size positive;
    }

    added-IsNewest : IsNewest (place_front dec hash s' last o) o
    unfolding place_front front
    added-IsNewest = (record { addr = s'.next_addr; value = o }, refl, refl)

    added_cached :
        (h : H)
        → is_cached (place_front dec hash s' last o) h ≡ ite (dec h (hash o)) true (is_cached s' h)
    unfolding place_front
    added_cached h = is_some-update dec s'.lookup (hash o) _ h

    added-removals : (place_front dec hash s' last o).removals ≡ s'.removals
    unfolding place_front
    added-removals = refl

    added-size : (place_front dec hash s' last o).tier_list_size ≡ s.tier_list_size
    unfolding place_front
    added-size = r.size

  module _ (s : TieredLruCache O H) (v : IsSound dec hash s) (o : O)
      (new : is_cached s (hash o) ≡ false) where
    add_object_new : add_object dec hash s o ≡ (add_new dec hash s o, none)
    unfolding add_object
    add_object_new = rw (none_of_not _ new, add_object)

    add_new_room :
        (s' : TieredLruCache O H)
        → make_room dec hash s ≡ ok s'
        → add_new dec hash s o ≡ ok (place_front dec hash s' last o)
    unfolding add_new
    add_new_room s' e = rw e refl

    -- In a sound cache where some tier has space, an object that the cache does not have is added at
    -- the front of the last tier, without a panic or an error. The cache stays sound and keeps its
    -- tier size, nothing is handed to the removal function, and the cache has the object besides
    -- those it had.
    pub add_object-room :
        (t : ℕ)
        → t < cache_tiers
        → size_of s t < s.tier_list_size
        → (s' : TieredLruCache O H) × (add_object dec hash s o ≡ (ok s', none))
          × IsSound dec hash s'
          × (s'.tier_list_size ≡ s.tier_list_size)
          × IsNewest s' o
          × (s'.removals ≡ s.removals)
          × ((h : H) → is_cached s' h ≡ ite (dec h (hash o)) true (is_cached s h))
    add_object-room t b free =
        let (s', e, r, m) = make_room-room dec hash s v t b free in
        let new' = m.same (hash o) ∙ new in
        (
          place_front dec hash s' last o,
          add_object_new ∙ ap (λ x. (x, none)) (add_new_room s' e),
          added-IsSound s s' r o new' v.sized,
          added-size s s' r o new' v.sized,
          added-IsNewest s s' r o new' v.sized,
          added-removals s s' r o new' v.sized ∙ m.removals,
          λ h. added_cached s s' r o new' v.sized h ∙ ap (ite (dec h (hash o)) true) (m.same h),
        )

    -- In a sound cache where every tier is full, an object that the cache does not have is added at
    -- the front of the last tier, without a panic or an error, and the last element of the last
    -- tier is evicted: its object alone is handed to the removal function and leaves the cache. The
    -- cache stays sound and keeps its tier size.
    pub add_object-full :
        ((t : ℕ) → t < cache_tiers → s.tier_list_size ≤ size_of s t)
        → (n : Node O) × (s' : TieredLruCache O H) × (back (s.tiers last) ≡ some n)
          × (add_object dec hash s o ≡ (ok s', none))
          × IsSound dec hash s'
          × (s'.tier_list_size ≡ s.tier_list_size)
          × IsNewest s' o
          × (s'.removals ≡ s.removals ++ n.value ∷ [])
          × ((h : H)
              → is_cached s' h
                ≡ ite (dec h (hash o)) true (ite (dec h (hash n.value)) false (is_cached s h)))
    add_object-full full =
        let (n, s', b, e, r, w) = make_room-full dec hash s v full in
        let new' : is_cached s' (hash o) ≡ false =
          w.gone (hash o) ∙ ite-false (dec (hash o) (hash n.value)) _ new in
        (
          n,
          place_front dec hash s' last o,
          b,
          add_object_new ∙ ap (λ x. (x, none)) (add_new_room s' e),
          added-IsSound s s' r o new' v.sized,
          added-size s s' r o new' v.sized,
          added-IsNewest s s' r o new' v.sized,
          added-removals s s' r o new' v.sized ∙ w.removals,
          λ h. added_cached s s' r o new' v.sized h ∙ ap (ite (dec h (hash o)) true) (w.gone h),
        )

  -- An object of the cache is not added again.
  pub add_object-again :
      (s : TieredLruCache O H) (o : O)
      → is_cached s (hash o) ≡ true
      → add_object dec hash s o ≡ (ok s, some already_in_cache)
  unfolding add_object
  add_object-again s o e = ground (arith, e)
