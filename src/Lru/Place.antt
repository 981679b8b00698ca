-- ===== src/Lru/Place.antt =====
-- To add an element to a tier, and to move one between tiers, keeps the invariant of the cache.
use nedomi.Prelude.{ℕ, ◌+◌, ◌<◌, ◌≡◌, refl, ap, sym, ◌∙◌, ◌≢◌, inl, inr, none, some, List, arith}
use nedomi.ContainerList.{Node}
use nedomi.ContainerList.Laws.{
  All, All-append, All-map, Distinct, Distinct-append, Has, Has-append, Has-append_last,
}
use nedomi.Lru.{Element, TieredLruCache, cache_tiers, unlink, link, place_front, place_back}
use nedomi.Lru.Valid.{
  IsValid, Listed, detach, detach-IsValid, update_ne, update_self, update-update, set_tier_elim,
}

module _ {O H : Type 0} (dec : Discrete H) (hash : O → H) where
  module _ (s : TieredLruCache O H) (v : IsValid dec hash s) (i : ℕ) (o : O) (l : List (Node O))
      (new : s.lookup (hash o) ≡ none) (room : i < cache_tiers)
      (all : (P : Node O → Type 0)
        → All P (s.tiers i)
        → P (record { addr = s.next_addr; value = o })
        → All P l)
      (has : (a : ℕ) (h : H) → Has hash a h (s.tiers i) → Has hash a h l)
      (has_new : Has hash s.next_addr (hash o) l) (apart : Distinct l) where
    new_hash : (t : ℕ) (n : Node O) → Listed dec hash s t n → hash n.value ≢ hash o
    new_hash t n e q = absurd (cc (e, new, ap s.lookup q))

    keep_entry :
        (t : ℕ) (n : Node O) → Listed dec hash s t n → Listed dec hash (link dec hash s i o l) t n
    unfolding link
    keep_entry t n e = update_ne dec s.lookup (hash o) _ (hash n.value) (new_hash t n e) ∙ e

    link-Listed :
        (t : ℕ) → All (Listed dec hash (link dec hash s i o l) t) ((link dec hash s i o l).tiers t)
    unfolding link
    link-Listed t =
        set_tier_elim (λ j m. All (Listed dec hash (link dec hash s i o l) j) m) s.tiers i l
          (all (Listed dec hash (link dec hash s i o l) i)
            (All-map (keep_entry i) (s.tiers i) (v.listed i)) (update_self dec s.lookup (hash o) _))
          t (λ _. All-map (keep_entry t) (s.tiers t) (v.listed t))

    link-located :
        (k : H) (el : Element)
        → (link dec hash s i o l).lookup k ≡ some el
        → Has hash el.list_elem k ((link dec hash s i o l).tiers el.list_tier)
          × (el.list_tier < cache_tiers)
    unfolding link
    link-located k el q = elim (dec k (hash o)) [
      | yes p ↦
          let found : Element = record { list_elem = s.next_addr; list_tier = i } in
          let e : el ≡ found = cc (
            q,
            update_self dec s.lookup (hash o) (some found),
            ap (link dec hash s i o l).lookup p,
          ) in
          rw (e, p)
            (
              set_tier_elim (λ j m. j ≡ i → Has hash s.next_addr (hash o) m) s.tiers i l
                  (λ _. has_new) i (λ ne _. absurd (ne refl)) refl,
              room,
            )
      | no p ↦
          let (m, b) = v.located k el (sym (update_ne dec s.lookup (hash o) _ k p) ∙ q) in
          (
            set_tier_elim (λ j m. j ≡ el.list_tier → Has hash el.list_elem k m) s.tiers i l
                (λ here. has el.list_elem k (rw here m)) el.list_tier (λ _ _. m) refl,
            b,
          )
    ]

    link-IsValid : IsValid dec hash (link dec hash s i o l)
    unfolding link
    link-IsValid = record {
      listed = link-Listed;
      located = link-located;
      fresh = λ t.
          set_tier_elim (λ _ m. All (λ n. n.addr < s.next_addr + 1) m) s.tiers i l
            (all (λ n. n.addr < s.next_addr + 1)
              (All-map (λ n b. omega arith) (s.tiers i) (v.fresh i)) (omega arith))
            t (λ _. All-map (λ n b. omega arith) (s.tiers t) (v.fresh t));
      distinct = λ t. set_tier_elim (λ _ m. Distinct m) s.tiers i l apart t (λ _. v.distinct t);
    }

  module _ (s : TieredLruCache O H) (v : IsValid dec hash s) (i : ℕ) (o : O)
      (new : s.lookup (hash o) ≡ none) (room : i < cache_tiers) where
    pub place_front-IsValid : IsValid dec hash (place_front dec hash s i o)
    unfolding place_front
    place_front-IsValid =
        link-IsValid s v i o _ new room (λ P h p. (p, h)) (λ a h m. inr m) (inl (refl, refl))
          (All-map (λ n b. omega arith) (s.tiers i) (v.fresh i), v.distinct i)

    pub place_back-IsValid : IsValid dec hash (place_back dec hash s i o)
    unfolding place_back
    place_back-IsValid =
        link-IsValid s v i o _ new room (λ P h p. All-append P (s.tiers i) h p)
          (λ a h m. Has-append hash a h (s.tiers i) _ m) (Has-append_last hash (s.tiers i) _)
          (Distinct-append (s.tiers i) _ (v.distinct i) (v.fresh i))

  module _ (s : TieredLruCache O H) (v : IsValid dec hash s) (t a i : ℕ) (o : O)
      (e : s.lookup (hash o) ≡ some (record { list_elem = a; list_tier = t }))
      (room : i < cache_tiers) where
    detached : IsValid dec hash (detach dec hash s t a (hash o))
    detached = detach-IsValid dec hash s v t a (hash o) e

    gone : (detach dec hash s t a (hash o)).lookup (hash o) ≡ none
    unfolding detach
    gone = update_self dec s.lookup (hash o) none

    place_front_moved :
        place_front dec hash (detach dec hash s t a (hash o)) i o
        ≡ place_front dec hash (unlink dec hash s t a) i o
    unfolding place_front detach
    place_front_moved =
        ap (λ m. record (place_front dec hash (unlink dec hash s t a) i o) { lookup = m })
          (update-update dec s.lookup (hash o) none _)

    -- An object that is moved to the front of tier `i`.
    pub move_front-IsValid : IsValid dec hash (place_front dec hash (unlink dec hash s t a) i o)
    move_front-IsValid =
        rw (← place_front_moved)
          (place_front-IsValid (detach dec hash s t a (hash o)) detached i o gone room)

    place_back_moved :
        place_back dec hash (detach dec hash s t a (hash o)) i o
        ≡ place_back dec hash (unlink dec hash s t a) i o
    unfolding place_back detach
    place_back_moved =
        ap (λ m. record (place_back dec hash (unlink dec hash s t a) i o) { lookup = m })
          (update-update dec s.lookup (hash o) none _)

    -- An object that is moved to the back of tier `i`.
    pub move_back-IsValid : IsValid dec hash (place_back dec hash (unlink dec hash s t a) i o)
    move_back-IsValid =
        rw (← place_back_moved)
          (place_back-IsValid (detach dec hash s t a (hash o)) detached i o gone room)
