-- ===== src/Lru/Forget.antt =====
-- The loop of resizeDown, and the deletions from the map that end the interim.
use nedomi.Prelude.{
  ℕ, zero, suc, ◌-◌, ◌<◌, ◌≡◌, refl, ap, subst, ◌∙◌, inl, inr, Bool, true, false, Option, none,
  List, [], ◌∷◌, ◌++◌, append-nil, append_assoc, fun_ext, arith, Bool-cases, if_pos, if_neg, length,
  length-append, if◌then◌else◌, min,
}
use nedomi.ContainerList.Laws.{All-map₂}
use nedomi.Lru.{TieredLruCache, Element, update, forget}
use nedomi.Lru.Resize.{remove_from_list, total_below, resize_down, forget_all}
use nedomi.Lru.Valid.{IsValid}
use nedomi.Lru.Moves.{size_of}
use nedomi.Lru.Remove.{is_among}
use nedomi.Lru.Taken.{remove_from_list-Taken, length-remove_from_list}
use nedomi.Lru.Shrink.{Interim, taken_state, taken_state-Interim}

module _ {O H : Type 0} (dec : Discrete H) (hash : O → H) where
  -- The map without the entries of the objects.
  abbrev pub without : (H → Option Element) → List O → H → Option Element
  without lookup os h = if is_among dec hash h os then none else lookup h

  without-step :
      (lookup : H → Option Element) (o : O) (os : List O) (h : H)
      → without (update dec lookup (hash o) none) os h ≡ without lookup (o ∷ os) h
  unfolding is_among
  without-step lookup o os h = elim (dec h (hash o)) [
    | yes p ↦
        rw (if_pos (dec h (hash o)) p, if_pos (dec h (hash o)) p)
          (same (is_among dec hash h os) none)
    | no p ↦ rw (if_neg (dec h (hash o)) p, if_neg (dec h (hash o)) p) refl
  ]
    where
      same : (b : Bool) (x : Option Element) → (if b then x else x) ≡ x
      same true x = refl
      same false x = refl

  pub forget_all_lem :
      (os : List O) (s : TieredLruCache O H)
      → forget_all dec hash s os ≡ record s { lookup = without s.lookup os }
  unfolding forget_all is_among
  forget_all_lem [] s = refl
  forget_all_lem (o ∷ os) s = forget_all_lem os (forget dec hash s (hash o)) ∙ forgotten
    where
      forgotten :
          record s { lookup = without (update dec s.lookup (hash o) none) os }
          ≡ record s { lookup = without s.lookup (o ∷ os) }
      forgotten = ap (λ m. record s { lookup = m }) (fun_ext (without-step s.lookup o os))

  -- After the deletions the map and the lists agree again.
  pub forget_all-IsValid :
      (s : TieredLruCache O H) (gone : List O)
      → Interim dec hash s gone
      → IsValid dec hash (forget_all dec hash s gone)
  forget_all-IsValid s gone v = rw (forget_all_lem gone s) (record {
    listed = λ t. All-map₂ (λ n e f. rw f e) (s.tiers t) (v.listed t) (v.kept t);
    located = λ h el e. elim (Bool-cases (is_among dec hash h gone)) [
      | inl q ↦ absurd (ground (arith, q, e))
      | inr q ↦ v.located h el (ground (arith, q, e)) q
    ];
    fresh = v.fresh;
    distinct = v.distinct;
  })

  total_below-same :
      (i : ℕ) (s u : TieredLruCache O H)
      → ((j : ℕ) → j < i → size_of u j ≡ size_of s j)
      → total_below u i ≡ total_below s i
  unfolding total_below
  total_below-same zero s u h = refl
  total_below-same (suc i) s u h =
      omega (arith, total_below-same i s u (λ j b. h j (omega arith)), h i (omega arith))

  -- The result of resizeDown, as an interim state.
  pub record Lowered (s : TieredLruCache O H) (gone : List O) (oids : List O)
      (s' : TieredLruCache O H) : Type 0 where
    pub interim : Interim dec hash s' (gone ++ oids)
    pub lookup : s'.lookup ≡ s.lookup
    pub size : s'.tier_list_size ≡ s.tier_list_size
    pub cfg : s'.cfg ≡ s.cfg
    pub removals : s'.removals ≡ s.removals
    pub removers : s'.removers ≡ s.removers

  -- It removes the given number of objects, if there are as many.
  pub resize_down-Lowered :
      (i : ℕ) (s : TieredLruCache O H) (k : ℕ) (gone : List O)
      → Interim dec hash s gone
      → Lowered s gone (resize_down i s k).0 (resize_down i s k).1
        × (length (resize_down i s k).0 ≡ min k (total_below s i))
  unfolding resize_down total_below taken_state
  resize_down-Lowered zero s k gone v = (
    record {
      interim = rw (append-nil gone) v;
      lookup = refl;
      size = refl;
      cfg = refl;
      removals = refl;
      removers = refl;
    },
    omega arith,
  )
  resize_down-Lowered (suc i) s k gone v =
      let t = remove_from_list-Taken dec hash s i k (s.tiers i) (v.listed i) (v.distinct i) in
      let took = (remove_from_list k (s.tiers i)).0 in
      let l = (remove_from_list k (s.tiers i)).1 in
      let w = taken_state-Interim dec hash s gone v i took l t in
      let (ih, n) =
        resize_down-Lowered i (taken_state dec hash s gone v i took l t) (k - length took)
          (gone ++ took) w in
      let (n1, n2) = length-remove_from_list dec hash k (s.tiers i) (v.distinct i) in
      let u = taken_state dec hash s gone v i took l t in
      let below =
        total_below-same i s (taken_state dec hash s gone v i took l t) (λ j b. ground arith) in
      (
        record {
          interim =
              subst (λ g. Interim dec hash (resize_down i u (k - length took)).1 g)
                (append_assoc gone took (resize_down i u (k - length took)).0) ih.interim;
          lookup = ih.lookup;
          size = ih.size;
          cfg = ih.cfg;
          removals = ih.removals;
          removers = ih.removers;
        },
        omega (arith, length-append took (resize_down i u (k - length took)).0, n, n1, below),
      )
