-- ===== src/Lru/Shrink.antt =====
-- resizeDown and the deletions from the map after it, between which the map has entries for objects
-- that the lists have lost.
use nedomi.Prelude.{
  ℕ, ◌<◌, ◌≡◌, refl, ap, sym, ◌∙◌, ◌≢◌, inl, inr, ◌⊎◌, Bool, true, false, ◌||◌, some, List, [], ◌∷◌,
  ◌++◌, arith, Bool-cases, if_pos, if_neg,
}
use nedomi.ContainerList.{Node}
use nedomi.ContainerList.Laws.{All, All-map, All-map₂, Distinct, Has}
use nedomi.Lru.{TieredLruCache, Element, cache_tiers, set_tier}
use nedomi.Lru.Valid.{IsValid, Listed, set_tier_elim}
use nedomi.Lru.Moves.{is_some, is_cached}
use nedomi.Lru.Remove.{is_among}
use nedomi.Lru.Taken.{Taken, Listed-lookup}

module _ {O H : Type 0} (dec : Discrete H) (hash : O → H) where
  pub is_among-append :
      (h : H) (xs ys : List O)
      → is_among dec hash h (xs ++ ys) ≡ (is_among dec hash h xs || is_among dec hash h ys)
  unfolding is_among
  is_among-append h [] ys = refl
  is_among-append h (x ∷ xs) ys = elim (dec h (hash x)) [
    | yes p ↦ rw (if_pos (dec h (hash x)) p, if_pos (dec h (hash x)) p) refl
    | no p ↦ rw (if_neg (dec h (hash x)) p, if_neg (dec h (hash x)) p) (is_among-append h xs ys)
  ]

  -- The invariant while the map still has entries for the objects `gone`.
  pub record Interim (s : TieredLruCache O H) (gone : List O) : Type 0 where
    pub listed : (t : ℕ) → All (Listed dec hash s t) (s.tiers t)
    pub located :
        (h : H) (el : Element)
        → s.lookup h ≡ some el
        → is_among dec hash h gone ≡ false
        → Has hash el.list_elem h (s.tiers el.list_tier) × (el.list_tier < cache_tiers)
    pub fresh : (t : ℕ) → All (λ n. n.addr < s.next_addr) (s.tiers t)
    pub distinct : (t : ℕ) → Distinct (s.tiers t)
    pub kept : (t : ℕ) → All (λ n. is_among dec hash (hash n.value) gone ≡ false) (s.tiers t)
    pub known : (h : H) → is_among dec hash h gone ≡ true → is_cached s h ≡ true

  pub IsValid-Interim : (s : TieredLruCache O H) → IsValid dec hash s → Interim s []
  unfolding is_among
  IsValid-Interim s v = record {
    listed = v.listed;
    located = λ h el e _. v.located h el e;
    fresh = v.fresh;
    distinct = v.distinct;
    kept = λ t. All-map (λ n _. refl) (s.tiers t) (v.fresh t);
    known = λ h e. absurd (cc e);
  }

  or-false : (a b : Bool) → (a || b) ≡ false → (a ≡ false) × (b ≡ false)
  or-false a b e = ground arith

  false-or : (a b : Bool) → a ≡ false → b ≡ false → (a || b) ≡ false
  false-or a b e f = ground arith

  pub or-true : (a b : Bool) → (a || b) ≡ true → (a ≡ true) ⊎ (b ≡ true)
  or-true true b e = inl refl
  or-true false b e = inr e

  module _ (s : TieredLruCache O H) (gone : List O) (v : Interim s gone) (t : ℕ) (took : List O)
      (l : List (Node O)) (k : Taken dec hash (s.tiers t) took l) where
    unfoldable pub taken_state : TieredLruCache O H
    taken_state = record s { tiers = set_tier s.tiers t l }

    -- The objects that were taken have entries of the tier `t`.
    took_lookup :
        (h : H)
        → is_among dec hash h took ≡ true
        → (a : ℕ) × (s.lookup h ≡ some (record { list_elem = a; list_tier = t }))
    took_lookup h e =
        let (a, m) = k.from h e in (a, Listed-lookup dec hash s t a h (s.tiers t) (v.listed t) m)

    took_other :
        (t' : ℕ) (n : Node O)
        → t' ≢ t
        → Listed dec hash s t' n
        → is_among dec hash (hash n.value) took ≡ false
    took_other t' n ne e = elim (Bool-cases (is_among dec hash (hash n.value) took)) [
      | inl q ↦ let (a, f) = took_lookup (hash n.value) q in absurd (ne (ground (arith, e, f)))
      | inr q ↦ q
    ]

    both :
        (h : H)
        → is_among dec hash h gone ≡ false
        → is_among dec hash h took ≡ false
        → is_among dec hash h (gone ++ took) ≡ false
    both h e f = is_among-append h gone took ∙ false-or _ _ e f

    pub taken_state-Interim : Interim taken_state (gone ++ took)
    unfolding taken_state
    taken_state-Interim = record {
      listed = λ j.
          set_tier_elim (λ i m. All (Listed dec hash s i) m) s.tiers t l
            (k.all (Listed dec hash s t) (v.listed t)) j (λ _. v.listed j);
      located = λ h el q e.
          let (e1, e2) = or-false _ _ (sym (is_among-append h gone took) ∙ e) in
          let (m, b) = v.located h el q e1 in
          (
            set_tier_elim (λ i m. i ≡ el.list_tier → Has hash el.list_elem h m) s.tiers t l
                (λ here. k.stays el.list_elem h (rw here m) e2) el.list_tier (λ _ _. m) refl,
            b,
          );
      fresh = λ j.
          set_tier_elim (λ _ m. All (λ n. n.addr < s.next_addr) m) s.tiers t l
            (k.all (λ n. n.addr < s.next_addr) (v.fresh t)) j (λ _. v.fresh j);
      distinct =
          λ j. set_tier_elim (λ _ m. Distinct m) s.tiers t l k.distinct j (λ _. v.distinct j);
      kept = λ j.
          set_tier_elim
            (λ _ m. All (λ n. is_among dec hash (hash n.value) (gone ++ took) ≡ false) m) s.tiers t
            l
            (All-map₂ (λ n e f. both (hash n.value) e f) l
              (k.all (λ n. is_among dec hash (hash n.value) gone ≡ false) (v.kept t)) k.apart)
            j
            λ ne.
              All-map₂ (λ n e f. both (hash n.value) e (took_other j n ne f)) (s.tiers j) (v.kept j)
                (v.listed j);
      known = λ h e. elim (or-true _ _ (sym (is_among-append h gone took) ∙ e)) [
        | inl q ↦ v.known h q
        | inr q ↦ let (a, f) = took_lookup h q in ap is_some f
      ];
    }
