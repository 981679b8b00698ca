-- ===== src/Lru/Valid.antt =====
-- The invariant of the tiered cache: the map and the lists of the tiers describe the same objects.
-- What removes an element and what adds one keep it.
use nedomi.Prelude.{
  ℕ, ◌<◌, ◌≡◌, refl, ap, sym, ◌∙◌, ◌≢◌, fun_ext, inl, inr, none, some, arith, if_pos, if_neg, ◌==◌,
  Bool-cases,
}
use nedomi.ContainerList.{Node, remove}
use nedomi.ContainerList.Laws.{
  All, All-map, All-map₂, All-remove, Distinct, Distinct-remove, remove_absent, Has, Has-All,
  Has-remove, Has-unique,
}
use nedomi.Lru.{Element, TieredLruCache, cache_tiers, update, set_tier, unlink, forget}

module _ {ℓ κ} {K : Type ℓ} {V : Type κ} (dec : Discrete K) (m : K → V) (k : K) (v : V) where
  pub update_ne : (j : K) → j ≢ k → update dec m k v j ≡ m j
  update_ne j ne = if_neg (dec j k) ne v (m j)

  pub update_self : update dec m k v k ≡ v
  update_self = if_pos (dec k k) refl v (m k)

  -- A second write to the key covers the first.
  pub update-update : (w : V) → update dec (update dec m k v) k w ≡ update dec m k w
  update-update w = fun_ext λ j. elim (dec j k) [
    | yes p ↦ if_pos (dec j k) p w _ ∙ sym (if_pos (dec j k) p w (m j))
    | no p ↦ if_neg (dec j k) p w _ ∙ if_neg (dec j k) p v (m j) ∙ sym (if_neg (dec j k) p w (m j))
  ]

-- What holds of the new list and of the other tiers holds of every tier.
pub set_tier_elim {ℓ κ} :
    {A : Type ℓ} (P : ℕ → A → Type κ) (tiers : ℕ → A) (i : ℕ) (l : A)
    → P i l
    → (t : ℕ) → (t ≢ i → P t (tiers t))
    → P t (set_tier tiers i l t)
set_tier_elim P tiers i l p t rest = elim (Bool-cases (t == i)) [
  | inl same ↦ rw same (let q : t ≡ i = ground arith in rw q p)
  | inr other ↦ rw other (rest (ground arith))
]

module _ {O H : Type 0} (dec : Discrete H) (hash : O → H) where
  -- The entry of the map says where the element is.
  abbrev pub Listed : TieredLruCache O H → ℕ → Node O → Type 0
  Listed s t n = s.lookup (hash n.value) ≡ some (record { list_elem = n.addr; list_tier = t })

  pub record IsValid (s : TieredLruCache O H) : Type 0 where
    pub listed : (t : ℕ) → All (Listed s t) (s.tiers t)
    pub located :
        (h : H) (el : Element)
        → s.lookup h ≡ some el
        → Has hash el.list_elem h (s.tiers el.list_tier) × (el.list_tier < cache_tiers)
    pub fresh : (t : ℕ) → All (λ n. n.addr < s.next_addr) (s.tiers t)
    pub distinct : (t : ℕ) → Distinct (s.tiers t)

  -- An element of a tier is the one that the map has for its object.
  pub Has-Listed :
      (s : TieredLruCache O H) (v : IsValid s) (t a : ℕ) (h : H)
      → Has hash a h (s.tiers t)
      → s.lookup h ≡ some (record { list_elem = a; list_tier = t })
  Has-Listed s v t a h m =
      let (n, e, q, l) = Has-All hash a h (s.tiers t) m (v.listed t) in
      ap s.lookup (sym q) ∙ l ∙ ap (λ b. some (record { list_elem = b; list_tier = t })) e

  -- An element with its entry of the map taken out.
  unfoldable pub detach : TieredLruCache O H → ℕ → ℕ → H → TieredLruCache O H
  unfolding unlink forget
  detach s t a h = forget dec hash (unlink dec hash s t a) h

  module _ (s : TieredLruCache O H) (v : IsValid s) (t a : ℕ) (h : H)
      (e : s.lookup h ≡ some (record { list_elem = a; list_tier = t })) where
    -- The object with the hash `h` has no other element.
    addr_of_Listed : (n : Node O) → Listed s t n → n.addr ≢ a → hash n.value ≢ h
    addr_of_Listed n l ne q = ne (ground (arith, e, l, ap s.lookup q))

    other_tier : (t' : ℕ) (n : Node O) → Listed s t' n → t' ≢ t → hash n.value ≢ h
    other_tier t' n l ne q = ne (ground (arith, e, l, ap s.lookup q))

    keep_entry :
        (t' : ℕ) (n : Node O)
        → Listed s t' n
        → hash n.value ≢ h
        → update dec s.lookup h none (hash n.value)
          ≡ some (record { list_elem = n.addr; list_tier = t' })
    keep_entry t' n l ne = update_ne dec s.lookup h none (hash n.value) ne ∙ l

    detach-Listed : (t' : ℕ) → All (Listed (detach s t a h) t') ((detach s t a h).tiers t')
    unfolding detach
    detach-Listed t' =
        set_tier_elim (λ i l. All (Listed (detach s t a h) i) l) s.tiers t (remove a (s.tiers t))
          (All-map₂ (λ n l ne. keep_entry t n l (addr_of_Listed n l ne)) (remove a (s.tiers t))
            (All-remove (Listed s t) a (s.tiers t) (v.listed t)) (remove_absent a (s.tiers t)))
          t'
          λ other.
            All-map (λ n l. keep_entry t' n l (other_tier t' n l other)) (s.tiers t') (v.listed t')

    detach-located :
        (k : H) (el : Element)
        → (detach s t a h).lookup k ≡ some el
        → Has hash el.list_elem k ((detach s t a h).tiers el.list_tier)
          × (el.list_tier < cache_tiers)
    unfolding detach
    detach-located k el q = elim (dec k h) [
      | yes p ↦ absurd (cc (q, if_pos (dec k h) p none (s.lookup k)))
      | no p ↦
          let (m, b) = v.located k el (sym (update_ne dec s.lookup h none k p) ∙ q) in
          (
            set_tier_elim (λ i l. i ≡ el.list_tier → Has hash el.list_elem k l) s.tiers t
                (remove a (s.tiers t))
                (λ here.
                  Has-remove hash el.list_elem a k (s.tiers t)
                    (λ same. p (
                      Has-unique hash a k h (s.tiers t) (v.distinct t) (rw (here, ← same) m)
                        (v.located h _ e).0))
                    (rw here m))
                el.list_tier (λ _ _. m) refl,
            b,
          )
    ]

    pub detach-IsValid : IsValid (detach s t a h)
    unfolding detach
    detach-IsValid = record {
      listed = detach-Listed;
      located = detach-located;
      fresh = λ t'.
          set_tier_elim (λ _ l. All (λ n. n.addr < s.next_addr) l) s.tiers t (remove a (s.tiers t))
            (All-remove (λ n. n.addr < s.next_addr) a (s.tiers t) (v.fresh t)) t' (λ _. v.fresh t');
      distinct = λ t'.
          set_tier_elim (λ _ l. Distinct l) s.tiers t (remove a (s.tiers t))
            (Distinct-remove a (s.tiers t) (v.distinct t)) t' (λ _. v.distinct t');
    }
