-- ===== src/Lru/Taken.antt =====
-- While the cache shrinks, objects are taken out of the lists first and out of the map later. The
-- invariant in between: the map may have entries for the objects that were taken.
use nedomi.Prelude.{
  ℕ, zero, suc, ◌-◌, ◌≡◌, refl, ap, sym, ◌∙◌, ◌≢◌, inl, inr, true, false, none, some, List, [], ◌∷◌,
  arith, Option-cases, if_pos, if_neg, length, min,
}
use nedomi.ContainerList.{Node, back, remove}
use nedomi.ContainerList.Laws.{
  All, All-trivial, All-map₂, All-remove, Distinct, Distinct-remove, remove_absent, Has, Has-remove,
  Has-of_remove, Has-All, Has-unique, back-Has, back-none, length-remove,
}
use nedomi.Lru.{TieredLruCache}
use nedomi.Lru.Resize.{remove_from_list}
use nedomi.Lru.Valid.{Listed}
use nedomi.Lru.Remove.{is_among}

pub remove_from_list-none {ℓ} :
    {O : Type ℓ} (k : ℕ) (l : List (Node O)) → back l ≡ none → remove_from_list (suc k) l ≡ ([], l)
unfolding remove_from_list
remove_from_list-none k l b = rw (b, remove_from_list)

pub remove_from_list-some {ℓ} :
    {O : Type ℓ} (k : ℕ) (l : List (Node O)) (n : Node O)
    → back l ≡ some n
    → remove_from_list (suc k) l ≡ (
      n.value ∷ (remove_from_list k (remove n.addr l)).0,
      (remove_from_list k (remove n.addr l)).1,
    )
unfolding remove_from_list
remove_from_list-some k l n b = rw (b, remove_from_list)

module _ {O H : Type 0} (dec : Discrete H) (hash : O → H) where
  -- `took` was taken from the list `l`, and `l'` stayed.
  pub record Taken (l : List (Node O)) (took : List O) (l' : List (Node O)) : Type 1 where
    pub all : (P : Node O → Type 0) → All P l → All P l'
    pub distinct : Distinct l'
    pub apart : All (λ n. is_among dec hash (hash n.value) took ≡ false) l'
    pub stays :
        (a : ℕ) (h : H) → Has hash a h l → is_among dec hash h took ≡ false → Has hash a h l'
    pub from : (h : H) → is_among dec hash h took ≡ true → (a : ℕ) × Has hash a h l

  is_among_cons_ne :
      (h : H) (o : O) (os : List O)
      → is_among dec hash h (o ∷ os) ≡ false
      → (h ≢ hash o) × (is_among dec hash h os ≡ false)
  unfolding is_among
  is_among_cons_ne h o os e = elim (dec h (hash o)) [
    | yes p ↦ absurd (cc (e, if_pos (dec h (hash o)) p true (is_among dec hash h os)))
    | no p ↦ (p, sym (if_neg (dec h (hash o)) p true (is_among dec hash h os)) ∙ e)
  ]

  is_among_ne_cons :
      (h : H) (o : O) (os : List O)
      → h ≢ hash o
      → is_among dec hash h (o ∷ os) ≡ is_among dec hash h os
  unfolding is_among
  is_among_ne_cons h o os p = if_neg (dec h (hash o)) p true (is_among dec hash h os)

  Taken-nil : (l : List (Node O)) → Distinct l → Taken l [] l
  unfolding is_among
  Taken-nil l d = record {
    all = λ P a. a;
    distinct = d;
    apart = All-trivial (λ _. refl) l;
    stays = λ b h m _. m;
    from = λ h e. absurd (cc (e));
  }

  module _ (s : TieredLruCache O H) (t : ℕ) where
    pub Listed-lookup :
        (a : ℕ) (h : H) (l : List (Node O))
        → All (Listed dec hash s t) l
        → Has hash a h l
        → s.lookup h ≡ some (record { list_elem = a; list_tier = t })
    Listed-lookup a h l all m =
        let (n, e, q, f) = Has-All hash a h l m all in
        ap s.lookup (sym q) ∙ f ∙ ap (λ b. some (record { list_elem = b; list_tier = t })) e

    module _ (n : Node O) (l : List (Node O)) (b : back l ≡ some n)
        (a : All (Listed dec hash s t) l) (d : Distinct l) where
      others : All (λ m. hash m.value ≢ hash n.value) (remove n.addr l)
      others =
          let found = Listed-lookup n.addr (hash n.value) l a (back-Has hash l n b) in
          All-map₂ (λ m e ne q. ne (ground (arith, e, found, ap s.lookup q))) (remove n.addr l)
            (All-remove (Listed dec hash s t) n.addr l a) (remove_absent n.addr l)

      Taken-cons :
          (took : List O) (l' : List (Node O))
          → Taken (remove n.addr l) took l'
          → Taken l (n.value ∷ took) l'
      Taken-cons took l' ih = record {
        all = λ P p. ih.all P (All-remove P n.addr l p);
        distinct = ih.distinct;
        apart =
            All-map₂ (λ m ne e. is_among_ne_cons (hash m.value) n.value took ne ∙ e) l'
              (ih.all (λ m. hash m.value ≢ hash n.value) others) ih.apart;
        stays = λ c h m e.
            let (ne, e') = is_among_cons_ne h n.value took e in
            ih.stays c h
              (Has-remove hash c n.addr h l
                (λ q. ne (Has-unique hash c h (hash n.value) l d m (rw q (back-Has hash l n b)))) m)
              e';
        from = λ h e. elim (dec h (hash n.value)) [
          | yes p ↦ (n.addr, rw p (back-Has hash l n b))
          | no p ↦
              let (c, m) = ih.from h (sym (is_among_ne_cons h n.value took p) ∙ e) in
              (c, Has-of_remove hash c n.addr h l m)
        ];
      }

    -- removeFromList takes elements off the list `l`.
    pub remove_from_list-Taken :
        (k : ℕ) (l : List (Node O))
        → All (Listed dec hash s t) l
        → Distinct l
        → Taken l (remove_from_list k l).0 (remove_from_list k l).1
    unfolding remove_from_list
    remove_from_list-Taken zero l a d = Taken-nil l d
    remove_from_list-Taken (suc k) l a d = elim (Option-cases (back l)) [
      | inl b ↦ rw (remove_from_list-none k l b) (Taken-nil l d)
      | inr (n, b) ↦
          let ih =
            remove_from_list-Taken k (remove n.addr l) (All-remove (Listed dec hash s t) n.addr l a)
              (Distinct-remove n.addr l d) in
          rw (remove_from_list-some k l n b) (Taken-cons n l b a d _ _ ih)
    ]

  pub length-remove_from_list :
      (k : ℕ) (l : List (Node O))
      → Distinct l
      → (length (remove_from_list k l).0 ≡ min k (length l))
        × (length (remove_from_list k l).1 ≡ length l - k)
  unfolding remove_from_list
  length-remove_from_list zero l d = (omega arith, omega arith)
  length-remove_from_list (suc k) l d = elim (Option-cases (back l)) [
    | inl b ↦
        let e = back-none l b in
        rw (remove_from_list-none k l b)
          (omega (arith, ap (length {0}) e), omega (arith, ap (length {0}) e))
    | inr (n, b) ↦
        let (p, q) = length-remove_from_list k (remove n.addr l) (Distinct-remove n.addr l d) in
        let r = length-remove hash n.addr (hash n.value) l d (back-Has hash l n b) in
        rw (remove_from_list-some k l n b) (omega (arith, p, r), omega (arith, q, r))
  ]
