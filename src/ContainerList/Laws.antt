-- ===== src/ContainerList/Laws.antt =====
-- Facts on the lists of container/list: which elements a list holds, and what an operation keeps.
use nedomi.Prelude.{
  ℕ, ◌+◌, ◌≤◌, ◌<◌, ◌≡◌, refl, ◌≢◌, ◌⊎◌, inl, inr, none, some, List, [], ◌∷◌, ◌++◌, arith, ◌==◌,
  Bool-cases, length,
}
use nedomi.ContainerList.{Node, front, back, remove}

abbrev pub All {ℓ κ} : {A : Type ℓ} → (A → Type κ) → List A → Type κ
All P [] = Unit
All P (x ∷ xs) = P x × All P xs

-- No two elements have one address.
abbrev pub Distinct {ℓ} : {O : Type ℓ} → List (Node O) → Type 0
Distinct [] = Unit
Distinct (n ∷ l) = All (λ m. m.addr ≢ n.addr) l × Distinct l

pub All-append {ℓ κ} :
    {A : Type ℓ} (P : A → Type κ) (l : List A) {x : A} → All P l → P x → All P (l ++ x ∷ [])
All-append P [] h p = (p, tt)
All-append P (y ∷ l) h p = (h.0, All-append P l h.1 p)

pub All-map {ℓ κ ν} :
    {A : Type ℓ} {P : A → Type κ} {Q : A → Type ν}
    → ((x : A) → P x → Q x)
    → (l : List A) → All P l
    → All Q l
All-map f [] h = tt
All-map f (x ∷ l) h = (f x h.0, All-map f l h.1)

pub All-trivial {ℓ κ} : {A : Type ℓ} {P : A → Type κ} → ((x : A) → P x) → (l : List A) → All P l
All-trivial f [] = tt
All-trivial f (x ∷ l) = (f x, All-trivial f l)

pub All-map₂ {ℓ κ ν ξ} :
    {A : Type ℓ} {P : A → Type κ} {Q : A → Type ν} {R : A → Type ξ}
    → ((x : A) → P x → Q x → R x)
    → (l : List A) → All P l
    → All Q l
    → All R l
All-map₂ f [] h k = tt
All-map₂ f (x ∷ l) h k = (f x h.0 k.0, All-map₂ f l h.1 k.1)

module _ {ℓ} {O : Type ℓ} where
  pub All-remove {κ} :
      (P : Node O → Type κ) (a : ℕ) (l : List (Node O)) → All P l → All P (remove a l)
  unfolding remove
  All-remove P a [] h = tt
  All-remove P a (n ∷ l) h = elim (Bool-cases (n.addr == a)) [
    | inl e ↦ rw e (All-remove P a l h.1)
    | inr e ↦ rw e (h.0, All-remove P a l h.1)
  ]

  -- Nothing at the address is left.
  pub remove_absent : (a : ℕ) (l : List (Node O)) → All (λ n. n.addr ≢ a) (remove a l)
  unfolding remove
  remove_absent a [] = tt
  remove_absent a (n ∷ l) = elim (Bool-cases (n.addr == a)) [
    | inl e ↦ rw e (remove_absent a l)
    | inr e ↦ rw e ((ground arith), remove_absent a l)
  ]

  -- What is not in the list is not removed.
  pub remove_of_absent : (a : ℕ) (l : List (Node O)) → All (λ n. n.addr ≢ a) l → remove a l ≡ l
  unfolding remove
  remove_of_absent a [] h = refl
  remove_of_absent a (n ∷ l) h = ground (arith, remove_of_absent a l, h.0)

  pub length-remove-le : (a : ℕ) (l : List (Node O)) → length (remove a l) ≤ length l
  unfolding remove
  length-remove-le a [] = omega arith
  length-remove-le a (n ∷ l) = ground (arith, length-remove-le a l)

  pub Distinct-remove : (a : ℕ) (l : List (Node O)) → Distinct l → Distinct (remove a l)
  unfolding remove
  Distinct-remove a [] h = tt
  Distinct-remove a (n ∷ l) h = elim (Bool-cases (n.addr == a)) [
    | inl e ↦ rw e (Distinct-remove a l h.1)
    | inr e ↦ rw e (All-remove (λ m. m.addr ≢ n.addr) a l h.0, Distinct-remove a l h.1)
  ]

  -- A new element has an address above those of the list.
  pub Distinct-append :
      (l : List (Node O)) (n : Node O)
      → Distinct l
      → All (λ m. m.addr < n.addr) l
      → Distinct (l ++ n ∷ [])
  Distinct-append [] n d h = (tt, tt)
  Distinct-append (m ∷ l) n d h =
      (All-append (λ k. k.addr ≢ m.addr) l d.0 (omega (arith, h.0)), Distinct-append l n d.1 h.1)

  pub back-none : (l : List (Node O)) → back l ≡ none → l ≡ []
  unfolding back
  back-none [] e = refl
  back-none (n ∷ []) e = cc
  back-none (n ∷ m ∷ l) e = absurd (cc (back-none (m ∷ l) e))

module _ {O H : Type 0} (hash : O → H) where
  -- The list has an element at the address `a`, of an object with the hash `h`.
  abbrev pub Has : ℕ → H → List (Node O) → Type 0
  Has a h [] = ⊥
  Has a h (n ∷ l) = ((n.addr ≡ a) × (hash n.value ≡ h)) ⊎ Has a h l

  pub Has-remove : (a b : ℕ) (h : H) (l : List (Node O)) → a ≢ b → Has a h l → Has a h (remove b l)
  unfolding remove
  Has-remove a b h [] ne m = m
  Has-remove a b h (n ∷ l) ne m = elim (Bool-cases (n.addr == b)) [
    | inl e ↦
        rw e (elim m [ inl p ↦ absurd (ground (arith, p.0)) | inr r ↦ Has-remove a b h l ne r ])
    | inr e ↦ rw e (elim m [ inl p ↦ inl p | inr r ↦ inr (Has-remove a b h l ne r) ])
  ]

  pub Has-of_remove : (a b : ℕ) (h : H) (l : List (Node O)) → Has a h (remove b l) → Has a h l
  unfolding remove
  Has-of_remove a b h [] m = m
  Has-of_remove a b h (n ∷ l) m = elim (Bool-cases (n.addr == b)) [
    | inl e ↦ inr (Has-of_remove a b h l (rw e at m))
    | inr e ↦
        let m' : Has a h (n ∷ remove b l) = rw e at m in
        elim m' [ inl p ↦ inl p | inr r ↦ inr (Has-of_remove a b h l r) ]
  ]

  pub Has-append :
      (a : ℕ) (h : H) (l : List (Node O)) (n : Node O) → Has a h l → Has a h (l ++ n ∷ [])
  Has-append a h (m ∷ l) n (inl p) = inl p
  Has-append a h (m ∷ l) n (inr r) = inr (Has-append a h l n r)
  Has-append a h [] n r = elim r [ ]

  pub Has-append_last : (l : List (Node O)) (n : Node O) → Has n.addr (hash n.value) (l ++ n ∷ [])
  Has-append_last [] n = inl (refl, refl)
  Has-append_last (m ∷ l) n = inr (Has-append_last l n)

  -- The element that `Has` speaks of, with what holds of every element.
  pub Has-All :
      {P : Node O → Type 0} (a : ℕ) (h : H) (l : List (Node O))
      → Has a h l
      → All P l
      → (n : Node O) × (n.addr ≡ a) × (hash n.value ≡ h) × P n
  Has-All a h (n ∷ l) (inl p) all = (n, p.0, p.1, all.0)
  Has-All a h (n ∷ l) (inr r) all = Has-All a h l r all.1
  Has-All a h [] r all = elim r [ ]

  pub Has-unique :
      (a : ℕ) (h k : H) (l : List (Node O)) → Distinct l → Has a h l → Has a k l → h ≡ k
  Has-unique a h k (n ∷ l) d (inl p) (inl q) = cc (p.1, q.1)
  Has-unique a h k (n ∷ l) d (inl p) (inr r) =
      let (m, e, _, ne) = Has-All a k l r d.0 in absurd (ne (cc (p.0, e)))
  Has-unique a h k (n ∷ l) d (inr r) (inl p) =
      let (m, e, _, ne) = Has-All a h l r d.0 in absurd (ne (cc (p.0, e)))
  Has-unique a h k (n ∷ l) d (inr r) (inr r') = Has-unique a h k l d.1 r r'
  Has-unique a h k [] d r r' = elim r [ ]

  pub front-Has : (l : List (Node O)) (n : Node O) → front l ≡ some n → Has n.addr (hash n.value) l
  unfolding front
  front-Has [] n e = absurd (cc)
  front-Has (m ∷ l) n e = inl (ground arith, ground arith)

  pub back-Has : (l : List (Node O)) (n : Node O) → back l ≡ some n → Has n.addr (hash n.value) l
  unfolding back
  back-Has [] n e = absurd (cc)
  back-Has (m ∷ []) n e = inl (ground arith, ground arith)
  back-Has (m ∷ m' ∷ l) n e = inr (back-Has (m' ∷ l) n e)

  -- To remove an element makes the list shorter by one.
  pub length-remove :
      (a : ℕ) (h : H) (l : List (Node O))
      → Distinct l
      → Has a h l
      → length (remove a l) + 1 ≡ length l
  unfolding remove
  length-remove a h (n ∷ l) d (inl p) = ground (arith, p.0, remove_of_absent a l (rw (p.0) at d.0))
  length-remove a h (n ∷ l) d (inr r) =
      let (m, e, _, ne) = Has-All a h l r d.0 in ground (arith, length-remove a h l d.1 r, e, ne)
  length-remove a h [] d r = elim r [ ]
