-- ===== src/ContainerList/Front.antt =====
-- MoveToFront changes the order of a list and nothing else.
use nedomi.Prelude.{ℕ, ◌≡◌, refl, inl, inr, some, List, [], ◌∷◌, arith, ◌==◌, Bool-cases, length}
use nedomi.ContainerList.{Node, find, remove, front, move_to_front}
use nedomi.ContainerList.Laws.{
  All, All-remove, remove_absent, Distinct, Distinct-remove, Has, Has-remove, Has-unique,
  length-remove,
}

module _ {O H : Type 0} (hash : O → H) where
  -- The element at an address of the list.
  find-Has :
      (a : ℕ) (h : H) (l : List (Node O))
      → Has hash a h l
      → (n : Node O) × (find a l ≡ some n)
        × (n.addr ≡ a)
        × Has hash n.addr (hash n.value) l
        × ((P : Node O → Type 0) → All P l → P n)
  unfolding find
  find-Has a h [] m = elim m [ ]
  find-Has a h (n ∷ l) m = elim (Bool-cases (n.addr == a)) [
    | inl e ↦ (n, rw e refl, ground arith, inl (refl, refl), λ P all. all.0)
    | inr e ↦
        let there : Has hash a h l = elim m [ inl p ↦ absurd (ground (arith, p.0)) | inr r ↦ r ] in
        let (k, f, q, r, all) = find-Has a h l there in (k, rw e f, q, inr r, λ P p. all P p.1)
  ]

  module _ (a : ℕ) (h : H) (l : List (Node O)) (m : Has hash a h l) where
    move_to_front_lem :
        (n : Node O) × (move_to_front a l ≡ n ∷ remove a l)
        × (n.addr ≡ a)
        × Has hash n.addr (hash n.value) l
        × ((P : Node O → Type 0) → All P l → P n)
    unfolding move_to_front
    move_to_front_lem =
        let (n, f, q, r, all) = find-Has a h l m in (n, rw (f, move_to_front), q, r, all)

    pub All-move_to_front : (P : Node O → Type 0) → All P l → All P (move_to_front a l)
    All-move_to_front P all =
        let (n, f, q, r, here) = move_to_front_lem in rw f (here P all, All-remove P a l all)

    pub Distinct-move_to_front : Distinct l → Distinct (move_to_front a l)
    Distinct-move_to_front d =
        let (n, f, q, r, here) = move_to_front_lem in
        rw (f, q) (remove_absent a l, Distinct-remove a l d)

    pub Has-move_to_front :
        Distinct l → (b : ℕ) (k : H) → Has hash b k l → Has hash b k (move_to_front a l)
    Has-move_to_front d b k m' =
        let (n, f, q, r, here) = move_to_front_lem in
        rw f (elim (Bool-cases (b == a)) [
          | inl e ↦
              let e' : n.addr ≡ b = ground (arith, q) in
              inl (e', Has-unique hash n.addr (hash n.value) k l d r (rw e' m'))
          | inr e ↦ inr (Has-remove hash b a k l (ground arith) m')
        ])

    pub length-move_to_front : Distinct l → length (move_to_front a l) ≡ length l
    length-move_to_front d =
        let (n, f, q, r, here) = move_to_front_lem in
        rw f (omega (arith, length-remove hash a h l d m))

    -- The element is at the front.
    pub front-move_to_front :
        Distinct l → (n : Node O) × (front (move_to_front a l) ≡ some n) × (hash n.value ≡ h)
    unfolding front
    front-move_to_front d =
        let (n, f, q, r, here) = move_to_front_lem in
        (n, rw f refl, Has-unique hash a (hash n.value) h l d (rw q at r) m)
