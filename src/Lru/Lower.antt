-- ===== src/Lru/Lower.antt =====
-- The loops of `resize` that move last elements to the tier below and trim the last tier.
use nedomi.Prelude.{
  ℕ, zero, suc, ◌+◌, ◌-◌, ◌<◌, ◌≤◌, ◌≡◌, refl, ap, sym, ◌∙◌, inl, inr, true, false, some, List, [],
  ◌∷◌, arith, Option-cases, Bool-cases, length, ltb, ◌==◌,
}
use nedomi.ContainerList.{Node, back, remove}
use nedomi.ContainerList.Laws.{Distinct, Distinct-remove, back-Has, back-none, length-remove}
use nedomi.Lru.{TieredLruCache, Element, cache_tiers, unlink, place_front}
use nedomi.Lru.Resize.{remove_from_list, trim, move_down, move_all_down}
use nedomi.Lru.Valid.{IsValid, Has-Listed}
use nedomi.Lru.Moves.{
  Moves, Moves-refl, Moves-trans, move_front-Moves, move_front-sizes, size_of, at_self, at_ne,
}
use nedomi.Lru.Taken.{remove_from_list-some}

module _ {O H : Type 0} (dec : Discrete H) (hash : O → H) where
  trim_step :
      (f size : ℕ) (l : List (Node O)) (n : Node O)
      → ltb size (length l) ≡ true
      → back l ≡ some n
      → trim (suc f) size l
        ≡ (n.value ∷ (trim f size (remove n.addr l)).0, (trim f size (remove n.addr l)).1)
  unfolding trim
  trim_step f size l n many q = rw (many, q, trim)

  -- The trimming loop is removeFromList, for the elements that are too many.
  pub trim_lem :
      (f size : ℕ) (l : List (Node O))
      → Distinct l
      → length l ≤ f
      → trim f size l ≡ remove_from_list (length l - size) l
  unfolding trim remove_from_list
  trim_lem zero size [] d b = let e : 0 - size ≡ 0 = omega arith in rw e refl
  trim_lem zero size (n ∷ l) d b = absurd (omega arith)
  trim_lem (suc f) size l d b = elim (Bool-cases (ltb size (length l))) [
    | inr few ↦ let e : length l - size ≡ 0 = ground arith in rw (few, e) refl
    | inl many ↦ elim (Option-cases (back l)) [
      | inl none_left ↦ absurd (ground (arith, ap (length {0}) (back-none l none_left)))
      | inr (n, q) ↦
          let rest = remove n.addr l in
          let shorter = length-remove hash n.addr (hash n.value) l d (back-Has hash l n q) in
          let e : length l - size ≡ suc (length rest - size) = ground (arith, shorter) in
          trim_step f size l n many q
          ∙ ap (λ (r : List O × List (Node O)). (n.value ∷ r.0, r.1))
              (trim_lem f size rest (Distinct-remove n.addr l d) (omega (arith, shorter)))
          ∙ sym
              (ap (λ m. remove_from_list m l) e ∙ remove_from_list-some (length rest - size) l n q)
    ]
  ]

  move_down_step :
      (f size : ℕ) (s : TieredLruCache O H) (i : ℕ) (n : Node O) (el : Element)
      → ltb size (size_of s i) ≡ true
      → back (s.tiers i) ≡ some n
      → s.lookup (hash n.value) ≡ some el
      → move_down dec hash (suc f) size s i
        ≡ move_down dec hash f size
            (place_front dec hash (unlink dec hash s i n.addr) (i + 1) n.value)
            i
  unfolding move_down unlink
  move_down_step f size s i n el many b e = rw (many, b, move_down, e)

  move_down_stop :
      (f size : ℕ) (s : TieredLruCache O H) (i : ℕ)
      → ltb size (size_of s i) ≡ false
      → move_down dec hash (suc f) size s i ≡ s
  unfolding move_down
  move_down_stop f size s i few = rw (few, move_down)

  -- What the rounds for the tier `i` do.
  pub record Down (s s' : TieredLruCache O H) (i size : ℕ) : Type 0 where
    pub moves : Moves dec hash s s'
    pub fits : size_of s' i ≤ size
    pub others : (j : ℕ) → j < i → size_of s' j ≡ size_of s j

  pub move_down-Down :
      (f size : ℕ) (s : TieredLruCache O H) (i : ℕ)
      → IsValid dec hash s
      → i + 1 < cache_tiers
      → size_of s i ≤ f + size
      → Down s (move_down dec hash f size s i) i size
  unfolding move_down
  move_down-Down zero size s i v r b = record {
    moves = Moves-refl dec hash v;
    fits = omega arith;
    others = λ j p. refl;
  }
  move_down-Down (suc f) size s i v r b = elim (Bool-cases (ltb size (size_of s i))) [
    | inr few ↦
        rw (move_down_stop f size s i few)
          (record { moves = Moves-refl dec hash v; fits = ground arith; others = λ j p. refl })
    | inl many ↦ elim (Option-cases (back (s.tiers i))) [
      | inl q ↦ absurd (ground (arith, ap (length {0}) (back-none (s.tiers i) q)))
      | inr (n, q) ↦
          let e = Has-Listed dec hash s v i n.addr (hash n.value) (back-Has hash (s.tiers i) n q) in
          let m = move_front-Moves dec hash s v i n.addr (i + 1) n.value e r in
          let sizes = move_front-sizes dec hash s v i n.addr (i + 1) n.value e r in
          let ih =
            move_down-Down f size
              (place_front dec hash (unlink dec hash s i n.addr) (i + 1) n.value) i m.valid r
              (omega (arith, sizes i, at_self i, at_ne (i + 1) i (omega arith))) in
          rw (move_down_step f size s i n _ many q e) (record {
            moves = Moves-trans dec hash m ih.moves;
            fits = ih.fits;
            others = λ j p. omega (
              arith,
              ih.others j p,
              sizes j,
              at_ne i j (omega arith),
              at_ne (i + 1) j (omega arith),
            );
          })
    ]
  ]

  -- What the rounds for `k` tiers from `i` on do.
  pub record AllDown (s s' : TieredLruCache O H) (i k size : ℕ) : Type 0 where
    pub moves : Moves dec hash s s'
    pub fit : (j : ℕ) → i ≤ j → j < i + k → size_of s' j ≤ size
    pub others : (j : ℕ) → j < i → size_of s' j ≡ size_of s j

  pub move_all_down-AllDown :
      (k size : ℕ) (s : TieredLruCache O H) (i : ℕ)
      → IsValid dec hash s
      → i + k < cache_tiers
      → AllDown s (move_all_down dec hash k size s i) i k size
  unfolding move_all_down
  move_all_down-AllDown zero size s i v r = record {
    moves = Moves-refl dec hash v;
    fit = λ j p q. absurd (omega arith);
    others = λ j p. refl;
  }
  move_all_down-AllDown (suc k) size s i v r =
      let one = move_down-Down (size_of s i) size s i v (omega arith) (omega arith) in
      let u = move_down dec hash (size_of s i) size s i in
      let ih = move_all_down-AllDown k size u (i + 1) one.moves.valid (omega arith) in
      record {
        moves = Moves-trans dec hash one.moves ih.moves;
        fit = λ j p q. elim (Bool-cases (j == i)) [
          | inl e ↦
              let e' : j ≡ i = ground arith in
              rw e' (omega (arith, ih.others i (omega arith), one.fits))
          | inr e ↦ ih.fit j (ground arith) (omega arith)
        ];
        others = λ j p. omega (arith, ih.others j (omega arith), one.others j p);
      }
