-- ===== src/Respond/Pieces.antt =====
-- Streams that deliver a stretch of an object, or a beginning of it before an error.
use nedomi.Prelude.{
  subst, ℕ, ◌+◌, ◌-◌, ◌≤◌, ◌≡◌, refl, ap, sym, ◌∙◌, false, List, ◌++◌, ltb, min, length, take, drop,
  arith, Bool-cases, inl, inr, take-take, drop-take, take-add, drop-drop, length-take, take-end,
  length-drop,
}
use nedomi.Respond.{Stream, multi, skip, limit, broken}

-- The content is the first `k` bytes of the `n` bytes of the object from `from` on; without an
-- error it is all of them.
pub record IsPiece {B : Type 0} (obj : List B) (from n : ℕ) (s : Stream B) : Type 0 where
  pub k : ℕ
  pub within : k ≤ n
  pub content : s.content ≡ take k (drop from obj)
  pub whole : s.fails ≡ false → k ≡ n

module _ {B : Type 0} {obj : List B} where
  pub IsPiece-at :
      {s : Stream B} {a b n m : ℕ} → a ≡ b → n ≡ m → IsPiece obj a n s → IsPiece obj b m s
  IsPiece-at {s = s} {b = b} {n = n} p q h =
      subst (λ k. IsPiece obj b k s) q (subst (λ k. IsPiece obj k n s) p h)

module _ {B : Type 0} (obj : List B) where
  pub skip-IsPiece :
      (from n j : ℕ) (s : Stream B)
      → IsPiece obj from n s
      → IsPiece obj (from + j) (n - j) (skip j s)
  unfolding skip
  skip-IsPiece from n j s p = record {
    k = p.k - j;
    within = omega (arith, p.within);
    content =
        ap (drop j) p.content
        ∙ drop-take j p.k (drop from obj)
        ∙ ap (take (p.k - j)) (drop-drop j from obj);
    whole = λ e. omega (arith, p.whole e);
  }

  pub limit-IsPiece :
      (from n m : ℕ) (s : Stream B) → m ≤ n → IsPiece obj from n s → IsPiece obj from m (limit m s)
  unfolding limit
  limit-IsPiece from n m s b p = record {
    k = min m p.k;
    within = omega arith;
    content = ap (take m) p.content ∙ take-take m p.k (drop from obj);
    whole = λ e. elim (Bool-cases s.fails) [
      | inr f ↦ omega (arith, p.whole f)
      | inl f ↦
          let enough : m ≤ length s.content = ground arith in
          let l : length s.content ≡ min p.k (length (drop from obj)) =
            ap (length {0}) p.content ∙ length-take p.k (drop from obj) in
          omega (arith, enough, l)
    ];
  }

  pub multi-IsPiece :
      (from n m : ℕ) (s t : Stream B)
      → IsPiece obj from n s
      → IsPiece obj (from + n) m t
      → IsPiece obj from (n + m) (multi s t)
  unfolding multi
  multi-IsPiece from n m s t p q = elim (Bool-cases s.fails) [
    | inl f ↦ rw f (record {
      k = p.k;
      within = omega (arith, p.within);
      content = p.content;
      whole = λ e. absurd (cc e);
    })
    | inr f ↦ rw f (record {
      k = n + q.k;
      within = omega (arith, q.within);
      content =
          ap (λ c. c ++ t.content) p.content
          ∙ ap (λ j. take j (drop from obj) ++ t.content) (p.whole f)
          ∙ ap (λ c. take n (drop from obj) ++ c) q.content
          ∙ ap (λ c. take n (drop from obj) ++ take q.k c) (sym (drop-drop n from obj))
          ∙ sym (take-add n q.k (drop from obj));
      whole = λ e. omega (arith, q.whole e);
    })
  ]

  pub broken-IsPiece : (from n : ℕ) → IsPiece obj from n broken
  broken-IsPiece from n = record {
    k = 0;
    within = omega arith;
    content = refl;
    whole = λ e. absurd (cc e);
  }

  -- A stretch over the object's end is as good as one up to it.
  pub IsPiece-end :
      (from n m : ℕ) (s : Stream B)
      → length obj ≤ from + n
      → length obj ≤ from + m
      → IsPiece obj from n s
      → IsPiece obj from m s
  IsPiece-end from n m s a b p =
      let l : length (drop from obj) ≡ length obj - from = length-drop from obj in
      elim (Bool-cases s.fails) [
        | inr f ↦ record {
          k = m;
          within = omega arith;
          content =
              p.content
              ∙ ap (λ j. take j (drop from obj)) (p.whole f)
              ∙ take-end n m (drop from obj) (omega (arith, l)) (omega (arith, l));
          whole = λ e. refl;
        }
        | inl f ↦
            let cut : take p.k (drop from obj) ≡ take (min p.k m) (drop from obj) =
              elim (Bool-cases (ltb m p.k)) [
                | inl t ↦
                    take-end p.k (min p.k m) (drop from obj) (ground (arith, l)) (ground (arith, l))
                | inr t ↦
                    let e : p.k ≡ min p.k m = ground arith in ap (λ j. take j (drop from obj)) e
              ] in
            record {
              k = min p.k m;
              within = omega arith;
              content = p.content ∙ cut;
              whole = λ e. absurd (cc (e, f));
            }
      ]
