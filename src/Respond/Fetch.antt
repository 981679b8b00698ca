-- ===== src/Respond/Fetch.antt =====
-- getContents: what it fetches for an index is a run of whole parts.
use nedomi.Prelude.{
  ℕ, ◌+◌, ◌-◌, ◌*◌, ◌%◌, ◌^◌, ◌≤◌, ◌<◌, ◌≡◌, refl, ap, sym, ◌∙◌, true, some, List, ltb, length,
  get_or, arith, Bool-cases, inl, inr, Option-cases, subst,
}
use native.Mathlib.Nat.{mul-le-mul_right, add-mul}
use nedomi.PartWriter.{umin}
use nedomi.Balancing.Search.{search}
use nedomi.Respond.{
  Stream, Server, indexes_from, Contents, contents, failed, get_upstream_reader,
  get_part_from_storage, rest_from_upstream, up_to_part, is_ahead, after_missing, get_contents,
}
use nedomi.Respond.Pieces.{IsPiece, IsPiece-at, multi-IsPiece, IsPiece-end}
use nedomi.Respond.Faithful.{
  IsFaithful, length-indexes_from, get_or-indexes_from, search-found, get_part_from_storage-IsPiece,
  get_upstream_reader-IsPiece,
}

-- Whole parts, from the one at index `from` on, of the `n` parts that start with `first`.
pub data IsFetched {B : Type 0} (obj : List B) (part_size first n from : ℕ)
    : Contents B → Type 0 where
  is_failed : IsFetched obj part_size first n from failed
  is_chunk :
      (s : Stream B) (c : ℕ)
      → 0 < c
      → from + c ≤ n
      → IsPiece obj ((first + from) * part_size) (c * part_size) s
      → IsFetched obj part_size first n from (contents s c)

pred_mod : (x : ℕ) → 0 < x → x < 2 ^ 64 → (x + 2 ^ 64 - 1) % 2 ^ 64 ≡ x - 1
pred_mod x a b = omega arith

-- The parts of a range: the last of them begins inside the object.
module _ {E B : Type 0} (srv : Server E B) (obj : List B) (laws : IsFaithful srv obj) (first n : ℕ)
    (bound : first + n < 2 ^ 32) (inside : (first + n - 1) * srv.part_size < length obj) where
  IsPiece-to :
      (e : E) (from q : ℕ)
      → from < q
      → q ≤ n
      → IsPiece obj
          ((first + from) * srv.part_size)
          ((q - from) * srv.part_size)
          (get_upstream_reader srv e
            ((first + from) * srv.part_size)
            (umin srv.object_size (((first + q) * srv.part_size + 2 ^ 64 - 1) % 2 ^ 64))).1
  unfolding umin
  IsPiece-to e from q lt le =
      let ps = srv.part_size in
      let a = (first + from) * ps in
      let w = (q - from) * ps in
      let pos : 0 < ps = laws.positive in
      let sum : (first + q) * ps ≡ a + w =
        let e : first + q ≡ first + from + (q - from) = omega arith in
        ap (λ k. k * ps) e ∙ add-mul (first + from) (q - from) ps in
      let room : (first + q) * ps ≤ (first + n - 1 + 1) * ps = mul-le-mul_right ps (omega arith) in
      let split : (first + n - 1 + 1) * ps ≡ (first + n - 1) * ps + 1 * ps =
        add-mul (first + n - 1) 1 ps in
      let low : a ≤ (first + n - 1) * ps = mul-le-mul_right ps (omega arith) in
      let wide : 1 * ps ≤ w = mul-le-mul_right ps (omega arith) in
      let pred : ((first + q) * ps + 2 ^ 64 - 1) % 2 ^ 64 ≡ a + w - 1 =
        pred_mod ((first + q) * ps) (omega (arith, sum, wide, pos))
          (omega (arith, room, split, laws.bounded, inside))
        ∙ ap (λ k. k - 1) sum in
      let sized : srv.object_size ≡ length obj = laws.sized in
      elim (Bool-cases (ltb (a + w - 1) srv.object_size)) [
        | inl t ↦
            rw (pred, t)
              (let eq : a + w - 1 + 1 - a ≡ w = omega (arith, wide, pos) in
                IsPiece-at refl eq (
                  get_upstream_reader-IsPiece srv obj laws e a (a + w - 1)
                    (omega (arith, wide, pos))))
        | inr t ↦
            rw (pred, t)
              (let above : srv.object_size ≤ a + w - 1 = ground arith in
                let under : a ≤ srv.object_size = omega (arith, low, inside, sized) in
                IsPiece-end obj a (srv.object_size + 1 - a) w
                  (get_upstream_reader srv e a srv.object_size).1 (omega (arith, sized, under))
                  (omega (arith, sized, above))
                  (get_upstream_reader-IsPiece srv obj laws e a srv.object_size under))
      ]

  rest_from_upstream-IsFetched :
      (e : E) (from : ℕ)
      → from < n
      → IsFetched obj srv.part_size first n from
          (rest_from_upstream srv e (indexes_from n first) from).1
  unfolding rest_from_upstream
  rest_from_upstream-IsFetched e from lt =
      let last : get_or (indexes_from n first) (n - 1) 0 ≡ first + n - 1 =
        get_or-indexes_from n first (n - 1) (omega arith) (omega arith) ∙ omega arith in
      let step : (first + n - 1 + 1) % 2 ^ 32 ≡ first + n = omega arith in
      rw
        (length-indexes_from n first, last, step, get_or-indexes_from n first from lt (omega arith))
        (is_chunk _ (n - from) (omega arith) (omega arith) (IsPiece-to e from n lt (omega arith)))

  up_to_part-IsFetched :
      (e : E) (from j : ℕ)
      → from < j
      → j < n
      → IsFetched obj srv.part_size first n from
          (up_to_part srv e (indexes_from n first) from (first + j)).1
  unfolding up_to_part
  up_to_part-IsFetched e from j above below =
      let lt : from < n = omega arith in
      let r = get_part_from_storage srv e (first + j) in
      elim (Option-cases r.1) [
        | inl p ↦ rw (p, up_to_part) (rest_from_upstream-IsFetched r.0 from lt)
        | inr (o, p) ↦ elim (Option-cases o) [
          | inl q ↦ rw (p, q, up_to_part) (rest_from_upstream-IsFetched r.0 from lt)
          | inr (s, q) ↦
              let ps = srv.part_size in
              let a = (first + from) * ps in
              let start : (first + j) * ps ≡ a + (j - from) * ps =
                let e : first + j ≡ first + from + (j - from) = omega arith in
                ap (λ k. k * ps) e ∙ add-mul (first + from) (j - from) ps in
              let count : first + j - (first + from) + 1 ≡ j - from + 1 = omega arith in
              let width : (j - from) * ps + ps ≡ (j - from + 1) * ps =
                omega (arith, add-mul (j - from) 1 ps) in
              let tail : IsPiece obj (a + (j - from) * ps) ps s =
                IsPiece-at start refl
                  (get_part_from_storage-IsPiece srv obj laws e (first + j) (p ∙ ap some q)) in
              rw (p, q, up_to_part, get_or-indexes_from n first from lt (omega arith), count)
                (is_chunk _ (j - from + 1) (omega arith) (omega arith) (
                  IsPiece-at refl width (
                    multi-IsPiece obj a ((j - from) * ps) ps _ s
                      (IsPiece-to r.0 from j above (omega arith)) tail)))
        ]
      ]

  is_ahead-bounds :
      (from : ℕ) (parts : List ℕ) (i : ℕ)
      → from < n
      → is_ahead (indexes_from n first) from parts i ≡ true
      → (first + from < get_or parts i 0) × (get_or parts i 0 ≤ first + n - 1)
  unfolding is_ahead
  is_ahead-bounds from parts i lt =
      let last : get_or (indexes_from n first) (n - 1) 0 ≡ first + n - 1 =
        get_or-indexes_from n first (n - 1) (omega arith) (omega arith) ∙ omega arith in
      rw (length-indexes_from n first, last, get_or-indexes_from n first from lt (omega arith))
        (λ h. ground arith)

  after_missing-IsFetched :
      (e : E) (from : ℕ)
      → from < n
      → IsFetched obj srv.part_size first n from (after_missing srv e (indexes_from n first) from).1
  unfolding after_missing
  after_missing-IsFetched e from lt = elim (Option-cases (srv.get_available_parts e).1) [
    | inl p ↦ rw (p, after_missing) is_failed
    | inr (l, p) ↦
        let parts = srv.sort l in
        let test = is_ahead (indexes_from n first) from parts in
        elim (Bool-cases (ltb (search (length parts) test) (length parts))) [
          | inr t ↦ rw (p, after_missing, t) (rest_from_upstream-IsFetched _ from lt)
          | inl t ↦
              let found : test (search (length parts) test) ≡ true =
                search-found (length parts) test (ground arith) in
              let part = get_or parts (search (length parts) test) 0 in
              let bounds = is_ahead-bounds from parts _ lt found in
              let eq : first + (part - first) ≡ part = omega (arith, bounds.0) in
              rw (p, after_missing, t)
                (subst
                  (λ k.
                    IsFetched obj srv.part_size first n from
                      (up_to_part srv (srv.get_available_parts e).0 (indexes_from n first) from
                        k).1)
                  eq
                  (up_to_part-IsFetched (srv.get_available_parts e).0 from (part - first)
                    (omega (arith, bounds.0)) (omega (arith, bounds.0, bounds.1))))
        ]
  ]

  pub get_contents-IsFetched :
      (e : E) (from : ℕ)
      → from < n
      → IsFetched obj srv.part_size first n from (get_contents srv e (indexes_from n first) from).1
  unfolding get_contents
  get_contents-IsFetched e from lt =
      let get = get_or-indexes_from n first from lt (omega arith) in
      let one : 1 * srv.part_size ≡ srv.part_size = omega arith in
      let r = get_part_from_storage srv e (get_or (indexes_from n first) from 0) in
      elim (Option-cases r.1) [
        | inl p ↦ rw (p, get_contents) is_failed
        | inr (o, p) ↦ elim (Option-cases o) [
          | inl q ↦ rw (p, q, get_contents) (after_missing-IsFetched r.0 from lt)
          | inr (s, q) ↦
              rw (p, q, get_contents)
                (is_chunk s 1 (omega arith) (omega arith) (
                  IsPiece-at (ap (λ k. k * srv.part_size) get) (sym one)
                    (get_part_from_storage-IsPiece srv obj laws e _ (p ∙ ap some q))))
        ]
      ]
