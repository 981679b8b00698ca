-- ===== src/Respond/Cut.antt =====
-- What of the fetched parts is in the range.
use nedomi.Prelude.{
  ℕ, ◌+◌, ◌-◌, ◌*◌, ◌/◌, ◌%◌, ◌^◌, ◌≤◌, ◌<◌, ◌≡◌, refl, ap, sym, ◌∙◌, List, ltb, ◌==◌,
  if◌then◌else◌, length, arith, Bool-cases, inl, inr, min,
}
use native.Mathlib.Nat.{mul-le-mul_right, add-mul, div-add-mod', mod-lt, le-div_iff_mul-le}
use nedomi.Respond.{Stream, Server, break_in_indexes, skip}
use nedomi.Respond.Pieces.{IsPiece, IsPiece-at, skip-IsPiece, limit-IsPiece}
use nedomi.Respond.Faithful.{IsFaithful, length-indexes_from}
use nedomi.Respond.Lazily.{indexes, is_skipped, end_limit, cut_to_range}

-- The number of the first part of the range, the count of its parts, and how much of the range is
-- sent before the index `i`.
module _ {E B : Type 0} (srv : Server E B) (start end : ℕ) where
  abbrev pub first_part : ℕ
  first_part = start / srv.part_size

  abbrev pub count_parts : ℕ
  count_parts = end / srv.part_size + 1 - start / srv.part_size

  abbrev pub sent_before : ℕ → ℕ
  sent_before i = min (end + 1 - start) ((start / srv.part_size + i) * srv.part_size - start)

module _ {E B : Type 0} (srv : Server E B) (obj : List B) (laws : IsFaithful srv obj)
    (start end : ℕ) (order : start ≤ end) (inside : end < length obj)
    (few : end / srv.part_size + 1 < 2 ^ 32) where
  -- The positions, as multiples of the size of a part.
  record Marks (i c : ℕ) : Type 0 where
    start_at : start ≡ first_part srv start end * srv.part_size + start % srv.part_size
    start_in : start % srv.part_size < srv.part_size
    end_at : end ≡ end / srv.part_size * srv.part_size + end % srv.part_size
    end_in : end % srv.part_size < srv.part_size
    run :
        (first_part srv start end + (i + c)) * srv.part_size
        ≡ (first_part srv start end + i) * srv.part_size + c * srv.part_size
    whole : c * srv.part_size ≡ (c - 1) * srv.part_size + srv.part_size
    zeroth :
        i ≡ 0
        → (first_part srv start end + i) * srv.part_size ≡ first_part srv start end * srv.part_size
    later :
        0 < i
        → first_part srv start end * srv.part_size + srv.part_size
          ≤ (first_part srv start end + i) * srv.part_size
    inside_end :
        (first_part srv start end + i) * srv.part_size ≤ end / srv.part_size * srv.part_size
    last :
        i + c ≡ count_parts srv start end
        → (first_part srv start end + (i + c)) * srv.part_size
          ≡ end / srv.part_size * srv.part_size + srv.part_size
    more :
        i + c < count_parts srv start end
        → (first_part srv start end + (i + c)) * srv.part_size ≤ end / srv.part_size * srv.part_size

  marks : (i c : ℕ) → 0 < c → i + c ≤ count_parts srv start end → Marks i c
  marks i c pos le =
      let ps = srv.part_size in
      let q = end / ps in
      record {
        start_at = sym (div-add-mod' start ps);
        start_in = mod-lt start laws.positive;
        end_at = sym (div-add-mod' end ps);
        end_in = mod-lt end laws.positive;
        run =
            let e : first_part srv start end + (i + c) ≡ first_part srv start end + i + c =
              omega arith in
            ap (λ k. k * ps) e ∙ add-mul (first_part srv start end + i) c ps;
        whole =
            let e : c ≡ c - 1 + 1 = omega arith in
            ap (λ k. k * ps) e ∙ omega (arith, add-mul (c - 1) 1 ps);
        zeroth = λ z.
            let e : first_part srv start end + i ≡ first_part srv start end = omega arith in
            ap (λ k. k * ps) e;
        later = λ z.
            let m : (first_part srv start end + 1) * ps ≤ (first_part srv start end + i) * ps =
              mul-le-mul_right ps (omega arith) in
            omega (arith, m, add-mul (first_part srv start end) 1 ps);
        inside_end = mul-le-mul_right ps (omega arith);
        last = λ z.
            let e : first_part srv start end + (i + c) ≡ q + 1 = omega arith in
            ap (λ k. k * ps) e ∙ omega (arith, add-mul q 1 ps);
        more = λ z. mul-le-mul_right ps (omega arith);
      }

  -- The reader from the place that the range reaches in it.
  skipped : ℕ → Stream B → Stream B
  skipped i s = if is_skipped srv start end i then skip (start % srv.part_size) s else s

  skipped-IsPiece :
      (i c : ℕ) (s : Stream B)
      → Marks i c
      → IsPiece obj ((first_part srv start end + i) * srv.part_size) (c * srv.part_size) s
      → IsPiece obj
          (start + sent_before srv start end i)
          ((first_part srv start end + (i + c)) * srv.part_size
            - (start + sent_before srv start end i))
          (skipped i s)
  unfolding skipped
  skipped-IsPiece i c s k p = elim (Bool-cases (i == 0)) [
    | inr t ↦ rw t (
        let z : 0 < i = ground arith in
        IsPiece-at (omega (arith, k.later z, k.start_at, k.start_in, k.inside_end, k.end_at))
          (omega (arith, k.later z, k.start_at, k.start_in, k.inside_end, k.end_at, k.run)) p)
    | inl t ↦
        let z : i ≡ 0 = ground arith in
        elim (Bool-cases (ltb 0 (start % srv.part_size))) [
          | inl u ↦
              rw (t, u)
                (IsPiece-at (omega (arith, k.zeroth z, k.start_at, k.start_in))
                  (omega (arith, k.zeroth z, k.start_at, k.start_in, k.run))
                  (skip-IsPiece obj _ _ (start % srv.part_size) s p))
          | inr u ↦
              let no_offset : start % srv.part_size ≡ 0 = ground arith in
              rw (t, u)
                (IsPiece-at (omega (arith, k.zeroth z, k.start_at, no_offset))
                  (omega (arith, k.zeroth z, k.start_at, no_offset, k.run)) p)
        ]
  ]

  pub length-indexes : length (indexes srv start end) ≡ count_parts srv start end
  unfolding break_in_indexes
  length-indexes = length-indexes_from (count_parts srv start end) (first_part srv start end)

  end_limit_lem :
      (i c : ℕ)
      → Marks i c
      → i + c ≡ count_parts srv start end
      → end_limit srv start end i c
        ≡ sent_before srv start end (i + c) - sent_before srv start end i
  unfolding end_limit
  end_limit_lem i c k e =
      let last = k.last e in
      elim (Bool-cases (i == 0)) [
        | inl t ↦
            let z : i ≡ 0 = ground arith in
            rw t (
              omega (
                arith,
                last,
                k.run,
                k.whole,
                k.zeroth z,
                k.start_at,
                k.start_in,
                k.end_at,
                k.end_in,
                laws.bounded,
                inside,
                order,
              ))
        | inr t ↦
            let z : 0 < i = ground arith in
            rw t (
              omega (
                arith,
                last,
                k.run,
                k.whole,
                k.later z,
                k.start_at,
                k.start_in,
                k.end_at,
                k.end_in,
                laws.bounded,
                inside,
                order,
              ))
      ]

  -- What of a run of parts is in the range, for a run from index `i` on of `c` parts.
  pub cut_to_range-IsPiece :
      (i c : ℕ) (s : Stream B)
      → 0 < c
      → i + c ≤ count_parts srv start end
      → IsPiece obj ((first_part srv start end + i) * srv.part_size) (c * srv.part_size) s
      → IsPiece obj
          (start + sent_before srv start end i)
          (sent_before srv start end (i + c) - sent_before srv start end i)
          (cut_to_range srv start end i c s)
  unfolding cut_to_range skipped
  cut_to_range-IsPiece i c s pos le p =
      let k = marks i c pos le in
      let q = skipped-IsPiece i c s k p in
      elim (Bool-cases (i + c == length (indexes srv start end))) [
        | inr t ↦
            let ne : i + c < count_parts srv start end = ground (arith, length-indexes) in
            rw t
              (IsPiece-at refl (omega (arith, k.more ne, k.inside_end, k.end_at, k.run, order)) q)
        | inl t ↦
            let eq : i + c ≡ count_parts srv start end = ground (arith, length-indexes) in
            let m = end_limit_lem i c k eq in
            rw (t, m)
              (limit-IsPiece obj _ _
                (sent_before srv start end (i + c) - sent_before srv start end i) (skipped i s)
                (omega (arith, k.last eq, k.end_in, k.end_at, k.inside_end, order)) q)
      ]

  pub first-count : first_part srv start end + count_parts srv start end ≡ end / srv.part_size + 1
  first-count =
      let le : start / srv.part_size ≤ end / srv.part_size =
        (le-div_iff_mul-le laws.positive).1
          (omega (arith, div-add-mod' start srv.part_size, order)) in
      omega (arith, le)

  pub sent_before-count : sent_before srv start end (count_parts srv start end) ≡ end + 1 - start
  sent_before-count =
      let ps = srv.part_size in
      let m : (start / ps + (end / ps + 1 - start / ps)) * ps ≡ end / ps * ps + 1 * ps =
        ap (λ k. k * ps) first-count ∙ add-mul (end / ps) 1 ps in
      omega (arith, m, div-add-mod' end ps, mod-lt end laws.positive)

  pub sent_before-zero : sent_before srv start end 0 ≡ 0
  sent_before-zero =
      let e : start / srv.part_size + 0 ≡ start / srv.part_size = omega arith in
      let m : (start / srv.part_size + 0) * srv.part_size ≡ start / srv.part_size * srv.part_size =
        ap (λ k. k * srv.part_size) e in
      omega (arith, m, div-add-mod' start srv.part_size)
