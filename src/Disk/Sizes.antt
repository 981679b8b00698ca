-- ===== src/Disk/Sizes.antt =====
-- getPartSize, storage/disk/utils.go.
use nedomi.Prelude.{
  ℕ, ◌+◌, ◌-◌, ◌*◌, ◌/◌, ◌%◌, ◌^◌, ◌≤◌, ◌<◌, ◌≡◌, ap, ltb, ◌==◌, arith, min, Bool-cases, inl, inr,
}
use native.Mathlib.Nat.{mod-eq_of_lt, div-add-mod', mod-lt, mul-le-mul_right, add-mul}
use nedomi.Disk.{Disk, get_part_size}

-- Where the object has less than 2^32 whole parts, the size of a part is what is left of the object
-- from the part's start on, and at most the size of a part.
pub get_part_size-min :
    (s : Disk) (part_num object_size : ℕ)
    → 0 < s.part_size
    → object_size / s.part_size < 2 ^ 32
    → get_part_size s part_num object_size ≡ min s.part_size (object_size - part_num * s.part_size)
unfolding get_part_size
get_part_size-min s n size pos few =
    let ps = s.part_size in
    let q = size / ps in
    let whole : size / ps % 2 ^ 32 ≡ size / ps = mod-eq_of_lt few in
    let split : q * ps + size % ps ≡ size = div-add-mod' size ps in
    let rest : size % ps < ps = mod-lt size pos in
    elim (Bool-cases (ltb q n)) [
      | inl t ↦
          let above : (q + 1) * ps ≤ n * ps = mul-le-mul_right ps (ground arith) in
          rw (whole, t) (omega (arith, above, add-mul q 1 ps, split, rest))
      | inr t ↦ elim (Bool-cases (n == q)) [
        | inl u ↦
            let same : n * ps ≡ q * ps = let e : n ≡ q = ground arith in ap (λ k. k * ps) e in
            rw (whole, t, u) (omega (arith, same, split, rest))
        | inr u ↦
            let below : (n + 1) * ps ≤ q * ps = mul-le-mul_right ps (ground arith) in
            rw (whole, t, u) (omega (arith, below, add-mul n 1 ps, split))
      ]
    ]
