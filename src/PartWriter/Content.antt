-- ===== src/PartWriter/Content.antt =====
-- What the writer saves: every part is the piece of the object at the part's place.
use nedomi.Prelude.{
  ℕ, zero, suc, ◌+◌, ◌-◌, ◌*◌, ◌%◌, ◌/◌, ◌^◌, ◌≤◌, ◌<◌, ◌≡◌, refl, ap, sym, ◌∙◌, Option, none, some,
  List, [], ◌∷◌, ◌++◌, ◌==◌, length, length-append, append-nil, append_assoc, arith, Bool-cases,
  Option-cases, inl, inr, ◌⊎◌, take, drop, length-drop,
}
use native.Mathlib.Nat.{
  mod-eq_of_lt, add-mod_right, mul-div_cancel, le-div_iff_mul-le, div-add-mod',
}
use nedomi.PartWriter.{Zone, PartWriter, save_buffer, part_of, bytes}
use nedomi.PartWriter.Bytes.{open_part, put, make_space}
use nedomi.PartWriter.Chunk.{at}
use nedomi.PartWriter.Flush.{flush_buffer-full, save_buffer-nil}

pub drop-suc :
    {B : Type 0} (n : ℕ) (l : List B) (x : B) (r : List B) → drop n l ≡ x ∷ r → drop (n + 1) l ≡ r
drop-suc zero [] x r e = absurd (cc e)
drop-suc zero (y ∷ l) x r e = cc e
drop-suc (suc n) [] x r e = absurd (cc e)
drop-suc (suc n) (y ∷ l) x r e =
    let next : suc n + 1 ≡ suc (n + 1) = omega arith in
    ap (λ k. drop k (y ∷ l)) next ∙ drop-suc n l x r e

pub drop-all : {B : Type 0} (n : ℕ) (l : List B) → length l ≤ n → drop n l ≡ []
drop-all zero [] b = refl
drop-all zero (x ∷ l) b = absurd (omega arith)
drop-all (suc n) [] b = refl
drop-all (suc n) (x ∷ l) b = drop-all n l (omega arith)

pub take-append : {B : Type 0} (a r : List B) → take (length a) (a ++ r) ≡ a
take-append [] r = refl
take-append (x ∷ a) r = ap (λ l. x ∷ l) (take-append a r)

pub take-all : {B : Type 0} (n : ℕ) (l : List B) → length l ≤ n → take n l ≡ l
take-all zero [] b = refl
take-all zero (x ∷ l) b = absurd (omega arith)
take-all (suc n) [] b = refl
take-all (suc n) (x ∷ l) b = ap (λ r. x ∷ r) (take-all n l (omega arith))

module _ {E B Err : Type 0} (zone : Zone E B Err) (size : ℕ) (obj : List B) where
  -- The buffer holds the object's bytes from the start of a part up to `p`.
  abbrev pub Buffers : ℕ → Option (List B) → Type 0
  Buffers p none = Unit
  Buffers p (some b) =
      (q : ℕ) × (p ≡ q * size + length b)
      × (length b ≤ size)
      × (drop (q * size) obj ≡ b ++ drop p obj)

  -- The piece of the object at the place of part `i`.
  abbrev pub piece : ℕ → List B
  piece i = take size (drop (i * size) obj)

  -- The number of the part in the buffer: nothing wraps around.
  part_number :
      (pw : PartWriter B) (b : List B) (q p : ℕ)
      → 0 < size
      → length obj < 2 ^ 64
      → length obj / size < 2 ^ 32
      → pw.part_size ≡ size
      → p ≡ q * size + length b
      → p ≤ length obj
      → part_of zone (at pw p (some b)) ≡ q
  unfolding part_of
  part_number pw b q p pos a c s e w =
      let start : p + 2 ^ 64 - length b ≡ q * size + 2 ^ 64 = omega arith in
      let below : q ≤ length obj / size = (le-div_iff_mul-le pos).1 (omega arith) in
      ap (λ t. t % 2 ^ 64 / pw.part_size % 2 ^ 32) start
      ∙ ap (λ t. t / pw.part_size % 2 ^ 32)
          (add-mod_right (q * size) (2 ^ 64) ∙ mod-eq_of_lt (omega arith))
      ∙ ap (λ t. q * size / t % 2 ^ 32) s
      ∙ ap (λ t. t % 2 ^ 32) (mul-div_cancel q pos)
      ∙ mod-eq_of_lt (omega arith)

  -- A property of the zone's state that its operations keep, SavePart for the right pieces.
  pub record IsKept (Inv : E → Type 0) : Type 0 where
    pub asked : (e : E) (i : ℕ) → Inv e → Inv (zone.should_keep e i).0
    pub added : (e : E) (i : ℕ) → Inv e → Inv (zone.add_object e i).0
    pub saved : (e : E) (i : ℕ) → Inv e → Inv (zone.save_part e i (piece i)).0

  module _ (Inv : E → Type 0) (kept : IsKept Inv) where
    save_buffer-Inv :
        (e : E) (pw : PartWriter B)
        → bytes pw.buf ≡ piece (part_of zone pw)
        → Inv e
        → Inv (save_buffer zone e pw).env
    unfolding save_buffer
    save_buffer-Inv e pw content v =
        let i = part_of zone pw in
        let a = kept.asked e i v in
        let s : Inv (zone.save_part (zone.should_keep e i).0 i (bytes pw.buf)).0 =
          rw content (kept.saved (zone.should_keep e i).0 i a) in
        elim (Bool-cases (zone.should_keep e i).1) [
          | inl k ↦
              elim (Option-cases (zone.save_part (zone.should_keep e i).0 i (bytes pw.buf)).1) [
                | inl o ↦ rw (k, o, save_buffer) (kept.added _ i s)
                | inr (x, o) ↦ rw (k, o, save_buffer) s
              ]
          | inr k ↦ rw (k, save_buffer) a
        ]

    module _ (pos : 0 < size) (in_range : length obj < 2 ^ 64)
        (parts_in_range : length obj / size < 2 ^ 32) where
      pub save_buffer-piece :
          (e : E) (pw : PartWriter B) (p : ℕ) (b : List B)
          → pw.part_size ≡ size
          → p ≤ length obj
          → Buffers p (some b)
          → (length b ≡ size) ⊎ (drop p obj ≡ [])
          → Inv e
          → Inv (save_buffer zone e (at pw p (some b))).env
      save_buffer-piece e pw p b s le (q, start, fits, begins) ends v =
          let number = part_number pw b q p pos in_range parts_in_range s start le in
          let whole : b ≡ piece q = elim ends [
            | inl full ↦
                sym (take-append b (drop p obj))
                ∙ ap (λ k. take k (b ++ drop p obj)) full
                ∙ ap (take size) (sym begins)
            | inr last ↦
                sym (take-all size b fits)
                ∙ ap (take size) (sym (append-nil b))
                ∙ ap (λ r. take size (b ++ r)) (sym last)
                ∙ ap (take size) (sym begins)
          ] in
          save_buffer-Inv e (at pw p (some b)) (whole ∙ ap piece (sym number)) v

      -- The buffer after one byte at `p`, where there was none.
      begin_buffer :
          (pw : PartWriter B) (p : ℕ) (x : B) (r : List B)
          → pw.part_size ≡ size
          → drop p obj ≡ x ∷ r
          → (b : Option (List B)) × (put (open_part (at pw p none)) x ≡ at pw (p + 1) b)
            × Buffers (p + 1) b
      unfolding put open_part
      begin_buffer pw p x r s d = elim (Bool-cases (p % pw.part_size == 0)) [
        | inr z ↦ (none, rw z refl, tt)
        | inl z ↦
            let z' : p % pw.part_size ≡ 0 = ground arith in
            let z'' : p % size ≡ 0 = ap (λ t. p % t) (sym s) ∙ z' in
            let start : p / size * size ≡ p = omega (arith, div-add-mod' p size, z'') in
            (
              some (x ∷ []),
              rw z refl,
              (
                p / size,
                omega (arith, start),
                omega arith,
                ap (λ t. drop t obj) start ∙ d ∙ ap (λ t. x ∷ t) (sym (drop-suc p obj x r d)),
              ),
            )
      ]

      -- One byte.
      pub byte_kept :
          (e : E) (pw : PartWriter B) (p : ℕ) (b : Option (List B)) (x : B) (r : List B)
          → pw.part_size ≡ size
          → Buffers p b
          → drop p obj ≡ x ∷ r
          → Inv e
          → Inv (make_space zone e (at pw p b)).env
            × ((make_space zone e (at pw p b)).err ≡ none
                → (b' : Option (List B)) × (put (open_part (make_space zone e (at pw p b)).writer) x
                    ≡ at pw (p + 1) b')
                  × Buffers (p + 1) b')
      unfolding make_space
      byte_kept e pw p none x r s v d i = (i, λ _. begin_buffer pw p x r s d)
      byte_kept e pw p (some b) x r s (q, start, fits, begins) d i =
          let inside : p < length obj = omega (arith, length-drop p obj, ap (length {0}) d) in
          elim (Bool-cases (length b == pw.part_size)) [
            | inl full ↦
                let same = flush_buffer-full zone e (at pw p (some b)) full in
                rw (full, same)
                  (
                    save_buffer-piece e pw p b s (omega arith) (q, start, fits, begins)
                        (inl (ground arith)) i,
                    λ ok.
                        rw (save_buffer-nil zone e (at pw p (some b)) ok)
                          (begin_buffer pw p x r s d),
                  )
            | inr room ↦ rw room (
              i,
              λ _. (
                some (b ++ x ∷ []),
                unfold put open_part in refl,
                (
                  q,
                  omega (arith, length-append b (x ∷ []), start),
                  ground (arith, length-append b (x ∷ [])),
                  begins
                      ∙ ap (λ t. b ++ t) (d ∙ ap (λ t. x ∷ t) (sym (drop-suc p obj x r d)))
                      ∙ sym (append_assoc b (x ∷ []) (drop (p + 1) obj)),
                ),
              ),
            )
          ]
