-- ===== src/PartWriter/Flush.antt =====
-- The parts of a round of Write, and the loop after a round.
use nedomi.Prelude.{
  ℕ, suc, ◌+◌, ◌≡◌, refl, ap, ◌∙◌, true, Option, none, some, List, ◌∷◌, ◌==◌, length, Bool-cases,
  Option-cases, inl, inr, drop,
}
use nedomi.PartWriter.{
  Zone, PartWriter, Written, flush_buffer, save_buffer, part_of, round, write, bytes,
}

module _ {E B Err : Type 0} (zone : Zone E B Err) where
  pub save_buffer-nil :
      (e : E) (pw : PartWriter B)
      → (save_buffer zone e pw).err ≡ none
      → (save_buffer zone e pw).writer ≡ record pw { buf = none }
  unfolding save_buffer
  save_buffer-nil e pw ok =
      let kept = zone.should_keep e (part_of zone pw) in
      elim (Bool-cases kept.1) [
        | inl k ↦ elim (Option-cases (zone.save_part kept.0 (part_of zone pw) (bytes pw.buf)).1) [
          | inl s ↦ rw (k, s, save_buffer) refl
          | inr (x, s) ↦ absurd (cc (rw (k, s, save_buffer) at ok))
        ]
        | inr k ↦ rw (k, save_buffer) refl
      ]

  pub save_buffer-count : (e : E) (pw : PartWriter B) → (save_buffer zone e pw).count ≡ 0
  unfolding save_buffer
  save_buffer-count e pw =
      let kept = zone.should_keep e (part_of zone pw) in
      elim (Bool-cases kept.1) [
        | inl k ↦ elim (Option-cases (zone.save_part kept.0 (part_of zone pw) (bytes pw.buf)).1) [
          | inl s ↦ rw (k, s, save_buffer) refl
          | inr (x, s) ↦ rw (k, s, save_buffer) refl
        ]
        | inr k ↦ rw (k, save_buffer) refl
      ]

  pub flush_buffer-full :
      (e : E) (pw : PartWriter B)
      → (length (bytes pw.buf) == pw.part_size) ≡ true
      → flush_buffer zone e pw ≡ save_buffer zone e pw
  unfolding flush_buffer
  flush_buffer-full e pw full = elim (Bool-cases (pw.current_pos == pw.obj_size)) [
    | inl c ↦ rw (full, c) refl
    | inr c ↦ rw (full, c) refl
  ]

  resume : ℕ → List B → ℕ → Written E B Err → Option (Written E B Err)
  resume f l n r = elim r.err [
    | some err ↦ some (record r { count = n })
    | none ↦ write zone f r.env r.writer (drop r.count l) (n + r.count)
  ]

  pub write-none :
      (f : ℕ) (e : E) (pw : PartWriter B) (x : B) (l : List B) (n : ℕ) (r : Written E B Err)
      → round zone e pw (x ∷ l) ≡ r
      → r.err ≡ none
      → write zone (suc f) e pw (x ∷ l) n
        ≡ write zone f r.env r.writer (drop r.count (x ∷ l)) (n + r.count)
  unfolding write resume
  write-none f e pw x l n r q ok = ap (resume f (x ∷ l) n) q ∙ rw ok refl

  pub write-some :
      (f : ℕ) (e : E) (pw : PartWriter B) (x : B) (l : List B) (n : ℕ) (r : Written E B Err)
      (y : Err)
      → round zone e pw (x ∷ l) ≡ r
      → r.err ≡ some y
      → write zone (suc f) e pw (x ∷ l) n ≡ some (record r { count = n })
  unfolding write resume
  write-some f e pw x l n r y q ok = ap (resume f (x ∷ l) n) q ∙ rw ok refl
