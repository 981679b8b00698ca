-- ===== src/PartWriter/Saved.antt =====
-- A whole response through the writer: its writes and Close.
use nedomi.Prelude.{
  ℕ, ◌+◌, ◌-◌, ◌*◌, ◌%◌, ◌/◌, ◌^◌, ◌≤◌, ◌<◌, ◌≡◌, refl, ap, ◌⊎◌, Option, none, some, List, [], ◌∷◌,
  ◌++◌, ◌==◌, length, arith, Bool-cases, Option-cases, inl, inr, drop,
}
use nedomi.PartWriter.{
  Zone, PartWriter, Written, part_writer, flush_buffer, save_buffer, write, close,
}
use nedomi.PartWriter.Bytes.{make_space, write_bytes}
use nedomi.PartWriter.Chunk.{at, write_bytes-none, write_bytes-some}
use nedomi.PartWriter.Refine.{write-write_bytes}
use nedomi.PartWriter.Content.{Buffers, IsKept, byte_kept, save_buffer-piece, drop-suc, drop-all}

module _ {E B Err : Type 0} (zone : Zone E B Err) (size : ℕ) (obj : List B) (Inv : E → Type 0)
    (kept : IsKept zone size obj Inv) (pos : 0 < size) (in_range : length obj < 2 ^ 64)
    (parts_in_range : length obj / size < 2 ^ 32) where
  -- The outcome of bytes of the object: the zone's state is kept, and without an error the writer
  -- is at `p` with the right buffer.
  OutcomeAt : PartWriter B → ℕ → Written E B Err → Type 0
  OutcomeAt pw p r =
      Inv r.env
      × (r.err ≡ none → (b : Option (List B)) × (r.writer ≡ at pw p b) × Buffers zone size obj p b)

  write_bytes_kept :
      (l rest : List B) (e : E) (pw : PartWriter B) (p n : ℕ) (b : Option (List B))
      → pw.part_size ≡ size
      → Buffers zone size obj p b
      → drop p obj ≡ l ++ rest
      → Inv e
      → OutcomeAt pw (p + length l) (write_bytes zone e (at pw p b) l n)
  unfolding OutcomeAt write_bytes
  write_bytes_kept [] rest e pw p n b s v d i =
      let same : p ≡ p + 0 = omega arith in (i, λ _. (b, ap (λ q. at pw q b) same, rw (← same) v))
  write_bytes_kept (x ∷ l) rest e pw p n b s v d i =
      let r = make_space zone e (at pw p b) in
      let (kept', next) =
        byte_kept zone size obj Inv kept pos in_range parts_in_range e pw p b x (l ++ rest) s v d
          i in
      elim (Option-cases r.err) [
        | inr (y, bad) ↦
            rw (write_bytes-some zone pw e (at pw p b) x l n r y refl bad)
              (kept', λ ok. absurd (cc (ok, bad)))
        | inl ok ↦
            let (b', same, v') = next ok in
            let more : p + 1 + length l ≡ p + length (x ∷ l) = omega arith in
            rw (write_bytes-none zone pw e (at pw p b) x l n r refl ok, same, ← more)
              (write_bytes_kept l rest r.env pw (p + 1) (n + 1) b' s v'
                (drop-suc p obj x (l ++ rest) d) kept')
      ]

  flush_kept :
      (e : E) (pw : PartWriter B) (p : ℕ) (b : List B)
      → pw.part_size ≡ size
      → pw.obj_size ≡ length obj
      → p ≤ length obj
      → Buffers zone size obj p (some b)
      → Inv e
      → Inv (flush_buffer zone e (at pw p (some b))).env
  unfolding flush_buffer
  flush_kept e pw p b s o le v i =
      let piece_kept : (length b ≡ size) ⊎ (drop p obj ≡ [])
          → Inv (save_buffer zone e (at pw p (some b))).env =
        λ ends.
          save_buffer-piece zone size obj Inv kept pos in_range parts_in_range e pw p b s le v ends
            i in
      elim (Bool-cases (p == pw.obj_size)) [
        | inl c ↦
            let last : drop p obj ≡ [] = drop-all p obj (ground arith) in
            rw c (piece_kept (inr last))
        | inr c ↦ elim (Bool-cases (length b == pw.part_size)) [
          | inl full ↦ rw (c, full) (piece_kept (inl (ground arith)))
          | inr less ↦ rw (c, less) i
        ]
      ]

  close_kept :
      (e : E) (pw : PartWriter B) (p : ℕ) (b : Option (List B))
      → pw.part_size ≡ size
      → pw.obj_size ≡ length obj
      → p ≤ length obj
      → Buffers zone size obj p b
      → Inv e
      → Inv (close zone e (at pw p b)).env
  unfolding close
  close_kept e pw p none s o le v i =
      elim (Bool-cases ((p + 2 ^ 64 - pw.start_pos) % 2 ^ 64 == pw.length)) [
        | inl c ↦ rw c i
        | inr c ↦ rw c i
      ]
  close_kept e pw p (some b) s o le v i =
      elim (Bool-cases ((p + 2 ^ 64 - pw.start_pos) % 2 ^ 64 == pw.length)) [
        | inr c ↦ rw c i
        | inl c ↦ rw c (flush_kept e pw p b s o le v i)
      ]

  -- For an object of fewer than 2 ^ 64 bytes and 2 ^ 32 parts, a property of the zone's state that
  -- ShouldKeep and AddObject keep, and SavePart for the piece of the object at the part's place:
  -- Write of a stretch of the object, by a new writer that starts at its position, ends within
  -- three rounds for each byte and two more. It keeps the property, and where it returns no error
  -- so does Close after it.
  pub write-close_kept :
      (start : ℕ) (l rest : List B) (expected : ℕ) (e : E) (f : ℕ)
      → drop start obj ≡ l ++ rest
      → start + length l ≤ length obj
      → 3 * length l + 2 ≤ f
      → Inv e
      → (r : Written E B Err) × (write zone f e
            (part_writer size (record { start = start; length = expected; obj_size = length obj }))
            l
            0
          ≡ some r)
        × Inv r.env
        × (r.err ≡ none → Inv (close zone r.env r.writer).env)
  unfolding part_writer OutcomeAt
  write-close_kept start l rest expected e f d le fuel i =
      let pw : PartWriter B =
        part_writer size (record { start = start; length = expected; obj_size = length obj }) in
      let (kept', next) = write_bytes_kept l rest e pw start 0 none refl tt d i in
      let r = write_bytes zone e pw l 0 in
      (
        r,
        write-write_bytes zone f e pw l 0 (record { sized = pos; begins = tt }) (omega arith) fuel,
        kept',
        λ ok.
            let (b, same, v) = next ok in
            rw same (close_kept r.env pw (start + length l) b refl refl le v kept'),
      )
