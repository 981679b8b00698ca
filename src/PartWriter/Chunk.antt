-- ===== src/PartWriter/Chunk.antt =====
-- What one round of Write takes at once, the byte-wise writer takes byte by byte.
use nedomi.Prelude.{
  ℕ, ◌+◌, ◌%◌, ◌≤◌, ◌<◌, ◌≡◌, refl, ap, sym, ◌∙◌, false, Option, none, some, List, [], ◌∷◌, ◌++◌,
  ◌==◌, length, length-append, append-nil, append_assoc, arith, Bool-cases, inl, inr,
}
use native.Mathlib.Nat.{mod-eq_of_lt, mod-lt, mod-add-mod}
use nedomi.PartWriter.{Zone, PartWriter, Written}
use nedomi.PartWriter.Bytes.{open_part, put, make_space, write_bytes}

-- The writer at another position, with another buffer.
abbrev pub at : {B : Type 0} → PartWriter B → ℕ → Option (List B) → PartWriter B
at pw p b = record pw { current_pos = p; buf = b }

pub mod-suc_of_lt : (p k : ℕ) → 0 < k → p % k + 1 < k → (p + 1) % k ≡ p % k + 1
mod-suc_of_lt p k pos b = sym (mod-add-mod p k 1) ∙ mod-eq_of_lt b

module _ {E B Err : Type 0} (zone : Zone E B Err) (pw : PartWriter B) where
  same_args :
      (e : E) (d : List B) {p p' n n' : ℕ} {b b' : Option (List B)}
      → p ≡ p'
      → b ≡ b'
      → n ≡ n'
      → write_bytes zone e (at pw p b) d n ≡ write_bytes zone e (at pw p' b') d n'
  same_args e d u v w = λ i. write_bytes zone e (at pw (u i) (v i)) d (w i)

  -- The state of the byte-wise writer that has nothing to flush.
  unfoldable pub unflushed : E → PartWriter B → Written E B Err
  unflushed e q = record { env = e; writer = q; count = 0; err = none }

  resume : B → List B → ℕ → Written E B Err → Written E B Err
  resume x l n r = elim r.err [
    | some err ↦ record r { count = n }
    | none ↦ write_bytes zone r.env (put (open_part r.writer) x) l (n + 1)
  ]

  pub write_bytes-none :
      (e : E) (q : PartWriter B) (x : B) (l : List B) (n : ℕ) (r : Written E B Err)
      → make_space zone e q ≡ r
      → r.err ≡ none
      → write_bytes zone e q (x ∷ l) n
        ≡ write_bytes zone r.env (put (open_part r.writer) x) l (n + 1)
  unfolding write_bytes resume
  write_bytes-none e q x l n r u ok = ap (resume x l n) u ∙ rw ok refl

  pub write_bytes-some :
      (e : E) (q : PartWriter B) (x : B) (l : List B) (n : ℕ) (r : Written E B Err) (y : Err)
      → make_space zone e q ≡ r
      → r.err ≡ some y
      → write_bytes zone e q (x ∷ l) n ≡ record r { count = n }
  unfolding write_bytes resume
  write_bytes-some e q x l n r y u ok = ap (resume x l n) u ∙ rw ok refl

  pub write_bytes-unflushed :
      (e : E) (q : PartWriter B) (x : B) (l : List B) (n : ℕ)
      → make_space zone e q ≡ unflushed e q
      → write_bytes zone e q (x ∷ l) n ≡ write_bytes zone e (put (open_part q) x) l (n + 1)
  unfolding unflushed
  write_bytes-unflushed e q x l n r = write_bytes-none e q x l n (unflushed e q) r refl

  pub make_space-some :
      (e : E) (p : ℕ) (b : List B)
      → (length b == pw.part_size) ≡ false
      → make_space zone e (at pw p (some b)) ≡ unflushed e (at pw p (some b))
  unfolding make_space unflushed
  make_space-some e p b ne = rw ne refl

  pub make_space-none :
      (e : E) (p : ℕ) → make_space zone e (at pw p none) ≡ unflushed e (at pw p none)
  unfolding make_space unflushed
  make_space-none e p = refl

  put_filling :
      (p : ℕ) (b : List B) (x : B)
      → put (open_part (at pw p (some b))) x ≡ at pw (p + 1) (some (b ++ x ∷ []))
  unfolding put open_part
  put_filling p b x = refl

  put_skipping :
      (p : ℕ) (x : B)
      → (p % pw.part_size == 0) ≡ false
      → put (open_part (at pw p none)) x ≡ at pw (p + 1) none
  unfolding put open_part
  put_skipping p x ne = rw ne refl

  -- Bytes that fit in the buffer.
  pub write_bytes-fill :
      (c d : List B) (e : E) (p n : ℕ) (b : List B)
      → length b + length c ≤ pw.part_size
      → write_bytes zone e (at pw p (some b)) (c ++ d) n
        ≡ write_bytes zone e (at pw (p + length c) (some (b ++ c))) d (n + length c)
  write_bytes-fill [] d e p n b r =
      same_args e d (omega arith) (ap some (sym (append-nil b))) (omega arith)
  write_bytes-fill (x ∷ c) d e p n b r =
      write_bytes-unflushed e _ x (c ++ d) n (make_space-some e p b (ground arith))
      ∙ ap (λ q. write_bytes zone e q (c ++ d) (n + 1)) (put_filling p b x)
      ∙ write_bytes-fill c d e (p + 1) (n + 1) (b ++ x ∷ [])
          (omega (arith, length-append b (x ∷ [])))
      ∙ same_args e d (omega arith) (ap some (append_assoc b (x ∷ []) c)) (omega arith)

  -- Bytes before the start of the next part.
  pub write_bytes-skip :
      (c d : List B) (e : E) (p n : ℕ)
      → 0 < pw.part_size
      → (0 < length c → 0 < p % pw.part_size)
      → p % pw.part_size + length c ≤ pw.part_size
      → write_bytes zone e (at pw p none) (c ++ d) n
        ≡ write_bytes zone e (at pw (p + length c) none) d (n + length c)
  write_bytes-skip [] d e p n pos inside r = same_args e d (omega arith) refl (omega arith)
  write_bytes-skip (x ∷ c) d e p n pos inside r =
      let next : 0 < length c → (p + 1) % pw.part_size ≡ p % pw.part_size + 1 =
        λ more. mod-suc_of_lt p pw.part_size pos (omega (arith, more)) in
      let fits : (p + 1) % pw.part_size + length c ≤ pw.part_size =
        elim (Bool-cases (length c == 0)) [
          | inl z ↦ ground (arith, mod-lt (p + 1) pos)
          | inr m ↦ let lt : 0 < length c = ground arith in omega (arith, next lt)
        ] in
      write_bytes-unflushed e _ x (c ++ d) n (make_space-none e p)
      ∙ ap (λ q. write_bytes zone e q (c ++ d) (n + 1))
          (put_skipping p x (ground (arith, inside (omega arith))))
      ∙ write_bytes-skip c d e (p + 1) (n + 1) pos (λ more. omega (arith, next more)) fits
      ∙ same_args e d (omega arith) refl (omega arith)
