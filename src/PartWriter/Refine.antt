-- ===== src/PartWriter/Refine.antt =====
-- Write against the byte-wise writer: the loop ends, and the outcome is the same.
use nedomi.Prelude.{
  ℕ, zero, suc, ◌+◌, ◌-◌, ◌*◌, ◌%◌, ◌/◌, ◌^◌, ◌≤◌, ◌<◌, ◌≡◌, refl, ap, sym, ◌∙◌, true, false,
  Option, none, some, List, [], ◌∷◌, ◌++◌, ◌==◌, if◌then◌else◌, length, length-append, arith,
  Bool-cases, Option-cases, inl, inr, take, drop, take-append-drop, length-take, length-drop, min,
  ltb,
}
use native.Mathlib.Nat.{mod-eq_of_lt, mod-lt, div-add-mod', mul-add-mod_self_right}
use nedomi.PartWriter.{Zone, PartWriter, Written, flush_buffer, round, write, umin}
use nedomi.PartWriter.Bytes.{open_part, put, make_space, write_bytes}
use nedomi.PartWriter.Chunk.{
  at, unflushed, write_bytes-unflushed, write_bytes-none, write_bytes-some, write_bytes-fill,
  write_bytes-skip, make_space-some, make_space-none,
}
use nedomi.PartWriter.Flush.{
  save_buffer-nil, save_buffer-count, flush_buffer-full, write-none, write-some,
}

-- The buffer begins at the start of a part, ends at the position, and is not over the part's size.
abbrev pub Begins : {B : Type 0} → ℕ → ℕ → Option (List B) → Type 0
Begins size p none = Unit
Begins size p (some b) = (q : ℕ) × (p ≡ q * size + length b) × (length b ≤ size)

pub record IsAligned {B : Type 0} (pw : PartWriter B) : Type 0 where
  pub sized : 0 < pw.part_size
  pub begins : Begins pw.part_size pw.current_pos pw.buf

-- The rounds of the loop that take no byte before the next one that does.
idle : {B : Type 0} → PartWriter B → Option (List B) → ℕ
idle pw none = if pw.current_pos % pw.part_size == 0 then 1 else 0
idle pw (some b) = if length b == pw.part_size then 2 else 0

idle-le : {B : Type 0} (pw : PartWriter B) (b : Option (List B)) → idle pw b ≤ 2
unfolding idle
idle-le pw none = ground arith
idle-le pw (some b) = ground arith

idle-none : {B : Type 0} (pw : PartWriter B) → idle pw none ≤ 1
unfolding idle
idle-none pw = ground arith

pub umin_lem : (l r : ℕ) → umin l r ≡ min l r
unfolding umin
umin_lem l r = elim (Bool-cases (ltb r l)) [
  | inl a ↦ rw a (ground arith)
  | inr a ↦ rw a (ground arith)
]

module _ {E B Err : Type 0} (zone : Zone E B Err) where
  -- The statement below, for one number of rounds.
  Agrees : ℕ → Type 0
  Agrees f =
      (e : E) (pw : PartWriter B) (l : List B) (n : ℕ)
      → IsAligned pw
      → pw.current_pos + length l < 2 ^ 64
      → 3 * length l + idle pw pw.buf ≤ f
      → write zone f e pw l n ≡ some (write_bytes zone e pw l n)

  module _ (f : ℕ) (ih : Agrees f) (e : E) (pw : PartWriter B) (x : B) (l : List B) (n : ℕ) (p : ℕ)
      (sized : 0 < pw.part_size) (in_range : p + length (x ∷ l) < 2 ^ 64) where
    -- The bytes that one round takes.
    k : ℕ
    k = umin (pw.part_size - p % pw.part_size) (length (x ∷ l))

    k-min : k ≡ min (pw.part_size - p % pw.part_size) (length (x ∷ l))
    unfolding k
    k-min = umin_lem (pw.part_size - p % pw.part_size) (length (x ∷ l))

    k_pos : 0 < k
    k_pos = omega (arith, k-min, mod-lt p sized)

    k_fits : p % pw.part_size + k ≤ pw.part_size
    k_fits = omega (arith, k-min, mod-lt p sized)

    length_taken : length (take k (x ∷ l)) ≡ k
    length_taken = length-take k (x ∷ l) ∙ omega (arith, k-min)

    wrap : (p + k) % 2 ^ 64 ≡ p + k
    wrap = mod-eq_of_lt (omega (arith, k-min))

    -- The rest of the round, for a buffer `b` before it and `b'` after it.
    Agrees-rest :
        (b b' : Option (List B))
        → write_bytes zone e (at pw p b) (take k (x ∷ l) ++ drop k (x ∷ l)) n
          ≡ write_bytes zone e
              (at pw (p + length (take k (x ∷ l))) b')
              (drop k (x ∷ l))
              (n + length (take k (x ∷ l)))
        → Begins pw.part_size (p + k) b'
        → 3 * length (x ∷ l) ≤ suc f
        → write zone f e (at pw ((p + k) % 2 ^ 64) b') (drop k (x ∷ l)) (n + k)
          ≡ some (write_bytes zone e (at pw p b) (x ∷ l) n)
    unfolding Agrees
    Agrees-rest b b' chunk begins r =
        ap (λ p'. write zone f e (at pw p' b') (drop k (x ∷ l)) (n + k)) wrap
        ∙ ih e (at pw (p + k) b') (drop k (x ∷ l)) (n + k)
            (record { sized = sized; begins = begins })
            (omega (arith, length-drop k (x ∷ l), k-min))
            (omega (arith, length-drop k (x ∷ l), k-min, k_pos, idle-le (at pw (p + k) b') b'))
        ∙ ap (λ j. some (write_bytes zone e (at pw (p + j) b') (drop k (x ∷ l)) (n + j)))
            (sym length_taken)
        ∙ ap some (sym chunk)
        ∙ ap (λ l'. some (write_bytes zone e (at pw p b) l' n)) (take-append-drop k (x ∷ l))

    Agrees-open :
        (p % pw.part_size == 0) ≡ true
        → 3 * length (x ∷ l) + 1 ≤ suc f
        → write zone (suc f) e (at pw p none) (x ∷ l) n
          ≡ some (write_bytes zone e (at pw p none) (x ∷ l) n)
    unfolding Agrees round idle unflushed open_part make_space k
    Agrees-open z b =
        let opened = at pw p (some []) in
        let z' : p % pw.part_size ≡ 0 = ground arith in
        let starts : p ≡ p / pw.part_size * pw.part_size + 0 =
          omega (arith, div-add-mod' p pw.part_size, z') in
        let ne : (length {A = B} [] == pw.part_size) ≡ false = ground arith in
        write-none zone f e (at pw p none) x l n (unflushed zone pw e opened) (rw z refl) refl
        ∙ ih e opened (x ∷ l) (n + 0)
            (record { sized = sized; begins = (p / pw.part_size, starts, omega arith) }) in_range
            (rw ne (omega arith))
        ∙ ap (λ m. some (write_bytes zone e opened (x ∷ l) m)) (omega arith)
        ∙ ap some (
            write_bytes-unflushed zone pw e opened x l n (make_space-some zone pw e p [] ne)
            ∙ ap (λ q. write_bytes zone e (put q x) l (n + 1)) (sym (rw z refl))
            ∙ sym (
                write_bytes-unflushed zone pw e (at pw p none) x l n (make_space-none zone pw e p)))

    Agrees-skip :
        (p % pw.part_size == 0) ≡ false
        → 3 * length (x ∷ l) ≤ suc f
        → write zone (suc f) e (at pw p none) (x ∷ l) n
          ≡ some (write_bytes zone e (at pw p none) (x ∷ l) n)
    unfolding Agrees round idle unflushed open_part make_space k
    Agrees-skip z b =
        write-none zone f e (at pw p none) x l n
          (record { env = e; writer = at pw ((p + k) % 2 ^ 64) none; count = k; err = none })
          (rw z refl) refl
        ∙ Agrees-rest none none
            (write_bytes-skip zone pw (take k (x ∷ l)) (drop k (x ∷ l)) e p n sized
              (λ _. ground arith) (omega (arith, length_taken, k_fits)))
            tt b

    Agrees-fill :
        (b : List B) (q : ℕ)
        → p ≡ q * pw.part_size + length b
        → length b < pw.part_size
        → 3 * length (x ∷ l) ≤ suc f
        → write zone (suc f) e (at pw p (some b)) (x ∷ l) n
          ≡ some (write_bytes zone e (at pw p (some b)) (x ∷ l) n)
    unfolding Agrees round idle unflushed open_part make_space k
    Agrees-fill b q start lt r =
        let inside : p % pw.part_size ≡ length b =
          ap (λ t. t % pw.part_size) start
          ∙ mul-add-mod_self_right q pw.part_size (length b)
          ∙ mod-eq_of_lt lt in
        let ne : (length b == pw.part_size) ≡ false = ground arith in
        let filled = length-append b (take k (x ∷ l)) in
        write-none zone f e (at pw p (some b)) x l n
          (record {
            env = e;
            writer = at pw ((p + k) % 2 ^ 64) (some (b ++ take k (x ∷ l)));
            count = k;
            err = none;
          })
          (rw ne refl) refl
        ∙ Agrees-rest (some b) (some (b ++ take k (x ∷ l)))
            (write_bytes-fill zone pw (take k (x ∷ l)) (drop k (x ∷ l)) e p n b
              (omega (arith, length_taken, k_fits, inside)))
            (
              q,
              omega (arith, filled, length_taken, start),
              omega (arith, filled, length_taken, k_fits, inside),
            )
            r

    Agrees-flush :
        (b : List B) (q : ℕ)
        → p ≡ q * pw.part_size + length b
        → length b ≡ pw.part_size
        → 3 * length (x ∷ l) + 2 ≤ suc f
        → write zone (suc f) e (at pw p (some b)) (x ∷ l) n
          ≡ some (write_bytes zone e (at pw p (some b)) (x ∷ l) n)
    unfolding Agrees round idle unflushed open_part make_space k
    Agrees-flush b q' start full fuel =
        let full' : (length b == pw.part_size) ≡ true = ground arith in
        let q = at pw p (some b) in
        let r = flush_buffer zone e q in
        let same = flush_buffer-full zone e q full' in
        elim (Option-cases r.err) [
          | inr (y, bad) ↦
              write-some zone f e q x l n r y (rw full' refl) bad
              ∙ ap some (sym (write_bytes-some zone pw e q x l n r y (rw full' refl) bad))
          | inl ok ↦
              let flushed : Written E B Err = record {
                env = r.env;
                writer = at pw p none;
                count = 0;
                err = none;
              } in
              let nil =
                ap (λ w. w.writer) same
                ∙ save_buffer-nil zone e q (ap (λ w. w.err) (sym same) ∙ ok) in
              let none_taken = ap (λ w. w.count) same ∙ save_buffer-count zone e q in
              let u : r ≡ flushed =
                (λ i. record { env = r.env; writer = nil i; count = none_taken i; err = ok i }) in
              write-none zone f e q x l n flushed (rw full' u) refl
              ∙ ih r.env (at pw p none) (x ∷ l) (n + 0) (record { sized = sized; begins = tt })
                  in_range (omega (arith, idle-none (at pw p none)))
              ∙ ap (λ m. some (write_bytes zone r.env (at pw p none) (x ∷ l) m)) (omega arith)
              ∙ ap some (
                  write_bytes-unflushed zone pw r.env (at pw p none) x l n
                    (make_space-none zone pw r.env p)
                  ∙ sym (write_bytes-none zone pw e q x l n flushed (rw full' u) refl))
        ]

  Agrees-suc :
      (f : ℕ) (ih : Agrees f) (e : E) (pw : PartWriter B) (x : B) (l : List B) (n p : ℕ)
      (b : Option (List B))
      → 0 < pw.part_size
      → Begins pw.part_size p b
      → p + length (x ∷ l) < 2 ^ 64
      → 3 * length (x ∷ l) + idle (at pw p b) b ≤ suc f
      → write zone (suc f) e (at pw p b) (x ∷ l) n ≡ some (write_bytes zone e (at pw p b) (x ∷ l) n)
  unfolding idle
  Agrees-suc f ih e pw x l n p none sized begins r fuel =
      elim (Bool-cases (p % pw.part_size == 0)) [
        | inl z ↦ Agrees-open f ih e pw x l n p sized r z (rw z at fuel)
        | inr z ↦ Agrees-skip f ih e pw x l n p sized r z (omega arith)
      ]
  Agrees-suc f ih e pw x l n p (some b) sized (q, start, le) r fuel =
      elim (Bool-cases (length b == pw.part_size)) [
        | inl z ↦ Agrees-flush f ih e pw x l n p sized r b q start (ground arith) (rw z at fuel)
        | inr z ↦ Agrees-fill f ih e pw x l n p sized r b q start (ground arith) (omega arith)
      ]

  -- Write of any bytes, with three rounds for each of them and two more at most.
  write-Agrees : (f : ℕ) → Agrees f
  unfolding Agrees write write_bytes
  write-Agrees zero e pw [] n v r b = refl
  write-Agrees (suc f) e pw [] n v r b = refl
  write-Agrees zero e pw (x ∷ l) n v r b = absurd (omega arith)
  write-Agrees (suc f) e pw (x ∷ l) n v r b =
      Agrees-suc f (write-Agrees f) e pw x l n pw.current_pos pw.buf v.sized v.begins r b

  -- For a writer of a positive part size whose buffer, if any, began at the start of a part, and
  -- bytes that do not take the position past 2 ^ 64: the loop of Write ends within three rounds for
  -- each byte and two more, and its outcome is that of the byte-wise writer, errors included.
  pub write-write_bytes :
      (f : ℕ) (e : E) (pw : PartWriter B) (l : List B) (n : ℕ)
      → IsAligned pw
      → pw.current_pos + length l < 2 ^ 64
      → 3 * length l + 2 ≤ f
      → write zone f e pw l n ≡ some (write_bytes zone e pw l n)
  unfolding Agrees
  write-write_bytes f e pw l n v r b =
      write-Agrees f e pw l n v r (omega (arith, idle-le pw pw.buf))
