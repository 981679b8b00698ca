-- ===== src/PartReader/Boundary.antt =====
-- Close of the part reader stops at the end of a part.
use nedomi.Prelude.{
  ℕ, suc, ◌+◌, ◌-◌, ◌*◌, ◌/◌, ◌%◌, ◌^◌, ◌≤◌, ◌<◌, ◌≡◌, refl, ap, sym, ◌∙◌, Bool, true, false,
  Option, none, List, [], ◌∷◌, ◌++◌, ltb, ◌==◌, if◌then◌else◌, length, take, drop, arith,
  Bool-cases, inl, inr, length-append, take-append-drop, append_assoc,
}
use native.Mathlib.Nat.{mod-lt, div-add-mod', add-mul}
use nedomi.Writers.{new_composite_error}
use nedomi.PartReader.{
  Source, PartReadCloser, new_whole_chunk_read_closer, read, copy_n, read_on, close, read_all,
}

module _ {B Err : Type 0} where
  -- What reads leave of `f`, once they gave `got`.
  pub record IsRead (f f' : PartReadCloser B Err) (got : List B) : Type 0 where
    pub delivered : got ++ f'.source.content ≡ f.source.content
    pub counted : f'.read_so_far ≡ f.read_so_far + length got
    pub same_size : f'.part_size ≡ f.part_size
    pub same_failure : f'.source.failure ≡ f.source.failure
    pub same_close : f'.source.close_error ≡ f.source.close_error

  read_all-IsRead :
      (ns : List ℕ) (f : PartReadCloser B Err) → IsRead f (read_all ns f).0 (read_all ns f).1
  unfolding read_all read
  read_all-IsRead [] f = record {
    delivered = refl;
    counted = omega arith;
    same_size = refl;
    same_failure = refl;
    same_close = refl;
  }
  read_all-IsRead (n ∷ ns) f =
      let b = take n f.source.content in
      let f' = (read n f).0 in
      let r = read_all-IsRead ns f' in
      record {
        delivered =
            append_assoc b _ _ ∙ ap (λ l. b ++ l) r.delivered ∙ take-append-drop n f.source.content;
        counted = omega (arith, r.counted, length-append b (read_all ns f').1);
        same_size = r.same_size;
        same_failure = r.same_failure;
        same_close = r.same_close;
      }

  -- What a Close leaves after `got` was read of the source: the bytes after the end of the part.
  pub record IsAtBoundary (s : Source B Err) (size : ℕ) (got : List B)
      (r : Source B Err × Option (List Err)) : Type 0 where
    pub parts : ℕ
    pub reached : length got ≤ parts * size
    pub near : parts * size < length got + size
    pub rest : r.0.content ≡ drop (parts * size) s.content
    pub error :
        r.1
        ≡ new_composite_error (
            (if ltb (length s.content) (parts * size) then s.failure else none)
            ∷ s.close_error
            ∷ [])

  -- A source after `k` of its bytes were dropped, and the error of that.
  skipped : ℕ → Source B Err → Source B Err × Option Err
  skipped k s = (
    record s { content = drop k s.content },
    if ltb (length s.content) k then s.failure else none,
  )

  skipped-zero : (s : Source B Err) → skipped 0 s ≡ (s, none)
  unfolding skipped
  skipped-zero s = let e : ltb (length s.content) 0 ≡ false = ground arith in rw e refl

  -- Close drops the bytes up to the next multiple of the size of a part.
  read_on-skipped :
      (f : PartReadCloser B Err)
      → 0 < f.part_size
      → f.part_size < 2 ^ 63
      → (k : ℕ) × (parts : ℕ) × (read_on f ≡ skipped k f.source)
        × (f.read_so_far + k ≡ parts * f.part_size)
        × (k < f.part_size)
  unfolding read_on copy_n skipped
  read_on-skipped f sized in_range =
      let size = f.part_size in
      let r = f.read_so_far in
      let m = r % size in
      let below : m < size = mod-lt r sized in
      let split = div-add-mod' r size in
      elim (Bool-cases (m == 0)) [
        | inl whole ↦
            let none_over : m ≡ 0 = ground arith in
            (
              0,
              r / size,
              rw whole (sym (skipped-zero f.source)),
              omega (arith, split, none_over),
              sized,
            )
        | inr part ↦
            let over : 0 < m = ground arith in
            let fits : ltb (size - m) (2 ^ 63) ≡ true = ground arith in
            (
              size - m,
              r / size + 1,
              rw (part, fits) refl,
              omega (arith, split, add-mul (r / size) 1 size),
              omega arith,
            )
      ]

-- The drop of as many bytes as the first list has, and more.
drop-append : {B : Type 0} (k : ℕ) (l m : List B) → drop (length l + k) (l ++ m) ≡ drop k m
drop-append k [] m = let e : 0 + k ≡ k = omega arith in ap (λ n. drop n m) e
drop-append k (x ∷ l) m =
    let e : suc (length l) + k ≡ suc (length l + k) = omega arith in
    ap (λ n. drop n (x ∷ l ++ m)) e ∙ drop-append k l m

ltb-append :
    {B : Type 0} (l m : List B) (k : ℕ) → ltb (length (l ++ m)) (length l + k) ≡ ltb (length m) k
ltb-append l m k = let e = length-append l m in ground (arith, e)

-- For a size of a part that is positive and below 2 ^ 63, after any reads of a source: what was read
-- is the beginning of its content, and Close reads on to the first multiple of the size from there on,
-- so that it leaves what comes after it. An error that comes before it is returned, with that of the
-- source's Close.
pub close-IsAtBoundary :
    {B Err : Type 0} (s : Source B Err) (size : ℕ) (ns : List ℕ)
    → 0 < size
    → size < 2 ^ 63
    → ((read_all ns (new_whole_chunk_read_closer s size)).1
          ++ (read_all ns (new_whole_chunk_read_closer s size)).0.source.content
        ≡ s.content)
      × IsAtBoundary s size
          (read_all ns (new_whole_chunk_read_closer s size)).1
          (close (read_all ns (new_whole_chunk_read_closer s size)).0)
unfolding close new_whole_chunk_read_closer skipped
close-IsAtBoundary {Err = Err} s size ns sized in_range =
    let start = new_whole_chunk_read_closer s size in
    let f = (read_all ns start).0 in
    let got = (read_all ns start).1 in
    let h = read_all-IsRead ns start in
    let (k, parts, e, b, c) = read_on-skipped f (rw h.same_size sized) (rw h.same_size in_range) in
    let size_f = h.same_size in
    let at : parts * size ≡ length got + k =
      ap (λ n. parts * n) (sym size_f) ∙ sym b ∙ ap (λ n. n + k) (h.counted ∙ omega arith) in
    let fails = ltb (length s.content) (parts * size) in
    let same : ltb (length f.source.content) k ≡ fails =
      sym (ltb-append got f.source.content k)
      ∙ ap (λ l. ltb (length l) (length got + k)) h.delivered
      ∙ ap (λ n. ltb (length s.content) n) (sym at) in
    let answer =
      λ (x y : Option Err) (t : Bool). new_composite_error ((if t then x else none) ∷ y ∷ []) in
    (
      h.delivered,
      record {
        parts = parts;
        reached = omega (arith, at);
        near = omega (arith, at, c, size_f);
        rest =
            ap (λ r. r.0.content) e
            ∙ sym (drop-append k got f.source.content)
            ∙ ap (λ l. drop (length got + k) l) h.delivered
            ∙ ap (λ n. drop n s.content) (sym at);
        error =
            ap (λ r. new_composite_error (r.1 ∷ r.0.close_error ∷ [])) e
            ∙ ap (answer f.source.failure f.source.close_error) same
            ∙ ap (λ x. answer x f.source.close_error fails) h.same_failure
            ∙ ap (λ x. answer s.failure x fails) h.same_close;
      },
    )
