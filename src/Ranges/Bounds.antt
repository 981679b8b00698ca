-- ===== src/Ranges/Bounds.antt =====
-- The ranges that are parsed lie within the object.
use nedomi.Prelude.{
  min, ℕ, ◌+◌, ◌-◌, ◌≤◌, ◌<◌, ◌≡◌, refl, ap, subst, false, Option, none, some, List, [], ◌∷◌, ◌++◌,
  ltb, leb, ◌==◌, length, arith, Bool-cases, Option-cases, inl, inr,
}
use nedomi.ContainerList.Laws.{All, All-append}
use nedomi.PartWriter.{ContentRange}
use nedomi.Ranges.{
  Range, Parsed, parsed, refused, invalid_range, parse_end_relative_range, range_from,
  parse_req_byte_range, parse_one, parse_all, parse_request_range, content_range, number,
  parse_response_content_range, get_response_range, request_prefix, response_prefix,
}
use nedomi.Ranges.Strings.{Text, is_empty, parse_uint, trim_space, split, cut, after_prefix}

-- A range of at least one byte that ends within an object of that size.
pub record IsWithin (size : ℕ) (r : Range) : Type 0 where
  pub some_byte : 0 < r.length
  pub ends : r.start + r.length ≤ size

-- What a parse returns, if it returns a value.
abbrev pub Yields : {A : Type 0} → (A → Type 0) → Parsed A → Type 0
Yields P (parsed x) = P x
Yields P (refused err) = Unit

module _ (size : ℕ) (pos : 0 < size) where
  parse_end_relative_range-IsWithin :
      (e : Text) → Yields (IsWithin size) (parse_end_relative_range e size)
  unfolding parse_end_relative_range
  parse_end_relative_range-IsWithin e = elim (Option-cases (parse_uint e)) [
    | inl n ↦ rw (n, parse_end_relative_range) tt
    | inr (ei, n) ↦ elim (Bool-cases (ei == 0)) [
      | inl z ↦ rw (n, parse_end_relative_range, z) tt
      | inr z ↦ elim (Bool-cases (ltb size ei)) [
        | inl b ↦
            rw (n, parse_end_relative_range, z, b) (record { some_byte = pos; ends = omega arith })
        | inr b ↦
            rw (n, parse_end_relative_range, z, b)
              (record { some_byte = ground arith; ends = ground arith })
      ]
    ]
  ]

  range_from-IsWithin :
      (si : ℕ) (e : Text) → si < size → Yields (IsWithin size) (range_from si e size)
  unfolding range_from
  range_from-IsWithin si e lt = elim (Bool-cases (is_empty e)) [
    | inl z ↦ rw z (record { some_byte = omega arith; ends = omega arith })
    | inr z ↦ elim (Option-cases (parse_uint e)) [
      | inl n ↦ rw (z, n) tt
      | inr (ei, n) ↦ elim (Bool-cases (ltb ei si)) [
        | inl b ↦ rw (z, n, b) tt
        | inr b ↦ elim (Bool-cases (leb size ei)) [
          | inl c ↦ rw (z, n, b, c) (record { some_byte = omega arith; ends = omega arith })
          | inr c ↦ rw (z, n, b, c) (record { some_byte = omega arith; ends = ground arith })
        ]
      ]
    ]
  ]

  parse_req_byte_range-IsWithin :
      (s e : Text) → Yields (IsWithin size) (parse_req_byte_range s e size)
  unfolding parse_req_byte_range
  parse_req_byte_range-IsWithin s e = elim (Bool-cases (is_empty s)) [
    | inl z ↦ rw z (parse_end_relative_range-IsWithin e)
    | inr z ↦ elim (Option-cases (parse_uint s)) [
      | inl n ↦ rw (z, n) tt
      | inr (si, n) ↦ elim (Bool-cases (leb size si)) [
        | inl b ↦ rw (z, n, b) tt
        | inr b ↦ rw (z, n, b) (range_from-IsWithin si e (ground arith))
      ]
    ]
  ]

  parse_one-IsWithin :
      (ra : Text) (r : Parsed Range) → parse_one ra size ≡ some r → Yields (IsWithin size) r
  unfolding parse_one
  parse_one-IsWithin ra r e = elim (Bool-cases (is_empty (trim_space ra))) [
    | inl z ↦ absurd (cc (rw z at e))
    | inr z ↦ elim (Option-cases (cut 45 (trim_space ra))) [
      | inl c ↦
          let got : refused invalid_range ≡ r = cc (rw (z, c) at e) in
          subst (Yields (IsWithin size)) got tt
      | inr (p, c) ↦
          let got : parse_req_byte_range (trim_space p.0) (trim_space p.1) size ≡ r =
            cc (rw (z, c) at e) in
          subst (Yields (IsWithin size)) got
            (parse_req_byte_range-IsWithin (trim_space p.0) (trim_space p.1))
    ]
  ]

  parse_all-IsWithin :
      (ras : List Text) (ranges : List Range)
      → All (IsWithin size) ranges
      → Yields (λ l. (0 < length l) × All (IsWithin size) l) (parse_all ras size ranges)
  unfolding parse_all
  parse_all-IsWithin [] ranges v = elim (Bool-cases (length ranges == 0)) [
    | inl z ↦ rw z tt
    | inr z ↦ rw z (ground arith, v)
  ]
  parse_all-IsWithin (ra ∷ ras) ranges v = elim (Option-cases (parse_one ra size)) [
    | inl e ↦ rw (e, parse_all) (parse_all-IsWithin ras ranges v)
    | inr (r, e) ↦ go (λ l a. parse_all-IsWithin ras l a) r e
  ]
    where
      go :
          ((l : List Range)
            → All (IsWithin size) l
            → Yields (λ l'. (0 < length l') × All (IsWithin size) l') (parse_all ras size l))
          → (r : Parsed Range) → parse_one ra size ≡ some r
          → Yields (λ l. (0 < length l) × All (IsWithin size) l) (parse_all (ra ∷ ras) size ranges)
      go next (refused err) e = rw (e, parse_all) tt
      go next (parsed x) e =
          rw (e, parse_all)
            (next (ranges ++ x ∷ [])
              (All-append (IsWithin size) ranges v (parse_one-IsWithin ra (parsed x) e)))

-- ParseRequestRange of a header that is there, for an object of any size: if it returns ranges,
-- there is one at least, and each has a byte at least and ends within the object.
pub parse_request_range-IsWithin :
    (s : Text) (size : ℕ)
    → is_empty s ≡ false
    → Yields (λ l. (0 < length l) × All (IsWithin size) l) (parse_request_range s size)
unfolding parse_request_range
parse_request_range-IsWithin s size here = elim (Bool-cases (size == 0)) [
  | inl z ↦ rw (here, z) tt
  | inr z ↦ elim (Option-cases (after_prefix request_prefix s)) [
    | inl a ↦ rw (here, z, a) tt
    | inr (rest, a) ↦ rw (here, z, a) (parse_all-IsWithin size (ground arith) (split 44 rest) [] tt)
  ]
]

-- A range is there, and it ends within the object.
abbrev pub IsInside : Option ContentRange → Type 0
IsInside none = ⊥
IsInside (some r) = r.start + r.length ≤ r.obj_size

content_range-IsInside : (start e size : ℕ) → Yields IsInside (content_range start e size)
unfolding content_range
content_range-IsInside start e size = elim (Bool-cases (ltb e start)) [
  | inl a ↦ rw a tt
  | inr a ↦ elim (Bool-cases (leb size e)) [
    | inl b ↦ rw (a, b) tt
    | inr b ↦ rw (a, b) (ground arith)
  ]
]

-- What a number in a header is used for decides what is returned.
number-IsInside :
    (t : Text) (f : ℕ → Parsed (Option ContentRange))
    → ((n : ℕ) → Yields IsInside (f n))
    → Yields IsInside (number t f)
number-IsInside t f v = elim (Option-cases (parse_uint (trim_space t))) [
  | inl e ↦ rw (e, number) tt
  | inr (n, e) ↦ rw (e, number) (v n)
]

parse_response_content_range-IsInside :
    (cr : Text) → is_empty cr ≡ false → Yields IsInside (parse_response_content_range cr)
unfolding parse_response_content_range
parse_response_content_range-IsInside cr here =
    elim (Option-cases (after_prefix response_prefix cr)) [
      | inl a ↦ rw (here, a) tt
      | inr (rest, a) ↦ elim (Option-cases (cut 47 (trim_space rest))) [
        | inl b ↦ rw (here, a, b) tt
        | inr (p, b) ↦
            rw (here, a, b)
              (number-IsInside p.1 _ λ n. elim (Option-cases (cut 45 (trim_space p.0))) [
                | inl c ↦ rw c tt
                | inr (q, c) ↦ rw c (
                    number-IsInside q.0 _
                      λ start. number-IsInside q.1 _ λ last. content_range-IsInside start last n)
              ])
      ]
    ]

-- GetResponseRange for any status and headers: if it returns no error, it returns a range, and the
-- range ends within the object.
pub get_response_range-IsInside :
    (code : ℕ) (range_str length_str : Text)
    → Yields IsInside (get_response_range code range_str length_str)
unfolding get_response_range
get_response_range-IsInside code range_str length_str = elim (Bool-cases (code == 206)) [
  | inl a ↦ elim (Bool-cases (is_empty range_str)) [
    | inl b ↦ rw (a, b) tt
    | inr b ↦ rw (a, b) (parse_response_content_range-IsInside range_str b)
  ]
  | inr a ↦ elim (Bool-cases (code == 200)) [
    | inr b ↦ rw (a, b) tt
    | inl b ↦ elim (Bool-cases (is_empty length_str)) [
      | inl c ↦ rw (a, b, c) tt
      | inr c ↦ elim (Option-cases (parse_uint length_str)) [
        | inl d ↦ rw (a, b, c, d) tt
        | inr (n, d) ↦ rw (a, b, c, d) (omega arith)
      ]
    ]
  ]
]

parse_uint-is_empty : (t : Text) (n : ℕ) → parse_uint t ≡ some n → is_empty t ≡ false
unfolding parse_uint
parse_uint-is_empty [] n e = absurd (cc e)
parse_uint-is_empty (c ∷ t) n e = refl

-- For a start and an end that are read as numbers, the start within the object and not behind the
-- end: the range goes from the start to the end, or to the last byte of the object if the end is
-- behind that.
parse_req_byte_range-parse_uint :
    (s e : Text) (size first last : ℕ)
    → parse_uint s ≡ some first
    → parse_uint e ≡ some last
    → first < size
    → first ≤ last
    → parse_req_byte_range s e size
      ≡ parsed (record { start = first; length = min (last + 1) size - first })
unfolding parse_req_byte_range range_from
parse_req_byte_range-parse_uint s e size first last p q a b =
    let s' = parse_uint-is_empty s first p in
    let e' = parse_uint-is_empty e last q in
    let inside : leb size first ≡ false = ground arith in
    let ordered : ltb last first ≡ false = ground arith in
    elim (Bool-cases (leb size last)) [
      | inl c ↦
          let n : size - 1 - first + 1 ≡ min (last + 1) size - first = ground arith in
          rw (s', p, inside, e', q, ordered, c)
            (ap (λ k. parsed (record { start = first; length = k })) n)
      | inr c ↦
          let n : last - first + 1 ≡ min (last + 1) size - first = ground arith in
          rw (s', p, inside, e', q, ordered, c)
            (ap (λ k. parsed (record { start = first; length = k })) n)
    ]
