-- ===== src/ByteSize.antt =====
-- Sizes in the configuration, types/byte_size.go. A text is a list of bytes here.
mod Tests
use nedomi.Prelude.{
  ℕ, zero, suc, ◌+◌, ◌-◌, ◌*◌, ◌/◌, ◌%◌, ◌^◌, ◌<◌, ◌≡◌, refl, ap, sym, ◌∙◌, Bool, true, false,
  Option, none, some, List, [], ◌∷◌, ltb, leb, ◌==◌, if◌then◌else◌, ◌&&◌, length, take, arith,
  Bool-cases, inl, inr,
}
use nedomi.Ranges.Strings.{Text}
use nedomi.Ranges.Decimal.{digits, decimal, parse_uint-decimal}
use nedomi.Disk.Names.{atoi, signed, atoi-decimal}

-- strings.ToLower of one byte.
abbrev pub to_lower : ℕ → ℕ
to_lower c = if leb 65 c && leb c 90 then c + 32 else c

-- The last byte of a text that is not empty.
unfoldable pub last_of : Text → ℕ
last_of [] = 0
last_of (c ∷ []) = c
last_of (c ∷ d ∷ t) = last_of (d ∷ t)

-- The map of the suffixes `k`, `m`, `g`, `t` and `z`. Its key of no byte is never looked up.
unfoldable pub size_of : ℕ → Option ℕ
size_of c =
    if c == 107
    then some 1024
    else if c == 109
    then some (1024 ^ 2)
    else if c == 103
    then some (1024 ^ 3)
    else if c == 116
    then some (1024 ^ 4)
    else if c == 122
    then some (1024 ^ 5)
    else none

-- The conversion of an int to uint64.
abbrev pub to_uint64 : Bool × ℕ → ℕ
to_uint64 (false, n) = n % 2 ^ 64
to_uint64 (true, n) = (2 ^ 64 - n % 2 ^ 64) % 2 ^ 64

-- The number of BytesSizeFromString, for the size of its suffix.
unfoldable pub scaled : Text → ℕ → Option ℕ
scaled num size = elim (atoi num) [ none ↦ none | some ret ↦ some (to_uint64 ret * size % 2 ^ 64) ]

-- BytesSizeFromString; `none` is an error.
unfoldable pub bytes_size_from_string : Text → Option ℕ
bytes_size_from_string [] = none
bytes_size_from_string (c ∷ t) = elim (size_of (to_lower (last_of (c ∷ t)))) [
  | some size ↦ scaled (take (length t) (c ∷ t)) size
  | none ↦ scaled (c ∷ t) 1
]

-- The text in the JSON of MarshalJSON.
unfoldable pub marshal : ℕ → Text
marshal b = decimal b

last_of-digits : (f n c : ℕ) (t : Text) → last_of (digits f n (c ∷ t)) ≡ last_of (c ∷ t)
unfolding digits last_of
last_of-digits zero n c t = refl
last_of-digits (suc f) n c t = elim (Bool-cases (n / 10 == 0)) [
  | inl small ↦ rw small refl
  | inr large ↦ rw large (last_of-digits f (n / 10) (48 + n % 10) (c ∷ t))
]

last_of-digits_nil : (f n : ℕ) → last_of (digits (suc f) n []) ≡ 48 + n % 10
unfolding digits last_of
last_of-digits_nil f n = elim (Bool-cases (n / 10 == 0)) [
  | inl small ↦ rw small refl
  | inr large ↦ rw large (last_of-digits f (n / 10) (48 + n % 10) [])
]

-- A digit is no suffix.
size_of-digit : (d : ℕ) → d < 10 → size_of (to_lower (48 + d)) ≡ none
unfolding size_of
size_of-digit d lt = ground arith

scaled-decimal :
    (n : ℕ) → n < 2 ^ 64 → scaled (decimal n) 1 ≡ (if ltb n (2 ^ 63) then some n else none)
unfolding scaled signed
scaled-decimal n lt = elim (Bool-cases (ltb n (2 ^ 63))) [
  | inr t ↦
      let refused : atoi (decimal n) ≡ none =
        atoi-decimal n ∙ rw (parse_uint-decimal n lt, signed, t) refl in
      rw (refused, scaled, t) refl
  | inl t ↦
      let read : atoi (decimal n) ≡ some (false, n) =
        atoi-decimal n ∙ rw (parse_uint-decimal n lt, signed, t) refl in
      let same : n % 2 ^ 64 * 1 % 2 ^ 64 ≡ n = omega arith in rw (read, scaled, t, same) refl
]

empty_lem : none ≡ scaled [] 1
unfolding scaled atoi
empty_lem = refl

-- A text that ends in a byte that is no suffix is read as a whole.
without_suffix :
    (t : Text) → size_of (to_lower (last_of t)) ≡ none → bytes_size_from_string t ≡ scaled t 1
unfolding bytes_size_from_string
without_suffix [] h = empty_lem
without_suffix (c ∷ t) h = rw (h, bytes_size_from_string) refl

last_of-decimal : (n : ℕ) → size_of (to_lower (last_of (decimal n))) ≡ none
unfolding decimal
last_of-decimal n =
    ap (λ c. size_of (to_lower c)) (last_of-digits_nil 19 n) ∙ size_of-digit (n % 10) (omega arith)

-- For every uint64: what MarshalJSON writes is read back by UnmarshalJSON as the same size if it is
-- below 2^63, and as an error otherwise.
pub bytes_size_from_string-marshal :
    (n : ℕ)
    → n < 2 ^ 64
    → bytes_size_from_string (marshal n) ≡ (if ltb n (2 ^ 63) then some n else none)
unfolding marshal
bytes_size_from_string-marshal n lt =
    without_suffix (decimal n) (last_of-decimal n) ∙ scaled-decimal n lt
