-- ===== src/Ranges/Strings.antt =====
-- The functions of Go's packages strings and strconv that the ranges are read with.
use nedomi.Prelude.{
  ℕ, ◌+◌, ◌-◌, ◌*◌, ◌^◌, Bool, true, false, Option, none, some, List, [], ◌∷◌, ltb, leb, ◌==◌,
  if◌then◌else◌, ◌||◌, ◌&&◌, reverse,
}

abbrev pub Text : Type 0
Text = List ℕ

abbrev pub is_empty : Text → Bool
is_empty [] = true
is_empty (c ∷ t) = false

abbrev is_digit : ℕ → Bool
is_digit c = leb 48 c && leb c 57

-- The digits after the first ones, which have the value `n`. A value over uint64 is an error.
unfoldable pub parse_digits : ℕ → Text → Option ℕ
parse_digits n [] = if ltb n (2 ^ 64) then some n else none
parse_digits n (c ∷ t) =
    let rest = parse_digits (n * 10 + (c - 48)) t in if is_digit c then rest else none

-- strconv.ParseUint, of base 10 and for 64 bits; `none` is its error.
unfoldable pub parse_uint : Text → Option ℕ
unfolding parse_digits
parse_uint [] = none
parse_uint (c ∷ t) = parse_digits 0 (c ∷ t)

-- unicode.IsSpace
abbrev is_space : ℕ → Bool
is_space c =
    (leb 9 c && leb c 13)
    || (c == 32)
    || (c == 133)
    || (c == 160)
    || (c == 5760)
    || (leb 8192 c && leb c 8202)
    || (c == 8232)
    || (c == 8233)
    || (c == 8239)
    || (c == 8287)
    || (c == 12288)

unfoldable pub trim_left : Text → Text
trim_left [] = []
trim_left (c ∷ t) = let rest = trim_left t in if is_space c then rest else c ∷ t

-- strings.TrimSpace
unfoldable pub trim_space : Text → Text
unfolding trim_left
trim_space t = reverse (trim_left (reverse (trim_left t)))

-- The text before and after the first separator, by strings.Index; `none` if there is none.
unfoldable pub cut : ℕ → Text → Option (Text × Text)
cut sep [] = none
cut sep (c ∷ t) =
    let rest = cut sep t in
    if c == sep then some ([], t) else (elim rest [ none ↦ none | some (a, b) ↦ some (c ∷ a, b) ])

-- The first piece and the others of strings.Split.
unfoldable pub split_pieces : ℕ → Text → Text × List Text
split_pieces sep [] = ([], [])
split_pieces sep (c ∷ t) =
    let (first, others) = split_pieces sep t in
    if c == sep then ([], first ∷ others) else (c ∷ first, others)

-- strings.Split
unfoldable pub split : ℕ → Text → List Text
unfolding split_pieces
split sep t = let (first, others) = split_pieces sep t in first ∷ others

-- The text behind a prefix, by strings.HasPrefix.
unfoldable pub after_prefix : Text → Text → Option Text
after_prefix [] t = some t
after_prefix (c ∷ p) [] = none
after_prefix (c ∷ p) (d ∷ t) = let rest = after_prefix p t in if c == d then rest else none
