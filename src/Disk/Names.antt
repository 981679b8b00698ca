-- ===== src/Disk/Names.antt =====
-- The names of the parts' files, storage/disk/utils.go: getPartFilename and getPartNumberFromFile.
use nedomi.Prelude.{
  ℕ, zero, suc, ◌+◌, ◌-◌, ◌/◌, ◌%◌, ◌^◌, ◌<◌, ◌≡◌, refl, ap, sym, ◌∙◌, Bool, true, false, Option,
  none, some, [], ◌∷◌, ◌++◌, ltb, ◌==◌, if◌then◌else◌, ◌&&◌, length, arith, Bool-cases, inl, inr,
  replicate, Option-cases, ◌↔◌,
}
use native.Mathlib.Nat.{mod-eq_of_lt}
use mathlib.Core.Option.{some-injective}
use nedomi.Ranges.Strings.{Text, parse_uint}
use nedomi.Ranges.Decimal.{digits, decimal, decimal_six, parse_uint-zeros}

-- The test `==` of strings.
unfoldable pub text_eq : Text → Text → Bool
text_eq [] [] = true
text_eq [] (d ∷ u) = false
text_eq (c ∷ t) [] = false
text_eq (c ∷ t) (d ∷ u) = (c == d) && text_eq t u

pub text_eq_sound : (t u : Text) → text_eq t u ≡ true → t ≡ u
unfolding text_eq
text_eq_sound [] [] h = refl
text_eq_sound [] (d ∷ u) h = absurd (cc h)
text_eq_sound (c ∷ t) [] h = absurd (cc h)
text_eq_sound (c ∷ t) (d ∷ u) h =
    let e : c ≡ d = ground (arith, h) in
    let r : text_eq t u ≡ true = ground (arith, h) in
    ap (λ k. k ∷ t) e ∙ ap (λ v. d ∷ v) (text_eq_sound t u r)

pub text_eq_refl : (t : Text) → text_eq t t ≡ true
unfolding text_eq
text_eq_refl [] = refl
text_eq_refl (c ∷ t) = let h = text_eq_refl t in ground (arith, h)

-- strconv.Atoi behind the sign: whether it is negative, and the amount, of an int of 64 bits.
unfoldable pub signed : Bool → Text → Option (Bool × ℕ)
unfolding parse_uint
signed negative t = elim (parse_uint t) [
  | none ↦ none
  | some n ↦ if ltb n (if negative then 2 ^ 63 + 1 else 2 ^ 63) then some (negative, n) else none
]

-- strconv.Atoi
unfoldable pub atoi : Text → Option (Bool × ℕ)
unfolding signed
atoi [] = none
atoi (c ∷ t) =
    if c == 43 then signed false t else if c == 45 then signed true t else signed false (c ∷ t)

-- The conversion of an int to uint32.
abbrev pub to_uint32 : Bool × ℕ → ℕ
to_uint32 (false, n) = n % 2 ^ 32
to_uint32 (true, n) = (2 ^ 32 - n % 2 ^ 32) % 2 ^ 32

-- getPartFilename
unfoldable pub get_part_filename : ℕ → Text
unfolding decimal_six
get_part_filename part = decimal_six part

-- getPartNumberFromFile; `none` is its error.
unfoldable pub get_part_number_from_file : Text → Option ℕ
get_part_number_from_file name = elim (atoi name) [
  | none ↦ none
  | some n ↦ if text_eq (get_part_filename (to_uint32 n)) name then some (to_uint32 n) else none
]

-- A text that begins with a digit has no sign.
atoi-digit : (d : ℕ) (t : Text) → d < 10 → atoi ((48 + d) ∷ t) ≡ signed false ((48 + d) ∷ t)
unfolding atoi
atoi-digit d t lt =
    let plus : (48 + d == 43) ≡ false = ground arith in
    let minus : (48 + d == 45) ≡ false = ground arith in rw (plus, minus) refl

atoi-digits :
    (f n d : ℕ) (t : Text)
    → d < 10
    → atoi (digits f n ((48 + d) ∷ t)) ≡ signed false (digits f n ((48 + d) ∷ t))
unfolding digits
atoi-digits zero n d t lt = atoi-digit d t lt
atoi-digits (suc f) n d t lt = elim (Bool-cases (n / 10 == 0)) [
  | inl small ↦ rw small (atoi-digit (n % 10) ((48 + d) ∷ t) (omega arith))
  | inr large ↦ rw large (atoi-digits f (n / 10) (n % 10) ((48 + d) ∷ t) (omega arith))
]

atoi-digits_nil : (f n : ℕ) → atoi (digits (suc f) n []) ≡ signed false (digits (suc f) n [])
unfolding digits
atoi-digits_nil f n = elim (Bool-cases (n / 10 == 0)) [
  | inl small ↦ rw small (atoi-digit (n % 10) [] (omega arith))
  | inr large ↦ rw large (atoi-digits f (n / 10) (n % 10) [] (omega arith))
]

pub atoi-decimal : (n : ℕ) → atoi (decimal n) ≡ signed false (decimal n)
unfolding decimal
atoi-decimal n = atoi-digits_nil 19 n

signed-zeros : (k n : ℕ) → n < 2 ^ 32 → signed false (replicate k 48 ++ decimal n) ≡ some (false, n)
unfolding signed
signed-zeros k n lt =
    rw (parse_uint-zeros k n (omega arith), signed)
      (let fits : ltb n (2 ^ 63) ≡ true = ground arith in rw fits refl)

atoi-zeros :
    (k n : ℕ) → atoi (replicate k 48 ++ decimal n) ≡ signed false (replicate k 48 ++ decimal n)
atoi-zeros zero n = atoi-decimal n
atoi-zeros (suc k) n = atoi-digit 0 (replicate k 48 ++ decimal n) (omega arith)

atoi-get_part_filename :
    (part : ℕ) → part < 2 ^ 32 → atoi (get_part_filename part) ≡ some (false, part)
unfolding get_part_filename decimal_six
atoi-get_part_filename part lt =
    let k = 6 - length (decimal part) in atoi-zeros k part ∙ signed-zeros k part lt

-- A file's name gives a part's number exactly when it is that part's file name.
pub get_part_number_from_file_iff :
    (name : Text) (part : ℕ)
    → part < 2 ^ 32
    → (get_part_number_from_file name ≡ some part) ↔ (name ≡ get_part_filename part)
unfolding get_part_number_from_file
get_part_number_from_file_iff name part lt = (
  elim (Option-cases (atoi name)) [
    | inl p ↦ rw (p, get_part_number_from_file) (λ h. absurd (cc h))
    | inr (n, p) ↦ elim (Bool-cases (text_eq (get_part_filename (to_uint32 n)) name)) [
      | inr t ↦ rw (p, get_part_number_from_file, t) (λ h. absurd (cc h))
      | inl t ↦
          rw (p, get_part_number_from_file, t)
            (λ h.
              sym (text_eq_sound (get_part_filename (to_uint32 n)) name t)
              ∙ ap get_part_filename (some-injective _ _ h))
    ]
  ],
  λ h.
      let read : atoi name ≡ some (false, part) = ap atoi h ∙ atoi-get_part_filename part lt in
      let same : text_eq (get_part_filename part) name ≡ true =
        ap (text_eq (get_part_filename part)) h ∙ text_eq_refl (get_part_filename part) in
      rw (read, get_part_number_from_file, mod-eq_of_lt lt, same) refl,
)
