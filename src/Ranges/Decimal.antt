-- ===== src/Ranges/Decimal.antt =====
-- strconv.FormatUint and the verbs %d and %06d of package fmt, and that ParseUint reads them back.
use nedomi.Prelude.{
  ℕ, zero, suc, ◌+◌, ◌-◌, ◌*◌, ◌/◌, ◌%◌, ◌^◌, ◌<◌, ◌≡◌, refl, ap, sym, ◌∙◌, true, some, [], ◌∷◌,
  ◌++◌, leb, ◌==◌, if◌then◌else◌, ◌&&◌, length, arith, Bool-cases, inl, inr, replicate,
}
use native.Mathlib.Nat.{pow-succ'}
use nedomi.Ranges.Strings.{Text, parse_uint, parse_digits}

-- The digits of a number below `10 ^ f`, before the text `t`.
unfoldable pub digits : ℕ → ℕ → Text → Text
digits zero n t = t
digits (suc f) n t =
    let t' = (48 + n % 10) ∷ t in
    let rest = digits f (n / 10) t' in if n / 10 == 0 then t' else rest

-- A uint64 has at most twenty digits.
unfoldable pub decimal : ℕ → Text
unfolding digits
decimal n = digits 20 n []

-- %06d
unfoldable pub decimal_six : ℕ → Text
unfolding decimal
decimal_six n = replicate (6 - length (decimal n)) 48 ++ decimal n

parse_digits-digit :
    (a d : ℕ) (t : Text) → d < 10 → parse_digits a ((48 + d) ∷ t) ≡ parse_digits (a * 10 + d) t
unfolding parse_digits
parse_digits-digit a d t lt =
    let e : 48 + d - 48 ≡ d = omega arith in
    let b : (leb 48 (48 + d) && leb (48 + d) 57) ≡ true = ground arith in rw (e, b) refl

more_digits : (f n : ℕ) → n < 10 ^ suc f → 0 < n / 10 → 0 < f
more_digits zero n a b = absurd (omega arith)
more_digits (suc f) n a b = omega arith

parse_digits-digits :
    (f n : ℕ) (t : Text) → n < 10 ^ f → 0 < f → parse_digits 0 (digits f n t) ≡ parse_digits n t
unfolding digits
parse_digits-digits zero n t lt pos = absurd (omega arith)
parse_digits-digits (suc f) n t lt pos = elim (Bool-cases (n / 10 == 0)) [
  | inl small ↦
      let e : n % 10 ≡ n = ground arith in
      rw (small, e)
        (parse_digits-digit 0 n t (ground arith) ∙ ap (λ k. parse_digits k t) (omega arith))
  | inr large ↦ rw large (
      parse_digits-digits f (n / 10) ((48 + n % 10) ∷ t) (omega (arith, lt, pow-succ' 10 f))
        (more_digits f n lt (ground arith))
      ∙ parse_digits-digit (n / 10) (n % 10) t (omega arith)
      ∙ ap (λ k. parse_digits k t) (omega arith))
]

parse_uint-digits :
    (f n c : ℕ) (t : Text) → parse_uint (digits f n (c ∷ t)) ≡ parse_digits 0 (digits f n (c ∷ t))
unfolding digits parse_uint
parse_uint-digits zero n c t = refl
parse_uint-digits (suc f) n c t = elim (Bool-cases (n / 10 == 0)) [
  | inl small ↦ rw small refl
  | inr large ↦ rw large (parse_uint-digits f (n / 10) (48 + n % 10) (c ∷ t))
]

parse_uint-digits_nil :
    (f n : ℕ) → parse_uint (digits (suc f) n []) ≡ parse_digits 0 (digits (suc f) n [])
unfolding digits parse_uint
parse_uint-digits_nil f n = elim (Bool-cases (n / 10 == 0)) [
  | inl small ↦ rw small refl
  | inr large ↦ rw large (parse_uint-digits f (n / 10) (48 + n % 10) [])
]

parse_digits-nil : (n : ℕ) → n < 2 ^ 64 → parse_digits n [] ≡ some n
unfolding parse_digits
parse_digits-nil n lt = ground arith

pub parse_uint-decimal : (n : ℕ) → n < 2 ^ 64 → parse_uint (decimal n) ≡ some n
unfolding decimal
parse_uint-decimal n lt =
    parse_uint-digits_nil 19 n
    ∙ parse_digits-digits 20 n [] (omega arith) (omega arith)
    ∙ parse_digits-nil n lt

parse_digits-zeros : (k : ℕ) (t : Text) → parse_digits 0 (replicate k 48 ++ t) ≡ parse_digits 0 t
parse_digits-zeros zero t = refl
parse_digits-zeros (suc k) t =
    parse_digits-digit 0 0 (replicate k 48 ++ t) (omega arith) ∙ parse_digits-zeros k t

parse_uint-parse_digits : (n : ℕ) → parse_uint (decimal n) ≡ parse_digits 0 (decimal n)
unfolding decimal
parse_uint-parse_digits n = parse_uint-digits_nil 19 n

-- Zeros in front of a number change nothing.
pub parse_uint-zeros : (k n : ℕ) → n < 2 ^ 64 → parse_uint (replicate k 48 ++ decimal n) ≡ some n
unfolding parse_uint
parse_uint-zeros zero n lt = parse_uint-decimal n lt
parse_uint-zeros (suc k) n lt =
    parse_digits-zeros (suc k) (decimal n)
    ∙ sym (parse_uint-parse_digits n)
    ∙ parse_uint-decimal n lt
