-- ===== src/Prelude/Slices.antt =====
-- Stretches of a list, taken and dropped one after the other.
use mathlib.Core.Path.{◌≡◌, refl, ap, sym, ◌∙◌}
use mathlib.Core.List.{List, [], ◌∷◌, ◌++◌}
use Prim.Native.Nat.{ℕ, zero, suc, ◌+◌, ◌-◌, ◌≤◌, min}
use native.Mathlib.Omega.{arith}
use nedomi.Prelude.Lists.{take, drop, length}

module _ {ℓ} {A : Type ℓ} where
  drop-nil : (n : ℕ) → drop {A = A} n [] ≡ []
  drop-nil zero = refl
  drop-nil (suc n) = refl

  take-nil : (n : ℕ) → take {A = A} n [] ≡ []
  take-nil zero = refl
  take-nil (suc n) = refl

  pub drop-drop : (a b : ℕ) (l : List A) → drop a (drop b l) ≡ drop (b + a) l
  drop-drop a zero l = let e : a ≡ 0 + a = omega arith in ap (λ k. drop k l) e
  drop-drop a (suc b) [] = drop-nil a ∙ sym (drop-nil (suc b + a))
  drop-drop a (suc b) (x ∷ l) =
      let e : suc (b + a) ≡ suc b + a = omega arith in drop-drop a b l ∙ ap (λ k. drop k (x ∷ l)) e

  pub take-take : (a b : ℕ) (l : List A) → take a (take b l) ≡ take (min a b) l
  take-take zero b l = let e : 0 ≡ min 0 b = omega arith in ap (λ k. take k l) e
  take-take (suc a) zero l = let e : 0 ≡ min (suc a) 0 = omega arith in ap (λ k. take k l) e
  take-take (suc a) (suc b) [] = sym (take-nil (min (suc a) (suc b)))
  take-take (suc a) (suc b) (x ∷ l) =
      let e : suc (min a b) ≡ min (suc a) (suc b) = omega arith in
      ap (λ t. x ∷ t) (take-take a b l) ∙ ap (λ k. take k (x ∷ l)) e

  pub drop-take : (a b : ℕ) (l : List A) → drop a (take b l) ≡ take (b - a) (drop a l)
  drop-take zero b l = let e : b ≡ b - 0 = omega arith in ap (λ k. take k l) e
  drop-take (suc a) zero l =
      let e : 0 ≡ 0 - suc a = omega arith in ap (λ k. take k (drop (suc a) l)) e
  drop-take (suc a) (suc b) [] = sym (take-nil (suc b - suc a))
  drop-take (suc a) (suc b) (x ∷ l) =
      let e : b - a ≡ suc b - suc a = omega arith in drop-take a b l ∙ ap (λ k. take k (drop a l)) e

  pub take-add : (a b : ℕ) (l : List A) → take (a + b) l ≡ take a l ++ take b (drop a l)
  take-add zero b l = let e : 0 + b ≡ b = omega arith in ap (λ k. take k l) e
  take-add (suc a) b [] = take-nil (suc a + b) ∙ sym (take-nil b)
  take-add (suc a) b (x ∷ l) =
      let e : suc a + b ≡ suc (a + b) = omega arith in
      ap (λ k. take k (x ∷ l)) e ∙ ap (λ t. x ∷ t) (take-add a b l)

  -- Two stretches that both reach the end are the same.
  pub take-end : (a b : ℕ) (l : List A) → length l ≤ a → length l ≤ b → take a l ≡ take b l
  take-end zero zero l p q = refl
  take-end a b [] p q = take-nil a ∙ sym (take-nil b)
  take-end zero (suc b) (x ∷ l) p q = absurd (omega arith)
  take-end (suc a) zero (x ∷ l) p q = absurd (omega arith)
  take-end (suc a) (suc b) (x ∷ l) p q =
      ap (λ t. x ∷ t) (take-end a b l (omega arith) (omega arith))
