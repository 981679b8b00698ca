-- ===== src/Prelude/Results.antt =====
-- The outcome of a call of Go code: it returns, or it panics. A panic keeps the value that the
-- deferred calls leave behind, since the server recovers from it and goes on.

pub data Outcome {ℓ} (A : Type ℓ) : Type ℓ where
  ok : A → Outcome A
  panic : A → Outcome A

-- What the call leaves, however it ended.
abbrev pub left_by {ℓ} : {A : Type ℓ} → Outcome A → A
left_by (ok a) = a
left_by (panic a) = a

-- The second call is made only if the first one returns.
infixl 5 ◌>>=◌
abbrev pub ◌>>=◌ {ℓ} : {A : Type ℓ} → Outcome A → (A → Outcome A) → Outcome A
ok a >>= f = f a
panic a >>= f = panic a
