-- ===== src/Balancing/Weighted.antt =====
-- upstream/balancing/weighted/random: an address is chosen by its weight.
use nedomi.Prelude.{
  ℕ, ◌+◌, ◌%◌, ◌^◌, ◌≤◌, ◌<◌, ◌≡◌, refl, ap, ◌∙◌, Bool, false, Option, none, some, List, [], ◌∷◌,
  ◌++◌, ltb, ◌==◌, if◌then◌else◌, arith, Bool-cases, inl, inr,
}
use native.Mathlib.Nat.{mod-eq_of_lt}
use nedomi.Balancing.{UpstreamAddress}

pub record Random : Type 0 where
  pub buckets : List UpstreamAddress
  pub total_weight : ℕ

-- The sum of the weights, an int.
unfoldable pub sum_weights : List UpstreamAddress → ℕ
sum_weights [] = 0
sum_weights (b ∷ bs) = b.weight + sum_weights bs

-- Set; `sort` is sort.Sort by falling weight.
unfoldable pub random_set :
    (List UpstreamAddress → List UpstreamAddress) → List UpstreamAddress → Random
unfolding sum_weights
random_set sort buckets = record {
  buckets = sort buckets;
  total_weight = sum_weights (sort buckets);
}

-- The loop of Get; `reached` is a uint32.
unfoldable pub walk : ℕ → ℕ → List UpstreamAddress → Option UpstreamAddress
walk chosen reached [] = none
walk chosen reached (b ∷ bs) =
    let reached' = (reached + b.weight) % 2 ^ 32 in
    let rest = walk chosen reached' bs in if ltb chosen reached' then some b else rest

-- Get; `intn n` is the next number below `n` of the random source.
unfoldable pub weighted_get : (ℕ → ℕ) → Random → Option UpstreamAddress
unfolding walk
weighted_get intn r =
    if r.total_weight == 0 then none else walk (intn r.total_weight % 2 ^ 32) 0 r.buckets

-- The address `b` is chosen for the numbers from the weights before it on, as many as its weight.
pub Owns : ℕ → List UpstreamAddress → UpstreamAddress → Type 0
unfolding sum_weights
Owns chosen buckets b =
    (before after : List UpstreamAddress) × (buckets ≡ before ++ b ∷ after)
    × (sum_weights before ≤ chosen)
    × (chosen < sum_weights before + b.weight)

walk_lem :
    (chosen reached : ℕ) (bs : List UpstreamAddress)
    → reached ≤ chosen
    → chosen < reached + sum_weights bs
    → reached + sum_weights bs < 2 ^ 32
    → (b : UpstreamAddress) × (before after : List UpstreamAddress) × (walk chosen reached bs
        ≡ some b)
      × (bs ≡ before ++ b ∷ after)
      × (reached + sum_weights before ≤ chosen)
      × (chosen < reached + sum_weights before + b.weight)
unfolding walk sum_weights
walk_lem chosen reached [] a b c = absurd (omega arith)
walk_lem chosen reached (x ∷ bs) a b c =
    let e : (reached + x.weight) % 2 ^ 32 ≡ reached + x.weight = mod-eq_of_lt (omega arith) in
    let rest = walk chosen (reached + x.weight) bs in
    let step : walk chosen reached (x ∷ bs)
        ≡ (if ltb chosen (reached + x.weight) then some x else rest) =
      ap (λ r. if ltb chosen r then some x else walk chosen r bs) e in
    elim (Bool-cases (ltb chosen (reached + x.weight))) [
      | inl here ↦ (
        x,
        [],
        bs,
        step ∙ ap (λ (t : Bool). if t then some x else rest) here,
        refl,
        omega arith,
        ground arith,
      )
      | inr there ↦
          let (u, before, after, w, s, p, q) =
            walk_lem chosen (reached + x.weight) bs (ground arith) (omega arith) (omega arith) in
          (
            u,
            x ∷ before,
            after,
            step ∙ ap (λ (t : Bool). if t then some x else rest) there ∙ w,
            ap (λ l. x ∷ l) s,
            omega (arith, p),
            omega (arith, q),
          )
    ]

-- Get after Set, for weights whose sum is positive and below 2 ^ 32 and a random source that keeps
-- below its bound: an address is found, and it is the one that owns the random number, so that each
-- address is found for as many numbers as its weight.
pub weighted_get-Owns :
    (sort : List UpstreamAddress → List UpstreamAddress) (intn : ℕ → ℕ)
    (buckets : List UpstreamAddress)
    → 0 < sum_weights (sort buckets)
    → sum_weights (sort buckets) < 2 ^ 32
    → intn (sum_weights (sort buckets)) < sum_weights (sort buckets)
    → (b : UpstreamAddress) × (weighted_get intn (random_set sort buckets) ≡ some b)
      × Owns (intn (sum_weights (sort buckets))) (sort buckets) b
unfolding weighted_get random_set Owns
weighted_get-Owns sort intn buckets pos small drawn =
    let total = sum_weights (sort buckets) in
    let chosen = intn total in
    let ne : (total == 0) ≡ false = ground arith in
    let e : chosen % 2 ^ 32 ≡ chosen = mod-eq_of_lt (omega arith) in
    let first : weighted_get intn (random_set sort buckets) ≡ walk chosen 0 (sort buckets) =
      rw ne (ap (λ t. walk t 0 (sort buckets)) e) in
    let (b, before, after, w, s, p, q) =
      walk_lem chosen 0 (sort buckets) (omega arith) (omega arith) (omega arith) in
    (b, first ∙ w, (before, after, s, omega (arith, p), omega (arith, q)))
