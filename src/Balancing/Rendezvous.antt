-- ===== src/Balancing/Rendezvous.antt =====
-- upstream/balancing/weighted/rendezvous: the address with the highest score is chosen.
use nedomi.Prelude.{ℕ, Bool, String, Option, none, some, List, [], ◌∷◌, if◌then◌else◌, length}
use Prim.Native.String.{◌++◌}
use nedomi.Balancing.{UpstreamAddress}

-- What the code uses of float64 and math.Pow; `gt a b` is `a > b`.
pub record Floats (F : Type 0) : Type 0 where
  pub of_nat : ℕ → F
  pub add : F → F → F
  pub sub : F → F → F
  pub mul : F → F → F
  pub div : F → F → F
  pub pow : F → F → F
  pub gt : F → F → Bool

-- rbucket
pub record Bucket (F : Type 0) : Type 0 where
  pub address : UpstreamAddress
  pub weight_percent : F
  pub weight_multiplier : F

module _ {F : Type 0} (fl : Floats F) where
  unfoldable pub float_weight : F → List UpstreamAddress → F
  float_weight total [] = total
  float_weight total (u ∷ us) = float_weight (fl.add total (fl.of_nat u.weight)) us

  -- The first two loops of Set.
  unfoldable pub percents : F → List UpstreamAddress → List (Bucket F)
  percents total [] = []
  percents total (u ∷ us) =
      record {
        address = u;
        weight_percent = fl.div (fl.of_nat u.weight) total;
        weight_multiplier = fl.of_nat 0;
      }
      ∷ percents total us

  -- The last loop of Set. `K - k + 1` buckets are left in round `k`.
  unfoldable pub multipliers : F → F → F → List (Bucket F) → List (Bucket F)
  multipliers p_last x_n x_last [] = []
  multipliers p_last x_n x_last (b ∷ bs) =
      let kk1 = fl.of_nat (length (b ∷ bs)) in
      let x =
        fl.add (fl.div (fl.mul kk1 (fl.sub b.weight_percent p_last)) x_n) (fl.pow x_last kk1) in
      let multiplier = fl.pow x (fl.div (fl.of_nat 1) kk1) in
      record b { weight_multiplier = multiplier }
      ∷ multipliers b.weight_percent (fl.mul x_n multiplier) multiplier bs

  -- Set
  unfoldable pub rendezvous_set : List UpstreamAddress → List (Bucket F)
  rendezvous_set us =
      multipliers (fl.of_nat 0) (fl.of_nat 1) (fl.of_nat 0)
        (percents (float_weight (fl.of_nat 0) us) us)

  module _ (crc32 : String → ℕ) (path : String) where
    unfoldable pub score : Bucket F → F
    score b = fl.mul b.weight_multiplier (fl.of_nat (crc32 (b.address.host ++ path)))

    -- The loop of Get; `found` is the address at the index of the code, if it was found.
    unfoldable pub highest : Option UpstreamAddress → F → List (Bucket F) → Option UpstreamAddress
    highest found max_score [] = found
    highest found max_score (b ∷ bs) =
        let here = highest (some b.address) (score b) bs in
        let later = highest found max_score bs in if fl.gt (score b) max_score then here else later

    -- Get; `none` is an error.
    unfoldable pub rendezvous_get : List (Bucket F) → Option UpstreamAddress
    rendezvous_get [] = none
    rendezvous_get (b ∷ bs) = highest none (fl.of_nat 0) (b ∷ bs)
