-- ===== src/Balancing/Highest.antt =====
-- The address that the rendezvous balancer answers has a highest score.
use nedomi.Prelude.{
  ℕ, ◌≡◌, refl, ap, ◌∙◌, true, false, String, Option, none, some, List, [], ◌∷◌, map, Bool-cases,
  inl, inr, ◌⊎◌,
}
use mathlib.Core.List.{Memᴰ}
use mathlib.Core.List.Memᴰ
use nedomi.Balancing.{UpstreamAddress}
use nedomi.Balancing.Rendezvous.{
  Floats, Bucket, float_weight, percents, multipliers, rendezvous_set, score, highest,
  rendezvous_get,
}

-- The comparison of two float64, NaN or not.
pub record IsStrict {F : Type 0} (fl : Floats F) : Type 0 where
  pub irreflexive : (a : F) → fl.gt a a ≡ false
  pub transitive : (a b c : F) → fl.gt a b ≡ true → fl.gt b c ≡ true → fl.gt a c ≡ true

module _ {F : Type 0} (fl : Floats F) where
  module _ (crc32 : String → ℕ) (path : String) where
    -- The address of a highest score above 0, or none where no score is.
    pub data IsHighest (bs : List (Bucket F)) : Option UpstreamAddress → Type 0 where
      no_score :
          ((c : Bucket F) → Memᴰ c bs → fl.gt (score fl crc32 path c) (fl.of_nat 0) ≡ false)
          → IsHighest bs none
      has_highest :
          (b : Bucket F)
          → Memᴰ b bs
          → fl.gt (score fl crc32 path b) (fl.of_nat 0) ≡ true
          → ((c : Bucket F)
              → Memᴰ c bs
              → fl.gt (score fl crc32 path c) (score fl crc32 path b) ≡ false)
          → IsHighest bs (some b.address)

    -- What the loop knows of the buckets `all`, before it has seen `bs` of them.
    Known : List (Bucket F) → F → List (Bucket F) → Type 0
    Known all max_score bs =
        (c : Bucket F) → Memᴰ c all → (fl.gt (score fl crc32 path c) max_score ≡ false) ⊎ Memᴰ c bs

    module _ (strict : IsStrict fl) where
      -- A bucket that takes the lead.
      Known-taken :
          (all bs : List (Bucket F)) (b : Bucket F) (max_score : F)
          → fl.gt (score fl crc32 path b) max_score ≡ true
          → Known all max_score (b ∷ bs)
          → Known all (score fl crc32 path b) bs
      unfolding Known
      Known-taken all bs b max_score t known c m = elim (known c m) [
        | inl lower ↦ elim (Bool-cases (fl.gt (score fl crc32 path c) (score fl crc32 path b))) [
          | inl more ↦ absurd (
              cc (
                strict.transitive (score fl crc32 path c) (score fl crc32 path b) max_score more t,
                lower,
              ))
          | inr less ↦ inl less
        ]
        | inr m' ↦ elim (Memᴰ.cases_cons m') [
          | inl same ↦ inl (
              ap (λ d. fl.gt (score fl crc32 path d) (score fl crc32 path b)) same
              ∙ strict.irreflexive (score fl crc32 path b))
          | inr later ↦ inr later
        ]
      ]

      Known-kept :
          (all bs : List (Bucket F)) (b : Bucket F) (max_score : F)
          → fl.gt (score fl crc32 path b) max_score ≡ false
          → Known all max_score (b ∷ bs)
          → Known all max_score bs
      unfolding Known
      Known-kept all bs b max_score t known c m = elim (known c m) [
        | inl lower ↦ inl lower
        | inr m' ↦ elim (Memᴰ.cases_cons m') [
          | inl same ↦ inl (ap (λ d. fl.gt (score fl crc32 path d) max_score) same ∙ t)
          | inr later ↦ inr later
        ]
      ]

      Known-end :
          (all : List (Bucket F)) (max_score : F)
          → Known all max_score []
          → (c : Bucket F) → Memᴰ c all
          → fl.gt (score fl crc32 path c) max_score ≡ false
      unfolding Known
      Known-end all max_score known c m = elim (known c m) [
        | inl lower ↦ lower
        | inr m' ↦ absurd (Memᴰ.not-nil m')
      ]

      module _ (all : List (Bucket F)) where
        highest-found :
            (bs : List (Bucket F)) (b : Bucket F)
            → ((c : Bucket F) → Memᴰ c bs → Memᴰ c all)
            → Memᴰ b all
            → fl.gt (score fl crc32 path b) (fl.of_nat 0) ≡ true
            → Known all (score fl crc32 path b) bs
            → IsHighest all (highest fl crc32 path (some b.address) (score fl crc32 path b) bs)
        unfolding highest
        highest-found [] b sub m pos known =
            has_highest b m pos (Known-end all (score fl crc32 path b) known)
        highest-found (d ∷ bs) b sub m pos known =
            elim (Bool-cases (fl.gt (score fl crc32 path d) (score fl crc32 path b))) [
              | inl t ↦
                  rw (t, highest)
                    (highest-found bs d (λ c i. sub c (Memᴰ.tail i)) (sub d (Memᴰ.head refl))
                      (strict.transitive (score fl crc32 path d) (score fl crc32 path b)
                        (fl.of_nat 0) t pos)
                      (Known-taken all bs d (score fl crc32 path b) t known))
              | inr t ↦
                  rw (t, highest)
                    (highest-found bs b (λ c i. sub c (Memᴰ.tail i)) m pos
                      (Known-kept all bs d (score fl crc32 path b) t known))
            ]

        highest-none :
            (bs : List (Bucket F))
            → ((c : Bucket F) → Memᴰ c bs → Memᴰ c all)
            → Known all (fl.of_nat 0) bs
            → IsHighest all (highest fl crc32 path none (fl.of_nat 0) bs)
        unfolding highest
        highest-none [] sub known = no_score (Known-end all (fl.of_nat 0) known)
        highest-none (d ∷ bs) sub known =
            elim (Bool-cases (fl.gt (score fl crc32 path d) (fl.of_nat 0))) [
              | inl t ↦
                  rw (t, highest)
                    (highest-found bs d (λ c i. sub c (Memᴰ.tail i)) (sub d (Memᴰ.head refl)) t
                      (Known-taken all bs d (fl.of_nat 0) t known))
              | inr t ↦
                  rw (t, highest)
                    (highest-none bs (λ c i. sub c (Memᴰ.tail i))
                      (Known-kept all bs d (fl.of_nat 0) t known))
            ]

      get-IsHighest : (bs : List (Bucket F)) → IsHighest bs (rendezvous_get fl crc32 path bs)
      unfolding rendezvous_get Known
      get-IsHighest [] = no_score (λ c m. absurd (Memᴰ.not-nil m))
      get-IsHighest (b ∷ bs) = highest-none (b ∷ bs) (b ∷ bs) (λ c m. m) (λ c m. inr m)

  map-percents :
      (total : F) (us : List UpstreamAddress) → map (λ b. b.address) (percents fl total us) ≡ us
  unfolding percents
  map-percents total [] = refl
  map-percents total (u ∷ us) = ap (λ l. u ∷ l) (map-percents total us)

  map-multipliers :
      (bs : List (Bucket F)) (p_last x_n x_last : F)
      → map (λ b. b.address) (multipliers fl p_last x_n x_last bs) ≡ map (λ b. b.address) bs
  unfolding multipliers
  map-multipliers [] p_last x_n x_last = refl
  map-multipliers (b ∷ bs) p_last x_n x_last = ap (λ l. b.address ∷ l) (map-multipliers bs _ _ _)

-- Get after Set, where the comparison is irreflexive and transitive: there is a bucket for each
-- address in order, and Get answers the address of a bucket whose score is above 0 and below no other
-- one's, or is an error if no score is above 0.
pub rendezvous_get-rendezvous_set :
    {F : Type 0} (fl : Floats F) (strict : IsStrict fl) (crc32 : String → ℕ) (path : String)
    (us : List UpstreamAddress)
    → (map (λ b. b.address) (rendezvous_set fl us) ≡ us)
      × IsHighest fl crc32 path
          (rendezvous_set fl us)
          (rendezvous_get fl crc32 path (rendezvous_set fl us))
unfolding rendezvous_set
rendezvous_get-rendezvous_set fl strict crc32 path us = (
  map-multipliers fl (percents fl (float_weight fl (fl.of_nat 0) us) us) _ _ _
      ∙ map-percents fl (float_weight fl (fl.of_nat 0) us) us,
  get-IsHighest fl crc32 path strict (rendezvous_set fl us),
)
