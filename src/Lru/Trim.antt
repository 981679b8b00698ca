-- ===== src/Lru/Trim.antt =====
-- The end of `resize`: the last tier is trimmed, and a goroutine gets what was removed.
use nedomi.Prelude.{
  ℕ, ◌-◌, ◌≤◌, ◌≡◌, refl, ap, ◌∙◌, ◌≢◌, Bool, true, false, none, List, [], ◌∷◌, ◌++◌, arith, length,
  if◌then◌else◌,
}
use nedomi.ContainerList.{Node}
use nedomi.Lru.{TieredLruCache, last, set_tier}
use nedomi.Lru.Resize.{remove_from_list, trim_last, forget_all}
use nedomi.Lru.Valid.{IsValid, set_tier_elim}
use nedomi.Lru.Moves.{is_some, is_cached, size_of}
use nedomi.Lru.Remove.{is_among}
use nedomi.Lru.Taken.{remove_from_list-Taken, length-remove_from_list}
use nedomi.Lru.Shrink.{Interim, IsValid-Interim, taken_state, taken_state-Interim}
use nedomi.Lru.Forget.{without, forget_all_lem, forget_all-IsValid}
use nedomi.Lru.Lower.{trim_lem}

module _ {O H : Type 0} (dec : Discrete H) (hash : O → H) where
  -- What a step that takes the objects `removed` out of the cache does.
  pub record Removes (s s' : TieredLruCache O H) (removed : List O) : Type 0 where
    pub gone :
        (h : H) → is_cached s' h ≡ (if is_among dec hash h removed then false else is_cached s h)
    pub known : (h : H) → is_among dec hash h removed ≡ true → is_cached s h ≡ true

  is_some-without :
      (s : TieredLruCache O H) (os : List O) (h : H)
      → is_some (without dec hash s.lookup os h)
        ≡ (if is_among dec hash h os then false else is_cached s h)
  is_some-without s os h = go (is_among dec hash h os)
    where
      go :
          (b : Bool)
          → is_some (if b then none else s.lookup h) ≡ (if b then false else is_cached s h)
      go true = refl
      go false = refl

  -- The deletions of the objects of an interim state.
  pub forget_all-Removes :
      (s : TieredLruCache O H) (os : List O)
      → Interim dec hash s os
      → Removes s (forget_all dec hash s os) os
  forget_all-Removes s os v = record {
    gone = λ h.
        ap (λ (u : TieredLruCache O H). is_cached u h) (forget_all_lem dec hash os s)
        ∙ is_some-without s os h;
    known = v.known;
  }

  module _ (size : ℕ) (oids : List O) (s : TieredLruCache O H) (v : IsValid dec hash s)
      (fit : (t : ℕ) → t ≢ last → size_of s t ≤ size) where
    abbrev cut : List O × List (Node O)
    cut = remove_from_list (size_of s last - size) (s.tiers last)

    abbrev trimmed : TieredLruCache O H
    trimmed = record s { tiers = set_tier s.tiers last cut.1 }

    trimmed-Interim : Interim dec hash trimmed cut.0
    unfolding taken_state
    trimmed-Interim =
        taken_state-Interim dec hash s [] (IsValid-Interim dec hash s v) last cut.0 cut.1 (
          remove_from_list-Taken dec hash s last (size_of s last - size) (s.tiers last)
            (v.listed last) (v.distinct last))

    trim_last_lem : trim_last dec hash size oids s ≡ record (forget_all dec hash trimmed cut.0) {
      removers = (forget_all dec hash trimmed cut.0).removers ++ (oids ++ cut.0) ∷ [];
    }
    unfolding trim_last
    trim_last_lem =
        rw (trim_lem dec hash (size_of s last) size (s.tiers last) (v.distinct last) (omega arith))
          refl

    trimmed_fit : (t : ℕ) → size_of trimmed t ≤ size
    trimmed_fit t =
        set_tier_elim (λ _ l. length l ≤ size) s.tiers last cut.1
          (omega (
            arith,
            (length-remove_from_list dec hash (size_of s last - size) (s.tiers last)
                (v.distinct last)).1,
          ))
          t (fit t)

    -- What is trimmed, and the state after it.
    pub record Trimmed (s' : TieredLruCache O H) (additional : List O) : Type 0 where
      pub valid : IsValid dec hash s'
      pub fits : (t : ℕ) → size_of s' t ≤ size
      pub removes : Removes s s' additional
      pub removers : s'.removers ≡ s.removers ++ (oids ++ additional) ∷ []
      pub removals : s'.removals ≡ s.removals
      pub cfg : s'.cfg ≡ s.cfg

    pub trim_last-Trimmed :
        (additional : List O) × Trimmed (trim_last dec hash size oids s) additional
    trim_last-Trimmed =
        let w : IsValid dec hash (record trimmed { lookup = without dec hash s.lookup cut.0 }) =
          rw forget_all_lem at (forget_all-IsValid dec hash trimmed cut.0 trimmed-Interim) in
        (
          cut.0,
          rw (trim_last_lem, forget_all_lem)
              (record {
                valid = record {
                  listed = w.listed;
                  located = w.located;
                  fresh = w.fresh;
                  distinct = w.distinct;
                };
                fits = trimmed_fit;
                removes = record {
                  gone = is_some-without trimmed cut.0;
                  known = trimmed-Interim.known;
                };
                removers = refl;
                removals = refl;
                cfg = refl;
              }),
        )
