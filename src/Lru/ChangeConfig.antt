-- ===== src/Lru/ChangeConfig.antt =====
-- ChangeConfig: the cache is resized to the new number of objects.
use nedomi.Prelude.{
  ℕ, ◌*◌, ◌/◌, ◌^◌, ◌<◌, ◌≤◌, ◌≡◌, refl, true, false, List, [], ◌∷◌, ◌++◌, arith, ltb, ok,
}
use nedomi.Lru.{TieredLruCache, cache_tiers}
use nedomi.Lru.Resize.{total_below, surplus, resize, change_config}
use nedomi.Lru.Room.{IsSound}
use nedomi.Lru.Remove.{is_among}
use nedomi.Lru.Trim.{Removes}
use nedomi.Lru.Smaller.{shrink-Shrunk}

module _ {O H : Type 0} (dec : Discrete H) (hash : O → H) where
  -- The configuration after ChangeConfig.
  abbrev pub configured : TieredLruCache O H → ℕ → ℕ → ℕ → TieredLruCache O H
  configured s timeout count newsize = record s {
    cfg = record s.cfg {
      storage_objects = newsize;
      bulk_remove_count = count;
      bulk_remove_timeout = timeout;
    };
  }

  -- A state and its objects after ChangeConfig.
  pub record Changed (s s' : TieredLruCache O H) (newsize : ℕ) (removed : List O) : Type 0 where
    pub sound : IsSound dec hash s'
    pub size : s'.tier_list_size ≡ newsize / 4
    pub removes : Removes dec hash s s' removed
    pub removals : s'.removals ≡ s.removals

  total_le :
      (s : TieredLruCache O H)
      → IsSound dec hash s
      → total_below s cache_tiers ≤ 4 * s.tier_list_size
  unfolding total_below
  total_le s v = omega (arith, v.bounded 0, v.bounded 1, v.bounded 2, v.bounded 3)

  surplus-le :
      (s : TieredLruCache O H)
      → total_below s cache_tiers < 2 ^ 63
      → s.cfg.storage_objects < 2 ^ 63
      → surplus dec hash s ≤ total_below s cache_tiers
  unfolding surplus total_below
  surplus-le s b c = ground arith

  module _ (s : TieredLruCache O H) (v : IsSound dec hash s) (timeout count newsize : ℕ)
      (some_size : 4 ≤ newsize) (in_range : newsize < 2 ^ 63) where
    -- ChangeConfig of a sound cache with tiers below 2 ^ 61, to a size from 4 on and below 2 ^ 63 that
    -- makes the tiers smaller, does not panic. The cache stays sound at the new tier size, its objects
    -- are those from before less the removed ones, and these are handed to one new goroutine; nothing
    -- is given to the removal function yet.
    pub change_config-smaller :
        newsize / 4 < s.tier_list_size
        → s.tier_list_size < 2 ^ 61
        → (s' : TieredLruCache O H) × (removed : List O) × (change_config dec hash s timeout count
              newsize
            ≡ ok s')
          × Changed s s' newsize removed
          × (s'.removers ≡ s.removers ++ removed ∷ [])
    unfolding change_config resize
    change_config-smaller smaller b =
        let u = configured s timeout count newsize in
        let w : IsSound dec hash u = record {
          valid = record {
            listed = v.valid.listed;
            located = v.valid.located;
            fresh = v.valid.fresh;
            distinct = v.valid.distinct;
          };
          bounded = v.bounded;
          sized = v.sized;
        } in
        let (s', removed, e, q) =
          shrink-Shrunk dec hash u w.valid (surplus dec hash u) (newsize / 4)
            (surplus-le u (omega (arith, total_le u w)) in_range) in
        let less : ltb (newsize / 4) s.tier_list_size ≡ true = ground arith in
        (
          record s' { tier_list_size = newsize / 4 },
          removed,
          rw (less, e) refl,
          record {
            sound = record {
              valid = record {
                listed = q.valid.listed;
                located = q.valid.located;
                fresh = q.valid.fresh;
                distinct = q.valid.distinct;
              };
              bounded = q.fits;
              sized = omega arith;
            };
            size = refl;
            removes = record { gone = q.removes.gone; known = q.removes.known };
            removals = q.removals;
          },
          q.removers,
        )

    -- ChangeConfig of a sound cache to a size from 4 on and below 2 ^ 63 that does not make the tiers
    -- smaller does not panic. The cache stays sound at the new tier size, with the objects it had,
    -- and neither a removal nor a goroutine is added.
    pub change_config-larger :
        s.tier_list_size ≤ newsize / 4
        → (s' : TieredLruCache O H) × (change_config dec hash s timeout count newsize ≡ ok s')
          × Changed s s' newsize []
          × (s'.removers ≡ s.removers)
    unfolding change_config resize is_among
    change_config-larger larger =
        let u = configured s timeout count newsize in
        let more : ltb (newsize / 4) s.tier_list_size ≡ false = ground arith in
        (
          record u { tier_list_size = newsize / 4 },
          rw more refl,
          record {
            sound = record {
              valid = record {
                listed = v.valid.listed;
                located = v.valid.located;
                fresh = v.valid.fresh;
                distinct = v.valid.distinct;
              };
              bounded = λ t. omega (arith, v.bounded t);
              sized = omega arith;
            };
            size = refl;
            removes = record { gone = λ h. refl; known = λ h e. absurd (cc e) };
            removals = refl;
          },
          refl,
        )
