-- ===== src/Lru/Run.antt =====
-- Runs of the cache: the sections under the mutex, in any order. Calls from several goroutines
-- interleave between these sections only.
use nedomi.Prelude.{
  ℕ, ◌/◌, ◌^◌, ◌<◌, ◌≤◌, ◌≡◌, refl, ap, ◌⊎◌, zero, suc, inl, inr, true, List, [], ◌∷◌, arith,
  Bool-cases, Option-cases, ltb, Outcome, ok, ◌>>=◌,
}
use nedomi.Lru.{
  CacheZone, TieredLruCache, cache_tiers, new, look_up, should_keep, add_object, remove_objects,
  promote_object,
}
use nedomi.Lru.Resize.{change_config, remove_if_missing, check_tiers}
use nedomi.Lru.Valid.{IsValid}
use nedomi.Lru.Moves.{is_cached, size_of}
use nedomi.Lru.Room.{IsSound}
use nedomi.Lru.Add.{add_object-room, add_object-full, add_object-again}
use nedomi.Lru.Swap.{promote_object-Promoted}
use nedomi.Lru.Remove.{remove_objects-IsSound, remove_objects-size, remove_if_missing_lem}
use nedomi.Lru.ChangeConfig.{change_config-smaller, change_config-larger}

-- A call of the cache algorithm, or a section under the mutex of one.
pub data Call {ℓ} (O : Type ℓ) : Type ℓ where
  look_up_of should_keep_of add_of promote : O → Call O
  remove_all if_missing : List O → Call O
  configure : ℕ → ℕ → ℕ → Call O

module _ {ℓ} {O H : Type ℓ} (dec : Discrete H) (hash : O → H) where
  unfoldable pub step : TieredLruCache O H → Call O → Outcome (TieredLruCache O H)
  step s (look_up_of o) = ok (look_up dec hash s o).0
  step s (should_keep_of o) = (should_keep dec hash s o).0
  step s (add_of o) = (add_object dec hash s o).0
  step s (promote o) = promote_object dec hash s o
  step s (remove_all os) = ok (remove_objects dec hash s os)
  step s (if_missing os) = ok (remove_if_missing dec hash s os)
  step s (configure timeout count newsize) = change_config dec hash s timeout count newsize

  unfoldable pub run : TieredLruCache O H → List (Call O) → Outcome (TieredLruCache O H)
  run s [] = ok s
  run s (c ∷ cs) = step s c >>= λ s'. run s' cs

-- A new size of the cache: one object for each tier at least, and an int.
abbrev pub InRange {ℓ} : {O : Type ℓ} → Call O → Type 0
InRange (configure timeout count newsize) = (4 ≤ newsize) × (newsize < 2 ^ 63)
InRange _ = Unit

abbrev pub AllInRange {ℓ} : {O : Type ℓ} → List (Call O) → Type 0
AllInRange [] = Unit
AllInRange (c ∷ cs) = InRange c × AllInRange cs

module _ {O H : Type 0} (dec : Discrete H) (hash : O → H) where
  -- The invariant of a run: the maps and lists agree, the tiers are within their size, and the size
  -- is an int.
  pub record IsSafe (s : TieredLruCache O H) : Type 0 where
    pub sound : IsSound dec hash s
    pub small : s.tier_list_size < 2 ^ 61

  pub new-IsSafe :
      (cz : CacheZone) → 4 ≤ cz.storage_objects → cz.storage_objects < 2 ^ 63 → IsSafe (new cz)
  unfolding new
  new-IsSafe cz a b = record {
    sound = record {
      valid = record {
        listed = λ t. tt;
        located = λ h el e. absurd (cc e);
        fresh = λ t. tt;
        distinct = λ t. tt;
      };
      bounded = λ t. omega arith;
      sized = omega arith;
    };
    small = omega arith;
  }

  -- Some tier below `i` has space, or all are full.
  space :
      (s : TieredLruCache O H) (i : ℕ)
      → ((t : ℕ) × (t < i) × (size_of s t < s.tier_list_size))
        ⊎ ((t : ℕ) → t < i → s.tier_list_size ≤ size_of s t)
  space s zero = inr (λ t b. absurd (omega arith))
  space s (suc i) = elim (Bool-cases (ltb (size_of s i) s.tier_list_size)) [
    | inl free ↦ inl (i, omega arith, ground arith)
    | inr full ↦ elim (space s i) [
      | inl (t, b, free) ↦ inl (t, omega arith, free)
      | inr all ↦ inr λ t b. elim (Bool-cases (ltb t i)) [
        | inl below ↦ all t (ground arith)
        | inr top ↦ let e : t ≡ i = ground arith in rw e (ground arith)
      ]
    ]
  ]

  unfoldable pub Returns : Outcome (TieredLruCache O H) → Type 0
  Returns r = (s' : TieredLruCache O H) × (r ≡ ok s') × IsSafe s'

  add-IsSafe : (s : TieredLruCache O H) → IsSafe s → (o : O) → Returns (add_object dec hash s o).0
  unfolding Returns
  add-IsSafe s v o = elim (Bool-cases (is_cached s (hash o))) [
    | inl old ↦ (s, ap (λ r. r.0) (add_object-again dec hash s o old), v)
    | inr new ↦ elim (space s cache_tiers) [
      | inl (t, b, free) ↦
          let r = add_object-room dec hash s v.sound o new t b free in
          (r.0, ap (λ x. x.0) r.1, record { sound = r.2; small = omega (arith, r.3, v.small) })
      | inr full ↦
          let r = add_object-full dec hash s v.sound o new full in
          (r.1, ap (λ x. x.0) r.3, record { sound = r.4; small = omega (arith, r.5, v.small) })
    ]
  ]

  promote-IsSafe :
      (s : TieredLruCache O H) → IsSafe s → (o : O) → Returns (promote_object dec hash s o)
  unfolding Returns promote_object
  promote-IsSafe s v o = elim (Option-cases (s.lookup (hash o))) [
    | inl e ↦ rw (e, promote_object) (add-IsSafe s v o)
    | inr (el, e) ↦
        let (s', q, p) = promote_object-Promoted dec hash s v.sound o el e in
        (s', q, record { sound = p.sound; small = omega (arith, p.moves.size, v.small) })
  ]

  -- The counters, the removals and the goroutines are no part of the invariant.
  recount :
      (s : TieredLruCache O H) (requests hits : ℕ) (removals : List O)
      → IsSafe s
      → IsSafe (record s { requests = requests; hits = hits; removals = removals })
  recount s requests hits removals v = record {
    sound = record {
      valid = record {
        listed = v.sound.valid.listed;
        located = v.sound.valid.located;
        fresh = v.sound.valid.fresh;
        distinct = v.sound.valid.distinct;
      };
      bounded = v.sound.bounded;
      sized = v.sound.sized;
    };
    small = v.small;
  }

  look_up-IsSafe : (s : TieredLruCache O H) → IsSafe s → (o : O) → IsSafe (look_up dec hash s o).0
  unfolding look_up
  look_up-IsSafe s v o = elim (Option-cases (s.lookup (hash o))) [
    | inl e ↦ rw (e, look_up) (recount s _ _ _ v)
    | inr (el, e) ↦ rw (e, look_up) (recount s _ _ _ v)
  ]

  remove-IsSafe :
      (s : TieredLruCache O H) → IsSafe s → (os : List O) → IsSafe (remove_objects dec hash s os)
  remove-IsSafe s v os = record {
    sound = remove_objects-IsSound dec hash os s v.sound;
    small = omega (arith, remove_objects-size dec hash os s v.sound, v.small);
  }

  -- A change of the size keeps the invariant.
  configure-IsSafe :
      (s : TieredLruCache O H)
      → IsSafe s
      → (timeout count newsize : ℕ) → 4 ≤ newsize
      → newsize < 2 ^ 63
      → Returns (change_config dec hash s timeout count newsize)
  unfolding Returns
  configure-IsSafe s v timeout count newsize a b =
      elim (Bool-cases (ltb (newsize / 4) s.tier_list_size)) [
        | inl smaller ↦
            let (s', _, e, c, _) =
              change_config-smaller dec hash s v.sound timeout count newsize a b (ground arith)
                v.small in
            (s', e, record { sound = c.sound; small = omega (arith, c.size) })
        | inr larger ↦
            let (s', e, c, _) =
              change_config-larger dec hash s v.sound timeout count newsize a b (ground arith) in
            (s', e, record { sound = c.sound; small = omega (arith, c.size) })
      ]

  step-IsSafe :
      (s : TieredLruCache O H) → IsSafe s → (c : Call O) → InRange c → Returns (step dec hash s c)
  unfolding step should_keep Returns
  step-IsSafe s v (look_up_of o) r = (_, refl, look_up-IsSafe s v o)
  step-IsSafe s v (should_keep_of o) r = add-IsSafe s v o
  step-IsSafe s v (add_of o) r = add-IsSafe s v o
  step-IsSafe s v (promote o) r = promote-IsSafe s v o
  step-IsSafe s v (remove_all os) r = (_, refl, remove-IsSafe s v os)
  step-IsSafe s v (if_missing os) r =
      (_, refl, rw (remove_if_missing_lem dec hash os s) (recount s _ _ _ v))
  step-IsSafe s v (configure timeout count newsize) r =
      configure-IsSafe s v timeout count newsize r.0 r.1

  -- However the calls interleave, none panics, and the invariant holds at the end.
  pub run-IsSafe :
      (cs : List (Call O)) (s : TieredLruCache O H)
      → IsSafe s
      → AllInRange cs
      → Returns (run dec hash s cs)
  unfolding run Returns
  run-IsSafe [] s v r = (s, refl, v)
  run-IsSafe (c ∷ cs) s v r =
      let (s', e, v') = step-IsSafe s v c r.0 in rw e (run-IsSafe cs s' v' r.1)

  check_tiers_of : (s : TieredLruCache O H) (i : ℕ) → IsSound dec hash s → check_tiers s i ≡ true
  unfolding check_tiers
  check_tiers_of s zero v = refl
  check_tiers_of s (suc i) v = ground (arith, v.bounded i, check_tiers_of s i v)

  -- From a new cache of 4 objects at least and fewer than 2 ^ 63, any calls in any order, of which
  -- those of ChangeConfig have a size in the same range: no call panics, and at the end the map and
  -- the lists agree, no tier is over its size, and checkTiers does not panic.
  pub run-new :
      (cz : CacheZone) (cs : List (Call O))
      → 4 ≤ cz.storage_objects
      → cz.storage_objects < 2 ^ 63
      → AllInRange cs
      → (s' : TieredLruCache O H) × (run dec hash (new cz) cs ≡ ok s')
        × IsValid dec hash s'
        × ((t : ℕ) → size_of s' t ≤ s'.tier_list_size)
        × (check_tiers s' cache_tiers ≡ true)
  unfolding Returns
  run-new cz cs a b r =
      let (s', e, v) = run-IsSafe cs (new cz) (new-IsSafe cz a b) r in
      (s', e, v.sound.valid, v.sound.bounded, check_tiers_of s' cache_tiers v.sound)
