-- ===== src/Lru/Resize.antt =====
-- The rest of cache/lru: statistics (stats.go), resizing and the removal in bulk (lru.go), and the
-- sections under the mutex as steps of a run.
use nedomi.Prelude.{
  ℕ, zero, suc, ◌+◌, ◌-◌, ◌*◌, ◌/◌, ◌%◌, ◌^◌, Bool, true, none, some, List, [], ◌∷◌, ◌++◌, ltb, leb,
  ◌==◌, if◌then◌else◌, length, Outcome, ok, panic, ◌>>=◌, ◌&&◌,
}
use nedomi.ContainerList.{Node, back, remove}
use nedomi.Lru.{TieredLruCache, TieredCacheStats, cache_tiers, last, unlink, forget, place_front}

-- removeFromList: the values taken off the back, and the list that stays.
unfoldable pub remove_from_list {ℓ} : {O : Type ℓ} → ℕ → List (Node O) → List O × List (Node O)
unfolding back remove
remove_from_list zero l = ([], l)
remove_from_list (suc k) l = elim (back l) [
  | none ↦ ([], l)
  | some n ↦ let (rest, l') = remove_from_list k (remove n.addr l) in (n.value ∷ rest, l')
]

-- The loop of `resize` that trims the last tier to `size`; `f` bounds its rounds. It returns
-- `additionalOids`.
unfoldable pub trim {ℓ} : {O : Type ℓ} → ℕ → ℕ → List (Node O) → List O × List (Node O)
unfolding back remove
trim zero size l = ([], l)
trim (suc f) size l =
    if ltb size (length l)
    then (elim (back l) [
      | none ↦ ([], l)
      | some n ↦ let (rest, l') = trim f size (remove n.addr l) in (n.value ∷ rest, l')
    ])
    else ([], l)

module _ {ℓ} {O H : Type ℓ} where
  -- The sum of the lengths of the tiers below `i`.
  unfoldable pub total_below : TieredLruCache O H → ℕ → ℕ
  total_below s zero = 0
  total_below s (suc i) = total_below s i + length (s.tiers i)

  -- ConsumedSize; a uint64, and so are the numbers of `stats`
  unfoldable pub consumed_size : TieredLruCache O H → ℕ
  unfolding total_below
  consumed_size s = s.cfg.part_size * total_below s cache_tiers % 2 ^ 64

  -- Stats
  unfoldable pub stats : TieredLruCache O H → TieredCacheStats
  unfolding total_below
  stats s = record {
    id = s.cfg.path;
    hits = s.hits;
    requests = s.requests;
    size = s.cfg.part_size * total_below s cache_tiers % 2 ^ 64;
    objects = total_below s cache_tiers % 2 ^ 64;
  }

  -- checkTiers, for the tiers below `i`: `false` is a panic
  unfoldable pub check_tiers : TieredLruCache O H → ℕ → Bool
  check_tiers s zero = true
  check_tiers s (suc i) = leb (length (s.tiers i)) s.tier_list_size && check_tiers s i

  -- The loop of resizeDown for the tiers below `i`, which takes `k` objects off.
  unfoldable pub resize_down : ℕ → TieredLruCache O H → ℕ → List O × TieredLruCache O H
  unfolding remove_from_list
  resize_down zero s k = ([], s)
  resize_down (suc i) s k =
      let (taken, l) = remove_from_list k (s.tiers i) in
      let s' = record s { tiers = λ j. if j == i then l else s.tiers j } in
      let (rest, s'') = resize_down i s' (k - length taken) in (taken ++ rest, s'')

module _ {ℓ} {O H : Type ℓ} (dec : Discrete H) (hash : O → H) where
  -- `delete(tc.lookup, oi.Hash())` for each object
  unfoldable pub forget_all : TieredLruCache O H → List O → TieredLruCache O H
  unfolding forget
  forget_all s [] = s
  forget_all s (oi ∷ ois) = forget_all (forget dec hash s (hash oi)) ois

  -- The loop of `resize` that moves the last elements of tier `i` to the next tier until `size`
  -- are left; `f` bounds its rounds.
  unfoldable pub move_down : ℕ → ℕ → TieredLruCache O H → ℕ → TieredLruCache O H
  unfolding unlink place_front back
  move_down zero size s i = s
  move_down (suc f) size s i =
      if ltb size (length (s.tiers i))
      then (elim (back (s.tiers i)) [
        | none ↦ s
        | some n ↦
            let s' = unlink dec hash s i n.addr in
            elim (s'.lookup (hash n.value)) [
              | none ↦ move_down f size s' i
              | some _ ↦ move_down f size (place_front dec hash s' (i + 1) n.value) i
            ]
      ])
      else s

  -- The loop over the tiers but the last, `k` of them from tier `i` on.
  unfoldable pub move_all_down : ℕ → ℕ → TieredLruCache O H → ℕ → TieredLruCache O H
  unfolding move_down
  move_all_down zero size s i = s
  move_all_down (suc k) size s i =
      move_all_down k size (move_down (length (s.tiers i)) size s i) (i + 1)

  -- The last tier is trimmed, and a goroutine is started for what was removed.
  unfoldable pub trim_last : ℕ → List O → TieredLruCache O H → TieredLruCache O H
  unfolding trim forget_all
  trim_last size oids s =
      let (additional, l) = trim (length (s.tiers last)) size (s.tiers last) in
      let s' = record s { tiers = λ j. if j == last then l else s.tiers j } in
      let s'' = forget_all s' additional in
      record s'' { removers = s''.removers ++ (oids ++ additional) ∷ [] }

  -- The branch of `resize` that makes the cache smaller. `make` fills the slice with zero object
  -- indexes: one that is left makes `Hash` panic.
  unfoldable pub shrink : ℕ → ℕ → TieredLruCache O H → Outcome (TieredLruCache O H)
  unfolding resize_down forget_all move_all_down trim_last
  shrink surplus size s =
      let (oids, s') = resize_down cache_tiers s surplus in
      if ltb (length oids) surplus
      then panic (forget_all s' oids)
      else ok (trim_last size oids (move_all_down last size (forget_all s' oids) 0))

  -- `int(tc.stats().Objects() - tc.cfg.StorageObjects)`, at least 0: the difference of two uint64
  -- that wraps around is a negative int, and resizeDown then removes nothing.
  unfoldable pub surplus : TieredLruCache O H → ℕ
  unfolding stats
  surplus s =
      let d = ((stats s).objects + 2 ^ 64 - s.cfg.storage_objects) % 2 ^ 64 in
      if ltb d (2 ^ 63) then d else 0

  -- resize
  unfoldable pub resize : TieredLruCache O H → Outcome (TieredLruCache O H)
  unfolding shrink surplus
  resize s =
      let size = s.cfg.storage_objects / 4 in
      (if ltb size s.tier_list_size then shrink (surplus s) size s else ok s) >>= λ s'.
      ok (record s' { tier_list_size = size })

  -- ChangeConfig
  unfoldable pub change_config : TieredLruCache O H → ℕ → ℕ → ℕ → Outcome (TieredLruCache O H)
  unfolding resize
  change_config s bulk_remove_timeout bulk_remove_count newsize =
      let cfg' = record s.cfg {
        storage_objects = newsize;
        bulk_remove_count = bulk_remove_count;
        bulk_remove_timeout = bulk_remove_timeout;
      } in
      resize (record s { cfg = cfg' })

  -- removeIfMissing
  unfoldable pub remove_if_missing : TieredLruCache O H → List O → TieredLruCache O H
  remove_if_missing s [] = s
  remove_if_missing s (oi ∷ ois) =
      let gone = record s { removals = s.removals ++ oi ∷ [] } in
      remove_if_missing (elim (s.lookup (hash oi)) [ none ↦ gone | some _ ↦ s ]) ois
