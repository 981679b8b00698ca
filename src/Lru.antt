-- ===== src/Lru.antt =====
-- The tiered LRU cache algorithm, cache/lru/lru.go: its state and its methods. An object index is
-- read only through its hash, so the model is generic in both. A mutex guards every method, and
-- each section under it is one function here.
pub mod Resize
pub mod Valid
pub mod Place
pub mod Moves
mod Shift
pub mod Room
pub mod Add
pub mod Promote
pub mod Swap
pub mod Remove
pub mod Taken
pub mod Shrink
pub mod Forget
pub mod Lower
pub mod Trim
pub mod Smaller
pub mod ChangeConfig
pub mod Run
pub mod Bulk
pub mod Tiny
mod Tests
use nedomi.Prelude.{
  ℕ, zero, suc, ◌+◌, ◌-◌, ◌*◌, ◌/◌, ◌%◌, ◌^◌, Bool, true, false, String, Option, none, some, List,
  [], ◌∷◌, ◌++◌, ite, ltb, leb, ◌==◌, if◌then◌else◌, length, Outcome, ok, panic, ◌>>=◌,
}
use nedomi.ContainerList.{Node, front, back, remove, move_to_front}

abbrev pub cache_tiers : ℕ
cache_tiers = 4

-- the index of the last tier, `lastListInd`
abbrev pub last : ℕ
last = cache_tiers - 1

-- the fields of config.CacheZone that the algorithm reads
pub record CacheZone : Type 0 where
  pub path : String
  pub storage_objects : ℕ
  pub part_size : ℕ
  pub bulk_remove_count : ℕ
  pub bulk_remove_timeout : ℕ

pub record Element : Type 0 where
  pub list_elem : ℕ
  pub list_tier : ℕ

-- `removals` lists the calls of `removeFunc`, and `removers` the goroutines that `resize` starts.
-- `next_addr` is the address of the next list element.
pub record TieredLruCache {ℓ} (O H : Type ℓ) : Type ℓ where
  pub cfg : CacheZone
  pub tiers : ℕ → List (Node O)
  pub lookup : H → Option Element
  pub tier_list_size : ℕ
  pub requests : ℕ
  pub hits : ℕ
  pub next_addr : ℕ
  pub removals : List O
  pub removers : List (List O)

pub record TieredCacheStats : Type 0 where
  pub id : String
  pub hits : ℕ
  pub requests : ℕ
  pub size : ℕ
  pub objects : ℕ

pub data AddError : Type 0 where
  already_in_cache : AddError

-- `m[k] = v`, and with `none` `delete(m, k)`
abbrev pub update {ℓ κ} : {K : Type ℓ} {V : Type κ} → Discrete K → (K → V) → K → V → K → V
update dec m k v j = ite (dec j k) v (m j)

abbrev pub set_tier {ℓ} : {A : Type ℓ} → (ℕ → A) → ℕ → A → ℕ → A
set_tier tiers i l j = if j == i then l else tiers j

-- New
unfoldable pub new {ℓ} : {O H : Type ℓ} → CacheZone → TieredLruCache O H
new cz = record {
  cfg = cz;
  tiers = λ _. [];
  lookup = λ _. none;
  tier_list_size = cz.storage_objects / cache_tiers;
  requests = 0;
  hits = 0;
  next_addr = 0;
  removals = [];
  removers = [];
}

module _ {ℓ} {O H : Type ℓ} (dec : Discrete H) (hash : O → H) where
  -- `tc.tiers[i].Remove(e)`
  pub unlink : TieredLruCache O H → ℕ → ℕ → TieredLruCache O H
  unlink s i a = record s { tiers = set_tier s.tiers i (remove a (s.tiers i)) }

  -- `delete(tc.lookup, h)`
  pub forget : TieredLruCache O H → H → TieredLruCache O H
  forget s h = record s { lookup = update dec s.lookup h none }

  -- `l` is a list that a new element of the value `o`, at `next_addr`, was pushed to: tier `i`
  -- becomes `l`, and the entry of the map for `o` points to the element.
  pub link : TieredLruCache O H → ℕ → O → List (Node O) → TieredLruCache O H
  link s i o l = record s {
    tiers = set_tier s.tiers i l;
    lookup =
        update dec s.lookup (hash o) (some (record { list_elem = s.next_addr; list_tier = i }));
    next_addr = s.next_addr + 1;
  }

  -- `e.ListElem = tc.tiers[i].PushFront(o); e.ListTier = i`, for the entry `e` of `o`
  pub place_front : TieredLruCache O H → ℕ → O → TieredLruCache O H
  unfolding link
  place_front s i o = link s i o (record { addr = s.next_addr; value = o } ∷ s.tiers i)

  -- `e.ListElem = tc.tiers[i].PushBack(o); e.ListTier = i`
  pub place_back : TieredLruCache O H → ℕ → O → TieredLruCache O H
  unfolding link
  place_back s i o = link s i o (s.tiers i ++ record { addr = s.next_addr; value = o } ∷ [])

  -- Lookup
  unfoldable pub look_up : TieredLruCache O H → O → TieredLruCache O H × Bool
  look_up s oi =
      let s' = record s { requests = (s.requests + 1) % 2 ^ 64 } in
      elim (s.lookup (hash oi)) [
        | none ↦ (s', false)
        | some _ ↦ (record s' { hits = (s'.hits + 1) % 2 ^ 64 }, true)
      ]

  -- The search for a tier with free space in freeSpaceInLastList, below tier `i`.
  pub free_list : TieredLruCache O H → ℕ → Option ℕ
  free_list s zero = none
  free_list s (suc i) = if ltb (length (s.tiers i)) s.tier_list_size then some i else free_list s i

  -- One round of the loop that moves front elements upwards, for tier `i`. An element whose object
  -- is not in the map is dropped and the round is repeated, once for each element of `l` at most.
  pub move_up : List (Node O) → TieredLruCache O H → ℕ → TieredLruCache O H
  unfolding unlink place_back link remove front
  move_up [] s i = s
  move_up (_ ∷ l) s i = elim (front (s.tiers i)) [
    | none ↦ s
    | some n ↦
        let s' = unlink s i n.addr in
        elim (s'.lookup (hash n.value)) [
          | none ↦ move_up l s' i
          | some _ ↦ place_back s' (i - 1) n.value
        ]
  ]

  -- The loop, for `k` tiers from `i` upwards.
  pub move_all_up : ℕ → TieredLruCache O H → ℕ → TieredLruCache O H
  unfolding move_up
  move_all_up zero s i = s
  move_all_up (suc k) s i = move_all_up k (move_up (s.tiers i) s i) (i - 1)

  -- The last branch of freeSpaceInLastList: `l.Remove(nil)` panics.
  pub evict : TieredLruCache O H → ℕ → Outcome (TieredLruCache O H)
  evict s i = elim (back (s.tiers i)) [
    | none ↦ panic s
    | some n ↦
        let s' = forget (unlink s i n.addr) (hash n.value) in
        ok (record s' { removals = s'.removals ++ n.value ∷ [] })
  ]

  -- freeSpaceInLastList
  pub free_space_in_last_list : TieredLruCache O H → Outcome (TieredLruCache O H)
  free_space_in_last_list s =
      if length (s.tiers last) == 0 then ok s else (elim (free_list s last) [
        | some i ↦ ok (move_all_up (last - i) s last)
        | none ↦ evict s last
      ])

  -- `if lastList.Len() >= tc.tierListSize { tc.freeSpaceInLastList() }` of AddObject
  pub make_room : TieredLruCache O H → Outcome (TieredLruCache O H)
  unfolding free_space_in_last_list
  make_room s =
      if leb s.tier_list_size (length (s.tiers last)) then free_space_in_last_list s else ok s

  -- The part of AddObject behind the test of the map.
  pub add_new : TieredLruCache O H → O → Outcome (TieredLruCache O H)
  add_new s oi = make_room s >>= λ s'. ok (place_front s' last oi)

  -- AddObject
  unfoldable pub add_object :
      TieredLruCache O H → O → Outcome (TieredLruCache O H) × Option AddError
  add_object s oi = elim (s.lookup (hash oi)) [
    | some _ ↦ (ok s, some already_in_cache)
    | none ↦ (add_new s oi, none)
  ]

  -- ShouldKeep: the error of AddObject is logged at most
  unfoldable pub should_keep : TieredLruCache O H → O → Outcome (TieredLruCache O H) × Bool
  should_keep s oi = ((add_object s oi).0, true)

  -- Remove, the body of its loop
  pub remove_one : TieredLruCache O H → O → TieredLruCache O H
  unfolding unlink forget
  remove_one s oi = elim (s.lookup (hash oi)) [
    | none ↦ s
    | some el ↦ unlink (forget s (hash oi)) el.list_tier el.list_elem
  ]

  -- Remove
  unfoldable pub remove_objects : TieredLruCache O H → List O → TieredLruCache O H
  remove_objects s [] = s
  remove_objects s (oi ∷ ois) = remove_objects (remove_one s oi) ois

  -- The deferred function of PromoteObject. It reads the entry of `oi` when it runs, and the tiers
  -- are those from before; nothing deletes the entry in between.
  pub finish_promote : TieredLruCache O H → ℕ → O → TieredLruCache O H
  finish_promote s current oi = elim (s.lookup (hash oi)) [
    | none ↦ s
    | some el ↦ place_front (unlink s current el.list_elem) (current - 1) oi
  ]

  -- PromoteObject, behind the tests of the upper tier's length: the swap with its last element.
  -- With an empty upper tier `l.Remove(nil)` panics, and the deferred function still runs.
  pub swap_down : TieredLruCache O H → ℕ → O → Outcome (TieredLruCache O H)
  swap_down s current oi = elim (back (s.tiers (current - 1))) [
    | none ↦ panic (finish_promote s current oi)
    | some n ↦
        let s' = unlink s (current - 1) n.addr in
        elim (s'.lookup (hash n.value)) [
          | none ↦ ok (finish_promote s' current oi)
          | some _ ↦ ok (finish_promote (place_front s' current n.value) current oi)
        ]
  ]

  -- PromoteObject for an object in the cache
  pub promote_found : TieredLruCache O H → O → Element → Outcome (TieredLruCache O H)
  promote_found s oi el =
      let current = el.list_tier in
      if current == 0
      then ok (record s { tiers = set_tier s.tiers 0 (move_to_front el.list_elem (s.tiers 0)) })
      else if ltb (length (s.tiers (current - 1))) s.tier_list_size
      then ok (finish_promote s current oi)
      else swap_down s current oi

  -- PromoteObject
  unfoldable pub promote_object : TieredLruCache O H → O → Outcome (TieredLruCache O H)
  promote_object s oi = elim (s.lookup (hash oi)) [
    | none ↦ (add_object s oi).0
    | some el ↦ promote_found s oi el
  ]
