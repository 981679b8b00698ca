-- ===== src/Lru/Tests.antt =====
-- Runs of the cache on concrete objects: the objects are numbers, and a number is its own hash.
use nedomi.Prelude.{
  ◌^◌, ℕ, ◌++◌, ite, if◌then◌else◌, zero, suc, ◌≡◌, ◌<◌, ◌≤◌, refl, ap, sym, true, false, none,
  some, List, [], ◌∷◌, arith, ok, panic, Outcome, subst, ℕ_discrete,
}
use nedomi.ContainerList.{Node, back, front, remove}
use nedomi.Lru.{
  CacheZone, Element, TieredLruCache, cache_tiers, last, new, link, place_front, place_back, unlink,
  move_up, move_all_up, free_list, evict, free_space_in_last_list, make_room, add_new, add_object,
  remove_objects, promote_object,
}
use nedomi.Lru.Resize.{change_config, check_tiers, remove_if_missing}
use nedomi.Lru.Room.{IsSound}
use nedomi.Lru.Valid.{IsValid}
use nedomi.Lru.Run.{
  Call, look_up_of, add_of, promote, remove_all, configure, step, run, AllInRange, Returns, IsSafe,
  new-IsSafe, run-IsSafe, run-new,
}
use nedomi.Lru.Moves.{is_cached, size_of}
use nedomi.Lru.Add.{IsNewest, add_object-room, add_object-full}
use nedomi.Lru.Swap.{Promoted, promote_object-Promoted}
use nedomi.Lru.ChangeConfig.{Changed, change_config-smaller, change_config-larger}
use nedomi.Lru.Bulk.{finished, panicked, slices, concat, twice, slices-concat}
use nedomi.Lru.Remove.{is_among, missing, remove_objects_cached, remove_if_missing_lem}
use nedomi.Lru.Tiny.{promote_object-tiny}

abbrev zone : CacheZone
zone = record {
  path = "zone";
  storage_objects = 8;
  part_size = 16;
  bulk_remove_count = 2;
  bulk_remove_timeout = 0;
}

abbrev hash : ℕ → ℕ
hash n = n

abbrev of_run : Outcome (TieredLruCache ℕ ℕ) → TieredLruCache ℕ ℕ
of_run (ok s) = s
of_run (panic s) = s

abbrev after : List (Call ℕ) → TieredLruCache ℕ ℕ
after cs = of_run (run ℕ_discrete hash (new zone) cs)

abbrev adds : List (Call ℕ)
adds = add_of 1 ∷ add_of 2 ∷ add_of 3 ∷ add_of 4 ∷ add_of 5 ∷ add_of 6 ∷ add_of 7 ∷ add_of 8 ∷ []

abbrev full : TieredLruCache ℕ ℕ
full = after adds

after-IsSafe : (cs : List (Call ℕ)) → AllInRange cs → IsSafe ℕ_discrete hash (after cs)
unfolding Returns
after-IsSafe cs p =
    let (s', e, v) =
      run-IsSafe ℕ_discrete hash cs (new zone)
        (new-IsSafe ℕ_discrete hash zone (omega arith) (omega arith)) p in
    subst (IsSafe ℕ_discrete hash) (sym (ap of_run e)) v

full-full : (t : ℕ) → t < cache_tiers → full.tier_list_size ≤ size_of full t
unfolding run step new add_object add_new make_room free_space_in_last_list free_list evict
    move_all_up move_up unlink place_back place_front link front back remove ℕ_discrete
full-full zero b = omega arith
full-full (suc zero) b = omega arith
full-full (suc (suc zero)) b = omega arith
full-full (suc (suc (suc zero))) b = omega arith
full-full (suc (suc (suc (suc t)))) b = absurd (omega arith)

full-IsSafe : IsSafe ℕ_discrete hash full
full-IsSafe = after-IsSafe adds (tt, (tt, (tt, (tt, (tt, (tt, (tt, (tt, tt))))))))

full_new : is_cached full 9 ≡ false
unfolding run step new add_object add_new make_room free_space_in_last_list free_list evict
    move_all_up move_up unlink place_back place_front link front back remove ℕ_discrete
full_new = refl

abbrev entry_of_7 : Element
entry_of_7 = record { list_elem = 16; list_tier = 2 }

full_7 : full.lookup 7 ≡ some entry_of_7
unfolding run step new add_object add_new make_room free_space_in_last_list free_list evict
    move_all_up move_up unlink place_back place_front link front back remove ℕ_discrete
full_7 = refl

abbrev one_added : TieredLruCache ℕ ℕ
one_added = after (add_of 1 ∷ [])

half_free : size_of one_added 0 < one_added.tier_list_size
unfolding run step new add_object add_new make_room free_space_in_last_list free_list evict
    move_all_up move_up unlink place_back place_front link front back remove ℕ_discrete
half_free = omega arith

abbrev calls : List (Call ℕ)
calls =
    adds ++ look_up_of 7 ∷ promote 7 ∷ remove_all (1 ∷ 5 ∷ []) ∷ configure 0 1 4 ∷ promote 2 ∷ []

run-new_example :
    (s' : TieredLruCache ℕ ℕ) × (run ℕ_discrete hash (new zone) calls ≡ ok s')
    × IsValid ℕ_discrete hash s'
    × ((t : ℕ) → size_of s' t ≤ s'.tier_list_size)
    × (check_tiers s' cache_tiers ≡ true)
run-new_example = run-new ℕ_discrete hash zone calls (omega arith) (omega arith) (
  tt,
  (
    tt,
    (tt, (tt, (tt, (tt, (tt, (tt, (tt, (tt, (tt, ((omega arith, omega arith), (tt, tt))))))))))),
  ),
)

add_object-full_example :
    (n : Node ℕ) × (s' : TieredLruCache ℕ ℕ) × (back (full.tiers last) ≡ some n)
    × (add_object ℕ_discrete hash full 9 ≡ (ok s', none))
    × IsSound ℕ_discrete hash s'
    × (s'.tier_list_size ≡ full.tier_list_size)
    × IsNewest ℕ_discrete hash s' 9
    × (s'.removals ≡ full.removals ++ n.value ∷ [])
    × ((h : ℕ)
        → is_cached s' h
          ≡ ite (ℕ_discrete h 9) true (ite (ℕ_discrete h n.value) false (is_cached full h)))
add_object-full_example =
    add_object-full ℕ_discrete hash full full-IsSafe.sound 9 full_new full-full

one_added_new : is_cached one_added 9 ≡ false
unfolding run step new add_object add_new make_room place_front link ℕ_discrete
one_added_new = refl

add_object-room_example :
    (s' : TieredLruCache ℕ ℕ) × (add_object ℕ_discrete hash one_added 9 ≡ (ok s', none))
    × IsSound ℕ_discrete hash s'
    × (s'.tier_list_size ≡ one_added.tier_list_size)
    × IsNewest ℕ_discrete hash s' 9
    × (s'.removals ≡ one_added.removals)
    × ((h : ℕ) → is_cached s' h ≡ ite (ℕ_discrete h 9) true (is_cached one_added h))
add_object-room_example =
    add_object-room ℕ_discrete hash one_added (after-IsSafe (add_of 1 ∷ []) (tt, tt)).sound 9
      one_added_new 0 (omega arith) half_free

promote_object-Promoted_example :
    (s' : TieredLruCache ℕ ℕ) × (promote_object ℕ_discrete hash full 7 ≡ ok s')
    × Promoted ℕ_discrete hash full s' 2 7
promote_object-Promoted_example =
    promote_object-Promoted ℕ_discrete hash full full-IsSafe.sound 7 entry_of_7 full_7

full_size : full.tier_list_size ≡ 2
unfolding run step new add_object add_new make_room free_space_in_last_list free_list evict
    move_all_up move_up unlink place_back place_front link front back remove ℕ_discrete
full_size = refl

change_config-smaller_example :
    (s' : TieredLruCache ℕ ℕ) × (removed : List ℕ) × (change_config ℕ_discrete hash full 0 1 4
      ≡ ok s')
    × Changed ℕ_discrete hash full s' 4 removed
    × (s'.removers ≡ full.removers ++ removed ∷ [])
change_config-smaller_example =
    change_config-smaller ℕ_discrete hash full full-IsSafe.sound 0 1 4 (omega arith) (omega arith)
      (omega (arith, full_size)) (omega (arith, full_size))

change_config-larger_example :
    (s' : TieredLruCache ℕ ℕ) × (change_config ℕ_discrete hash full 0 1 16 ≡ ok s')
    × Changed ℕ_discrete hash full s' 16 []
    × (s'.removers ≡ full.removers)
change_config-larger_example =
    change_config-larger ℕ_discrete hash full full-IsSafe.sound 0 1 16 (omega arith) (omega arith)
      (omega (arith, full_size))

remove_objects_cached_example :
    IsSound ℕ_discrete hash (remove_objects ℕ_discrete hash full (7 ∷ 9 ∷ []))
    × ((h : ℕ)
        → is_cached (remove_objects ℕ_discrete hash full (7 ∷ 9 ∷ [])) h
          ≡ (if is_among ℕ_discrete hash h (7 ∷ 9 ∷ []) then false else is_cached full h))
    × ((remove_objects ℕ_discrete hash full (7 ∷ 9 ∷ [])).removals ≡ full.removals)
    × ((remove_objects ℕ_discrete hash full (7 ∷ 9 ∷ [])).tier_list_size ≡ full.tier_list_size)
remove_objects_cached_example =
    remove_objects_cached ℕ_discrete hash (7 ∷ 9 ∷ []) full full-IsSafe.sound

remove_if_missing_lem_example :
    remove_if_missing ℕ_discrete hash full (7 ∷ 9 ∷ [])
    ≡ record full { removals = full.removals ++ missing ℕ_discrete hash full.lookup (7 ∷ 9 ∷ []) }
remove_if_missing_lem_example = remove_if_missing_lem ℕ_discrete hash (7 ∷ 9 ∷ []) full

abbrev tiny : CacheZone
tiny = record zone { storage_objects = 3 }

promote_object-tiny_example :
    (s s' : TieredLruCache ℕ ℕ) × (add_object ℕ_discrete hash (new tiny) 5 ≡ (ok s, none))
    × (promote_object ℕ_discrete hash s 5 ≡ panic s')
promote_object-tiny_example = promote_object-tiny ℕ_discrete hash tiny (omega arith) 5

-- Slices of two, one and two objects.
slices-concat_example :
    (concat {A = ℕ} (slices (twice (2 ∷ 1 ∷ 2 ∷ [])) 0 (1 ∷ 2 ∷ 3 ∷ [])).0 ≡ 1 ∷ 2 ∷ 3 ∷ [])
    × ((slices {O = ℕ} (twice (2 ∷ 1 ∷ 2 ∷ [])) 0 (1 ∷ 2 ∷ 3 ∷ [])).1 ≡ finished)
slices-concat_example =
    slices-concat (2 ∷ 1 ∷ 2 ∷ []) (1 ∷ 2 ∷ 3 ∷ [])
      ((omega arith, omega arith), ((omega arith, omega arith), ((omega arith, omega arith), tt)))
      (omega arith)

-- A count that is negative as an int panics.
negative : (slices {O = ℕ} ((2 ^ 63, 1) ∷ []) 0 (1 ∷ [])).1 ≡ panicked
unfolding slices
negative = refl
