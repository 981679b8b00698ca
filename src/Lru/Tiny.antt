-- ===== src/Lru/Tiny.antt =====
-- A cache zone of fewer objects than there are tiers. The configuration is not checked for that.
use nedomi.Prelude.{◌/◌, ◌<◌, ◌≡◌, refl, none, some, arith, ok, panic}
use nedomi.ContainerList.{back}
use nedomi.Lru.{
  CacheZone, TieredLruCache, cache_tiers, last, new, link, place_front, make_room,
  free_space_in_last_list, add_new, add_object, promote_object, promote_found, swap_down,
  finish_promote,
}
use nedomi.Lru.Valid.{update_self}

module _ {O H : Type 0} (dec : Discrete H) (hash : O → H) (cz : CacheZone)
    (tiny : cz.storage_objects < cache_tiers) (o : O) where
  abbrev empty : TieredLruCache O H
  empty = new cz

  abbrev one : TieredLruCache O H
  one = place_front dec hash empty last o

  no_size : cz.storage_objects / cache_tiers ≡ 0
  no_size = omega arith

  added : add_object dec hash empty o ≡ (ok one, none)
  unfolding add_object add_new make_room free_space_in_last_list new
  added = rw no_size refl

  entry : one.lookup (hash o) ≡ some (record { list_elem = 0; list_tier = last })
  unfolding place_front new
  entry = update_self dec (λ _. none) (hash o) _

  panics :
      promote_found dec hash one o (record { list_elem = 0; list_tier = last })
      ≡ panic (finish_promote dec hash one last o)
  unfolding promote_found swap_down place_front link new back
  panics = rw no_size refl

  -- In a new cache for a zone of fewer than four objects, AddObject stores any object without an
  -- error, and PromoteObject of that object panics then.
  pub promote_object-tiny :
      (s s' : TieredLruCache O H) × (add_object dec hash (new cz) o ≡ (ok s, none))
      × (promote_object dec hash s o ≡ panic s')
  unfolding promote_object
  promote_object-tiny =
      (one, finish_promote dec hash one last o, added, rw (entry, promote_object) panics)
