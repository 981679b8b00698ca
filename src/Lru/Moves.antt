-- ===== src/Lru/Moves.antt =====
-- Moves of objects between tiers: what they keep, and the lengths of the tiers after them.
use nedomi.Prelude.{
  ℕ, ◌+◌, ◌<◌, ◌≡◌, refl, ap, sym, ◌∙◌, ◌≢◌, Bool, true, false, Option, none, some, [], ◌∷◌, arith,
  length, ◌==◌, if◌then◌else◌, ite, if_pos, if_neg, length-append,
}
use nedomi.ContainerList.{remove}
use nedomi.ContainerList.Laws.{length-remove}
use nedomi.Lru.{
  Element, TieredLruCache, cache_tiers, set_tier, update, unlink, place_front, place_back,
}
use nedomi.Lru.Valid.{IsValid}
use nedomi.Lru.Place.{move_front-IsValid, move_back-IsValid}

-- Whether the map has an entry: what Lookup answers.
abbrev pub is_some {ℓ} : {A : Type ℓ} → Option A → Bool
is_some none = false
is_some (some _) = true

abbrev pub is_cached {ℓ} : {O H : Type ℓ} → TieredLruCache O H → H → Bool
is_cached s h = is_some (s.lookup h)

pub is_some-update {ℓ} :
    {H : Type ℓ} {V : Type 0} (dec : Discrete H) (m : H → Option V) (k : H) (w : Option V) (h : H)
    → is_some (update dec m k w h) ≡ ite (dec h k) (is_some w) (is_some (m h))
is_some-update dec m k w h = elim (dec h k) [
  | yes p ↦
      ap is_some (if_pos (dec h k) p w (m h)) ∙ sym (if_pos (dec h k) p (is_some w) (is_some (m h)))
  | no p ↦
      ap is_some (if_neg (dec h k) p w (m h)) ∙ sym (if_neg (dec h k) p (is_some w) (is_some (m h)))
]

abbrev pub size_of {ℓ} : {O H : Type ℓ} → TieredLruCache O H → ℕ → ℕ
size_of s t = length (s.tiers t)

-- 1 at the tier `i`, 0 at any other
pub at : ℕ → ℕ → ℕ
at i j = if i == j then 1 else 0

pub at_self : (i : ℕ) → at i i ≡ 1
unfolding at
at_self i = ground arith

pub at_ne : (i j : ℕ) → i ≢ j → at i j ≡ 0
unfolding at
at_ne i j h = ground arith

module _ {O H : Type 0} (dec : Discrete H) (hash : O → H) where
  -- A step that keeps the invariant and the objects of the cache.
  pub record Moves (s s' : TieredLruCache O H) : Type 0 where
    pub valid : IsValid dec hash s'
    pub same : (h : H) → is_cached s' h ≡ is_cached s h
    pub size : s'.tier_list_size ≡ s.tier_list_size
    pub removals : s'.removals ≡ s.removals
    pub cfg : s'.cfg ≡ s.cfg
    pub removers : s'.removers ≡ s.removers

  pub Moves-refl : {s : TieredLruCache O H} → IsValid dec hash s → Moves s s
  Moves-refl v = record {
    valid = v;
    same = λ _. refl;
    size = refl;
    removals = refl;
    cfg = refl;
    removers = refl;
  }

  pub Moves-trans : {s t u : TieredLruCache O H} → Moves s t → Moves t u → Moves s u
  Moves-trans m n = record {
    valid = n.valid;
    same = λ h. n.same h ∙ m.same h;
    size = n.size ∙ m.size;
    removals = n.removals ∙ m.removals;
    cfg = n.cfg ∙ m.cfg;
    removers = n.removers ∙ m.removers;
  }

  -- An entry that is written anew was there before.
  same-update :
      (m : H → Option Element) (k h : H) (el new : Element)
      → m k ≡ some el
      → is_some (update dec m k (some new) h) ≡ is_some (m h)
  same-update m k h el new e = elim (dec h k) [
    | yes p ↦ ap is_some (if_pos (dec h k) p (some new) (m h)) ∙ sym (ap is_some (ap m p ∙ e))
    | no p ↦ ap is_some (if_neg (dec h k) p (some new) (m h))
  ]

  module _ (s : TieredLruCache O H) (v : IsValid dec hash s) (t a i : ℕ) (o : O)
      (e : s.lookup (hash o) ≡ some (record { list_elem = a; list_tier = t }))
      (room : i < cache_tiers) where
    pub move_front-Moves : Moves s (place_front dec hash (unlink dec hash s t a) i o)
    unfolding place_front unlink
    move_front-Moves = record {
      valid = move_front-IsValid dec hash s v t a i o e room;
      same = λ h. same-update s.lookup (hash o) h _ _ e;
      size = refl;
      removals = refl;
      cfg = refl;
      removers = refl;
    }

    pub move_back-Moves : Moves s (place_back dec hash (unlink dec hash s t a) i o)
    unfolding place_back unlink
    move_back-Moves = record {
      valid = move_back-IsValid dec hash s v t a i o e room;
      same = λ h. same-update s.lookup (hash o) h _ _ e;
      size = refl;
      removals = refl;
      cfg = refl;
      removers = refl;
    }

    removed : length (remove a (s.tiers t)) + 1 ≡ size_of s t
    removed = length-remove hash a (hash o) (s.tiers t) (v.distinct t) (v.located (hash o) _ e).0

    -- One element leaves tier `t`, and one comes to tier `i`.
    pub move_front-sizes :
        (j : ℕ)
        → size_of (place_front dec hash (unlink dec hash s t a) i o) j + at t j
          ≡ size_of s j + at i j
    unfolding place_front unlink at
    move_front-sizes j = ground (arith, removed)

    pub move_back-sizes :
        (j : ℕ)
        → size_of (place_back dec hash (unlink dec hash s t a) i o) j + at t j
          ≡ size_of s j + at i j
    unfolding place_back unlink at
    move_back-sizes j = ground (
      arith,
      removed,
      length-append (set_tier s.tiers t (remove a (s.tiers t)) i)
          (record { addr = s.next_addr; value = o } ∷ []),
    )
