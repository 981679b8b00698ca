-- ===== src/Lru/Smaller.antt =====
-- ChangeConfig to a smaller size: what leaves the cache.
use nedomi.Prelude.{
  ℕ, ◌≤◌, ◌≡◌, refl, ap, sym, ◌∙◌, ◌≢◌, inl, inr, Bool, true, false, Option, List, [], ◌∷◌, ◌++◌,
  arith, Bool-cases, length, if◌then◌else◌, ◌||◌, ltb, min, ok,
}
use nedomi.ContainerList.{Node}
use nedomi.Lru.{TieredLruCache, Element, cache_tiers, last}
use nedomi.Lru.Resize.{total_below, resize_down, forget_all, move_all_down, trim_last, shrink}
use nedomi.Lru.Valid.{IsValid}
use nedomi.Lru.Moves.{Moves, is_some, is_cached, size_of}
use nedomi.Lru.Remove.{is_among}
use nedomi.Lru.Shrink.{IsValid-Interim, is_among-append, or-true}
use nedomi.Lru.Forget.{Lowered, resize_down-Lowered, forget_all_lem, forget_all-IsValid}
use nedomi.Lru.Lower.{AllDown, move_all_down-AllDown}
use nedomi.Lru.Trim.{Removes, forget_all-Removes, trim_last-Trimmed}

module _ {O H : Type 0} (dec : Discrete H) (hash : O → H) where
  either :
      (a b c : Bool) → (if b then false else if a then false else c) ≡ (if a || b then false else c)
  either true true c = refl
  either true false c = refl
  either false true c = refl
  either false false c = refl

  -- Two steps that take objects out, with moves in between.
  Removes-trans :
      (s t u w : TieredLruCache O H) (xs ys : List O)
      → Removes dec hash s t xs
      → Moves dec hash t u
      → Removes dec hash u w ys
      → Removes dec hash s w (xs ++ ys)
  Removes-trans s t u w xs ys r m q = record {
    gone = λ h.
        q.gone h
        ∙ ap (λ (b : Bool). if is_among dec hash h ys then false else b) (m.same h ∙ r.gone h)
        ∙ either (is_among dec hash h xs) (is_among dec hash h ys) (is_cached s h)
        ∙ ap (λ (b : Bool). if b then false else is_cached s h)
            (sym (is_among-append dec hash h xs ys));
    known = λ h e. elim (or-true dec hash _ _ (sym (is_among-append dec hash h xs ys) ∙ e)) [
      | inl p ↦ r.known h p
      | inr p ↦
          was_cached (is_among dec hash h xs) _ (sym (r.gone h) ∙ sym (m.same h) ∙ q.known h p)
    ];
  }
    where
      was_cached : (a b : Bool) → (if a then false else b) ≡ true → b ≡ true
      was_cached true b e = cc
      was_cached false b e = e

  -- No object is in a tier beyond the last.
  beyond_empty :
      (s : TieredLruCache O H) (t : ℕ) → IsValid dec hash s → cache_tiers ≤ t → size_of s t ≡ 0
  beyond_empty s t v b = go (s.tiers t) refl
    where
      go : (l : List (Node O)) → s.tiers t ≡ l → length l ≡ 0
      go [] e = refl
      go (n ∷ l) e =
          let (_, r) = v.located (hash n.value) _ (rw e at (v.listed t)).0 in absurd (omega arith)

  -- What a change to a smaller size does: every tier fits, and what leaves the cache is handed to
  -- one new goroutine.
  pub record Shrunk (s s' : TieredLruCache O H) (size : ℕ) (removed : List O) : Type 0 where
    pub valid : IsValid dec hash s'
    pub fits : (t : ℕ) → size_of s' t ≤ size
    pub removes : Removes dec hash s s' removed
    pub removers : s'.removers ≡ s.removers ++ removed ∷ []
    pub removals : s'.removals ≡ s.removals
    pub cfg : s'.cfg ≡ s.cfg

  module _ (s : TieredLruCache O H) (v : IsValid dec hash s) (k size : ℕ)
      (enough : k ≤ total_below s cache_tiers) where
    abbrev oids : List O
    oids = (resize_down cache_tiers s k).0

    abbrev lowered : TieredLruCache O H
    lowered = (resize_down cache_tiers s k).1

    down : Lowered dec hash s [] oids lowered × (length oids ≡ min k (total_below s cache_tiers))
    down = resize_down-Lowered dec hash cache_tiers s k [] (IsValid-Interim dec hash s v)

    abbrev forgotten : TieredLruCache O H
    forgotten = forget_all dec hash lowered oids

    all_down : AllDown dec hash forgotten (move_all_down dec hash last size forgotten 0) 0 last size
    all_down =
        move_all_down-AllDown dec hash last size forgotten 0
          (forget_all-IsValid dec hash lowered oids down.0.interim) (omega arith)

    shrink_lem :
        shrink dec hash k size s
        ≡ ok (trim_last dec hash size oids (move_all_down dec hash last size forgotten 0))
    unfolding shrink
    shrink_lem = let full : ltb (length oids) k ≡ false = ground (arith, down.1) in rw full refl

    other_tier :
        (t : ℕ) → t ≢ last → size_of (move_all_down dec hash last size forgotten 0) t ≤ size
    other_tier t ne = elim (Bool-cases (ltb t last)) [
      | inl below ↦ all_down.fit t (omega arith) (ground arith)
      | inr above ↦ omega (arith, beyond_empty _ t all_down.moves.valid (ground arith))
    ]

    first-Removes : Removes dec hash s forgotten oids
    first-Removes =
        let r = forget_all-Removes dec hash lowered oids down.0.interim in
        let same : (h : H) → is_cached lowered h ≡ is_cached s h =
          λ h. ap (λ (m : H → Option Element). is_some (m h)) down.0.lookup in
        record {
          gone = λ h.
              r.gone h ∙ ap (λ (b : Bool). if is_among dec hash h oids then false else b) (same h);
          known = λ h e. sym (same h) ∙ r.known h e;
        }

    pub shrink-Shrunk :
        (s' : TieredLruCache O H) × (removed : List O) × (shrink dec hash k size s ≡ ok s')
        × Shrunk s s' size removed
    shrink-Shrunk =
        let u = move_all_down dec hash last size forgotten 0 in
        let (additional, t) =
          trim_last-Trimmed dec hash size oids u all_down.moves.valid λ t ne. other_tier t ne in
        (
          trim_last dec hash size oids u,
          oids ++ additional,
          shrink_lem,
          record {
            valid = t.valid;
            fits = t.fits;
            removes =
                Removes-trans s forgotten u _ oids additional first-Removes all_down.moves
                  t.removes;
            removers =
                t.removers
                ∙ ap (λ (r : List (List O)). r ++ (oids ++ additional) ∷ [])
                    (all_down.moves.removers
                      ∙ ap (λ (w : TieredLruCache O H). w.removers)
                          (forget_all_lem dec hash oids lowered)
                      ∙ down.0.removers);
            removals =
                t.removals
                ∙ all_down.moves.removals
                ∙ ap (λ (w : TieredLruCache O H). w.removals) (forget_all_lem dec hash oids lowered)
                ∙ down.0.removals;
            cfg =
                t.cfg
                ∙ all_down.moves.cfg
                ∙ ap (λ (w : TieredLruCache O H). w.cfg) (forget_all_lem dec hash oids lowered)
                ∙ down.0.cfg;
          },
        )
