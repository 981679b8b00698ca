-- ===== src/Lru/Bulk.antt =====
-- throttledRemove, cache/lru/lru.go: how the removed objects are cut into slices.
use nedomi.Prelude.{
  ℕ, zero, suc, ◌+◌, ◌-◌, ◌^◌, ◌<◌, ◌≤◌, ◌≡◌, refl, ap, sym, ◌∙◌, true, false, Option, none, some,
  List, [], ◌∷◌, ◌++◌, arith, length, map, take, drop, take-append-drop, drop-drop, length-drop,
  ltb, leb, ◌||◌, if◌then◌else◌, min, Bool-cases, inl, inr,
}
use nedomi.ContainerList.Laws.{All}

-- How the loop ends. A panic is recovered, and the rest of the objects is not handed over.
pub data Ending : Type 0 where
  finished panicked unfinished : Ending

-- `i += int(count)` on an int; `none` is an index below 0, for which the next slice panics.
unfoldable pub next_index : ℕ → ℕ → Option ℕ
next_index i count =
    if ltb count (2 ^ 63)
    then (if ltb (i + count) (2 ^ 63) then some (i + count) else none)
    else if leb (2 ^ 64) (i + count)
    then some (i + count - 2 ^ 64)
    else none

-- The loop of throttledRemove: the slices that it hands to removeIfMissing. Each round reads
-- BulkRemoveCount twice, once for the slice and once for the index; `unfinished` stands for a loop
-- that goes on after the readings. A slice whose end is before its start panics.
unfoldable pub slices {ℓ} : {O : Type ℓ} → List (ℕ × ℕ) → ℕ → List O → List (List O) × Ending
unfolding next_index
slices [] i l = ([], if ltb i (length l) then unfinished else finished)
slices {O = O} ((count, count') ∷ readings) i l =
    let later : List (List O) × Ending = elim (next_index i count') [
      | none ↦ ([], panicked)
      | some j ↦ slices readings j l
    ] in
    let slice = take (min (i + count) (length l) - i) (drop i l) in
    if ltb i (length l)
    then (if leb (2 ^ 63) count || leb (2 ^ 63) (i + count)
        then ([], panicked)
        else (slice ∷ later.0, later.1))
    else ([], finished)

abbrev pub concat {ℓ} : {A : Type ℓ} → List (List A) → List A
concat [] = []
concat (l ∷ ls) = l ++ concat ls

-- The readings of rounds in each of which the count does not change.
abbrev pub twice : List ℕ → List (ℕ × ℕ)
twice counts = map (λ c. (c, c)) counts

take-min {ℓ} : {A : Type ℓ} (c : ℕ) (l : List A) → take (min c (length l)) l ≡ take c l
take-min zero [] = refl
take-min (suc c) [] = let e : min (suc c) 0 ≡ 0 = omega arith in ap (λ n. take n []) e
take-min zero (x ∷ l) = let e : min 0 (suc (length l)) ≡ 0 = ground arith in rw e refl
take-min (suc c) (x ∷ l) =
    let e : min (suc c) (suc (length l)) ≡ suc (min c (length l)) = ground arith in
    ap (λ n. take n (x ∷ l)) e ∙ ap (◌∷◌ x) (take-min c l)

drop_beyond {ℓ} : {A : Type ℓ} (i : ℕ) (l : List A) → length l ≤ i → drop i l ≡ []
drop_beyond zero [] b = refl
drop_beyond (suc i) [] b = refl
drop_beyond zero (x ∷ l) b = absurd (omega arith)
drop_beyond (suc i) (x ∷ l) b = drop_beyond i l (omega arith)

-- A slice and what comes after it.
slice-append {ℓ} :
    {A : Type ℓ} (i c : ℕ) (l : List A)
    → i < length l
    → take (min (i + c) (length l) - i) (drop i l) ++ drop (i + c) l ≡ drop i l
slice-append i c l b =
    let m = drop i l in
    let e : min (i + c) (length l) - i ≡ min c (length m) = ground (arith, length-drop i l) in
    ap (λ n. take n m ++ drop (i + c) l) e
    ∙ ap (λ t. t ++ drop (i + c) l) (take-min c m)
    ∙ ap (λ r. take c m ++ r) (sym (drop-drop c i l))
    ∙ take-append-drop c m

slices-drop {ℓ} :
    {O : Type ℓ} (counts : List ℕ) (i : ℕ) (l : List O)
    → All (λ c. (0 < c) × (length l + c < 2 ^ 63)) counts
    → length l ≤ i + length counts
    → (concat (slices (twice counts) i l).0 ≡ drop i l) × ((slices (twice counts) i l).1 ≡ finished)
unfolding slices next_index
slices-drop [] i l a b =
    let done : ltb i (length l) ≡ false = ground arith in
    (sym (drop_beyond i l (omega arith)), rw done refl)
slices-drop (c ∷ counts) i l ((pos, small), a) b = elim (Bool-cases (ltb i (length l))) [
  | inr done ↦
      let beyond : length l ≤ i = ground arith in
      (rw done (sym (drop_beyond i l beyond)), rw done refl)
  | inl more ↦
      let here : i < length l = ground arith in
      let fits : (leb (2 ^ 63) c || leb (2 ^ 63) (i + c)) ≡ false = ground arith in
      let one : ltb c (2 ^ 63) ≡ true = ground arith in
      let two : ltb (i + c) (2 ^ 63) ≡ true = ground arith in
      let (rest, ending) = slices-drop counts (i + c) l a (omega arith) in
      (
        rw (more, fits, one, two)
            (ap (λ r. take (min (i + c) (length l) - i) (drop i l) ++ r) rest
              ∙ slice-append i c l here),
        rw (more, fits, one, two) ending,
      )
]

-- Where the two readings of each round are the same count, positive and so small that the index does
-- not overflow, and there are as many readings as objects at least: the loop ends without a panic, and
-- the slices put together are the objects, each once and in order.
pub slices-concat {ℓ} :
    {O : Type ℓ} (counts : List ℕ) (l : List O)
    → All (λ c. (0 < c) × (length l + c < 2 ^ 63)) counts
    → length l ≤ length counts
    → (concat (slices (twice counts) 0 l).0 ≡ l) × ((slices (twice counts) 0 l).1 ≡ finished)
slices-concat counts l a b = slices-drop counts 0 l a (omega arith)
