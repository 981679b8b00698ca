-- ===== src/ContainerList.antt =====
-- The lists of Go's standard package container/list, as far as the cache uses them. An element has
-- an address of its own, which stands for the pointer `*list.Element`.
pub mod Laws
pub mod Front
use nedomi.Prelude.{ℕ, Option, none, some, List, [], ◌∷◌, ◌==◌, if◌then◌else◌}

pub record Node {ℓ} (O : Type ℓ) : Type ℓ where
  pub addr : ℕ
  pub value : O

module _ {ℓ} {O : Type ℓ} where
  -- l.Front(); `none` is nil
  unfoldable pub front : List (Node O) → Option (Node O)
  front [] = none
  front (n ∷ l) = some n

  -- l.Back()
  unfoldable pub back : List (Node O) → Option (Node O)
  back [] = none
  back (n ∷ []) = some n
  back (n ∷ m ∷ l) = back (m ∷ l)

  -- l.Remove(e), at the address of `e`: nothing happens if `e` is of another list
  unfoldable pub remove : ℕ → List (Node O) → List (Node O)
  remove a [] = []
  remove a (n ∷ l) = let rest = remove a l in if n.addr == a then rest else n ∷ rest

  find : ℕ → List (Node O) → Option (Node O)
  find a [] = none
  find a (n ∷ l) = if n.addr == a then some n else find a l

  -- l.MoveToFront(e)
  unfoldable pub move_to_front : ℕ → List (Node O) → List (Node O)
  unfolding find
  move_to_front a l = elim (find a l) [ none ↦ l | some n ↦ n ∷ remove a l ]
