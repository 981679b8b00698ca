-- ===== src/MockStorage.antt =====
-- The storage in memory, mock/storage.go. An object is named by the hash of its id.
pub mod Laws
mod Tests
use nedomi.Prelude.{
  ℕ, Bool, true, false, Option, none, some, List, [], ◌∷◌, ◌++◌, ite, ◌==◌, if◌then◌else◌, map,
}

-- The parts of an object: the map from part numbers to contents, each number once.
abbrev pub Parts : Type 0 → Type 0
Parts B = List (ℕ × B)

pub record Storage (K M B : Type 0) : Type 0 where
  pub part_size : ℕ
  pub objects : K → Option M
  pub parts : K → Option (Parts B)

pub data StorageError : Type 0 where
  not_exist exist no_metadata : StorageError

abbrev pub find_part : {B : Type 0} → ℕ → Parts B → Option B
find_part i [] = none
find_part i ((j, b) ∷ ps) = let rest = find_part i ps in if j == i then some b else rest

unfoldable pub delete_part : {B : Type 0} → ℕ → Parts B → Parts B
delete_part i [] = []
delete_part i ((j, b) ∷ ps) = let rest = delete_part i ps in if j == i then rest else (j, b) ∷ rest

-- The parts of an entry of the map; an object without an entry has none.
abbrev pub entries : {B : Type 0} → Option (Parts B) → Parts B
entries none = []
entries (some ps) = ps

-- NewStorage
abbrev pub new_storage : {K M B : Type 0} → ℕ → Storage K M B
new_storage part_size = record { part_size = part_size; objects = λ _. none; parts = λ _. none }

module _ {K M B : Type 0} (dec : Discrete K) where
  -- GetMetadata, `none` being os.ErrNotExist; so it is for GetPart
  abbrev pub get_metadata : Storage K M B → K → Option M
  get_metadata s id = s.objects id

  -- GetPart
  unfoldable pub get_part : Storage K M B → K → ℕ → Option B
  get_part s id i = elim (s.parts id) [ none ↦ none | some ps ↦ find_part i ps ]

  -- GetAvailableParts: the numbers, and an error in every case
  unfoldable pub get_available_parts : Storage K M B → K → List ℕ × Option StorageError
  get_available_parts s id = (map (λ p. p.0) (entries (s.parts id)), some not_exist)

  -- SaveMetadata
  unfoldable pub save_metadata : Storage K M B → K → M → Storage K M B × Option StorageError
  save_metadata s id m = elim (s.objects id) [
    | some _ ↦ (s, some exist)
    | none ↦ (record s { objects = λ k. ite (dec k id) (some m) (s.objects k) }, none)
  ]

  -- SavePart, for contents that are read without an error. The entry of the object is made before
  -- the part is looked for.
  unfoldable pub save_part : Storage K M B → K → ℕ → B → Storage K M B × Option StorageError
  save_part s id i contents = elim (s.objects id) [
    | none ↦ (s, some no_metadata)
    | some _ ↦
        let ps = entries (s.parts id) in
        elim (find_part i ps) [
          | some _ ↦ (s, some exist)
          | none ↦ (
            record s { parts = λ k. ite (dec k id) (some ((i, contents) ∷ ps)) (s.parts k) },
            none,
          )
        ]
  ]

  -- Discard
  unfoldable pub discard : Storage K M B → K → Storage K M B × Option StorageError
  discard s id = elim (s.objects id) [
    | none ↦ (s, some not_exist)
    | some _ ↦ (
      record s {
        objects = λ k. ite (dec k id) none (s.objects k);
        parts = λ k. ite (dec k id) none (s.parts k);
      },
      none,
    )
  ]

  -- DiscardPart
  unfoldable pub discard_part : Storage K M B → K → ℕ → Storage K M B × Option StorageError
  unfolding delete_part
  discard_part s id i = elim (s.parts id) [
    | none ↦ (s, some not_exist)
    | some ps ↦
        (record s { parts = λ k. ite (dec k id) (some (delete_part i ps)) (s.parts k) }, none)
  ]
