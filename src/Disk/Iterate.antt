-- ===== src/Disk/Iterate.antt =====
-- Iterate, storage/disk/impl.go: the objects on the disk, each handed to a callback.
use nedomi.Prelude.{ℕ, Bool, true, false, Option, none, some, List, [], ◌∷◌, ◌++◌, if◌then◌else◌}
use nedomi.Ranges.Strings.{Text}
use nedomi.Disk.Files.{DirPath, Fs}
use nedomi.Disk.{Disk, ObjectId, get_object_metadata, get_available_parts}

-- What filepath.Glob and ioutil.ReadDir return, the decoder of the metadata with its ID, and the
-- callback on its state `S`, false to stop.
pub record Walk (B M S : Type 0) : Type 0 where
  pub glob : Fs B → Option (List DirPath)
  pub read_dir : Fs B → DirPath → Option (List Text)
  pub decode : List B → Option M
  pub id_of : M → ObjectId
  pub callback : S → M → List ℕ → S × Bool

-- Where the walk stands: the file system, the callback's state, and whether it goes on; `ended` is a
-- return, true with an error.
pub data Walked (B S : Type 0) : Type 0 where
  going : Fs B → S → Walked B S
  ended : Fs B → S → Bool → Walked B S

module _ {B M S : Type 0} (s : Disk) (w : Walk B M S) where
  -- One object's directory.
  unfoldable pub visit : Fs B → S → DirPath → Walked B S
  visit fs st d =
      let (fs1, metadata) = get_object_metadata s w.decode w.id_of fs d in
      elim metadata [
        | none ↦ going fs1 st
        | some m ↦
            let (fs2, parts) = get_available_parts s fs1 (w.id_of m) in
            elim parts [
              | none ↦ going fs2 st
              | some l ↦
                  let (st', goes_on) = w.callback st m l in
                  if goes_on then going fs2 st' else ended fs2 st' false
            ]
      ]

  -- The objects' directories below a root.
  unfoldable pub visit_all : List Text → DirPath → Walked B S → Walked B S
  visit_all names root (ended fs st err) = ended fs st err
  visit_all [] root (going fs st) = going fs st
  visit_all (name ∷ names) root (going fs st) =
      visit_all names root (visit fs st (root ++ name ∷ []))

  unfoldable pub visit_roots : List DirPath → Walked B S → Walked B S
  visit_roots roots (ended fs st err) = ended fs st err
  visit_roots [] (going fs st) = going fs st
  visit_roots (root ∷ roots) (going fs st) = visit_roots roots (elim (w.read_dir fs root) [
    | none ↦ ended fs st true
    | some names ↦ visit_all names root (going fs st)
  ])

  -- Iterate; the last part of the result is whether it returns an error.
  unfoldable pub iterate : Fs B → S → Fs B × S × Bool
  iterate fs st = elim (w.glob fs) [
    | none ↦ (fs, st, true)
    | some roots ↦ elim (visit_roots roots (going fs st)) [
      | going fs' st' ↦ (fs', st', false)
      | ended fs' st' err ↦ (fs', st', err)
    ]
  ]
