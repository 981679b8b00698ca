-- ===== src/Disk/Files.antt =====
-- A file system as package os shows it: files in directories, and calls that fail when the list of
-- faults says so. A call that fails changes nothing, but for a write, which may leave a part behind.
use nedomi.Prelude.{
  ℕ, zero, suc, Bool, true, false, Option, none, some, List, [], ◌∷◌, if◌then◌else◌, ◌&&◌, length,
  get_or, take, drop, not,
}
use nedomi.Ranges.Strings.{Text}
use nedomi.Respond.{Stream}
use nedomi.Disk.Names.{text_eq}

-- The segments of a path.
abbrev pub DirPath : Type 0
DirPath = List Text

unfoldable pub path_eq : DirPath → DirPath → Bool
path_eq [] [] = true
path_eq [] (d ∷ u) = false
path_eq (c ∷ t) [] = false
path_eq (c ∷ t) (d ∷ u) = text_eq c d && path_eq t u

-- A file, its directory's path and its name.
pub record File (B : Type 0) : Type 0 where
  pub dir : DirPath
  pub name : Text
  pub content : List B

-- The directories that exist, the files, and for each of the next calls whether it fails: `some k`
-- is a failure, at a write after `k` bytes. Calls past the list do not fail.
pub record Fs (B : Type 0) : Type 0 where
  pub dirs : List DirPath
  pub files : List (File B)
  pub faults : List (Option ℕ)

-- Whether a directory exists.
unfoldable pub dir_exists : DirPath → List DirPath → Bool
dir_exists d [] = false
dir_exists d (e ∷ l) = let rest = dir_exists d l in if path_eq d e then true else rest

-- The paths but for one.
unfoldable pub without : DirPath → List DirPath → List DirPath
without d [] = []
without d (e ∷ l) = let rest = without d l in if path_eq d e then rest else e ∷ rest

module _ {B : Type 0} where
  -- Whether a file stands at that place.
  unfoldable pub is_at : DirPath → Text → File B → Bool
  is_at d n f = path_eq d f.dir && text_eq n f.name

  -- The content of the file at a place.
  unfoldable pub find : DirPath → Text → List (File B) → Option (List B)
  find d n [] = none
  find d n (f ∷ l) = let rest = find d n l in if is_at d n f then some f.content else rest

  unfoldable pub erase : DirPath → Text → List (File B) → List (File B)
  erase d n [] = []
  erase d n (f ∷ l) = let rest = erase d n l in if is_at d n f then rest else f ∷ rest

  unfoldable pub put : DirPath → Text → List B → List (File B) → List (File B)
  put d n c l = record { dir = d; name = n; content = c } ∷ erase d n l

  -- The next call's failure, taken off the list.
  unfoldable pub next_fault : Fs B → Fs B × Option ℕ
  next_fault fs = (record fs { faults = drop 1 fs.faults }, get_or fs.faults 0 none)

  -- os.MkdirAll and os.OpenFile with O_CREATE and O_EXCL, of createFile; whether they succeed.
  unfoldable pub create_file : Fs B → DirPath → Text → Fs B × Bool
  create_file fs d n =
      let (fs', mkdir) = next_fault fs in
      elim mkdir [
        | some k ↦ (fs', false)
        | none ↦
            let fs'' = record fs' { dirs = d ∷ fs'.dirs } in
            let (fs3, opening) = next_fault fs'' in
            elim opening [
              | some k ↦ (fs3, false)
              | none ↦ elim (find d n fs3.files) [
                | some c ↦ (fs3, false)
                | none ↦ (record fs3 { files = put d n [] fs3.files }, true)
              ]
            ]
      ]

  -- io.Copy from a stream to the file; the count of bytes, and whether there was no error.
  unfoldable pub write : Fs B → DirPath → Text → Stream B → Fs B × ℕ × Bool
  write fs d n s =
      let (fs', fault) = next_fault fs in
      elim fault [
        | some k ↦ (
          record fs' { files = put d n (take k s.content) fs'.files },
          length (take k s.content),
          false,
        )
        | none ↦ (record fs' { files = put d n s.content fs'.files }, length s.content, not s.fails)
      ]

  -- Close of a file.
  unfoldable pub close : Fs B → Fs B × Bool
  close fs = let (fs', fault) = next_fault fs in (fs', elim fault [ none ↦ true | some k ↦ false ])

  -- os.Remove of a file.
  unfoldable pub remove : Fs B → DirPath → Text → Fs B × Bool
  remove fs d n =
      let (fs', fault) = next_fault fs in
      elim fault [
        | some k ↦ (fs', false)
        | none ↦ elim (find d n fs'.files) [
          | none ↦ (fs', false)
          | some c ↦ (record fs' { files = erase d n fs'.files }, true)
        ]
      ]

  -- os.Rename of a file inside its directory.
  unfoldable pub rename : Fs B → DirPath → Text → Text → Fs B × Bool
  rename fs d old new =
      let (fs', fault) = next_fault fs in
      elim fault [
        | some k ↦ (fs', false)
        | none ↦ elim (find d old fs'.files) [
          | none ↦ (fs', false)
          | some c ↦ (record fs' { files = put d new c (erase d old fs'.files) }, true)
        ]
      ]

  -- The files after os.Rename of a directory.
  unfoldable pub move : DirPath → DirPath → List (File B) → List (File B)
  move old new [] = []
  move old new (f ∷ l) =
      let rest = move old new l in (if path_eq old f.dir then record f { dir = new } else f) ∷ rest

  -- os.Rename of a directory that holds files only.
  unfoldable pub rename_dir : Fs B → DirPath → DirPath → Fs B × Bool
  rename_dir fs old new =
      let (fs', fault) = next_fault fs in
      elim fault [
        | some k ↦ (fs', false)
        | none ↦
            if dir_exists old fs'.dirs
            then (
              record fs' { dirs = new ∷ without old fs'.dirs; files = move old new fs'.files },
              true,
            )
            else (fs', false)
      ]

  -- The names of the files in a directory.
  unfoldable pub names_of : DirPath → List (File B) → List Text
  names_of d [] = []
  names_of d (f ∷ l) = let rest = names_of d l in if path_eq d f.dir then f.name ∷ rest else rest

  -- The files without those of a directory, and without the first `k` of them.
  unfoldable pub all_gone : DirPath → List (File B) → List (File B)
  all_gone d [] = []
  all_gone d (f ∷ l) = let rest = all_gone d l in if path_eq d f.dir then rest else f ∷ rest

  unfoldable pub some_gone : ℕ → DirPath → List (File B) → List (File B)
  some_gone zero d l = l
  some_gone (suc k) d [] = []
  some_gone (suc k) d (f ∷ l) =
      let removed = some_gone k d l in
      let kept = some_gone (suc k) d l in if path_eq d f.dir then removed else f ∷ kept

  -- os.RemoveAll of a directory that holds files only; a failure may leave some of them.
  unfoldable pub remove_all : Fs B → DirPath → Fs B × Bool
  remove_all fs d =
      let (fs', fault) = next_fault fs in
      elim fault [
        | some k ↦ (record fs' { files = some_gone k d fs'.files }, false)
        | none ↦ (record fs' { files = all_gone d fs'.files; dirs = without d fs'.dirs }, true)
      ]
