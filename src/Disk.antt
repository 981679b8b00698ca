-- ===== src/Disk.antt =====
-- The storage on disk, storage/disk: impl.go and utils.go, over a file system whose calls may fail.
pub mod Names
pub mod Files
pub mod Laws
pub mod Atomic
pub mod Saved
pub mod Listed
pub mod Discarded
pub mod Settings
pub mod Opened
pub mod Iterate
pub mod Sizes
mod Tests
use nedomi.Prelude.{
  ℕ, zero, suc, ◌+◌, ◌-◌, ◌*◌, ◌/◌, ◌%◌, ◌^◌, Bool, true, false, Option, none, some, List, [], ◌∷◌,
  ◌++◌, ltb, leb, ◌==◌, if◌then◌else◌, ◌&&◌, length, take, drop,
}
use nedomi.Ranges.Strings.{Text}
use nedomi.Respond.{Stream}
use nedomi.Disk.Names.{text_eq, get_part_filename, get_part_number_from_file}
use nedomi.Disk.Files.{
  next_fault, dir_exists, DirPath, Fs, path_eq, find, create_file, write, close, remove, rename,
  rename_dir, remove_all, names_of,
}

-- Disk, without the logger and the permissions.
pub record Disk : Type 0 where
  pub part_size : ℕ
  pub path : DirPath
  pub skip_cache_key_in_path : Bool

-- An ObjectID: its cache key and the hexadecimal digits of its hash.
pub record ObjectId : Type 0 where
  pub cache_key : Text
  pub str_hash : Text

-- `objID`
abbrev pub object_metadata_file_name : Text
object_metadata_file_name = 111 ∷ 98 ∷ 106 ∷ 73 ∷ 68 ∷ []

-- getObjectIDPath
unfoldable pub get_object_id_path : Disk → ObjectId → DirPath
get_object_id_path s id =
    let h = id.str_hash in
    let levels = take 2 h ∷ take 2 (drop 2 h) ∷ h ∷ [] in
    if s.skip_cache_key_in_path then s.path ++ levels else s.path ++ id.cache_key ∷ levels

-- filepath.Base
unfoldable pub base : DirPath → Text
base [] = []
base (t ∷ []) = t
base (t ∷ u ∷ l) = base (u ∷ l)

-- getPartSize
unfoldable pub get_part_size : Disk → ℕ → ℕ → ℕ
get_part_size s part_num object_size =
    let whole_parts = object_size / s.part_size % 2 ^ 32 in
    let remainder = object_size % s.part_size in
    if ltb whole_parts part_num
    then 0
    else if part_num == whole_parts
    then remainder
    else s.part_size

-- The numbers of the parts among the names of a directory.
unfoldable pub parts_among : List Text → List ℕ
parts_among [] = []
parts_among (name ∷ names) =
    let rest = parts_among names in
    if text_eq name object_metadata_file_name
    then rest
    else (elim (get_part_number_from_file name) [ none ↦ rest | some part ↦ part ∷ rest ])

module _ {B : Type 0} (s : Disk) where
  -- SavePart, with the temporary name that appendRandomSuffix makes.
  unfoldable pub save_part : Fs B → ObjectId → ℕ → Text → Stream B → Fs B × Bool
  save_part fs id part suffix reader =
      let d = get_object_id_path s id in
      let name = get_part_filename part in
      let tmp = name ++ 95 ∷ suffix in
      let (fs1, created) = create_file fs d tmp in
      if created
      then (let (fs2, saved_size, copied) = write fs1 d tmp reader in
          if copied
          then (if ltb s.part_size saved_size
              then (let (fs3, closed) = close fs2 in ((remove fs3 d tmp).0, false))
              else (let (fs3, closed) = close fs2 in
                  if closed then rename fs3 d tmp name else (fs3, false)))
          else (let (fs3, closed) = close fs2 in ((remove fs3 d tmp).0, false)))
      else (fs1, false)

  -- SaveMetadata, for the bytes that the encoder writes; the error of the encoder is that of `write`.
  unfoldable pub save_metadata : Fs B → ObjectId → Text → List B → Fs B × Bool
  save_metadata fs id suffix encoded =
      let d = get_object_id_path s id in
      let name = object_metadata_file_name in
      let tmp = name ++ 95 ∷ suffix in
      let (fs1, created) = create_file fs d tmp in
      if created
      then (let (fs2, size, copied) =
            write fs1 d tmp (record { content = encoded; fails = false; seek_fails = false }) in
          let (fs3, closed) = close fs2 in
          if copied then (if closed then rename fs3 d tmp name else (fs3, false)) else (fs3, false))
      else (fs1, false)

  -- GetPart: the content, or none for os.ErrNotExist and for other errors.
  unfoldable pub get_part : Fs B → ObjectId → ℕ → Fs B × Option (List B)
  get_part fs id part =
      let (fs', fault) = next_fault fs in
      (
        fs',
        elim fault [
          | some k ↦ none
          | none ↦ find (get_object_id_path s id) (get_part_filename part) fs'.files
        ],
      )

  -- GetAvailableParts; `none` is an error of Open or Readdirnames.
  unfoldable pub get_available_parts : Fs B → ObjectId → Fs B × Option (List ℕ)
  get_available_parts fs id =
      let d = get_object_id_path s id in
      let (fs1, opening) = next_fault fs in
      elim opening [
        | some k ↦ (fs1, none)
        | none ↦
            if dir_exists d fs1.dirs
            then (let (fs2, reading) = next_fault fs1 in
                elim reading [
                  | some k ↦ (fs2, none)
                  | none ↦ (fs2, some (parts_among (names_of d fs2.files)))
                ])
            else (fs1, none)
      ]

  -- Discard, with the temporary path of the directory.
  unfoldable pub discard : Fs B → ObjectId → DirPath → Fs B × Bool
  discard fs id tmp =
      let (fs1, renamed) = rename_dir fs (get_object_id_path s id) tmp in
      if renamed then remove_all fs1 tmp else (fs1, false)

  -- DiscardPart
  unfoldable pub discard_part : Fs B → ObjectId → ℕ → Fs B × Bool
  discard_part fs id part = remove fs (get_object_id_path s id) (get_part_filename part)

  -- getObjectMetadata of the file in a directory, with the JSON decoder and the ID of the metadata.
  unfoldable pub get_object_metadata :
      {M : Type 0} → (List B → Option M) → (M → ObjectId) → Fs B → DirPath → Fs B × Option M
  get_object_metadata decode id_of fs d =
      let (fs1, opening) = next_fault fs in
      elim opening [
        | some k ↦ (fs1, none)
        | none ↦ elim (find d object_metadata_file_name fs1.files) [
          | none ↦ (fs1, none)
          | some content ↦ elim (decode content) [
            | none ↦ ((close fs1).0, none)
            | some m ↦
                let (fs2, closed) = close fs1 in
                (fs2, if text_eq (base d) (id_of m).str_hash && closed then some m else none)
          ]
        ]
      ]

  -- GetMetadata
  unfoldable pub get_metadata :
      {M : Type 0} → (List B → Option M) → (M → ObjectId) → Fs B → ObjectId → Fs B × Option M
  get_metadata decode id_of fs id = get_object_metadata decode id_of fs (get_object_id_path s id)
