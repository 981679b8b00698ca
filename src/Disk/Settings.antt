-- ===== src/Disk/Settings.antt =====
-- New and the settings that it leaves on the disk, storage/disk/impl.go and utils.go.
use nedomi.Prelude.{
  ℕ, Bool, true, false, Option, none, some, List, [], ◌∷◌, ◌++◌, ◌==◌, if◌then◌else◌, length, drop,
  take,
}
use nedomi.Ranges.Strings.{Text}
use nedomi.Disk.Files.{DirPath, Fs, find, put, next_fault, close, dir_exists}
use nedomi.ByteSize.{marshal, bytes_size_from_string}
use nedomi.Disk.{Disk}

-- The settings of a CacheZone that the storage uses.
pub record CacheZone : Type 0 where
  pub part_size : ℕ
  pub path : DirPath
  pub skip_cache_key_in_path : Bool

-- The settings as encoding/json sees them: the size of a part is the text of its MarshalJSON.
pub record Settings : Type 0 where
  pub part_size : Text
  pub path : DirPath
  pub skip_cache_key_in_path : Bool

-- encoding/json. The decoder reads the first value of the file.
pub record Json (B : Type 0) : Type 0 where
  pub encode : Settings → List B
  pub decode : List B → Option Settings

unfoldable pub marshal_settings : CacheZone → Settings
marshal_settings zone = record {
  part_size = marshal zone.part_size;
  path = zone.path;
  skip_cache_key_in_path = zone.skip_cache_key_in_path;
}

-- The settings that are read back; `none` is an error of the decoder or of UnmarshalJSON.
unfoldable pub unmarshal_settings : Settings → Option CacheZone
unmarshal_settings settings = elim (bytes_size_from_string settings.part_size) [
  | none ↦ none
  | some n ↦ some (record {
    part_size = n;
    path = settings.path;
    skip_cache_key_in_path = settings.skip_cache_key_in_path;
  })
]

-- `.nedomi-cache-storage`
abbrev pub disk_settings_file_name : Text
disk_settings_file_name =
    46 ∷ 110 ∷ 101 ∷ 100 ∷ 111 ∷ 109 ∷ 105 ∷ 45 ∷ 99 ∷ 97 ∷ 99 ∷ 104 ∷ 101 ∷ 45 ∷ 115 ∷ 116 ∷ 111
    ∷ 114 ∷ 97 ∷ 103 ∷ 101 ∷ []

-- The bytes of a file after a write at its start, without O_TRUNC.
abbrev pub overwritten : {B : Type 0} → List B → Option (List B) → List B
overwritten new none = new
overwritten new (some old) = new ++ drop (length new) old

-- The storage of a configuration.
abbrev pub disk_of : CacheZone → Disk
disk_of zone = record {
  part_size = zone.part_size;
  path = zone.path;
  skip_cache_key_in_path = zone.skip_cache_key_in_path;
}

module _ {B : Type 0} (json : Json B) where
  -- The bytes of Encode, and the result of Decode.
  unfoldable pub encode_settings : CacheZone → List B
  unfolding marshal_settings
  encode_settings zone = json.encode (marshal_settings zone)

  unfoldable pub decode_settings : List B → Option CacheZone
  unfolding unmarshal_settings
  decode_settings content = elim (json.decode content) [
    | none ↦ none
    | some settings ↦ unmarshal_settings settings
  ]

  -- checkPreviousDiskSettings; whether it returns no error.
  unfoldable pub check_previous_disk_settings : Fs B → DirPath → CacheZone → Fs B × Bool
  check_previous_disk_settings fs path zone =
      let (fs1, opening) = next_fault fs in
      elim opening [
        | some k ↦ (fs1, false)
        | none ↦ elim (find path disk_settings_file_name fs1.files) [
          | none ↦ (fs1, true)
          | some content ↦ elim (decode_settings content) [
            | none ↦ ((close fs1).0, false)
            | some old ↦
                let (fs2, closed) = close fs1 in
                if closed then (fs2, old.part_size == zone.part_size) else (fs2, false)
          ]
        ]
      ]

  -- The second half of saveSettingsOnDisk.
  unfoldable pub write_settings : Fs B → DirPath → CacheZone → Fs B × Bool
  write_settings fs path zone =
      let (fs1, opening) = next_fault fs in
      elim opening [
        | some k ↦ (fs1, false)
        | none ↦
            let (fs2, writing) = next_fault fs1 in
            let old = find path disk_settings_file_name fs2.files in
            elim writing [
              | some k ↦
                  let content = overwritten (take k (encode_settings zone)) old in
                  let fs3 = record fs2 {
                    files = put path disk_settings_file_name content fs2.files;
                  } in
                  ((close fs3).0, false)
              | none ↦
                  let content = overwritten (encode_settings zone) old in
                  close (record fs2 { files = put path disk_settings_file_name content fs2.files })
            ]
      ]

  -- saveSettingsOnDisk
  unfoldable pub save_settings_on_disk : Fs B → DirPath → CacheZone → Fs B × Bool
  save_settings_on_disk fs path zone =
      let (fs1, checked) = check_previous_disk_settings fs path zone in
      if checked then write_settings fs1 path zone else (fs1, false)

  -- New, for a configuration and a logger that are not nil; `none` is an error.
  unfoldable pub new : Fs B → CacheZone → Fs B × Option Disk
  new fs zone =
      if zone.part_size == 0
      then (fs, none)
      else (let (fs1, stat) = next_fault fs in
          elim stat [
            | some k ↦ (fs1, none)
            | none ↦
                if dir_exists zone.path fs1.dirs
                then (let (fs2, saved) = save_settings_on_disk fs1 zone.path zone in
                    (fs2, if saved then some (disk_of zone) else none))
                else (fs1, none)
          ])
