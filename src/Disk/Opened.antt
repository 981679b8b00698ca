-- ===== src/Disk/Opened.antt =====
-- A storage that New has made is opened again, storage/disk/impl.go.
use nedomi.Prelude.{
  append-nil, ◌≡◌, refl, ap, sym, ◌∙◌, Bool, true, false, Option, none, some, List, [], ◌++◌, ◌==◌,
  if◌then◌else◌, length, drop, get_or, arith, Bool-cases, inl, inr, Option-cases, ltb, ◌<◌, ◌^◌,
  ◌&&◌,
}
use nedomi.Disk.Files.{DirPath, Fs, find, next_fault, close, dir_exists}
use nedomi.Disk.Laws.{find-put_same}
use nedomi.ByteSize.{marshal, bytes_size_from_string, bytes_size_from_string-marshal}
use nedomi.Disk.{Disk}
use nedomi.Disk.Settings.{
  CacheZone, Json, Settings, marshal_settings, unmarshal_settings, encode_settings, decode_settings,
  disk_settings_file_name, overwritten, disk_of, check_previous_disk_settings, write_settings,
  save_settings_on_disk, new,
}

overwritten_lem :
    {B : Type 0} (new : List B) (o : Option (List B))
    → (rest : List B) × (overwritten new o ≡ new ++ rest)
overwritten_lem new none = ([], sym (append-nil new))
overwritten_lem new (some old) = (drop (length new) old, refl)

module _ {B : Type 0} (json : Json B) where
  -- What stays of the file system, and what a save without an error leaves.
  record IsLeft (fs : Fs B) (zone : CacheZone) (path : DirPath) (r : Fs B × Bool) : Type 0 where
    dirs : r.0.dirs ≡ fs.dirs
    left :
        r.1 ≡ true
        → (rest : List B) × (find path disk_settings_file_name r.0.files
            ≡ some (encode_settings json zone ++ rest))

  check-dirs :
      (fs : Fs B) (path : DirPath) (zone : CacheZone)
      → (check_previous_disk_settings json fs path zone).0.dirs ≡ fs.dirs
  unfolding check_previous_disk_settings next_fault close
  check-dirs fs path zone = elim (Option-cases (get_or fs.faults 0 none)) [
    | inr (k, p) ↦ rw (p, check_previous_disk_settings) refl
    | inl p ↦ elim (Option-cases (find path disk_settings_file_name fs.files)) [
      | inl q ↦ rw (p, q, check_previous_disk_settings) refl
      | inr (c, q) ↦ elim (Option-cases (decode_settings json c)) [
        | inl r ↦ rw (p, q, r, check_previous_disk_settings) refl
        | inr (old, r) ↦ elim (Bool-cases (close (next_fault fs).0).1) [
          | inl t ↦ rw (p, q, r, t, check_previous_disk_settings) refl
          | inr t ↦ rw (p, q, r, t, check_previous_disk_settings) refl
        ]
      ]
    ]
  ]

  unsaved :
      {fs fs' : Fs B} {zone : CacheZone} {path : DirPath}
      → fs'.dirs ≡ fs.dirs
      → IsLeft fs zone path (fs', false)
  unsaved e = record { dirs = e; left = λ h. absurd (cc h) }

  save-IsLeft :
      (fs : Fs B) (path : DirPath) (zone : CacheZone)
      → IsLeft fs zone path (save_settings_on_disk json fs path zone)
  unfolding save_settings_on_disk write_settings next_fault close
  save-IsLeft fs path zone =
      let c = check_previous_disk_settings json fs path zone in
      elim (Bool-cases c.1) [
        | inr p ↦ rw p (unsaved (check-dirs fs path zone))
        | inl p ↦ elim (Option-cases (get_or c.0.faults 0 none)) [
          | inr (k, q) ↦ rw (p, q, write_settings) (unsaved (check-dirs fs path zone))
          | inl q ↦ elim (Option-cases (get_or (drop 1 c.0.faults) 0 none)) [
            | inr (k, r) ↦ rw (p, q, r, write_settings) (unsaved (check-dirs fs path zone))
            | inl r ↦
                let o =
                  overwritten_lem (encode_settings json zone)
                    (find path disk_settings_file_name c.0.files) in
                rw (p, q, r, write_settings)
                  (record {
                    dirs = check-dirs fs path zone;
                    left = λ h.
                        (o.0, find-put_same path disk_settings_file_name _ c.0.files ∙ ap some o.1);
                  })
          ]
        ]
      ]

  -- What New without an error leaves.
  record IsOpen (zone : CacheZone) (fs : Fs B) : Type 0 where
    sized : (zone.part_size == 0) ≡ false
    there : dir_exists zone.path fs.dirs ≡ true
    rest : List B
    found :
        find zone.path disk_settings_file_name fs.files ≡ some (encode_settings json zone ++ rest)

  new-IsOpen :
      (fs : Fs B) (zone : CacheZone) (disk : Disk)
      → (new json fs zone).1 ≡ some disk
      → IsOpen zone (new json fs zone).0
  unfolding new next_fault
  new-IsOpen fs zone disk = elim (Bool-cases (zone.part_size == 0)) [
    | inl z ↦ rw z (λ h. absurd (cc h))
    | inr z ↦ elim (Option-cases (get_or fs.faults 0 none)) [
      | inr (k, p) ↦ rw (z, p, new) (λ h. absurd (cc h))
      | inl p ↦ elim (Bool-cases (dir_exists zone.path fs.dirs)) [
        | inr t ↦ rw (z, p, new, t) (λ h. absurd (cc h))
        | inl t ↦
            let fs1 = (next_fault fs).0 in
            let s = save_settings_on_disk json fs1 zone.path zone in
            let l = save-IsLeft fs1 zone.path zone in
            elim (Bool-cases s.1) [
              | inr u ↦ rw (z, p, new, t, u) (λ h. absurd (cc h))
              | inl u ↦
                  rw (z, p, new, t, u)
                    (λ h. record {
                      sized = z;
                      there = ap (dir_exists zone.path) l.dirs ∙ t;
                      rest = (l.left u).0;
                      found = (l.left u).1;
                    })
            ]
      ]
    ]
  ]

  -- A file system without faults, with its fields written out.
  abbrev faultless : Fs B → Fs B
  faultless fs = record { dirs = fs.dirs; files = fs.files; faults = [] }

  -- What the decoder relies on: from what the encoder wrote at the start of a file it reads settings
  -- with the same text for the size of a part.
  unfoldable pub IsReading : Type 0
  IsReading =
      (zone : CacheZone) (rest : List B)
      → (settings : Settings) × (json.decode (json.encode (marshal_settings zone) ++ rest)
          ≡ some settings)
        × (settings.part_size ≡ marshal zone.part_size)

  -- A size below 2^63 is read back.
  decode_settings-some :
      (zone : CacheZone) (rest : List B)
      → IsReading
      → zone.part_size < 2 ^ 64
      → ltb zone.part_size (2 ^ 63) ≡ true
      → (old : CacheZone) × (decode_settings json (encode_settings json zone ++ rest) ≡ some old)
        × (old.part_size ≡ zone.part_size)
  unfolding IsReading decode_settings encode_settings unmarshal_settings
  decode_settings-some zone rest reads small t =
      let (settings, e, text) = reads zone rest in
      let size : bytes_size_from_string settings.part_size ≡ some zone.part_size =
        ap bytes_size_from_string text
        ∙ bytes_size_from_string-marshal zone.part_size small
        ∙ rw t refl in
      (
        record {
          part_size = zone.part_size;
          path = settings.path;
          skip_cache_key_in_path = settings.skip_cache_key_in_path;
        },
        rw (e, decode_settings, unmarshal_settings, size) refl,
        refl,
      )

  -- A greater one is an error.
  decode_settings-none :
      (zone : CacheZone) (rest : List B)
      → IsReading
      → zone.part_size < 2 ^ 64
      → ltb zone.part_size (2 ^ 63) ≡ false
      → decode_settings json (encode_settings json zone ++ rest) ≡ none
  unfolding IsReading decode_settings encode_settings unmarshal_settings
  decode_settings-none zone rest reads small t =
      let (settings, e, text) = reads zone rest in
      let size : bytes_size_from_string settings.part_size ≡ none =
        ap bytes_size_from_string text
        ∙ bytes_size_from_string-marshal zone.part_size small
        ∙ rw t refl in
      rw (e, decode_settings, unmarshal_settings, size) refl

  -- The check and the save after it, on settings that are there.
  module _ (reads : IsReading) (fs : Fs B) (zone later : CacheZone) (o : IsOpen zone fs)
      (small : zone.part_size < 2 ^ 64) where
    -- Whether the settings are those of a later zone.
    abbrev matches : Bool
    matches = ltb zone.part_size (2 ^ 63) && (zone.part_size == later.part_size)

    check-again :
        check_previous_disk_settings json (faultless fs) zone.path later ≡ (faultless fs, matches)
    unfolding check_previous_disk_settings next_fault close
    check-again = elim (Bool-cases (ltb zone.part_size (2 ^ 63))) [
      | inr t ↦
          rw
            (
              o.found,
              check_previous_disk_settings,
              decode_settings-none zone o.rest reads small t,
              t,
            )
            refl
      | inl t ↦
          let (old, e, same) = decode_settings-some zone o.rest reads small t in
          rw (o.found, check_previous_disk_settings, e, t)
            (ap (λ n. (faultless fs, n == later.part_size)) same)
    ]

    save-again : (save_settings_on_disk json (faultless fs) zone.path later).1 ≡ matches
    unfolding save_settings_on_disk write_settings next_fault close
    save-again =
        rw check-again (elim (Bool-cases matches) [ inl t ↦ rw t refl | inr t ↦ rw t refl ])

    new-again :
        later.path ≡ zone.path
        → (new json (faultless fs) later).1 ≡ (if matches then some (disk_of later) else none)
    unfolding new next_fault
    new-again path = elim (Bool-cases (later.part_size == 0)) [
      | inl z ↦ let differs : matches ≡ false = ground (arith, o.sized, z) in rw (z, differs) refl
      | inr z ↦
          let there : dir_exists later.path fs.dirs ≡ true =
            ap (λ d. dir_exists d fs.dirs) path ∙ o.there in
          let saved : (save_settings_on_disk json (faultless fs) later.path later).1 ≡ matches =
            ap (λ d. (save_settings_on_disk json (faultless fs) d later).1) path ∙ save-again in
          rw (z, there, saved) refl
    ]

-- Once New has returned a storage, where later calls do not fail and the decoder reads back the text
-- of a size of a part: New for the same path returns a storage again exactly when the size of a part
-- is the same and below 2 ^ 63, and an error otherwise.
pub new-new :
    {B : Type 0} (json : Json B)
    → IsReading json
    → (fs : Fs B) (zone later : CacheZone) (disk : Disk) → (new json fs zone).1 ≡ some disk
    → zone.part_size < 2 ^ 64
    → (new json fs zone).0.faults ≡ []
    → later.path ≡ zone.path
    → (new json (new json fs zone).0 later).1 ≡ (
        if ltb zone.part_size (2 ^ 63) && (zone.part_size == later.part_size)
        then some (disk_of later)
        else none)
new-new json reads fs zone later disk made small clean path =
    let fs' = (new json fs zone).0 in
    let same : faultless json fs' ≡ fs' = ap (λ l. record fs' { faults = l }) (sym clean) in
    ap (λ f. (new json f later).1) (sym same)
    ∙ new-again json reads fs' zone later (new-IsOpen json fs zone disk made) small path
