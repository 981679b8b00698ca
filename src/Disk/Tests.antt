-- ===== src/Disk/Tests.antt =====
-- The storage on a small disk.
use nedomi.Prelude.{
  ◌^◌, ltb, ℕ, ◌≡◌, ◌⊎◌, refl, true, false, Option, none, some, List, [], ◌∷◌, ◌&&◌, ◌-◌, ◌*◌,
  arith, if◌then◌else◌, ◌==◌, min,
}
use nedomi.Ranges.Strings.{Text}
use nedomi.Ranges.Decimal.{digits, decimal, decimal_six}
use nedomi.Respond.{Stream}
use nedomi.Disk.Names.{text_eq, get_part_filename}
use nedomi.Disk.Files.{DirPath, Fs, find, is_at, path_eq, dir_exists, close, next_fault}
use nedomi.Disk.{
  Disk, ObjectId, get_object_id_path, get_part_size, save_part, get_part, get_available_parts,
  discard,
}
use nedomi.Disk.Atomic.{temporary, IsSaved, save_part-IsSaved}
use nedomi.Disk.Saved.{get_part-save_part_fits}
use nedomi.Disk.Listed.{contains, is_some, get_available_parts-find}
use nedomi.Disk.Discarded.{discard-find}
use nedomi.Disk.Sizes.{get_part_size-min}
use nedomi.Disk.Opened.{IsReading, new-new}
use nedomi.Disk.Settings.{
  CacheZone, Json, Settings, marshal_settings, disk_of, new, save_settings_on_disk, write_settings,
  check_previous_disk_settings,
}

abbrev disk : Disk
disk = record { part_size = 3; path = (99 ∷ []) ∷ []; skip_cache_key_in_path = true }

abbrev object : ObjectId
object = record { cache_key = 107 ∷ []; str_hash = 97 ∷ 98 ∷ 99 ∷ 100 ∷ [] }

-- `c/ab/cd/abcd`
abbrev object_path : DirPath
object_path = (99 ∷ []) ∷ (97 ∷ 98 ∷ []) ∷ (99 ∷ 100 ∷ []) ∷ (97 ∷ 98 ∷ 99 ∷ 100 ∷ []) ∷ []

abbrev empty : Fs ℕ
empty = record { dirs = disk.path ∷ object_path ∷ []; files = []; faults = [] }

-- The third call fails, a write after one byte.
abbrev faulty : Fs ℕ
faulty = record { dirs = []; files = []; faults = none ∷ none ∷ some 1 ∷ [] }

abbrev reader : Stream ℕ
reader = record { content = 7 ∷ 8 ∷ []; fails = false; seek_fails = false }

elsewhere :
    (path_eq object_path (get_object_id_path disk object) && text_eq [] (temporary 1 [])) ≡ false
unfolding path_eq text_eq get_object_id_path get_part_filename decimal_six decimal digits
elsewhere = refl

save_part-IsSaved_example :
    IsSaved disk faulty object 1 [] reader object_path [] (save_part disk faulty object 1 [] reader)
save_part-IsSaved_example =
    save_part-IsSaved disk faulty object 1 [] reader object_path [] elsewhere

-- A save next to another file.
abbrev stocked : Fs ℕ
stocked = record empty { files = record { dir = object_path; name = 48 ∷ []; content = [] } ∷ [] }

fresh_name : find (get_object_id_path disk object) (temporary 1 []) stocked.files ≡ none
unfolding path_eq text_eq get_object_id_path get_part_filename decimal_six decimal digits find is_at
fresh_name = refl

get_part-save_part_fits_example :
    ((save_part disk stocked object 1 [] reader).1 ≡ true)
    × ((get_part disk (save_part disk stocked object 1 [] reader).0 object 1).1 ≡ some (7 ∷ 8 ∷ []))
get_part-save_part_fits_example =
    get_part-save_part_fits disk stocked object 1 [] reader refl fresh_name refl (omega arith)

there : dir_exists (get_object_id_path disk object) stocked.dirs ≡ true
unfolding path_eq text_eq get_object_id_path dir_exists
there = refl

get_available_parts-find_example :
    (l : List ℕ) × ((get_available_parts disk stocked object).1 ≡ some l)
    × (contains 7 l
        ≡ is_some (find (get_object_id_path disk object) (get_part_filename 7) stocked.files))
get_available_parts-find_example =
    get_available_parts-find disk stocked object 7 refl there (omega arith)

moved_away : path_eq (get_object_id_path disk object) ((120 ∷ []) ∷ []) ≡ false
unfolding path_eq text_eq get_object_id_path
moved_away = refl

discard-find_example :
    (((discard disk stocked object ((120 ∷ []) ∷ [])).1 ≡ false)
      × ((discard disk stocked object ((120 ∷ []) ∷ [])).0.files ≡ stocked.files))
    ⊎ ((n : Text)
        → find
            (get_object_id_path disk object)
            n
            (discard disk stocked object ((120 ∷ []) ∷ [])).0.files
          ≡ none)
discard-find_example = discard-find disk stocked object ((120 ∷ []) ∷ []) moved_away

-- The last part of an object of seven bytes has one.
get_part_size-min_example : get_part_size disk 2 7 ≡ min 3 (7 - 2 * 3)
get_part_size-min_example = get_part_size-min disk 2 7 (omega arith) (omega arith)

-- Settings of one part size and one path, written as one number.
abbrev zone : CacheZone
zone = record { part_size = 3; path = disk.path; skip_cache_key_in_path = true }

abbrev larger : CacheZone
larger = record zone { part_size = 4 }

-- An encoding in one symbol.
abbrev read_first : List Settings → Option Settings
read_first [] = none
read_first (z ∷ l) = some z

abbrev json : Json Settings
json = record { encode = λ z. z ∷ []; decode = read_first }

abbrev bare : Fs Settings
bare = record { dirs = disk.path ∷ []; files = []; faults = [] }

json-IsReading : IsReading json
unfolding IsReading marshal_settings
json-IsReading z rest = (_, refl, refl)

made : (new json bare zone).1 ≡ some disk
unfolding new save_settings_on_disk write_settings check_previous_disk_settings dir_exists path_eq
    text_eq find is_at close next_fault
made = refl

no_faults : (new json bare zone).0.faults ≡ []
unfolding new save_settings_on_disk write_settings check_previous_disk_settings dir_exists path_eq
    text_eq find is_at close next_fault
no_faults = refl

new-new_example : (new json (new json bare zone).0 larger).1 ≡ (
    if ltb zone.part_size (2 ^ 63) && (zone.part_size == larger.part_size)
    then some (disk_of larger)
    else none)
new-new_example =
    new-new json json-IsReading bare zone larger disk made (omega arith) no_faults refl
