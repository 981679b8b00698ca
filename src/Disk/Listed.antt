-- ===== src/Disk/Listed.antt =====
-- GetAvailableParts lists the parts that have a file.
use nedomi.Prelude.{
  ℕ, ◌^◌, ◌<◌, ◌≡◌, refl, ap, sym, ◌∙◌, Bool, true, false, Option, none, some, List, [], ◌∷◌, ◌||◌,
  arith, Bool-cases, inl, inr, Option-cases, get_or, drop, ◌==◌,
}
use nedomi.Ranges.Strings.{Text, parse_uint, parse_digits}
use nedomi.Disk.Names.{
  atoi, signed, text_eq, text_eq_sound, text_eq_refl, get_part_filename, get_part_number_from_file,
  get_part_number_from_file_iff,
}
use nedomi.Disk.Files.{DirPath, File, Fs, path_eq, find, next_fault, is_at, names_of, dir_exists}
use nedomi.Disk.{
  Disk, ObjectId, get_object_id_path, object_metadata_file_name, parts_among, get_available_parts,
}

-- Whether a number is in a list.
abbrev pub contains : ℕ → List ℕ → Bool
contains p [] = false
contains p (q ∷ l) = (p == q) || contains p l

abbrev pub is_some : {A : Type 0} → Option A → Bool
is_some none = false
is_some (some a) = true

object_metadata_file_name_lem : get_part_number_from_file object_metadata_file_name ≡ none
unfolding get_part_number_from_file atoi signed parse_uint parse_digits
object_metadata_file_name_lem = refl

-- The metadata's file is no part's.
file_of_part :
    (p : ℕ) (name : Text)
    → p < 2 ^ 32
    → get_part_number_from_file name ≡ some p
    → text_eq name object_metadata_file_name ≡ false
file_of_part p name lt h = elim (Bool-cases (text_eq name object_metadata_file_name)) [
  | inr t ↦ t
  | inl t ↦
      let e : name ≡ object_metadata_file_name = text_eq_sound name object_metadata_file_name t in
      absurd (cc (ap get_part_number_from_file e, object_metadata_file_name_lem, h))
]

parts_among-contains :
    (p : ℕ) (name : Text) (names : List Text)
    → p < 2 ^ 32
    → contains p (parts_among (name ∷ names))
      ≡ (text_eq (get_part_filename p) name || contains p (parts_among names))
unfolding parts_among
parts_among-contains p name names lt =
    let file = get_part_number_from_file_iff name p lt in
    elim (Bool-cases (text_eq (get_part_filename p) name)) [
      | inl t ↦
          let number = file.1 (sym (text_eq_sound (get_part_filename p) name t)) in
          let self : (p == p) ≡ true = ground arith in
          rw (t, file_of_part p name lt number, number, self, parts_among) refl
      | inr t ↦ elim (Bool-cases (text_eq name object_metadata_file_name)) [
        | inl u ↦ rw (t, u) refl
        | inr u ↦ elim (Option-cases (get_part_number_from_file name)) [
          | inl v ↦ rw (t, u, v, parts_among) refl
          | inr (q, v) ↦
              let ne : (p == q) ≡ false = elim (Bool-cases (p == q)) [
                | inr w ↦ w
                | inl w ↦
                    let e : q ≡ p = ground arith in
                    let name_eq : name ≡ get_part_filename p = file.0 (v ∙ ap some e) in
                    absurd (
                      cc (
                        t,
                        ap (text_eq (get_part_filename p)) name_eq,
                        text_eq_refl (get_part_filename p),
                      ))
              ] in
              rw (t, u, v, ne, parts_among) refl
        ]
      ]
    ]

parts_among-nil : parts_among [] ≡ []
unfolding parts_among
parts_among-nil = refl

names_of-find :
    {B : Type 0} (p : ℕ) (d : DirPath) (l : List (File B))
    → p < 2 ^ 32
    → contains p (parts_among (names_of d l)) ≡ is_some (find d (get_part_filename p) l)
unfolding names_of find is_at
names_of-find p d [] lt = ap (contains p) parts_among-nil
names_of-find p d (f ∷ l) lt = elim (Bool-cases (path_eq d f.dir)) [
  | inr t ↦ rw t (names_of-find p d l lt)
  | inl t ↦
      rw (t, parts_among-contains p f.name (names_of d l) lt)
        (elim (Bool-cases (text_eq (get_part_filename p) f.name)) [
          | inl u ↦ rw u refl
          | inr u ↦ rw u (names_of-find p d l lt)
        ])
]

-- Without faults, for a directory that exists, GetAvailableParts lists a number exactly when the
-- object has a file of that part.
pub get_available_parts-find :
    {B : Type 0} (s : Disk) (fs : Fs B) (id : ObjectId) (p : ℕ)
    → fs.faults ≡ []
    → dir_exists (get_object_id_path s id) fs.dirs ≡ true
    → p < 2 ^ 32
    → (l : List ℕ) × ((get_available_parts s fs id).1 ≡ some l)
      × (contains p l ≡ is_some (find (get_object_id_path s id) (get_part_filename p) fs.files))
unfolding get_available_parts next_fault
get_available_parts-find s fs id p clean there lt =
    let a : get_or fs.faults 0 none ≡ none = ap (λ l. get_or l 0 none) clean in
    let b : get_or (drop 1 fs.faults) 0 none ≡ none = ap (λ l. get_or (drop 1 l) 0 none) clean in
    (
      parts_among (names_of (get_object_id_path s id) fs.files),
      rw (a, there, b, get_available_parts) refl,
      names_of-find p (get_object_id_path s id) fs.files lt,
    )
