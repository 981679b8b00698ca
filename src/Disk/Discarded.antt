-- ===== src/Disk/Discarded.antt =====
-- Discard takes an object out of its place at once.
use nedomi.Prelude.{
  ℕ, zero, suc, ◌≡◌, ◌⊎◌, refl, ap, sym, ◌∙◌, true, false, none, List, [], ◌∷◌, ◌&&◌, Bool-cases,
  inl, inr, Option-cases, get_or,
}
use nedomi.Ranges.Strings.{Text}
use nedomi.Disk.Names.{text_eq}
use nedomi.Disk.Files.{
  DirPath, File, Fs, path_eq, find, is_at, move, all_gone, some_gone, next_fault, rename_dir,
  remove_all, dir_exists,
}
use nedomi.Disk.Laws.{path_eq_sound}
use nedomi.Disk.{Disk, ObjectId, get_object_id_path, discard}

module _ {B : Type 0} (d tmp : DirPath) (ne : path_eq d tmp ≡ false) where
  is_at_elsewhere : (n : Text) (f : File B) → path_eq d f.dir ≡ false → is_at d n f ≡ false
  unfolding is_at
  is_at_elsewhere n f h = ap (λ b. b && text_eq n f.name) h

  find-move_old : (n : Text) (l : List (File B)) → find d n (move d tmp l) ≡ none
  unfolding find move
  find-move_old n [] = refl
  find-move_old n (f ∷ l) = elim (Bool-cases (path_eq d f.dir)) [
    | inl t ↦ rw (t, is_at_elsewhere n (record f { dir = tmp }) ne) (find-move_old n l)
    | inr t ↦ rw (t, is_at_elsewhere n f t) (find-move_old n l)
  ]

  -- The files of a directory that is `tmp` stand in no other.
  elsewhere : (f : File B) → path_eq tmp f.dir ≡ true → path_eq d f.dir ≡ false
  elsewhere f h = ap (path_eq d) (sym (path_eq_sound tmp f.dir h)) ∙ ne

  find-all_gone : (n : Text) (l : List (File B)) → find d n (all_gone tmp l) ≡ find d n l
  unfolding find all_gone
  find-all_gone n [] = refl
  find-all_gone n (f ∷ l) = elim (Bool-cases (path_eq tmp f.dir)) [
    | inl t ↦ rw (t, is_at_elsewhere n f (elsewhere f t)) (find-all_gone n l)
    | inr t ↦ rw (t, find-all_gone n l) refl
  ]

  find-some_gone :
      (n : Text) (k : ℕ) (l : List (File B)) → find d n (some_gone k tmp l) ≡ find d n l
  unfolding find some_gone
  find-some_gone n zero l = refl
  find-some_gone n (suc k) [] = refl
  find-some_gone n (suc k) (f ∷ l) = elim (Bool-cases (path_eq tmp f.dir)) [
    | inl t ↦ rw (t, is_at_elsewhere n f (elsewhere f t)) (find-some_gone n k l)
    | inr t ↦ rw (t, find-some_gone n (suc k) l) refl
  ]

  find-remove_all :
      (n : Text) (fs : Fs B) → find d n (remove_all fs tmp).0.files ≡ find d n fs.files
  unfolding remove_all next_fault
  find-remove_all n fs = elim (Option-cases (get_or fs.faults 0 none)) [
    | inl p ↦ rw (p, remove_all) (find-all_gone n fs.files)
    | inr (k, p) ↦ rw (p, remove_all) (find-some_gone n k fs.files)
  ]

  -- A rename of the directory fails and changes no file, or moves them all.
  rename_dir-cases :
      (fs : Fs B)
      → (((rename_dir fs d tmp).1 ≡ false) × ((rename_dir fs d tmp).0.files ≡ fs.files))
        ⊎ (((rename_dir fs d tmp).1 ≡ true) × ((rename_dir fs d tmp).0.files ≡ move d tmp fs.files))
  unfolding rename_dir next_fault
  rename_dir-cases fs = elim (Option-cases (get_or fs.faults 0 none)) [
    | inr (k, p) ↦ inl (rw (p, rename_dir) refl, rw (p, rename_dir) refl)
    | inl p ↦ elim (Bool-cases (dir_exists d fs.dirs)) [
      | inr t ↦ inl (rw (p, rename_dir, t) refl, rw (p, rename_dir, t) refl)
      | inl t ↦ inr (rw (p, rename_dir, t) refl, rw (p, rename_dir, t) refl)
    ]
  ]

-- Whatever calls of the file system fail, where the temporary path is another one: Discard returns an
-- error and no file has changed, or no file of the object is left in its place, also when the removal
-- of the moved files fails.
pub discard-find :
    {B : Type 0} (s : Disk) (fs : Fs B) (id : ObjectId) (tmp : DirPath)
    → path_eq (get_object_id_path s id) tmp ≡ false
    → (((discard s fs id tmp).1 ≡ false) × ((discard s fs id tmp).0.files ≡ fs.files))
      ⊎ ((n : Text) → find (get_object_id_path s id) n (discard s fs id tmp).0.files ≡ none)
unfolding discard
discard-find s fs id tmp ne =
    let d = get_object_id_path s id in
    elim (rename_dir-cases d tmp ne fs) [
      | inl v ↦ rw v.0 (inl (refl, v.1))
      | inr v ↦ rw v.0 (
          inr (λ n.
            find-remove_all d tmp ne n (rename_dir fs d tmp).0
            ∙ ap (find d n) v.1
            ∙ find-move_old d tmp ne n fs.files))
    ]
