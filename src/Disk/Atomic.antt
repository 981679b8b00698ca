-- ===== src/Disk/Atomic.antt =====
-- SavePart puts a whole part in its place or changes nothing that is read.
use nedomi.Prelude.{
  ℕ, ◌≤◌, ◌≡◌, ◌⊎◌, refl, ap, sym, ◌∙◌, Bool, true, false, none, some, List, [], ◌∷◌, ◌++◌, ◌&&◌,
  arith, Bool-cases, inl, inr, Option-cases, length, get_or, ltb, drop,
}
use mathlib.Core.Option.{some-injective}
use nedomi.Ranges.Strings.{Text}
use nedomi.Respond.{Stream}
use nedomi.Disk.Names.{text_eq, get_part_filename}
use nedomi.Disk.Files.{
  DirPath, Fs, path_eq, find, erase, put, next_fault, create_file, write, close, remove, rename,
}
use nedomi.Disk.Laws.{find-erase_other, find-put_same, find-put_other}
use nedomi.Disk.{Disk, ObjectId, get_object_id_path, save_part}

module _ {B : Type 0} (fs : Fs B) (d : DirPath) (n : Text) where
  pub write-copied :
      (s : Stream B)
      → (write fs d n s).2 ≡ true
      → (find d n (write fs d n s).0.files ≡ some s.content)
        × ((write fs d n s).1 ≡ length s.content)
        × (s.fails ≡ false)
  unfolding write next_fault
  write-copied s = elim (Option-cases (get_or fs.faults 0 none)) [
    | inr (k, p) ↦ rw (p, write) (λ h. absurd (cc h))
    | inl p ↦ rw (p, write) (λ h. (find-put_same d n s.content fs.files, refl, ground (arith, h)))
  ]

  pub close-files : (close fs).0.files ≡ fs.files
  unfolding close next_fault
  close-files = refl

  -- A rename fails and changes no file, or moves the content.
  pub rename-cases :
      (new : Text)
      → (((rename fs d n new).1 ≡ false) × ((rename fs d n new).0.files ≡ fs.files))
        ⊎ ((c : List B) × (find d n fs.files ≡ some c)
            × ((rename fs d n new).1 ≡ true)
            × ((rename fs d n new).0.files ≡ put d new c (erase d n fs.files)))
  unfolding rename next_fault
  rename-cases new = elim (Option-cases (get_or fs.faults 0 none)) [
    | inr (k, p) ↦ inl (rw (p, rename) refl, rw (p, rename) refl)
    | inl p ↦ elim (Option-cases (find d n fs.files)) [
      | inl q ↦ inl (rw (p, q, rename) refl, rw (p, q, rename) refl)
      | inr (c, q) ↦ inr (c, q, rw (p, q, rename) refl, rw (p, q, rename) refl)
    ]
  ]

  -- What stands elsewhere stays.
  module _ (d' : DirPath) (n' : Text) (ne : (path_eq d' d && text_eq n' n) ≡ false) where
    create_file-find : find d' n' (create_file fs d n).0.files ≡ find d' n' fs.files
    unfolding create_file next_fault
    create_file-find = elim (Option-cases (get_or fs.faults 0 none)) [
      | inr (k, p) ↦ rw (p, create_file) refl
      | inl p ↦ elim (Option-cases (get_or (drop 1 fs.faults) 0 none)) [
        | inr (k, q) ↦ rw (p, q, create_file) refl
        | inl q ↦ elim (Option-cases (find d n fs.files)) [
          | inr (c, r) ↦ rw (p, q, r, create_file) refl
          | inl r ↦ rw (p, q, r, create_file) (find-put_other d' n' d n [] fs.files ne)
        ]
      ]
    ]

    write-find : (s : Stream B) → find d' n' (write fs d n s).0.files ≡ find d' n' fs.files
    unfolding write next_fault
    write-find s = elim (Option-cases (get_or fs.faults 0 none)) [
      | inr (k, p) ↦ rw (p, write) (find-put_other d' n' d n _ fs.files ne)
      | inl p ↦ rw (p, write) (find-put_other d' n' d n _ fs.files ne)
    ]

    remove-find : find d' n' (remove fs d n).0.files ≡ find d' n' fs.files
    unfolding remove next_fault
    remove-find = elim (Option-cases (get_or fs.faults 0 none)) [
      | inr (k, p) ↦ rw (p, remove) refl
      | inl p ↦ elim (Option-cases (find d n fs.files)) [
        | inl q ↦ rw (p, q, remove) refl
        | inr (c, q) ↦ rw (p, q, remove) (find-erase_other d' n' d n fs.files ne)
      ]
    ]

-- The temporary name that SavePart writes to.
abbrev pub temporary : ℕ → Text → Text
temporary part suffix = get_part_filename part ++ 95 ∷ suffix

module _ {B : Type 0} (s : Disk) (fs : Fs B) (id : ObjectId) (part : ℕ) (suffix : Text)
    (reader : Stream B) where
  abbrev pub place : DirPath
  place = get_object_id_path s id

  -- How SavePart ends: with an error and no other file changed, or with the part in its place.
  abbrev pub IsSaved : DirPath → Text → Fs B × Bool → Type 0
  IsSaved d n r =
      ((r.1 ≡ false) × (find d n r.0.files ≡ find d n fs.files))
      ⊎ ((r.1 ≡ true)
          × (reader.fails ≡ false)
          × (length reader.content ≤ s.part_size)
          × (find place (get_part_filename part) r.0.files ≡ some reader.content)
          × ((path_eq d place && text_eq n (get_part_filename part)) ≡ false
              → find d n r.0.files ≡ find d n fs.files))

  -- Whatever calls of the file system fail, and however the reader ends: SavePart returns an error
  -- and every file but the temporary one is as it was, or it returns none, the whole content of a
  -- reader that did not fail and that fits in a part stands in the part's place, and every file but
  -- the temporary one and the part's is as it was.
  pub save_part-IsSaved :
      (d : DirPath) (n : Text)
      → (path_eq d place && text_eq n (temporary part suffix)) ≡ false
      → IsSaved d n (save_part s fs id part suffix reader)
  unfolding save_part
  save_part-IsSaved d n ne =
      let tmp = temporary part suffix in
      let name = get_part_filename part in
      let c = create_file fs place tmp in
      let w = write c.0 place tmp reader in
      let k = close w.0 in
      let kept : find d n w.0.files ≡ find d n fs.files =
        write-find c.0 place tmp d n ne reader ∙ create_file-find fs place tmp d n ne in
      let same : k.0.files ≡ w.0.files = close-files w.0 place tmp in
      let closed : find d n k.0.files ≡ find d n fs.files = ap (find d n) same ∙ kept in
      let dropped : find d n (remove k.0 place tmp).0.files ≡ find d n fs.files =
        remove-find k.0 place tmp d n ne ∙ closed in
      elim (Bool-cases c.1) [
        | inr p ↦ rw p (inl (refl, create_file-find fs place tmp d n ne))
        | inl p ↦ elim (Bool-cases w.2) [
          | inr q ↦ rw (p, q) (inl (refl, dropped))
          | inl q ↦
              let copied = write-copied c.0 place tmp reader q in
              elim (Bool-cases (ltb s.part_size w.1)) [
                | inl t ↦ rw (p, q, t) (inl (refl, dropped))
                | inr t ↦ elim (Bool-cases k.1) [
                  | inr u ↦ rw (p, q, t, u) (inl (refl, closed))
                  | inl u ↦ elim (rename-cases k.0 place tmp name) [
                    | inl v ↦ rw (p, q, t, u) (inl (v.0, ap (find d n) v.1 ∙ closed))
                    | inr (content, f, ok, v) ↦
                        let whole : content ≡ reader.content =
                          some-injective _ _ (sym f ∙ ap (find place tmp) same ∙ copied.0) in
                        let fits : length reader.content ≤ s.part_size =
                          ground (arith, t, copied.1) in
                        let put_there : find place name (rename k.0 place tmp name).0.files
                            ≡ some reader.content =
                          ap (find place name) v
                          ∙ find-put_same place name content (erase place tmp k.0.files)
                          ∙ ap some whole in
                        rw (p, q, t, u)
                          (inr (
                            ok,
                            copied.2,
                            fits,
                            put_there,
                            λ other.
                                ap (find d n) v
                                ∙ find-put_other d n place name content (erase place tmp k.0.files)
                                    other
                                ∙ find-erase_other d n place tmp k.0.files ne
                                ∙ closed,
                          ))
                  ]
                ]
              ]
        ]
      ]
