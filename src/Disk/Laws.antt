-- ===== src/Disk/Laws.antt =====
-- What the calls of the file system do to the file at a place.
use nedomi.Prelude.{
  ◌≡◌, refl, ap, sym, ◌∙◌, true, false, none, some, List, [], ◌∷◌, ◌&&◌, arith, Bool-cases, inl,
  inr,
}
use nedomi.Ranges.Strings.{Text}
use nedomi.Disk.Names.{text_eq, text_eq_sound, text_eq_refl}
use nedomi.Disk.Files.{DirPath, File, path_eq, is_at, find, erase, put}

pub path_eq_refl : (d : DirPath) → path_eq d d ≡ true
unfolding path_eq
path_eq_refl [] = refl
path_eq_refl (c ∷ t) = rw (text_eq_refl c, path_eq_refl t) refl

pub path_eq_sound : (d e : DirPath) → path_eq d e ≡ true → d ≡ e
unfolding path_eq
path_eq_sound [] [] h = refl
path_eq_sound [] (d ∷ u) h = absurd (cc h)
path_eq_sound (c ∷ t) [] h = absurd (cc h)
path_eq_sound (c ∷ t) (d ∷ u) h =
    let e : text_eq c d ≡ true = ground (arith, h) in
    let r : path_eq t u ≡ true = ground (arith, h) in
    ap (λ k. k ∷ t) (text_eq_sound c d e) ∙ ap (λ v. d ∷ v) (path_eq_sound t u r)

module _ {B : Type 0} where
  pub is_at_sound :
      (d : DirPath) (n : Text) (f : File B) → is_at d n f ≡ true → (d ≡ f.dir) × (n ≡ f.name)
  unfolding is_at
  is_at_sound d n f h =
      let e : path_eq d f.dir ≡ true = ground (arith, h) in
      let r : text_eq n f.name ≡ true = ground (arith, h) in
      (path_eq_sound d f.dir e, text_eq_sound n f.name r)

  pub is_at_refl :
      (d : DirPath) (n : Text) (c : List B)
      → is_at d n (record { dir = d; name = n; content = c }) ≡ true
  unfolding is_at
  is_at_refl d n c = rw (path_eq_refl d, text_eq_refl n) refl

  -- A file that is at one place is not at another.
  is_at_other :
      (d : DirPath) (n : Text) (d' : DirPath) (n' : Text) (f : File B)
      → (path_eq d d' && text_eq n n') ≡ false
      → is_at d' n' f ≡ true
      → is_at d n f ≡ false
  unfolding is_at
  is_at_other d n d' n' f ne h =
      let e = is_at_sound d' n' f h in
      ap (λ k. path_eq d k && text_eq n f.name) (sym e.0)
      ∙ ap (λ k. path_eq d d' && text_eq n k) (sym e.1)
      ∙ ne

  pub find-erase_same : (d : DirPath) (n : Text) (l : List (File B)) → find d n (erase d n l) ≡ none
  unfolding find erase
  find-erase_same d n [] = refl
  find-erase_same d n (f ∷ l) = elim (Bool-cases (is_at d n f)) [
    | inl t ↦ rw t (find-erase_same d n l)
    | inr t ↦ rw t (rw t (find-erase_same d n l))
  ]

  pub find-erase_other :
      (d : DirPath) (n : Text) (d' : DirPath) (n' : Text) (l : List (File B))
      → (path_eq d d' && text_eq n n') ≡ false
      → find d n (erase d' n' l) ≡ find d n l
  unfolding find erase
  find-erase_other d n d' n' [] ne = refl
  find-erase_other d n d' n' (f ∷ l) ne = elim (Bool-cases (is_at d' n' f)) [
    | inl t ↦ rw (t, is_at_other d n d' n' f ne t) (find-erase_other d n d' n' l ne)
    | inr t ↦ rw (t, find-erase_other d n d' n' l ne) refl
  ]

  pub find-put_same :
      (d : DirPath) (n : Text) (c : List B) (l : List (File B)) → find d n (put d n c l) ≡ some c
  unfolding find put
  find-put_same d n c l = rw (is_at_refl d n c) refl

  pub find-put_other :
      (d : DirPath) (n : Text) (d' : DirPath) (n' : Text) (c : List B) (l : List (File B))
      → (path_eq d d' && text_eq n n') ≡ false
      → find d n (put d' n' c l) ≡ find d n l
  unfolding find put
  find-put_other d n d' n' c l ne =
      let h : is_at d n (record { dir = d'; name = n'; content = c }) ≡ false =
        is_at_other d n d' n' (record { dir = d'; name = n'; content = c }) ne
          (is_at_refl d' n' c) in
      rw h (find-erase_other d n d' n' l ne)
