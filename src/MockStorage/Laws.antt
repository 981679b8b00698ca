-- ===== src/MockStorage/Laws.antt =====
-- What is saved is found, and what is discarded is not.
use nedomi.Prelude.{
  ℕ, ◌≡◌, refl, ap, sym, ◌∙◌, ◌≢◌, false, none, some, [], ◌∷◌, ite, ◌==◌, if◌then◌else◌, arith,
  Bool-cases, Option-cases, inl, inr, if_pos, if_neg,
}
use nedomi.MockStorage.{
  Parts, Storage, find_part, delete_part, entries, get_metadata, get_part, save_part, discard,
  discard_part,
}

find_part-delete_part :
    {B : Type 0} (i j : ℕ) (ps : Parts B)
    → find_part j (delete_part i ps) ≡ (if i == j then none else find_part j ps)
unfolding delete_part
find_part-delete_part i j [] = ground arith
find_part-delete_part i j ((k, b) ∷ ps) = elim (Bool-cases (k == i)) [
  | inl e ↦ rw (e, find_part-delete_part i j ps) (ground arith)
  | inr e ↦ rw (e, find_part-delete_part i j ps) (ground arith)
]

get_part-entries :
    {K M B : Type 0} (dec : Discrete K) (s : Storage K M B) (id : K) (i : ℕ)
    → get_part dec s id i ≡ find_part i (entries (s.parts id))
unfolding get_part
get_part-entries dec s id i = elim (Option-cases (s.parts id)) [
  | inl e ↦ rw (e, get_part) refl
  | inr (ps, e) ↦ rw (e, get_part) refl
]

-- A storage with the same entry for an object has the same parts of it.
same_parts :
    {K M B : Type 0} (dec : Discrete K) (s s' : Storage K M B) (k : K) (j : ℕ)
    → s'.parts k ≡ s.parts k
    → get_part dec s' k j ≡ get_part dec s k j
same_parts dec s s' k j e =
    get_part-entries dec s' k j
    ∙ ap (λ o. find_part j (entries o)) e
    ∙ sym (get_part-entries dec s k j)

module _ {K M B : Type 0} (dec : Discrete K) (s : Storage K M B) (id : K) where
  -- SavePart of a part that is not there, for an object with metadata, returns no error. Then
  -- GetPart finds its contents, and for any other part of any object what it found before; the
  -- metadata stays.
  pub get_part-save_part :
      (i : ℕ) (contents : B) (m : M)
      → s.objects id ≡ some m
      → get_part dec s id i ≡ none
      → (s' : Storage K M B) × (save_part dec s id i contents ≡ (s', none))
        × (get_part dec s' id i ≡ some contents)
        × ((j : ℕ) → i ≢ j → get_part dec s' id j ≡ get_part dec s id j)
        × ((k : K) (j : ℕ) → k ≢ id → get_part dec s' k j ≡ get_part dec s k j)
        × (s'.objects ≡ s.objects)
  unfolding save_part
  get_part-save_part i contents m e absent =
      let ps = entries (s.parts id) in
      let free : find_part i ps ≡ none = sym (get_part-entries dec s id i) ∙ absent in
      let s' : Storage K M B = record s {
        parts = λ k. ite (dec k id) (some ((i, contents) ∷ ps)) (s.parts k);
      } in
      let entry : s'.parts id ≡ some ((i, contents) ∷ ps) = if_pos (dec id id) refl _ _ in
      let hit : find_part i ((i, contents) ∷ ps) ≡ some contents = ground arith in
      let miss : (j : ℕ) → i ≢ j → find_part j ((i, contents) ∷ ps) ≡ find_part j ps =
        λ j ne. let t : (i == j) ≡ false = ground (arith, ne) in rw t refl in
      (
        s',
        rw (e, save_part, free) refl,
        get_part-entries dec s' id i ∙ ap (λ o. find_part i (entries o)) entry ∙ hit,
        λ j ne.
            get_part-entries dec s' id j
            ∙ ap (λ o. find_part j (entries o)) entry
            ∙ miss j ne
            ∙ sym (get_part-entries dec s id j),
        λ k j ne. same_parts dec s s' k j (if_neg (dec k id) ne _ (s.parts k)),
        refl,
      )

  -- Discard of an object with metadata returns no error. Then neither its metadata nor a part of it
  -- is found, and everything of the other objects is as before.
  get_part-discard :
      (m : M)
      → s.objects id ≡ some m
      → (s' : Storage K M B) × (discard dec s id ≡ (s', none))
        × (get_metadata dec s' id ≡ none)
        × ((j : ℕ) → get_part dec s' id j ≡ none)
        × ((k : K) → k ≢ id → get_metadata dec s' k ≡ get_metadata dec s k)
        × ((k : K) (j : ℕ) → k ≢ id → get_part dec s' k j ≡ get_part dec s k j)
  unfolding discard
  get_part-discard m e =
      let s' : Storage K M B = record s {
        objects = λ k. ite (dec k id) none (s.objects k);
        parts = λ k. ite (dec k id) none (s.parts k);
      } in
      (
        s',
        rw (e, discard) refl,
        if_pos (dec id id) refl _ _,
        λ j.
            get_part-entries dec s' id j
            ∙ ap (λ o. find_part j (entries o)) (if_pos (dec id id) refl none (s.parts id)),
        λ k ne. if_neg (dec k id) ne none (s.objects k),
        λ k j ne. same_parts dec s s' k j (if_neg (dec k id) ne none (s.parts k)),
      )

  -- DiscardPart for an object that has an entry for its parts returns no error. Then the part is not
  -- found, and every other part of any object is found as before; the metadata stays.
  get_part-discard_part :
      (i : ℕ) (ps : Parts B)
      → s.parts id ≡ some ps
      → (s' : Storage K M B) × (discard_part dec s id i ≡ (s', none))
        × ((j : ℕ) → get_part dec s' id j ≡ (if i == j then none else get_part dec s id j))
        × ((k : K) (j : ℕ) → k ≢ id → get_part dec s' k j ≡ get_part dec s k j)
        × (s'.objects ≡ s.objects)
  unfolding discard_part
  get_part-discard_part i ps e =
      let s' : Storage K M B = record s {
        parts = λ k. ite (dec k id) (some (delete_part i ps)) (s.parts k);
      } in
      (
        s',
        rw (e, discard_part) refl,
        λ j.
            get_part-entries dec s' id j
            ∙ ap (λ o. find_part j (entries o)) (if_pos (dec id id) refl _ (s.parts id))
            ∙ find_part-delete_part i j ps
            ∙ ap (λ o. if i == j then none else find_part j (entries o)) (sym e)
            ∙ ap (λ o. if i == j then none else o) (sym (get_part-entries dec s id j)),
        λ k j ne. same_parts dec s s' k j (if_neg (dec k id) ne _ (s.parts k)),
        refl,
      )
