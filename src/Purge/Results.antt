-- ===== src/Purge/Results.antt =====
-- The map of the results by their URLs.
use nedomi.Prelude.{
  ◌≡◌, ◌≢◌, refl, ap, sym, ◌∙◌, Bool, false, Option, none, some, List, [], ◌∷◌, if◌then◌else◌,
  Bool-cases, inl, inr,
}
use nedomi.Ranges.Strings.{Text}
use nedomi.Disk.Names.{text_eq, text_eq_sound, text_eq_refl}

unfoldable pub result_of : Text → List (Text × Bool) → Option Bool
result_of url [] = none
result_of url ((u, b) ∷ l) = let rest = result_of url l in if text_eq url u then some b else rest

unfoldable pub set_result : Text → Bool → List (Text × Bool) → List (Text × Bool)
set_result url b [] = (url, b) ∷ []
set_result url b ((u, c) ∷ l) =
    let rest = set_result url b l in if text_eq url u then (u, b) ∷ l else (u, c) ∷ rest

pub result_of-set_result_same :
    (url : Text) (b : Bool) (l : List (Text × Bool)) → result_of url (set_result url b l) ≡ some b
unfolding result_of set_result
result_of-set_result_same url b [] = rw (text_eq_refl url) refl
result_of-set_result_same url b ((u, c) ∷ l) = elim (Bool-cases (text_eq url u)) [
  | inl t ↦ rw (t, t) refl
  | inr t ↦ rw (t, t) (result_of-set_result_same url b l)
]

pub result_of-set_result_other :
    (url v : Text) (b : Bool) (l : List (Text × Bool))
    → text_eq url v ≡ false
    → result_of url (set_result v b l) ≡ result_of url l
unfolding result_of set_result
result_of-set_result_other url v b [] ne = rw ne refl
result_of-set_result_other url v b ((u, c) ∷ l) ne = elim (Bool-cases (text_eq v u)) [
  | inl t ↦
      let e : text_eq url u ≡ false = ap (text_eq url) (sym (text_eq_sound v u t)) ∙ ne in
      rw (t, e) refl
  | inr t ↦ rw (t, result_of-set_result_other url v b l ne) refl
]

-- The URLs that have a result keep one.
abbrev pub Keeps : List (Text × Bool) → List (Text × Bool) → Type 0
Keeps pres pres' = (v : Text) → result_of v pres ≢ none → result_of v pres' ≢ none

pub set_result-Keeps :
    (url : Text) (b : Bool) (pres : List (Text × Bool)) → Keeps pres (set_result url b pres)
set_result-Keeps url b pres v h n = elim (Bool-cases (text_eq v url)) [
  | inr ne ↦ h (sym (result_of-set_result_other v url b pres ne) ∙ n)
  | inl s ↦
      let same : v ≡ url = text_eq_sound v url s in
      absurd (
        cc (
          n,
          ap (λ u. result_of u (set_result url b pres)) same,
          result_of-set_result_same url b pres,
        ))
]
