-- ===== src/Headers/Laws.antt =====
-- What the copies of headers leave under a key.
use nedomi.Prelude.{
  ◌≡◌, refl, ap, sym, ◌∙◌, Bool, true, false, Option, none, some, List, [], ◌∷◌, if◌then◌else◌,
  Bool-cases, inl, inr, ◌⊎◌,
}
use mathlib.Core.List.{Memᴰ}
use mathlib.Core.List.Memᴰ
use nedomi.Ranges.Strings.{Text}
use nedomi.Disk.Names.{text_eq, text_eq_sound, text_eq_refl}
use nedomi.Headers.{Headers, values, assign, copy_headers_without, is_exception}

-- No key has two entries.
unfoldable pub IsMap : Headers → Type 0
IsMap [] = Unit
IsMap ((k, v) ∷ h) = (values k h ≡ none) × IsMap h

pub values-assign_same : (k : Text) (v : List Text) (h : Headers) → values k (assign k v h) ≡ some v
unfolding values assign
values-assign_same k v [] = rw (text_eq_refl k) refl
values-assign_same k v ((k', v') ∷ h) = elim (Bool-cases (text_eq k k')) [
  | inl t ↦ rw (t, t) refl
  | inr t ↦ rw (t, t) (values-assign_same k v h)
]

pub values-assign_other :
    (k k' : Text) (v : List Text) (h : Headers)
    → text_eq k k' ≡ false
    → values k (assign k' v h) ≡ values k h
unfolding values assign
values-assign_other k k' v [] ne = rw ne refl
values-assign_other k k' v ((k'', v'') ∷ h) ne = elim (Bool-cases (text_eq k' k'')) [
  | inl t ↦
      let e : text_eq k k'' ≡ false = ap (text_eq k) (sym (text_eq_sound k' k'' t)) ∙ ne in
      rw (t, e) refl
  | inr t ↦ rw (t, values-assign_other k k' v h ne) refl
]

-- What is copied from a map: under a key that is no exception, the value of the map; under every
-- other key what was there before.
abbrev copied : Bool → Option (List Text) → Option (List Text) → Option (List Text)
copied true o before = before
copied false none before = before
copied false (some v) before = some v

-- The value of a map, or the one before where it has none.
unfoldable pub or_before : Option (List Text) → Option (List Text) → Option (List Text)
or_before none before = before
or_before (some v) before = some v

is_exception-Memᴰ :
    (k : Text) (l : List Text)
    → ((is_exception k l ≡ true) × Memᴰ k l) ⊎ ((is_exception k l ≡ false) × (¬ Memᴰ k l))
unfolding is_exception
is_exception-Memᴰ k [] = inr (refl, Memᴰ.not-nil)
is_exception-Memᴰ k (e ∷ l) = elim (Bool-cases (text_eq e k)) [
  | inl t ↦ inl (rw t refl, Memᴰ.head (sym (text_eq_sound e k t)))
  | inr t ↦ elim (is_exception-Memᴰ k l) [
    | inl r ↦ inl (rw (t, r.0) refl, Memᴰ.tail r.1)
    | inr r ↦ inr (
      rw (t, r.0) refl,
      λ m. elim (Memᴰ.cases_cons m) [
        | inl same ↦ absurd (cc (t, ap (text_eq e) same, text_eq_refl e))
        | inr later ↦ r.1 later
      ],
    )
  ]
]

copied-values :
    (k : Text) (from to : Headers) (exceptions : List Text)
    → IsMap from
    → values k (copy_headers_without from to exceptions)
      ≡ copied (is_exception k exceptions) (values k from) (values k to)
unfolding copy_headers_without IsMap values
copied-values k [] to ex h = elim (Bool-cases (is_exception k ex)) [
  | inl t ↦ rw t refl
  | inr t ↦ rw t refl
]
copied-values k ((k', v) ∷ from) to ex (fresh, h) =
    copied-values k from (if is_exception k' ex then to else assign k' v to) ex h
    ∙ (elim (Bool-cases (text_eq k k')) [
      | inl t ↦
          let e : k ≡ k' = text_eq_sound k k' t in
          let known : is_exception k' ex ≡ is_exception k ex =
            ap (λ c. is_exception c ex) (sym e) in
          let gone : values k from ≡ none = ap (λ c. values c from) e ∙ fresh in
          let set_here : values k (assign k' v to) ≡ some v =
            ap (λ c. values c (assign k' v to)) e ∙ values-assign_same k' v to in
          elim (Bool-cases (is_exception k ex)) [
            | inl u ↦ rw (t, known, u) refl
            | inr u ↦ rw (t, known, u, gone, set_here) refl
          ]
      | inr t ↦ elim (Bool-cases (is_exception k' ex)) [
        | inl u ↦ rw (t, u) refl
        | inr u ↦ rw (t, u, values-assign_other k k' v to t) refl
      ]
    ])

copied_before : (o before : Option (List Text)) → copied false o before ≡ or_before o before
unfolding or_before
copied_before none before = refl
copied_before (some v) before = refl

-- After CopyHeadersWithout from a map, a key that is one of the exceptions has the value from before,
-- and every other key has that of the map, or the value from before where the map has none.
pub copy_headers_without-values :
    (k : Text) (from to : Headers) (exceptions : List Text)
    → IsMap from
    → (Memᴰ k exceptions × (values k (copy_headers_without from to exceptions) ≡ values k to))
      ⊎ ((¬ Memᴰ k exceptions)
          × (values k (copy_headers_without from to exceptions)
              ≡ or_before (values k from) (values k to)))
unfolding or_before
copy_headers_without-values k from to ex h = elim (is_exception-Memᴰ k ex) [
  | inl r ↦
      inl (r.1, copied-values k from to ex h ∙ ap (λ b. copied b (values k from) (values k to)) r.0)
  | inr r ↦ inr (
    r.1,
    copied-values k from to ex h
        ∙ ap (λ b. copied b (values k from) (values k to)) r.0
        ∙ copied_before (values k from) (values k to),
  )
]
