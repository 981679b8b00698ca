-- ===== src/Writers/Tee.antt =====
-- What the duplicating writer does with its writers, and how often a hook runs.
use nedomi.Prelude.{
  ◌≡◌, refl, ap, ◌⊎◌, inl, inr, none, some, List, [], ◌∷◌, ◌++◌, map, ◌==◌, length, arith,
  Bool-cases, Option-cases,
}
use nedomi.Writers.{WriteCloser, multi_write}

module _ {W B Err : Type 0} (writer : WriteCloser W B Err) (p : List B) where
  -- The writers after the write, of which all were written to.
  abbrev pub written : List W → List W
  written ws = map (λ w. (writer.write w p).0) ws

  -- A writer that takes all of the bytes without an error.
  abbrev pub Takes : W → Type 0
  Takes w = ((writer.write w p).1.0 ≡ length p) × ((writer.write w p).1.1 ≡ none)

  abbrev pub AllTake : List W → Type 0
  AllTake [] = Unit
  AllTake (w ∷ ws) = Takes w × AllTake ws

  -- Either every writer took all of the bytes, and so does the whole, without an error; or the
  -- first writer that did not ends the write with an error, those before it took all of the bytes,
  -- and those after it were not written to.
  pub multi_write-AllTake :
      (ws : List W)
      → ((multi_write writer ws p ≡ (written ws, (length p, none))) × AllTake ws)
        ⊎ ((before : List W) × (w : W) × (after : List W) × (err : Err) × (ws ≡ before ++ w ∷ after)
            × AllTake before
            × (multi_write writer ws p ≡ (
              written before ++ (writer.write w p).0 ∷ after,
              ((writer.write w p).1.0, some err),
            )))
  unfolding multi_write
  multi_write-AllTake [] = inl (refl, tt)
  multi_write-AllTake (w ∷ ws) = elim (Option-cases (writer.write w p).1.1) [
    | inr (err, e) ↦ inr ([], w, ws, err, refl, tt, rw (e, multi_write) refl)
    | inl e ↦ elim (Bool-cases ((writer.write w p).1.0 == length p)) [
      | inr short ↦ inr ([], w, ws, writer.short_write, refl, tt, rw (e, short, multi_write) refl)
      | inl full ↦
          let takes : Takes w = (ground arith, e) in
          elim (multi_write-AllTake ws) [
            | inl (q, a) ↦ inl (rw (e, full, q, multi_write) refl, (takes, a))
            | inr (before, v, after, err, s, a, q) ↦ inr (
              w ∷ before,
              v,
              after,
              err,
              ap (λ l. w ∷ l) s,
              (takes, a),
              rw (e, full, q, multi_write) refl,
            )
          ]
    ]
  ]
