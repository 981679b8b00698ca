-- ===== src/LocationMuxer/Longest.antt =====
-- longestMatchingPath finds a match of greatest length.
use nedomi.Prelude.{
  ◌↔◌, ℕ, ◌<◌, ◌≤◌, ◌≡◌, ◌⊎◌, refl, Bool, true, Option, none, some, List, [], ◌∷◌, ltb, leb, ◌==◌,
  ◌&&◌, not, length, take, arith, Bool-cases, inl, inr,
}
use nedomi.Ranges.Strings.{Text}
use nedomi.LocationMuxer.{
  Location, Packages, LocationMuxer, is_location_type, exact, visit, longest_matching_path,
}

-- An entry is in a list.
pub data IsIn {A : Type 0} (x : A) : List A → Type 0 where
  here : (l : List A) → IsIn x (x ∷ l)
  there : (y : A) (l : List A) → IsIn x l → IsIn x (y ∷ l)

module _ {R : Type 0} (pk : Packages R) (path : Text) where
  -- Whether an entry matches the path: it is no longer, its letters are those that the path begins
  -- with up to their case, and the whole path if the location wants an exact match.
  abbrev pub is_match : Text × Location → Bool
  is_match (prefix, location) =
      leb (length prefix) (length path)
      && pk.equal_fold prefix (take (length prefix) path)
      && not (is_location_type location exact && not (length prefix == length path))

  -- A result of the visitor that is not what it had: a match of greatest length.
  pub record IsLongest (entries : List (Text × Location)) (above : ℕ) (location : Location)
      : Type 0 where
    pub prefix : Text
    pub in_entries : IsIn (prefix, location) entries
    pub matches : is_match (prefix, location) ≡ true
    pub longer : above < length prefix
    pub longest :
        (p : Text) (l : Location)
        → IsIn (p, l) entries
        → is_match (p, l) ≡ true
        → length p ≤ length prefix

  -- No match is longer.
  abbrev pub NoLonger : List (Text × Location) → ℕ → Type 0
  NoLonger entries n =
      (p : Text) (l : Location) → IsIn (p, l) entries → is_match (p, l) ≡ true → length p ≤ n

  no_longer :
      (e : Text × Location) (entries : List (Text × Location)) (k : ℕ)
      → (is_match e ≡ true → length e.0 ≤ k)
      → NoLonger entries k
      → NoLonger (e ∷ entries) k
  no_longer e entries k h r p l (here _) m = h m
  no_longer e entries k h r p l (there _ _ i) m = r p l i m

  -- What the visitor returns from a match of length `n` on: that match, or a longer one.
  abbrev pub Returns : List (Text × Location) → ℕ → Option Location → Option Location → Type 0
  Returns entries n matched v =
      ((v ≡ matched) × NoLonger entries n)
      ⊎ ((location : Location) × (v ≡ some location) × IsLongest entries n location)

  after_skipped :
      (e : Text × Location) (entries : List (Text × Location)) (n : ℕ) (matched v : Option Location)
      → (is_match e ≡ true → length e.0 ≤ n)
      → Returns entries n matched v
      → Returns (e ∷ entries) n matched v
  after_skipped e entries n matched v h (inl (q, r)) = inl (q, no_longer e entries n h r)
  after_skipped e entries n matched v h (inr (l, q, r)) = inr (
    l,
    q,
    record {
      prefix = r.prefix;
      in_entries = there e entries r.in_entries;
      matches = r.matches;
      longer = r.longer;
      longest = no_longer e entries (length r.prefix) (λ m. omega (arith, h m, r.longer)) r.longest;
    },
  )

  after_taken :
      (prefix : Text) (location : Location) (entries : List (Text × Location)) (n : ℕ)
      (matched v : Option Location)
      → is_match (prefix, location) ≡ true
      → n < length prefix
      → Returns entries (length prefix) (some location) v
      → Returns ((prefix, location) ∷ entries) n matched v
  after_taken prefix location entries n matched v m lt (inl (q, r)) = inr (
    location,
    q,
    record {
      prefix = prefix;
      in_entries = here entries;
      matches = m;
      longer = lt;
      longest = no_longer (prefix, location) entries (length prefix) (λ m'. omega arith) r;
    },
  )
  after_taken prefix location entries n matched v m lt (inr (l, q, r)) = inr (
    l,
    q,
    record {
      prefix = r.prefix;
      in_entries = there (prefix, location) entries r.in_entries;
      matches = r.matches;
      longer = omega (arith, lt, r.longer);
      longest =
          no_longer (prefix, location) entries (length r.prefix) (λ m'. omega (arith, r.longer))
            r.longest;
    },
  )

  matches-length : (p : Text) (l : Location) → is_match (p, l) ≡ true → length p ≤ length path
  matches-length p l m = ground (arith, m)

  visit-IsLongest :
      (entries : List (Text × Location)) (n : ℕ) (matched : Option Location)
      → Returns entries n matched (visit pk path entries n matched)
  unfolding visit
  visit-IsLongest [] n matched = inl (refl, λ p l i m. elim i [ ])
  visit-IsLongest ((prefix, location) ∷ entries) n matched =
      let e : Text × Location = (prefix, location) in
      let fold = pk.equal_fold prefix (take (length prefix) path) in
      let wanted = is_location_type location exact && not (length prefix == length path) in
      let ih = visit-IsLongest entries n matched in
      elim (Bool-cases (ltb (length path) (length prefix))) [
        | inl t ↦ rw t (after_skipped e entries n matched _ (λ m. ground (arith, m)) ih)
        | inr t ↦ elim (Bool-cases (ltb n (length prefix) && fold)) [
          | inr u ↦ rw (t, u) (after_skipped e entries n matched _ (λ m. ground (arith, m)) ih)
          | inl u ↦ elim (Bool-cases wanted) [
            | inl v ↦ rw (t, u, v) (after_skipped e entries n matched _ (λ m. ground (arith, m)) ih)
            | inr v ↦
                let m : is_match e ≡ true = ground arith in
                let lt : n < length prefix = ground arith in
                elim (Bool-cases (length prefix == length path)) [
                  | inr w ↦
                      rw (t, u, v, w)
                        (after_taken prefix location entries n matched _ m lt
                          (visit-IsLongest entries (length prefix) (some location)))
                  | inl w ↦
                      rw (t, u, v, w)
                        (inr (
                          location,
                          refl,
                          record {
                            prefix = prefix;
                            in_entries = here entries;
                            matches = m;
                            longer = lt;
                            longest = λ p l i k. ground (arith, matches-length p l k);
                          },
                        ))
                ]
          ]
        ]
      ]

-- For a trie that visits the entries it has, in any order: longestMatchingPath returns none, and then
-- no entry but one of the empty path matches; or it returns the location of an entry that matches the
-- path, and no matching entry is longer.
pub longest_matching_path-IsLongest :
    {R : Type 0} (pk : Packages R) (lm : LocationMuxer R) (path : Text)
    → ((e : Text × Location) → IsIn e (pk.visit_order lm.entries) ↔ IsIn e lm.entries)
    → Returns pk path lm.entries 0 none (longest_matching_path pk lm path)
unfolding longest_matching_path
longest_matching_path-IsLongest pk lm path same =
    elim (visit-IsLongest pk path (pk.visit_order lm.entries) 0 none) [
      | inl (q, r) ↦ inl (q, λ p l i m. r p l ((same (p, l)).1 i) m)
      | inr (l, q, r) ↦ inr (
        l,
        q,
        record {
          prefix = r.prefix;
          in_entries = (same (r.prefix, l)).0 r.in_entries;
          matches = r.matches;
          longer = r.longer;
          longest = λ p l' i m. r.longest p l' ((same (p, l')).1 i) m;
        },
      )
    ]
