-- ===== src/Balancing/Search.antt =====
-- Binary search: Go's sort.Search, which ketama uses, and `find` of legacyketama.
use nedomi.Prelude.{
  ℕ, zero, suc, ◌+◌, ◌-◌, ◌/◌, ◌≤◌, ◌<◌, ◌≡◌, Bool, true, false, List, ltb, not, if◌then◌else◌,
  length, get_or, arith, Bool-cases, inl, inr,
}

-- The loop of sort.Search; `k` bounds its rounds.
unfoldable pub search_loop : ℕ → (ℕ → Bool) → ℕ → ℕ → ℕ
search_loop zero f i j = i
search_loop (suc k) f i j =
    let h = (i + j) / 2 in
    let low = search_loop k f i h in
    let high = search_loop k f (h + 1) j in if ltb i j then (if f h then low else high) else i

-- sort.Search
unfoldable pub search : ℕ → (ℕ → Bool) → ℕ
unfolding search_loop
search n f = search_loop n f 0 n

-- The loop of `find`, on the points of the ring.
unfoldable pub find_loop : ℕ → List ℕ → ℕ → ℕ → ℕ → ℕ
find_loop zero points point left right = right
find_loop (suc k) points point left right =
    let middle = left + (right - left) / 2 in
    let high = find_loop k points point (middle + 1) right in
    let low = find_loop k points point left middle in
    if ltb left right then (if ltb (get_or points middle 0) point then high else low) else right

-- find; Get calls it for a ring that is not empty only.
unfoldable pub find : List ℕ → ℕ → ℕ
unfolding find_loop
find points point = find_loop (length points) points point 0 (length points - 1)

-- The first number from `i` on at which the test holds, or `j` if it holds at none before.
pub record IsFirst (f : ℕ → Bool) (i j r : ℕ) : Type 0 where
  pub least : (m : ℕ) → i ≤ m → m < r → f m ≡ false
  pub found : r < j → f r ≡ true
  pub low : i ≤ r
  pub high : r ≤ j

unfoldable pub IsRising : (ℕ → Bool) → ℕ → Type 0
IsRising f n = (a b : ℕ) → a ≤ b → b < n → f a ≡ true → f b ≡ true

module _ (f : ℕ → Bool) (n : ℕ) (rising : IsRising f n) where
  below : (h m : ℕ) → m ≤ h → h < n → f h ≡ false → f m ≡ false
  unfolding IsRising
  below h m b r e = elim (Bool-cases (f m)) [
    | inl t ↦ absurd (cc (rising m h b r t, e))
    | inr t ↦ t
  ]

  pub search_loop-IsFirst :
      (k i j : ℕ) → i ≤ j → j ≤ n → j - i ≤ k → IsFirst f i j (search_loop k f i j)
  unfolding search_loop
  search_loop-IsFirst zero i j a b c = record {
    least = λ m p q. absurd (omega arith);
    found = λ p. absurd (omega arith);
    low = omega arith;
    high = omega arith;
  }
  search_loop-IsFirst (suc k) i j a b c = elim (Bool-cases (ltb i j)) [
    | inr done ↦ rw done (record {
      least = λ m p q. absurd (omega arith);
      found = λ p. absurd (ground arith);
      low = omega arith;
      high = a;
    })
    | inl more ↦
        let lt : i < j = ground arith in
        let h = (i + j) / 2 in
        elim (Bool-cases (f h)) [
          | inl holds ↦
              let r = search_loop-IsFirst k i h (omega arith) (omega arith) (omega arith) in
              rw (more, holds)
                (record {
                  least = r.least;
                  found = λ p. elim (Bool-cases (ltb (search_loop k f i h) h)) [
                    | inl s ↦ r.found (ground arith)
                    | inr s ↦ let e : search_loop k f i h ≡ h = ground (arith, r.high) in rw e holds
                  ];
                  low = r.low;
                  high = omega (arith, r.high);
                })
          | inr fails ↦
              let r = search_loop-IsFirst k (h + 1) j (omega arith) b (omega arith) in
              rw (more, fails)
                (record {
                  least = λ m p q. elim (Bool-cases (ltb h m)) [
                    | inl s ↦ r.least m (ground arith) q
                    | inr s ↦ below h m (ground arith) (omega arith) fails
                  ];
                  found = r.found;
                  low = omega (arith, r.low);
                  high = r.high;
                })
        ]
  ]

-- The test of `find` at an index.
unfoldable pub reaches : List ℕ → ℕ → ℕ → Bool
reaches points point m = not (ltb (get_or points m 0) point)

find_loop-search_loop :
    (k : ℕ) (points : List ℕ) (point l r : ℕ)
    → l ≤ r
    → r - l ≤ k
    → find_loop k points point l r ≡ search_loop k (reaches points point) l r
unfolding find_loop search_loop reaches
find_loop-search_loop zero points point l r a b = omega arith
find_loop-search_loop (suc k) points point l r a b = elim (Bool-cases (ltb l r)) [
  | inr done ↦ rw done (ground arith)
  | inl more ↦
      let lt : l < r = ground arith in
      let e : l + (r - l) / 2 ≡ (l + r) / 2 = omega arith in
      elim (Bool-cases (ltb (get_or points ((l + r) / 2) 0) point)) [
        | inl t ↦
            rw (more, e, t)
              (find_loop-search_loop k points point ((l + r) / 2 + 1) r (omega arith) (omega arith))
        | inr t ↦
            rw (more, e, t)
              (find_loop-search_loop k points point l ((l + r) / 2) (omega arith) (omega arith))
      ]
]

-- On a ring that is not empty and whose points do not fall, `find` ends and returns an index of the
-- ring: that of the first point that is not below the given one, or the last index.
pub find-IsFirst :
    (points : List ℕ) (point : ℕ)
    → 0 < length points
    → IsRising (reaches points point) (length points - 1)
    → IsFirst (reaches points point) 0 (length points - 1) (find points point)
unfolding find
find-IsFirst points point pos rising =
    rw
      (find_loop-search_loop (length points) points point 0 (length points - 1) (omega arith)
        (omega arith))
      (search_loop-IsFirst (reaches points point) (length points - 1) rising (length points) 0
        (length points - 1) (omega arith) (omega arith) (omega arith))

-- sort.Search, for a test that does not fall back to false below `n`.
pub search-IsFirst : (n : ℕ) (f : ℕ → Bool) → IsRising f n → IsFirst f 0 n (search n f)
unfolding search
search-IsFirst n f rising =
    search_loop-IsFirst f n rising n 0 n (omega arith) (omega arith) (omega arith)
