-- ===== src/Respond/Faithful.antt =====
-- What the caching handler relies on, and the pieces of the object that its two sources give.
use nedomi.Prelude.{
  ℕ, zero, suc, ◌+◌, ◌-◌, ◌*◌, ◌/◌, ◌^◌, ◌≤◌, ◌<◌, ◌≡◌, refl, ap, ◌∙◌, Bool, true, some, List, ltb,
  ◌==◌, length, get_or, arith, Bool-cases, inl, inr,
}
use native.Mathlib.Nat.{mod-eq_of_lt}
use nedomi.Balancing.Search.{search, search_loop}
use nedomi.Ranges.{get_response_range}
use nedomi.Respond.{
  Stream, GetPart, opened, not_exist, too_many_files, other_error, Server, indexes_from,
  get_upstream_reader, get_part_from_storage, part_or_error, is_parsed,
}
use nedomi.Respond.Pieces.{IsPiece, broken-IsPiece}

-- What the handler relies on, for one object: a part of the storage is that part of it, and a reply
-- with the status 206 holds the range that was asked for, both up to an error.
pub record IsFaithful {E B : Type 0} (srv : Server E B) (obj : List B) : Type 0 where
  pub sized : srv.object_size ≡ length obj
  pub bounded : length obj + srv.part_size < 2 ^ 64
  pub positive : 0 < srv.part_size
  pub stored :
      (e : E) (i : ℕ) (s : Stream B)
      → (srv.get_part e i).1 ≡ opened s
      → IsPiece obj (i * srv.part_size) srv.part_size s
  pub ranged :
      (e : E) (a b : ℕ)
      → a ≤ b
      → (srv.next e a b).1.code ≡ 206
      → IsPiece obj a (b + 1 - a) (srv.next e a b).1.body

pub length-indexes_from : (k i : ℕ) → length (indexes_from k i) ≡ k
unfolding indexes_from
length-indexes_from zero i = refl
length-indexes_from (suc k) i = ap suc (length-indexes_from k (i + 1))

pub get_or-indexes_from :
    (k i j : ℕ) → j < k → i + k ≤ 2 ^ 32 → get_or (indexes_from k i) j 0 ≡ i + j
unfolding indexes_from
get_or-indexes_from zero i j a b = absurd (omega arith)
get_or-indexes_from (suc k) i zero a b = mod-eq_of_lt (omega arith) ∙ omega arith
get_or-indexes_from (suc k) i (suc j) a b =
    get_or-indexes_from k (i + 1) j (omega arith) (omega arith) ∙ omega arith

-- What the binary search ends at, for any test: an index at which it holds, or the end.
record IsFound (f : ℕ → Bool) (n r : ℕ) : Type 0 where
  found : r < n → f r ≡ true

search_loop-IsFound :
    (k : ℕ) (f : ℕ → Bool) (n i j : ℕ)
    → i ≤ j
    → j - i ≤ k
    → IsFound f n j
    → IsFound f n (search_loop k f i j)
unfolding search_loop
search_loop-IsFound zero f n i j a b h = let e : i ≡ j = omega arith in rw e h
search_loop-IsFound (suc k) f n i j a b h = elim (Bool-cases (ltb i j)) [
  | inr t ↦ let e : i ≡ j = ground arith in rw (t, e) h
  | inl t ↦
      let l : i < j = ground arith in
      elim (Bool-cases (f ((i + j) / 2))) [
        | inl g ↦
            rw (t, g)
              (search_loop-IsFound k f n i ((i + j) / 2) (omega arith) (omega arith)
                (record { found = λ q. g }))
        | inr g ↦
            rw (t, g) (search_loop-IsFound k f n ((i + j) / 2 + 1) j (omega arith) (omega arith) h)
      ]
]

pub search-found : (n : ℕ) (f : ℕ → Bool) → search n f < n → f (search n f) ≡ true
unfolding search
search-found n f =
    let h =
      search_loop-IsFound n f n 0 n (omega arith) (omega arith)
        (record { found = λ q. absurd (omega arith) }) in
    h.found

module _ {E B : Type 0} (srv : Server E B) (obj : List B) (laws : IsFaithful srv obj) where
  pub part_or_error-opened :
      (e : E) (i : ℕ) (r : GetPart B) {s : Stream B}
      → (part_or_error srv e i r).1 ≡ some (some s)
      → r ≡ opened s
  unfolding part_or_error
  part_or_error-opened e i (opened t) p = cc p
  part_or_error-opened e i not_exist p = absurd (cc p)
  part_or_error-opened e i too_many_files p = absurd (cc p)
  part_or_error-opened e i other_error p = absurd (cc p)

  pub get_part_from_storage-IsPiece :
      (e : E) (i : ℕ) {s : Stream B}
      → (get_part_from_storage srv e i).1 ≡ some (some s)
      → IsPiece obj (i * srv.part_size) srv.part_size s
  unfolding get_part_from_storage
  get_part_from_storage-IsPiece e i {s} p =
      let e' = (srv.lookup e i).0 in
      laws.stored e' i s (part_or_error-opened (srv.get_part e' i).0 i (srv.get_part e' i).1 p)

  pub get_upstream_reader-IsPiece :
      (e : E) (a b : ℕ) → a ≤ b → IsPiece obj a (b + 1 - a) (get_upstream_reader srv e a b).1
  unfolding get_upstream_reader
  get_upstream_reader-IsPiece e a b le =
      let reply = (srv.next e a b).1 in
      elim (Bool-cases
        (is_parsed (get_response_range reply.code reply.content_range reply.content_length))) [
          | inr t ↦ rw t (broken-IsPiece obj a (b + 1 - a))
          | inl t ↦ elim (Bool-cases (reply.code == 206)) [
            | inr u ↦ rw (t, u) (broken-IsPiece obj a (b + 1 - a))
            | inl u ↦ rw (t, u) (laws.ranged e a b le (ground arith))
          ]
        ]
