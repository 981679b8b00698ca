-- ===== src/Respond/Up.antt =====
-- The whole range is sent when nothing on the way fails.
use nedomi.Prelude.{
  ◌⊎◌, ℕ, zero, suc, ◌+◌, ◌-◌, ◌/◌, ◌^◌, ◌≤◌, ◌<◌, ◌≡◌, ◌≢◌, refl, ap, sym, ◌∙◌, Bool, true, false,
  Option, none, some, List, [], ltb, ◌==◌, if◌then◌else◌, ◌&&◌, length, get_or, arith, Bool-cases,
  inl, inr, Option-cases, drop, take,
}
use mathlib.Core.Option.{some-injective}
use nedomi.Balancing.Search.{search}
use nedomi.Ranges.{get_response_range}
use nedomi.Respond.{
  Stream, GetPart, opened, not_exist, too_many_files, other_error, Server, Contents, contents,
  Response, copy, skip, limit, multi, is_parsed, is_ahead, part_or_error, get_part_from_storage,
  get_upstream_reader, rest_from_upstream, up_to_part, after_missing, get_contents,
}
use nedomi.Respond.Faithful.{IsFaithful}
use nedomi.Respond.Lazily.{
  indexes, is_skipped, cut_to_range, send_contents, respond_loop, lazily_respond,
}
use nedomi.Respond.Cut.{count_parts}
use nedomi.Respond.Loop.{lazily_respond-IsAnswer}

-- A stream without an error, also in Seek.
pub record IsSmooth {B : Type 0} (s : Stream B) : Type 0 where
  pub reads : s.fails ≡ false
  pub seeks : s.seek_fails ≡ false

-- Nothing that the handler calls fails; that the storage has not got a part is no failure.
pub record IsUp {E B : Type 0} (srv : Server E B) : Type 0 where
  pub lists : (e : E) → (srv.get_available_parts e).1 ≢ none
  pub opens : (e : E) (i : ℕ) → (srv.get_part e i).1 ≢ too_many_files
  pub stored : (e : E) (i : ℕ) (s : Stream B) → (srv.get_part e i).1 ≡ opened s → IsSmooth s
  pub partial : (e : E) (a b : ℕ) → (srv.next e a b).1.code ≡ 206
  pub readable :
      (e : E) (a b : ℕ)
      → is_parsed (
          get_response_range
            (srv.next e a b).1.code
            (srv.next e a b).1.content_range
            (srv.next e a b).1.content_length)
        ≡ true
  pub received : (e : E) (a b : ℕ) → IsSmooth (srv.next e a b).1.body
  pub delivers : (e : E) (l : List B) → (srv.send e l).1 ≡ none

module _ {B : Type 0} where
  skip-reads :
      (b : Bool) (n : ℕ) (s : Stream B)
      → s.fails ≡ false
      → (if b then skip n s else s).fails ≡ false
  unfolding skip
  skip-reads true n s h = h
  skip-reads false n s h = h

  limit-reads :
      (b : Bool) (n : ℕ) (s : Stream B)
      → s.fails ≡ false
      → (if b then limit n s else s).fails ≡ false
  unfolding limit
  limit-reads true n s h = ap (λ f. f && ltb (length s.content) n) h
  limit-reads false n s h = h

and_false : (b c : Bool) → c ≡ false → (b && c) ≡ false
and_false true c h = h
and_false false c h = refl

data IsGood {B : Type 0} : Contents B → Type 0 where
  is_good : (s : Stream B) (c : ℕ) → IsSmooth s → IsGood (contents s c)

module _ {E B : Type 0} (srv : Server E B) (up : IsUp srv) where
  -- The storage's answer is a smooth stream or none.
  data IsPart : Option (Option (Stream B)) → Type 0 where
    is_nil : IsPart (some none)
    is_part : (s : Stream B) → IsSmooth s → IsPart (some (some s))

  part_or_error-IsPart :
      (e : E) (i : ℕ) (r : GetPart B)
      → r ≢ too_many_files
      → ((s : Stream B) → r ≡ opened s → IsSmooth s)
      → IsPart (part_or_error srv e i r).1
  unfolding part_or_error
  part_or_error-IsPart e i (opened s) n h = is_part s (h s refl)
  part_or_error-IsPart e i not_exist n h = is_nil
  part_or_error-IsPart e i too_many_files n h = absurd (n refl)
  part_or_error-IsPart e i other_error n h = is_nil

  get_part_from_storage-IsPart : (e : E) (i : ℕ) → IsPart (get_part_from_storage srv e i).1
  unfolding get_part_from_storage
  get_part_from_storage-IsPart e i =
      let e' = (srv.lookup e i).0 in
      part_or_error-IsPart _ i (srv.get_part e' i).1 (up.opens e' i) (up.stored e' i)

  get_upstream_reader-IsSmooth : (e : E) (a b : ℕ) → IsSmooth (get_upstream_reader srv e a b).1
  unfolding get_upstream_reader
  get_upstream_reader-IsSmooth e a b =
      let c : ((srv.next e a b).1.code == 206) ≡ true = ground (arith, up.partial e a b) in
      rw (up.readable e a b, c) (up.received e a b)

  rest_from_upstream-IsGood :
      (e : E) (l : List ℕ) (from : ℕ) → IsGood (rest_from_upstream srv e l from).1
  unfolding rest_from_upstream
  rest_from_upstream-IsGood e l from = is_good _ _ (get_upstream_reader-IsSmooth e _ _)

  IsPart-cases :
      (o : Option (Option (Stream B)))
      → IsPart o
      → (o ≡ some none) ⊎ ((s : Stream B) × (o ≡ some (some s)) × IsSmooth s)
  IsPart-cases _ is_nil = inl refl
  IsPart-cases _ (is_part s h) = inr (s, refl, h)

  multi-IsSmooth : (s t : Stream B) → IsSmooth s → IsSmooth t → IsSmooth (multi s t)
  unfolding multi
  multi-IsSmooth s t p q = rw p.reads (record { reads = q.reads; seeks = refl })

  up_to_part-IsGood : (e : E) (l : List ℕ) (from part : ℕ) → IsGood (up_to_part srv e l from part).1
  unfolding up_to_part
  up_to_part-IsGood e l from part =
      let r = get_part_from_storage srv e part in
      elim (IsPart-cases r.1 (get_part_from_storage-IsPart e part)) [
        | inl p ↦ rw (p, up_to_part) (rest_from_upstream-IsGood r.0 l from)
        | inr (s, p, h) ↦
            rw (p, up_to_part)
              (is_good _ _ (multi-IsSmooth _ s (get_upstream_reader-IsSmooth r.0 _ _) h))
      ]

  after_missing-IsGood : (e : E) (l : List ℕ) (from : ℕ) → IsGood (after_missing srv e l from).1
  unfolding after_missing
  after_missing-IsGood e l from =
      let parts = λ (l : List ℕ). srv.sort l in
      elim (Option-cases (srv.get_available_parts e).1) [
        | inl p ↦ absurd (up.lists e p)
        | inr (found, p) ↦
            elim (Bool-cases (
              ltb (search (length (parts found)) (is_ahead l from (parts found)))
                (length (parts found)))) [
                  | inl t ↦ rw (p, after_missing, t) (up_to_part-IsGood _ l from _)
                  | inr t ↦ rw (p, after_missing, t) (rest_from_upstream-IsGood _ l from)
                ]
      ]

  get_contents-IsGood : (e : E) (l : List ℕ) (from : ℕ) → IsGood (get_contents srv e l from).1
  unfolding get_contents
  get_contents-IsGood e l from =
      let i = get_or l from 0 in
      let r = get_part_from_storage srv e i in
      elim (IsPart-cases r.1 (get_part_from_storage-IsPart e i)) [
        | inl p ↦ rw (p, get_contents) (after_missing-IsGood r.0 l from)
        | inr (s, p, h) ↦ rw (p, get_contents) (is_good s 1 h)
      ]

  cut_to_range-reads :
      (start end i c : ℕ) (s : Stream B)
      → IsSmooth s
      → (cut_to_range srv start end i c s).fails ≡ false
  unfolding cut_to_range skip limit
  cut_to_range-reads start end i c s h =
      limit-reads (i + c == length (indexes srv start end)) _ _
        (skip-reads (is_skipped srv start end i) _ s h.reads)

  copy-stopped :
      (e : E) (sent : List B) (s : Stream B) → s.fails ≡ false → (copy srv e sent s).stopped ≡ false
  unfolding copy
  copy-stopped e sent s h = rw (up.delivers e s.content, copy) h

  send_contents-stopped :
      (start end : ℕ) (e : E) (i : ℕ) (sent : List B) (f : Contents B)
      → IsGood f
      → (send_contents srv start end e i sent f).1.stopped ≡ false
  unfolding send_contents
  send_contents-stopped start end e i sent _ (is_good s c h) =
      let k : (is_skipped srv start end i && s.seek_fails) ≡ false =
        and_false (is_skipped srv start end i) s.seek_fails h.seeks in
      rw k (
        copy-stopped e sent (cut_to_range srv start end i c s)
          (cut_to_range-reads start end i c s h))

  respond_loop-stopped :
      (start end f : ℕ) (e : E) (i : ℕ) (sent : List B) (r : Response E B)
      → respond_loop srv start end f e i sent ≡ some r
      → r.stopped ≡ false
  unfolding respond_loop
  respond_loop-stopped start end zero e i sent r =
      elim (Bool-cases (ltb i (length (indexes srv start end)))) [
        | inl t ↦ rw t (λ p. absurd (cc p))
        | inr t ↦ rw t (λ p. ap (λ x. x.stopped) (some-injective _ _ (sym p)))
      ]
  respond_loop-stopped start end (suc f) e i sent r =
      elim (Bool-cases (ltb i (length (indexes srv start end)))) [
        | inr t ↦ rw t (λ p. ap (λ x. x.stopped) (some-injective _ _ (sym p)))
        | inl t ↦
            let g = get_contents srv e (indexes srv start end) i in
            let k =
              send_contents-stopped start end g.0 i sent g.1
                (get_contents-IsGood e (indexes srv start end) i) in
            rw (t, k) (respond_loop-stopped start end f _ _ _ r)
      ]

-- If nothing on the way fails, the part numbers fit in 32 bits, the range is inside the object, and
-- the storage and the upstream hold true bytes of it, whichever parts the storage has, then with fuel
-- for each part what is sent is the range, no byte more or less.
pub lazily_respond-whole :
    {E B : Type 0} (srv : Server E B) (obj : List B)
    → IsFaithful srv obj
    → IsUp srv
    → (start end : ℕ) → start ≤ end
    → end < length obj
    → end / srv.part_size + 1 < 2 ^ 32
    → (f : ℕ) (e : E) → count_parts srv start end ≤ f
    → (r : Response E B) × (lazily_respond srv start end f e ≡ some r)
      × (r.sent ≡ take (end + 1 - start) (drop start obj))
      × (r.stopped ≡ false)
unfolding lazily_respond
lazily_respond-whole srv obj laws up start end order inside few f e fuel =
    let g = lazily_respond-IsAnswer srv obj laws start end order inside few f e fuel in
    let s = respond_loop-stopped srv up start end f e 0 [] g.0 g.1 in
    (g.0, g.1, g.2.sent ∙ ap (λ n. take n (drop start obj)) (g.2.whole s), s)
