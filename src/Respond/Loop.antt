-- ===== src/Respond/Loop.antt =====
-- lazilyRespond: what is sent is the range.
use nedomi.Prelude.{
  ℕ, zero, suc, ◌+◌, ◌-◌, ◌*◌, ◌/◌, ◌^◌, ◌≤◌, ◌<◌, ◌≡◌, refl, ap, sym, ◌∙◌, true, false, Option,
  some, List, [], ◌++◌, ltb, if◌then◌else◌, ◌&&◌, length, arith, Bool-cases, inl, inr, Option-cases,
  drop, take, min, take-take, take-add, drop-drop,
}
use native.Mathlib.Nat.{mul-le-mul_right, div-add-mod'}
use nedomi.Respond.{
  Stream, Server, break_in_indexes, Contents, contents, failed, Response, copy, get_contents,
}
use nedomi.Respond.Pieces.{IsPiece}
use nedomi.Respond.Faithful.{IsFaithful}
use nedomi.Respond.Fetch.{IsFetched, is_failed, is_chunk, get_contents-IsFetched}
use nedomi.Respond.Cut.{
  first_part, count_parts, sent_before, cut_to_range-IsPiece, length-indexes, sent_before-count,
  first-count, sent_before-zero,
}
use nedomi.Respond.Lazily.{
  indexes, is_skipped, cut_to_range, send_contents, respond_loop, lazily_respond,
}

-- A beginning of the `n` bytes of the object from `from` on, and all of them if the handler did not
-- stop on an error.
pub record IsAnswer {E B : Type 0} (obj : List B) (from n : ℕ) (r : Response E B) : Type 0 where
  pub k : ℕ
  pub within : k ≤ n
  pub sent : r.sent ≡ take k (drop from obj)
  pub whole : r.stopped ≡ false → k ≡ n

module _ {E B : Type 0} (srv : Server E B) (obj : List B) (laws : IsFaithful srv obj)
    (start end : ℕ) (order : start ≤ end) (inside : end < length obj)
    (few : end / srv.part_size + 1 < 2 ^ 32) where
  copy-IsAnswer :
      (e : E) (n w : ℕ) (sent : List B) (s : Stream B)
      → sent ≡ take n (drop start obj)
      → IsPiece obj (start + n) w s
      → IsAnswer obj start (n + w) (copy srv e sent s)
  unfolding copy
  copy-IsAnswer e n w sent s h p =
      let joined : (j : ℕ)
          → take n (drop start obj) ++ take j (drop (start + n) obj)
            ≡ take (n + j) (drop start obj) =
        λ j.
          ap (λ l. take n (drop start obj) ++ take j l) (sym (drop-drop n start obj))
          ∙ sym (take-add n j (drop start obj)) in
      elim (Option-cases (srv.send e s.content).1) [
        | inl none_ ↦
            rw (none_, copy)
              (record {
                k = n + p.k;
                within = omega (arith, p.within);
                sent =
                    ap (λ l. l ++ s.content) h
                    ∙ ap (λ l. take n (drop start obj) ++ l) p.content
                    ∙ joined p.k;
                whole = λ f. omega (arith, p.whole f);
              })
        | inr (j, some_) ↦
            rw (some_, copy)
              (record {
                k = n + min j p.k;
                within = omega (arith, p.within);
                sent =
                    ap (λ l. l ++ take j s.content) h
                    ∙ ap (λ l. take n (drop start obj) ++ take j l) p.content
                    ∙ ap (λ l. take n (drop start obj) ++ l)
                        (take-take j p.k (drop (start + n) obj))
                    ∙ joined (min j p.k);
                whole = λ f. absurd (cc f);
              })
      ]

  begun :
      (e : E) (i : ℕ) {sent : List B}
      → sent ≡ take (sent_before srv start end i) (drop start obj)
      → IsAnswer obj start (end + 1 - start) (record { env = e; sent = sent; stopped = true })
  begun e i h = record {
    k = sent_before srv start end i;
    within = omega arith;
    sent = h;
    whole = λ f. absurd (cc f);
  }

  finished :
      (e : E) (i : ℕ) {sent : List B}
      → sent ≡ take (sent_before srv start end i) (drop start obj)
      → i ≡ count_parts srv start end
      → IsAnswer obj start (end + 1 - start) (record { env = e; sent = sent; stopped = false })
  finished e i h eq = record {
    k = end + 1 - start;
    within = omega arith;
    sent =
        h
        ∙ ap (λ n. take n (drop start obj))
            (ap (sent_before srv start end) eq
              ∙ sent_before-count srv obj laws start end order inside few);
    whole = λ f. refl;
  }

  sent_before-rises : (i c : ℕ) → sent_before srv start end i ≤ sent_before srv start end (i + c)
  sent_before-rises i c =
      let m : (start / srv.part_size + i) * srv.part_size
          ≤ (start / srv.part_size + (i + c)) * srv.part_size =
        mul-le-mul_right srv.part_size (omega arith) in
      omega (arith, m)

  -- What a round leaves: it stopped, or it sent the range up to the next index.
  data IsRound (i : ℕ) : ℕ × Response E B → Type 0 where
    is_stopped :
        (j : ℕ) (r : Response E B)
        → r.stopped ≡ true
        → IsAnswer obj start (end + 1 - start) r
        → IsRound i (j, r)
    goes_on :
        (j : ℕ) (r : Response E B)
        → r.stopped ≡ false
        → i < j
        → j ≤ count_parts srv start end
        → r.sent ≡ take (sent_before srv start end j) (drop start obj)
        → IsRound i (j, r)

  send_contents-IsRound :
      (e : E) (i : ℕ) (sent : List B) (f : Contents B)
      → sent ≡ take (sent_before srv start end i) (drop start obj)
      → IsFetched obj srv.part_size (first_part srv start end) (count_parts srv start end) i f
      → IsRound i (send_contents srv start end e i sent f)
  unfolding send_contents
  send_contents-IsRound e i sent failed h is_failed = is_stopped _ _ refl (begun e i h)
  send_contents-IsRound e i sent (contents s c) h (is_chunk _ _ pos le p) =
      elim (Bool-cases (is_skipped srv start end i && s.seek_fails)) [
        | inl t ↦ rw t (is_stopped _ _ refl (begun e i h))
        | inr t ↦
            let q = cut_to_range-IsPiece srv obj laws start end order inside few i c s pos le p in
            let r =
              copy-IsAnswer e (sent_before srv start end i)
                (sent_before srv start end (i + c) - sent_before srv start end i) sent
                (cut_to_range srv start end i c s) h q in
            elim (Bool-cases (copy srv e sent (cut_to_range srv start end i c s)).stopped) [
              | inl u ↦ rw t (
                  is_stopped _ _ u (record {
                    k = r.k;
                    within = omega (arith, r.within);
                    sent = r.sent;
                    whole = λ f. absurd (cc (u, f));
                  }))
              | inr u ↦ rw t (
                  goes_on _ _ u (omega arith) le (
                    r.sent
                    ∙ ap (λ n. take n (drop start obj))
                        (omega (arith, r.whole u, sent_before-rises i c))))
            ]
      ]

  -- That the loop ends from the index `i` on with a response.
  abbrev pub Ends : Option (Response E B) → Type 0
  Ends o = (r : Response E B) × (o ≡ some r) × IsAnswer obj start (end + 1 - start) r

  after_round :
      (f i : ℕ) (x : ℕ × Response E B)
      → IsRound i x
      → ((e : E) (j : ℕ) (sent : List B)
          → i < j
          → j ≤ count_parts srv start end
          → sent ≡ take (sent_before srv start end j) (drop start obj)
          → Ends (respond_loop srv start end f e j sent))
      → Ends (if x.1.stopped then some x.1 else respond_loop srv start end f x.1.env x.0 x.1.sent)
  after_round f i _ (is_stopped j r s a) ih =
      (r, ap (λ b. if b then some r else respond_loop srv start end f r.env j r.sent) s, a)
  after_round f i _ (goes_on j r s lt le h) ih =
      let g = ih r.env j r.sent lt le h in
      (
        g.0,
        ap (λ b. if b then some r else respond_loop srv start end f r.env j r.sent) s ∙ g.1,
        g.2,
      )

  fetched :
      (e : E) (i : ℕ)
      → i < count_parts srv start end
      → IsFetched obj srv.part_size
          (first_part srv start end)
          (count_parts srv start end)
          i
          (get_contents srv e (indexes srv start end) i).1
  unfolding break_in_indexes
  fetched e i lt =
      let sum = first-count srv obj laws start end order inside few in
      let last : first_part srv start end + count_parts srv start end - 1 ≡ end / srv.part_size =
        omega (arith, sum) in
      let low : (first_part srv start end + count_parts srv start end - 1) * srv.part_size
          ≡ end / srv.part_size * srv.part_size =
        ap (λ k. k * srv.part_size) last in
      get_contents-IsFetched srv obj laws (first_part srv start end) (count_parts srv start end)
        (omega (arith, sum)) (omega (arith, low, div-add-mod' end srv.part_size, inside)) e i lt

  -- The loop ends with the indexes, or before on an error.
  respond_loop-IsAnswer :
      (f : ℕ) (e : E) (i : ℕ) (sent : List B)
      → count_parts srv start end ≤ i + f
      → i ≤ count_parts srv start end
      → sent ≡ take (sent_before srv start end i) (drop start obj)
      → Ends (respond_loop srv start end f e i sent)
  unfolding respond_loop
  respond_loop-IsAnswer zero e i sent fuel le h =
      let over : ltb i (length (indexes srv start end)) ≡ false =
        ground (arith, length-indexes srv obj laws start end order inside few) in
      rw over (
        _,
        refl,
        finished e i h (ground (arith, length-indexes srv obj laws start end order inside few)),
      )
  respond_loop-IsAnswer (suc f) e i sent fuel le h =
      elim (Bool-cases (ltb i (length (indexes srv start end)))) [
        | inr t ↦ rw t (
          _,
          refl,
          finished e i h (ground (arith, length-indexes srv obj laws start end order inside few)),
        )
        | inl t ↦
            let lt : i < count_parts srv start end =
              ground (arith, length-indexes srv obj laws start end order inside few) in
            rw t (
              after_round f i _ (send_contents-IsRound _ i sent _ h (fetched e i lt))
                (λ e' j s l m. respond_loop-IsAnswer f e' j s (omega (arith, l, fuel)) m))
      ]

  -- The part numbers fit in 32 bits and the range is inside the object, of which the storage and the
  -- upstream hold true bytes: with fuel for each part, the handler ends; what it sent is a beginning
  -- of the range, byte by byte, and all of the range unless it stopped on an error.
  pub lazily_respond-IsAnswer :
      (f : ℕ) (e : E) → count_parts srv start end ≤ f → Ends (lazily_respond srv start end f e)
  unfolding lazily_respond
  lazily_respond-IsAnswer f e fuel = respond_loop-IsAnswer f e 0 [] (omega arith) (omega arith) (
      ap (λ n. take n (drop start obj))
        (sym (sent_before-zero srv obj laws start end order inside few)))
