-- ===== src/Scheduler/Once.antt =====
-- A callback is started no more often than it was given to AddEvent.
use nedomi.Prelude.{
  ℕ, ◌+◌, ◌≤◌, ◌≡◌, refl, ap, sym, ◌∙◌, Option, none, some, List, [], ◌∷◌, ◌++◌, ite, Option-cases,
  inl, inr, if_pos, if_neg, arith,
}
use nedomi.Scheduler.{Scheduler, handle_delete, handle_timer}
use nedomi.Scheduler.Steps.{
  System, new_system, Step, send_time, send_callback, clean_callbacks, clean_times, expire, Reaches,
  here, then_step,
}
use nedomi.Scheduler.Asked.{IsAsked, Reaches-IsAsked}

module _ {K C : Type 0} (dec : Discrete K) (dec_callback : Discrete C) (Asked : K → C → Type 0)
    (key : K) (callback : C) where
  -- 1 for the callback, and 0 for another one.
  unfoldable pub is_it : C → ℕ
  is_it c = ite (dec_callback callback c) 1 0

  -- How often the callback is in a list.
  unfoldable pub times : List C → ℕ
  unfolding is_it
  times [] = 0
  times (c ∷ l) = is_it c + times l

  -- How often its message is on the way.
  unfoldable pub sent : List (K × C) → ℕ
  unfolding is_it
  sent [] = 0
  sent (p ∷ l) = is_it p.1 + sent l

  -- Whether it is the callback that is kept.
  unfoldable pub held : Option C → ℕ
  unfolding is_it
  held none = 0
  held (some c) = is_it c

  -- The callbacks that a step, and those that the steps of a run, give to AddEvent.
  unfoldable pub asked_by : (s t : System K C) → Step dec Asked s t → List C
  asked_by s _ (send_time _ k c time a) = c ∷ []
  asked_by s _ (send_callback _ before after k c e) = []
  asked_by s _ (clean_callbacks _) = []
  asked_by s _ (clean_times _ n e) = []
  asked_by s _ (expire _ before after e q least) = []

  unfoldable pub calls : (s t : System K C) → Reaches dec Asked s t → List C
  unfolding asked_by
  calls s _ (here _) = []
  calls s u (then_step _ t _ r w) = asked_by t u w ++ calls s t r

  -- Where the callback is in a state.
  unfoldable pub places : System K C → ℕ
  unfolding times sent held
  places s = times s.scheduler.started + (sent s.adding + held (s.scheduler.cache key))

  sent-split :
      (l : List (K × C)) (p : K × C) (r : List (K × C))
      → sent (l ++ p ∷ r) ≡ is_it p.1 + sent (l ++ r)
  unfolding sent
  sent-split [] p r = refl
  sent-split (q ∷ l) p r = let e = sent-split l p r in omega (arith, e)

  times-append : (l r : List C) → times (l ++ r) ≡ times l + times r
  unfolding times
  times-append [] r = omega arith
  times-append (c ∷ l) r = let e = times-append l r in omega (arith, e)

  held-set :
      {P : Type 0} (d : Dec P) (c : C) (o : Option C) → held (ite d (some c) o) ≤ is_it c + held o
  unfolding held
  held-set (yes p) c o = omega arith
  held-set (no p) c o = omega arith

  held-unset : {P : Type 0} (d : Dec P) (o : Option C) → held (ite d none o) ≤ held o
  unfolding held
  held-unset (yes p) o = omega arith
  held-unset (no p) o = omega arith

  module _ (only : (k : K) → Asked k callback → k ≡ key) where
    delete-places :
        (s : Scheduler K C) (k : K)
        → ((k : K) (c : C) → s.cache k ≡ some c → Asked k c)
        → times (handle_delete dec s k).started + held ((handle_delete dec s k).cache key)
          ≤ times s.started + held (s.cache key)
    unfolding handle_delete times held is_it
    delete-places s k kept = elim (Option-cases (s.cache k)) [
      | inl e ↦ rw (e, handle_delete) (omega (arith, held-unset (dec key k) (s.cache key)))
      | inr (f, e) ↦
          rw (e, handle_delete)
            (elim (dec_callback callback f) [
              | yes p ↦
                  let same : k ≡ key = only k (kept k callback (e ∙ ap some (sym p))) in
                  let gone : held (ite (dec key k) none (s.cache key)) ≡ 0 =
                    ap held (if_pos (dec key k) (sym same) none (s.cache key)) in
                  let before : held (s.cache key) ≡ is_it f = ap held (ap s.cache (sym same) ∙ e) in
                  omega (arith, gone, before)
              | no p ↦
                  let other : is_it f ≡ 0 = if_neg (dec_callback callback f) p 1 0 in
                  omega (arith, other, held-unset (dec key k) (s.cache key))
            ])
    ]

    Step-places :
        (s t : System K C) (w : Step dec Asked s t)
        → IsAsked dec Asked s
        → places t ≤ times (asked_by s t w) + places s
    unfolding places asked_by times sent handle_timer
    Step-places s _ (send_time _ k c time a) v = omega arith
    Step-places s _ (send_callback _ before after k c e) v =
        let split = ap sent e ∙ sent-split before (k, c) after in
        omega (arith, split, held-set (dec key k) c (s.scheduler.cache key))
    Step-places s _ (clean_callbacks _) v = omega arith
    Step-places s _ (clean_times _ n e) v = omega arith
    Step-places s _ (expire _ before after e q least) v =
        let d = delete-places s.scheduler e.key v.kept in omega (arith, d)

    -- For a callback that is given to AddEvent under one key only: in every state that the scheduler
    -- and its callers reach from the start, however their messages interleave, the number of times
    -- that it was started, that it is on its way, and that it is kept for the key are together no more
    -- than the calls of AddEvent that gave it.
    pub Reaches-places :
        (s : System K C) (r : Reaches dec Asked new_system s)
        → places s ≤ times (calls new_system s r)
    unfolding places calls times sent held
    Reaches-places s r = go s r
      where
        go :
            (s : System K C) (r : Reaches dec Asked new_system s)
            → places s ≤ times (calls new_system s r)
        go s (here _) = omega arith
        go u (then_step _ t _ r w) =
            let v = Reaches-IsAsked dec Asked t r in
            omega (
              arith,
              go t r,
              Step-places t u w v,
              times-append (asked_by t u w) (calls new_system t r),
            )
