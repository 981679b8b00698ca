-- ===== src/Scheduler/Asked.antt =====
-- What the scheduler starts was asked for.
use nedomi.Prelude.{
  ◌≡◌, refl, sym, ◌∙◌, none, some, List, [], ◌∷◌, ◌++◌, ite, Option-cases, inl, inr, if_pos, if_neg,
}
use nedomi.ContainerList.Laws.{All}
use nedomi.Scheduler.{Scheduler, handle_delete, handle_timer}
use nedomi.Scheduler.Steps.{
  System, new_system, Step, send_time, send_callback, clean_callbacks, clean_times, expire, Reaches,
  here, then_step,
}

All-split :
    {A : Type 0} (P : A → Type 0) (l : List A) (x : A) (r : List A)
    → All P (l ++ x ∷ r)
    → P x × All P (l ++ r)
All-split P [] x r a = a
All-split P (y ∷ l) x r (p, a) = let (q, b) = All-split P l x r a in (q, (p, b))

module _ {K C : Type 0} (dec : Discrete K) (Asked : K → C → Type 0) where
  -- Every callback that is kept, on its way or started was given to AddEvent.
  pub record IsAsked (s : System K C) : Type 0 where
    pub kept : (k : K) (c : C) → s.scheduler.cache k ≡ some c → Asked k c
    pub sent : All (λ p. Asked p.0 p.1) s.adding
    pub started : All (λ c. (k : K) × Asked k c) s.scheduler.started

  pub delete-cache :
      (s : Scheduler K C) (key k : K)
      → (handle_delete dec s key).cache k ≡ ite (dec k key) none (s.cache k)
  unfolding handle_delete
  delete-cache s key k = elim (Option-cases (s.cache key)) [
    | inl e ↦ rw (e, handle_delete) refl
    | inr (f, e) ↦ rw (e, handle_delete) refl
  ]

  delete_kept :
      (s : Scheduler K C) (key k : K) (c : C)
      → (handle_delete dec s key).cache k ≡ some c
      → s.cache k ≡ some c
  delete_kept s key k c e = elim (dec k key) [
    | yes p ↦ absurd (cc (e, delete-cache s key k, if_pos (dec k key) p none (s.cache k)))
    | no p ↦ sym (delete-cache s key k ∙ if_neg (dec k key) p none (s.cache k)) ∙ e
  ]

  delete_started :
      (s : Scheduler K C) (key : K)
      → ((k : K) (c : C) → s.cache k ≡ some c → Asked k c)
      → All (λ c. (k : K) × Asked k c) s.started
      → All (λ c. (k : K) × Asked k c) (handle_delete dec s key).started
  unfolding handle_delete
  delete_started s key v a = elim (Option-cases (s.cache key)) [
    | inl e ↦ rw (e, handle_delete) a
    | inr (f, e) ↦ rw (e, handle_delete) ((key, v key f e), a)
  ]

  pub Step-IsAsked : (s t : System K C) → Step dec Asked s t → IsAsked s → IsAsked t
  unfolding handle_timer
  Step-IsAsked s _ (send_time _ key callback time a) v = record {
    kept = v.kept;
    sent = (a, v.sent);
    started = v.started;
  }
  Step-IsAsked s _ (send_callback _ before after key callback e) v =
      let (a, rest) =
        All-split (λ p. Asked p.0 p.1) before (key, callback) after (rw e at v.sent) in
      record {
        kept = λ k c q. elim (dec k key) [
          | yes p ↦
              let same : callback ≡ c =
                cc (sym (if_pos (dec k key) p (some callback) (s.scheduler.cache k)) ∙ q) in
              rw (p, ← same) a
          | no p ↦ v.kept k c (sym (if_neg (dec k key) p (some callback) (s.scheduler.cache k)) ∙ q)
        ];
        sent = rest;
        started = v.started;
      }
  Step-IsAsked s _ (clean_callbacks _) v = record {
    kept = λ k c q. absurd (cc q);
    sent = v.sent;
    started = v.started;
  }
  Step-IsAsked s _ (clean_times _ n e) v = record {
    kept = v.kept;
    sent = v.sent;
    started = v.started;
  }
  Step-IsAsked s _ (expire _ before after e q least) v = record {
    kept = λ k c p. v.kept k c (delete_kept s.scheduler e.key k c p);
    sent = v.sent;
    started = delete_started s.scheduler e.key v.kept v.started;
  }

  -- In every state that the scheduler and its callers reach from the start, however their messages
  -- interleave, every callback that is kept or was started was given to AddEvent, a kept one for
  -- its key.
  pub Reaches-IsAsked : (s : System K C) → Reaches dec Asked new_system s → IsAsked s
  Reaches-IsAsked s r =
      go new_system s r (record { kept = λ k c q. absurd (cc q); sent = tt; started = tt })
    where
      go : (s t : System K C) → Reaches dec Asked s t → IsAsked s → IsAsked t
      go s _ (here _) v = v
      go s u (then_step _ t _ r w) v = Step-IsAsked t u w (go s t r v)
