-- ===== src/Scheduler/Races.antt =====
-- What the order of the messages allows.
use nedomi.Prelude.{ℕ, ◌≤◌, ◌≡◌, refl, none, some, [], ◌∷◌, Option-cases, inl, inr, if_pos, arith}
use nedomi.Scheduler.{
  ExpireTime, Scheduler, new_scheduler, handle_set, handle_delete, handle_new_expire, handle_timer,
}
use nedomi.Scheduler.Steps.{
  System, new_system, send_time, send_callback, expire, Reaches, here, then_step,
}

module _ {K C : Type 0} (dec : Discrete K) (Asked : K → C → Type 0) where
  -- One AddEvent, whose time expires before its callback is sent.
  timed : K → C → ℕ → System K C
  timed key callback time = record {
    scheduler = handle_new_expire dec new_scheduler (record { key = key; expires = time });
    adding = (key, callback) ∷ [];
    cleaning = 0;
  }

  fired : K → C → ℕ → System K C
  fired key callback time = record {
    scheduler =
        handle_timer dec
          (handle_new_expire dec new_scheduler (record { key = key; expires = time }))
          (record { key = key; expires = time }) [];
    adding = (key, callback) ∷ [];
    cleaning = 0;
  }

  left_over : K → C → ℕ → System K C
  left_over key callback time = record {
    scheduler = handle_set dec (fired key callback time).scheduler key callback;
    adding = [];
    cleaning = 0;
  }

  -- For any callback that is added, a state can be reached from the start in which no message is on
  -- its way, the callback is kept for its key, nothing was started, and no time is left at which it
  -- would be.
  pub Reaches-left_over :
      (key : K) (callback : C) (time : ℕ)
      → Asked key callback
      → (s : System K C) × Reaches dec Asked new_system s
        × (s.scheduler.cache key ≡ some callback)
        × (s.scheduler.expires ≡ [])
        × (s.scheduler.started ≡ [])
        × (s.adding ≡ [])
        × (s.cleaning ≡ 0)
  unfolding timed fired left_over handle_timer handle_delete
  Reaches-left_over key callback time asked = (
    left_over key callback time,
    then_step _ (fired key callback time) _
        (then_step _ (timed key callback time) _
          (then_step _ new_system _ (here _) (send_time new_system key callback time asked))
          (expire (timed key callback time) [] [] (record { key = key; expires = time }) refl
            (omega arith, tt)))
        (send_callback (fired key callback time) [] [] key callback refl),
    if_pos (dec key key) refl (some callback) _,
    refl,
    refl,
    refl,
    refl,
  )

  -- A call of AddEvent with both of its messages.
  added : Scheduler K C → K → C → ℕ → Scheduler K C
  added s key callback time =
      handle_set dec (handle_new_expire dec s (record { key = key; expires = time })) key callback

  idle : Scheduler K C → System K C
  idle s = record { scheduler = s; adding = []; cleaning = 0 }

  added-Reaches :
      (s : Scheduler K C) (key : K) (callback : C) (time : ℕ)
      → Asked key callback
      → Reaches dec Asked new_system (idle s)
      → Reaches dec Asked new_system (idle (added s key callback time))
  unfolding added idle
  added-Reaches s key callback time asked r =
      let t : System K C = record {
        scheduler = handle_new_expire dec s (record { key = key; expires = time });
        adding = (key, callback) ∷ [];
        cleaning = 0;
      } in
      then_step _ t _ (then_step _ (idle s) t r (send_time (idle s) key callback time asked))
        (send_callback t [] [] key callback refl)

  handle_delete-some :
      (s : Scheduler K C) (key : K) (callback : C)
      → s.cache key ≡ some callback
      → (handle_delete dec s key).started ≡ callback ∷ s.started
  unfolding handle_delete
  handle_delete-some s key callback e = rw (e, handle_delete) refl

  handle_delete-cache : (s : Scheduler K C) (key : K) → (handle_delete dec s key).cache key ≡ none
  unfolding handle_delete
  handle_delete-cache s key = elim (Option-cases (s.cache key)) [
    | inl e ↦ rw (e, handle_delete) (if_pos (dec key key) refl none _)
    | inr (f, e) ↦ rw (e, handle_delete) (if_pos (dec key key) refl none _)
  ]

  -- For two callbacks that are added for one key, the second with a time that is not earlier, a
  -- state can be reached from the start in which the second one was started and is gone from the
  -- key, and its own time is still waited for: the time of the first call started it.
  pub Reaches-early :
      (key : K) (first second : C) (earlier later : ℕ)
      → Asked key first
      → Asked key second
      → earlier ≤ later
      → (s : System K C) × Reaches dec Asked new_system s
        × (s.scheduler.started ≡ second ∷ [])
        × (s.scheduler.cache key ≡ none)
        × (s.scheduler.expires ≡ record { key = key; expires = later } ∷ [])
  unfolding added idle handle_timer
  Reaches-early key first second earlier later a b le =
      let two = added (added new_scheduler key first earlier) key second later in
      let top : ExpireTime K = record { key = key; expires = earlier } in
      let kept : two.cache key ≡ some second = if_pos (dec key key) refl (some second) _ in
      (
        idle (handle_timer dec two top (record { key = key; expires = later } ∷ [])),
        then_step _ (idle two) _
            (added-Reaches _ key second later b
              (added-Reaches new_scheduler key first earlier a (here _)))
            (expire (idle two) (record { key = key; expires = later } ∷ []) [] top refl
              (le, (omega arith, tt))),
        handle_delete-some two key second kept,
        handle_delete-cache two key,
        refl,
      )
