-- ===== src/Scheduler/Tests.antt =====
-- Keys and callbacks that are numbers.
use nedomi.Prelude.{ℕ, ite, ◌≤◌, refl, ◌≡◌, none, some, [], ◌∷◌, arith, ℕ_discrete}
use nedomi.Scheduler.Steps.{
  System, new_system, send_time, send_callback, expire, Reaches, here, then_step,
}
use nedomi.Scheduler.{handle_set, handle_timer, handle_delete}
use nedomi.Scheduler.Once.{times, calls, places, Reaches-places}
use nedomi.Scheduler.Races.{Reaches-left_over, Reaches-early}

abbrev Asked : ℕ → ℕ → Type 0
Asked key callback = Unit

abbrev one_sent : System ℕ ℕ
one_sent = record {
  scheduler = record {
    cache = λ _. none;
    expires_dict = λ k. ite (ℕ_discrete k 1) (some 5) none;
    expires = record { key = 1; expires = 5 } ∷ [];
    started = [];
  };
  adding = (1, 7) ∷ [];
  cleaning = 0;
}

-- Callbacks are given under the key 1.
abbrev Only : ℕ → ℕ → Type 0
Only key callback = key ≡ 1

abbrev one_kept : System ℕ ℕ
one_kept = record {
  scheduler = handle_set ℕ_discrete one_sent.scheduler 1 7;
  adding = [];
  cleaning = 0;
}

abbrev one_started : System ℕ ℕ
one_started = record {
  scheduler = handle_timer ℕ_discrete one_kept.scheduler (record { key = 1; expires = 5 }) [];
  adding = [];
  cleaning = 0;
}

started : one_started.scheduler.started ≡ 7 ∷ []
unfolding handle_timer handle_delete ℕ_discrete
started = refl

run_of_one : Reaches ℕ_discrete Only new_system one_started
run_of_one =
    then_step new_system one_kept one_started
      (then_step new_system one_sent one_kept
        (then_step new_system new_system one_sent (here new_system)
          (send_time new_system 1 7 5 refl))
        (send_callback one_sent [] [] 1 7 refl))
      (expire one_kept [] [] (record { key = 1; expires = 5 }) refl (omega arith, tt))

Reaches-places_example :
    places ℕ_discrete ℕ_discrete Only 1 7 one_started
    ≤ times ℕ_discrete ℕ_discrete Only 1 7
        (calls ℕ_discrete ℕ_discrete Only 1 7 new_system one_started run_of_one)
Reaches-places_example =
    Reaches-places ℕ_discrete ℕ_discrete Only 1 7 (λ k e. e) one_started run_of_one

Reaches-left_over_example :
    (s : System ℕ ℕ) × Reaches ℕ_discrete Asked new_system s
    × (s.scheduler.cache 1 ≡ some 7)
    × (s.scheduler.expires ≡ [])
    × (s.scheduler.started ≡ [])
    × (s.adding ≡ [])
    × (s.cleaning ≡ 0)
Reaches-left_over_example = Reaches-left_over ℕ_discrete Asked 1 7 5 tt

Reaches-early_example :
    (s : System ℕ ℕ) × Reaches ℕ_discrete Asked new_system s
    × (s.scheduler.started ≡ 8 ∷ [])
    × (s.scheduler.cache 1 ≡ none)
    × (s.scheduler.expires ≡ record { key = 1; expires = 9 } ∷ [])
Reaches-early_example = Reaches-early ℕ_discrete Asked 1 7 8 5 9 tt tt (omega arith)
