-- ===== src/Scheduler/Steps.antt =====
-- The steps of the scheduler and its callers. AddEvent and Cleanup send two messages each, and
-- other steps may come between them.
use nedomi.Prelude.{ℕ, ◌+◌, ◌≤◌, ◌≡◌, List, [], ◌∷◌, ◌++◌}
use nedomi.ContainerList.Laws.{All}
use nedomi.Scheduler.{
  ExpireTime, Scheduler, new_scheduler, handle_set, handle_cleanup, handle_new_expire,
  handle_cleanup_expires, handle_timer,
}

-- `adding` are the calls of AddEvent that have sent the time and not yet the callback, and
-- `cleaning` counts the calls of Cleanup that have sent their first message only.
pub record System (K C : Type 0) : Type 0 where
  pub scheduler : Scheduler K C
  pub adding : List (K × C)
  pub cleaning : ℕ

abbrev pub new_system : {K C : Type 0} → System K C
new_system = record { scheduler = new_scheduler; adding = []; cleaning = 0 }

-- `Asked key callback`: somebody calls AddEvent with them.
pub data Step {K C : Type 0} (dec : Discrete K) (Asked : K → C → Type 0)
    : System K C → System K C → Type 0 where
  send_time :
      (s : System K C) (key : K) (callback : C) (time : ℕ)
      → Asked key callback
      → Step dec Asked s (record {
        scheduler = handle_new_expire dec s.scheduler (record { key = key; expires = time });
        adding = (key, callback) ∷ s.adding;
        cleaning = s.cleaning;
      })
  send_callback :
      (s : System K C) (before after : List (K × C)) (key : K) (callback : C)
      → s.adding ≡ before ++ (key, callback) ∷ after
      → Step dec Asked s (record {
        scheduler = handle_set dec s.scheduler key callback;
        adding = before ++ after;
        cleaning = s.cleaning;
      })
  clean_callbacks :
      (s : System K C)
      → Step dec Asked s (record {
        scheduler = handle_cleanup dec s.scheduler;
        adding = s.adding;
        cleaning = s.cleaning + 1;
      })
  clean_times :
      (s : System K C) (n : ℕ)
      → s.cleaning ≡ n + 1
      → Step dec Asked s (record {
        scheduler = handle_cleanup_expires dec s.scheduler;
        adding = s.adding;
        cleaning = n;
      })
  expire :
      (s : System K C) (before after : List (ExpireTime K)) (e : ExpireTime K)
      → s.scheduler.expires ≡ before ++ e ∷ after
      → All (λ x. e.expires ≤ x.expires) s.scheduler.expires
      → Step dec Asked s (record {
        scheduler = handle_timer dec s.scheduler e (before ++ after);
        adding = s.adding;
        cleaning = s.cleaning;
      })

pub data Reaches {K C : Type 0} (dec : Discrete K) (Asked : K → C → Type 0)
    : System K C → System K C → Type 0 where
  here : (s : System K C) → Reaches dec Asked s s
  then_step :
      (s t u : System K C) → Reaches dec Asked s t → Step dec Asked t u → Reaches dec Asked s u
