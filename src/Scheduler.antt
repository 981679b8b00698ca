-- ===== src/Scheduler.antt =====
-- The scheduler of expirations, storage/scheduler.go: two goroutines, one with the callbacks and one
-- with the times, that take messages from unbuffered channels.
pub mod Steps
pub mod Asked
pub mod Once
pub mod Races
mod Tests
use nedomi.Prelude.{ℕ, ◌≡◌, Bool, true, false, Option, none, some, List, [], ◌∷◌, ◌++◌, ite}

pub record ExpireTime (K : Type 0) : Type 0 where
  pub key : K
  pub expires : ℕ

-- What the goroutines keep: `cache` of storageHandler, `expires_dict` and `expires` of
-- expiresHandler. `expires` has the elements of the heap, in any order. `started` are the callbacks
-- that were started, the last one first.
pub record Scheduler (K C : Type 0) : Type 0 where
  pub cache : K → Option C
  pub expires_dict : K → Option ℕ
  pub expires : List (ExpireTime K)
  pub started : List C

-- NewScheduler
abbrev pub new_scheduler : {K C : Type 0} → Scheduler K C
new_scheduler = record { cache = λ _. none; expires_dict = λ _. none; expires = []; started = [] }

module _ {K C : Type 0} (dec : Discrete K) where
  -- storageHandler, a message of setRequest
  abbrev pub handle_set : Scheduler K C → K → C → Scheduler K C
  handle_set s key callback = record s { cache = λ k. ite (dec k key) (some callback) (s.cache k) }

  -- storageHandler, a message of cleanupRequest
  abbrev pub handle_cleanup : Scheduler K C → Scheduler K C
  handle_cleanup s = record s { cache = λ _. none }

  -- storageHandler, a message of containsRequest
  abbrev pub handle_contains : Scheduler K C → K → Bool
  handle_contains s key = elim (s.cache key) [ none ↦ false | some _ ↦ true ]

  -- storageHandler, a message of deleteRequest: a callback of the key is started in a goroutine
  unfoldable pub handle_delete : Scheduler K C → K → Scheduler K C
  handle_delete s key =
      let s' = record s { cache = λ k. ite (dec k key) none (s.cache k) } in
      elim (s.cache key) [ none ↦ s' | some f ↦ record s' { started = f ∷ s.started } ]

  -- expiresHandler, a message of newExpireTime
  abbrev pub handle_new_expire : Scheduler K C → ExpireTime K → Scheduler K C
  handle_new_expire s e = record s {
    expires = e ∷ s.expires;
    expires_dict = λ k. ite (dec k e.key) (some e.expires) (s.expires_dict k);
  }

  -- expiresHandler, a message of cleanupExpiresRequest
  abbrev pub handle_cleanup_expires : Scheduler K C → Scheduler K C
  handle_cleanup_expires s = record s { expires_dict = λ _. none; expires = [] }

  -- expiresHandler, the timer: `e` is the top of the heap, and `rest` the others.
  unfoldable pub handle_timer : Scheduler K C → ExpireTime K → List (ExpireTime K) → Scheduler K C
  unfolding handle_delete
  handle_timer s e rest =
      let s' = handle_delete s e.key in
      record s' { expires_dict = λ k. ite (dec k e.key) none (s.expires_dict k); expires = rest }
