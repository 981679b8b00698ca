-- ===== src/Balancing/Fair.antt =====
-- Round robin hands out the addresses in turn.
use nedomi.Prelude.{
  ℕ, ◌+◌, ◌-◌, ◌%◌, ◌^◌, ◌<◌, ◌≡◌, refl, ap, sym, ◌∙◌, false, Option, some, List, [], ◌∷◌, ◌++◌,
  ◌==◌, length, arith, get_elem?, map, append_assoc, length-append,
}
use native.Mathlib.Nat.{mod-eq_of_lt}
use nedomi.Balancing.{
  UpstreamAddress, RoundRobin, round_robin_set, round_robin_get, round_robin_run,
}

get_elem?-append :
    {A : Type 0} (l : List A) (x : A) (r : List A) → get_elem? (l ++ x ∷ r) (length l) ≡ some x
get_elem?-append [] x r = refl
get_elem?-append (y ∷ l) x r = get_elem?-append l x r

-- One call, at the address `x`.
get_at :
    (before : List UpstreamAddress) (x : UpstreamAddress) (after : List UpstreamAddress)
    → length (before ++ x ∷ after) < 2 ^ 32
    → round_robin_get (record { buckets = before ++ x ∷ after; counter = length before })
      ≡ (record { buckets = before ++ x ∷ after; counter = length before + 1 }, some x)
unfolding round_robin_get
get_at before x after b =
    let n = length-append before (x ∷ after) in
    let ne : (length (before ++ x ∷ after) == 0) ≡ false = ground (arith, n) in
    let next : (length before + 1) % 2 ^ 32 ≡ length before + 1 = mod-eq_of_lt (omega (arith, n)) in
    let back : (length before + 1 + 2 ^ 32 - 1) % 2 ^ 32 ≡ length before = omega (arith, n) in
    let size : length (before ++ x ∷ after) % 2 ^ 32 ≡ length (before ++ x ∷ after) =
      mod-eq_of_lt b in
    let here : length before % length (before ++ x ∷ after) ≡ length before =
      mod-eq_of_lt (omega (arith, n)) in
    rw (ne, next, back, size, here, get_elem?-append before x after) refl

run_from :
    (before after : List UpstreamAddress)
    → length (before ++ after) < 2 ^ 32
    → (round_robin_run
        (record { buckets = before ++ after; counter = length before })
        (length after)).1
      ≡ map some after
unfolding round_robin_run
run_from before [] b = refl
run_from before (x ∷ after) b =
    let u = append_assoc before (x ∷ []) after in
    rw (get_at before x after b) (
      ap (λ l. some x ∷ l)
        (ap (λ l. from l (length before + 1)) (sym u)
          ∙ ap (λ c. from ((before ++ x ∷ []) ++ after) c) (sym (length-append before (x ∷ [])))
          ∙ run_from (before ++ x ∷ []) after (rw u b)))
  where
    from : List UpstreamAddress → ℕ → List (Option UpstreamAddress)
    from l c = (round_robin_run (record { buckets = l; counter = c }) (length after)).1

-- With fewer than 2 ^ 32 addresses, as many calls of Get as there are addresses after Set return
-- each of them once, in order.
pub round_robin_run-round_robin_set :
    (rr : RoundRobin) (buckets : List UpstreamAddress)
    → length buckets < 2 ^ 32
    → (round_robin_run (round_robin_set rr buckets) (length buckets)).1 ≡ map some buckets
unfolding round_robin_set
round_robin_run-round_robin_set rr buckets b = run_from [] buckets b
