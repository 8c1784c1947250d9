-- ===== src/Sync/Backoff.antt =====
-- `Backoff` of sync.rs. Instants are seconds.
use solstone_tmux.Base.{
  ℕ, zero, suc, ◌+◌, ◌-◌, min, ◌≡◌, refl, List, [], ◌∷◌, Option, none, some, length, arith, ap, sym,
  ◌∙◌,
}

pub record Backoff : Type 0 where
  pub next_delay : ℕ
  pub deadline : Option ℕ

-- `RETRY_DELAYS`
abbrev pub retry_delays : List ℕ
retry_delays = 5 ∷ 30 ∷ 120 ∷ 300 ∷ []

abbrev pub nth : List ℕ → ℕ → Option ℕ
nth [] n = none
nth (x ∷ xs) zero = some x
nth (x ∷ xs) (suc n) = nth xs n

unfoldable pub new_backoff : Backoff
new_backoff = record { next_delay = 0; deadline = none }

unfoldable pub successful_operation : Backoff → Backoff
successful_operation b = record { next_delay = 0; deadline = none }

-- `none` is the panic of an index out of bounds.
unfoldable pub failed_operation : ℕ → Backoff → Option Backoff
failed_operation now b = elim (nth retry_delays b.next_delay) [
  | none ↦ none
  | some delay ↦ some (record {
    next_delay = min (b.next_delay + 1) (length retry_delays - 1);
    deadline = some (now + delay);
  })
]

unfoldable pub deadline_reached : Backoff → Backoff
deadline_reached b = record b { deadline = none }

-- What happens to a backoff, and when.
pub data Event : Type 0 where
  success reached : Event
  failure : ℕ → Event

abbrev and_then : Option Backoff → (Backoff → Option Backoff) → Option Backoff
and_then none f = none
and_then (some b) f = f b

-- The latest event is the first of the list.
unfoldable pub run : List Event → Option Backoff
run [] = some new_backoff
run (success ∷ before) = and_then (run before) λ b. some (successful_operation b)
run (reached ∷ before) = and_then (run before) λ b. some (deadline_reached b)
run (failure now ∷ before) = and_then (run before) (failed_operation now)

-- The failures since the last success.
abbrev pub failures : List Event → ℕ
failures [] = 0
failures (success ∷ before) = 0
failures (reached ∷ before) = failures before
failures (failure now ∷ before) = suc (failures before)

-- The seconds to wait after that many failures before this one.
abbrev pub delay_after : ℕ → ℕ
delay_after zero = 5
delay_after (suc zero) = 30
delay_after (suc (suc zero)) = 120
delay_after (suc (suc (suc n))) = 300

abbrev pub deadline_of : List Event → Option ℕ
deadline_of [] = none
deadline_of (success ∷ before) = none
deadline_of (reached ∷ before) = none
deadline_of (failure now ∷ before) = some (now + delay_after (failures before))

abbrev at : ℕ → Option ℕ → Backoff
at n deadline = record { next_delay = n; deadline = deadline }

failed_operation-at :
    (n now : ℕ) (d : Option ℕ)
    → failed_operation now (at (min n 3) d) ≡ some (at (min (suc n) 3) (some (now + delay_after n)))
unfolding failed_operation
failed_operation-at zero now d = refl
failed_operation-at (suc zero) now d = refl
failed_operation-at (suc (suc zero)) now d = refl
failed_operation-at (suc (suc (suc n))) now d =
    let e : min (suc (suc (suc n))) 3 ≡ 3 = omega arith in
    let f : min (suc (suc (suc (suc n)))) 3 ≡ 3 = omega arith in
    ap (λ k. failed_operation now (at k d)) e ∙ sym (ap (λ k. some (at k (some (now + 300)))) f)

-- After any run of events, no index is out of bounds, and the backoff waits as the schedule says: a
-- failure sets its deadline 5, 30, 120 or 300 seconds ahead, by the number of failures since the last
-- success, and stays at 300 from the fourth on; a success or a deadline that is reached clears it.
pub run_lem :
    (events : List Event)
    → run events
      ≡ some (record { next_delay = min (failures events) 3; deadline = deadline_of events })
unfolding run failed_operation new_backoff successful_operation deadline_reached
run_lem [] = refl
run_lem (success ∷ before) =
    ap (λ o. and_then o λ b. some (successful_operation b)) (run_lem before)
run_lem (reached ∷ before) = ap (λ o. and_then o λ b. some (deadline_reached b)) (run_lem before)
run_lem (failure now ∷ before) =
    ap (λ o. and_then o (failed_operation now)) (run_lem before)
    ∙ failed_operation-at (failures before) now (deadline_of before)
