-- ===== src/Budget/Scenarios.antt =====
-- Runs and examples of the budget counter.
use citywalk.Prelude.{◌≤◌, ◌≡◌, refl, none, some, [], ◌∷◌, arith, str_eq, if◌then◌else◌}
use citywalk.Budget.{key, Store}
use citywalk.Budget.History.{look, check, run, occurs}
use citywalk.Budget.Cap.{checks-capped}
use citywalk.Budget.Expiry.{Entries}
use citywalk.Budget.Lapse.{answers_at, answers_on, answers_at-answers_on}
use citywalk.Budget.Skew.{checks, future_window_blocks}

abbrev no_counters : Store
no_counters k = none

-- A window of an hour, and one that holds three impressions ahead of now.
abbrev ahead : Entries
ahead j =
    if str_eq j (key "ch")
    then some (record { hash = record { window = 9; count = 3; prev = 0 }; expires = 7200 })
    else none

checks-capped_example :
    occurs 0
      (run 3600 "ch"
        ((check 2, 100) ∷ (look 2, 150) ∷ (check 2, 200) ∷ (check 2, 300) ∷ [])
        no_counters
        []).1
    ≤ 2
checks-capped_example =
    checks-capped 3600 2 "ch" no_counters
      ((check 2, 100) ∷ (look 2, 150) ∷ (check 2, 200) ∷ (check 2, 300) ∷ []) 0 (omega arith) refl
      (omega arith, (omega arith, (omega arith, (omega arith, tt)))) (refl, (refl, (refl, tt))) 0

future_window_blocks_example : checks 3600 "ch" 3 (100 ∷ 3700 ∷ 10800 ∷ []) ahead ≡ 0
future_window_blocks_example =
    future_window_blocks 3600 "ch" 3 7200 ahead (record { window = 9; count = 3; prev = 0 })
      (100 ∷ 3700 ∷ 10800 ∷ []) (omega arith) refl (omega arith)
      ((omega arith, omega arith, (omega arith, omega arith, (omega arith, omega arith, tt))))

abbrev no_entries : Entries
no_entries k = none

answers_at-answers_on_example :
    answers_at 3600 "ch" 1 (100 ∷ 200 ∷ 3700 ∷ 20000 ∷ []) no_entries
    ≡ answers_on 3600 "ch" 1 (100 ∷ 200 ∷ 3700 ∷ 20000 ∷ []) no_counters
answers_at-answers_on_example =
    answers_at-answers_on 3600 "ch" 1 0 (100 ∷ 200 ∷ 3700 ∷ 20000 ∷ []) no_entries no_counters
      (omega arith) refl refl (omega arith, (omega arith, (omega arith, (omega arith, tt))))
