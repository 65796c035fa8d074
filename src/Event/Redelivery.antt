-- ===== src/Event/Redelivery.antt =====
-- A batch of the log that is delivered again after a run that failed, wherever it failed.
use citywalk.Prelude.{
  ℕ, String, ◌≡◌, refl, true, ◌⊎◌, ◌≢◌, Option, none, some, List, [], ◌∷◌, eq_iff, Result, ok, err,
  inl, inr, All, arith, contains, Bool-cases,
}
use citywalk.Event.Model.{Event}
use citywalk.Event.Rollup.{StoredEvent, Rollups, apply_batch}
use citywalk.Event.Replay.{event_ids, replay-batch}
use citywalk.Event.LogConsumer.{
  Error, Calls, LogTables, process, reconciled, reconcile_failed, with_events, run_once_from_log,
}

abbrev pub all_succeed : Calls
all_succeed = record {
  polls = true;
  begins = true;
  applies = true;
  commits = true;
  log_commits = true;
  reconciles = none;
}

contains-here : (s : String) (ts : List String) → contains s (s ∷ ts) ≡ true
contains-here s ts = rw ((eq_iff s s).1 refl)

contains-there :
    (s t : String) (ts : List String) → contains s ts ≡ true → contains s (t ∷ ts) ≡ true
contains-there s t ts h = ground (arith, h)

All-there :
    (t : String) (ids : List String) (events : List StoredEvent)
    → All (λ e. contains e.id ids ≡ true) events
    → All (λ e. contains e.id (t ∷ ids) ≡ true) events
All-there t ids [] a = tt
All-there t ids (e ∷ events) a = (contains-there e.id t ids a.0, All-there t ids events a.1)

own_ids : (events : List StoredEvent) → All (λ e. contains e.id (event_ids events) ≡ true) events
own_ids [] = tt
own_ids (e ∷ events) = (
  contains-here e.id (event_ids events),
  All-there e.id (event_ids events) events (own_ids events),
)

apply_batch-again :
    (events : List StoredEvent) (r : Rollups)
    → apply_batch events (apply_batch events r) ≡ apply_batch events r
apply_batch-again events r = replay-batch events events r (own_ids events)

reconciled-late :
    (counter k : Option ℕ) (n : ℕ) (events : List StoredEvent) (w : LogTables) (e : Error)
    → (reconciled counter k n events w).0 ≡ err e
    → e ≡ reconcile_failed
unfolding reconciled
reconciled-late counter none n events w e h = cc
reconciled-late counter (some k) n events w e h = cc

-- A run that fails before the last step leaves the tables as they were, or with the whole batch
-- applied to the rollups, and nothing else.
process-failed :
    (counter : Option ℕ) (calls : Calls) (n : ℕ) (events : List StoredEvent) (w : LogTables)
    (e : Error)
    → (process counter calls n events w).0 ≡ err e
    → e ≢ reconcile_failed
    → let w1 = (process counter calls n events w).1 in
      (w1 ≡ w) ⊎ (w1 ≡ record w { rollups = apply_batch events w.rollups })
unfolding process reconciled
process-failed counter calls n events w e failed early = elim (Bool-cases calls.begins) [
  | inr x ↦ rw x (inl refl)
  | inl x ↦ rw x (elim (Bool-cases calls.applies) [
    | inr y ↦ rw y (inl refl)
    | inl y ↦ rw y (elim (Bool-cases calls.commits) [
      | inr z ↦ rw z (inl refl)
      | inl z ↦ rw z (elim (Bool-cases calls.log_commits) [
        | inr l ↦ rw l (inr refl)
        | inl l ↦ absurd (
            early
              (reconciled-late counter calls.reconciles n events _ e (rw (x, y, z, l) at failed)))
      ])
    ])
  ])
]

process-again :
    (counter : Option ℕ) (n : ℕ) (events : List StoredEvent) (w : LogTables)
    → process counter all_succeed n events (record w { rollups = apply_batch events w.rollups })
      ≡ process counter all_succeed n events w
unfolding process reconciled
process-again counter n events w = rw (apply_batch-again events w.rollups)

with_events-again :
    (counter : Option ℕ) (calls : Calls) (n : ℕ) (decoded : Result Error (List StoredEvent))
    (w : LogTables) (e : Error)
    → (with_events counter calls n decoded w).0 ≡ err e
    → e ≢ reconcile_failed
    → with_events counter all_succeed n decoded (with_events counter calls n decoded w).1
      ≡ with_events counter all_succeed n decoded w
with_events-again counter calls n (err x) w e failed early = refl
with_events-again counter calls n (ok events) w e failed early =
    elim (process-failed counter calls n events w e failed early) [
      | inl same ↦ rw same
      | inr applied ↦ rw applied (process-again counter n events w)
    ]

-- Exactly once: after a run of the log consumer that failed, at any call but the budget's, the same
-- records delivered again to a run that succeeds give the same answer, and leave the same rollups,
-- budget and group offset, as if the failed run had never been.
pub run_once_from_log-redelivered :
    (decode : String → Option Event) (counter : Option ℕ) (calls : Calls) (records : List String)
    (w : LogTables) (e : Error)
    → (run_once_from_log decode counter calls records w).0 ≡ err e
    → e ≢ reconcile_failed
    → run_once_from_log decode counter all_succeed records
        (run_once_from_log decode counter calls records w).1
      ≡ run_once_from_log decode counter all_succeed records w
unfolding run_once_from_log
run_once_from_log-redelivered decode counter calls [] w e failed early =
    elim (Bool-cases calls.polls) [ inl polls ↦ rw polls | inr down ↦ rw down ]
run_once_from_log-redelivered decode counter calls (r ∷ records) w e failed early =
    elim (Bool-cases calls.polls) [
      | inl polls ↦
          simp polls (with_events-again counter calls _ _ w e (simp polls at failed) early)
      | inr down ↦ rw down
    ]
