-- ===== src/Event/Progress.antt =====
-- The scheduled worker takes every pending event once, in order, and leaves none.
use citywalk.Prelude.{
  ℕ, ◌≤◌, String, ◌≡◌, refl, sym, ap, ◌∙◌, Option, List, [], ◌∷◌, ◌++◌, ltb, ◌==◌, length, take,
  inl, inr, Bool-cases,
}
use citywalk.Event.Rollup.{StoredEvent, apply_batch}
use citywalk.Event.Consumer.{Tables, since, last_seq, reconcile_budget, set_offset, run_once}
use citywalk.Event.Pending.{since-old}

abbrev pub pending : String → Tables → List StoredEvent
pending name w = since (w.offsets name) w.log

-- The tables after a run that finds events.
abbrev advance : Option ℕ → String → ℕ → Tables → Tables
advance counter name limit w =
    let events = take limit (pending name w) in
    record {
      log = w.log;
      offsets = set_offset name (last_seq (w.offsets name) events) w.offsets;
      rollups = apply_batch events w.rollups;
      budget = reconcile_budget counter events w.budget;
    }

-- What the tables hold once everything pending is processed.
abbrev pub IsDrained : Option ℕ → String → Tables → Tables → Type 0
IsDrained counter name w w' =
    (w'.log ≡ w.log)
    × (w'.rollups ≡ apply_batch (pending name w) w.rollups)
    × (w'.budget ≡ reconcile_budget counter (pending name w) w.budget)
    × (pending name w' ≡ [])

since-hidden :
    (t : ℕ) (e : StoredEvent) (front after : List StoredEvent)
    → e.seq ≤ t
    → since t (front ++ e ∷ after) ≡ since t (front ++ after)
unfolding since
since-hidden t e [] after old = since-old t e after old
since-hidden t e (x ∷ front) after old = elim (Bool-cases (ltb t x.seq)) [
  | inl new ↦ rw (new, since-hidden t e front after old)
  | inr seen ↦ rw (seen, since-hidden t e front after old)
]

-- Two runs that agree but for the log they leave.
abbrev pub SameRun : ℕ × Tables → ℕ × Tables → Type 0
SameRun (n, w) (n', w') =
    (n ≡ n') × (w.rollups ≡ w'.rollups) × (w.budget ≡ w'.budget) × (w.offsets ≡ w'.offsets)

run_once-same_pending :
    (counter : Option ℕ) (name : String) (limit : ℕ) (w : Tables) (log : List StoredEvent)
    → since (w.offsets name) log ≡ since (w.offsets name) w.log
    → SameRun (run_once counter name limit (record w { log = log })) (run_once counter name limit w)
unfolding run_once
run_once-same_pending counter name limit w log h =
    elim (Bool-cases (length (take limit (since (w.offsets name) w.log)) == 0)) [
      | inl stop ↦ rw (h, stop) (refl, refl, refl, refl)
      | inr go ↦ rw (h, go) (refl, refl, refl, refl)
    ]

-- A row committed after the consumer's offset has passed its seq, as rows of concurrent transactions
-- can be, is in no later run: a run on the log with that row does what a run on the log without it
-- does.
pub run_once-late :
    (counter : Option ℕ) (name : String) (limit : ℕ) (w : Tables) (before after : List StoredEvent)
    (e : StoredEvent)
    → w.log ≡ before ++ after
    → e.seq ≤ w.offsets name
    → SameRun
        (run_once counter name limit (record w { log = before ++ e ∷ after }))
        (run_once counter name limit w)
run_once-late counter name limit w before after e split old =
    run_once-same_pending counter name limit w (before ++ e ∷ after)
      (since-hidden (w.offsets name) e before after old ∙ ap (since (w.offsets name)) (sym split))
