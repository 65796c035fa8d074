-- ===== src/Event/Consumer.antt =====
-- internal/event/consumer: one run of the Postgres consumer, one run of the log consumer, and the
-- scheduled worker that runs the first until nothing is left. The table events_log is the list of its
-- rows in the order of seq. A budget counter is given by its window in seconds, none for Go's nil.
use citywalk.Prelude.{
  ℕ, zero, suc, String, Option, none, some, List, [], ◌∷◌, str_eq, ◌==◌, ltb, length, take,
  if◌then◌else◌,
}
use citywalk.Event.Model.{kind_impression}
use citywalk.Event.Rollup.{StoredEvent, Rollups, apply_batch}
use citywalk.Budget.{Store, record_impression}

-- `event_consumer_offsets` by consumer name, 0 for a name without a row.
pub record Tables : Type 0 where
  pub log : List StoredEvent
  pub offsets : String → ℕ
  pub rollups : Rollups
  pub budget : Store

-- The rows that the WHERE clause of `fetchSince` keeps.
unfoldable pub since : ℕ → List StoredEvent → List StoredEvent
since last [] = []
since last (e ∷ log) = if ltb last e.seq then e ∷ since last log else since last log

abbrev pub fetch_since : ℕ → ℕ → List StoredEvent → List StoredEvent
fetch_since last limit log = take limit (since last log)

-- `events[len(events)-1].Seq`, or the old offset for no events.
abbrev pub last_seq : ℕ → List StoredEvent → ℕ
last_seq last [] = last
last_seq last (e ∷ events) = last_seq e.seq events

abbrev pub record_one : ℕ → StoredEvent → Store → Store
record_one seconds e store =
    if str_eq e.kind kind_impression
    then record_impression seconds e.channel_id e.device_time store
    else store

unfoldable pub reconcile_budget : Option ℕ → List StoredEvent → Store → Store
reconcile_budget none events store = store
reconcile_budget (some seconds) [] store = store
reconcile_budget (some seconds) (e ∷ events) store =
    reconcile_budget (some seconds) events (record_one seconds e store)

abbrev pub set_offset : String → ℕ → (String → ℕ) → String → ℕ
set_offset name seq offsets other = if str_eq other name then seq else offsets other

-- `RunOnce`, where no step fails: how many events it processed, and the tables after it.
unfoldable pub run_once : Option ℕ → String → ℕ → Tables → ℕ × Tables
run_once counter name limit w =
    let events = fetch_since (w.offsets name) limit w.log in
    if length events == 0 then (0, w) else (
      length events,
      record {
        log = w.log;
        offsets = set_offset name (last_seq (w.offsets name) events) w.offsets;
        rollups = apply_batch events w.rollups;
        budget = reconcile_budget counter events w.budget;
      },
    )

-- The loop of `RollupRecomputeWorker.Work`, none where `fuel` runs are not enough.
unfoldable pub work : ℕ → Option ℕ → String → ℕ → Tables → Option Tables
unfolding run_once
work zero counter name limit w = none
work (suc fuel) counter name limit w =
    let (processed, w') = run_once counter name limit w in
    let rest = work fuel counter name limit w' in if ltb processed limit then some w' else rest
