-- ===== src/Event/LogConsumer.antt =====
-- internal/event/consumer/logconsumer.go: one run of the consumer of the log. JSON decoding is a
-- parameter; the batch that the broker hands out is an argument; each call that can fail has a flag
-- that says whether it succeeds.
use citywalk.Prelude.{
  ℕ, suc, ◌+◌, String, Bool, Option, none, some, List, [], ◌∷◌, length, take, Result, ok, err,
  if◌then◌else◌,
}
use citywalk.Budget.{Store}
use citywalk.Event.Model.{Event}
use citywalk.Event.Rollup.{StoredEvent, Rollups, apply_batch}
use citywalk.Event.Consumer.{reconcile_budget}

pub data Error : Type 0 where
  poll_failed : Error
  decode_failed : ℕ → Error
  begin_failed : Error
  apply_failed : Error
  commit_failed : Error
  log_commit_failed : Error
  reconcile_failed : Error

-- Which of the calls succeed; `reconciles` is none where every write of the budget does, else how many
-- events it has passed when one fails.
pub record Calls : Type 0 where
  pub polls : Bool
  pub begins : Bool
  pub applies : Bool
  pub commits : Bool
  pub log_commits : Bool
  pub reconciles : Option ℕ

-- `committed` counts the records that the group's offset has passed.
pub record LogTables : Type 0 where
  pub committed : ℕ
  pub rollups : Rollups
  pub budget : Store

unfoldable pub from_log_event : Event → StoredEvent
from_log_event e = record {
  id = e.id;
  seq = 0;
  channel_id = e.channel_id;
  kind = e.kind;
  name = e.name;
  device_time = e.device_time;
  server_time = e.server_time;
  message_id = e.message_id;
  variant_id = e.variant_id;
  suppression_reason = e.suppression_reason;
}

-- `reconcileBudget` and the return after it: a write of Redis that fails ends it with the error, after
-- both commits.
unfoldable pub reconciled :
    Option ℕ → Option ℕ → ℕ → List StoredEvent → LogTables → Result Error ℕ × LogTables
reconciled counter none n events w =
    (ok n, record w { budget = reconcile_budget counter events w.budget })
reconciled counter (some k) n events w =
    (err reconcile_failed, record w { budget = reconcile_budget counter (take k events) w.budget })

-- What `RunOnceFromLog` does with the decoded events of a batch of `n` records.
unfoldable pub process :
    Option ℕ → Calls → ℕ → List StoredEvent → LogTables → Result Error ℕ × LogTables
process counter calls n events w =
    let applied = record w { rollups = apply_batch events w.rollups } in
    let passed = record applied { committed = w.committed + n } in
    if calls.begins
    then (if calls.applies
        then (if calls.commits
            then (if calls.log_commits
                then reconciled counter calls.reconciles n events passed
                else (err log_commit_failed, applied))
            else (err commit_failed, w))
        else (err apply_failed, w))
    else (err begin_failed, w)

abbrev pub with_events :
    Option ℕ → Calls → ℕ → Result Error (List StoredEvent) → LogTables → Result Error ℕ × LogTables
with_events counter calls n (err e) w = (err e, w)
with_events counter calls n (ok events) w = process counter calls n events w

module _ (decode : String → Option Event) where
  -- The loop over the records; `i` is the index of the first of them.
  unfoldable pub decode_all : ℕ → List String → Result Error (List StoredEvent)
  decode_all i [] = ok []
  decode_all i (r ∷ records) = with_event (decode r) (decode_all (suc i) records)
    where
      with_event : Option Event → Result Error (List StoredEvent) → Result Error (List StoredEvent)
      with_event none rest = err (decode_failed i)
      with_event (some e) (ok events) = ok (from_log_event e ∷ events)
      with_event (some e) (err x) = err x

  -- `RunOnceFromLog`.
  unfoldable pub run_once_from_log :
      Option ℕ → Calls → List String → LogTables → Result Error ℕ × LogTables
  run_once_from_log counter calls [] w = if calls.polls then (ok 0, w) else (err poll_failed, w)
  run_once_from_log counter calls (r ∷ records) w =
      if calls.polls
      then with_events counter calls (length (r ∷ records)) (decode_all 0 (r ∷ records)) w
      else (err poll_failed, w)
