-- ===== src/Event/Scenarios.antt =====
-- Runs and examples of the event pipeline.
use citywalk.Prelude.{
  ℕ, ◌+◌, ◌*◌, ◌^◌, ◌≤◌, String, ◌≡◌, ◌↔◌, refl, false, Option, none, some, List, [], ◌∷◌, ok, err,
  arith,
}
use citywalk.Event.Model.{
  Event, validate, validate_family, event_name, saturate, clock_offset, clock_skew_implausible,
}
use citywalk.Event.Validity.{IsWellFormed, validate_iff}
use citywalk.Event.RateLimit.{Limiter, Limits, window_index, increment, allow}
use citywalk.Event.Ceiling.{Submission, granted, granted-le-limit}
use citywalk.Event.Ingest.{
  calls_succeed, publish_fails, World, accept, scan, publish_valid, scan_one, append_to_log,
}
use citywalk.Event.Acceptance.{Answers, accept-Accounts}
use citywalk.Event.Dedup.{IsLog, accept-IsLog, accept_again}
use citywalk.Event.Hll.{empty, merge, add_all, merge-add_all-empty}
use citywalk.Event.Rollup.{StoredEvent, targeting, sketch_or_new, apply_batch, no_rollups}
use citywalk.Event.Exactness.{fresh, tally, reached}
use citywalk.Event.Replay.{replay-batch, rollups_exact}
use citywalk.Event.Consumer.{Tables, run_once}
use citywalk.Event.Progress.{SameRun, run_once-late}
use citywalk.Event.LogConsumer.{
  log_commit_failed, Calls, LogTables, run_once_from_log, process, decode_all,
}
use citywalk.Event.Redelivery.{all_succeed, run_once_from_log-redelivered}

-- A time in 2025, and a press of a button at that time.
abbrev noon : ℕ
noon = 63871000000 * 10 ^ 9

abbrev press : Event
press = record {
  id = "e1";
  channel_id = "ch";
  kind = "button_press";
  name = "";
  device_time = noon;
  server_time = noon;
  message_id = "m";
  variant_id = "v";
  suppression_reason = "";
}

abbrev limiter : Limiter
limiter = record { limit = 5; seconds = 60 }

abbrev no_limits : Limits
no_limits channel w = none

abbrev world : World
world = record { limits = no_limits; log = [] }

validate_iff_example : (validate press ≡ ok tt) ↔ IsWellFormed press
validate_iff_example = validate_iff press

abbrev submissions : List Submission
submissions =
    record { channel = "ch"; events = 3; now = noon }
    ∷ record { channel = "ch"; events = 3; now = noon }
    ∷ record { channel = "other"; events = 2; now = noon }
    ∷ []

granted-le-limit_example :
    granted limiter "ch" (window_index limiter noon) submissions no_limits ≤ 5
granted-le-limit_example =
    granted-le-limit limiter "ch" (window_index limiter noon) submissions no_limits refl

accept-Accounts_example :
    let (r, w') = accept calls_succeed limiter "ch" (press ∷ []) noon world in
    Answers calls_succeed (press ∷ []) noon world r w'
accept-Accounts_example =
    accept-Accounts calls_succeed limiter "ch" (press ∷ []) noon world (refl, tt)

accept-IsLog_example :
    IsLog (accept calls_succeed limiter "ch" (press ∷ press ∷ []) noon world).1.log
accept-IsLog_example =
    accept-IsLog calls_succeed limiter "ch" (press ∷ press ∷ []) noon world
      (record { once = tt; valid = tt })

-- The world after the press.
abbrev pressed : World
pressed = record {
  limits = (accept calls_succeed limiter "ch" (press ∷ []) noon world).1.limits;
  log = record press { name = "button_press" } ∷ [];
}

press-accepted : accept calls_succeed limiter "ch" (press ∷ []) noon world ≡ (
  ok (record {
    accepted = 1;
    rejected_invalid = 0;
    rejected_rate_limited = 0;
    clock_skew_flagged = 0;
  }),
  pressed,
)
unfolding accept scan publish_valid scan_one validate validate_family allow increment append_to_log
    clock_skew_implausible event_name saturate clock_offset
press-accepted = refl

accept_again_example :
    (accept publish_fails limiter "ch" (press ∷ []) (noon + 5) pressed).1.log ≡ pressed.log
accept_again_example =
    accept_again calls_succeed publish_fails limiter "ch" (press ∷ []) noon (noon + 5) world pressed
      (record {
        accepted = 1;
        rejected_invalid = 0;
        rejected_rate_limited = 0;
        clock_skew_flagged = 0;
      })
      (refl, tt) press-accepted refl

merge-add_all-empty_example :
    (merge (add_all ("a" ∷ []) empty) (add_all ("b" ∷ []) empty) ≡ add_all ("a" ∷ "b" ∷ []) empty)
    × (merge (add_all ("b" ∷ []) empty) (add_all ("a" ∷ []) empty) ≡ add_all ("a" ∷ "b" ∷ []) empty)
    × (merge (add_all ("a" ∷ []) empty) (add_all ("a" ∷ []) empty) ≡ add_all ("a" ∷ []) empty)
merge-add_all-empty_example = merge-add_all-empty ("a" ∷ []) ("b" ∷ [])

abbrev stored : String → ℕ → StoredEvent
stored id seq = record {
  id = id;
  seq = seq;
  channel_id = "ch";
  kind = "impression";
  name = "";
  device_time = noon;
  server_time = noon;
  message_id = "m";
  variant_id = "v";
  suppression_reason = "";
}

abbrev batch : List StoredEvent
batch = stored "e1" 1 ∷ stored "e2" 3 ∷ []

replay-batch_example :
    apply_batch (stored "e2" 9 ∷ []) (apply_batch batch no_rollups) ≡ apply_batch batch no_rollups
replay-batch_example = replay-batch batch (stored "e2" 9 ∷ []) no_rollups (refl, tt)

rollups_exact_example :
    let r = apply_batch batch no_rollups in
    (r.counts (targeting "ch" "impression" 739247)
      ≡ tally (targeting "ch" "impression" 739247) (fresh [] batch))
    × (sketch_or_new (r.reach "m" "v" 739247)
        ≡ add_all (reached "m" "v" 739247 (fresh [] batch)) empty)
rollups_exact_example =
    rollups_exact batch (targeting "ch" "impression" 739247) "m" "v" 739247 (λ e. cc)

abbrev tables : Tables
tables = record { log = batch; offsets = λ name. 0; rollups = no_rollups; budget = λ k. none }

abbrev ahead : Tables
ahead = record tables { offsets = λ name. 3 }

run_once-late_example :
    SameRun
      (run_once none "rollup" 10
        (record ahead { log = stored "e1" 1 ∷ stored "late" 2 ∷ stored "e2" 3 ∷ [] }))
      (run_once none "rollup" 10 ahead)
run_once-late_example =
    run_once-late none "rollup" 10 ahead (stored "e1" 1 ∷ []) (stored "e2" 3 ∷ []) (stored "late" 2)
      refl (omega arith)

abbrev decoder : String → Option Event
decoder s = some (record press { id = s })

abbrev log_tables : LogTables
log_tables = record { committed = 0; rollups = no_rollups; budget = λ k. none }

-- The offsets of the group are not committed.
abbrev offsets_fail : Calls
offsets_fail = record all_succeed { log_commits = false }

offsets_fail-run :
    (run_once_from_log decoder none offsets_fail ("e1" ∷ "e2" ∷ []) log_tables).0
    ≡ err log_commit_failed
unfolding run_once_from_log process decode_all
offsets_fail-run = refl

run_once_from_log-redelivered_example :
    run_once_from_log decoder none all_succeed
      ("e1" ∷ "e2" ∷ [])
      (run_once_from_log decoder none offsets_fail ("e1" ∷ "e2" ∷ []) log_tables).1
    ≡ run_once_from_log decoder none all_succeed ("e1" ∷ "e2" ∷ []) log_tables
run_once_from_log-redelivered_example =
    run_once_from_log-redelivered decoder none offsets_fail ("e1" ∷ "e2" ∷ []) log_tables
      log_commit_failed offsets_fail-run (λ e. cc)
