-- ===== src/Event/Ingest.antt =====
-- internal/event/ingest: the acceptance of a batch. The log is the list of the rows of `events_log`
-- in the order of their insertion. An id is the
-- canonical text of its UUID. `Calls` says how the calls of Redis and Postgres go. The metrics are not
-- modelled.
use citywalk.Prelude.{
  ℕ, suc, String, Bool, true, false, not, List, [], ◌∷◌, ◌++◌, map, contains, str_eq, length,
  Result, ok, err, if◌then◌else◌,
}
use citywalk.Event.Model.{Event, Invalid, validate, event_name, clock_skew_implausible}
use citywalk.Event.RateLimit.{Limiter, Limits, allow}

-- `Result` of ingest.go.
pub record Tally : Type 0 where
  pub accepted : ℕ
  pub rejected_invalid : ℕ
  pub rejected_rate_limited : ℕ
  pub clock_skew_flagged : ℕ

abbrev pub no_tally : Tally
no_tally = record {
  accepted = 0;
  rejected_invalid = 0;
  rejected_rate_limited = 0;
  clock_skew_flagged = 0;
}

pub data Error : Type 0 where
  mixed_batch : String → Error
  invalid_record : Invalid → Error
  limiter_failed : Error
  publish_failed : Error

-- How the calls of one request go: they succeed; a call of the limiter fails, and leaves some counters; or
-- the insertion fails, as for an id that is no UUID or names no row. The insertions of a batch are one
-- transaction, so one that fails inserts nothing.
pub data Calls : Type 0 where
  calls_succeed : Calls
  limiter_fails : Limits → Calls
  publish_fails : Calls

-- The row that `appendToLog` writes for an event: the name is its event name, the server's time `now`.
abbrev pub row : ℕ → Event → Event
row now e = record e { name = event_name e; server_time = now }

abbrev pub ids : List Event → List String
ids = map (λ e. e.id)

-- `INSERT ... ON CONFLICT (id) DO NOTHING` of one event after another, and the number of new rows.
unfoldable pub append_to_log : List Event → ℕ → List Event → ℕ × List Event
append_to_log [] now log = (0, log)
append_to_log (e ∷ events) now log =
    if contains e.id (ids log)
    then append_to_log events now log
    else let (n, log') = append_to_log events now (log ++ row now e ∷ []) in (suc n, log')

-- `Validate` returns no error.
abbrev pub passes : Result Invalid (Unit {0}) → Bool
passes (ok _) = true
passes (err _) = false

abbrev pub is_valid : Event → Bool
is_valid e = passes (validate e)

-- One event of the loop of `Accept`, whose channel is the batch's.
unfoldable pub scan_one : ℕ → Event → Tally × List Event → Tally × List Event
scan_one now e (tally, valid) =
    if is_valid e
    then (
      if clock_skew_implausible e.device_time now
          then record tally { clock_skew_flagged = suc tally.clock_skew_flagged }
          else tally,
      valid ++ e ∷ [],
    )
    else (record tally { rejected_invalid = suc tally.rejected_invalid }, valid)

unfoldable pub scan :
    String → ℕ → List Event → Tally × List Event → Result Error (Tally × List Event)
scan channel now [] t = ok t
scan channel now (e ∷ batch) t =
    if not (str_eq e.channel_id channel)
    then err (mixed_batch e.id)
    else scan channel now batch (scan_one now e t)

-- What `Accept` shares with other requests: the rate limit's counters and the log.
pub record World : Type 0 where
  pub limits : Limits
  pub log : List Event

-- The answer to a batch of n valid events that the limiter refuses, or else `published`.
abbrev refused_or :
    Bool → ℕ → Tally → Limits → World → Result Error Tally × World → Result Error Tally × World
refused_or allowed n tally limits w published =
    if allowed
    then published
    else (ok (record tally { rejected_rate_limited = n }), record w { limits = limits })

-- The part of `Accept` behind its loop, with the publisher that writes to Postgres.
unfoldable pub publish_valid :
    Calls → Limiter → String → ℕ → Tally × List Event → World → Result Error Tally × World
publish_valid c l channel now (tally, []) w = (ok tally, w)
publish_valid calls_succeed l channel now (tally, e ∷ valid) w =
    let (limits', allowed) = allow l channel (length (e ∷ valid)) now w.limits in
    let (n, log') = append_to_log (e ∷ valid) now w.log in
    refused_or allowed (length (e ∷ valid)) tally limits' w
      (ok (record tally { accepted = n }), record { limits = limits'; log = log' })
publish_valid (limiter_fails limits) l channel now (tally, e ∷ valid) w =
    (err limiter_failed, record w { limits = limits })
publish_valid publish_fails l channel now (tally, e ∷ valid) w =
    let (limits', allowed) = allow l channel (length (e ∷ valid)) now w.limits in
    refused_or allowed (length (e ∷ valid)) tally limits' w
      (err publish_failed, record w { limits = limits' })

-- The return of `Accept` after its loop.
abbrev pub finish :
    Calls
    → Limiter
    → String
    → ℕ
    → World
    → Result Error (Tally × List Event)
    → Result Error Tally × World
finish c l channel now w (err x) = (err x, w)
finish c l channel now w (ok t) = publish_valid c l channel now t w

unfoldable pub accept :
    Calls → Limiter → String → List Event → ℕ → World → Result Error Tally × World
accept c l channel batch now w = finish c l channel now w (scan channel now batch (no_tally, []))

-- `Publish` of `Record`'s event, for which there is no limiter.
abbrev published : Calls → Event → ℕ → List Event → Result Error (Unit {0}) × List Event
published publish_fails e now log = (err publish_failed, log)
published _ e now log = (ok tt, (append_to_log (e ∷ []) now log).1)

-- `Record`, with the same publisher.
unfoldable pub record_event : Calls → Event → ℕ → List Event → Result Error (Unit {0}) × List Event
record_event c e now log = elim (validate e) [
  | err x ↦ (err (invalid_record x), log)
  | ok _ ↦ published c e now log
]
