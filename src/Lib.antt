-- ===== src/Lib.antt =====
-- citywalk: in-app messages. Campaigns are defined and saved, split into experiment arms, delivered
-- to channels as payloads, held back by caps, and reported on by the events that devices send back.
--
-- The parts, and the files that model them:
-- - internal/experiment/assign: Assign/Bucket (Bucket, Identity), Assign/RangeTable (NewRangeTable,
--   Reweight, Lookup), Assign/Assignment (Assign, InProjectHoldout).
-- - internal/governance/budget: Budget (the script, the effect of Remaining, RecordImpression,
--   CheckAndIncrement), Budget/Expiry (EXPIRE).
-- - internal/event: Event/Model (Event, Validate, the two-timestamp rule), Event/RateLimit
--   (Limiter), Event/Ingest (Accept, Record, appendToLog), Event/Hll (Sketch), Event/Rollup
--   (applyBatch), Event/Consumer (RunOnce, reconcileBudget, RollupRecomputeWorker.Work),
--   Event/LogConsumer (RunOnceFromLog).
-- - internal/definition: Definition/Model (the entities), Definition/Lifecycle (MessageState),
--   Definition/Validate (Validate).
-- - internal/delivery: Delivery/Payload (Entry, truncate, the variant filters), Delivery/Allocation
--   (allocateExperimentBuckets), Delivery/Variants (assignVariant), Delivery/Bundle
--   (assembleShared), Delivery/Cache (sharedBundleFor, InvalidateCampaign), Delivery/Overlay
--   (applyOverlay, Build), Delivery/Confirm (Confirm), Delivery/Changelog (Record, CurrentSeq,
--   Since), Delivery/Delta (computeDelta).
-- - internal/definition/store and internal/platform/connectserver: Delivery/Edits (UpdateState,
--   UpdateMessageState).
-- - internal/audience: Audience/Registry (the registry), Audience/SemVer (NormalizeSemVer, on
--   bytes), Audience/Expr (what is read of a CEL expression), Audience/Compile (sqlcompile),
--   Audience/Grammar (the expressions with an SQL form).
-- - internal/membership: Membership/Ordinal (Allocate, Retire, Lookup), Membership/Index (the
--   forward and the reverse index, and segments), Membership/Incremental (UpdateChannel),
--   Membership/Batch (Recompute).
--
-- The files named Scenarios hold runs and examples; the others hold the lemmas on the definitions
-- beside them, and Prelude what all share.
--
-- An event is accepted (Ingest) under the rate limit (RateLimit), with the checks of Model, and
-- lands in the log. The consumers take the log into the rollups (Rollup), whose reach sketches are
-- those of Hll, and fold impressions into the counters of Budget. Delta reads entries (Payload) and
-- the log of changes (Changelog). Build takes the bundle that channels of the same segments share
-- (Cache), which is assembled from the campaigns (Bundle), and lays the channel's own variants over
-- it (Overlay); an edit of a campaign (Edits) drops the bundles of its audience. The segments of a
-- channel come from the reverse index, which UpdateChannel and Recompute keep beside the forward
-- one. State is passed explicitly: a table of Postgres is a list or a function of its key, a Redis
-- key a function into Option, and a call returns its answer with the new state. Calls out to
-- Postgres and Redis succeed, but in Event/Ingest and Event/LogConsumer, where the model says for
-- each whether it does.
--
-- Numbers: Go's int and int64 are integers; the sums of range tables, of the weights of a save and
-- of the allocation of buckets wrap at 64 bits, and the clock offsets saturate; counters elsewhere
-- do not reach 2^63. Times are natural numbers. The budget's cap check compares an exact multiple of
-- 1 / seconds, where the source computes it in floats: at the edge of the cap the two can differ by
-- the rounding. The loop of the worker runs on fuel; one more than the number of pending events is
-- enough.
--
-- Parameters: JSON decoding of log records, Go's strings.ToLower and strings.Contains, the shape
-- check of media URLs, the lookup of a segment, Go's float64 with its `int` conversion and
-- math.Round, the JSON of a content document, the serialized bytes of a bitmap, the event log as a
-- test of whether it takes an event, time.Parse and, on native strings, NormalizeSemVer, the roaring
-- bitmaps with their documented behaviour, the evaluation of a predicate on a channel's attributes,
-- and whether the SQL of a predicate selects a channel. The order of a Go map's keys is that of some
-- list.
--
-- Not modelled: JSON encodings, HTTP and RPC servers, SQL stores, the evaluation of predicates by
-- CEL, the estimate of a sketch, the answer of Remaining, metrics, and the expiry of Redis keys but
-- those of the budget (Budget/Expiry).
pub mod Prelude
pub mod Assign
pub mod Budget
pub mod Event
pub mod Definition
pub mod Delivery
pub mod Audience
pub mod Membership
