-- ===== src/Delivery/Overlay.antt =====
-- `applyOverlay` and `recordHoldoutQualified` of internal/delivery/payload, and `Build`. The events that
-- reached the log are a list, and a publisher is a test of an event: whether the log takes it. The reverse
-- index and the table of channels are functions, and the instant of the next synchronization is given.
use citywalk.Prelude.{
  ℕ, String, Bool, Option, none, some, List, [], ◌∷◌, ◌++◌, str_eq, Result, ok, err, ◌>>=◌,
  if◌then◌else◌,
}
use citywalk.Prelude.Int.{ℤ}
use citywalk.Assign.RangeTable.{Error}
use citywalk.Delivery.Payload.{Entry, truncate}
use citywalk.Delivery.Variants.{BundleVariant, assign_variant}
use citywalk.Delivery.Bundle.{Outside, BundleError, StoredMessage, BundleMessage}
use citywalk.Delivery.Cache.{Redis, Segment, shared_bundle_for}

-- The event of a withheld message: its message, channel and time.
pub record HoldoutQualified : Type 0 where
  pub message_id : String
  pub channel_id : String
  pub device_time : ℕ

pub data PayloadError : Type 0 where
  unknown_channel : String → PayloadError
  no_bundle : BundleError → PayloadError
  not_assigned : String → Error → PayloadError
  not_recorded : String → PayloadError
  lost_variant : String → PayloadError

pub record Payload : Type 0 where
  pub entries : List Entry
  pub next_sync_at : ℕ

unfoldable pub find_bundle_variant : List BundleVariant → String → Option BundleVariant
find_bundle_variant [] id = none
find_bundle_variant (v ∷ variants) id =
    if str_eq v.id id then some v else find_bundle_variant variants id

module _ (o : Outside) (publish : HoldoutQualified → Bool) where
  abbrev pub entry_of : BundleMessage o → BundleVariant → Entry
  entry_of bm variant = record {
    message_id = bm.message_id;
    version = bm.version;
    variant_id = variant.id;
    schema_version = variant.schema_version;
    priority = bm.priority;
    content = variant.content;
    triggers = bm.triggers;
    display_conditions = bm.display_conditions;
    control_policy = bm.control_policy;
    expires_at = bm.expires_at;
  }

  abbrev pub withheld_event : BundleMessage o → String → ℕ → HoldoutQualified
  withheld_event bm identity now = record {
    message_id = bm.message_id;
    channel_id = identity;
    device_time = now;
  }

  -- An answer with the events that the log has then.
  abbrev pub Answer : Type 0 → Type 0
  Answer A = List HoldoutQualified × Result PayloadError A

  unfoldable pub record_holdout_qualified :
      BundleMessage o → String → ℕ → List HoldoutQualified → Answer (Option Entry)
  record_holdout_qualified bm identity now events =
      let event = withheld_event bm identity now in
      if publish event
      then (events ++ event ∷ [], ok none)
      else (events, err (not_recorded bm.message_id))

  abbrev pub found_entry :
      BundleMessage o → Option BundleVariant → Result PayloadError (Option Entry)
  found_entry bm none = err (lost_variant bm.message_id)
  found_entry bm (some found) = ok (some (entry_of bm found))

  -- What the assignment leads to.
  abbrev pub assigned_entry :
      BundleMessage o
      → String
      → ℕ
      → List HoldoutQualified
      → Result Error (Option BundleVariant)
      → Answer (Option Entry)
  assigned_entry bm identity now events (err e) = (events, err (not_assigned bm.message_id e))
  assigned_entry bm identity now events (ok none) = record_holdout_qualified bm identity now events
  assigned_entry bm identity now events (ok (some selected)) =
      (events, found_entry bm (find_bundle_variant bm.language_variants selected.id))

  abbrev pub overlay_of :
      BundleMessage o
      → String
      → ℕ
      → List HoldoutQualified
      → List BundleVariant
      → Answer (Option Entry)
  overlay_of bm identity now events [] = (events, ok (some (entry_of bm bm.fallback_variant)))
  overlay_of bm identity now events (v ∷ variants) =
      assigned_entry bm identity now events
        (assign_variant o.floats bm.holdout_fraction bm.experiment_salt (v ∷ variants) identity)

  unfoldable pub apply_overlay :
      BundleMessage o → String → ℕ → List HoldoutQualified → Answer (Option Entry)
  apply_overlay bm identity now events = overlay_of bm identity now events bm.language_variants

  abbrev pub with_entry : Option Entry → List Entry → List Entry
  with_entry none entries = entries
  with_entry (some e) entries = e ∷ entries

  abbrev pub then_entries :
      (List HoldoutQualified → Answer (List Entry)) → Answer (Option Entry) → Answer (List Entry)
  then_entries rest (events, err e) = (events, err e)
  then_entries rest (events, ok included) =
      let (after, entries) = rest events in (after, entries >>= λ es. ok (with_entry included es))

  -- The loop of `Build`.
  unfoldable pub overlay_all :
      String → ℕ → List (BundleMessage o) → List HoldoutQualified → Answer (List Entry)
  overlay_all identity now [] events = (events, ok [])
  overlay_all identity now (bm ∷ messages) events =
      then_entries (overlay_all identity now messages) (apply_overlay bm identity now events)

  abbrev pub finish : ℤ → ℕ → Answer (List Entry) → Answer Payload
  finish size_ceiling_bytes next_sync_at (events, entries) = (
    events,
    entries >>= λ es.
        ok (record { entries = (truncate es size_ceiling_bytes).0; next_sync_at = next_sync_at }),
  )

  abbrev pub after_bundle :
      String
      → ℕ
      → ℤ
      → ℕ
      → List HoldoutQualified
      → Redis o × Result BundleError (List (BundleMessage o))
      → Redis o × Answer Payload
  after_bundle channel_id now size_ceiling_bytes next_sync_at events (redis, err e) =
      (redis, (events, err (no_bundle e)))
  after_bundle channel_id now size_ceiling_bytes next_sync_at events (redis, ok b) =
      (redis, finish size_ceiling_bytes next_sync_at (overlay_all channel_id now b events))

  module _ (segments : List Segment) (reverse : String → List ℕ)
      (supported_schema_major : String → Option ℕ) where
    abbrev for_membership :
        List (StoredMessage o)
        → String
        → String
        → ℕ
        → ℤ
        → ℕ
        → List HoldoutQualified
        → Redis o
        → List ℕ
        → Option ℕ
        → Redis o × Answer Payload
    for_membership messages channel_id language now size_ceiling_bytes next_sync_at events redis []
          declared_major =
        (redis, (events, ok (record { entries = []; next_sync_at = next_sync_at })))
    for_membership messages channel_id language now size_ceiling_bytes next_sync_at events redis
          (s ∷ bm) none =
        (redis, (events, err (unknown_channel channel_id)))
    for_membership messages channel_id language now size_ceiling_bytes next_sync_at events redis
          (s ∷ bm) (some declared_major) =
        after_bundle channel_id now size_ceiling_bytes next_sync_at events
          (shared_bundle_for o segments messages (s ∷ bm) language declared_major now redis)

    unfoldable pub build :
        List (StoredMessage o)
        → String
        → String
        → ℕ
        → ℤ
        → ℕ
        → List HoldoutQualified
        → Redis o
        → Redis o × Answer Payload
    build messages channel_id language now size_ceiling_bytes next_sync_at events redis =
        for_membership messages channel_id language now size_ceiling_bytes next_sync_at events redis
          (reverse channel_id) (supported_schema_major channel_id)
