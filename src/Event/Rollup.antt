-- ===== src/Event/Rollup.antt =====
-- The rollup writes of internal/event/consumer/consumer.go. A table with a counter is a function of
-- its key; a day or an hour is the number of them since Go's zero time, in UTC.
use citywalk.Prelude.{
  ℕ, suc, ◌*◌, ◌/◌, String, Bool, false, ◌&&◌, Option, none, some, List, [], ◌∷◌, str_eq, ◌==◌,
  contains, if◌then◌else◌,
}
use citywalk.Event.Model.{
  minute, kind_impression, kind_custom, kind_suppression, variant_required, effective_time,
}
use citywalk.Event.Hll.{Sketch, empty, add_identity}

pub record StoredEvent : Type 0 where
  pub id : String
  pub seq : ℕ
  pub channel_id : String
  pub kind : String
  pub name : String
  pub device_time : ℕ
  pub server_time : ℕ
  pub message_id : String
  pub variant_id : String
  pub suppression_reason : String

unfoldable pub stored_name : StoredEvent → String
stored_name e = if str_eq e.kind kind_custom then e.name else e.kind

unfoldable pub bucket_time : StoredEvent → ℕ
bucket_time e = effective_time e.device_time e.server_time

-- `date_trunc` to the hour and the day.
abbrev pub hour_of : ℕ → ℕ
hour_of t = t / (60 * minute)

abbrev pub day_of : ℕ → ℕ
day_of t = t / (24 * 60 * minute)

abbrev pub campaign_rollup_kinds : List String
campaign_rollup_kinds = variant_required

-- A key of each of the four tables.
pub data Key : Type 0 where
  targeting : String → String → ℕ → Key
  campaign : String → String → ℕ → String → Key
  suppression : String → String → ℕ → Key

abbrev pub same_key : Key → Key → Bool
same_key (targeting c n d) (targeting c' n' d') = str_eq c c' && (str_eq n n' && d == d')
same_key (campaign m v h k) (campaign m' v' h' k') =
    str_eq m m' && (str_eq v v' && (h == h' && str_eq k k'))
same_key (suppression m r d) (suppression m' r' d') = str_eq m m' && (str_eq r r' && d == d')
same_key _ _ = false

-- The applied ids, the counters of the three counting tables, and the reach sketches by message,
-- variant and day.
pub record Rollups : Type 0 where
  pub applied : List String
  pub counts : Key → ℕ
  pub reach : String → String → ℕ → Option Sketch

abbrev pub targeting_key : StoredEvent → Key
targeting_key e = targeting e.channel_id (stored_name e) (day_of (bucket_time e))

abbrev pub campaign_key : StoredEvent → Key
campaign_key e = campaign e.message_id e.variant_id (hour_of (bucket_time e)) e.kind

abbrev pub suppression_key : StoredEvent → Key
suppression_key e = suppression e.message_id e.suppression_reason (day_of (bucket_time e))

-- `INSERT ... VALUES (..., 1) ON CONFLICT DO UPDATE SET count = count + 1`.
unfoldable pub count_up : Key → Rollups → Rollups
count_up k r = record r { counts = λ j. if same_key j k then suc (r.counts j) else r.counts j }

abbrev pub sketch_or_new : Option Sketch → Sketch
sketch_or_new none = empty
sketch_or_new (some s) = s

-- `applyReachSketch`: read, add the channel, write back.
unfoldable pub apply_reach_sketch : StoredEvent → Rollups → Rollups
apply_reach_sketch e r =
    let d = day_of (bucket_time e) in
    let s = add_identity e.channel_id (sketch_or_new (r.reach e.message_id e.variant_id d)) in
    record r {
      reach = λ m v d'.
          if str_eq m e.message_id && (str_eq v e.variant_id && d' == d)
          then some s
          else r.reach m v d';
    }

-- The writes behind the targeting rollup, for an event with a message.
unfoldable pub apply_message : StoredEvent → Rollups → Rollups
apply_message e r =
    if contains e.kind campaign_rollup_kinds
    then (let r' = count_up (campaign_key e) r in
        if str_eq e.kind kind_impression then apply_reach_sketch e r' else r')
    else if str_eq e.kind kind_suppression
    then count_up (suppression_key e) r
    else r

-- All rollup writes for an event that was not applied before.
unfoldable pub apply_event : StoredEvent → Rollups → Rollups
apply_event e r =
    let r' = count_up (targeting_key e) r in
    if str_eq e.message_id "" then r' else apply_message e r'

-- `markApplied`, and the loop of `applyBatch`.
abbrev pub mark : StoredEvent → Rollups → Rollups
mark e r = record r { applied = e.id ∷ r.applied }

unfoldable pub apply_one : StoredEvent → Rollups → Rollups
apply_one e r = if contains e.id r.applied then r else apply_event e (mark e r)

unfoldable pub apply_batch : List StoredEvent → Rollups → Rollups
apply_batch [] r = r
apply_batch (e ∷ events) r = apply_batch events (apply_one e r)

abbrev pub no_rollups : Rollups
no_rollups = record { applied = []; counts = λ k. 0; reach = λ m v d. none }
