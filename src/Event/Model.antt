-- ===== src/Event/Model.antt =====
-- internal/event/model/event.go. A kind and a suppression reason are Go strings, so a value outside
-- the closed sets can stand in them. A time is the number of nanoseconds since Go's zero time, so the
-- zero time is 0; a duration is an integer of nanoseconds. The properties of an event, which no code
-- modelled here reads, are left out.
use citywalk.Prelude.{
  ℕ, ◌*◌, ◌-◌, ◌^◌, String, Bool, not, ◌&&◌, ◌||◌, List, [], ◌∷◌, str_eq, contains, Result, ok, err,
  ◌==◌, if◌then◌else◌,
}
use citywalk.Prelude.Int.{ℤ, pos, negsuc, sub_ℕ, ltb_ℤ}

abbrev pub kind_impression : String
kind_impression = "impression"

abbrev pub kind_button_press : String
kind_button_press = "button_press"

abbrev pub kind_dismissal : String
kind_dismissal = "dismissal"

abbrev pub kind_auto_close : String
kind_auto_close = "auto_close"

abbrev pub kind_suppression : String
kind_suppression = "suppression"

abbrev pub kind_holdout_qualified : String
kind_holdout_qualified = "holdout_qualified"

abbrev pub kind_custom : String
kind_custom = "custom"

-- The kinds that name a variant.
abbrev pub variant_required : List String
variant_required = kind_impression ∷ kind_button_press ∷ kind_dismissal ∷ kind_auto_close ∷ []

abbrev pub impression_family : List String
impression_family = kind_suppression ∷ kind_holdout_qualified ∷ variant_required

abbrev pub known_kinds : List String
known_kinds = kind_custom ∷ impression_family

abbrev pub known_suppression_reasons : List String
known_suppression_reasons =
    "per_message_cap" ∷ "minimum_interval" ∷ "project_budget" ∷ "lost_on_priority"
    ∷ "display_condition_unmet" ∷ "cooldown" ∷ "cancellation_trigger" ∷ "expiry" ∷ []

pub record Event : Type 0 where
  pub id : String
  pub channel_id : String
  pub kind : String
  pub name : String
  pub device_time : ℕ
  pub server_time : ℕ
  pub message_id : String
  pub variant_id : String
  pub suppression_reason : String

pub data Invalid : Type 0 where
  no_id no_channel_id unknown_kind no_name no_device_time no_message_id no_variant_id : Invalid
  unknown_suppression_reason : Invalid

-- The checks of `Validate` behind the first five, on the fields of the impression family.
unfoldable pub validate_family : Event → Result Invalid (Unit {0})
validate_family e =
    if contains e.kind impression_family && str_eq e.message_id ""
    then err no_message_id
    else if contains e.kind variant_required && str_eq e.variant_id ""
    then err no_variant_id
    else if str_eq e.kind kind_suppression
        && not (contains e.suppression_reason known_suppression_reasons)
    then err unknown_suppression_reason
    else ok tt

unfoldable pub validate : Event → Result Invalid (Unit {0})
validate e =
    if str_eq e.id ""
    then err no_id
    else if str_eq e.channel_id ""
    then err no_channel_id
    else if not (contains e.kind known_kinds)
    then err unknown_kind
    else if str_eq e.kind kind_custom && str_eq e.name ""
    then err no_name
    else if e.device_time == 0
    then err no_device_time
    else validate_family e

unfoldable pub event_name : Event → String
event_name e = if str_eq e.kind kind_custom then e.name else e.kind

abbrev pub minute : ℕ
minute = 60000000000

abbrev pub max_future_skew : ℕ
max_future_skew = 5 * minute

abbrev pub max_past_skew : ℕ
max_past_skew = 30 * 24 * 60 * minute

-- `Sub` of two times saturates at the range of a 64-bit duration.
unfoldable pub saturate : ℤ → ℤ
saturate d =
    if ltb_ℤ (pos (2 ^ 63 - 1)) d
    then pos (2 ^ 63 - 1)
    else if ltb_ℤ d (negsuc (2 ^ 63 - 1))
    then negsuc (2 ^ 63 - 1)
    else d

unfoldable pub clock_offset : ℕ → ℕ → ℤ
unfolding saturate
clock_offset device_time server_time = saturate (sub_ℕ server_time device_time)

unfoldable pub clock_skew_implausible : ℕ → ℕ → Bool
unfolding clock_offset
clock_skew_implausible device_time server_time =
    ltb_ℤ (clock_offset device_time server_time) (negsuc (max_future_skew - 1))
    || ltb_ℤ (pos max_past_skew) (clock_offset device_time server_time)

unfoldable pub effective_time : ℕ → ℕ → ℕ
unfolding clock_skew_implausible
effective_time device_time server_time =
    if clock_skew_implausible device_time server_time then server_time else device_time
