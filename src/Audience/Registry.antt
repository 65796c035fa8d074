-- ===== src/Audience/Registry.antt =====
-- internal/audience/registry/registry.go: the attributes that a predicate may name. The registry is the
-- list of its definitions.
use citywalk.Prelude.{
  ℕ, ◌*◌, String, Bool, true, false, Option, none, some, List, [], ◌∷◌, str_eq, leb, Result, ok,
  err, ◌>>=◌, if◌then◌else◌,
}
use citywalk.Prelude.Int.{ℤ, pos, leb_ℤ}

pub data AttributeType : Type 0 where
  type_string : AttributeType
  type_number : AttributeType
  type_bool : AttributeType
  type_timestamp : AttributeType
  type_semver : AttributeType
  type_string_set : AttributeType
  unknown_type : String → AttributeType

pub data Source : Type 0 where
  channel_field : Source
  user_attribute : Source
  tag : Source
  event_aggregate : Source

-- `no_granularity` is the empty string.
pub data AggregateGranularity : Type 0 where
  no_granularity : AggregateGranularity
  hour : AggregateGranularity
  day : AggregateGranularity
  week : AggregateGranularity
  unknown_granularity : String → AggregateGranularity

pub record Definition : Type 0 where
  pub name : String
  pub kind : AttributeType
  pub source : Source
  pub confidential : Bool
  pub aggregate_granularity : AggregateGranularity
  pub aggregate_event_name : String
  pub aggregate_window_days : ℤ

pub data RegistryError : Type 0 where
  empty_name : RegistryError
  duplicate_name : String → RegistryError
  names_no_granularity : String → RegistryError
  names_no_event : String → RegistryError
  window_not_positive : String → RegistryError
  granularity_unknown : AggregateGranularity → RegistryError

-- The span of a bucket, in seconds.
unfoldable pub aggregate_granularity_bucket : AggregateGranularity → Option ℕ
aggregate_granularity_bucket no_granularity = none
aggregate_granularity_bucket hour = some 3600
aggregate_granularity_bucket day = some (24 * 3600)
aggregate_granularity_bucket week = some (7 * (24 * 3600))
aggregate_granularity_bucket (unknown_granularity g) = none

abbrev bucket_or : AggregateGranularity → Option ℕ → Result RegistryError ℕ
bucket_or g none = err (granularity_unknown g)
bucket_or g (some bucket) = ok bucket

unfoldable pub granularity_carries :
    AggregateGranularity → AggregateGranularity → Result RegistryError Bool
granularity_carries have want = do
  have_bucket ← bucket_or have (aggregate_granularity_bucket have)
  want_bucket ← bucket_or want (aggregate_granularity_bucket want)
  ok (leb have_bucket want_bucket)

abbrev pub is_aggregate : Source → Bool
is_aggregate event_aggregate = true
is_aggregate _ = false

abbrev is_no_granularity : AggregateGranularity → Bool
is_no_granularity no_granularity = true
is_no_granularity _ = false

unfoldable pub lookup : List Definition → String → Option Definition
lookup [] name = none
lookup (d ∷ defs) name = if str_eq d.name name then some d else lookup defs name

abbrev pub is_found : Option Definition → Bool
is_found none = false
is_found (some d) = true

-- The checks of the loop of `New` on one definition.
unfoldable pub check_definition : List Definition → Definition → Result RegistryError Definition
check_definition defs d =
    if str_eq d.name ""
    then err empty_name
    else if is_found (lookup defs d.name)
    then err (duplicate_name d.name)
    else if is_aggregate d.source
    then (if is_no_granularity d.aggregate_granularity
        then err (names_no_granularity d.name)
        else if str_eq d.aggregate_event_name ""
        then err (names_no_event d.name)
        else if leb_ℤ d.aggregate_window_days (pos 0)
        then err (window_not_positive d.name)
        else ok d)
    else ok d

-- The loop of `New`, behind the definitions that it has taken.
unfoldable pub new_from : List Definition → List Definition → Result RegistryError (List Definition)
new_from taken [] = ok taken
new_from taken (d ∷ defs) = do checked ← check_definition taken d; new_from (checked ∷ taken) defs

abbrev pub new : List Definition → Result RegistryError (List Definition)
new = new_from []
