-- ===== src/Event/RateLimit.antt =====
-- internal/event/ratelimit: a fixed-window counter of events for each channel. The Redis key of a
-- channel and a window is the pair of them. Times are nanoseconds since Go's zero time, not before
-- 1970; the window is a whole number of seconds. A key whose expiry is armed outlives its window.
use citywalk.Prelude.{
  ℕ, ◌+◌, ◌-◌, ◌/◌, String, Bool, false, ◌&&◌, ◌||◌, Option, none, some, ◌==◌, leb, str_eq,
  if◌then◌else◌,
}

pub record Limiter : Type 0 where
  pub limit : ℕ
  pub seconds : ℕ

-- The value at a key, and whether its expiry is armed.
pub record Counter : Type 0 where
  pub value : ℕ
  pub armed : Bool

abbrev pub Limits : Type 0
Limits = String → ℕ → Option Counter

-- `now.Unix()`.
abbrev pub unix : ℕ → ℕ
unix now = now / 1000000000 - 62135596800

abbrev pub window_index : Limiter → ℕ → ℕ
window_index l now = unix now / l.seconds

abbrev pub value_of : Option Counter → ℕ
value_of none = 0
value_of (some c) = c.value

abbrev pub armed_of : Option Counter → Bool
armed_of none = false
armed_of (some c) = c.armed

-- `INCRBY`, and `EXPIRE` where the increment is the first.
unfoldable pub increment : Option Counter → ℕ → Counter
increment c n = record { value = value_of c + n; armed = armed_of c || value_of c + n == n }

abbrev pub put : Limits → String → ℕ → Counter → Limits
put limits channel w c channel' w' =
    if str_eq channel' channel && w' == w then some c else limits channel' w'

unfoldable pub allow : Limiter → String → ℕ → ℕ → Limits → Limits × Bool
allow l channel n now limits =
    let w = window_index l now in
    let c = increment (limits channel w) n in (put limits channel w c, leb c.value l.limit)
