-- ===== src/Budget.antt =====
-- internal/governance/budget: the sliding-window counter of impressions. Times are Unix seconds, not
-- before 1970, and the window is a whole number of seconds. The weight of the previous bucket is the
-- fraction weight / seconds; estimates are kept as multiples of 1 / seconds, so they are exact, where
-- the source computes them in floats. Redis runs a script as one step: `script` is a function of the
-- stored hash. A store here holds the keys that have not expired, and Expiry adds when they do.
pub mod Steps
pub mod History
pub mod Cap
pub mod Expiry
pub mod Lapse
pub mod Skew
mod Scenarios
use Prim.Native.String.{◌++◌}
use citywalk.Prelude.{
  ℕ, zero, ◌+◌, ◌-◌, ◌*◌, ◌/◌, ◌%◌, String, Bool, true, false, ◌&&◌, Option, none, some, ltb,
  str_eq, ◌==◌, if◌then◌else◌,
}
use citywalk.Prelude.Int.{ℤ, pos, negsuc, pos_part, leb_ℤ}

-- The fields `window`, `count` and `prev` of the counter's Redis hash.
pub record Hash : Type 0 where
  pub window : ℕ
  pub count : ℕ
  pub prev : ℕ

-- The rollover of the script: lines 49 to 60 of budget.go.
unfoldable pub roll : Option Hash → ℕ → Hash
roll none window_idx = record { window = window_idx; count = 0; prev = 0 }
roll (some h) window_idx =
    if ltb h.window window_idx
    then record {
      window = window_idx;
      count = 0;
      prev = if h.window == window_idx - 1 then h.count else 0;
    }
    else h

-- The estimate in multiples of 1 / seconds.
abbrev pub estimate : ℕ → ℕ → Hash → ℕ
estimate seconds weight h = h.count * seconds + h.prev * weight

-- The cap check of the script; a negative cap skips it.
unfoldable pub exceeds : ℕ → ℕ → ℕ → ℤ → Hash → Bool
exceeds seconds weight increment limit h =
    leb_ℤ (pos 0) limit
    && ltb (pos_part limit * seconds) (estimate seconds weight h + increment * seconds)

-- The counting of the script, on the hash after the rollover, and whether it is allowed. The estimate that
-- the script returns besides is left out.
abbrev pub counted : Hash → ℕ → Bool → Hash × Bool
counted h increment allowed = (record h { count = h.count + increment }, allowed)

unfoldable pub script : ℕ → ℕ → ℕ → ℕ → ℤ → Option Hash → Hash × Bool
script seconds window_idx weight increment limit stored =
    let h = roll stored window_idx in
    if exceeds seconds weight increment limit h then counted h 0 false else counted h increment true

abbrev pub no_cap_check : ℤ
no_cap_check = negsuc 0

abbrev pub key : String → String
key identity = "citywalk:budget:" ++ identity

-- The index of the window of `now`, and the weight of the previous one.
unfoldable pub window_params : ℕ → ℕ → ℕ × ℕ
window_params now seconds = (now / seconds, seconds - now % seconds)

-- The counters in Redis, by their keys.
abbrev pub Store : Type 0
Store = String → Option Hash

abbrev pub write : Store → String → Hash → Store
write store k h j = if str_eq j k then some h else store j

-- `Counter.eval` on the keys that have not expired, for a counter with a window of `seconds`.
unfoldable pub eval : ℕ → String → ℕ → ℕ → ℤ → Store → Store × Bool
eval seconds identity now increment limit store =
    let (window_idx, weight) = window_params now seconds in
    let (h, answer) = script seconds window_idx weight increment limit (store (key identity)) in
    (write store (key identity) h, answer)

-- `Remaining`, of which only the counter that it leaves is modelled: its answer comes from a text of 14
-- digits of the estimate.
unfoldable pub remaining : ℕ → String → ℕ → Store → Store
unfolding eval
remaining seconds identity now store = (eval seconds identity now 0 no_cap_check store).0

unfoldable pub record_impression : ℕ → String → ℕ → Store → Store
unfolding eval
record_impression seconds identity now store = (eval seconds identity now 1 no_cap_check store).0

unfoldable pub check_and_increment : ℕ → String → ℤ → ℕ → Store → Store × Bool
unfolding eval
check_and_increment seconds identity limit now store = eval seconds identity now 1 limit store
