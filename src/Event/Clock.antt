-- ===== src/Event/Clock.antt =====
-- The two-timestamp rule of internal/event/model/event.go.
use citywalk.Prelude.{ℕ, ◌+◌, ◌<◌, ◌≤◌, ◌≡◌, ◌↔◌, ◌⊎◌, true, arith}
use citywalk.Event.Model.{max_future_skew, max_past_skew, clock_skew_implausible, effective_time}

-- A device time is implausible exactly if it lies more than the tolerance ahead of the server's time
-- or more than the tolerance behind it: for all times, however far apart.
clock_skew_implausible_iff :
    (device server : ℕ)
    → (clock_skew_implausible device server ≡ true)
      ↔ ((server + max_future_skew < device) ⊎ (device + max_past_skew < server))
unfolding clock_skew_implausible
clock_skew_implausible_iff device server = (λ h. ground arith, λ h. ground arith)

-- The time that rollups count by is never further than the tolerances from the server's time; and it
-- is the device's own time wherever that lies within them.
pub effective_time_bounds :
    (device server : ℕ)
    → let t = effective_time device server in
      (t ≤ server + max_future_skew)
      × (server ≤ t + max_past_skew)
      × (device ≤ server + max_future_skew → server ≤ device + max_past_skew → t ≡ device)
unfolding effective_time
effective_time_bounds device server = (ground arith, ground arith, λ h k. ground arith)
