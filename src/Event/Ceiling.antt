-- ===== src/Event/Ceiling.antt =====
-- The ceiling of the rate limit, over any sequence of calls.
use citywalk.Prelude.{
  ℕ, ◌+◌, ◌≤◌, String, ◌≡◌, ◌↔◌, refl, Bool, true, false, ◌&&◌, none, some, List, [], ◌∷◌, ◌==◌,
  leb→le, inl, inr, str_eq, eq_iff, arith, Bool-cases, if◌then◌else◌,
}
use citywalk.Event.RateLimit.{
  Limiter, Counter, Limits, window_index, value_of, armed_of, increment, put, allow,
}

pub record Submission : Type 0 where
  pub channel : String
  pub events : ℕ
  pub now : ℕ

-- The submissions in order: the counters, and the number of events let through for a channel in a
-- window.
unfoldable pub granted : Limiter → String → ℕ → List Submission → Limits → ℕ
granted l channel w [] limits = 0
granted l channel w (s ∷ rest) limits =
    let (limits', allowed) = allow l s.channel s.events s.now limits in
    let later = granted l channel w rest limits' in
    if allowed && (str_eq s.channel channel && window_index l s.now == w)
    then s.events + later
    else later

put_self :
    (limits : Limits) (channel : String) (w : ℕ) (c : Counter)
    → put limits channel w c channel w ≡ some c
put_self limits channel w c = ground (arith, eq_iff channel channel)

abbrev mine : Limiter → String → ℕ → Submission → Bool
mine l channel w s = str_eq s.channel channel && window_index l s.now == w

put_other :
    (limits : Limits) (channel channel' : String) (w w' : ℕ) (c : Counter)
    → (str_eq channel channel' && w == w') ≡ false
    → put limits channel w c channel' w' ≡ limits channel' w'
put_other limits channel channel' w w' c h =
    ground (arith, eq_iff channel channel', eq_iff channel' channel)

-- What a call leaves for the channel and window that are watched.
allow-mine :
    (l : Limiter) (channel : String) (w : ℕ) (s : Submission) (limits : Limits)
    → mine l channel w s ≡ true
    → let (limits', allowed) = allow l s.channel s.events s.now limits in
      (value_of (limits' channel w) ≡ value_of (limits channel w) + s.events)
      × (allowed ≡ true → value_of (limits channel w) + s.events ≤ l.limit)
unfolding allow increment
allow-mine l channel w s limits h =
    let same_channel : s.channel ≡ channel = ground (arith, eq_iff s.channel channel, h) in
    let same_window : window_index l s.now ≡ w = ground (arith, h) in
    rw
      (
        ← same_channel,
        ← same_window,
        put_self limits s.channel (window_index l s.now)
            (increment (limits s.channel (window_index l s.now)) s.events),
      )
      (refl, leb→le _ _)

allow-other :
    (l : Limiter) (channel : String) (w : ℕ) (s : Submission) (limits : Limits)
    → mine l channel w s ≡ false
    → (allow l s.channel s.events s.now limits).0 channel w ≡ limits channel w
unfolding allow
allow-other l channel w s limits h = put_other limits s.channel channel (window_index l s.now) w _ h

granted-bound :
    (l : Limiter) (channel : String) (w : ℕ) (submissions : List Submission) (limits : Limits)
    (before : ℕ)
    → before ≤ value_of (limits channel w)
    → before ≤ l.limit
    → before + granted l channel w submissions limits ≤ l.limit
unfolding granted
granted-bound l channel w [] limits before low fits = omega arith
granted-bound l channel w (s ∷ rest) limits before low fits =
    let limits' = (allow l s.channel s.events s.now limits).0 in
    elim (Bool-cases (mine l channel w s)) [
      | inl own ↦
          let (more, room) = allow-mine l channel w s limits own in
          elim (Bool-cases (allow l s.channel s.events s.now limits).1) [
            | inl yes_ ↦
                rw (yes_, own)
                  (omega (
                    arith,
                    granted-bound l channel w rest limits' (before + s.events) (omega (arith, more))
                        (omega (arith, room yes_)),
                  ))
            | inr no_ ↦
                rw (no_) (granted-bound l channel w rest limits' before (omega (arith, more)) fits)
          ]
      | inr other ↦
          let same = allow-other l channel w s limits other in
          let rest_bound = granted-bound l channel w rest limits' before (rw same low) fits in
          ground (arith, rest_bound, other)
    ]

-- From no counter for a channel in a window, whatever submissions of whatever channels follow, in
-- whatever order: the batches that are let through for the channel in the window have together at
-- most as many events as the limit.
pub granted-le-limit :
    (l : Limiter) (channel : String) (w : ℕ) (submissions : List Submission) (limits : Limits)
    → limits channel w ≡ none
    → granted l channel w submissions limits ≤ l.limit
granted-le-limit l channel w submissions limits new =
    omega (arith, granted-bound l channel w submissions limits 0 (omega arith) (omega arith))

-- After a call the counter of its channel and window holds the events of all batches so far, whether
-- they were let through or not, and its expiry is armed if it was before or if there was no counter.
pub allow_lem :
    (l : Limiter) (channel : String) (n now : ℕ) (limits : Limits)
    → let old = limits channel (window_index l now) in
      let (limits', allowed) = allow l channel n now limits in
      let new = limits' channel (window_index l now) in
      (value_of new ≡ value_of old + n)
      × (value_of old ≡ 0 → armed_of new ≡ true)
      × (armed_of old ≡ true → armed_of new ≡ true)
      × ((allowed ≡ true) ↔ (value_of old + n ≤ l.limit))
unfolding allow increment
allow_lem l channel n now limits =
    rw
      (put_self limits channel (window_index l now)
        (increment (limits channel (window_index l now)) n))
      (refl, λ z. ground arith, λ a. ground arith, (λ h. leb→le _ _ h, λ h. ground arith))
