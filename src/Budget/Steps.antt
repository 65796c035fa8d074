-- ===== src/Budget/Steps.antt =====
-- One call on the counter of one identity, as a step of its hash.
use text.Mathlib.TextLemmas.{append_cancel_left}
use citywalk.Prelude.{
  ℕ, ◌+◌, ◌*◌, ◌≤◌, String, ◌≡◌, ◌≢◌, refl, Bool, true, false, Option, none, some, eq_iff, arith,
}
use citywalk.Prelude.Int.{pos}
use citywalk.Budget.{
  Hash, exceeds, counted, Store, roll, estimate, script, no_cap_check, key, window_params, write,
  remaining, record_impression, check_and_increment,
}

-- The hash as a call at `window_idx` sees it.
abbrev pub seen : Store → String → ℕ → Hash
seen store identity window_idx = roll (store (key identity)) window_idx

-- Whether one more impression stays within the cap, in whole numbers.
abbrev pub Room : ℕ → ℕ → ℕ → Hash → Type 0
Room seconds weight limit h = estimate seconds weight h + seconds ≤ limit * seconds

pub key-injective : (a b : String) → key a ≡ key b → a ≡ b
key-injective a b e = append_cancel_left "citywalk:budget:" a b e

abbrev pub bumped : Hash → Hash
bumped h = record h { count = h.count + 1 }

module _ (seconds weight : ℕ) (h : Hash) where
  exceeds-Room :
      (limit : ℕ) → Room seconds weight limit h → exceeds seconds weight 1 (pos limit) h ≡ false
  unfolding exceeds
  exceeds-Room limit room = ground arith

  exceeds-full :
      (limit : ℕ) → ¬ Room seconds weight limit h → exceeds seconds weight 1 (pos limit) h ≡ true
  unfolding exceeds
  exceeds-full limit full = ground arith

  exceeds-no_cap : (increment : ℕ) → exceeds seconds weight increment no_cap_check h ≡ false
  unfolding exceeds
  exceeds-no_cap increment = refl

module _ (seconds weight idx : ℕ) (stored : Option Hash) where
  -- With a cap the script counts the impression exactly where there is room for it.
  pub script-Room :
      (limit : ℕ)
      → Room seconds weight limit (roll stored idx)
      → script seconds idx weight 1 (pos limit) stored ≡ counted (roll stored idx) 1 true
  unfolding script
  script-Room limit room = rw (exceeds-Room seconds weight (roll stored idx) limit room)

  pub script-full :
      (limit : ℕ)
      → ¬ Room seconds weight limit (roll stored idx)
      → script seconds idx weight 1 (pos limit) stored ≡ counted (roll stored idx) 0 false
  unfolding script
  script-full limit full = rw (exceeds-full seconds weight (roll stored idx) limit full)

  pub script-no_cap :
      (increment : ℕ)
      → script seconds idx weight increment no_cap_check stored
        ≡ counted (roll stored idx) increment true
  unfolding script
  script-no_cap increment = rw (exceeds-no_cap seconds weight (roll stored idx) increment)

-- After a rollover the window is not behind, and a second rollover changes nothing.
pub le-roll : (stored : Option Hash) (idx : ℕ) → idx ≤ (roll stored idx).window
unfolding roll
le-roll none idx = omega arith
le-roll (some h) idx = ground arith

pub roll_settled : (h : Hash) (idx : ℕ) → idx ≤ h.window → roll (some h) idx ≡ h
unfolding roll
roll_settled h idx le = ground arith

counted_none : (h : Hash) (a : Bool) → (counted h 0 a).0 ≡ h
counted_none h a = ground arith

write_other :
    (store : Store) (identity other : String) (h : Hash)
    → other ≢ identity
    → write store (key identity) h (key other) ≡ store (key other)
write_other store identity other h ne =
    ground (arith, eq_iff (key other) (key identity), key-injective other identity)

module _ (seconds : ℕ) (identity : String) (now : ℕ) (store : Store) where
  -- `CheckAndIncrement` answers true if the estimate leaves room for one more impression within the
  -- cap, and then counts that impression. Otherwise it answers false and counts none. In both cases
  -- it stores the counter rolled over to the window of `now`, and leaves every other identity's.
  pub check_and_increment_lem :
      (limit : ℕ)
      → let idx = (window_params now seconds).0 in
        let weight = (window_params now seconds).1 in
        let h = seen store identity idx in
        ((Room seconds weight limit h
            → check_and_increment seconds identity (pos limit) now store
              ≡ (write store (key identity) (bumped h), true))
          × (¬ Room seconds weight limit h
              → check_and_increment seconds identity (pos limit) now store
                ≡ (write store (key identity) h, false))
          × ((other : String)
              → other ≢ identity
              → (check_and_increment seconds identity (pos limit) now store).0 (key other)
                ≡ store (key other)))
  unfolding check_and_increment
  check_and_increment_lem limit =
      let idx = (window_params now seconds).0 in
      let weight = (window_params now seconds).1 in
      let stored = store (key identity) in
      (
        λ room. rw (script-Room seconds weight idx stored limit room),
        λ full.
            rw (script-full seconds weight idx stored limit full)
              (rw (counted_none (roll stored idx) false)),
        λ other ne. write_other store identity other _ ne,
      )

  -- `RecordImpression` counts one impression, whatever the cap.
  pub record_impression_lem :
      record_impression seconds identity now store
      ≡ write store (key identity) (bumped (seen store identity (window_params now seconds).0))
  unfolding record_impression
  record_impression_lem = rw (
      script-no_cap seconds (window_params now seconds).1 (window_params now seconds).0
        (store (key identity)) 1)

  -- `Remaining` stores the rolled counter.
  pub remaining_lem :
      remaining seconds identity now store
      ≡ write store (key identity) (seen store identity (window_params now seconds).0)
  unfolding remaining
  remaining_lem =
      let (idx, weight) = window_params now seconds in
      rw (
        script-no_cap seconds weight idx (store (key identity)) 0,
        counted_none (roll (store (key identity)) idx) true,
      )
