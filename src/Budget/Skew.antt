-- ===== src/Budget/Skew.antt =====
-- What an impression that is dated in the future does to the counter.
use citywalk.Prelude.{
  ℕ, suc, ◌+◌, ◌*◌, ◌/◌, ◌<◌, ◌≤◌, String, ◌≡◌, refl, ap, ◌∙◌, some, true, false, Bool, Option,
  List, [], ◌∷◌, arith, ltb, eq_iff, if◌then◌else◌,
}
use citywalk.Prelude.Int.{pos}
use citywalk.Budget.{Hash, Store, key, window_params, write, check_and_increment}
use citywalk.Budget.Steps.{seen, Room, check_and_increment_lem, roll_settled}
use citywalk.Budget.History.{write_self}
use citywalk.Budget.Expiry.{Entries, live, with_expiry, eval_at, check_and_increment_at}

-- Checks of one identity against one cap, and how many of them are let through.
unfoldable pub checks : ℕ → String → ℕ → List ℕ → Entries → ℕ
checks seconds identity limit [] redis = 0
checks seconds identity limit (now ∷ times) redis =
    let (redis', allowed) = check_and_increment_at seconds identity (pos limit) now redis in
    let rest = checks seconds identity limit times redis' in if allowed then suc rest else rest

-- Every time lies in a window before `w`, and before the key expires, which each check puts off.
abbrev pub AllBefore : ℕ → ℕ → ℕ → List ℕ → Type 0
AllBefore seconds w expires [] = Unit
AllBefore seconds w expires (now ∷ times) =
    (now / seconds < w) × (now < expires) × AllBefore seconds w (now + 2 * seconds) times

full-Room :
    (seconds weight limit : ℕ) (h : Hash)
    → 0 < seconds
    → limit ≤ h.count
    → ¬ Room seconds weight limit h
full-Room seconds weight limit h nonzero full room = grind arith

-- A check on the keys that have not expired, and the entry that it leaves.
check_and_increment_at-live :
    (seconds : ℕ) (identity : String) (limit now : ℕ) (redis : Entries)
    → let (store, allowed) =
        check_and_increment seconds identity (pos limit) now (live now redis) in
      let (redis', allowed') = check_and_increment_at seconds identity (pos limit) now redis in
      (allowed' ≡ allowed)
      × (redis' (key identity) ≡ with_expiry (store (key identity)) (now + 2 * seconds))
unfolding check_and_increment_at check_and_increment eval_at
check_and_increment_at-live seconds identity limit now redis =
    (refl, rw ((eq_iff (key identity) (key identity)).1 refl) refl)

-- If the counter of an identity stands in a window ahead of now, with as many impressions as the cap:
-- checks at times that lie in windows before that one are all refused, however many they are, as long as
-- the first comes before the key expires and each other less than two windows after the one before it.
pub future_window_blocks :
    (seconds : ℕ) (identity : String) (limit expires : ℕ) (redis : Entries) (h : Hash)
    (times : List ℕ)
    → 0 < seconds
    → redis (key identity) ≡ some (record { hash = h; expires = expires })
    → limit ≤ h.count
    → AllBefore seconds h.window expires times
    → checks seconds identity limit times redis ≡ 0
unfolding checks
future_window_blocks seconds identity limit expires redis h [] nonzero at full before = refl
future_window_blocks seconds identity limit expires redis h (now ∷ times) nonzero at full before =
    let idx = (window_params now seconds).0 in
    let weight = (window_params now seconds).1 in
    let store = live now redis in
    let early : ltb now expires ≡ true = ground (arith, before.1) in
    let found : store (key identity) ≡ some h = rw at (rw early refl) in
    let stays : seen store identity idx ≡ h =
      rw found (roll_settled h idx (unfold window_params in omega (arith, before.0))) in
    let no_room : ¬ Room seconds weight limit (seen store identity idx) =
      rw stays (full-Room seconds weight limit h nonzero full) in
    let refused : check_and_increment seconds identity (pos limit) now store
        ≡ (write store (key identity) h, false) =
      (check_and_increment_lem seconds identity now store limit).1 no_room ∙ rw stays refl in
    let (same, entry) = check_and_increment_at-live seconds identity limit now redis in
    let next = (check_and_increment_at seconds identity (pos limit) now redis).0 in
    let kept : next (key identity) ≡ some (record { hash = h; expires = now + 2 * seconds }) =
      entry
      ∙ ap (λ (r : Store × Bool). with_expiry (r.0 (key identity)) (now + 2 * seconds)) refused
      ∙ ap (λ (o : Option Hash). with_expiry o (now + 2 * seconds))
          (write_self store (key identity) h) in
    let rest =
      future_window_blocks seconds identity limit (now + 2 * seconds) next h times nonzero kept full
        before.2 in
    rw (same ∙ ap (λ (r : Store × Bool). r.1) refused) rest
