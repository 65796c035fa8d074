-- ===== src/Budget/Lapse.antt =====
-- The expiry of a counter's key loses nothing that a check reads, where the clock is that of the calls.
use native.Mathlib.Nat.{le-div_iff_mul-le}
use citywalk.Prelude.{
  ℕ, ◌+◌, ◌*◌, ◌/◌, ◌<◌, ◌≤◌, String, ◌≡◌, ◌⊎◌, refl, sym, ap, ◌∙◌, Bool, true, false, Option, none,
  some, List, [], ◌∷◌, arith, ltb, str_eq, eq_iff, Bool-cases, inl, inr, if◌then◌else◌,
}
use citywalk.Prelude.Int.{ℤ, pos}
use citywalk.Budget.{
  Hash, Store, roll, exceeds, counted, script, key, window_params, eval, check_and_increment,
}
use citywalk.Budget.History.{write_self}
use citywalk.Budget.Expiry.{Entry, Entries, alive, eval_at, check_and_increment_at}

-- The answers to checks of one identity against one cap, with the expiry and without.
unfoldable pub answers_at : ℕ → String → ℕ → List ℕ → Entries → List Bool
answers_at seconds identity limit [] redis = []
answers_at seconds identity limit (now ∷ times) redis =
    let (redis', allowed) = check_and_increment_at seconds identity (pos limit) now redis in
    allowed ∷ answers_at seconds identity limit times redis'

unfoldable pub answers_on : ℕ → String → ℕ → List ℕ → Store → List Bool
answers_on seconds identity limit [] store = []
answers_on seconds identity limit (now ∷ times) store =
    let (store', allowed) = check_and_increment seconds identity (pos limit) now store in
    allowed ∷ answers_on seconds identity limit times store'

-- Times that do not fall, from `last` on.
abbrev pub Rising : ℕ → List ℕ → Type 0
Rising last [] = Unit
Rising last (now ∷ times) = (last ≤ now) × Rising now times

window_le : (seconds a b : ℕ) → 0 < seconds → a ≤ b → a / seconds ≤ b / seconds
window_le seconds a b nonzero le =
    let under : a / seconds * seconds ≤ a =
      (le-div_iff_mul-le {k = seconds} {x = a / seconds} {y = a} nonzero).0 (omega arith) in
    (le-div_iff_mul-le {k = seconds} {x = a / seconds} {y = b} nonzero).1 (omega (arith, under, le))

window_far : (seconds a b : ℕ) → 0 < seconds → a + 2 * seconds ≤ b → a / seconds + 2 ≤ b / seconds
window_far seconds a b nonzero le =
    let under : a / seconds * seconds ≤ a =
      (le-div_iff_mul-le {k = seconds} {x = a / seconds} {y = a} nonzero).0 (omega arith) in
    let spread : (a / seconds + 2) * seconds ≡ a / seconds * seconds + 2 * seconds = grind arith in
    (le-div_iff_mul-le {k = seconds} {x = a / seconds + 2} {y = b} nonzero).1
      (omega (arith, under, le, spread))

-- The key and its hash without expiry: both absent, or written last at the same time.
abbrev Matches : ℕ → ℕ → Option Entry → Option Hash → Type 0
Matches seconds last e s =
    ((e ≡ none) × (s ≡ none))
    ⊎ ((h : Hash) × (t : ℕ) × (e ≡ some (record { hash = h; expires = t + 2 * seconds }))
        × (s ≡ some h)
        × (h.window ≡ t / seconds)
        × (t ≤ last))

-- A hash of two windows ago rolls over to the same as none.
roll-old : (h : Hash) (idx : ℕ) → h.window + 2 ≤ idx → roll none idx ≡ roll (some h) idx
unfolding roll
roll-old h idx old = ground arith

roll_window : (h : Hash) (idx : ℕ) → h.window ≤ idx → (roll (some h) idx).window ≡ idx
unfolding roll
roll_window h idx le = ground arith

roll-Matches :
    (seconds last now : ℕ) (e : Option Entry) (s : Option Hash)
    → 0 < seconds
    → last ≤ now
    → Matches seconds last e s
    → (roll (alive now e) (now / seconds) ≡ roll s (now / seconds))
      × ((roll s (now / seconds)).window ≡ now / seconds)
roll-Matches seconds last now e s nonzero le (inl (absent, nothing)) =
    rw (absent, nothing) (refl, unfold roll in refl)
roll-Matches seconds last now e s nonzero le (inr (h, t, entry, stored, at, past)) =
    let later : h.window ≤ now / seconds =
      rw at (window_le seconds t now nonzero (omega (arith, past, le))) in
    elim (Bool-cases (ltb now (t + 2 * seconds))) [
      | inl early ↦ rw (entry, stored, early) (refl, roll_window h (now / seconds) later)
      | inr over ↦
          let far : t + 2 * seconds ≤ now = ground (arith, over) in
          let old : h.window + 2 ≤ now / seconds = rw at (window_far seconds t now nonzero far) in
          rw (entry, stored, over)
            (roll-old h (now / seconds) old, roll_window h (now / seconds) later)
    ]

script-roll :
    (seconds idx weight : ℕ) (limit : ℤ) (a b : Option Hash)
    → roll a idx ≡ roll b idx
    → script seconds idx weight 1 limit a ≡ script seconds idx weight 1 limit b
unfolding script
script-roll seconds idx weight limit a b same =
    ap
      (λ (h : Hash).
        if exceeds seconds weight 1 limit h then counted h 0 false else counted h 1 true)
      same

script-window :
    (seconds idx weight : ℕ) (limit : ℤ) (stored : Option Hash)
    → (script seconds idx weight 1 limit stored).0.window ≡ (roll stored idx).window
unfolding script
script-window seconds idx weight limit stored =
    elim (Bool-cases (exceeds seconds weight 1 limit (roll stored idx))) [
      | inl full ↦ rw full refl
      | inr room ↦ rw room refl
    ]

abbrev armed_for : ℕ → Hash → Option Entry
armed_for expires h = some (record { hash = h; expires = expires })

module _ (seconds : ℕ) (identity : String) (limit : ℕ) where
  check-script :
      (now : ℕ) (store : Store)
      → let (idx, weight) = window_params now seconds in
        let (h, allowed) = script seconds idx weight 1 (pos limit) (store (key identity)) in
        let (store', answer) = check_and_increment seconds identity (pos limit) now store in
        (answer ≡ allowed) × (store' (key identity) ≡ some h)
  unfolding check_and_increment eval
  check-script now store = (refl, write_self store (key identity) _)

  check_at-script :
      (now : ℕ) (redis : Entries)
      → let (idx, weight) = window_params now seconds in
        let (h, allowed) =
          script seconds idx weight 1 (pos limit) (alive now (redis (key identity))) in
        let (redis', answer) = check_and_increment_at seconds identity (pos limit) now redis in
        (answer ≡ allowed)
        × (redis' (key identity) ≡ some (record { hash = h; expires = now + 2 * seconds }))
  unfolding check_and_increment_at eval_at eval
  check_at-script now redis =
      let own : str_eq (key identity) (key identity) ≡ true =
        (eq_iff (key identity) (key identity)).1 refl in
      (refl, rw own refl)

  check-Matches :
      (last now : ℕ) (redis : Entries) (store : Store)
      → 0 < seconds
      → last ≤ now
      → Matches seconds last (redis (key identity)) (store (key identity))
      → let (redis', answer) = check_and_increment_at seconds identity (pos limit) now redis in
        let (store', answer') = check_and_increment seconds identity (pos limit) now store in
        (answer ≡ answer') × Matches seconds now (redis' (key identity)) (store' (key identity))
  unfolding window_params
  check-Matches last now redis store nonzero le m =
      let idx : ℕ = now / seconds in
      let weight = (window_params now seconds).1 in
      let stored = store (key identity) in
      let (same, at) = roll-Matches seconds last now (redis (key identity)) stored nonzero le m in
      let scripts =
        script-roll seconds idx weight (pos limit) (alive now (redis (key identity))) stored same in
      let h : Hash = (script seconds idx weight 1 (pos limit) stored).0 in
      let (answer, kept) = check-script now store in
      let (answer', entry) = check_at-script now redis in
      let window = script-window seconds idx weight (pos limit) stored ∙ at in
      (
        answer' ∙ ap (λ (r : Hash × Bool). r.1) scripts ∙ sym answer,
        inr (
          h,
          now,
          entry ∙ ap (λ (r : Hash × Bool). armed_for (now + 2 * seconds) r.0) scripts,
          kept,
          window,
          omega arith,
        ),
      )

  answers-Matches :
      (last : ℕ) (times : List ℕ) (redis : Entries) (store : Store)
      → 0 < seconds
      → Rising last times
      → Matches seconds last (redis (key identity)) (store (key identity))
      → answers_at seconds identity limit times redis
        ≡ answers_on seconds identity limit times store
  unfolding answers_at answers_on
  answers-Matches last [] redis store nonzero rising m = refl
  answers-Matches last (now ∷ times) redis store nonzero rising m =
      let (same, kept) = check-Matches last now redis store nonzero rising.0 m in
      let rest =
        answers-Matches now times (check_and_increment_at seconds identity (pos limit) now redis).0
          (check_and_increment seconds identity (pos limit) now store).0 nonzero rising.1 kept in
      cc (same, rest)

-- From no counter for the identity and with a window of at least a second: checks against one cap, at times
-- that do not fall and that are those of the clock of Redis, are answered alike whether the key expires two
-- windows after it was last written or never.
pub answers_at-answers_on :
    (seconds : ℕ) (identity : String) (limit last : ℕ) (times : List ℕ) (redis : Entries)
    (store : Store)
    → 0 < seconds
    → redis (key identity) ≡ none
    → store (key identity) ≡ none
    → Rising last times
    → answers_at seconds identity limit times redis ≡ answers_on seconds identity limit times store
answers_at-answers_on seconds identity limit last times redis store nonzero absent nothing rising =
    answers-Matches seconds identity limit last times redis store nonzero rising
      (inl (absent, nothing))
