-- ===== src/Budget/Cap.antt =====
-- The cap: what `CheckAndIncrement` lets through.
use native.Mathlib.Decide.{dec_le, ℕ_discrete}
use Prim.Native.Nat.{zero-le}
use citywalk.Prelude.{
  ℕ, suc, ◌+◌, ◌*◌, ◌/◌, ◌<◌, ◌≤◌, String, ◌≡◌, ◌≢◌, refl, sym, subst, none, List, [], ◌∷◌, arith,
}
use citywalk.Budget.{Hash, Store, estimate, key, window_params}
use citywalk.Budget.Steps.{seen, Room, check_and_increment_lem}
use citywalk.Budget.History.{
  Call, look, impression, check, call, run, occurs, Follows, Before, Before-le, Holds-Follows,
  call-Holds, InOrder, note, roll-Tracks,
}

-- Only reads, and checks against one cap.
abbrev pub OnlyChecks : ℕ → List (Call × ℕ) → Type 0
OnlyChecks limit [] = Unit
OnlyChecks limit ((look l, now) ∷ calls) = OnlyChecks limit calls
OnlyChecks limit ((impression, now) ∷ calls) = ⊥
OnlyChecks limit ((check l, now) ∷ calls) = (l ≡ limit) × OnlyChecks limit calls

abbrev pub Capped : ℕ → List ℕ → Type 0
Capped limit history = (w : ℕ) → occurs w history ≤ limit

Room-count :
    (seconds weight limit : ℕ) (h : Hash)
    → 0 < seconds
    → Room seconds weight limit h
    → suc h.count ≤ limit
Room-count seconds weight limit h nonzero room = elim (dec_le (suc h.count) limit) [
  | yes p ↦ p
  | no p ↦ absurd (grind arith)
]

occurs_self : (w : ℕ) (history : List ℕ) → occurs w (w ∷ history) ≡ suc (occurs w history)
unfolding occurs
occurs_self w history = ground arith

occurs_other : (w v : ℕ) (history : List ℕ) → w ≢ v → occurs w (v ∷ history) ≡ occurs w history
unfolding occurs
occurs_other w v history ne = ground arith

Capped-cons :
    (limit w : ℕ) (history : List ℕ)
    → Capped limit history
    → suc (occurs w history) ≤ limit
    → Capped limit (w ∷ history)
Capped-cons limit w history c room v = elim (ℕ_discrete v w) [
  | yes e ↦ rw (e, occurs_self w history) room
  | no ne ↦ rw (occurs_other v w history ne) (c v)
]

-- A sequence of calls from any state that follows its history keeps the history within the cap.
module _ (seconds : ℕ) (nonzero : 0 < seconds) (identity : String) (limit : ℕ) where
  call-Capped :
      (now : ℕ) (store : Store) (history : List ℕ)
      → Follows (store (key identity)) history
      → Before (store (key identity)) (now / seconds)
      → Capped limit history
      → Capped limit
          (note (now / seconds) (call seconds identity (check limit) now store).1 history)
  unfolding call window_params
  call-Capped now store history f b c =
      let (tr, at) = roll-Tracks (store (key identity)) (now / seconds) history f b in
      let h = seen store identity (now / seconds) in
      let weight = (window_params now seconds).1 in
      let (yes_room, no_room, _) = check_and_increment_lem seconds identity now store limit in
      elim (dec_le (estimate seconds weight h + seconds) (limit * seconds)) [
        | yes room ↦
            let fits : suc (occurs (now / seconds) history) ≤ limit =
              rw (tr.count_exact, at) at (Room-count seconds weight limit h nonzero room) in
            rw (yes_room room) (Capped-cons limit (now / seconds) history c fits)
        | no full ↦ rw (no_room full) c
      ]

  pub run-Capped :
      (calls : List (Call × ℕ)) (w : ℕ) (store : Store) (history : List ℕ)
      → Follows (store (key identity)) history
      → Before (store (key identity)) w
      → InOrder seconds w calls
      → OnlyChecks limit calls
      → Capped limit history
      → Capped limit (run seconds identity calls store history).1
  unfolding run
  run-Capped [] w store history f b o only c = c
  run-Capped ((look l, now) ∷ calls) w store history f b o only c =
      let later = Before-le (store (key identity)) w (now / seconds) o.0 b in
      let (f', b') =
        Holds-Follows (call-Holds seconds identity now store history f later (look l)) in
      run-Capped calls (now / seconds) _ _ f' b' o.1 only (unfold call in c)
  run-Capped ((impression, now) ∷ calls) w store history f b o only c = absurd only
  run-Capped ((check l, now) ∷ calls) w store history f b o (same, only) c =
      let later = Before-le (store (key identity)) w (now / seconds) o.0 b in
      let (f', b') =
        Holds-Follows (call-Holds seconds identity now store history f later (check l)) in
      let kept : Capped limit
          (note (now / seconds) (call seconds identity (check l) now store).1 history) =
        rw same (call-Capped now store history f later c) in
      run-Capped calls (now / seconds) _ _ f' b' o.1 only kept

-- Start with no counter for the identity and a window of at least a second, and make any calls for it
-- that only read or check against one cap, in windows that do not go back. Then in no window are more
-- impressions counted than the cap.
pub checks-capped :
    (seconds limit : ℕ) (identity : String) (store : Store) (calls : List (Call × ℕ)) (w : ℕ)
    → 0 < seconds
    → store (key identity) ≡ none
    → InOrder seconds w calls
    → OnlyChecks limit calls
    → (v : ℕ) → occurs v (run seconds identity calls store []).1 ≤ limit
checks-capped seconds limit identity store calls w nonzero empty o only =
    run-Capped seconds nonzero identity limit calls w store []
      (subst (λ s. Follows s []) (sym empty) refl) (subst (λ s. Before s w) (sym empty) tt) o only
      (λ v. unfold occurs in zero-le)
