-- ===== src/Budget/History.antt =====
-- The counter against the history of impressions: a sequence of calls for one identity, each call at
-- a time not before the one ahead of it, leaves the counts of the last two windows of the history.
use native.Mathlib.Decide.{dec_le, dec_lt}
use citywalk.Prelude.{
  ℕ, suc, ◌+◌, ◌-◌, ◌*◌, ◌/◌, ◌<◌, ◌≤◌, String, ◌≡◌, refl, ap, sym, subst, Bool, true, false,
  Option, none, some, List, [], ◌∷◌, ltb, lt→ltb, ◌==◌, All, eq_iff, arith, if◌then◌else◌,
}
use citywalk.Prelude.Int.{pos}
use citywalk.Budget.{
  Hash, Store, roll, estimate, key, window_params, write, remaining, record_impression,
  check_and_increment,
}
use citywalk.Budget.Steps.{
  seen, bumped, check_and_increment_lem, record_impression_lem, remaining_lem,
}

pub data Call : Type 0 where
  look : ℕ → Call
  impression : Call
  check : ℕ → Call

-- One call at a time, and whether it counts an impression.
unfoldable pub call : ℕ → String → Call → ℕ → Store → Store × Bool
call seconds identity (look limit) now store = (remaining seconds identity now store, false)
call seconds identity impression now store = (record_impression seconds identity now store, true)
call seconds identity (check limit) now store =
    check_and_increment seconds identity (pos limit) now store

abbrev pub note : ℕ → Bool → List ℕ → List ℕ
note w true history = w ∷ history
note w false history = history

-- The calls in order: the store, and the windows of the impressions that were counted, newest first.
unfoldable pub run : ℕ → String → List (Call × ℕ) → Store → List ℕ → Store × List ℕ
run seconds identity [] store history = (store, history)
run seconds identity ((c, now) ∷ calls) store history =
    let (store', counted) = call seconds identity c now store in
    run seconds identity calls store' (note (now / seconds) counted history)

-- How many impressions of the history fall in window `w`.
unfoldable pub occurs : ℕ → List ℕ → ℕ
occurs w [] = 0
occurs w (v ∷ history) = if v == w then suc (occurs w history) else occurs w history

pub record Tracks (h : Hash) (history : List ℕ) : Type 0 where
  pub count_exact : h.count ≡ occurs h.window history
  pub prev_exact : 0 < h.window → h.prev ≡ occurs (h.window - 1) history
  pub latest : All (λ w. w ≤ h.window) history

occurs-later :
    (w v : ℕ) (history : List ℕ) → All (λ u. u ≤ v) history → v < w → occurs w history ≡ 0
unfolding occurs
occurs-later w v [] a lt = refl
occurs-later w v (u ∷ history) a lt = ground (arith, occurs-later w v history a.1 lt)

All-le : (v w : ℕ) (history : List ℕ) → All (λ u. u ≤ v) history → v ≤ w → All (λ u. u ≤ w) history
All-le v w [] a le = tt
All-le v w (u ∷ history) a le = (omega (arith, a.0), All-le v w history a.1 le)

-- The counter with no hash stands for a history with no impression.
abbrev pub Follows : Option Hash → List ℕ → Type 0
Follows none history = history ≡ []
Follows (some h) history = Tracks h history

abbrev pub Before : Option Hash → ℕ → Type 0
Before none idx = Unit
Before (some h) idx = h.window ≤ idx

pub roll-Tracks :
    (stored : Option Hash) (idx : ℕ) (history : List ℕ)
    → Follows stored history
    → Before stored idx
    → Tracks (roll stored idx) history × ((roll stored idx).window ≡ idx)
unfolding roll
roll-Tracks none idx history f b = (
  rw f (record {
    count_exact = unfold occurs in refl;
    prev_exact = λ _. unfold occurs in refl;
    latest = tt;
  }),
  refl,
)
roll-Tracks (some h) idx history f b = elim (dec_lt h.window idx) [
  | yes p ↦
      let now_none = occurs-later idx h.window history f.latest p in
      let newer = All-le h.window idx history f.latest b in
      rw (lt→ltb h.window idx p) (
        record {
          count_exact = sym now_none;
          prev_exact = λ _. elim (dec_lt h.window (idx - 1)) [
            | yes q ↦ ground (arith, occurs-later (idx - 1) h.window history f.latest q)
            | no q ↦
                let e : h.window ≡ idx - 1 = omega arith in
                ground (arith, f.count_exact, ap (λ (w : ℕ). occurs w history) e)
          ];
          latest = newer;
        },
        refl,
      )
  | no p ↦
      let same : h.window ≡ idx = omega arith in
      let test : ltb h.window idx ≡ false = ground arith in rw test (f, same)
]

bumped-Tracks :
    (h : Hash) (history : List ℕ) → Tracks h history → Tracks (bumped h) (h.window ∷ history)
unfolding occurs
bumped-Tracks h history tr = record {
  count_exact = ground (arith, tr.count_exact);
  prev_exact = λ later. ground (arith, tr.prev_exact later);
  latest = (omega arith, tr.latest);
}

-- The counter of the identity stands at window `w`, and holds its part of the history.
pub record Holds (store : Store) (identity : String) (w : ℕ) (history : List ℕ) : Type 0 where
  pub hash : Hash
  pub stored : store (key identity) ≡ some hash
  pub tracks : Tracks hash history
  pub at : hash.window ≡ w

pub write_self : (store : Store) (k : String) (h : Hash) → write store k h k ≡ some h
write_self store k h = ground (arith, eq_iff k k)

module _ (seconds : ℕ) (identity : String) (now : ℕ) (store : Store) (history : List ℕ)
    (f : Follows (store (key identity)) history)
    (b : Before (store (key identity)) (now / seconds)) where
  seen_h : Hash
  seen_h = seen store identity (now / seconds)

  Holds-look : Holds (write store (key identity) seen_h) identity (now / seconds) history
  unfolding seen_h
  Holds-look =
      let (tr, at) = roll-Tracks (store (key identity)) (now / seconds) history f b in
      record {
        hash = seen_h;
        stored = write_self store (key identity) seen_h;
        tracks = tr;
        at = at;
      }

  Holds-count :
      Holds
        (write store (key identity) (bumped seen_h))
        identity
        (now / seconds)
        (now / seconds ∷ history)
  unfolding seen_h
  Holds-count =
      let (tr, at) = roll-Tracks (store (key identity)) (now / seconds) history f b in
      record {
        hash = bumped seen_h;
        stored = write_self store (key identity) (bumped seen_h);
        tracks =
            subst (λ w. Tracks (bumped seen_h) (w ∷ history)) at (bumped-Tracks seen_h history tr);
        at = at;
      }

  pub call-Holds :
      (c : Call)
      → let (store', counted) = call seconds identity c now store in
        Holds store' identity (now / seconds) (note (now / seconds) counted history)
  unfolding call window_params seen_h
  call-Holds (look limit) = rw (remaining_lem seconds identity now store) Holds-look
  call-Holds impression = rw (record_impression_lem seconds identity now store) Holds-count
  call-Holds (check limit) =
      let (yes_room, no_room, _) = check_and_increment_lem seconds identity now store limit in
      elim (dec_le (estimate seconds (window_params now seconds).1 seen_h + seconds)
        (limit * seconds)) [
          | yes room ↦ rw (yes_room room) Holds-count
          | no full ↦ rw (no_room full) Holds-look
        ]

-- The windows of the calls do not go back, from window `w` on.
abbrev pub InOrder : ℕ → ℕ → List (Call × ℕ) → Type 0
InOrder seconds w [] = Unit
InOrder seconds w ((c, now) ∷ calls) = (w ≤ now / seconds) × InOrder seconds (now / seconds) calls

abbrev pub last_window : ℕ → ℕ → List (Call × ℕ) → ℕ
last_window seconds w [] = w
last_window seconds w ((c, now) ∷ calls) = last_window seconds (now / seconds) calls

pub Before-le : (stored : Option Hash) (w v : ℕ) → w ≤ v → Before stored w → Before stored v
Before-le none w v le b = tt
Before-le (some h) w v le b = omega arith

pub Holds-Follows :
    {store : Store} {identity : String} {w : ℕ} {history : List ℕ}
    → Holds store identity w history
    → Follows (store (key identity)) history × Before (store (key identity)) w
Holds-Follows {w} {history} held = (
  subst (λ s. Follows s history) (sym held.stored) held.tracks,
  subst (λ s. Before s w) (sym held.stored) (omega (arith, held.at)),
)

pub run-Holds :
    (seconds : ℕ) (identity : String) (calls : List (Call × ℕ)) (w : ℕ) (store : Store)
    (history : List ℕ)
    → Holds store identity w history
    → InOrder seconds w calls
    → let (store', history') = run seconds identity calls store history in
      Holds store' identity (last_window seconds w calls) history'
unfolding run
run-Holds seconds identity [] w store history held o = held
run-Holds seconds identity ((c, now) ∷ calls) w store history held o =
    let (f, b) = Holds-Follows held in
    let later = Before-le (store (key identity)) w (now / seconds) o.0 b in
    run-Holds seconds identity calls (now / seconds) _ _
      (call-Holds seconds identity now store history f later c) o.1
