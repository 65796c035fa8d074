-- ===== src/Event/Rows.antt =====
-- The rows that `appendToLog` of internal/event/ingest leaves in the log.
use citywalk.Prelude.{
  ℕ, suc, ◌+◌, ◌≤◌, String, ◌≡◌, refl, sym, subst, inl, inr, true, false, ◌||◌, List, [], ◌∷◌, ◌++◌,
  contains, Distinct, All, str_eq, eq_iff, length, length-append, ok, arith, Bool-cases,
}
use citywalk.Event.Validity.{IsWellFormed, validate_iff}
use citywalk.Event.Model.{Event, kind_custom, validate, event_name}
use citywalk.Event.Ingest.{row, ids, append_to_log}
use mathlib.Core.List.{map-append}

contains-append :
    (s : String) (xs ys : List String) → contains s (xs ++ ys) ≡ (contains s xs || contains s ys)
contains-append s [] ys = refl
contains-append s (x ∷ xs) ys = ground (arith, contains-append s xs ys)

-- What one append adds to a log: the ids of the events, and no id twice.
pub append-grows :
    (events : List Event) (now : ℕ) (log : List Event)
    → let (n, log') = append_to_log events now log in length log' ≡ length log + n
unfolding append_to_log
append-grows [] now log = omega arith
append-grows (e ∷ events) now log = elim (Bool-cases (contains e.id (ids log))) [
  | inl old ↦ rw old (append-grows events now log)
  | inr new ↦ rw new (
      omega (
        arith,
        append-grows events now (log ++ row now e ∷ []),
        length-append log (row now e ∷ []),
      ))
]

pub append_to_log-length-le :
    (events : List Event) (now : ℕ) (log : List Event)
    → (append_to_log events now log).0 ≤ length events
unfolding append_to_log
append_to_log-length-le [] now log = omega arith
append_to_log-length-le (e ∷ events) now log = elim (Bool-cases (contains e.id (ids log))) [
  | inl old ↦ rw old (omega (arith, append_to_log-length-le events now log))
  | inr new ↦ rw new (omega (arith, append_to_log-length-le events now (log ++ row now e ∷ [])))
]

-- The ids of a log with one more row.
contains-ids-row :
    (s : String) (now : ℕ) (e : Event) (log : List Event)
    → contains s (ids (log ++ row now e ∷ [])) ≡ (contains s (ids log) || str_eq s e.id)
contains-ids-row s now e log =
    rw
      (
        map-append (λ (r : Event). r.id) log (row now e ∷ []),
        contains-append s (ids log) (e.id ∷ []),
      )
      (ground arith)

pub append-keeps :
    (s : String) (events : List Event) (now : ℕ) (log : List Event)
    → contains s (ids log) ≡ true
    → contains s (ids (append_to_log events now log).1) ≡ true
unfolding append_to_log
append-keeps s [] now log h = h
append-keeps s (e ∷ events) now log h = elim (Bool-cases (contains e.id (ids log))) [
  | inl old ↦ rw old (append-keeps s events now log h)
  | inr new ↦
      rw new
        (append-keeps s events now (log ++ row now e ∷ []) (rw (contains-ids-row s now e log, h)))
]

pub append-old :
    (e : Event) (events : List Event) (now : ℕ) (log : List Event)
    → contains e.id (ids log) ≡ true
    → append_to_log (e ∷ events) now log ≡ append_to_log events now log
unfolding append_to_log
append-old e events now log old = rw old

pub append-new :
    (e : Event) (events : List Event) (now : ℕ) (log : List Event)
    → contains e.id (ids log) ≡ false
    → append_to_log (e ∷ events) now log
      ≡ (let (n, log') = append_to_log events now (log ++ row now e ∷ []) in (suc n, log'))
unfolding append_to_log
append-new e events now log new = rw new

abbrev pub AllIn : List Event → List Event → Type 0
AllIn log = All (λ e. contains e.id (ids log) ≡ true)

pub append-AllIn :
    (events : List Event) (now : ℕ) (log : List Event)
    → AllIn (append_to_log events now log).1 events
append-AllIn [] now log = tt
append-AllIn (e ∷ events) now log = elim (Bool-cases (contains e.id (ids log))) [
  | inl old ↦
      subst (λ r. AllIn r.1 (e ∷ events)) (sym (append-old e events now log old))
        (append-keeps e.id events now log old, append-AllIn events now log)
  | inr new ↦
      let log' = log ++ row now e ∷ [] in
      subst (λ r. AllIn r.1 (e ∷ events)) (sym (append-new e events now log new))
        (
          append-keeps e.id events now log'
              (rw (contains-ids-row e.id now e log, new, (eq_iff e.id e.id).1 refl)),
          append-AllIn events now log',
        )
]

pub append-known :
    (events : List Event) (now : ℕ) (log : List Event)
    → AllIn log events
    → append_to_log events now log ≡ (0, log)
unfolding append_to_log
append-known [] now log a = refl
append-known (e ∷ events) now log a = rw (a.0) (append-known events now log a.1)

Distinct-snoc :
    (xs : List String) (s : String) → Distinct xs → contains s xs ≡ false → Distinct (xs ++ s ∷ [])
Distinct-snoc [] s d h = (refl, tt)
Distinct-snoc (x ∷ xs) s d h = (
  ground (arith, contains-append x xs (s ∷ []), eq_iff x s, eq_iff s x, d.0),
  Distinct-snoc xs s d.1 (ground arith),
)

pub append-Distinct :
    (events : List Event) (now : ℕ) (log : List Event)
    → Distinct (ids log)
    → Distinct (ids (append_to_log events now log).1)
unfolding append_to_log
append-Distinct [] now log d = d
append-Distinct (e ∷ events) now log d = elim (Bool-cases (contains e.id (ids log))) [
  | inl old ↦ rw old (append-Distinct events now log d)
  | inr new ↦ rw new (
      append-Distinct events now (log ++ row now e ∷ []) (
        rw (map-append (λ (r : Event). r.id) log (row now e ∷ []))
          (Distinct-snoc (ids log) e.id d new)))
]

abbrev pub AllValid : List Event → Type 0
AllValid = All (λ e. validate e ≡ ok tt)

All-snoc :
    (log : List Event) (r : Event) → AllValid log → validate r ≡ ok tt → AllValid (log ++ r ∷ [])
All-snoc [] r a v = (v, tt)
All-snoc (x ∷ log) r a v = (a.0, All-snoc log r a.1 v)

row-IsWellFormed : (now : ℕ) (e : Event) → IsWellFormed e → IsWellFormed (row now e)
unfolding event_name
row-IsWellFormed now e w = record {
  has_id = w.has_id;
  has_channel = w.has_channel;
  has_kind = w.has_kind;
  has_name = λ k. rw ((eq_iff e.kind kind_custom).1 k) (w.has_name k);
  has_time = w.has_time;
  has_message = w.has_message;
  has_variant = w.has_variant;
  has_reason = w.has_reason;
}

pub append-AllValid :
    (events : List Event) (now : ℕ) (log : List Event)
    → AllValid events
    → AllValid log
    → AllValid (append_to_log events now log).1
append-AllValid [] now log v a = unfold append_to_log in a
append-AllValid (e ∷ events) now log v a = elim (Bool-cases (contains e.id (ids log))) [
  | inl old ↦
      subst (λ r. AllValid r.1) (sym (append-old e events now log old))
        (append-AllValid events now log v.1 a)
  | inr new ↦
      let valid_row =
        (validate_iff (row now e)).1 (row-IsWellFormed now e ((validate_iff e).0 v.0)) in
      subst (λ r. AllValid r.1) (sym (append-new e events now log new))
        (append-AllValid events now (log ++ row now e ∷ []) v.1
          (All-snoc log (row now e) a valid_row))
]
