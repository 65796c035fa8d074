-- ===== src/Event/Replay.antt =====
-- Whole batches: the rollups hold the first event of each id, once, however often it is delivered.
use citywalk.Prelude.{
  ℕ, ◌+◌, String, ◌≡◌, ◌≢◌, refl, sym, subst, Bool, true, false, ◌||◌, List, [], ◌∷◌, map, str_eq,
  eq_iff, contains, All, arith, inl, inr, Bool-cases, if◌then◌else◌,
}
use citywalk.Event.Hll.{Sketch, add_all, empty}
use citywalk.Event.Rollup.{
  StoredEvent, Key, Rollups, sketch_or_new, apply_event, mark, apply_one, apply_batch, no_rollups,
}
use citywalk.Event.Exactness.{
  fresh, keys_of, occurrences, tally, is_reach, reached, apply_event-counts, apply_event-applied,
  apply_event-reach,
}

or_true : (b : Bool) → (b || true) ≡ true
or_true b = ground arith

one-old : (e : StoredEvent) (r : Rollups) → contains e.id r.applied ≡ true → apply_one e r ≡ r
unfolding apply_one
one-old e r old = rw old

one-new :
    (e : StoredEvent) (r : Rollups)
    → contains e.id r.applied ≡ false
    → apply_one e r ≡ apply_event e (mark e r)
unfolding apply_one
one-new e r new = rw new

fresh-old :
    (e : StoredEvent) (events : List StoredEvent) (seen : List String)
    → contains e.id seen ≡ true
    → fresh seen (e ∷ events) ≡ fresh seen events
unfolding fresh
fresh-old e events seen old = rw old

fresh-new :
    (e : StoredEvent) (events : List StoredEvent) (seen : List String)
    → contains e.id seen ≡ false
    → fresh seen (e ∷ events) ≡ e ∷ fresh (e.id ∷ seen) events
unfolding fresh
fresh-new e events seen new = rw new

batch-cons :
    (e : StoredEvent) (events : List StoredEvent) (r : Rollups)
    → apply_batch (e ∷ events) r ≡ apply_batch events (apply_one e r)
unfolding apply_batch
batch-cons e events r = refl

tally-cons :
    (k : Key) (e : StoredEvent) (events : List StoredEvent)
    → tally k (e ∷ events) ≡ occurrences k (keys_of e) + tally k events
unfolding tally
tally-cons k e events = refl

batch-counts :
    (events : List StoredEvent) (r : Rollups) (k : Key)
    → (apply_batch events r).counts k ≡ r.counts k + tally k (fresh r.applied events)
unfolding apply_batch tally apply_event fresh
batch-counts [] r k = omega arith
batch-counts (e ∷ events) r k = elim (Bool-cases (contains e.id r.applied)) [
  | inl old ↦
      rw (batch-cons e events r, one-old e r old, fresh-old e events r.applied old)
        (batch-counts events r k)
  | inr new ↦
      let rest =
        rw (apply_event-applied e (mark e r)) at
          (batch-counts events (apply_event e (mark e r)) k) in
      rw (batch-cons e events r, one-new e r new, fresh-new e events r.applied new)
        (omega (
          arith,
          rest,
          apply_event-counts e (mark e r) k,
          tally-cons k e (fresh (e.id ∷ r.applied) events),
        ))
]

reached-cons :
    (m v : String) (d : ℕ) (e : StoredEvent) (events : List StoredEvent) (s : Sketch)
    → add_all (reached m v d (e ∷ events)) s
      ≡ add_all
          (reached m v d events)
          (add_all (if is_reach m v d e then e.channel_id ∷ [] else []) s)
unfolding reached add_all
reached-cons m v d e events s = elim (Bool-cases (is_reach m v d e)) [
  | inl in_slice ↦ rw in_slice
  | inr other ↦ rw other
]

batch-reach :
    (events : List StoredEvent) (r : Rollups) (m v : String) (d : ℕ)
    → m ≢ ""
    → sketch_or_new ((apply_batch events r).reach m v d)
      ≡ add_all (reached m v d (fresh r.applied events)) (sketch_or_new (r.reach m v d))
unfolding apply_event
batch-reach [] r m v d ne = unfold apply_batch fresh reached add_all in refl
batch-reach (e ∷ events) r m v d ne = elim (Bool-cases (contains e.id r.applied)) [
  | inl old ↦
      rw (batch-cons e events r, one-old e r old, fresh-old e events r.applied old)
        (batch-reach events r m v d ne)
  | inr new ↦
      let rest =
        rw (apply_event-applied e (mark e r), apply_event-reach e (mark e r) m v d ne) at
          (batch-reach events (apply_event e (mark e r)) m v d ne) in
      rw
        (
          batch-cons e events r,
          one-new e r new,
          fresh-new e events r.applied new,
          reached-cons m v d e (fresh (e.id ∷ r.applied) events),
        )
        rest
]

abbrev pub event_ids : List StoredEvent → List String
event_ids = map (λ e. e.id)

-- The ids that are marked as applied after a batch: those before, and those of the batch.
batch-applied :
    (events : List StoredEvent) (r : Rollups) (s : String)
    → contains s (apply_batch events r).applied
      ≡ (contains s r.applied || contains s (event_ids events))
batch-applied [] r s = unfold apply_batch in ground arith
batch-applied (e ∷ events) r s = elim (Bool-cases (contains e.id r.applied)) [
  | inl old ↦
      rw (batch-cons e events r, one-old e r old, batch-applied events r s)
        (elim (Bool-cases (str_eq s e.id)) [
          | inr other ↦ rw other
          | inl same ↦ rw (
            same,
            subst (λ (x : String). contains x r.applied ≡ true) (sym ((eq_iff s e.id).0 same)) old,
          )
        ])
  | inr new ↦
      rw
        (
          batch-cons e events r,
          one-new e r new,
          batch-applied events (apply_event e (mark e r)) s,
          apply_event-applied e (mark e r),
        )
        (ground arith)
]

-- Every event of the list is marked as applied.
abbrev AllApplied : Rollups → List StoredEvent → Type 0
AllApplied r = All (λ e. contains e.id r.applied ≡ true)

applied-batch :
    (events : List StoredEvent) (r : Rollups) → AllApplied r events → apply_batch events r ≡ r
applied-batch [] r a = unfold apply_batch in refl
applied-batch (e ∷ events) r a =
    rw (batch-cons e events r, one-old e r a.0) (applied-batch events r a.1)

-- A batch none of whose ids is new to the batches before it, as a batch that is delivered again,
-- changes nothing in the rollups: neither a counter nor a sketch.
pub replay-batch :
    (events again : List StoredEvent) (r : Rollups)
    → All (λ e. contains e.id (event_ids events) ≡ true) again
    → apply_batch again (apply_batch events r) ≡ apply_batch events r
replay-batch events again r known = applied-batch again (apply_batch events r) (marked again known)
  where
    marked :
        (es : List StoredEvent)
        → All (λ e. contains e.id (event_ids events) ≡ true) es
        → AllApplied (apply_batch events r) es
    marked [] k = tt
    marked (e ∷ es) k = (rw (batch-applied events r e.id, k.0) (or_true _), marked es k.1)

-- From empty rollups, after any batches in any order of delivery, given as one sequence: each counter
-- of the targeting, campaign and suppression rollups holds exactly the number of events, the first of
-- each id, that belong to it; and each reach sketch of a named message is the sketch of exactly the
-- channels of those events that are impressions of its message, variant and day.
pub rollups_exact :
    (events : List StoredEvent) (k : Key) (m v : String) (d : ℕ)
    → m ≢ ""
    → let r = apply_batch events no_rollups in
      (r.counts k ≡ tally k (fresh [] events))
      × (sketch_or_new (r.reach m v d) ≡ add_all (reached m v d (fresh [] events)) empty)
rollups_exact events k m v d ne =
    (omega (arith, batch-counts events no_rollups k), batch-reach events no_rollups m v d ne)
