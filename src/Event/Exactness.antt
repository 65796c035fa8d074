-- ===== src/Event/Exactness.antt =====
-- The rollups count every event once: what `applyBatch` adds to each counter and to each sketch.
use citywalk.Prelude.{
  ℕ, ◌+◌, String, ◌≡◌, ◌≢◌, refl, ap, ◌∙◌, Bool, true, false, ◌&&◌, List, [], ◌∷◌, str_eq, eq_iff,
  contains, arith, inl, inr, Bool-cases, if◌then◌else◌, ◌==◌,
}
use citywalk.Event.Model.{kind_impression, kind_suppression}
use citywalk.Event.Hll.{add_all}
use citywalk.Event.Rollup.{
  StoredEvent, Key, same_key, Rollups, targeting_key, campaign_key, suppression_key,
  campaign_rollup_kinds, count_up, sketch_or_new, apply_reach_sketch, apply_message, apply_event,
  bucket_time, day_of,
}

-- The first event of each id that is not in `seen`.
unfoldable pub fresh : List String → List StoredEvent → List StoredEvent
fresh seen [] = []
fresh seen (e ∷ events) =
    let first = e ∷ fresh (e.id ∷ seen) events in
    if contains e.id seen then fresh seen events else first

-- The counters that an event belongs to.
abbrev pub keys_of : StoredEvent → List Key
keys_of e =
    targeting_key e
    ∷ (if str_eq e.message_id ""
        then []
        else if contains e.kind campaign_rollup_kinds
        then campaign_key e ∷ []
        else if str_eq e.kind kind_suppression
        then suppression_key e ∷ []
        else [])

abbrev pub one_if : Bool → ℕ
one_if true = 1
one_if false = 0

abbrev pub occurrences : Key → List Key → ℕ
occurrences k [] = 0
occurrences k (j ∷ keys) = one_if (same_key k j) + occurrences k keys

-- How many of the events belong to counter `k`.
unfoldable pub tally : Key → List StoredEvent → ℕ
tally k [] = 0
tally k (e ∷ events) = occurrences k (keys_of e) + tally k events

-- The channels of the impressions of a message and variant on a day.
abbrev pub is_reach : String → String → ℕ → StoredEvent → Bool
is_reach m v d e =
    str_eq e.kind kind_impression
    && (str_eq m e.message_id && (str_eq v e.variant_id && d == day_of (bucket_time e)))

unfoldable pub reached : String → String → ℕ → List StoredEvent → List String
reached m v d [] = []
reached m v d (e ∷ events) =
    if is_reach m v d e then e.channel_id ∷ reached m v d events else reached m v d events

count_up_lem :
    (j k : Key) (r : Rollups) → (count_up j r).counts k ≡ r.counts k + one_if (same_key k j)
unfolding count_up
count_up_lem j k r = elim (Bool-cases (same_key k j)) [
  | inl same ↦ rw same (omega arith)
  | inr other ↦ rw other (omega arith)
]

sketch-counts : (e : StoredEvent) (r : Rollups) → (apply_reach_sketch e r).counts ≡ r.counts
unfolding apply_reach_sketch
sketch-counts e r = refl

pub apply_event-counts :
    (e : StoredEvent) (r : Rollups) (k : Key)
    → (apply_event e r).counts k ≡ r.counts k + occurrences k (keys_of e)
unfolding apply_event apply_message
apply_event-counts e r k =
    let r1 = count_up (targeting_key e) r in
    let first = count_up_lem (targeting_key e) k r in
    let camp = count_up_lem (campaign_key e) k r1 in
    let supp = count_up_lem (suppression_key e) k r1 in
    let shown = ap (λ (c : Key → ℕ). c k) (sketch-counts e (count_up (campaign_key e) r1)) in
    elim (Bool-cases (str_eq e.message_id "")) [
      | inl bare ↦ rw bare (omega (arith, first))
      | inr about ↦ rw about (elim (Bool-cases (contains e.kind campaign_rollup_kinds)) [
        | inl campaign_kind ↦ rw campaign_kind (elim (Bool-cases (str_eq e.kind kind_impression)) [
          | inl impression ↦ rw impression (omega (arith, first, camp, shown))
          | inr other ↦ rw other (omega (arith, first, camp))
        ])
        | inr no_variant ↦ rw no_variant (elim (Bool-cases (str_eq e.kind kind_suppression)) [
          | inl suppressed ↦ rw suppressed (omega (arith, first, supp))
          | inr other ↦ rw other (omega (arith, first))
        ])
      ])
    ]

pub apply_event-applied : (e : StoredEvent) (r : Rollups) → (apply_event e r).applied ≡ r.applied
unfolding apply_event apply_message count_up apply_reach_sketch
apply_event-applied e r = elim (Bool-cases (str_eq e.message_id "")) [
  | inl bare ↦ rw bare
  | inr about ↦ rw about (elim (Bool-cases (contains e.kind campaign_rollup_kinds)) [
    | inl campaign_kind ↦ rw campaign_kind (elim (Bool-cases (str_eq e.kind kind_impression)) [
      | inl impression ↦ rw impression
      | inr other ↦ rw other
    ])
    | inr no_variant ↦ rw no_variant (elim (Bool-cases (str_eq e.kind kind_suppression)) [
      | inl suppressed ↦ rw suppressed
      | inr other ↦ rw other
    ])
  ])
]

-- The slice of an event's own impressions.
abbrev own_slice : String → String → ℕ → StoredEvent → Bool
own_slice m v d e = str_eq m e.message_id && (str_eq v e.variant_id && d == day_of (bucket_time e))

own_slice-eq :
    (m v : String) (d : ℕ) (e : StoredEvent)
    → own_slice m v d e ≡ true
    → (m ≡ e.message_id) × (v ≡ e.variant_id) × (d ≡ day_of (bucket_time e))
own_slice-eq m v d e h =
    (ground (arith, eq_iff m e.message_id), ground (arith, eq_iff v e.variant_id), ground arith)

sketch-reach :
    (e : StoredEvent) (r : Rollups) (m v : String) (d : ℕ)
    → sketch_or_new ((apply_reach_sketch e r).reach m v d)
      ≡ add_all
          (if own_slice m v d e then e.channel_id ∷ [] else [])
          (sketch_or_new (r.reach m v d))
unfolding apply_reach_sketch add_all
sketch-reach e r m v d = elim (Bool-cases (own_slice m v d e)) [
  | inr other ↦ rw other
  | inl own ↦
      let (same_m, same_v, same_d) = own_slice-eq m v d e own in
      rw own (rw (same_m, same_v, same_d))
]

bare-slice :
    (e : StoredEvent) (m v : String) (d : ℕ)
    → m ≢ ""
    → e.message_id ≡ ""
    → own_slice m v d e ≡ false
bare-slice e m v d ne bare = elim (Bool-cases (own_slice m v d e)) [
  | inr other ↦ other
  | inl own ↦ absurd (ne ((own_slice-eq m v d e own).0 ∙ bare))
]

and_false : (b : Bool) → (b && false) ≡ false
and_false b = ground arith

no_impression :
    (m v : String) (d : ℕ) (e : StoredEvent)
    → contains e.kind campaign_rollup_kinds ≡ false
    → is_reach m v d e ≡ false
no_impression m v d e h = ground (arith, h)

pub apply_event-reach :
    (e : StoredEvent) (r : Rollups) (m v : String) (d : ℕ)
    → m ≢ ""
    → sketch_or_new ((apply_event e r).reach m v d)
      ≡ add_all (if is_reach m v d e then e.channel_id ∷ [] else []) (sketch_or_new (r.reach m v d))
unfolding apply_event apply_message count_up add_all
apply_event-reach e r m v d ne = elim (Bool-cases (str_eq e.message_id "")) [
  | inl bare ↦ rw bare (
      rw (
        bare-slice e m v d ne ((eq_iff e.message_id "").0 bare),
        and_false (str_eq e.kind kind_impression),
      ))
  | inr about ↦ rw about (elim (Bool-cases (contains e.kind campaign_rollup_kinds)) [
    | inl campaign_kind ↦ rw campaign_kind (elim (Bool-cases (str_eq e.kind kind_impression)) [
      | inl impression ↦
          rw impression
            (sketch-reach e (count_up (campaign_key e) (count_up (targeting_key e) r)) m v d)
      | inr other ↦ rw other
    ])
    | inr no_variant ↦ rw no_variant (elim (Bool-cases (str_eq e.kind kind_suppression)) [
      | inl suppressed ↦ rw (suppressed, no_impression m v d e no_variant)
      | inr other ↦ rw (other, no_impression m v d e no_variant)
    ])
  ])
]
