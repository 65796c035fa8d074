-- ===== src/Delivery/Withheld.antt =====
-- The entries that the overlay of a bundle gives to a channel, and the messages that it withholds.
use citywalk.Prelude.{
  ℕ, ◌-◌, String, ◌≡◌, ◌⊎◌, refl, sym, ap, Bool, true, false, ◌&&◌, none, some, List, [], ◌∷◌, ◌++◌,
  map, leb, str_eq, eq_iff, Distinct, All, ok, if◌then◌else◌, Bool-cases, inl, inr, arith,
}
use mathlib.Core.List.{append-nil, append_assoc}
use citywalk.Assign.Bucket.{bucket_count, bucket}
use citywalk.Delivery.Payload.{Entry}
use citywalk.Delivery.Variants.{BundleVariant, ids_of}
use citywalk.Delivery.Allotted.{FloorExact, weight_total}
use citywalk.Delivery.Assigned.{
  HasMember, percent, AreNonNegative, HoldoutFits, held_buckets, assign_variant-total,
}
use citywalk.Delivery.Bundle.{Outside, BundleMessage}
use citywalk.Delivery.Overlay.{
  HoldoutQualified, find_bundle_variant, entry_of, withheld_event, record_holdout_qualified,
  overlay_of, apply_overlay, overlay_all,
}

module _ (o : Outside) where
  -- No language group; or distinct ids, and weights that are not negative and sum to 100, with a holdout
  -- that is not negative and at most all buckets. A save does not check that no weight is negative.
  abbrev pub IsSound : BundleMessage o → Type 0
  IsSound bm =
      (bm.language_variants ≡ [])
      ⊎ (AreNonNegative bm.language_variants
          × Distinct (ids_of bm.language_variants)
          × (weight_total (percent bm.language_variants) (ids_of bm.language_variants) ≡ 100)
          × HoldoutFits o.floats bm.holdout_fraction)

  abbrev has_group : List BundleVariant → Bool
  has_group [] = false
  has_group (v ∷ variants) = true

  -- The bucket of the channel lies in the holdout of the message.
  abbrev pub is_held : String → BundleMessage o → Bool
  is_held identity bm =
      has_group bm.language_variants
      && leb (bucket_count - held_buckets o.floats bm.holdout_fraction)
          (bucket bm.experiment_salt identity)

  abbrev pub held_events : String → ℕ → List (BundleMessage o) → List HoldoutQualified
  held_events identity now [] = []
  held_events identity now (bm ∷ messages) =
      let rest = held_events identity now messages in
      if is_held identity bm
      then record { message_id = bm.message_id; channel_id = identity; device_time = now } ∷ rest
      else rest

  abbrev pub shown_ids : String → List (BundleMessage o) → List String
  shown_ids identity [] = []
  shown_ids identity (bm ∷ messages) =
      let rest = shown_ids identity messages in
      if is_held identity bm then rest else bm.message_id ∷ rest

  find_bundle_variant-HasMember :
      (variants : List BundleVariant) (v : BundleVariant)
      → HasMember variants v
      → (u : BundleVariant) × (find_bundle_variant variants v.id ≡ some u)
  unfolding find_bundle_variant
  find_bundle_variant-HasMember [] v h = elim h [ ]
  find_bundle_variant-HasMember (x ∷ variants) v h = elim (Bool-cases (str_eq x.id v.id)) [
    | inl same ↦ (x, rw same refl)
    | inr other ↦ elim h [
      | inl is_x ↦
          absurd (cc (other, (eq_iff x.id v.id).1 (ap (λ (w : BundleVariant). w.id) (sym is_x))))
      | inr later ↦
          let (u, found) = find_bundle_variant-HasMember variants v later in (u, rw other found)
    ]
  ]

  module _ (publish : HoldoutQualified → Bool) (accepts : (e : HoldoutQualified) → publish e ≡ true)
      (exact : FloorExact o.floats) where
    -- What the overlay gives, for a list of variants that is the language group of the message.
    abbrev Outcome :
        BundleMessage o → String → ℕ → List HoldoutQualified → List BundleVariant → Type 0
    Outcome bm identity now events variants =
        let held =
          has_group variants
          && leb (bucket_count - held_buckets o.floats bm.holdout_fraction)
              (bucket bm.experiment_salt identity) in
        let answer = overlay_of o publish bm identity now events variants in
        ((held ≡ true)
          × (answer ≡ (events ++ withheld_event o publish bm identity now ∷ [], ok none)))
        ⊎ ((held ≡ false)
            × ((v : BundleVariant) × (answer ≡ (events, ok (some (entry_of o publish bm v))))))

    group-Outcome :
        (bm : BundleMessage o) (identity : String) (now : ℕ) (events : List HoldoutQualified)
        (v : BundleVariant) (variants : List BundleVariant)
        → bm.language_variants ≡ v ∷ variants
        → AreNonNegative (v ∷ variants)
        → Distinct (ids_of (v ∷ variants))
        → weight_total (percent (v ∷ variants)) (ids_of (v ∷ variants)) ≡ 100
        → HoldoutFits o.floats bm.holdout_fraction
        → Outcome bm identity now events (v ∷ variants)
    unfolding record_holdout_qualified
    group-Outcome bm identity now events v variants group natural distinct whole le =
        elim (assign_variant-total o.floats bm.holdout_fraction bm.experiment_salt (v ∷ variants)
          identity exact natural distinct whole le) [
            | inl (above, held) ↦ inl (
              ground (arith, above),
              rw (held, accepts (withheld_event o publish bm identity now)) refl,
            )
            | inr (below, (u, listed, chosen)) ↦
                let (w, found) = find_bundle_variant-HasMember (v ∷ variants) u listed in
                inr (ground (arith, below), (w, simp (chosen, group, found) refl))
          ]

    variants-Outcome :
        (bm : BundleMessage o) (identity : String) (now : ℕ) (events : List HoldoutQualified)
        (variants : List BundleVariant)
        → bm.language_variants ≡ variants
        → ((variants ≡ [])
            ⊎ (AreNonNegative variants
                × Distinct (ids_of variants)
                × (weight_total (percent variants) (ids_of variants) ≡ 100)
                × HoldoutFits o.floats bm.holdout_fraction))
        → Outcome bm identity now events variants
    variants-Outcome bm identity now events [] group sound = inr (refl, (bm.fallback_variant, refl))
    variants-Outcome bm identity now events (v ∷ variants) group (inl nothing) = absurd (cc nothing)
    variants-Outcome bm identity now events (v ∷ variants) group
          (inr (natural, distinct, whole, le)) =
        group-Outcome bm identity now events v variants group natural distinct whole le

    overlay_all-outcome :
        (identity : String) (now : ℕ) (messages : List (BundleMessage o))
        (events : List HoldoutQualified)
        → All IsSound messages
        → (entries : List Entry) × (overlay_all o publish identity now messages events
            ≡ (events ++ held_events identity now messages, ok entries))
          × (map (λ e. e.message_id) entries ≡ shown_ids identity messages)
    unfolding overlay_all apply_overlay
    overlay_all-outcome identity now [] events sound =
        ([], ap (λ (l : List HoldoutQualified). (l, ok [])) (sym (append-nil events)), refl)
    overlay_all-outcome identity now (bm ∷ messages) events sound =
        elim (variants-Outcome bm identity now events bm.language_variants refl sound.0) [
          | inl (held, answer) ↦
              let (entries, made, ids) =
                overlay_all-outcome identity now messages
                  (events ++ withheld_event o publish bm identity now ∷ []) sound.1 in
              (entries, simp (answer, made, held, append_assoc) refl, simp held ids)
          | inr (shown, (v, answer)) ↦
              let (entries, made, ids) = overlay_all-outcome identity now messages events sound.1 in
              (
                entry_of o publish bm v ∷ entries,
                simp (answer, made, shown) refl,
                simp shown (ap (λ (l : List String). bm.message_id ∷ l) ids),
              )
        ]

-- Where the event log takes each event, the float division rounds down exactly, and each message of the
-- bundle has no language group, or one with distinct ids, weights that are not negative and sum to 100, and a
-- holdout between none and all of the buckets: the overlay for a channel gives no error. A message in whose holdout the channel's bucket lies gets an event of its own behind those of the log, and
-- no entry; each other message gets one entry, in the order of the bundle, and no event.
pub overlay_all-partition :
    (o : Outside) (publish : HoldoutQualified → Bool) (identity : String) (now : ℕ)
    (messages : List (BundleMessage o)) (events : List HoldoutQualified)
    → ((e : HoldoutQualified) → publish e ≡ true)
    → FloorExact o.floats
    → All (IsSound o) messages
    → (entries : List Entry) × (overlay_all o publish identity now messages events
        ≡ (events ++ held_events o identity now messages, ok entries))
      × (map (λ e. e.message_id) entries ≡ shown_ids o identity messages)
overlay_all-partition o publish identity now messages events accepts exact sound =
    overlay_all-outcome o publish accepts exact identity now messages events sound
