-- ===== src/Delivery/Assigned.antt =====
-- `assignVariant` of internal/delivery/payload/payload.go answers for each identity.
use citywalk.Prelude.{
  ◌++◌, subst, ℕ, ◌+◌, ◌-◌, ◌≤◌, ◌<◌, ◌^◌, String, ◌≡◌, ◌≢◌, refl, sym, ap, ◌∙◌, true, false, ◌⊎◌,
  inl, inr, Option, none, some, List, [], ◌∷◌, ok, str_eq, str_lt, eq_iff, contains, Distinct, All,
  Bool-cases, arith,
}
use citywalk.Prelude.Int.{ℤ, pos, negsuc, pos_part, leb_ℤ, sub64, sub64-pos}
use citywalk.Assign.Bucket.{bucket_count, bucket}
use citywalk.Assign.Accepts.{width, total, HasWeight, IsSplit, split_table, new_range_table-accepts}
use citywalk.Assign.RangeTable.{new_range_table}
use citywalk.Assign.Assignment.{assign_total}
use citywalk.Delivery.Allocation.{Floats, allocate_experiment_buckets}
use citywalk.Delivery.Natural.{natural_buckets, natural_map, lifted, bucket_map-lifted}
use citywalk.Delivery.Allotted.{
  FloorExact, bucket_sum, weight_total, allocate_experiment_buckets-natural,
}
use citywalk.Delivery.Variants.{
  BundleVariant, insert_string, sort_strings, bucket_map, variant_from, by_id, ids_of, weight_from,
  weight_percent, holdout_buckets, bucket_weights, assign_variant,
}
use citywalk.Delivery.Counted.{
  count, count-Distinct, contains-count, count-pos, Distinct-count, count-sort_strings, keys,
  count-natural_buckets, natural_map-HasWeight, total-natural_map,
}

All-contains :
    (P : String → Type 0) (ts : List String)
    → ((x : String) → contains x ts ≡ true → P x)
    → All P ts
All-contains P [] h = tt
All-contains P (t ∷ ts) h = (
  h t (ground (arith, (eq_iff t t).1 refl)),
  All-contains P ts (λ x later. h x (ground (arith, later))),
)

weight_total-insert_string :
    (w : String → ℕ) (s : String) (ts : List String)
    → weight_total w (insert_string s ts) ≡ w s + weight_total w ts
unfolding insert_string
weight_total-insert_string w s [] = refl
weight_total-insert_string w s (t ∷ ts) = elim (Bool-cases (str_lt t s)) [
  | inl first ↦ rw first (omega (arith, weight_total-insert_string w s ts))
  | inr behind ↦ rw behind
]

weight_total-sort_strings :
    (w : String → ℕ) (ts : List String) → weight_total w (sort_strings ts) ≡ weight_total w ts
unfolding sort_strings
weight_total-sort_strings w [] = refl
weight_total-sort_strings w (t ∷ ts) =
    omega (arith, weight_total-insert_string w t (sort_strings ts), weight_total-sort_strings w ts)

-- The weight of a variant, which is not negative.
abbrev pub percent : List BundleVariant → String → ℕ
percent variants id = pos_part (weight_percent variants id)

abbrev pub AreNonNegative : List BundleVariant → Type 0
AreNonNegative variants = All (λ v. leb_ℤ (pos 0) v.weight ≡ true) variants

non_negative : (z : ℤ) → leb_ℤ (pos 0) z ≡ true → z ≡ pos (pos_part z)
non_negative (pos n) h = refl
non_negative (negsuc n) h = absurd (ground (arith, h))

weight_from-natural :
    (id : String) (vs : List BundleVariant) (found : ℤ)
    → found ≡ pos (pos_part found)
    → AreNonNegative vs
    → weight_from id vs found ≡ pos (pos_part (weight_from id vs found))
unfolding weight_from
weight_from-natural id [] found h a = h
weight_from-natural id (v ∷ vs) found h a = elim (Bool-cases (str_eq id v.id)) [
  | inl same ↦ rw same (weight_from-natural id vs v.weight (non_negative v.weight a.0) a.1)
  | inr other ↦ rw other (weight_from-natural id vs found h a.1)
]

-- How many buckets the holdout has, which is a number from 0 to all.
abbrev pub held_buckets : (f : Floats) → f.Float → ℕ
held_buckets f fraction = pos_part (holdout_buckets f fraction)

abbrev pub HoldoutFits : (f : Floats) → f.Float → Type 0
HoldoutFits f fraction =
    (leb_ℤ (pos 0) (holdout_buckets f fraction) ≡ true) × (held_buckets f fraction ≤ bucket_count)

-- The sorted ids and the keys of the allocation are the same texts, each once.
module _ (f : Floats) (variants : List BundleVariant) (t : ℕ)
    (distinct : Distinct (ids_of variants)) where
  abbrev order : List String
  order = sort_strings (ids_of variants)

  abbrev buckets : List (String × ℕ)
  buckets = natural_buckets f order (percent variants) t

  count-order : (x : String) → count x order ≤ 1
  count-order x =
      omega
        (arith, count-sort_strings x (ids_of variants), count-Distinct x (ids_of variants) distinct)

  count-buckets : (x : String) → count x (keys buckets) ≡ count x order
  count-buckets x = count-natural_buckets f order (percent variants) t x

  order-Distinct : Distinct order
  order-Distinct = Distinct-count order count-order

  buckets-Distinct : Distinct (keys buckets)
  buckets-Distinct =
      Distinct-count (keys buckets) (λ x. omega (arith, count-buckets x, count-order x))

  order-HasWeight : All (HasWeight (natural_map buckets)) order
  order-HasWeight = All-contains (HasWeight (natural_map buckets)) order (λ x h.
      natural_map-HasWeight buckets x
        (count-pos x (keys buckets) (omega (arith, contains-count x order h, count-buckets x))))

  once : All (λ k. count k order ≡ 1) (keys buckets)
  once =
      All-contains (λ k. count k order ≡ 1) (keys buckets)
        (λ x h. omega (arith, contains-count x (keys buckets) h, count-buckets x, count-order x))

  total-order : total (natural_map buckets) order ≡ bucket_sum buckets
  total-order = total-natural_map buckets order buckets-Distinct once

abbrev pub HasMember : List BundleVariant → BundleVariant → Type 0
HasMember [] v = ⊥
HasMember (u ∷ us) v = (v ≡ u) ⊎ HasMember us v

variant_from-absent :
    (id : String) (vs : List BundleVariant) (found : BundleVariant)
    → contains id (ids_of vs) ≡ false
    → variant_from id vs found ≡ found
unfolding variant_from
variant_from-absent id [] found h = refl
variant_from-absent id (v ∷ vs) found h =
    let other : str_eq id v.id ≡ false = ground (arith, h) in
    let rest : contains id (ids_of vs) ≡ false = ground (arith, h) in
    rw other (variant_from-absent id vs found rest)

-- An id of the group names one of its variants.
variant_from-HasMember :
    (id : String) (vs : List BundleVariant) (found : BundleVariant)
    → contains id (ids_of vs) ≡ true
    → HasMember vs (variant_from id vs found)
unfolding variant_from
variant_from-HasMember id [] found h = absurd (ground (arith, h))
variant_from-HasMember id (v ∷ vs) found h = elim (Bool-cases (contains id (ids_of vs))) [
  | inl later ↦ inr (variant_from-HasMember id vs _ later)
  | inr absent ↦
      let same : str_eq id v.id ≡ true = ground (arith, h, absent) in
      inl (rw same (variant_from-absent id vs v absent))
]

weights_sum_nonempty : (w : String → ℕ) (ts : List String) → weight_total w ts ≡ 100 → ts ≢ []
weights_sum_nonempty w [] h = absurd (omega (arith, h))
weights_sum_nonempty w (t ∷ ts) h = λ e. cc

-- A member of a list of texts.
contains-append : (x : String) (pre post : List String) → contains x (pre ++ x ∷ post) ≡ true
contains-append x [] post = ground (arith, (eq_iff x x).1 refl)
contains-append x (y ∷ pre) post = ground (arith, contains-append x pre post)

contains-sort_strings :
    (x : String) (ts : List String) → contains x (sort_strings ts) ≡ true → contains x ts ≡ true
contains-sort_strings x ts h =
    count-pos x ts (omega (arith, contains-count x (sort_strings ts) h, count-sort_strings x ts))

module _ (f : Floats) (fraction : f.Float) (variants : List BundleVariant) (exact : FloorExact f)
    (natural : AreNonNegative variants) (distinct : Distinct (ids_of variants))
    (whole : weight_total (percent variants) (ids_of variants) ≡ 100)
    (holdout : HoldoutFits f fraction) where
  abbrev room : ℕ
  room = bucket_count - held_buckets f fraction

  abbrev sorted_ids : List String
  sorted_ids = sort_strings (ids_of variants)

  abbrev given : List (String × ℕ)
  given = natural_buckets f sorted_ids (percent variants) room

  sorted : weight_total (percent variants) sorted_ids ≡ 100
  sorted = weight_total-sort_strings (percent variants) (ids_of variants) ∙ whole

  given_lem :
      (allocate_experiment_buckets f sorted_ids (λ id. pos (percent variants id)) (pos room)
        ≡ lifted given)
      × (bucket_sum given ≡ room)
  given_lem =
      allocate_experiment_buckets-natural f sorted_ids (percent variants) room exact sorted
        (omega arith)

  bucket_weights-natural : bucket_weights f fraction variants ≡ natural_map given
  bucket_weights-natural =
      let held = non_negative (holdout_buckets f fraction) holdout.0 in
      let left : sub64 (pos bucket_count) (holdout_buckets f fraction) ≡ pos room =
        ap (sub64 (pos bucket_count)) held
        ∙ sub64-pos bucket_count (held_buckets f fraction) holdout.1 (omega arith) in
      let same : weight_percent variants ≡ (λ id. pos (percent variants id)) =
        λ i id. weight_from-natural id variants (pos 0) refl natural i in
      ap
        (λ (z : ℤ).
          bucket_map (allocate_experiment_buckets f sorted_ids (weight_percent variants) z))
        left
      ∙ ap (λ (w : String → ℤ). bucket_map (allocate_experiment_buckets f sorted_ids w (pos room)))
          same
      ∙ ap (λ (l : List (String × ℤ)). bucket_map l) given_lem.0
      ∙ (λ i id. bucket_map-lifted given id i)

  bucket_weights-IsSplit :
      IsSplit (bucket_weights f fraction variants) sorted_ids (held_buckets f fraction)
      × (total (bucket_weights f fraction variants) sorted_ids ≡ room)
  bucket_weights-IsSplit =
      let filled : total (natural_map given) sorted_ids ≡ room =
        total-order f variants room distinct ∙ given_lem.1 in
      subst
        (λ (w : String → Option ℤ).
          IsSplit w sorted_ids (held_buckets f fraction) × (total w sorted_ids ≡ room))
        (sym bucket_weights-natural)
        (
          record {
            some_variant = weights_sum_nonempty (percent variants) sorted_ids sorted;
            distinct = order-Distinct f variants room distinct;
            weighted = order-HasWeight f variants room distinct;
            whole = omega (arith, filled, holdout.1);
          },
          filled,
        )

total-before :
    (weights : String → Option ℤ) (before behind : List String) (v : String)
    → total weights before + width weights v ≤ total weights (before ++ v ∷ behind)
total-before weights [] behind v = omega arith
total-before weights (u ∷ before) behind v = omega (arith, total-before weights before behind v)

-- For a language group of variants with distinct ids and weights that are not negative and sum to 100, and
-- a holdout that is not negative and at most all buckets, where the float division rounds down exactly: `assignVariant` answers every
-- identity without an error. An identity whose bucket is in the holdout gets no variant, and each
-- other identity one of the group.
pub assign_variant-total :
    (f : Floats) (holdout_fraction : f.Float) (salt : String) (variants : List BundleVariant)
    (identity : String)
    → FloorExact f
    → AreNonNegative variants
    → Distinct (ids_of variants)
    → weight_total (percent variants) (ids_of variants) ≡ 100
    → HoldoutFits f holdout_fraction
    → ((bucket_count - held_buckets f holdout_fraction ≤ bucket salt identity)
        × (assign_variant f holdout_fraction salt variants identity ≡ ok none))
      ⊎ ((bucket salt identity < bucket_count - held_buckets f holdout_fraction)
          × ((v : BundleVariant) × HasMember variants v
              × (assign_variant f holdout_fraction salt variants identity ≡ ok (some v))))
unfolding assign_variant
assign_variant-total f fraction salt variants identity exact natural distinct whole holdout =
    let weights = bucket_weights f fraction variants in
    let order = sort_strings (ids_of variants) in
    let k = held_buckets f fraction in
    let le = holdout.1 in
    let held : holdout_buckets f fraction ≡ pos k =
      non_negative (holdout_buckets f fraction) holdout.0 in
    let (split, filled) =
      bucket_weights-IsSplit f fraction variants exact natural distinct whole holdout in
    let made = new_range_table-accepts weights order k split in
    let made_here = ap (new_range_table order weights) held ∙ made in
    let fits : total weights order + k < 2 ^ 63 = omega (arith, filled, le) in
    elim (assign_total weights order (pos k) (split_table weights order k) fits made salt
      identity) [
        | inl (o, found) ↦
            let inside =
              subst
                (λ (l : List String).
                  total weights o.before + width weights o.owner ≤ total weights l)
                (sym o.place) (total-before weights o.before o.behind o.owner) in
            let listed : contains o.owner order ≡ true =
              subst (λ (l : List String). contains o.owner l ≡ true) (sym o.place)
                (contains-append o.owner o.before o.behind) in
            inr (
              omega (arith, o.high, inside, filled),
              (
                by_id variants o.owner,
                variant_from-HasMember o.owner variants _
                    (contains-sort_strings o.owner (ids_of variants) listed),
                rw (made_here, found),
              ),
            )
        | inr (above, found) ↦ inl (omega (arith, above, filled), rw (made_here, found))
      ]
