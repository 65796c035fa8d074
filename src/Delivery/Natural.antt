-- ===== src/Delivery/Natural.antt =====
-- The allocation of buckets on natural numbers, which `allocateExperimentBuckets` follows where no weight is
-- negative.
use citywalk.Prelude.{
  ℕ, suc, ◌+◌, ◌-◌, ◌≤◌, ◌<◌, ◌^◌, String, ◌≡◌, refl, ap, ◌∙◌, Bool, Option, none, some, true,
  false, List, [], ◌∷◌, str_eq, str_lt, ltb, if◌then◌else◌, Bool-cases, inl, inr, arith,
}
use citywalk.Prelude.Int.{ℤ, pos, pos_part, add64-pos, ltb_ℤ, sub64-pos}
use citywalk.Delivery.Allocation.{
  Floats, Share, share_of, shares_of, floored_sum, insert_share, sort_shares, hand_out,
  allocate_experiment_buckets,
}
use citywalk.Delivery.Variants.{or_else, bucket_map}

pub record NaturalShare (f : Floats) : Type 0 where
  pub id : String
  pub floor : ℕ
  pub remainder : f.Float

-- The share of a variant: its part of the buckets in floats, rounded down, and what that cuts off.
unfoldable pub natural_share : (f : Floats) → (String → ℕ) → ℕ → String → NaturalShare f
natural_share f weight_percent total_buckets id =
    let exact =
      f.div (f.mul (f.of_int (pos (weight_percent id))) (f.of_int (pos total_buckets)))
        (f.of_int (pos 100)) in
    record {
      id = id;
      floor = pos_part (f.to_int exact);
      remainder = f.sub exact (f.of_int (f.to_int exact));
    }

unfoldable pub natural_shares :
    (f : Floats) → (String → ℕ) → ℕ → List String → List (NaturalShare f)
natural_shares f weight_percent total_buckets [] = []
natural_shares f weight_percent total_buckets (id ∷ ids) =
    natural_share f weight_percent total_buckets id
    ∷ natural_shares f weight_percent total_buckets ids

abbrev pub natural_floors : (f : Floats) → List (NaturalShare f) → ℕ
natural_floors f [] = 0
natural_floors f (s ∷ shares) = s.floor + natural_floors f shares

-- The order of the sort: the larger remainder first, then the smaller id.
abbrev pub natural_before : (f : Floats) → NaturalShare f → NaturalShare f → Bool
natural_before f a b =
    if f.differ a.remainder b.remainder then f.exceeds a.remainder b.remainder else str_lt a.id b.id

-- A stable sort: a share goes behind those that come before it, and ahead of its equals.
unfoldable pub insert_natural :
    (f : Floats) → NaturalShare f → List (NaturalShare f) → List (NaturalShare f)
insert_natural f s [] = s ∷ []
insert_natural f s (x ∷ shares) =
    let later = insert_natural f s shares in
    if natural_before f x s then x ∷ later else s ∷ x ∷ shares

unfoldable pub sort_natural : (f : Floats) → List (NaturalShare f) → List (NaturalShare f)
unfolding insert_natural
sort_natural f [] = []
sort_natural f (s ∷ shares) = insert_natural f s (sort_natural f shares)

-- The last loop, from index `i` on: each id with its buckets.
unfoldable pub hand_natural : (f : Floats) → ℕ → ℕ → List (NaturalShare f) → List (String × ℕ)
hand_natural f i leftover [] = []
hand_natural f i leftover (s ∷ shares) =
    (s.id, if ltb i leftover then s.floor + 1 else s.floor) ∷ hand_natural f (suc i) leftover shares

unfoldable pub natural_buckets : (f : Floats) → List String → (String → ℕ) → ℕ → List (String × ℕ)
natural_buckets f ids weight_percent total_buckets =
    let shares = natural_shares f weight_percent total_buckets ids in
    hand_natural f 0 (total_buckets - natural_floors f shares) (sort_natural f shares)

unfoldable pub natural_map : List (String × ℕ) → String → Option ℤ
natural_map [] id = none
natural_map ((k, n) ∷ buckets) id =
    or_else (natural_map buckets id) (if str_eq id k then some (pos n) else none)

abbrev up : (f : Floats) → NaturalShare f → Share f
up f s = record { id = s.id; floor = pos s.floor; remainder = s.remainder }

abbrev pub lifted : List (String × ℕ) → List (String × ℤ)
lifted [] = []
lifted ((k, n) ∷ buckets) = (k, pos n) ∷ lifted buckets

abbrev ups : (f : Floats) → List (NaturalShare f) → List (Share f)
ups f [] = []
ups f (s ∷ shares) = up f s ∷ ups f shares

pub bucket_map-lifted :
    (buckets : List (String × ℕ)) (id : String)
    → bucket_map (lifted buckets) id ≡ natural_map buckets id
unfolding bucket_map natural_map
bucket_map-lifted [] id = refl
bucket_map-lifted ((k, n) ∷ buckets) id =
    ap (λ (later : Option ℤ). or_else later (if str_eq id k then some (pos n) else none))
      (bucket_map-lifted buckets id)

insert_share-ups :
    (f : Floats) (s : NaturalShare f) (shares : List (NaturalShare f))
    → insert_share f (up f s) (ups f shares) ≡ ups f (insert_natural f s shares)
unfolding insert_share insert_natural
insert_share-ups f s [] = refl
insert_share-ups f s (x ∷ shares) = elim (Bool-cases (natural_before f x s)) [
  | inl first ↦ rw first (ap (λ (l : List (Share f)). up f x ∷ l) (insert_share-ups f s shares))
  | inr behind ↦ rw behind refl
]

sort_shares-ups :
    (f : Floats) (shares : List (NaturalShare f))
    → sort_shares f (ups f shares) ≡ ups f (sort_natural f shares)
unfolding sort_shares sort_natural
sort_shares-ups f [] = refl
sort_shares-ups f (s ∷ shares) =
    ap (insert_share f (up f s)) (sort_shares-ups f shares)
    ∙ insert_share-ups f s (sort_natural f shares)

floored_sum-ups :
    (f : Floats) (shares : List (NaturalShare f)) (n : ℕ)
    → n + natural_floors f shares < 2 ^ 62
    → floored_sum f (pos n) (ups f shares) ≡ pos (n + natural_floors f shares)
floored_sum-ups f [] n fits = ap pos (omega arith)
floored_sum-ups f (s ∷ shares) n fits =
    let here = add64-pos n s.floor (omega (arith, fits)) in
    ap (λ (z : ℤ). floored_sum f z (ups f shares)) here
    ∙ floored_sum-ups f shares (n + s.floor) (omega (arith, fits))
    ∙ ap pos (omega arith)

hand_out-ups :
    (f : Floats) (i leftover : ℕ) (shares : List (NaturalShare f))
    → natural_floors f shares < 2 ^ 62
    → hand_out f i (pos leftover) (ups f shares) ≡ lifted (hand_natural f i leftover shares)
unfolding hand_out hand_natural
hand_out-ups f i leftover [] fits = refl
hand_out-ups f i leftover (s ∷ shares) fits =
    let rest = hand_out-ups f (suc i) leftover shares (omega (arith, fits)) in
    let one_more = add64-pos s.floor 1 (omega (arith, fits)) in
    elim (Bool-cases (ltb i leftover)) [
      | inl more ↦
          let below : ltb_ℤ (pos i) (pos leftover) ≡ true = ground (arith, more) in
          rw (below, more, rest, one_more) refl
      | inr done ↦
          let above : ltb_ℤ (pos i) (pos leftover) ≡ false = ground (arith, done) in
          rw (above, done, rest) refl
    ]

-- Each share is a natural number.
abbrev pub AreNatural : (f : Floats) → (String → ℕ) → ℕ → List String → Type 0
AreNatural f weight t [] = Unit
AreNatural f weight t (id ∷ ids) =
    (let exact =
        f.div (f.mul (f.of_int (pos (weight id))) (f.of_int (pos t))) (f.of_int (pos 100)) in
      f.to_int exact ≡ pos (pos_part (f.to_int exact)))
    × AreNatural f weight t ids

shares_of-ups :
    (f : Floats) (weight : String → ℕ) (t : ℕ) (ids : List String)
    → AreNatural f weight t ids
    → shares_of f (λ id. pos (weight id)) (pos t) ids ≡ ups f (natural_shares f weight t ids)
unfolding shares_of share_of natural_shares natural_share
shares_of-ups f weight t [] h = refl
shares_of-ups f weight t (id ∷ ids) h =
    let exact =
      f.div (f.mul (f.of_int (pos (weight id))) (f.of_int (pos t))) (f.of_int (pos 100)) in
    ap
      (λ (n : ℤ).
        (let s : Share f = record {
          id = id;
          floor = n;
          remainder = f.sub exact (f.of_int (f.to_int exact));
        } in
          s)
        ∷ shares_of f (λ x. pos (weight x)) (pos t) ids)
      h.0
    ∙ ap (λ (l : List (Share f)). up f (natural_share f weight t id) ∷ l)
        (shares_of-ups f weight t ids h.1)

-- Where the shares are natural numbers whose sum is at most the total: the allocation of the program is
-- that on natural numbers.
pub allocate_experiment_buckets-lifted :
    (f : Floats) (ids : List String) (weight : String → ℕ) (t : ℕ)
    → AreNatural f weight t ids
    → natural_floors f (natural_shares f weight t ids) ≤ t
    → natural_floors f (sort_natural f (natural_shares f weight t ids))
      ≡ natural_floors f (natural_shares f weight t ids)
    → t < 2 ^ 62
    → allocate_experiment_buckets f ids (λ id. pos (weight id)) (pos t)
      ≡ lifted (natural_buckets f ids weight t)
unfolding allocate_experiment_buckets natural_buckets
allocate_experiment_buckets-lifted f ids weight t natural le sorted fits =
    let shares = natural_shares f weight t ids in
    let summed : floored_sum f (pos 0) (ups f shares) ≡ pos (natural_floors f shares) =
      floored_sum-ups f shares 0 (omega (arith, le, fits)) ∙ ap pos (omega arith) in
    let left = sub64-pos t (natural_floors f shares) le (omega (arith, fits)) in
    rw (shares_of-ups f weight t ids natural, summed, left, sort_shares-ups f shares)
      (hand_out-ups f 0 (t - natural_floors f shares) (sort_natural f shares)
        (omega (arith, sorted, le, fits)))
