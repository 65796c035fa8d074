-- ===== src/Delivery/Counted.antt =====
-- How often a text stands in a list: what the sorts of the allocation keep.
use citywalk.Prelude.{
  ℕ, suc, ◌+◌, ◌-◌, ◌*◌, ◌≤◌, String, ◌≡◌, refl, sym, ap, subst, ◌∙◌, Bool, true, false, none, List,
  [], ◌∷◌, str_eq, str_lt, eq_iff, contains, Distinct, All, Bool-cases, Option-cases, arith, inl,
  inr,
}
use citywalk.Assign.Accepts.{width, total, HasWeight}
use citywalk.Delivery.Allocation.{Floats}
use citywalk.Delivery.Natural.{
  NaturalShare, natural_share, natural_shares, natural_before, insert_natural, sort_natural,
  hand_natural, natural_buckets, natural_floors, natural_map,
}
use citywalk.Delivery.Variants.{insert_string, sort_strings}
use citywalk.Delivery.Allotted.{bucket_sum}

abbrev pub one_if : Bool → ℕ
one_if true = 1
one_if false = 0

unfoldable pub count : String → List String → ℕ
count s [] = 0
count s (t ∷ ts) = one_if (str_eq s t) + count s ts

count-contains : (s : String) (ts : List String) → contains s ts ≡ false → count s ts ≡ 0
unfolding count
count-contains s [] h = refl
count-contains s (t ∷ ts) h = ground (arith, h, count-contains s ts)

pub count-Distinct : (s : String) (ts : List String) → Distinct ts → count s ts ≤ 1
unfolding count
count-Distinct s [] d = omega arith
count-Distinct s (t ∷ ts) d = elim (Bool-cases (str_eq s t)) [
  | inr other ↦ rw other (omega (arith, count-Distinct s ts d.1))
  | inl same ↦
      let absent : contains s ts ≡ false =
        subst (λ x. contains x ts ≡ false) (sym ((eq_iff s t).0 same)) d.0 in
      rw same (omega (arith, count-contains s ts absent))
]

pub contains-count : (s : String) (ts : List String) → contains s ts ≡ true → 1 ≤ count s ts
unfolding count
contains-count s [] h = ground (arith, h)
contains-count s (t ∷ ts) h = ground (arith, h, contains-count s ts)

pub count-pos : (s : String) (ts : List String) → 1 ≤ count s ts → contains s ts ≡ true
unfolding count
count-pos s [] h = ground (arith, h)
count-pos s (t ∷ ts) h = ground (arith, h, count-pos s ts)

absent_from_rest : (t : String) (ts : List String) → count t (t ∷ ts) ≤ 1 → contains t ts ≡ false
unfolding count
absent_from_rest t ts h = elim (Bool-cases (contains t ts)) [
  | inr absent ↦ absent
  | inl present ↦ absurd (ground (arith, h, (eq_iff t t).1 refl, contains-count t ts present))
]

-- A list in which nothing stands twice is distinct.
pub Distinct-count : (ts : List String) → ((s : String) → count s ts ≤ 1) → Distinct ts
unfolding count
Distinct-count [] h = tt
Distinct-count (t ∷ ts) h =
    (absent_from_rest t ts (h t), Distinct-count ts (λ s. omega (arith, h s)))

count-insert_string :
    (x s : String) (ts : List String) → count x (insert_string s ts) ≡ count x (s ∷ ts)
unfolding count insert_string
count-insert_string x s [] = refl
count-insert_string x s (t ∷ ts) = elim (Bool-cases (str_lt t s)) [
  | inl first ↦ rw first (omega (arith, count-insert_string x s ts))
  | inr behind ↦ rw behind
]

pub count-sort_strings : (x : String) (ts : List String) → count x (sort_strings ts) ≡ count x ts
unfolding count sort_strings
count-sort_strings x [] = refl
count-sort_strings x (t ∷ ts) =
    count-insert_string x t (sort_strings ts)
    ∙ ap (λ (n : ℕ). one_if (str_eq x t) + n) (count-sort_strings x ts)

abbrev natural_ids : (f : Floats) → List (NaturalShare f) → List String
natural_ids f [] = []
natural_ids f (s ∷ shares) = s.id ∷ natural_ids f shares

abbrev pub keys : List (String × ℕ) → List String
keys [] = []
keys ((k, n) ∷ buckets) = k ∷ keys buckets

count-insert_natural :
    (f : Floats) (x : String) (s : NaturalShare f) (shares : List (NaturalShare f))
    → count x (natural_ids f (insert_natural f s shares)) ≡ count x (s.id ∷ natural_ids f shares)
unfolding count insert_natural
count-insert_natural f x s [] = refl
count-insert_natural f x s (t ∷ shares) = elim (Bool-cases (natural_before f t s)) [
  | inl first ↦ rw first (omega (arith, count-insert_natural f x s shares))
  | inr behind ↦ rw behind
]

count-sort_natural :
    (f : Floats) (x : String) (shares : List (NaturalShare f))
    → count x (natural_ids f (sort_natural f shares)) ≡ count x (natural_ids f shares)
unfolding count sort_natural
count-sort_natural f x [] = refl
count-sort_natural f x (s ∷ shares) =
    count-insert_natural f x s (sort_natural f shares)
    ∙ ap (λ (n : ℕ). one_if (str_eq x s.id) + n) (count-sort_natural f x shares)

natural_ids-natural_shares :
    (f : Floats) (weight : String → ℕ) (t : ℕ) (ids : List String)
    → natural_ids f (natural_shares f weight t ids) ≡ ids
unfolding natural_shares natural_share
natural_ids-natural_shares f weight t [] = refl
natural_ids-natural_shares f weight t (id ∷ ids) =
    ap (λ (l : List String). id ∷ l) (natural_ids-natural_shares f weight t ids)

keys-hand_natural :
    (f : Floats) (i leftover : ℕ) (shares : List (NaturalShare f))
    → keys (hand_natural f i leftover shares) ≡ natural_ids f shares
unfolding hand_natural
keys-hand_natural f i leftover [] = refl
keys-hand_natural f i leftover (s ∷ shares) =
    ap (λ (l : List String). s.id ∷ l) (keys-hand_natural f (suc i) leftover shares)

-- The allocation has each variant as often as the list it was made for.
pub count-natural_buckets :
    (f : Floats) (ids : List String) (weight : String → ℕ) (t : ℕ) (x : String)
    → count x (keys (natural_buckets f ids weight t)) ≡ count x ids
unfolding natural_buckets
count-natural_buckets f ids weight t x =
    let shares = natural_shares f weight t ids in
    ap (count x) (keys-hand_natural f 0 (t - natural_floors f shares) (sort_natural f shares))
    ∙ count-sort_natural f x shares
    ∙ ap (count x) (natural_ids-natural_shares f weight t ids)

natural_map-absent :
    (buckets : List (String × ℕ)) (x : String)
    → contains x (keys buckets) ≡ false
    → natural_map buckets x ≡ none
unfolding natural_map
natural_map-absent [] x h = refl
natural_map-absent ((k, n) ∷ buckets) x h =
    let rest : contains x (keys buckets) ≡ false = ground (arith, h) in
    let other : str_eq x k ≡ false = ground (arith, h) in
    rw (natural_map-absent buckets x rest, other)

pub natural_map-HasWeight :
    (buckets : List (String × ℕ)) (x : String)
    → contains x (keys buckets) ≡ true
    → HasWeight (natural_map buckets) x
unfolding natural_map
natural_map-HasWeight [] x h = absurd (ground (arith, h))
natural_map-HasWeight ((k, n) ∷ buckets) x h = elim (Bool-cases (contains x (keys buckets))) [
  | inl later ↦ let (m, found) = natural_map-HasWeight buckets x later in (m, rw found)
  | inr absent ↦
      let same : str_eq x k ≡ true = ground (arith, h, absent) in
      (n, rw (natural_map-absent buckets x absent, same))
]

-- One more entry, of a key that no later entry has.
width-cons :
    (k : String) (n : ℕ) (buckets : List (String × ℕ)) (x : String)
    → contains k (keys buckets) ≡ false
    → width (natural_map ((k, n) ∷ buckets)) x
      ≡ n * one_if (str_eq x k) + width (natural_map buckets) x
unfolding natural_map
width-cons k n buckets x new = elim (Bool-cases (str_eq x k)) [
  | inl same ↦
      let absent =
        subst (λ (y : String). contains y (keys buckets) ≡ false) (sym ((eq_iff x k).0 same)) new in
      rw (natural_map-absent buckets x absent, same) (omega arith)
  | inr other ↦ elim (Option-cases (natural_map buckets x)) [
    | inl absent ↦ rw (absent, other) (omega arith)
    | inr (w, found) ↦ rw (found, other) (omega arith)
  ]
]

total-cons :
    (k : String) (n : ℕ) (buckets : List (String × ℕ)) (ids : List String)
    → contains k (keys buckets) ≡ false
    → total (natural_map ((k, n) ∷ buckets)) ids ≡ n * count k ids + total (natural_map buckets) ids
unfolding count
total-cons k n buckets [] new = omega arith
total-cons k n buckets (x ∷ ids) new =
    let here = width-cons k n buckets x new in
    let there = total-cons k n buckets ids new in
    let flip : one_if (str_eq x k) ≡ one_if (str_eq k x) = ground (arith, eq_iff x k, eq_iff k x) in
    let spread : n * (one_if (str_eq k x) + count k ids)
        ≡ n * one_if (str_eq k x) + n * count k ids =
      grind arith in
    omega (arith, here, there, ap (λ (m : ℕ). n * m) flip, spread)

-- The weights of the ids add up to all buckets, where the keys are distinct and each is one of the ids.
pub total-natural_map :
    (buckets : List (String × ℕ)) (ids : List String)
    → Distinct (keys buckets)
    → All (λ k. count k ids ≡ 1) (keys buckets)
    → total (natural_map buckets) ids ≡ bucket_sum buckets
unfolding natural_map
total-natural_map [] ids d once = nothing ids
  where
    nothing : (xs : List String) → total (natural_map []) xs ≡ 0
    nothing [] = refl
    nothing (x ∷ xs) = omega (arith, nothing xs)
total-natural_map ((k, n) ∷ buckets) ids d once =
    let one : n * count k ids ≡ n * 1 = ap (λ (m : ℕ). n * m) once.0 in
    omega (arith, total-cons k n buckets ids d.0, total-natural_map buckets ids d.1 once.1, one)
