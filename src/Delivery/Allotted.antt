-- ===== src/Delivery/Allotted.antt =====
-- The allocation of an experiment's buckets hands out each of them.
use native.Mathlib.Omega.{arith}
use citywalk.Prelude.{
  ℕ, suc, ◌+◌, ◌-◌, ◌*◌, ◌/◌, ◌≤◌, ◌<◌, String, ◌≡◌, refl, sym, ◌∙◌, ap, false, List, [], ◌∷◌, ltb,
  Bool-cases, inl, inr, length,
}
use citywalk.Prelude.Int.{ℤ, pos, pos_part}
use citywalk.Delivery.Allocation.{Floats, allocate_experiment_buckets}
use citywalk.Delivery.Natural.{
  AreNatural, lifted, allocate_experiment_buckets-lifted, NaturalShare, natural_share,
  natural_shares, natural_floors, natural_before, insert_natural, sort_natural, hand_natural,
  natural_buckets,
}

-- IEEE 754 division rounds to the nearest float: for products below 2^53 the quotient by 100, rounded
-- down, is the integer quotient.
abbrev pub FloorExact : Floats → Type 0
FloorExact f =
    (w t : ℕ)
    → w * t < 9007199254740992
    → f.to_int (f.div (f.mul (f.of_int (pos w)) (f.of_int (pos t))) (f.of_int (pos 100)))
      ≡ pos (w * t / 100)

abbrev pub bucket_sum : List (String × ℕ) → ℕ
bucket_sum [] = 0
bucket_sum ((id, n) ∷ buckets) = n + bucket_sum buckets

abbrev pub weight_total : (String → ℕ) → List String → ℕ
weight_total weight [] = 0
weight_total weight (id ∷ ids) = weight id + weight_total weight ids

insert_natural-sum :
    (f : Floats) (s : NaturalShare f) (shares : List (NaturalShare f))
    → natural_floors f (insert_natural f s shares) ≡ s.floor + natural_floors f shares
unfolding insert_natural
insert_natural-sum f s [] = refl
insert_natural-sum f s (x ∷ shares) = elim (Bool-cases (natural_before f x s)) [
  | inl first ↦ rw first (omega (arith, insert_natural-sum f s shares))
  | inr behind ↦ rw behind
]

insert_natural-length :
    (f : Floats) (s : NaturalShare f) (shares : List (NaturalShare f))
    → length (insert_natural f s shares) ≡ suc (length shares)
unfolding insert_natural
insert_natural-length f s [] = refl
insert_natural-length f s (x ∷ shares) = elim (Bool-cases (natural_before f x s)) [
  | inl first ↦ rw first (omega (arith, insert_natural-length f s shares))
  | inr behind ↦ rw behind
]

sort_natural-sum :
    (f : Floats) (shares : List (NaturalShare f))
    → natural_floors f (sort_natural f shares) ≡ natural_floors f shares
unfolding sort_natural
sort_natural-sum f [] = refl
sort_natural-sum f (s ∷ shares) =
    omega (arith, insert_natural-sum f s (sort_natural f shares), sort_natural-sum f shares)

sort_natural-length :
    (f : Floats) (shares : List (NaturalShare f)) → length (sort_natural f shares) ≡ length shares
unfolding sort_natural
sort_natural-length f [] = refl
sort_natural-length f (s ∷ shares) =
    omega (arith, insert_natural-length f s (sort_natural f shares), sort_natural-length f shares)

hand_natural-sum :
    (f : Floats) (i leftover : ℕ) (shares : List (NaturalShare f))
    → i ≤ leftover
    → leftover ≤ i + length shares
    → bucket_sum (hand_natural f i leftover shares) + i ≡ natural_floors f shares + leftover
unfolding hand_natural
hand_natural-sum f i leftover [] le enough = omega (arith, le, enough)
hand_natural-sum f i leftover (s ∷ shares) le enough = elim (Bool-cases (ltb i leftover)) [
  | inl more ↦
      let lt : i < leftover = ground (arith, more) in
      rw more (
        omega (
          arith,
          hand_natural-sum f (suc i) leftover shares (omega (arith, lt)) (omega (arith, enough)),
        ))
  | inr done ↦
      let ge : leftover ≤ i = ground (arith, done) in
      rw done (omega (arith, le, ge, rest (suc i) shares (omega (arith, ge))))
]
  where
    rest :
        (j : ℕ) (xs : List (NaturalShare f))
        → leftover ≤ j
        → bucket_sum (hand_natural f j leftover xs) ≡ natural_floors f xs
    rest j [] ge = refl
    rest j (x ∷ xs) ge =
        let h : ltb j leftover ≡ false = ground (arith, ge) in
        rw h (omega (arith, rest (suc j) xs (omega (arith, ge))))

-- A hundred times the floors: no more than the weighted total, and short of it by less than a hundred
-- for each share.
floors-near :
    (f : Floats) (weight : String → ℕ) (t : ℕ) (ids : List String)
    → FloorExact f
    → weight_total weight ids * t < 9007199254740992
    → let sum = natural_floors f (natural_shares f weight t ids) in
      (sum * 100 ≤ weight_total weight ids * t)
      × (weight_total weight ids * t ≤ sum * 100 + 99 * length (natural_shares f weight t ids))
unfolding natural_shares natural_share
floors-near f weight t [] exact fits = (omega arith, omega arith)
floors-near f weight t (id ∷ ids) exact fits =
    let w = weight id in
    let ws = weight_total weight ids in
    let spread : (w + ws) * t ≡ w * t + ws * t = grind arith in
    let one : pos_part
          (f.to_int (f.div (f.mul (f.of_int (pos w)) (f.of_int (pos t))) (f.of_int (pos 100))))
        ≡ w * t / 100 =
      ap pos_part (exact w t (omega (arith, fits, spread))) in
    let (low, high) = floors-near f weight t ids exact (omega (arith, fits, spread)) in
    (omega (arith, spread, one, low), omega (arith, spread, one, high))

shares-AreNatural :
    (f : Floats) (weight : String → ℕ) (t : ℕ) (ids : List String)
    → FloorExact f
    → weight_total weight ids * t < 9007199254740992
    → AreNatural f weight t ids
shares-AreNatural f weight t [] exact fits = tt
shares-AreNatural f weight t (id ∷ ids) exact fits =
    let w = weight id in
    let ws = weight_total weight ids in
    let spread : (w + ws) * t ≡ w * t + ws * t = grind arith in
    let one = exact w t (omega (arith, fits, spread)) in
    (
      one ∙ ap (λ (z : ℤ). pos (pos_part z)) (sym one),
      shares-AreNatural f weight t ids exact (omega (arith, fits, spread)),
    )

natural_buckets-sum :
    (f : Floats) (ids : List String) (weight_percent : String → ℕ) (total_buckets : ℕ)
    → FloorExact f
    → weight_total weight_percent ids ≡ 100
    → total_buckets < 70368744177664
    → bucket_sum (natural_buckets f ids weight_percent total_buckets) ≡ total_buckets
unfolding natural_buckets
natural_buckets-sum f ids weight t exact whole fits =
    let shares = natural_shares f weight t ids in
    let scaled : weight_total weight ids * t ≡ 100 * t = ap (λ (w : ℕ). w * t) whole in
    let (low, high) = floors-near f weight t ids exact (omega (arith, scaled, fits)) in
    let same = sort_natural-sum f shares in
    let count = sort_natural-length f shares in
    let handed =
      hand_natural-sum f 0 (t - natural_floors f shares) (sort_natural f shares) (omega arith)
        (omega (arith, low, high, scaled, count)) in
    omega (arith, handed, same, low, scaled)

-- Where the weights are natural numbers that sum to 100, there are fewer than 2^46 buckets, and the float
-- division rounds down exactly: the program allocates natural numbers, those of `natural_buckets`, which
-- sum to the total.
pub allocate_experiment_buckets-natural :
    (f : Floats) (ids : List String) (weight : String → ℕ) (t : ℕ)
    → FloorExact f
    → weight_total weight ids ≡ 100
    → t < 70368744177664
    → (allocate_experiment_buckets f ids (λ id. pos (weight id)) (pos t)
        ≡ lifted (natural_buckets f ids weight t))
      × (bucket_sum (natural_buckets f ids weight t) ≡ t)
allocate_experiment_buckets-natural f ids weight t exact whole fits =
    let scaled : weight_total weight ids * t ≡ 100 * t = ap (λ (w : ℕ). w * t) whole in
    let (low, high) = floors-near f weight t ids exact (omega (arith, scaled, fits)) in
    (
      allocate_experiment_buckets-lifted f ids weight t
          (shares-AreNatural f weight t ids exact (omega (arith, scaled, fits)))
          (omega (arith, low, scaled)) (sort_natural-sum f (natural_shares f weight t ids))
          (omega (arith, fits)),
      natural_buckets-sum f ids weight t exact whole fits,
    )
