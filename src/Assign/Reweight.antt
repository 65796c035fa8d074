-- ===== src/Assign/Reweight.antt =====
-- What `Reweight` of rangetable.go keeps in place, and what it moves.
use citywalk.Prelude.{
  ℕ, ◌+◌, ◌-◌, ◌^◌, ◌<◌, ◌≤◌, String, ◌≡◌, refl, sym, ◌∙◌, false, Option, none, some, List, [], ◌∷◌,
  ◌++◌, arith, ok, str_eq, if◌then◌else◌,
}
use citywalk.Prelude.Int.{ℤ, pos, pos_part}
use citywalk.Assign.Bucket.{bucket_count}
use citywalk.Assign.RangeTable.{RangeTable, new_range_table, lookup, reweight}
use citywalk.Assign.Accepts.{width, total, IsSplit, split_table, new_range_table-accepts}
use citywalk.Assign.Intervals.{lookup-interval, order_of-made}

reweight-eq :
    (weights : String → Option ℤ) (order : List String) (h : ℤ) (t : RangeTable)
    → total weights order + pos_part h < 2 ^ 63
    → new_range_table order weights h ≡ ok t
    → (new_weights : String → Option ℤ) (new_h : ℤ)
    → reweight t new_weights new_h ≡ new_range_table order new_weights new_h
unfolding reweight
reweight-eq weights order h t fits made new_weights new_h =
    rw (order_of-made weights order h t fits made)

-- Take a table that `NewRangeTable` made and a table that `Reweight` made of it, where neither the
-- old nor the new weights overflow an `int`. A bucket that lies in the interval of one variant both
-- by the old weights and by the new ones is looked up as that variant in both tables.
pub reweight-keeps :
    (weights : String → Option ℤ) (order : List String) (h : ℤ) (t : RangeTable)
    → total weights order + pos_part h < 2 ^ 63
    → new_range_table order weights h ≡ ok t
    → (new_weights : String → Option ℤ) (new_h : ℤ) (t' : RangeTable)
    → total new_weights order + pos_part new_h < 2 ^ 63
    → reweight t new_weights new_h ≡ ok t'
    → (pre post : List String) (v : String) (b : ℕ) → order ≡ pre ++ v ∷ post
    → total weights pre ≤ b
    → b < total weights pre + width weights v
    → total new_weights pre ≤ b
    → b < total new_weights pre + width new_weights v
    → (lookup t (pos b) ≡ ok (v, false)) × (lookup t' (pos b) ≡ ok (v, false))
reweight-keeps weights order h t fits made new_weights new_h t' fits' made' pre post v b place =
    let same = reweight-eq weights order h t fits made new_weights new_h in
    λ low high low' high'. (
      lookup-interval weights order h t fits made pre post v b place low high,
      lookup-interval new_weights order new_h t' fits' (sym same ∙ made') pre post v b place low'
          high',
    )

abbrev pub three : List String
three = "a" ∷ "b" ∷ "c" ∷ []

-- The weights of three variants in turn.
abbrev pub weights_of : ℕ → ℕ → ℕ → String → Option ℤ
weights_of a b c v =
    if str_eq v "a"
    then some (pos a)
    else if str_eq v "b"
    then some (pos b)
    else if str_eq v "c"
    then some (pos c)
    else none

pub IsSplit-three : (a b c : ℕ) → a + (b + c) ≡ bucket_count → IsSplit (weights_of a b c) three 0
IsSplit-three a b c sum = record {
  some_variant = λ e. cc;
  distinct = (refl, (refl, (refl, tt)));
  weighted = ((a, refl), ((b, refl), ((c, refl), tt)));
  whole = omega arith;
}

-- For the variants a, b and c in this order, with the weights k, 10000 - k and 0 and no holdout, for any
-- k of at most 5000: `Reweight` to the weights 0, 10000 - k and k succeeds, and moves each of the first k
-- buckets from a to b and each of the last k buckets from b to c.
pub reweight_shifts :
    (k : ℕ)
    → k ≤ bucket_count - k
    → (t : RangeTable) → new_range_table three (weights_of k (bucket_count - k) 0) (pos 0) ≡ ok t
    → (t' : RangeTable) × (reweight t (weights_of 0 (bucket_count - k) k) (pos 0) ≡ ok t')
      × ((b : ℕ)
          → b < k
          → (lookup t (pos b) ≡ ok ("a", false)) × (lookup t' (pos b) ≡ ok ("b", false)))
      × ((b : ℕ)
          → bucket_count - k ≤ b
          → b < bucket_count
          → (lookup t (pos b) ≡ ok ("b", false)) × (lookup t' (pos b) ≡ ok ("c", false)))
reweight_shifts k half t made =
    let n : ℕ = bucket_count - k in
    let old = weights_of k n 0 in
    let new = weights_of 0 n k in
    let after = split_table new three 0 in
    let remade = new_range_table-accepts new three 0 (IsSplit-three 0 n k (omega arith)) in
    let old_fits : total old three + 0 < 2 ^ 63 = omega arith in
    let new_fits : total new three + 0 < 2 ^ 63 = omega arith in
    let was = lookup-interval old three (pos 0) t old_fits made in
    let is = lookup-interval new three (pos 0) after new_fits remade in
    (
      after,
      reweight-eq old three (pos 0) t old_fits made new (pos 0) ∙ remade,
      λ b low. (
        was [] ("b" ∷ "c" ∷ []) "a" b refl (omega arith) (omega arith),
        is ("a" ∷ []) ("c" ∷ []) "b" b refl (omega arith) (omega arith),
      ),
      λ b low high. (
        was ("a" ∷ []) ("c" ∷ []) "b" b refl (omega arith) (omega arith),
        is ("a" ∷ "b" ∷ []) [] "c" b refl (omega arith) (omega arith),
      ),
    )
