-- ===== src/Assign/Intervals.antt =====
-- What `Lookup` answers on a table that `NewRangeTable` made: each variant owns the interval of its
-- weight behind the variants before it, the holdout the trailing one; and what `Reweight` moves.
use native.Mathlib.Decide.{dec_lt}
use citywalk.Prelude.{
  ℕ, ◌+◌, ◌-◌, ◌^◌, ◌<◌, ◌≤◌, String, ◌≡◌, refl, ap, ◌⊎◌, inl, inr, Bool, true, false, ◌&&◌, Option,
  List, [], ◌∷◌, ◌++◌, arith, ok, err,
}
use citywalk.Prelude.Int.{ℤ, pos, pos_part, ltb_ℤ, leb_ℤ}
use citywalk.Assign.Bucket.{bucket_count}
use citywalk.Assign.RangeTable.{
  VariantRange, RangeTable, not_covered, new_range_table, find_range, lookup, order_of,
}
use citywalk.Assign.Accepts.{width, total, ranges_from, holdout_range, new_range_table-ok}

abbrev covers : ℕ → ℕ → ℕ → Bool
covers a b x = leb_ℤ (pos a) (pos x) && ltb_ℤ (pos x) (pos b)

covers_in : (a b x : ℕ) → a ≤ x → x < b → covers a b x ≡ true
covers_in a b x h k = ground arith

covers_above : (a b x : ℕ) → b ≤ x → covers a b x ≡ false
covers_above a b x h = ground arith

-- A bucket at or above the end of a block of ranges is looked up behind the block.
find_range-skip :
    (weights : String → Option ℤ) (c : ℕ) (order : List String) (rest : List VariantRange) (b : ℕ)
    → c + total weights order ≤ b
    → find_range (ranges_from weights c order ++ rest) (pos b) ≡ find_range rest (pos b)
unfolding find_range
find_range-skip weights c [] rest b h = refl
find_range-skip weights c (v ∷ order) rest b h =
    rw (covers_above c (c + width weights v) b (omega arith))
      (find_range-skip weights (c + width weights v) order rest b (omega arith))

-- A bucket inside the interval of a variant is looked up in its range.
find_range-hit :
    (weights : String → Option ℤ) (c : ℕ) (pre post : List String) (v : String)
    (rest : List VariantRange) (b : ℕ)
    → c + total weights pre ≤ b
    → b < c + total weights pre + width weights v
    → find_range (ranges_from weights c (pre ++ v ∷ post) ++ rest) (pos b) ≡ ok (v, false)
unfolding find_range
find_range-hit weights c [] post v rest b low high =
    rw (covers_in c (c + width weights v) b (omega arith) (omega arith))
find_range-hit weights c (u ∷ pre) post v rest b low high =
    rw (covers_above c (c + width weights u) b (omega arith))
      (find_range-hit weights (c + width weights u) pre post v rest b (omega arith) (omega arith))

find_range-holdout :
    (c k b : ℕ) → c ≤ b → b < c + k → find_range (holdout_range c k ∷ []) (pos b) ≡ ok ("", true)
unfolding find_range
find_range-holdout c k b low high = rw (covers_in c (c + k) b low high)

find_range-miss :
    (c k b : ℕ)
    → c + k ≤ b
    → find_range (holdout_range c k ∷ []) (pos b) ≡ err (not_covered (pos b))
unfolding find_range
find_range-miss c k b high = rw (covers_above c (c + k) b high)

-- The variant whose interval a number below the total lies in.
pub record Owner (weights : String → Option ℤ) (order : List String) (b : ℕ) : Type 0 where
  pub before : List String
  pub owner : String
  pub behind : List String
  pub place : order ≡ before ++ owner ∷ behind
  pub low : total weights before ≤ b
  pub high : b < total weights before + width weights owner

locate :
    (weights : String → Option ℤ) (order : List String) (b : ℕ)
    → b < total weights order
    → Owner weights order b
locate weights [] b h = elim h [ ]
locate weights (v ∷ order) b h = elim (dec_lt b (width weights v)) [
  | yes p ↦ record {
    before = [];
    owner = v;
    behind = order;
    place = refl;
    low = omega arith;
    high = omega arith;
  }
  | no p ↦
      let rest = locate weights order (b - width weights v) (omega arith) in
      record {
        before = v ∷ rest.before;
        owner = rest.owner;
        behind = rest.behind;
        place = ap (λ (vs : List String). v ∷ vs) rest.place;
        low = omega (arith, rest.low);
        high = omega (arith, rest.high);
      }
]

order_of-split :
    (weights : String → Option ℤ) (c : ℕ) (order : List String) (r : VariantRange)
    → r.is_holdout ≡ true
    → order_of (ranges_from weights c order ++ r ∷ []) ≡ order
unfolding order_of
order_of-split weights c [] r h = rw h
order_of-split weights c (v ∷ order) r h =
    ap (λ (vs : List String). v ∷ vs) (order_of-split weights (c + width weights v) order r h)

module _ (weights : String → Option ℤ) (order : List String) (h : ℤ) (t : RangeTable)
    (fits : total weights order + pos_part h < 2 ^ 63)
    (made : new_range_table order weights h ≡ ok t) where
  -- In a table that `NewRangeTable` made, where the weights do not overflow an `int`: every bucket
  -- from the total of the weights before a variant on, as many as the variant's own weight, is
  -- looked up as that variant, outside the holdout.
  pub lookup-interval :
      (pre post : List String) (v : String) (b : ℕ)
      → order ≡ pre ++ v ∷ post
      → total weights pre ≤ b
      → b < total weights pre + width weights v
      → lookup t (pos b) ≡ ok (v, false)
  unfolding lookup
  lookup-interval pre post v b place low high =
      let (k, _, _, table) = new_range_table-ok weights order h t fits made in
      rw (table, place) (find_range-hit weights 0 pre post v _ b (omega arith) (omega arith))

  -- In such a table every bucket behind the variants is in the holdout.
  pub lookup-holdout :
      (b : ℕ) → total weights order ≤ b → b < bucket_count → lookup t (pos b) ≡ ok ("", true)
  unfolding lookup
  lookup-holdout b low high =
      let (k, _, split, table) = new_range_table-ok weights order h t fits made in
      rw
        (
          table,
          find_range-skip weights 0 order (holdout_range (total weights order) k ∷ []) b
              (omega arith),
        )
        (find_range-holdout (total weights order) k b low (omega (arith, split.whole)))

  -- In a table that `NewRangeTable` made, where the weights do not overflow an `int`: every bucket
  -- below `BucketCount` is found, as the one variant in whose interval it lies or in the holdout
  -- behind all of them; and no bucket from `BucketCount` on is found.
  pub lookup_total :
      (b : ℕ)
      → (b < bucket_count
          → ((o : Owner weights order b) × (lookup t (pos b) ≡ ok (o.owner, false)))
            ⊎ ((total weights order ≤ b) × (lookup t (pos b) ≡ ok ("", true))))
        × (bucket_count ≤ b → lookup t (pos b) ≡ err (not_covered (pos b)))
  lookup_total b = (found, missed)
    where
      found :
          b < bucket_count
          → ((o : Owner weights order b) × (lookup t (pos b) ≡ ok (o.owner, false)))
            ⊎ ((total weights order ≤ b) × (lookup t (pos b) ≡ ok ("", true)))
      found below = elim (dec_lt b (total weights order)) [
        | yes p ↦
            let o = locate weights order b p in
            inl (o, lookup-interval o.before o.behind o.owner b o.place o.low o.high)
        | no p ↦ inr (omega arith, lookup-holdout b (omega arith) below)
      ]

      missed : bucket_count ≤ b → lookup t (pos b) ≡ err (not_covered (pos b))
      missed above =
          let (k, _, split, table) = new_range_table-ok weights order h t fits made in
          unfold lookup in
          rw
            (
              table,
              find_range-skip weights 0 order (holdout_range (total weights order) k ∷ []) b
                  (omega (arith, split.whole)),
            )
            (find_range-miss (total weights order) k b (omega (arith, split.whole)))

  pub order_of-made : order_of t.ranges ≡ order
  order_of-made =
      let (k, _, _, table) = new_range_table-ok weights order h t fits made in
      rw table (order_of-split weights 0 order (holdout_range (total weights order) k) refl)
