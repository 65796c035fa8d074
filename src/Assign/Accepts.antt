-- ===== src/Assign/Accepts.antt =====
-- When `NewRangeTable` accepts, and the table that it then returns.
use citywalk.Prelude.{
  ℕ, ◌+◌, ◌^◌, ◌<◌, String, ◌≡◌, refl, ◌∙◌, ◌≢◌, inl, inr, true, false, Option, none, some, List,
  [], ◌∷◌, ◌++◌, contains, Distinct, arith, eq_iff, ok, All, Result-cases,
}
use citywalk.Prelude.Int.{ℤ, pos, negsuc, add64-pos, pos_part}
use mathlib.Core.List.{append-nil, append_assoc}
use citywalk.Assign.Bucket.{bucket_count}
use citywalk.Assign.RangeTable.{
  VariantRange, RangeTable, checked_width, add_ranges, add_holdout, new_range_table,
}

-- The width of a variant, and of a list of them, in unbounded numbers.
abbrev pub width_of : Option ℤ → ℕ
width_of none = 0
width_of (some w) = pos_part w

abbrev pub width : (String → Option ℤ) → String → ℕ
width weights v = width_of (weights v)

abbrev pub total : (String → Option ℤ) → List String → ℕ
total weights [] = 0
total weights (v ∷ order) = width weights v + total weights order

-- The variant has a weight, and it is not negative.
abbrev pub HasWeight : (String → Option ℤ) → String → Type 0
HasWeight weights v = (n : ℕ) × (weights v ≡ some (pos n))

-- Back to back ranges from `c` on.
abbrev pub ranges_from : (String → Option ℤ) → ℕ → List String → List VariantRange
ranges_from weights c [] = []
ranges_from weights c (v ∷ order) =
    record { variant = v; start = pos c; end = pos (c + width weights v); is_holdout = false }
    ∷ ranges_from weights (c + width weights v) order

abbrev pub holdout_range : ℕ → ℕ → VariantRange
holdout_range c k = record { variant = ""; start = pos c; end = pos (c + k); is_holdout = true }

abbrev Fresh : List String → List String → Type 0
Fresh seen order = All (λ v. contains v seen ≡ false) order

Fresh-cons :
    (v : String) (seen order : List String)
    → Fresh seen order
    → contains v order ≡ false
    → Fresh (v ∷ seen) order
Fresh-cons v seen [] f h = tt
Fresh-cons v seen (u ∷ us) f h =
    (ground (arith, eq_iff u v, eq_iff v u), Fresh-cons v seen us f.1 (ground arith))

Fresh-uncons :
    (v : String) (seen order : List String)
    → Fresh (v ∷ seen) order
    → Fresh seen order × (contains v order ≡ false)
Fresh-uncons v seen [] f = (tt, refl)
Fresh-uncons v seen (u ∷ us) f =
    let (fresh, absent) = Fresh-uncons v seen us f.1 in
    ((ground arith, fresh), ground (arith, eq_iff u v, eq_iff v u))

pub checked_width-ok :
    (weights : String → Option ℤ) (seen : List String) (v : String) (n : ℕ)
    → contains v seen ≡ false
    → weights v ≡ some (pos n)
    → checked_width weights seen v ≡ ok (pos n)
unfolding checked_width
checked_width-ok weights seen v n new e = ground arith

checked_width-conditions :
    (weights : String → Option ℤ) (seen : List String) (v : String) (w : ℤ)
    → checked_width weights seen v ≡ ok w
    → (contains v seen ≡ false) × HasWeight weights v
unfolding checked_width
checked_width-conditions weights seen v (pos n) h = (ground arith, (n, ground arith))
checked_width-conditions weights seen v (negsuc n) h = absurd (ground arith)

module _ (weights : String → Option ℤ) where
  add_ranges-ok :
      (order : List String) (ranges : List VariantRange) (c : ℕ) (seen : List String)
      → Fresh seen order
      → Distinct order
      → All (HasWeight weights) order
      → c + total weights order < 2 ^ 63
      → add_ranges weights order ranges (pos c) seen
        ≡ ok (ranges ++ ranges_from weights c order, pos (c + total weights order))
  unfolding add_ranges
  add_ranges-ok [] ranges c seen f d ws lt = ground (arith, append-nil ranges)
  add_ranges-ok (v ∷ order) ranges c seen f d ((n, e), ws) lt =
      let fits : c + (n + total weights order) < 2 ^ 63 = rw e at lt in
      let made : VariantRange = record {
        variant = v;
        start = pos c;
        end = pos (c + n);
        is_holdout = false;
      } in
      let rest =
        add_ranges-ok order (ranges ++ made ∷ []) (c + n) (v ∷ seen)
          (Fresh-cons v seen order f.1 d.0) d.1 ws (omega arith) in
      rw (checked_width-ok weights seen v n f.0 e, e, add64-pos c n (omega arith))
        (rest ∙ ground (arith, append_assoc ranges (made ∷ []) (ranges_from weights (c + n) order)))

  add_ranges-conditions :
      (order : List String) (ranges : List VariantRange) (c : ℤ) (seen : List String)
      {r : List VariantRange × ℤ}
      → add_ranges weights order ranges c seen ≡ ok r
      → Fresh seen order × Distinct order × All (HasWeight weights) order
  unfolding add_ranges
  add_ranges-conditions [] ranges c seen h = (tt, tt, tt)
  add_ranges-conditions (v ∷ order) ranges c seen h =
      elim (Result-cases (checked_width weights seen v)) [
        | inr (e, refused) ↦ cc (rw refused at h)
        | inl (w, passed) ↦
            let (f, d, ws) = add_ranges-conditions order _ _ (v ∷ seen) (rw passed at h) in
            let (fresh, absent) = Fresh-uncons v seen order f in
            let (new, weighted) = checked_width-conditions weights seen v w passed in
            ((new, fresh), (absent, d), (weighted, ws))
      ]

-- What `NewRangeTable` asks of its arguments.
pub record IsSplit (weights : String → Option ℤ) (order : List String) (k : ℕ) : Type 0 where
  pub some_variant : order ≢ []
  pub distinct : Distinct order
  pub weighted : All (HasWeight weights) order
  pub whole : total weights order + k ≡ bucket_count

abbrev pub split_table : (String → Option ℤ) → List String → ℕ → RangeTable
split_table weights order k = record {
  ranges = ranges_from weights 0 order ++ holdout_range (total weights order) k ∷ [];
}

add_holdout-ok :
    (ranges : List VariantRange) (c k : ℕ)
    → c + k ≡ bucket_count
    → add_holdout (pos k) (ranges, pos c)
      ≡ ok (record { ranges = ranges ++ holdout_range c k ∷ [] })
unfolding add_holdout
add_holdout-ok ranges c k h = rw (add64-pos c k (omega arith)) (ground arith)

add_holdout-conditions :
    (ranges : List VariantRange) (c : ℕ) (h : ℤ) (t : RangeTable)
    → c + pos_part h < 2 ^ 63
    → add_holdout h (ranges, pos c) ≡ ok t
    → (k : ℕ) × (h ≡ pos k) × (c + k ≡ bucket_count)
unfolding add_holdout
add_holdout-conditions ranges c (pos k) t lt e = (k, refl, ground (arith, add64-pos c k))
add_holdout-conditions ranges c (negsuc k) t lt e = absurd (ground arith)

Fresh-nil : (order : List String) → Fresh [] order
Fresh-nil [] = tt
Fresh-nil (v ∷ order) = (refl, Fresh-nil order)

add_ranges-All :
    (weights : String → Option ℤ) (order : List String)
    → Distinct order
    → All (HasWeight weights) order
    → total weights order < 2 ^ 63
    → add_ranges weights order [] (pos 0) []
      ≡ ok (ranges_from weights 0 order, pos (total weights order))
add_ranges-All weights order d ws lt =
    let zero_first : 0 + total weights order ≡ total weights order = omega arith in
    rw zero_first at (add_ranges-ok weights order [] 0 [] (Fresh-nil order) d ws (omega arith))

-- Distinct variants with weights that are not negative and sum, with the holdout, to the number of
-- buckets give the table of back-to-back ranges from 0 in the given order, the holdout last.
pub new_range_table-accepts :
    (weights : String → Option ℤ) (order : List String) (k : ℕ)
    → IsSplit weights order k
    → new_range_table order weights (pos k) ≡ ok (split_table weights order k)
unfolding new_range_table
new_range_table-accepts weights [] k split = absurd (split.some_variant refl)
new_range_table-accepts weights (v ∷ order) k split =
    rw
      (add_ranges-All weights (v ∷ order) split.distinct split.weighted
        (omega (arith, split.whole)))
      (add_holdout-ok (ranges_from weights 0 (v ∷ order)) (total weights (v ∷ order)) k split.whole)

-- If the weights do not overflow an `int`, `NewRangeTable` returns a table only for distinct variants
-- with weights that are not negative and sum, with the holdout, to the number of buckets; and that
-- table is the one of back-to-back ranges.
pub new_range_table-ok :
    (weights : String → Option ℤ) (order : List String) (h : ℤ) (t : RangeTable)
    → total weights order + pos_part h < 2 ^ 63
    → new_range_table order weights h ≡ ok t
    → (k : ℕ) × (h ≡ pos k) × IsSplit weights order k × (t ≡ split_table weights order k)
unfolding new_range_table
new_range_table-ok weights [] h t lt e = cc
new_range_table-ok weights (v ∷ order) h t lt e =
    elim (Result-cases (add_ranges weights (v ∷ order) [] (pos 0) [])) [
      | inr (x, refused) ↦ cc (rw refused at e)
      | inl (r, passed) ↦
          let (_, d, ws) = add_ranges-conditions weights (v ∷ order) [] (pos 0) [] passed in
          let all = add_ranges-All weights (v ∷ order) d ws (omega arith) in
          let held : add_holdout h
                (ranges_from weights 0 (v ∷ order), pos (total weights (v ∷ order)))
              ≡ ok t =
            rw all at e in
          let (k, is_k, whole) =
            add_holdout-conditions (ranges_from weights 0 (v ∷ order)) (total weights (v ∷ order)) h
              t lt held in
          (
            k,
            is_k,
            record { some_variant = λ x. cc; distinct = d; weighted = ws; whole = whole },
            cc (
              held,
              is_k,
              add_holdout-ok (ranges_from weights 0 (v ∷ order)) (total weights (v ∷ order)) k
                  whole,
            ),
          )
    ]
