-- ===== src/Assign/RangeTable.antt =====
-- rangetable.go of internal/experiment/assign. An `int` is an integer that wraps at 64 bits; a
-- `map[string]int` is a function to `Option`.
use citywalk.Prelude.{
  String, Bool, true, false, ◌&&◌, Option, none, some, List, [], ◌∷◌, ◌++◌, contains, ok, err,
  Result, ◌>>=◌, if◌then◌else◌,
}
use citywalk.Prelude.Int.{ℤ, pos, add64, ltb_ℤ, leb_ℤ, eqb_ℤ}
use citywalk.Assign.Bucket.{bucket_count}

pub record VariantRange : Type 0 where
  pub variant : String
  pub start : ℤ
  pub end : ℤ
  pub is_holdout : Bool

pub record RangeTable : Type 0 where
  pub ranges : List VariantRange

pub data Error : Type 0 where
  no_variant : Error
  duplicate : String → Error
  no_weight : String → Error
  negative_weight : String → ℤ → Error
  negative_holdout : ℤ → Error
  wrong_sum : ℤ → Error
  not_covered : ℤ → Error

abbrev pub given_width : String → Option ℤ → Result Error ℤ
given_width variant none = err (no_weight variant)
given_width variant (some width) =
    if ltb_ℤ width (pos 0) then err (negative_weight variant width) else ok width

-- The guards of the loop of `NewRangeTable`, and the width that they let through.
unfoldable pub checked_width : (String → Option ℤ) → List String → String → Result Error ℤ
checked_width weights seen variant =
    if contains variant seen then err (duplicate variant) else given_width variant (weights variant)

-- The loop of `NewRangeTable`: the ranges made so far, `cumulative` and `seen`.
unfoldable pub add_ranges :
    (String → Option ℤ)
    → List String
    → List VariantRange
    → ℤ
    → List String
    → Result Error (List VariantRange × ℤ)
unfolding checked_width
add_ranges weights [] ranges cumulative seen = ok (ranges, cumulative)
add_ranges weights (variant ∷ order) ranges cumulative seen = do
  width ← checked_width weights seen variant
  let range : VariantRange = record {
    variant = variant;
    start = cumulative;
    end = add64 cumulative width;
    is_holdout = false;
  }
  add_ranges weights order (ranges ++ range ∷ []) (add64 cumulative width) (variant ∷ seen)

-- The trailing range and the test of the sum.
unfoldable pub add_holdout : ℤ → List VariantRange × ℤ → Result Error RangeTable
add_holdout holdout_weight (ranges, cumulative) =
    if ltb_ℤ holdout_weight (pos 0)
    then err (negative_holdout holdout_weight)
    else let total = add64 cumulative holdout_weight in
      let holdout : VariantRange = record {
        variant = "";
        start = cumulative;
        end = total;
        is_holdout = true;
      } in
      if eqb_ℤ total (pos bucket_count)
      then ok (record { ranges = ranges ++ holdout ∷ [] })
      else err (wrong_sum total)

unfoldable pub new_range_table : List String → (String → Option ℤ) → ℤ → Result Error RangeTable
unfolding add_ranges add_holdout
new_range_table [] weights holdout_weight = err no_variant
new_range_table (v ∷ order) weights holdout_weight =
    add_ranges weights (v ∷ order) [] (pos 0) [] >>= add_holdout holdout_weight

-- The variants of a table, in order: the loop of `Reweight`.
unfoldable pub order_of : List VariantRange → List String
order_of [] = []
order_of (r ∷ ranges) = if r.is_holdout then order_of ranges else r.variant ∷ order_of ranges

unfoldable pub reweight : RangeTable → (String → Option ℤ) → ℤ → Result Error RangeTable
unfolding order_of new_range_table
reweight current new_weights new_holdout_weight =
    new_range_table (order_of current.ranges) new_weights new_holdout_weight

-- The loop of `Lookup`.
unfoldable pub find_range : List VariantRange → ℤ → Result Error (String × Bool)
find_range [] bucket = err (not_covered bucket)
find_range (r ∷ ranges) bucket =
    if leb_ℤ r.start bucket && ltb_ℤ bucket r.end
    then ok (r.variant, r.is_holdout)
    else find_range ranges bucket

unfoldable pub lookup : RangeTable → ℤ → Result Error (String × Bool)
unfolding find_range
lookup t bucket = find_range t.ranges bucket
