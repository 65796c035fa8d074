-- ===== src/Assign/Scenarios.antt =====
-- Runs and examples of the range tables.
use citywalk.Prelude.{
  ℕ, ◌-◌, ◌^◌, ◌≤◌, ◌<◌, String, ◌≡◌, ◌⊎◌, refl, true, false, Option, [], ◌∷◌, ok, err, arith,
}
use citywalk.Prelude.Int.{ℤ, pos}
use citywalk.Assign.Bucket.{bucket_count, bucket}
use citywalk.Assign.RangeTable.{RangeTable, not_covered, new_range_table, reweight, lookup}
use citywalk.Assign.Accepts.{
  total, IsSplit, split_table, new_range_table-accepts, new_range_table-ok,
}
use citywalk.Assign.Intervals.{Owner, lookup_total}
use citywalk.Assign.Assignment.{assign, assign_total}
use citywalk.Assign.Reweight.{three, weights_of, IsSplit-three, reweight-keeps, reweight_shifts}
use citywalk.Assign.Overflow.{new_range_table-overflow}

abbrev halves : String → Option ℤ
halves = weights_of 5000 3000 2000

abbrev shifted : String → Option ℤ
shifted = weights_of 4000 3000 3000

abbrev halves_table : RangeTable
halves_table = split_table halves three 0

abbrev shifted_table : RangeTable
shifted_table = split_table shifted three 0

halves-made : new_range_table three halves (pos 0) ≡ ok halves_table
halves-made = new_range_table-accepts halves three 0 (IsSplit-three 5000 3000 2000 refl)

shifted-made : new_range_table three shifted (pos 0) ≡ ok shifted_table
shifted-made = new_range_table-accepts shifted three 0 (IsSplit-three 4000 3000 3000 refl)

reweight-made : reweight halves_table shifted (pos 0) ≡ ok shifted_table
unfolding reweight
reweight-made = shifted-made

lookup_test : lookup halves_table (pos 7999) ≡ ok ("b", false)
unfolding lookup
lookup_test = refl

new_range_table-ok_example :
    (k : ℕ) × (pos 0 ≡ pos k) × IsSplit halves three k × (halves_table ≡ split_table halves three k)
new_range_table-ok_example =
    new_range_table-ok halves three (pos 0) halves_table (omega arith) halves-made

lookup_total_example :
    (5000 < bucket_count
      → ((o : Owner halves three 5000) × (lookup halves_table (pos 5000) ≡ ok (o.owner, false)))
        ⊎ ((total halves three ≤ 5000) × (lookup halves_table (pos 5000) ≡ ok ("", true))))
    × (bucket_count ≤ 5000 → lookup halves_table (pos 5000) ≡ err (not_covered (pos 5000)))
lookup_total_example = lookup_total halves three (pos 0) halves_table (omega arith) halves-made 5000

assign_total_example :
    ((o : Owner halves three (bucket "salt" "user")) × (assign halves_table "salt" "user"
        ≡ ok (record { bucket = bucket "salt" "user"; variant = o.owner; is_holdout = false })))
    ⊎ ((total halves three ≤ bucket "salt" "user")
        × (assign halves_table "salt" "user"
            ≡ ok (record { bucket = bucket "salt" "user"; variant = ""; is_holdout = true })))
assign_total_example =
    assign_total halves three (pos 0) halves_table (omega arith) halves-made "salt" "user"

reweight-keeps_example :
    (lookup halves_table (pos 5500) ≡ ok ("b", false))
    × (lookup shifted_table (pos 5500) ≡ ok ("b", false))
reweight-keeps_example =
    reweight-keeps halves three (pos 0) halves_table (omega arith) halves-made shifted (pos 0)
      shifted_table (omega arith) reweight-made ("a" ∷ []) ("c" ∷ []) "b" 5500 refl (omega arith)
      (omega arith) (omega arith) (omega arith)

reweight_shifts_example :
    (t' : RangeTable) × (reweight
        (split_table (weights_of 100 9900 0) three 0)
        (weights_of 0 9900 100)
        (pos 0)
      ≡ ok t')
    × ((b : ℕ)
        → b < 100
        → (lookup (split_table (weights_of 100 9900 0) three 0) (pos b) ≡ ok ("a", false))
          × (lookup t' (pos b) ≡ ok ("b", false)))
    × ((b : ℕ)
        → 9900 ≤ b
        → b < bucket_count
        → (lookup (split_table (weights_of 100 9900 0) three 0) (pos b) ≡ ok ("b", false))
          × (lookup t' (pos b) ≡ ok ("c", false)))
reweight_shifts_example =
    reweight_shifts 100 (omega arith) (split_table (weights_of 100 9900 0) three 0)
      (new_range_table-accepts (weights_of 100 9900 0) three 0 (IsSplit-three 100 9900 0 refl))

new_range_table-overflow_example :
    (t : RangeTable) × (new_range_table three (weights_of (2 ^ 63 - 1) (2 ^ 63 - 1) 10002) (pos 0)
      ≡ ok t)
    × ((n : ℕ) → n < bucket_count → lookup t (pos n) ≡ ok ("a", false))
new_range_table-overflow_example =
    new_range_table-overflow (2 ^ 63 - 1) (2 ^ 63 - 1) 10002 (omega arith) (omega arith)
      (omega arith) refl (omega arith)
