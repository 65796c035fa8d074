-- ===== src/Assign/Assignment.antt =====
-- assign.go of internal/experiment/assign: the bucket of an identity, looked up in a table.
use citywalk.Prelude.{
  ℕ, ◌+◌, ◌^◌, ◌<◌, ◌≤◌, String, ◌≡◌, ◌⊎◌, inl, inr, Bool, true, false, Option, List, ok, Result,
  arith, ◌>>=◌,
}
use citywalk.Prelude.Int.{ℤ, pos, pos_part, ltb_ℤ}
use citywalk.Assign.Bucket.{bucket_count, bucket, bucket-lt}
use citywalk.Assign.RangeTable.{Error, RangeTable, new_range_table, lookup}
use citywalk.Assign.Accepts.{total}
use citywalk.Assign.Intervals.{Owner, lookup_total}

pub record Assignment : Type 0 where
  pub bucket : ℕ
  pub variant : String
  pub is_holdout : Bool

unfoldable pub assign : RangeTable → String → String → Result Error Assignment
assign table salt identity = do
  (variant, is_holdout) ← lookup table (pos (bucket salt identity))
  ok (record { bucket = bucket salt identity; variant = variant; is_holdout = is_holdout })

unfoldable pub in_project_holdout : String → ℤ → String → Bool
in_project_holdout project_salt holdout_bucket_count identity =
    ltb_ℤ (pos (bucket project_salt identity)) holdout_bucket_count

-- On a table that `NewRangeTable` made, where the weights do not overflow an `int`, `Assign`
-- returns for every salt and identity: the variant in whose interval the bucket of the identity
-- lies, or the holdout if the bucket lies behind all variants.
pub assign_total :
    (weights : String → Option ℤ) (order : List String) (h : ℤ) (t : RangeTable)
    → total weights order + pos_part h < 2 ^ 63
    → new_range_table order weights h ≡ ok t
    → (salt id : String)
    → ((o : Owner weights order (bucket salt id)) × (assign t salt id
          ≡ ok (record { bucket = bucket salt id; variant = o.owner; is_holdout = false })))
      ⊎ ((total weights order ≤ bucket salt id)
          × (assign t salt id
              ≡ ok (record { bucket = bucket salt id; variant = ""; is_holdout = true })))
unfolding assign
assign_total weights order h t fits made salt id =
    elim ((lookup_total weights order h t fits made (bucket salt id)).0 (bucket-lt salt id)) [
      | inl (o, found) ↦ inl (o, rw found)
      | inr (above, found) ↦ inr (above, rw found)
    ]

-- A control group of no bucket holds nobody, and one of all buckets everybody.
pub in_project_holdout_bounds :
    (salt id : String) (size : ℤ)
    → (in_project_holdout salt size id ≡ true → 0 < pos_part size)
      × (bucket_count ≤ pos_part size → in_project_holdout salt size id ≡ true)
unfolding in_project_holdout
in_project_holdout_bounds salt id size =
    (λ h. ground (arith, bucket-lt salt id), λ h. ground (arith, bucket-lt salt id))
