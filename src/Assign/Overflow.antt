-- ===== src/Assign/Overflow.antt =====
-- What `NewRangeTable` does where its running sum overflows an `int`.
use citywalk.Prelude.{
  ℕ, ◌+◌, ◌-◌, ◌^◌, ◌<◌, ◌≤◌, ◌≡◌, refl, true, false, Option, String, [], ◌∷◌, arith, ok,
}
use citywalk.Prelude.Int.{ℤ, pos, negsuc, add64, add64-pos}
use citywalk.Assign.Bucket.{bucket_count}
use citywalk.Assign.RangeTable.{RangeTable, new_range_table, lookup}
use citywalk.Assign.Accepts.{checked_width-ok}
use citywalk.Assign.Reweight.{three, weights_of}

add64-over :
    (a b : ℕ)
    → 2 ^ 63 ≤ a + b
    → a + b < 2 ^ 64
    → add64 (pos a) (pos b) ≡ negsuc (2 ^ 64 - 1 - (a + b))
unfolding add64
add64-over a b low high = ground arith

add64-back :
    (d c : ℕ) → d < 2 ^ 63 → c < 2 ^ 63 → d < c → add64 (negsuc d) (pos c) ≡ pos (c - d - 1)
unfolding add64
add64-back d c hd hc lt = ground arith

-- The table that comes of it: the second range ends and the third one starts below zero.
abbrev wrapped : ℕ → ℕ → RangeTable
wrapped a d = record {
  ranges =
      record { variant = "a"; start = pos 0; end = pos a; is_holdout = false }
      ∷ record { variant = "b"; start = pos a; end = negsuc d; is_holdout = false }
      ∷ record { variant = "c"; start = negsuc d; end = pos bucket_count; is_holdout = false }
      ∷ record { variant = ""; start = pos bucket_count; end = pos bucket_count; is_holdout = true }
      ∷ [];
}

-- Three weights, each an `int` that is not negative, of which the true sum is 2^64 + 10000 and the
-- first at least 10000: `NewRangeTable` accepts them, since its sum wraps round to 10000, and its
-- table gives every bucket to the first variant.
pub new_range_table-overflow :
    (a b c : ℕ)
    → a < 2 ^ 63
    → b < 2 ^ 63
    → c < 2 ^ 63
    → a + (b + c) ≡ 2 ^ 64 + bucket_count
    → bucket_count ≤ a
    → (t : RangeTable) × (new_range_table three (weights_of a b c) (pos 0) ≡ ok t)
      × ((n : ℕ) → n < bucket_count → lookup t (pos n) ≡ ok ("a", false))
unfolding new_range_table lookup
new_range_table-overflow a b c ha hb hc sum big = (
  wrapped a d,
  rw (
    checked_width-ok weights [] "a" a refl refl,
    first,
    checked_width-ok weights ("a" ∷ []) "b" b refl refl,
    second,
    checked_width-ok weights ("b" ∷ "a" ∷ []) "c" c refl refl,
    third,
    fourth,
  ),
  λ n h. ground arith,
)
  where
    weights : String → Option ℤ
    weights = weights_of a b c

    d : ℕ
    d = 2 ^ 64 - 1 - (a + b)

    first : add64 (pos 0) (pos a) ≡ pos a
    first = ground (arith, add64-pos 0 a)

    second : add64 (pos a) (pos b) ≡ negsuc d
    second = add64-over a b (omega arith) (omega arith)

    third : add64 (negsuc d) (pos c) ≡ pos bucket_count
    third = ground (arith, add64-back d c)

    fourth : add64 (pos bucket_count) (pos 0) ≡ pos bucket_count
    fourth = add64-pos bucket_count 0 (omega arith)
