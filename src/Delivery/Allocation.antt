-- ===== src/Delivery/Allocation.antt =====
-- `allocateExperimentBuckets` of internal/delivery/payload/payload.go. Go's float64 is a parameter: the
-- type, the operations that the source uses, and its `int` conversion. Sums of ints wrap.
use citywalk.Prelude.{ℕ, suc, String, Bool, List, [], ◌∷◌, str_lt, if◌then◌else◌}
use citywalk.Prelude.Int.{ℤ, pos, add64, sub64, ltb_ℤ}

pub record Floats : Type 1 where
  pub Float : Type 0
  pub of_int : ℤ → Float
  pub mul : Float → Float → Float
  pub div : Float → Float → Float
  pub sub : Float → Float → Float
  pub to_int : Float → ℤ
  pub round : Float → Float
  pub differ : Float → Float → Bool
  pub exceeds : Float → Float → Bool

pub record Share (f : Floats) : Type 0 where
  pub id : String
  pub floor : ℤ
  pub remainder : f.Float

-- The share of a variant: its part of the buckets in floats, as an int, and what that cuts off.
unfoldable pub share_of : (f : Floats) → (String → ℤ) → ℤ → String → Share f
share_of f weight_percent total_buckets id =
    let exact =
      f.div (f.mul (f.of_int (weight_percent id)) (f.of_int total_buckets)) (f.of_int (pos 100)) in
    record { id = id; floor = f.to_int exact; remainder = f.sub exact (f.of_int (f.to_int exact)) }

unfoldable pub shares_of : (f : Floats) → (String → ℤ) → ℤ → List String → List (Share f)
shares_of f weight_percent total_buckets [] = []
shares_of f weight_percent total_buckets (id ∷ ids) =
    share_of f weight_percent total_buckets id ∷ shares_of f weight_percent total_buckets ids

-- `flooredSum` behind the loop, from n on.
abbrev pub floored_sum : (f : Floats) → ℤ → List (Share f) → ℤ
floored_sum f n [] = n
floored_sum f n (s ∷ shares) = floored_sum f (add64 n s.floor) shares

-- The order of the sort: the larger remainder first, then the smaller id.
abbrev pub comes_before : (f : Floats) → Share f → Share f → Bool
comes_before f a b =
    if f.differ a.remainder b.remainder then f.exceeds a.remainder b.remainder else str_lt a.id b.id

-- A stable sort: a share goes behind those that come before it, and ahead of its equals.
unfoldable pub insert_share : (f : Floats) → Share f → List (Share f) → List (Share f)
insert_share f s [] = s ∷ []
insert_share f s (x ∷ shares) =
    let later = insert_share f s shares in if comes_before f x s then x ∷ later else s ∷ x ∷ shares

unfoldable pub sort_shares : (f : Floats) → List (Share f) → List (Share f)
unfolding insert_share
sort_shares f [] = []
sort_shares f (s ∷ shares) = insert_share f s (sort_shares f shares)

-- The last loop, from index `i` on: each id with its buckets.
unfoldable pub hand_out : (f : Floats) → ℕ → ℤ → List (Share f) → List (String × ℤ)
hand_out f i leftover [] = []
hand_out f i leftover (s ∷ shares) =
    (s.id, if ltb_ℤ (pos i) leftover then add64 s.floor (pos 1) else s.floor)
    ∷ hand_out f (suc i) leftover shares

unfoldable pub allocate_experiment_buckets :
    (f : Floats) → List String → (String → ℤ) → ℤ → List (String × ℤ)
allocate_experiment_buckets f ids weight_percent total_buckets =
    let shares = shares_of f weight_percent total_buckets ids in
    hand_out f 0 (sub64 total_buckets (floored_sum f (pos 0) shares)) (sort_shares f shares)
