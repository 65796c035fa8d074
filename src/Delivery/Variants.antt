-- ===== src/Delivery/Variants.antt =====
-- `assignVariant` of internal/delivery/payload/payload.go, and the parts of a bundle that it reads, from
-- bundle.go.
use citywalk.Prelude.{
  ℕ, String, Option, none, some, List, [], ◌∷◌, map, str_eq, str_lt, Result, ok, ◌>>=◌,
  if◌then◌else◌,
}
use citywalk.Prelude.Int.{ℤ, pos, sub64}
use citywalk.Definition.Model.{SchemaVersion}
use citywalk.Assign.Bucket.{bucket_count}
use citywalk.Assign.RangeTable.{Error, new_range_table}
use citywalk.Assign.Assignment.{Assignment, assign}
use citywalk.Delivery.Allocation.{Floats, allocate_experiment_buckets}

-- `bundleVariant`, and what `toModelVariants` keeps of it.
pub record BundleVariant : Type 0 where
  pub id : String
  pub weight : ℤ
  pub language : String
  pub schema_version : SchemaVersion
  pub content : List ℕ

-- Go's zero value.
abbrev pub zero_variant : BundleVariant
zero_variant = record {
  id = "";
  weight = pos 0;
  language = "";
  schema_version = record { major = 0; minor = 0 };
  content = [];
}

-- `sort.Strings`.
unfoldable pub insert_string : String → List String → List String
insert_string s [] = s ∷ []
insert_string s (t ∷ ts) =
    let later = insert_string s ts in if str_lt t s then t ∷ later else s ∷ t ∷ ts

unfoldable pub sort_strings : List String → List String
sort_strings [] = []
sort_strings (s ∷ ts) = insert_string s (sort_strings ts)

-- Go's maps that a loop fills: a later entry of a key replaces an earlier one.
abbrev pub or_else : Option ℤ → Option ℤ → Option ℤ
or_else (some w) other = some w
or_else none other = other

unfoldable pub bucket_map : List (String × ℤ) → String → Option ℤ
bucket_map [] id = none
bucket_map ((k, n) ∷ buckets) id =
    or_else (bucket_map buckets id) (if str_eq id k then some n else none)

unfoldable pub weight_from : String → List BundleVariant → ℤ → ℤ
weight_from id [] found = found
weight_from id (v ∷ variants) found =
    weight_from id variants (if str_eq id v.id then v.weight else found)

abbrev pub weight_percent : List BundleVariant → String → ℤ
weight_percent variants id = weight_from id variants (pos 0)

unfoldable pub variant_from : String → List BundleVariant → BundleVariant → BundleVariant
variant_from id [] found = found
variant_from id (v ∷ variants) found =
    variant_from id variants (if str_eq id v.id then v else found)

abbrev pub by_id : List BundleVariant → String → BundleVariant
by_id variants id = variant_from id variants zero_variant

abbrev pub ids_of : List BundleVariant → List String
ids_of = map (λ v. v.id)

-- The selected variant, none for the holdout.
abbrev pub selected : List BundleVariant → Assignment → Option BundleVariant
selected variants a = if a.is_holdout then none else some (by_id variants a.variant)

module _ (f : Floats) where
  abbrev pub holdout_buckets : f.Float → ℤ
  holdout_buckets holdout_fraction =
      f.to_int (f.round (f.mul holdout_fraction (f.of_int (pos bucket_count))))

  -- The weights of the range table, and its order.
  abbrev pub bucket_weights : f.Float → List BundleVariant → String → Option ℤ
  bucket_weights holdout_fraction variants = bucket_map (
      allocate_experiment_buckets f (sort_strings (ids_of variants)) (weight_percent variants)
        (sub64 (pos bucket_count) (holdout_buckets holdout_fraction)))

  unfoldable pub assign_variant :
      f.Float → String → List BundleVariant → String → Result Error (Option BundleVariant)
  assign_variant holdout_fraction experiment_salt variants identity = do
    table ←
        new_range_table (sort_strings (ids_of variants)) (bucket_weights holdout_fraction variants)
          (holdout_buckets holdout_fraction)
    result ← assign table experiment_salt identity
    ok (selected variants result)
