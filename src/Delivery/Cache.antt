-- ===== src/Delivery/Cache.antt =====
-- The bundle cache of internal/delivery/payload/bundle.go: `sharedBundleFor`, `getCachedBundle`,
-- `setCachedBundle` and `InvalidateCampaign`. Redis is two maps, of the bundles and of the keys that
-- stand in the index of a segment. The text of a key is its three parts, of which the decimal number
-- and the hexadecimal hash have no colon. A bundle read back is the one written. A bitmap is the list
-- of its ordinals. A failing query or call of Redis is not modelled.
use citywalk.Prelude.{
  ℕ, String, Bool, false, ◌&&◌, ◌||◌, ◌==◌, Option, none, some, List, [], ◌∷◌, contains, str_eq,
  Result, ok, err, ◌>>=◌, if◌then◌else◌,
}
use citywalk.Assign.Bucket.{fnv_write, fnv_offset}
use citywalk.Delivery.Bundle.{
  Outside, BundleError, StoredMessage, BundleMessage, assemble_shared, get_message,
}

pub record BundleKey (o : Outside) : Type 0 where
  pub language : String
  pub declared_major : ℕ
  pub membership_hash : ℕ

pub record Redis (o : Outside) : Type 0 where
  pub bundles : BundleKey o → Option (List (BundleMessage o))
  pub segment_index : String → List (BundleKey o)

-- A row of the table of segments.
pub record Segment : Type 0 where
  pub id : String
  pub ordinal : ℕ

abbrev pub holds : List ℕ → ℕ → Bool
holds [] n = false
holds (m ∷ ms) n = m == n || holds ms n

unfoldable pub segment_ids_for_ordinals : List Segment → List ℕ → List String
segment_ids_for_ordinals [] ordinals = []
segment_ids_for_ordinals (s ∷ segments) ordinals =
    let rest = segment_ids_for_ordinals segments ordinals in
    if holds ordinals s.ordinal then s.id ∷ rest else rest

module _ (o : Outside) where
  -- `reverse.Hash`: FNV-1a of the bitmap's serialized bytes, whose hexadecimal text is the hash.
  unfoldable pub hash : List ℕ → ℕ
  hash segment_bm = fnv_write fnv_offset (o.marshal segment_bm)

  abbrev pub bundle_key : String → ℕ → List ℕ → BundleKey o
  bundle_key language declared_major segment_bm = record {
    language = language;
    declared_major = declared_major;
    membership_hash = hash segment_bm;
  }

  abbrev pub same_key : BundleKey o → BundleKey o → Bool
  same_key a b =
      str_eq a.language b.language
      && (a.declared_major == b.declared_major && a.membership_hash == b.membership_hash)

  abbrev pub has_key : BundleKey o → List (BundleKey o) → Bool
  has_key k [] = false
  has_key k (x ∷ keys) = same_key k x || has_key k keys

  abbrev pub empty_cache : Redis o
  empty_cache = record { bundles = λ k. none; segment_index = λ s. [] }

  unfoldable pub set_cached_bundle :
      BundleKey o → List String → List (BundleMessage o) → Redis o → Redis o
  set_cached_bundle key segment_ids b redis = record {
    bundles = λ k. if same_key k key then some b else redis.bundles k;
    segment_index =
        λ s. if contains s segment_ids then key ∷ redis.segment_index s else redis.segment_index s;
  }

  -- The branch of a miss, behind the assembly.
  abbrev pub fill :
      BundleKey o
      → List String
      → Redis o
      → Result BundleError (List (BundleMessage o))
      → Redis o × Result BundleError (List (BundleMessage o))
  fill key segment_ids redis (err e) = (redis, err e)
  fill key segment_ids redis (ok b) = (set_cached_bundle key segment_ids b redis, ok b)

  abbrev pub hit_or :
      Option (List (BundleMessage o))
      → Redis o
      → Redis o × Result BundleError (List (BundleMessage o))
      → Redis o × Result BundleError (List (BundleMessage o))
  hit_or (some cached) redis missed = (redis, ok cached)
  hit_or none redis missed = missed

  unfoldable pub shared_bundle_for :
      List Segment
      → List (StoredMessage o)
      → List ℕ
      → String
      → ℕ
      → ℕ
      → Redis o
      → Redis o × Result BundleError (List (BundleMessage o))
  shared_bundle_for segments messages segment_bm language declared_major now redis =
      let key = bundle_key language declared_major segment_bm in
      let segment_ids = segment_ids_for_ordinals segments segment_bm in
      hit_or (redis.bundles key) redis (
        fill key segment_ids redis
          (assemble_shared o messages segment_ids language declared_major now))

  -- The bundles named in the index of a segment, deleted; the index stays.
  unfoldable pub drop_segment : String → Redis o → Redis o
  drop_segment segment redis = record {
    bundles = λ k. if has_key k (redis.segment_index segment) then none else redis.bundles k;
    segment_index = redis.segment_index;
  }

  abbrev pub drop_audience : Option String → Redis o → Redis o
  drop_audience none redis = redis
  drop_audience (some segment) redis = drop_segment segment redis

  unfoldable pub invalidate_campaign :
      List (StoredMessage o) → String → Redis o → Result BundleError (Redis o)
  invalidate_campaign messages message_id redis = do
    m ← get_message o messages message_id
    ok (drop_audience m.audience_ref redis)
