-- ===== src/Delivery/Warm.antt =====
-- A bundle that is cached is not assembled again when the time goes on.
use citywalk.Prelude.{
  ℕ, String, ◌≡◌, refl, true, List, Option-cases, Result-cases, Result, ok, inl, inr, arith, eq_iff,
  some,
}
use citywalk.Delivery.Bundle.{Outside, BundleError, StoredMessage, BundleMessage, assemble_shared}
use citywalk.Delivery.Cache.{
  Redis, Segment, segment_ids_for_ordinals, bundle_key, same_key, set_cached_bundle,
  shared_bundle_for,
}

bundle_key-same_key :
    (o : Outside) (language : String) (declared_major : ℕ) (segment_bm : List ℕ)
    → same_key o
        (bundle_key o language declared_major segment_bm)
        (bundle_key o language declared_major segment_bm)
      ≡ true
bundle_key-same_key o language major bm = ground (arith, (eq_iff language language).1 refl)

cached_after :
    (o : Outside) (language : String) (declared_major : ℕ) (segment_bm : List ℕ)
    (segment_ids : List String) (b : List (BundleMessage o)) (redis : Redis o)
    → (set_cached_bundle o
          (bundle_key o language declared_major segment_bm)
          segment_ids
          b
          redis).bundles
        (bundle_key o language declared_major segment_bm)
      ≡ some b
unfolding set_cached_bundle
cached_after o language major bm segment_ids b redis = rw (bundle_key-same_key o language major bm)

-- After a request was answered with a bundle, a request on the cache that it left, for the same segments,
-- language and declared major, is answered with that bundle, whatever its time is and whatever the
-- campaigns are then, and leaves the cache as it is. So a campaign whose window has opened in between is
-- left out, and one whose window has closed stays in.
pub shared_bundle_for-warm :
    (o : Outside) (segments : List Segment) (messages messages' : List (StoredMessage o))
    (segment_bm : List ℕ) (language : String) (declared_major now later : ℕ) (redis : Redis o)
    (b : List (BundleMessage o))
    → (shared_bundle_for o segments messages segment_bm language declared_major now redis).1 ≡ ok b
    → let warm =
        (shared_bundle_for o segments messages segment_bm language declared_major now redis).0 in
      shared_bundle_for o segments messages' segment_bm language declared_major later warm
      ≡ (warm, ok b)
unfolding shared_bundle_for
shared_bundle_for-warm o segments messages messages' bm language major now later redis b answered =
    let segment_ids = segment_ids_for_ordinals segments bm in
    elim (Option-cases (redis.bundles (bundle_key o language major bm))) [
      | inr (c, cached) ↦
          let is_b : ◌≡◌ {A = Result BundleError (List (BundleMessage o))} (ok c) (ok b) =
            rw cached at answered in
          simp (cached, cached) (cc is_b)
      | inl absent ↦
          elim (Result-cases (assemble_shared o messages segment_ids language major now)) [
            | inr (e, failed) ↦ absurd (cc (rw (absent, failed) at answered))
            | inl (c, made) ↦
                let is_b : ◌≡◌ {A = Result BundleError (List (BundleMessage o))} (ok c) (ok b) =
                  rw (absent, made) at answered in
                simp (absent, made, cached_after o language major bm segment_ids c redis) (cc is_b)
          ]
    ]
