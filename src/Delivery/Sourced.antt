-- ===== src/Delivery/Sourced.antt =====
-- The bundle cache is coherent: each cached bundle is what an assembly gives, and can be found again.
use citywalk.Prelude.{
  ℕ, String, ◌≡◌, ◌≤◌, refl, sym, subst, ◌∙◌, true, Option, some, List, contains, Distinct, eq_iff,
  ok, Bool-cases, Option-cases, Result-cases, inl, inr, arith,
}
use citywalk.Delivery.Bundle.{Outside, StoredMessage, BundleMessage, assemble_shared}
use citywalk.Delivery.Cache.{
  BundleKey, Redis, Segment, segment_ids_for_ordinals, hash, bundle_key, same_key, has_key,
  set_cached_bundle, shared_bundle_for,
}
use citywalk.Delivery.Edits.{Platform, with_redis}
use citywalk.Delivery.Assembly.{message_ids}
use citywalk.Delivery.Requests.{CollisionFree, asked}

module _ (o : Outside) (segments : List Segment) (InUse : List ℕ → Type 0) where
  -- A bundle under a key is what an assembly gave, at an instant until now, and the key stands in the
  -- index of each of its segments.
  pub record Sourced (messages : List (StoredMessage o)) (redis : Redis o) (now : ℕ)
      (k : BundleKey o) (b : List (BundleMessage o)) : Type 0 where
    pub segment_bm : List ℕ
    pub at : ℕ
    pub past : at ≤ now
    pub named : (k.membership_hash ≡ hash o segment_bm) × InUse segment_bm
    pub assembled :
        assemble_shared o messages
          (segment_ids_for_ordinals segments segment_bm)
          k.language
          k.declared_major
          at
        ≡ ok b
    pub indexed :
        (s : String)
        → contains s (segment_ids_for_ordinals segments segment_bm) ≡ true
        → has_key o k (redis.segment_index s) ≡ true

  pub record IsCoherent (p : Platform o) (now : ℕ) : Type 0 where
    pub unique : Distinct (message_ids o p.messages)
    pub sourced :
        (k : BundleKey o) (b : List (BundleMessage o))
        → p.redis.bundles k ≡ some b
        → Sourced p.messages p.redis now k b

  -- Later, and with more in the index.
  pub later-Sourced :
      (messages : List (StoredMessage o)) (redis redis' : Redis o) (now later : ℕ) (k : BundleKey o)
      (b : List (BundleMessage o))
      → now ≤ later
      → ((s : String)
          → has_key o k (redis.segment_index s) ≡ true
          → has_key o k (redis'.segment_index s) ≡ true)
      → Sourced messages redis now k b
      → Sourced messages redis' later k b
  later-Sourced messages redis redis' now later k b le more src = record {
    segment_bm = src.segment_bm;
    at = src.at;
    past = omega (arith, src.past, le);
    named = src.named;
    assembled = src.assembled;
    indexed = λ s h. more s (src.indexed s h);
  }

  index_grows :
      (key k : BundleKey o) (segment_ids : List String) (b : List (BundleMessage o))
      (redis : Redis o) (s : String)
      → has_key o k (redis.segment_index s) ≡ true
      → has_key o k ((set_cached_bundle o key segment_ids b redis).segment_index s) ≡ true
  unfolding set_cached_bundle
  index_grows key k segment_ids b redis s h = elim (Bool-cases (contains s segment_ids)) [
    | inl listed ↦ rw listed (ground (arith, h))
    | inr unlisted ↦ rw unlisted h
  ]

  new_index :
      (key k : BundleKey o) (segment_ids : List String) (b : List (BundleMessage o))
      (redis : Redis o) (s : String)
      → same_key o k key ≡ true
      → contains s segment_ids ≡ true
      → has_key o k ((set_cached_bundle o key segment_ids b redis).segment_index s) ≡ true
  unfolding set_cached_bundle
  new_index key k segment_ids b redis s same listed = rw listed (ground (arith, same))

  -- A miss caches what it assembled.
  set_cached_bundle-Sourced :
      (messages : List (StoredMessage o)) (redis : Redis o) (segment_bm : List ℕ)
      (language : String) (declared_major now : ℕ) (b : List (BundleMessage o))
      → InUse segment_bm
      → assemble_shared o messages
          (segment_ids_for_ordinals segments segment_bm)
          language
          declared_major
          now
        ≡ ok b
      → ((k : BundleKey o) (c : List (BundleMessage o))
          → redis.bundles k ≡ some c
          → Sourced messages redis now k c)
      → let key = bundle_key o language declared_major segment_bm in
        let after =
          set_cached_bundle o key (segment_ids_for_ordinals segments segment_bm) b redis in
        (k : BundleKey o) (c : List (BundleMessage o))
        → after.bundles k ≡ some c
        → Sourced messages after now k c
  unfolding set_cached_bundle
  set_cached_bundle-Sourced messages redis segment_bm language major now b in_use made src k c
        cached =
      let key = bundle_key o language major segment_bm in
      let segment_ids = segment_ids_for_ordinals segments segment_bm in
      let after = set_cached_bundle o key segment_ids b redis in
      elim (Bool-cases (same_key o k key)) [
        | inr other ↦
            later-Sourced messages redis after now now k c (omega arith)
              (index_grows key k segment_ids b redis) (src k c (rw other at cached))
        | inl same ↦
            let is_b : ◌≡◌ {A = Option (List (BundleMessage o))} (some b) (some c) =
              rw same at cached in
            let language_is : k.language ≡ language =
              (eq_iff k.language language).0 (ground (arith, same)) in
            let major_is : k.declared_major ≡ major = ground (arith, same) in
            record {
              segment_bm = segment_bm;
              at = now;
              past = omega arith;
              named = (ground (arith, same), in_use);
              assembled = rw (language_is, major_is) (made ∙ cc is_b);
              indexed = λ s h. new_index key k segment_ids b redis s same h;
            }
      ]

  hash_key :
      CollisionFree o InUse
      → (segment_bm : List ℕ) (language : String) (declared_major now : ℕ) (p : Platform o)
        (b : List (BundleMessage o))
      → InUse segment_bm
      → IsCoherent p now
      → p.redis.bundles (bundle_key o language declared_major segment_bm) ≡ some b
      → (at : ℕ) × (at ≤ now)
        × (assemble_shared o p.messages
              (segment_ids_for_ordinals segments segment_bm)
              language
              declared_major
              at
            ≡ ok b)
  hash_key free segment_bm language major now p b in_use coherent cached =
      let src = coherent.sourced (bundle_key o language major segment_bm) b cached in
      let same = free segment_bm src.segment_bm in_use src.named.1 src.named.0 in
      (
        src.at,
        src.past,
        subst
            (λ (bm : List ℕ).
              assemble_shared o p.messages (segment_ids_for_ordinals segments bm) language major
                src.at
              ≡ ok b)
            (sym same) src.assembled,
      )

  -- The answer to a channel, and the cache behind it.
  pub asked-current :
      CollisionFree o InUse
      → (segment_bm : List ℕ) (language : String) (declared_major now : ℕ) (p : Platform o)
      → InUse segment_bm
      → IsCoherent p now
      → (at : ℕ) × (at ≤ now)
        × ((asked o segments segment_bm language declared_major now p).1
            ≡ assemble_shared o p.messages
                (segment_ids_for_ordinals segments segment_bm)
                language
                declared_major
                at)
  unfolding shared_bundle_for
  asked-current free segment_bm language major now p in_use coherent =
      let segment_ids = segment_ids_for_ordinals segments segment_bm in
      elim (Option-cases (p.redis.bundles (bundle_key o language major segment_bm))) [
        | inl absent ↦ (
          now,
          omega arith,
          elim (Result-cases (assemble_shared o p.messages segment_ids language major now)) [
            | inl (b, made) ↦ simp (absent, made) refl
            | inr (e, failed) ↦ simp (absent, failed) refl
          ],
        )
        | inr (b, cached) ↦
            let (at, past, made) =
              hash_key free segment_bm language major now p b in_use coherent cached in
            (at, past, simp (cached, made) refl)
      ]

  pub asked-IsCoherent :
      (segment_bm : List ℕ) (language : String) (declared_major now : ℕ) (p : Platform o)
      → InUse segment_bm
      → IsCoherent p now
      → IsCoherent
          (with_redis o (asked o segments segment_bm language declared_major now p).0 p)
          now
  unfolding shared_bundle_for
  asked-IsCoherent segment_bm language major now p in_use coherent =
      let segment_ids = segment_ids_for_ordinals segments segment_bm in
      elim (Option-cases (p.redis.bundles (bundle_key o language major segment_bm))) [
        | inr (b, cached) ↦ rw cached coherent
        | inl absent ↦
            elim (Result-cases (assemble_shared o p.messages segment_ids language major now)) [
              | inr (e, failed) ↦ rw (absent, failed) coherent
              | inl (b, made) ↦
                  rw (absent, made)
                    (record {
                      unique = coherent.unique;
                      sourced =
                          set_cached_bundle-Sourced p.messages p.redis segment_bm language major now
                            b in_use made coherent.sourced;
                    })
            ]
      ]
