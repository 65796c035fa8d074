-- ===== src/Delivery/Scenarios/Bundles.antt =====
-- Runs and examples of the bundles that channels share.
use citywalk.Prelude.{
  ℕ, ◌-◌, ◌≤◌, ◌<◌, String, ◌≡◌, ◌⊎◌, refl, true, false, ◌&&◌, ◌==◌, none, some, List, [], ◌∷◌,
  ◌++◌, map, ltb, leb, Result, ok, err, inl, inr, sym, ◌∙◌, arith,
}
use citywalk.Prelude.Int.{ℤ, pos}
use citywalk.Assign.Bucket.{bucket_count, bucket, fnv_write}
use citywalk.Definition.Model.{Variant, html}
use citywalk.Definition.Lifecycle.{
  active, paused, can_transition, forward_message_states, same_state,
}
use citywalk.Delivery.Variants.{BundleVariant, weight_from, assign_variant}
use citywalk.Delivery.Assigned.{HasMember, held_buckets, assign_variant-total}
use citywalk.Delivery.Changelog.{record_change}
use citywalk.Delivery.Bundle.{
  Outside, StoredMessage, BundleMessage, BundleError, assemble_shared, eligible_messages,
  insert_message, get_message, load_all, to_bundle_message, to_bundle_variant, to_bundle_variants,
}
use citywalk.Delivery.Payload.{Entry, variants_supporting_major, variants_for_language}
use citywalk.Delivery.Cache.{
  Redis, Segment, segment_ids_for_ordinals, hash, empty_cache, shared_bundle_for, set_cached_bundle,
  invalidate_campaign,
}
use citywalk.Delivery.Edits.{Platform, kind_of, update_message_state, update_state, set_state}
use citywalk.Delivery.Overlay.{overlay_all}
use citywalk.Delivery.Withheld.{held_events, shown_ids, overlay_all-partition}
use citywalk.Delivery.Requests.{CollisionFree, Request, ask, edit, serve_all}
use citywalk.Delivery.Coherence.{shared_bundle_for-current}
use citywalk.Delivery.Warm.{shared_bundle_for-warm}
use citywalk.Delivery.Confirm.{confirm}
use citywalk.Delivery.Confirmed.{confirm-eligible, update_message_state-ok}
use citywalk.Delivery.Scenarios.{fractions, fractions-FloorExact}

abbrev arm : String → ℕ → BundleVariant
arm id weight = record {
  id = id;
  weight = pos weight;
  language = "en";
  schema_version = record { major = 1; minor = 0 };
  content = 1 ∷ [];
}

abbrev arms : List BundleVariant
arms = arm "b" 60 ∷ arm "a" 40 ∷ []

-- A holdout of a tenth.
abbrev tenth : ℤ × ℕ
tenth = (pos 1, 10)

assign_variant-total_example :
    ((bucket_count - held_buckets fractions tenth ≤ bucket "salt" "channel")
      × (assign_variant fractions tenth "salt" arms "channel" ≡ ok none))
    ⊎ ((bucket "salt" "channel" < bucket_count - held_buckets fractions tenth)
        × ((v : BundleVariant) × HasMember arms v
            × (assign_variant fractions tenth "salt" arms "channel" ≡ ok (some v))))
unfolding weight_from
assign_variant-total_example =
    assign_variant-total fractions tenth "salt" arms "channel" fractions-FloorExact
      (refl, (refl, tt)) (refl, (refl, tt)) refl (refl, omega arith)

abbrev outside : Outside
outside = record {
  floats = fractions;
  encode = λ version content. some (version.major ∷ version.minor ∷ []);
  marshal = λ bm. bm;
}

abbrev variant : String → Variant
variant id = record {
  id = id;
  weight = pos 100;
  language = "en";
  schema_version = record { major = 1; minor = 0 };
  content = html "<p>";
}

abbrev campaign : String → String → ℕ → StoredMessage outside
campaign id segment opens = record {
  id = id;
  state = active;
  priority = pos 1;
  window = record { start = opens; until = 100 };
  version = pos 1;
  audience_ref = some segment;
  control_policy = record {
    per_message_cap = pos 0;
    min_interval_between = pos 0;
    exempt_from_project_cap = false;
    requires_server_confirmation = false;
  };
  holdout_fraction = tenth;
  experiment_salt = "salt";
  triggers = [];
  display_conditions = [];
  variants = variant "v" ∷ [];
}

abbrev campaigns : List (StoredMessage outside)
campaigns = campaign "m1" "s1" 10 ∷ campaign "m2" "s2" 50 ∷ []

abbrev segments : List Segment
segments = record { id = "s1"; ordinal = 1 } ∷ record { id = "s2"; ordinal = 2 } ∷ []

abbrev platform : Platform outside
platform = record {
  messages = campaigns;
  audit_log = [];
  change_log = record { rows = []; next_seq = 1 };
  redis = empty_cache outside;
}

abbrev day : List (Request × ℕ)
day = (ask (1 ∷ 2 ∷ []) "en" 1, 20) ∷ (edit "m1" paused "admin", 30) ∷ []

-- The memberships of the scenario.
abbrev InUse : List ℕ → Type 0
InUse bm = (bm ≡ 1 ∷ 2 ∷ []) ⊎ (bm ≡ 2 ∷ [])

hashes_apart : (hash outside (1 ∷ 2 ∷ []) == hash outside (2 ∷ [])) ≡ false
unfolding hash fnv_write
hashes_apart = refl

scenario-CollisionFree : CollisionFree outside InUse
scenario-CollisionFree a b (inl p) (inl q) same = p ∙ sym q
scenario-CollisionFree a b (inr p) (inr q) same = p ∙ sym q
scenario-CollisionFree a b (inl p) (inr q) same =
    let h : hash outside (1 ∷ 2 ∷ []) ≡ hash outside (2 ∷ []) = rw (p, q) at same in
    absurd (ground (arith, h, hashes_apart))
scenario-CollisionFree a b (inr p) (inl q) same =
    let h : hash outside (2 ∷ []) ≡ hash outside (1 ∷ 2 ∷ []) = rw (p, q) at same in
    absurd (ground (arith, h, hashes_apart))

shared_bundle_for-current_example :
    let q = serve_all outside segments day platform in
    (at : ℕ) × (at ≤ 60)
    × ((shared_bundle_for outside segments q.messages (2 ∷ []) "en" 1 60 q.redis).1
        ≡ assemble_shared outside q.messages (segment_ids_for_ordinals segments (2 ∷ [])) "en" 1 at)
shared_bundle_for-current_example =
    shared_bundle_for-current outside segments InUse day platform 0 60 (2 ∷ []) "en" 1
      scenario-CollisionFree (inl refl, tt) (inr refl) (refl, (refl, tt)) refl
      (omega arith, (omega arith, omega arith))

abbrev bundle_ids : Result BundleError (List (BundleMessage outside)) → List String
bundle_ids (ok b) = map (λ m. m.message_id) b
bundle_ids (err e) = []

abbrev first_answer : Redis outside × Result BundleError (List (BundleMessage outside))
first_answer =
    shared_bundle_for outside segments campaigns (1 ∷ 2 ∷ []) "en" 1 20 (empty_cache outside)

-- The second campaign opens at 50, and the channel is not given it at 60.
missed_test :
    bundle_ids
      (shared_bundle_for outside segments campaigns (1 ∷ 2 ∷ []) "en" 1 60 first_answer.0).1
    ≡ "m1" ∷ []
unfolding shared_bundle_for hash fnv_write set_cached_bundle segment_ids_for_ordinals
    assemble_shared eligible_messages insert_message load_all get_message to_bundle_message
    to_bundle_variant to_bundle_variants variants_supporting_major variants_for_language
    citywalk.Definition.Model.supports_major
missed_test = refl

abbrev shared : BundleMessage outside
shared = record {
  message_id = "m1";
  version = pos 1;
  priority = pos 1;
  expires_at = 100;
  control_policy = (campaign "m1" "s1" 10).control_policy;
  triggers = [];
  display_conditions = [];
  holdout_fraction = tenth;
  experiment_salt = "salt";
  fallback_variant = arm "a" 40;
  language_variants = arms;
}

abbrev cached : List (BundleMessage outside)
cached = shared ∷ []

abbrev warm_cache : Redis outside
warm_cache = record { bundles = λ k. some cached; segment_index = λ s. [] }

shared_bundle_for-warm_example :
    let warm = (shared_bundle_for outside segments campaigns (1 ∷ 2 ∷ []) "en" 1 20 warm_cache).0 in
    shared_bundle_for outside segments [] (1 ∷ 2 ∷ []) "en" 1 60 warm ≡ (warm, ok cached)
unfolding shared_bundle_for
shared_bundle_for-warm_example =
    shared_bundle_for-warm outside segments campaigns [] (1 ∷ 2 ∷ []) "en" 1 20 60 warm_cache cached
      refl

overlay_all-partition_example :
    (entries : List Entry) × (overlay_all outside (λ e. true) "channel" 20 cached []
      ≡ ([] ++ held_events outside "channel" 20 cached, ok entries))
    × (map (λ e. e.message_id) entries ≡ shown_ids outside "channel" cached)
unfolding weight_from
overlay_all-partition_example =
    overlay_all-partition outside (λ e. true) "channel" 20 cached [] (λ e. refl)
      fractions-FloorExact
      (inr ((refl, (refl, tt)), (refl, (refl, tt)), refl, (refl, omega arith)), tt)

confirm-eligible_example : confirm outside campaigns "m1" 20 ≡ ok true
unfolding eligible_messages insert_message
confirm-eligible_example =
    confirm-eligible outside "m1" ("s1" ∷ []) 20 campaigns (refl, (refl, tt)) refl

abbrev paused_platform : Platform outside
paused_platform = serve_all outside segments ((edit "m1" paused "admin", 30) ∷ []) platform

update_message_state-ok_example :
    (m : StoredMessage outside) × (get_message outside campaigns "m1" ≡ ok m)
    × (can_transition m.state paused ≡ true)
    × (paused_platform.audit_log
        ≡ []
          ++ record {
            message_id = "m1";
            from_state = m.state;
            to_state = paused;
            actor = "admin";
            occurred_at = 30;
          }
            ∷ [])
    × (paused_platform.change_log
        ≡ record_change "m1" (kind_of outside paused) 30 platform.change_log)
    × (confirm outside paused_platform.messages "m1" 40
        ≡ ok (same_state paused active && (leb m.window.start 40 && ltb 40 m.window.until)))
unfolding update_message_state update_state get_message can_transition forward_message_states
    invalidate_campaign set_state
update_message_state-ok_example =
    update_message_state-ok outside "m1" paused "admin" 30 platform paused_platform 40 refl
