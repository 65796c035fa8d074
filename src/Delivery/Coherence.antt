-- ===== src/Delivery/Coherence.antt =====
-- The bundle cache under requests of channels and edits of campaigns, in any order.
use citywalk.Prelude.{
  ℕ, String, ◌≡◌, ◌≤◌, refl, sym, ap, subst, ◌∙◌, true, false, Option, none, some, List, [], ◌∷◌,
  contains, Distinct, ok, err, Bool-cases, Option-cases, Result-cases, inl, inr,
}
use citywalk.Definition.Lifecycle.{MessageState, can_transition}
use citywalk.Delivery.Bundle.{
  Outside, BundleError, StoredMessage, BundleMessage, get_message, assemble_shared,
}
use citywalk.Delivery.Cache.{
  BundleKey, Redis, Segment, segment_ids_for_ordinals, has_key, empty_cache, shared_bundle_for,
  drop_segment, drop_audience, invalidate_campaign,
}
use citywalk.Delivery.Edits.{Platform, set_state, update_state, update_message_state}
use citywalk.Delivery.Assembly.{
  message_ids, message_ids-set_state, get_message-edited, assemble_shared-set_state,
}
use citywalk.Delivery.Requests.{
  CollisionFree, AllAsked, Request, ask, edit, serve, Times, serve_all,
}
use citywalk.Delivery.Sourced.{Sourced, IsCoherent, later-Sourced, asked-current, asked-IsCoherent}

module _ (o : Outside) (segments : List Segment) (InUse : List ℕ → Type 0) where
  -- What the invalidation leaves is still what an assembly gives after the edit.
  drop_segment-Sourced :
      (id : String) (new_state : MessageState) (m : StoredMessage o) (segment : String) (now : ℕ)
      (p : Platform o)
      → get_message o p.messages id ≡ ok m
      → m.audience_ref ≡ some segment
      → IsCoherent o segments InUse p now
      → (k : BundleKey o) (b : List (BundleMessage o))
      → (drop_segment o segment p.redis).bundles k ≡ some b
      → Sourced o segments InUse
          (set_state o id new_state p.messages)
          (drop_segment o segment p.redis)
          now
          k
          b
  unfolding drop_segment
  drop_segment-Sourced id new_state m segment now p found audience coherent k b cached =
      elim (Bool-cases (has_key o k (p.redis.segment_index segment))) [
        | inl dropped ↦ absurd (cc (rw dropped at cached))
        | inr kept ↦
            let src = coherent.sourced k b (rw kept at cached) in
            let segment_ids = segment_ids_for_ordinals segments src.segment_bm in
            let away : contains segment segment_ids ≡ false =
              elim (Bool-cases (contains segment segment_ids)) [
                | inr absent ↦ absent
                | inl listed ↦ absurd (cc (src.indexed segment listed, kept))
              ] in
            record {
              segment_bm = src.segment_bm;
              at = src.at;
              past = src.past;
              named = src.named;
              assembled =
                  assemble_shared-set_state o id new_state p.messages m segment_ids k.language
                    k.declared_major src.at coherent.unique found (rw audience away)
                  ∙ src.assembled;
              indexed = src.indexed;
            }
      ]

  no_audience-Sourced :
      (id : String) (new_state : MessageState) (m : StoredMessage o) (now : ℕ) (p : Platform o)
      → get_message o p.messages id ≡ ok m
      → m.audience_ref ≡ none
      → IsCoherent o segments InUse p now
      → (k : BundleKey o) (b : List (BundleMessage o)) → p.redis.bundles k ≡ some b
      → Sourced o segments InUse (set_state o id new_state p.messages) p.redis now k b
  no_audience-Sourced id new_state m now p found audience coherent k b cached =
      let src = coherent.sourced k b cached in
      record {
        segment_bm = src.segment_bm;
        at = src.at;
        past = src.past;
        named = src.named;
        assembled =
            assemble_shared-set_state o id new_state p.messages m
              (segment_ids_for_ordinals segments src.segment_bm) k.language k.declared_major src.at
              coherent.unique found (rw audience refl)
            ∙ src.assembled;
        indexed = src.indexed;
      }

  edit-missing :
      (id : String) (new_state : MessageState) (subject : String) (now : ℕ) (p : Platform o)
      (e : BundleError)
      → get_message o p.messages id ≡ err e
      → serve o segments (edit id new_state subject) now p ≡ p
  unfolding update_message_state update_state
  edit-missing id new_state subject now p e missing = rw missing

  edit-refused :
      (id : String) (new_state : MessageState) (subject : String) (now : ℕ) (p : Platform o)
      (m : StoredMessage o)
      → get_message o p.messages id ≡ ok m
      → can_transition m.state new_state ≡ false
      → serve o segments (edit id new_state subject) now p ≡ p
  unfolding update_message_state update_state
  edit-refused id new_state subject now p m found refused = rw (found, refused)

  edit-rows :
      (id : String) (new_state : MessageState) (subject : String) (now : ℕ) (p : Platform o)
      (m : StoredMessage o)
      → get_message o p.messages id ≡ ok m
      → can_transition m.state new_state ≡ true
      → let q = serve o segments (edit id new_state subject) now p in
        (q.messages ≡ set_state o id new_state p.messages)
        × (q.redis ≡ drop_audience o m.audience_ref p.redis)
  unfolding update_message_state update_state invalidate_campaign
  edit-rows id new_state subject now p m found allowed =
      let after = get_message-edited o id new_state p.messages m found in
      simp (found, allowed, after) (refl, refl)

  rows-IsCoherent :
      (id : String) (new_state : MessageState) (now : ℕ) (p q : Platform o) (redis : Redis o)
      → q.messages ≡ set_state o id new_state p.messages
      → q.redis ≡ redis
      → IsCoherent o segments InUse p now
      → ((k : BundleKey o) (b : List (BundleMessage o))
          → redis.bundles k ≡ some b
          → Sourced o segments InUse (set_state o id new_state p.messages) redis now k b)
      → IsCoherent o segments InUse q now
  rows-IsCoherent id new_state now p q redis rows cache coherent src = record {
    unique =
        subst Distinct
          (sym (ap (message_ids o) rows ∙ message_ids-set_state o id new_state p.messages))
          coherent.unique;
    sourced = λ k b cached. rw (rows, cache) (src k b (rw cache at cached));
  }

  edit-IsCoherent :
      (id : String) (new_state : MessageState) (subject : String) (now : ℕ) (p : Platform o)
      → IsCoherent o segments InUse p now
      → IsCoherent o segments InUse (serve o segments (edit id new_state subject) now p) now
  edit-IsCoherent id new_state subject now p coherent =
      elim (Result-cases (get_message o p.messages id)) [
        | inr (e, missing) ↦
            subst (λ q. IsCoherent o segments InUse q now)
              (sym (edit-missing id new_state subject now p e missing)) coherent
        | inl (m, found) ↦ elim (Bool-cases (can_transition m.state new_state)) [
          | inr refused ↦
              subst (λ q. IsCoherent o segments InUse q now)
                (sym (edit-refused id new_state subject now p m found refused)) coherent
          | inl allowed ↦
              let q = serve o segments (edit id new_state subject) now p in
              let (rows, cache) = edit-rows id new_state subject now p m found allowed in
              elim (Option-cases m.audience_ref) [
                | inl nowhere ↦
                    rows-IsCoherent id new_state now p q p.redis rows
                      (cache ∙ ap (λ (a : Option String). drop_audience o a p.redis) nowhere)
                      coherent (no_audience-Sourced id new_state m now p found nowhere coherent)
                | inr (segment, somewhere) ↦
                    rows-IsCoherent id new_state now p q (drop_segment o segment p.redis) rows
                      (cache ∙ ap (λ (a : Option String). drop_audience o a p.redis) somewhere)
                      coherent
                      (drop_segment-Sourced id new_state m segment now p found somewhere coherent)
              ]
        ]
      ]

  serve-IsCoherent :
      (r : Request) (now : ℕ) (p : Platform o)
      → AllAsked InUse ((r, now) ∷ [])
      → IsCoherent o segments InUse p now
      → IsCoherent o segments InUse (serve o segments r now p) now
  serve-IsCoherent (ask segment_bm language declared_major) now p asks coherent =
      asked-IsCoherent o segments InUse segment_bm language declared_major now p asks.0 coherent
  serve-IsCoherent (edit id new_state subject) now p asks coherent =
      edit-IsCoherent id new_state subject now p coherent

  later-IsCoherent :
      (p : Platform o) (now later : ℕ)
      → now ≤ later
      → IsCoherent o segments InUse p now
      → IsCoherent o segments InUse p later
  later-IsCoherent p now later le coherent = record {
    unique = coherent.unique;
    sourced = λ k b h.
        later-Sourced o segments InUse p.messages p.redis p.redis now later k b le (λ s x. x)
          (coherent.sourced k b h);
  }

  serve_all-IsCoherent :
      (requests : List (Request × ℕ)) (now until : ℕ) (p : Platform o)
      → AllAsked InUse requests
      → Times o segments now requests until
      → IsCoherent o segments InUse p now
      → IsCoherent o segments InUse (serve_all o segments requests p) until
  serve_all-IsCoherent [] now until p asks times coherent =
      later-IsCoherent p now until times coherent
  serve_all-IsCoherent ((ask segment_bm language declared_major, t) ∷ requests) now until p asks
        times coherent =
      let r = ask segment_bm language declared_major in
      serve_all-IsCoherent requests t until (serve o segments r t p) asks.1 times.1
        (serve-IsCoherent r t p (asks.0, tt) (later-IsCoherent p now t times.0 coherent))
  serve_all-IsCoherent ((edit id new_state subject, t) ∷ requests) now until p asks times coherent =
      let r = edit id new_state subject in
      serve_all-IsCoherent requests t until (serve o segments r t p) asks times.1
        (serve-IsCoherent r t p tt (later-IsCoherent p now t times.0 coherent))

-- Where no two different memberships among those in use, which are the asked ones and the channel's, have
-- the same hash, the ids of the campaigns are distinct, and the cache starts empty: after any sequence of
-- requests of channels and edits of campaigns, at times that do not fall, a channel is answered what an
-- assembly from the campaigns as they now stand gives for its segments, language and declared major, at an
-- instant until now.
pub shared_bundle_for-current :
    (o : Outside) (segments : List Segment) (InUse : List ℕ → Type 0)
    (requests : List (Request × ℕ)) (p : Platform o) (start now : ℕ) (segment_bm : List ℕ)
    (language : String) (declared_major : ℕ)
    → CollisionFree o InUse
    → AllAsked InUse requests
    → InUse segment_bm
    → Distinct (message_ids o p.messages)
    → p.redis ≡ empty_cache o
    → Times o segments start requests now
    → let q = serve_all o segments requests p in
      (at : ℕ) × (at ≤ now)
      × ((shared_bundle_for o segments q.messages segment_bm language declared_major now q.redis).1
          ≡ assemble_shared o q.messages
              (segment_ids_for_ordinals segments segment_bm)
              language
              declared_major
              at)
shared_bundle_for-current o segments InUse requests p start now segment_bm language major free asks
      in_use unique fresh times =
    asked-current o segments InUse free segment_bm language major now
      (serve_all o segments requests p) in_use
      (serve_all-IsCoherent o segments InUse requests start now p asks times
        (record { unique = unique; sourced = λ k b h. absurd (cc (rw fresh at h)) }))
