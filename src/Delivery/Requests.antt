-- ===== src/Delivery/Requests.antt =====
-- Requests of channels and edits of campaigns, served in any order.
use citywalk.Prelude.{ℕ, String, ◌≡◌, ◌≤◌, List, [], ◌∷◌, Result, ok, err}
use citywalk.Definition.Lifecycle.{MessageState}
use citywalk.Delivery.Bundle.{Outside, BundleError, BundleMessage}
use citywalk.Delivery.Cache.{Redis, hash, Segment, shared_bundle_for}
use citywalk.Delivery.Edits.{Platform, EditError, with_redis, update_message_state}

-- Different memberships of those in use have different hashes.
abbrev pub CollisionFree : Outside → (List ℕ → Type 0) → Type 0
CollisionFree o InUse = (a b : List ℕ) → InUse a → InUse b → hash o a ≡ hash o b → a ≡ b

-- What the platform serves: a request of a channel for its bundle, and an edit of a campaign.
pub data Request : Type 0 where
  ask : List ℕ → String → ℕ → Request
  edit : String → MessageState → String → Request

-- The memberships that are asked for.
abbrev pub AllAsked : (List ℕ → Type 0) → List (Request × ℕ) → Type 0
AllAsked InUse [] = Unit
AllAsked InUse ((ask segment_bm language declared_major, t) ∷ requests) =
    InUse segment_bm × AllAsked InUse requests
AllAsked InUse ((edit id new_state subject, t) ∷ requests) = AllAsked InUse requests

module _ (o : Outside) (segments : List Segment) where
  abbrev pub asked :
      List ℕ → String → ℕ → ℕ → Platform o → Redis o × Result BundleError (List (BundleMessage o))
  asked segment_bm language declared_major now p =
      shared_bundle_for o segments p.messages segment_bm language declared_major now p.redis

  -- A failed edit changes nothing.
  abbrev pub edited : Platform o → Result EditError (Platform o) → Platform o
  edited p (ok q) = q
  edited p (err e) = p

  abbrev pub serve : Request → ℕ → Platform o → Platform o
  serve (ask segment_bm language declared_major) now p =
      with_redis o (asked segment_bm language declared_major now p).0 p
  serve (edit id new_state subject) now p =
      edited p (update_message_state o id new_state subject now p)

  -- The times of the requests do not fall, from `now` to `until`.
  abbrev pub Times : ℕ → List (Request × ℕ) → ℕ → Type 0
  Times now [] until = now ≤ until
  Times now ((r, t) ∷ requests) until = (now ≤ t) × Times t requests until

  abbrev pub serve_all : List (Request × ℕ) → Platform o → Platform o
  serve_all [] p = p
  serve_all ((r, t) ∷ requests) p = serve_all requests (serve r t p)
