-- ===== src/Membership/Incremental.antt =====
-- `UpdateChannel` and `updateForwardBit` of internal/membership/incremental/incremental.go. The evaluation of
-- a predicate on the attributes of a channel, which runs a CEL program, is a parameter.
use citywalk.Prelude.{
  ℕ, String, Bool, true, false, not, ◌&&◌, ◌||◌, Option, none, some, List, [], ◌∷◌, Result, ok, err,
  wrap, ◌>>=◌, if◌then◌else◌,
}
use citywalk.Membership.Bitmaps.{Bitmaps}
use citywalk.Membership.Ordinal.{lookup}
use citywalk.Membership.Index.{
  RefreshMode, incremental, batch_only, Segment, MembershipError, no_channel, not_evaluated,
  to_uint32, Index, bitmap, reverse_get, put_bitmap, reverse_set,
}

abbrev pub same_bool : Bool → Bool → Bool
same_bool true c = c
same_bool false c = not c

-- The state of the loop: the rows of the transaction, the channel's bitmap, and whether it changed.
pub record Progress (b : Bitmaps) : Type 0 where
  pub membership : String → ℕ → Option b.Bitmap
  pub reverse_bm : b.Bitmap
  pub reverse_changed : Bool

module _ (b : Bitmaps) where
  unfoldable pub update_forward_bit :
      String → ℕ → ℕ → Bool → (String → ℕ → Option b.Bitmap) → String → ℕ → Option b.Bitmap
  update_forward_bit segment_id generation channel_ordinal matched membership =
      let bm = bitmap b membership segment_id generation in
      if same_bool (b.has bm channel_ordinal) matched
      then membership
      else put_bitmap b segment_id generation
          (if matched then b.add channel_ordinal bm else b.remove channel_ordinal bm) membership

  -- The bit of the segment in the channel's bitmap.
  unfoldable pub update_reverse_bit : ℕ → Bool → b.Bitmap → b.Bitmap
  update_reverse_bit segment_ordinal matched bm =
      if matched && not (b.has bm segment_ordinal)
      then b.add segment_ordinal bm
      else if not matched && b.has bm segment_ordinal
      then b.remove segment_ordinal bm
      else bm

  abbrev pub reverse_flips : ℕ → Bool → b.Bitmap → Bool
  reverse_flips segment_ordinal matched bm = not (same_bool (b.has bm segment_ordinal) matched)

  module _ {P A : Type 0} (evaluate : P → A → Option Bool) where
    abbrev evaluated : String → Option Bool → Result MembershipError Bool
    evaluated segment_id none = err (not_evaluated segment_id)
    evaluated segment_id (some matched) = ok matched

    unfoldable pub update_segment :
        ℕ → ℕ → A → Segment P → Progress b → Result MembershipError (Progress b)
    update_segment generation channel_ordinal attributes seg p = do
      matched ← evaluated seg.id (evaluate seg.predicate attributes)
      ok (record {
        membership = update_forward_bit seg.id generation channel_ordinal matched p.membership;
        reverse_bm = update_reverse_bit (to_uint32 seg.ordinal) matched p.reverse_bm;
        reverse_changed =
            p.reverse_changed || reverse_flips (to_uint32 seg.ordinal) matched p.reverse_bm;
      })

    -- Segments of the batch are passed over.
    abbrev pub step :
        ℕ → ℕ → A → Segment P → RefreshMode → Progress b → Result MembershipError (Progress b)
    step generation channel_ordinal attributes seg batch_only p = ok p
    step generation channel_ordinal attributes seg incremental p =
        update_segment generation channel_ordinal attributes seg p

    unfoldable pub update_segments :
        ℕ → ℕ → A → List (Segment P) → Progress b → Result MembershipError (Progress b)
    update_segments generation channel_ordinal attributes [] p = ok p
    update_segments generation channel_ordinal attributes (seg ∷ segments) p =
        step generation channel_ordinal attributes seg seg.refresh_mode p
        >>= update_segments generation channel_ordinal attributes segments

    abbrev pub committed : Index b → String → Progress b → Index b
    committed x channel_id p = record {
      ordinals = x.ordinals;
      generation = x.generation;
      membership = p.membership;
      reverse =
          if p.reverse_changed then reverse_set b channel_id p.reverse_bm x.reverse else x.reverse;
    }

    unfoldable pub update_channel :
        String → List (Segment P) → A → Index b → Result MembershipError (Index b)
    update_channel channel_id segments attributes x = do
      ord ← wrap (λ e. no_channel e) (lookup x.ordinals channel_id)
      let start : Progress b = record {
        membership = x.membership;
        reverse_bm = reverse_get b x channel_id;
        reverse_changed = false;
      }
      p ← update_segments x.generation (to_uint32 ord) attributes segments start
      ok (committed x channel_id p)
