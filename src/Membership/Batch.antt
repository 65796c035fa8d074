-- ===== src/Membership/Batch.antt =====
-- `Recompute` of internal/membership/batch/batch.go. Whether the SQL of a predicate selects a channel, which
-- Postgres decides, is a parameter. Go's maps of the run are lists of their entries or functions of the
-- key. The metric is left out.
use citywalk.Prelude.{
  ℕ, suc, ◌-◌, ◌^◌, String, Bool, true, false, not, ◌&&◌, ◌||◌, ◌==◌, Option, none, some, List, [],
  ◌∷◌, ltb, str_eq, Result, ok, err, ◌>>=◌, if◌then◌else◌,
}
use citywalk.Membership.Bitmaps.{Bitmaps}
use citywalk.Membership.Ordinal.{OrdinalRow}
use citywalk.Membership.Index.{
  Segment, MembershipError, ordinal_too_large, generation_exists, to_uint32, Index, or_empty,
  bitmap, put_bitmap,
}

-- `math.MaxUint32`.
abbrev pub max_uint32 : ℕ
max_uint32 = 2 ^ 32 - 1

pub record Report : Type 0 where
  pub generation : ℕ
  pub disagreements : List (String × ℕ)

module _ (b : Bitmaps) where
  -- `reverseByOrdinal`, by the ordinals of the channels that are not retired.
  abbrev pub ByOrdinal : Type 0
  ByOrdinal = ℕ → Option b.Bitmap

  abbrev pub has_live : List OrdinalRow → ℕ → Bool
  has_live [] n = false
  has_live (r ∷ rows) n = (not r.retired && r.ordinal == n) || has_live rows n

  abbrev pub empty_by_ordinal : List OrdinalRow → ByOrdinal
  empty_by_ordinal rows n = if has_live rows n then some b.empty else none

  abbrev pub added : ℕ → Option b.Bitmap → Option b.Bitmap
  added segment_ordinal none = none
  added segment_ordinal (some bm) = some (b.add segment_ordinal bm)

  -- The loop over the elements of the new bitmap of a segment.
  unfoldable pub mark : ℕ → List ℕ → ByOrdinal → ByOrdinal
  mark segment_ordinal [] rev = rev
  mark segment_ordinal (n ∷ ns) rev =
      mark segment_ordinal ns (λ k. if n == k then added segment_ordinal (rev k) else rev k)

  -- The state of the loop over the segments.
  pub record Built : Type 0 where
    pub new_bitmaps : List (String × b.Bitmap)
    pub disagreements : List (String × ℕ)
    pub reverse_by_ordinal : ByOrdinal

  module _ {P : Type 0} (matches : P → String → Bool) where
    -- `recomputeSegment`: the rows of the query, from a bitmap on.
    unfoldable pub scan_rows : P → List OrdinalRow → b.Bitmap → Result MembershipError b.Bitmap
    scan_rows predicate [] bm = ok bm
    scan_rows predicate (r ∷ rows) bm =
        let rest =
          scan_rows predicate rows
            (if not r.retired && matches predicate r.channel_id then b.add r.ordinal bm else bm) in
        if (not r.retired && matches predicate r.channel_id) && ltb max_uint32 r.ordinal
        then err (ordinal_too_large r.ordinal)
        else rest

    abbrev pub recompute_segment : List OrdinalRow → Segment P → Result MembershipError b.Bitmap
    recompute_segment rows seg = scan_rows seg.predicate rows b.empty

    unfoldable pub build_segments :
        Index b → List (Segment P) → Built → Result MembershipError Built
    build_segments x [] built = ok built
    build_segments x (seg ∷ segments) built = do
      new_bm ← recompute_segment x.ordinals.rows seg
      build_segments x segments (record {
        new_bitmaps = (seg.id, new_bm) ∷ built.new_bitmaps;
        disagreements =
            (seg.id, b.cardinality_of_xor (bitmap b x.membership seg.id x.generation) new_bm)
            ∷ built.disagreements;
        reverse_by_ordinal =
            mark (to_uint32 seg.ordinal) (b.elements new_bm) built.reverse_by_ordinal;
      })

  abbrev pub is_row : Option b.Bitmap → Bool
  is_row none = false
  is_row (some bm) = true

  -- The insertions of `swapGeneration`; a row that is there already is a conflict.
  unfoldable pub insert_bitmaps :
      ℕ
      → List (String × b.Bitmap)
      → (String → ℕ → Option b.Bitmap)
      → Result MembershipError (String → ℕ → Option b.Bitmap)
  insert_bitmaps generation [] membership = ok membership
  insert_bitmaps generation ((segment_id, bm) ∷ bitmaps) membership =
      let rest =
        insert_bitmaps generation bitmaps (put_bitmap b segment_id generation bm membership) in
      if is_row (membership segment_id generation) then err (generation_exists segment_id) else rest

  -- `reverse.SetMany` of the bitmaps by channel.
  unfoldable pub set_many :
      List OrdinalRow → ByOrdinal → (String → Option b.Bitmap) → String → Option b.Bitmap
  set_many [] rev reverse c = reverse c
  set_many (r ∷ rows) rev reverse c =
      let rest = set_many rows rev reverse c in
      if not r.retired && str_eq c r.channel_id then some (or_empty b (rev r.ordinal)) else rest

  abbrev pub reclaim_generations : ℕ
  reclaim_generations = 2

  -- `DELETE FROM segment_membership WHERE generation < $1`, for an oldest generation that is positive.
  unfoldable pub reclaim : ℕ → (String → ℕ → Option b.Bitmap) → String → ℕ → Option b.Bitmap
  reclaim new_gen membership s g =
      if ltb g (suc new_gen - reclaim_generations) then none else membership s g

  module _ {P : Type 0} (matches : P → String → Bool) where
    abbrev pub swapped : Index b → Built → (String → ℕ → Option b.Bitmap) → Index b × Report
    swapped x built membership = (
      record {
        ordinals = x.ordinals;
        generation = suc x.generation;
        membership = reclaim (suc x.generation) membership;
        reverse = set_many x.ordinals.rows built.reverse_by_ordinal x.reverse;
      },
      record { generation = suc x.generation; disagreements = built.disagreements },
    )

    unfoldable pub recompute :
        List (Segment P) → Index b → Result MembershipError (Index b × Report)
    recompute segments x = do
      built ← build_segments matches x segments (record {
        new_bitmaps = [];
        disagreements = [];
        reverse_by_ordinal = empty_by_ordinal x.ordinals.rows;
      })
      membership ← insert_bitmaps (suc x.generation) built.new_bitmaps x.membership
      ok (swapped x built membership)
