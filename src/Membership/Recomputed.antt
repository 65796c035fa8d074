-- ===== src/Membership/Recomputed.antt =====
-- `Recompute` gives both indexes what the predicates select.
use citywalk.Prelude.{
  ℕ, suc, ◌-◌, String, ◌≡◌, ◌⊎◌, refl, sym, ap, subst, ◌∙◌, Bool, true, false, ◌&&◌, ◌||◌, Option,
  List, [], ◌∷◌, map, Distinct, All, ltb, Result, ok, Result-cases, inl, inr, arith,
}
use citywalk.Membership.Bitmaps.{Bitmaps, AreSets}
use citywalk.Membership.Ordinal.{OrdinalRow}
use citywalk.Membership.Index.{Segment, MembershipError, to_uint32, Index, or_empty}
use citywalk.Membership.Batch.{
  Report, has_live, empty_by_ordinal, Built, build_segments, insert_bitmaps, reclaim, swapped,
  recompute,
}
use citywalk.Membership.Rebuilt.{
  is_here, any_match, KeyedTo, any_match-keyed, set_many-keyed, any_segment, build_segments-Builds,
  Builds-bits, Listed, Builds-Listed,
}
use citywalk.Membership.Inserted.{
  HaveOrdinals, Separate, IsExact, insert_bitmaps-entry, any_segment-own, live_rows,
}

module _ (b : Bitmaps) (sets : AreSets b) {P : Type 0} (matches : P → String → Bool) where
  module _ (x : Index b) (segments : List (Segment P)) (q : Built b)
      (after : String → ℕ → Option b.Bitmap) where
    abbrev rebuilt : Index b
    rebuilt = (swapped b matches x q after).0

    kept_row :
        (sid : String)
        → reclaim b (suc x.generation) after sid (suc x.generation) ≡ after sid (suc x.generation)
    unfolding reclaim
    kept_row sid =
        let kept : ltb (suc x.generation) (suc (suc x.generation) - 2) ≡ false = ground (arith) in
        rw kept refl

    segments-IsExact :
        (r : OrdinalRow) (part : List (Segment P))
        → KeyedTo b sets matches r x.ordinals.rows
        → has_live b x.ordinals.rows r.ordinal ≡ true
        → insert_bitmaps b (suc x.generation) q.new_bitmaps x.membership ≡ ok after
        → ((m : ℕ)
            → b.has (or_empty b (q.reverse_by_ordinal r.ordinal)) m
              ≡ any_segment b sets matches x.ordinals.rows segments r.ordinal m)
        → All (Listed b sets matches x.ordinals.rows q) part
        → All
            (λ s.
              any_segment b sets matches x.ordinals.rows segments r.ordinal (to_uint32 s.ordinal)
              ≡ any_match b sets matches s.predicate x.ordinals.rows r.ordinal)
            part
        → All (IsExact b matches rebuilt r) part
    segments-IsExact r [] keyed live inserted bits listed owned = tt
    segments-IsExact r (s ∷ part) keyed live inserted bits ((bm, found, selected), listed)
          (owned, others) =
        let chosen : any_match b sets matches s.predicate x.ordinals.rows r.ordinal
            ≡ matches s.predicate r.channel_id =
          any_match-keyed b sets matches s.predicate r x.ordinals.rows keyed
          ∙ ap (λ (c : Bool). c && matches s.predicate r.channel_id) live in
        let stored =
          insert_bitmaps-entry b sets matches (suc x.generation) q.new_bitmaps x.membership after
            s.id bm inserted (inl found) in
        let given =
          set_many-keyed b sets matches r x.ordinals.rows q.reverse_by_ordinal x.reverse keyed
            live in
        (
          (
            ap (λ (c : Option b.Bitmap). b.has (or_empty b c) r.ordinal) (kept_row s.id ∙ stored)
                ∙ selected r.ordinal
                ∙ chosen,
            ap (λ (c : Option b.Bitmap). b.has (or_empty b c) (to_uint32 s.ordinal)) given
                ∙ bits (to_uint32 s.ordinal)
                ∙ owned
                ∙ chosen,
          ),
          segments-IsExact r part keyed live inserted bits listed others,
        )

    rows-IsExact :
        (rows : List OrdinalRow)
        → All (λ r. KeyedTo b sets matches r x.ordinals.rows) rows
        → All (λ r. (r.retired ≡ true) ⊎ (has_live b x.ordinals.rows r.ordinal ≡ true)) rows
        → insert_bitmaps b (suc x.generation) q.new_bitmaps x.membership ≡ ok after
        → ((k m : ℕ)
            → has_live b x.ordinals.rows k ≡ true
            → b.has (or_empty b (q.reverse_by_ordinal k)) m
              ≡ any_segment b sets matches x.ordinals.rows segments k m)
        → All (Listed b sets matches x.ordinals.rows q) segments
        → Separate segments
        → All (λ r. (r.retired ≡ true) ⊎ All (IsExact b matches rebuilt r) segments) rows
    rows-IsExact [] keyed live inserted bits listed separate = tt
    rows-IsExact (r ∷ rows) keyed live inserted bits listed separate = (
      elim live.0 [
        | inl gone ↦ inl gone
        | inr here ↦ inr (
            segments-IsExact r segments keyed.0 here inserted (λ m. bits r.ordinal m here) listed
              (any_segment-own b sets matches x.ordinals.rows segments r.ordinal separate))
      ],
      rows-IsExact rows keyed.1 live.1 inserted bits listed separate,
    )

-- Where channels are told apart by their ordinals and segments by their ids and by their 32-bit ordinals: a
-- `Recompute` that returns has moved to the next generation, and there, for each channel that is not
-- retired and each segment, the channel's bit in the forward index and the segment's bit in the reverse
-- index are both set exactly if the predicate of the segment selects the channel.
pub recompute-IsExact :
    (b : Bitmaps) {P : Type 0} (matches : P → String → Bool) (segments : List (Segment P))
    (x y : Index b) (report : Report)
    → AreSets b
    → HaveOrdinals x.ordinals.rows
    → Separate segments
    → Distinct (map (λ s. s.id) segments)
    → recompute b matches segments x ≡ ok (y, report)
    → (y.generation ≡ suc x.generation)
      × All (λ r. (r.retired ≡ true) ⊎ All (IsExact b matches y r) segments) x.ordinals.rows
unfolding recompute
recompute-IsExact b matches segments x y report sets keyed separate distinct h =
    let begin : Built b = record {
      new_bitmaps = [];
      disagreements = [];
      reverse_by_ordinal = empty_by_ordinal b x.ordinals.rows;
    } in
    elim (Result-cases (build_segments b matches x segments begin)) [
      | inr (e, failed) ↦ absurd (cc (simp failed at h))
      | inl (q, built) ↦
          elim (Result-cases (insert_bitmaps b (suc x.generation) q.new_bitmaps x.membership)) [
            | inr (e, failed) ↦ absurd (cc (simp (built, failed) at h))
            | inl (after, inserted) ↦
                let is_y : ◌≡◌ {A = Result MembershipError (Index b × Report)}
                    (ok (swapped b matches x q after)) (ok (y, report)) =
                  simp (built, inserted) at h in
                let same : (swapped b matches x q after).0 ≡ y = cc is_y in
                let run = build_segments-Builds b sets matches x segments begin q built in
                let live =
                  live_rows b sets matches x.ordinals.rows x.ordinals.rows (λ n there. there) in
                (
                  ap (λ (z : Index b). z.generation) (sym same),
                  subst
                      (λ z.
                        All (λ r. (r.retired ≡ true) ⊎ All (IsExact b matches z r) segments)
                          x.ordinals.rows)
                      same
                      (rows-IsExact b sets matches x segments q after x.ordinals.rows keyed live
                        inserted
                        (λ k m here.
                          marked_bits k m here
                            (Builds-bits b sets matches x segments begin q k m run))
                        (Builds-Listed b sets matches x segments begin q distinct run) separate),
                )
          ]
    ]
  where
    marked_bits :
        (k m : ℕ) (here : has_live b x.ordinals.rows k ≡ true) {c d : Bool}
        → (is_here b sets (empty_by_ordinal b x.ordinals.rows k) ≡ true
            → c ≡ (d || b.has (or_empty b (empty_by_ordinal b x.ordinals.rows k)) m))
        → c ≡ d
    marked_bits k m here f = (rw here at f) refl ∙ ground (arith, sets.has_empty m)
