-- ===== src/Membership/Rebuilt.antt =====
-- The parts of `Recompute`: the rows of a segment, the marks of the reverse index, and the insertions.
use citywalk.Prelude.{
  ℕ, String, ◌≡◌, refl, sym, ap, ◌∙◌, Bool, true, false, not, ◌&&◌, ◌||◌, ◌==◌, ==_iff, Option,
  none, some, List, [], ◌∷◌, map, contains, Distinct, All, ltb, str_eq, eq_iff, ok, err,
  if◌then◌else◌, Bool-cases, Result-cases, inl, inr, arith,
}
use citywalk.Membership.Bitmaps.{Bitmaps, AreSets, holds}
use citywalk.Membership.Ordinal.{OrdinalRow}
use citywalk.Membership.Index.{Segment, ordinal_too_large, to_uint32, Index, or_empty, bitmap}
use citywalk.Membership.Batch.{
  max_uint32, ByOrdinal, has_live, added, mark, Built, scan_rows, recompute_segment, build_segments,
  set_many,
}

module _ (b : Bitmaps) (sets : AreSets b) where
  abbrev pub is_here : Option b.Bitmap → Bool
  is_here none = false
  is_here (some bm) = true

  one_mark :
      (so n k m : ℕ) (o : Option b.Bitmap)
      → is_here o ≡ true
      → (is_here (if n == k then added b so o else o) ≡ true)
        × (b.has (or_empty b (if n == k then added b so o else o)) m
            ≡ ((n == k && so == m) || b.has (or_empty b o) m))
  one_mark so n k m none h = absurd (cc h)
  one_mark so n k m (some bm) h = elim (Bool-cases (n == k)) [
    | inl here ↦ (rw here refl, rw here (sets.has_add so m bm))
    | inr other ↦ (rw other refl, rw other refl)
  ]

  pub mark-bits :
      (so k m : ℕ) (ns : List ℕ) (rev : ByOrdinal b)
      → is_here (rev k) ≡ true
      → (is_here (mark b so ns rev k) ≡ true)
        × (b.has (or_empty b (mark b so ns rev k)) m
            ≡ ((holds ns k && so == m) || b.has (or_empty b (rev k)) m))
  unfolding mark
  mark-bits so k m [] rev h = (h, refl)
  mark-bits so k m (n ∷ ns) rev h =
      let (here, bit) = one_mark so n k m (rev k) h in
      let (still, bits) =
        mark-bits so k m ns (λ j. if n == j then added b so (rev j) else rev j) here in
      (still, bits ∙ either (holds ns k) (so == m) (n == k) (b.has (or_empty b (rev k)) m) bit)
    where
      either :
          (c d e f : Bool) {g : Bool}
          → g ≡ ((e && d) || f)
          → ((c && d) || g) ≡ (((e || c) && d) || f)
      either c d e f h = ground (arith, h)

  module _ {P : Type 0} (matches : P → String → Bool) where
    -- Some channel with the ordinal is selected.
    abbrev pub any_match : P → List OrdinalRow → ℕ → Bool
    any_match predicate [] n = false
    any_match predicate (r ∷ rows) n =
        ((not r.retired && matches predicate r.channel_id) && r.ordinal == n)
        || any_match predicate rows n

    pub scan_rows-has :
        (predicate : P) (rows : List OrdinalRow) (bm new_bm : b.Bitmap) (n : ℕ)
        → scan_rows b matches predicate rows bm ≡ ok new_bm
        → b.has new_bm n ≡ (any_match predicate rows n || b.has bm n)
    unfolding scan_rows
    scan_rows-has predicate [] bm new_bm n h =
        let same : bm ≡ new_bm = cc h in ap (λ x. b.has x n) (sym same)
    scan_rows-has predicate (r ∷ rows) bm new_bm n h =
        elim (Bool-cases (not r.retired && matches predicate r.channel_id)) [
          | inr passed ↦ rw passed (scan_rows-has predicate rows bm new_bm n (rw passed at h))
          | inl chosen ↦
              let taken : (if ltb max_uint32 r.ordinal
                    then err (ordinal_too_large r.ordinal)
                    else scan_rows b matches predicate rows (b.add r.ordinal bm))
                  ≡ ok new_bm =
                rw chosen at h in
              elim (Bool-cases (ltb max_uint32 r.ordinal)) [
                | inl large ↦ absurd (cc (rw large at taken))
                | inr fits ↦
                    let rest =
                      scan_rows-has predicate rows (b.add r.ordinal bm) new_bm n
                        (rw fits at taken) in
                    rw chosen (rest ∙ ground (arith, sets.has_add r.ordinal n bm))
              ]
        ]

    -- The rows keyed to a row: the same channel exactly at the same ordinal.
    abbrev pub KeyedTo : OrdinalRow → List OrdinalRow → Type 0
    KeyedTo r rows = All (λ t. str_eq t.channel_id r.channel_id ≡ (r.ordinal == t.ordinal)) rows

    pub any_match-keyed :
        (predicate : P) (r : OrdinalRow) (rows : List OrdinalRow)
        → KeyedTo r rows
        → any_match predicate rows r.ordinal
          ≡ (has_live b rows r.ordinal && matches predicate r.channel_id)
    any_match-keyed predicate r [] k = refl
    any_match-keyed predicate r (t ∷ rows) k =
        let rest = any_match-keyed predicate r rows k.1 in
        elim (Bool-cases (str_eq t.channel_id r.channel_id)) [
          | inl same ↦
              let alike : matches predicate t.channel_id ≡ matches predicate r.channel_id =
                ap (matches predicate) ((eq_iff t.channel_id r.channel_id).0 same) in
              ground (
                arith,
                rest,
                alike,
                k.0,
                same,
                ==_iff r.ordinal t.ordinal,
                ==_iff t.ordinal r.ordinal,
              )
          | inr other ↦
              ground
                (arith, rest, k.0, other, ==_iff r.ordinal t.ordinal, ==_iff t.ordinal r.ordinal)
        ]

    pub set_many-keyed :
        (r : OrdinalRow) (rows : List OrdinalRow) (rev : ByOrdinal b)
        (reverse : String → Option b.Bitmap)
        → KeyedTo r rows
        → has_live b rows r.ordinal ≡ true
        → set_many b rows rev reverse r.channel_id ≡ some (or_empty b (rev r.ordinal))
    unfolding set_many
    set_many-keyed r [] rev reverse k h = absurd (cc h)
    set_many-keyed r (t ∷ rows) rev reverse k h =
        elim (Bool-cases (not t.retired && str_eq r.channel_id t.channel_id)) [
          | inl own ↦
              let same : r.ordinal ≡ t.ordinal = ground (
                arith,
                own,
                k.0,
                eq_iff r.channel_id t.channel_id,
                eq_iff t.channel_id r.channel_id,
              ) in
              rw own (ap (λ (n : ℕ). some (or_empty b (rev n))) (sym same))
          | inr other ↦
              let later : has_live b rows r.ordinal ≡ true = ground (
                arith,
                h,
                other,
                k.0,
                eq_iff r.channel_id t.channel_id,
                eq_iff t.channel_id r.channel_id,
                ==_iff t.ordinal r.ordinal,
                ==_iff r.ordinal t.ordinal,
              ) in
              rw other (set_many-keyed r rows rev reverse k.1 later)
        ]

    -- Some segment with the ordinal selects the channel.
    abbrev pub any_segment : List OrdinalRow → List (Segment P) → ℕ → ℕ → Bool
    any_segment rows [] k m = false
    any_segment rows (s ∷ segments) k m =
        (any_match s.predicate rows k && to_uint32 s.ordinal == m) || any_segment rows segments k m

    abbrev pub entry : List (String × b.Bitmap) → String → Option b.Bitmap
    entry [] sid = none
    entry ((id, bm) ∷ bitmaps) sid = if str_eq sid id then some bm else entry bitmaps sid

    -- The progress behind one more segment.
    abbrev pub with_segment : Index b → Segment P → b.Bitmap → Built b → Built b
    with_segment x seg new_bm built = record {
      new_bitmaps = (seg.id, new_bm) ∷ built.new_bitmaps;
      disagreements =
          (seg.id, b.cardinality_of_xor (bitmap b x.membership seg.id x.generation) new_bm)
          ∷ built.disagreements;
      reverse_by_ordinal =
          mark b (to_uint32 seg.ordinal) (b.elements new_bm) built.reverse_by_ordinal;
    }

    -- A run of the loop, segment by segment.
    abbrev pub Builds : Index b → List (Segment P) → Built b → Built b → Type 0
    Builds x [] p q = p ≡ q
    Builds x (seg ∷ segments) p q =
        (bm : b.Bitmap) × (recompute_segment b matches x.ordinals.rows seg ≡ ok bm)
        × Builds x segments (with_segment x seg bm p) q

    pub build_segments-Builds :
        (x : Index b) (segments : List (Segment P)) (p q : Built b)
        → build_segments b matches x segments p ≡ ok q
        → Builds x segments p q
    unfolding build_segments
    build_segments-Builds x [] p q h = cc h
    build_segments-Builds x (seg ∷ segments) p q h =
        elim (Result-cases (recompute_segment b matches x.ordinals.rows seg)) [
          | inr (e, failed) ↦ absurd (cc (rw failed at h))
          | inl (bm, made) ↦ (
            bm,
            made,
            build_segments-Builds x segments (with_segment x seg bm p) q (rw made at h),
          )
        ]

    pub Builds-bits :
        (x : Index b) (segments : List (Segment P)) (p q : Built b) (k m : ℕ)
        → Builds x segments p q
        → is_here (p.reverse_by_ordinal k) ≡ true
        → b.has (or_empty b (q.reverse_by_ordinal k)) m ≡ (
            any_segment x.ordinals.rows segments k m
            || b.has (or_empty b (p.reverse_by_ordinal k)) m)
    Builds-bits x [] p q k m r h =
        ap (λ (y : Built b). b.has (or_empty b (y.reverse_by_ordinal k)) m) (sym r)
    Builds-bits x (seg ∷ segments) p q k m (bm, made, rest) h =
        let (here, bits) =
          mark-bits (to_uint32 seg.ordinal) k m (b.elements bm) p.reverse_by_ordinal h in
        let selected = scan_rows-has seg.predicate x.ordinals.rows b.empty bm k made in
        Builds-bits x segments (with_segment x seg bm p) q k m rest here
        ∙ ground (arith, bits, selected, sets.has_elements k bm, sets.has_empty k)

    pub Builds-untouched :
        (x : Index b) (segments : List (Segment P)) (p q : Built b) (sid : String)
        → contains sid (map (λ s. s.id) segments) ≡ false
        → Builds x segments p q
        → entry q.new_bitmaps sid ≡ entry p.new_bitmaps sid
    Builds-untouched x [] p q sid absent r = ap (λ (y : Built b). entry y.new_bitmaps sid) (sym r)
    Builds-untouched x (seg ∷ segments) p q sid absent (bm, made, rest) =
        let other : str_eq sid seg.id ≡ false = ground (arith, absent) in
        let later : contains sid (map (λ s. s.id) segments) ≡ false = ground (arith, absent) in
        Builds-untouched x segments (with_segment x seg bm p) q sid later rest ∙ rw other refl

    -- Each segment has a new bitmap, of the channels that its predicate selects.
    abbrev pub Listed : List OrdinalRow → Built b → Segment P → Type 0
    Listed rows q s =
        (bm : b.Bitmap) × (entry q.new_bitmaps s.id ≡ some bm)
        × ((n : ℕ) → b.has bm n ≡ any_match s.predicate rows n)

    pub Builds-Listed :
        (x : Index b) (segments : List (Segment P)) (p q : Built b)
        → Distinct (map (λ s. s.id) segments)
        → Builds x segments p q
        → All (Listed x.ordinals.rows q) segments
    Builds-Listed x [] p q d r = tt
    Builds-Listed x (seg ∷ segments) p q d (bm, made, rest) = (
      (
        bm,
        Builds-untouched x segments (with_segment x seg bm p) q seg.id d.0 rest
            ∙ rw ((eq_iff seg.id seg.id).1 refl) refl,
        λ n.
            scan_rows-has seg.predicate x.ordinals.rows b.empty bm n made
            ∙ ground (arith, sets.has_empty n),
      ),
      Builds-Listed x segments (with_segment x seg bm p) q d.1 rest,
    )
