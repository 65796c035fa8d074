-- ===== src/Membership/Updated.antt =====
-- `UpdateChannel` keeps the forward and the reverse index in agreement.
use citywalk.Prelude.{
  ℕ, String, ◌≡◌, ◌⊎◌, refl, sym, ap, subst, ◌∙◌, Bool, true, false, ◌==◌, Option, some, List, [],
  ◌∷◌, map, Distinct, All, str_eq, eq_iff, Result, ok, Bool-cases, Result-cases, inl, inr, arith,
}
use citywalk.Membership.Bitmaps.{Bitmaps, AreSets}
use citywalk.Membership.Ordinal.{OrdinalRow, OrdinalError, lookup_row, lookup}
use citywalk.Membership.Index.{
  batch_only, Segment, MembershipError, to_uint32, Index, bitmap, current_bitmap, reverse_get,
  reverse_set,
}
use citywalk.Membership.Incremental.{Progress, update_segments, committed, update_channel}
use citywalk.Membership.Agreement.{
  Agrees, Run, update_segments-Run, Run-Agrees, Run-others, Run-IsMarked, Run-unchanged,
}

-- Two rows have the same channel exactly if they have the same 32-bit ordinal.
abbrev pub AreKeyed : List OrdinalRow → Type 0
AreKeyed rows =
    All
      (λ t.
        All (λ r. str_eq r.channel_id t.channel_id ≡ (to_uint32 t.ordinal == to_uint32 r.ordinal))
          rows)
      rows

lookup_row-found :
    (P : OrdinalRow → Type 0) (rows : List OrdinalRow) (channel_id : String) (ord : ℕ)
    → All P rows
    → lookup_row rows channel_id ≡ ok ord
    → (r : OrdinalRow) × P r × (r.channel_id ≡ channel_id) × (r.retired ≡ false) × (r.ordinal ≡ ord)
unfolding lookup_row
lookup_row-found P [] channel_id ord a h = absurd (cc h)
lookup_row-found P (r ∷ rows) channel_id ord a h =
    elim (Bool-cases (str_eq r.channel_id channel_id)) [
      | inr other ↦ lookup_row-found P rows channel_id ord a.1 (rw other at h)
      | inl same ↦ elim (Bool-cases r.retired) [
        | inl gone ↦ absurd (cc (simp (same, gone) at h))
        | inr live ↦
            let is_ord : ◌≡◌ {A = Result OrdinalError ℕ} (ok r.ordinal) (ok ord) =
              simp (same, live) at h in
            (r, a.0, (eq_iff r.channel_id channel_id).0 same, live, cc is_ord)
      ]
    ]

module _ (b : Bitmaps) {P : Type 0} where
  -- The bit of the channel in the segment's bitmap is that of the segment in the channel's.
  abbrev pub BitsAgree : Index b → OrdinalRow → Segment P → Type 0
  BitsAgree x r s =
      b.has (current_bitmap b x s.id) (to_uint32 r.ordinal)
      ≡ b.has (reverse_get b x r.channel_id) (to_uint32 s.ordinal)

  -- The indexes agree on each channel that is not retired and each of the segments.
  abbrev pub IsAgreed : Index b → List (Segment P) → Type 0
  IsAgreed x segments = All (λ r. (r.retired ≡ true) ⊎ All (BitsAgree x r) segments) x.ordinals.rows

  -- Each incremental segment has for the ordinal what its predicate gives.
  abbrev pub FollowsPredicates :
      {A : Type 0} → (P → A → Option Bool) → A → Index b → ℕ → List (Segment P) → Type 0
  FollowsPredicates evaluate attributes x ord segments =
      All
        (λ s.
          (s.refresh_mode ≡ batch_only)
          ⊎ (evaluate s.predicate attributes
              ≡ some (b.has (current_bitmap b x s.id) (to_uint32 ord))))
        segments

module _ (b : Bitmaps) (sets : AreSets b) {P A : Type 0} (evaluate : P → A → Option Bool)
    (attributes : A) (x : Index b) (channel_id : String) where
  abbrev start : Progress b
  start = record {
    membership = x.membership;
    reverse_bm = reverse_get b x channel_id;
    reverse_changed = false;
  }

  start-Agrees :
      (all : List (Segment P)) (ord : ℕ) (r : OrdinalRow)
      → r.channel_id ≡ channel_id
      → r.ordinal ≡ ord
      → All (BitsAgree b x r) all
      → Agrees b sets evaluate x.generation (to_uint32 ord) attributes all start
  start-Agrees [] ord r c n a = tt
  start-Agrees (s ∷ all) ord r c n a = (
    ap (λ (k : ℕ). b.has (current_bitmap b x s.id) (to_uint32 k)) (sym n)
        ∙ a.0
        ∙ ap (λ (t : String). b.has (reverse_get b x t) (to_uint32 s.ordinal)) c,
    start-Agrees all ord r c n a.1,
  )

  reverse_kept :
      (p : Progress b) (n : ℕ)
      → ((p.reverse_changed ≡ true) ⊎ (b.has p.reverse_bm n ≡ b.has (reverse_get b x channel_id) n))
      → b.has (reverse_get b (committed b evaluate x channel_id p) channel_id) n
        ≡ b.has p.reverse_bm n
  unfolding reverse_set
  reverse_kept p n h = elim (Bool-cases p.reverse_changed) [
    | inl changed ↦ simp (changed, (eq_iff channel_id channel_id).1 refl) refl
    | inr unchanged ↦ elim h [
      | inl changed ↦ absurd (cc (changed, unchanged))
      | inr same ↦ simp unchanged (sym same)
    ]
  ]

  reverse_others :
      (p : Progress b) (c : String)
      → str_eq c channel_id ≡ false
      → reverse_get b (committed b evaluate x channel_id p) c ≡ reverse_get b x c
  unfolding reverse_set
  reverse_others p c other = elim (Bool-cases p.reverse_changed) [
    | inl changed ↦ simp (changed, other) refl
    | inr unchanged ↦ simp unchanged refl
  ]

  module _ (segments : List (Segment P)) (ord : ℕ) (p : Progress b)
      (run : Run b sets evaluate x.generation (to_uint32 ord) attributes segments start p) where
    abbrev after : Index b
    after = committed b evaluate x channel_id p

    kept_or_changed :
        (n : ℕ)
        → (p.reverse_changed ≡ true) ⊎ (b.has p.reverse_bm n ≡ b.has (reverse_get b x channel_id) n)
    kept_or_changed n = elim (Bool-cases p.reverse_changed) [
      | inl changed ↦ inl changed
      | inr unchanged ↦
          inr
            (Run-unchanged b sets evaluate x.generation (to_uint32 ord) attributes segments start p
              n run unchanged).1
    ]

    own_row :
        (all : List (Segment P)) (r : OrdinalRow)
        → r.channel_id ≡ channel_id
        → to_uint32 r.ordinal ≡ to_uint32 ord
        → Agrees b sets evaluate x.generation (to_uint32 ord) attributes all p
        → All (BitsAgree b after r) all
    own_row [] r c n a = tt
    own_row (s ∷ all) r c n a = (
      ap (b.has (bitmap b p.membership s.id x.generation)) n
          ∙ a.0
          ∙ sym (reverse_kept p (to_uint32 s.ordinal) (kept_or_changed (to_uint32 s.ordinal)))
          ∙ ap (λ (t : String). b.has (reverse_get b after t) (to_uint32 s.ordinal)) (sym c),
      own_row all r c n a.1,
    )

    other_row :
        (all : List (Segment P)) (r : OrdinalRow)
        → str_eq r.channel_id channel_id ≡ false
        → (to_uint32 ord == to_uint32 r.ordinal) ≡ false
        → All (BitsAgree b x r) all
        → All (BitsAgree b after r) all
    other_row [] r c n a = tt
    other_row (s ∷ all) r c n a = (
      Run-others b sets evaluate x.generation (to_uint32 ord) attributes segments start p s.id
            x.generation (to_uint32 r.ordinal) n run
          ∙ a.0
          ∙ ap (λ bm. b.has bm (to_uint32 s.ordinal)) (sym (reverse_others p r.channel_id c)),
      other_row all r c n a.1,
    )

    rows-IsAgreed :
        (all : List (Segment P)) (rows : List OrdinalRow)
        → Agrees b sets evaluate x.generation (to_uint32 ord) attributes all p
        → All (λ r. str_eq r.channel_id channel_id ≡ (to_uint32 ord == to_uint32 r.ordinal)) rows
        → All (λ r. (r.retired ≡ true) ⊎ All (BitsAgree b x r) all) rows
        → All (λ r. (r.retired ≡ true) ⊎ All (BitsAgree b after r) all) rows
    rows-IsAgreed all [] a k h = tt
    rows-IsAgreed all (r ∷ rows) a k h = (
      elim h.0 [
        | inl gone ↦ inl gone
        | inr bits ↦ elim (Bool-cases (str_eq r.channel_id channel_id)) [
          | inl same ↦ inr (
              own_row all r ((eq_iff r.channel_id channel_id).0 same) (ground (arith, k.0, same)) a)
          | inr other ↦ inr (other_row all r other (sym k.0 ∙ other) bits)
        ]
      ],
      rows-IsAgreed all rows a k.1 h.1,
    )

-- Where channels and segments are told apart alike by their names and their 32-bit ordinals, and the two
-- indexes agree on every channel that is not retired: an `UpdateChannel` that returns had an ordinal for
-- the channel; each incremental segment that it was given then has the bit for the channel that its
-- predicate gives on the attributes; and the indexes still agree on every channel that is not retired.
pub update_channel-IsAgreed :
    (b : Bitmaps) {P A : Type 0} (evaluate : P → A → Option Bool) (all segments : List (Segment P))
    (channel_id : String) (attributes : A) (x y : Index b)
    → (sets : AreSets b) → AreKeyed x.ordinals.rows
    → All
        (λ seg. All (λ s. str_eq s.id seg.id ≡ (to_uint32 seg.ordinal == to_uint32 s.ordinal)) all)
        segments
    → Distinct (map (λ s. s.id) segments)
    → IsAgreed b x all
    → update_channel b evaluate channel_id segments attributes x ≡ ok y
    → (ord : ℕ) × (lookup x.ordinals channel_id ≡ ok ord)
      × FollowsPredicates b evaluate attributes y ord segments
      × IsAgreed b y all
unfolding update_channel
update_channel-IsAgreed b evaluate all segments channel_id attributes x y sets keyed keys distinct
      agreed h =
    elim (Result-cases (lookup x.ordinals channel_id)) [
      | inr (e, missing) ↦ absurd (cc (simp missing at h))
      | inl (ord, found) ↦
          let begin : Progress b = record {
            membership = x.membership;
            reverse_bm = reverse_get b x channel_id;
            reverse_changed = false;
          } in
          elim (Result-cases
            (update_segments b evaluate x.generation (to_uint32 ord) attributes segments begin)) [
              | inr (e, failed) ↦ absurd (cc (simp (found, failed) at h))
              | inl (p, ran) ↦
                  let is_y : ◌≡◌ {A = Result MembershipError (Index b)}
                      (ok (committed b evaluate x channel_id p)) (ok y) =
                    simp (found, ran) at h in
                  let same : committed b evaluate x channel_id p ≡ y = cc is_y in
                  let run =
                    update_segments-Run b sets evaluate x.generation (to_uint32 ord) attributes
                      segments begin p ran in
                  let (r, bits, c, live, n) =
                    lookup_row-found _ x.ordinals.rows channel_id ord agreed found in
                  let (t, told, c', live', n') =
                    lookup_row-found _ x.ordinals.rows channel_id ord keyed found in
                  let named : All
                      (λ u. str_eq u.channel_id channel_id ≡ (to_uint32 ord == to_uint32 u.ordinal))
                      x.ordinals.rows =
                    subst
                      (λ (k : ℕ).
                        All
                          (λ u.
                            str_eq u.channel_id channel_id ≡ (to_uint32 k == to_uint32 u.ordinal))
                          x.ordinals.rows)
                      n'
                      (subst
                        (λ (d : String).
                          All
                            (λ u.
                              str_eq u.channel_id d ≡ (to_uint32 t.ordinal == to_uint32 u.ordinal))
                            x.ordinals.rows)
                        c' told) in
                  let own : All (BitsAgree b x r) all = elim bits [
                    | inl gone ↦ absurd (cc (gone, live))
                    | inr held ↦ held
                  ] in
                  let ended =
                    Run-Agrees b sets evaluate x.generation (to_uint32 ord) attributes all segments
                      begin p keys run
                      (start-Agrees b sets evaluate attributes x channel_id all ord r c n own) in
                  (
                    ord,
                    found,
                    subst (λ z. FollowsPredicates b evaluate attributes z ord segments) same
                        (Run-IsMarked b sets evaluate x.generation (to_uint32 ord) attributes
                          segments begin p distinct run),
                    subst (λ z. IsAgreed b z all) same
                        (rows-IsAgreed b sets evaluate attributes x channel_id segments ord p run
                          all x.ordinals.rows ended named agreed),
                  )
            ]
    ]
