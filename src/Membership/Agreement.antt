-- ===== src/Membership/Agreement.antt =====
-- The two indexes under `UpdateChannel`.
use citywalk.Prelude.{
  ℕ, String, ◌≡◌, ◌⊎◌, refl, sym, ap, subst, ◌∙◌, Bool, true, false, not, ◌&&◌, ◌||◌, ◌==◌, ==_iff,
  Option, some, List, [], ◌∷◌, map, contains, Distinct, All, str_eq, eq_iff, ok, if◌then◌else◌,
  Option-cases, inl, inr, arith,
}
use citywalk.Membership.Bitmaps.{Bitmaps, AreSets}
use citywalk.Membership.Index.{RefreshMode, incremental, batch_only, Segment, to_uint32, bitmap}
use citywalk.Membership.Incremental.{
  Progress, same_bool, update_forward_bit, update_reverse_bit, update_segment, reverse_flips,
  update_segments,
}
use citywalk.Membership.Bits.{update_forward_bit-bit, update_reverse_bit-bit, same_bool-eq}

module _ (b : Bitmaps) (sets : AreSets b) where
  module _ {P A : Type 0} (evaluate : P → A → Option Bool) (g o : ℕ) (attributes : A) where
    abbrev pub forward_bit : Progress b → Segment P → Bool
    forward_bit p s = b.has (bitmap b p.membership s.id g) o

    abbrev pub reverse_bit : Progress b → Segment P → Bool
    reverse_bit p s = b.has p.reverse_bm (to_uint32 s.ordinal)

    -- The ids of the segments and their ordinals tell them apart alike.
    abbrev pub Keyed : List (Segment P) → Segment P → Type 0
    Keyed all seg =
        All (λ s. str_eq s.id seg.id ≡ (to_uint32 seg.ordinal == to_uint32 s.ordinal)) all

    abbrev pub Agrees : List (Segment P) → Progress b → Type 0
    Agrees all p = All (λ s. forward_bit p s ≡ reverse_bit p s) all

    -- The progress behind a segment that was evaluated.
    abbrev pub marked : Segment P → Bool → Progress b → Progress b
    marked seg matched p = record {
      membership = update_forward_bit b seg.id g o matched p.membership;
      reverse_bm = update_reverse_bit b (to_uint32 seg.ordinal) matched p.reverse_bm;
      reverse_changed =
          p.reverse_changed || reverse_flips b (to_uint32 seg.ordinal) matched p.reverse_bm;
    }

    marked-Agrees :
        (all : List (Segment P)) (seg : Segment P) (matched : Bool) (p : Progress b)
        → Keyed all seg
        → Agrees all p
        → Agrees all (marked seg matched p)
    marked-Agrees [] seg matched p k a = tt
    marked-Agrees (s ∷ all) seg matched p k a = (
      update_forward_bit-bit b sets seg.id s.id g g o o matched p.membership
          ∙ one_bit (str_eq s.id seg.id) (to_uint32 seg.ordinal == to_uint32 s.ordinal) k.0 a.0
          ∙ sym (
              update_reverse_bit-bit b sets (to_uint32 seg.ordinal) (to_uint32 s.ordinal) matched
                p.reverse_bm),
      marked-Agrees all seg matched p k.1 a.1,
    )
      where
        one_bit :
            (c d : Bool)
            → c ≡ d
            → forward_bit p s ≡ reverse_bit p s
            → (if (c && g == g) && o == o then matched else forward_bit p s)
              ≡ (if d then matched else reverse_bit p s)
        one_bit c d e f = ground (arith, e, f)

    -- What a loop that returns has done with each segment.
    abbrev pub Run : List (Segment P) → Progress b → Progress b → Type 0
    Run [] p q = p ≡ q
    Run (seg ∷ segments) p q =
        ((seg.refresh_mode ≡ batch_only) × Run segments p q)
        ⊎ ((seg.refresh_mode ≡ incremental)
            × ((matched : Bool) × (evaluate seg.predicate attributes ≡ some matched)
                × Run segments (marked seg matched p) q))

    mode_cases : (m : RefreshMode) → (m ≡ batch_only) ⊎ (m ≡ incremental)
    mode_cases batch_only = inl refl
    mode_cases incremental = inr refl

    pub update_segments-Run :
        (segments : List (Segment P)) (p q : Progress b)
        → update_segments b evaluate g o attributes segments p ≡ ok q
        → Run segments p q
    unfolding update_segments update_segment
    update_segments-Run [] p q h = cc h
    update_segments-Run (seg ∷ segments) p q h = elim (mode_cases seg.refresh_mode) [
      | inl batched ↦ inl (batched, update_segments-Run segments p q (simp batched at h))
      | inr kept ↦ elim (Option-cases (evaluate seg.predicate attributes)) [
        | inl failed ↦ absurd (cc (simp (kept, failed) at h))
        | inr (matched, found) ↦ inr (
          kept,
          (
            matched,
            found,
            update_segments-Run segments (marked seg matched p) q (simp (kept, found) at h),
          ),
        )
      ]
    ]

    pub Run-Agrees :
        (all segments : List (Segment P)) (p q : Progress b)
        → All (Keyed all) segments
        → Run segments p q
        → Agrees all p
        → Agrees all q
    Run-Agrees all [] p q k r a = subst (Agrees all) r a
    Run-Agrees all (seg ∷ segments) p q k r a = elim r [
      | inl (batched, rest) ↦ Run-Agrees all segments p q k.1 rest a
      | inr (kept, (matched, found, rest)) ↦
          Run-Agrees all segments (marked seg matched p) q k.1 rest
            (marked-Agrees all seg matched p k.0 a)
    ]

    -- The bits of other channels stay.
    pub Run-others :
        (segments : List (Segment P)) (p q : Progress b) (s : String) (h n : ℕ)
        → (o == n) ≡ false
        → Run segments p q
        → b.has (bitmap b q.membership s h) n ≡ b.has (bitmap b p.membership s h) n
    Run-others [] p q s h n other r =
        ap (λ (x : Progress b). b.has (bitmap b x.membership s h) n) (sym r)
    Run-others (seg ∷ segments) p q s h n other r = elim r [
      | inl (batched, rest) ↦ Run-others segments p q s h n other rest
      | inr (kept, (matched, found, rest)) ↦
          Run-others segments (marked seg matched p) q s h n other rest
          ∙ update_forward_bit-bit b sets seg.id s g h o n matched p.membership
          ∙ ground (arith, other)
    ]

    abbrev pub ids_of : List (Segment P) → List String
    ids_of = map (λ s. s.id)

    Run-untouched :
        (segments : List (Segment P)) (p q : Progress b) (s : Segment P)
        → contains s.id (ids_of segments) ≡ false
        → Run segments p q
        → forward_bit q s ≡ forward_bit p s
    Run-untouched [] p q s absent r = ap (λ (x : Progress b). forward_bit x s) (sym r)
    Run-untouched (seg ∷ segments) p q s absent r =
        let later : contains s.id (ids_of segments) ≡ false = ground (arith, absent) in
        elim r [
          | inl (batched, rest) ↦ Run-untouched segments p q s later rest
          | inr (kept, (matched, found, rest)) ↦
              Run-untouched segments (marked seg matched p) q s later rest
              ∙ update_forward_bit-bit b sets seg.id s.id g g o o matched p.membership
              ∙ ground (arith, absent)
        ]

    -- Each segment that is kept incrementally has the bit that its predicate gives.
    abbrev pub IsMarked : Progress b → Segment P → Type 0
    IsMarked q seg =
        (seg.refresh_mode ≡ batch_only)
        ⊎ (evaluate seg.predicate attributes ≡ some (forward_bit q seg))

    pub Run-IsMarked :
        (segments : List (Segment P)) (p q : Progress b)
        → Distinct (ids_of segments)
        → Run segments p q
        → All (IsMarked q) segments
    Run-IsMarked [] p q d r = tt
    Run-IsMarked (seg ∷ segments) p q d r = elim r [
      | inl (batched, rest) ↦ (inl batched, Run-IsMarked segments p q d.1 rest)
      | inr (kept, (matched, found, rest)) ↦
          let stays = Run-untouched segments (marked seg matched p) q seg d.0 rest in
          let written : forward_bit (marked seg matched p) seg ≡ matched =
            update_forward_bit-bit b sets seg.id seg.id g g o o matched p.membership
            ∙ ground (arith, (eq_iff seg.id seg.id).1 refl) in
          (
            inr (found ∙ ap (λ (m : Bool). some m) (sym (stays ∙ written))),
            Run-IsMarked segments (marked seg matched p) q d.1 rest,
          )
    ]

    -- A bitmap that the loop reports unchanged has the bits it had.
    pub Run-unchanged :
        (segments : List (Segment P)) (p q : Progress b) (n : ℕ)
        → Run segments p q
        → q.reverse_changed ≡ false
        → (p.reverse_changed ≡ false) × (b.has q.reverse_bm n ≡ b.has p.reverse_bm n)
    Run-unchanged [] p q n r h = (
      ap (λ (x : Progress b). x.reverse_changed) r ∙ h,
      ap (λ (x : Progress b). b.has x.reverse_bm n) (sym r),
    )
    Run-unchanged (seg ∷ segments) p q n r h = elim r [
      | inl (batched, rest) ↦ Run-unchanged segments p q n rest h
      | inr (kept, (matched, found, rest)) ↦
          let (flag, bits) = Run-unchanged segments (marked seg matched p) q n rest h in
          let same : same_bool (b.has p.reverse_bm (to_uint32 seg.ordinal)) matched ≡ true =
            no_flip p.reverse_changed _ flag in
          (
            first_false p.reverse_changed _ flag,
            bits
                ∙ update_reverse_bit-bit b sets (to_uint32 seg.ordinal) n matched p.reverse_bm
                ∙ kept_bit (to_uint32 seg.ordinal) n matched p.reverse_bm
                    (same_bool-eq b sets _ matched same),
          )
    ]
      where
        first_false : (c d : Bool) → (c || d) ≡ false → c ≡ false
        first_false c d e = ground (arith, e)

        no_flip : (c d : Bool) → (c || not d) ≡ false → d ≡ true
        no_flip c d e = ground (arith, e)

        kept_bit :
            (k m : ℕ) (matched : Bool) (bm : b.Bitmap)
            → b.has bm k ≡ matched
            → (if k == m then matched else b.has bm m) ≡ b.has bm m
        kept_bit k m matched bm e = ground (arith, e, ==_iff k m)
