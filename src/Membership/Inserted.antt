-- ===== src/Membership/Inserted.antt =====
-- What the insertions of `swapGeneration` and the marks of a rebuild leave.
use citywalk.Prelude.{
  ℕ, String, ◌≡◌, ◌⊎◌, refl, sym, ap, ◌∙◌, Bool, true, false, ◌&&◌, ◌||◌, ◌==◌, ==_iff, Option,
  none, some, List, [], ◌∷◌, All, str_eq, eq_iff, ok, Bool-cases, inl, inr, arith,
}
use citywalk.Membership.Bitmaps.{Bitmaps, AreSets}
use citywalk.Membership.Ordinal.{OrdinalRow}
use citywalk.Membership.Index.{Segment, to_uint32, Index, current_bitmap, reverse_get, put_bitmap}
use citywalk.Membership.Batch.{has_live, is_row, insert_bitmaps}
use citywalk.Membership.Rebuilt.{any_match, any_segment, entry}

-- Two channels have the same id exactly if they have the same ordinal.
abbrev pub HaveOrdinals : List OrdinalRow → Type 0
HaveOrdinals rows =
    All (λ r. All (λ t. str_eq t.channel_id r.channel_id ≡ (r.ordinal == t.ordinal)) rows) rows

-- The 32-bit ordinals of the segments are distinct.
abbrev pub Separate : {P : Type 0} → List (Segment P) → Type 0
Separate [] = Unit
Separate (s ∷ segments) =
    All (λ t. (to_uint32 s.ordinal == to_uint32 t.ordinal) ≡ false) segments × Separate segments

-- Both bits of a channel and a segment are what the predicate says of the channel.
abbrev pub IsExact :
    (b : Bitmaps) {P : Type 0} → (P → String → Bool) → Index b → OrdinalRow → Segment P → Type 0
IsExact b matches x r s =
    (b.has (current_bitmap b x s.id) r.ordinal ≡ matches s.predicate r.channel_id)
    × (b.has (reverse_get b x r.channel_id) (to_uint32 s.ordinal)
        ≡ matches s.predicate r.channel_id)

module _ (b : Bitmaps) (sets : AreSets b) {P : Type 0} (matches : P → String → Bool) where
  conflict-entry :
      (g : ℕ) (bitmaps : List (String × b.Bitmap)) (membership after : String → ℕ → Option b.Bitmap)
      (sid : String)
      → insert_bitmaps b g bitmaps membership ≡ ok after
      → is_row b (membership sid g) ≡ true
      → entry b sets matches bitmaps sid ≡ none
  unfolding insert_bitmaps put_bitmap
  conflict-entry g [] membership after sid h taken = refl
  conflict-entry g ((id, bm) ∷ bitmaps) membership after sid h taken =
      elim (Bool-cases (is_row b (membership id g))) [
        | inl conflict ↦ absurd (cc (rw conflict at h))
        | inr free ↦ elim (Bool-cases (str_eq sid id)) [
          | inl same ↦ absurd (cc (taken, free, (eq_iff sid id).0 same))
          | inr other ↦ rw other (
              conflict-entry g bitmaps (put_bitmap b id g bm membership) after sid (rw free at h)
                (rw other taken))
        ]
      ]

  -- What the insertions leave for a segment.
  pub insert_bitmaps-entry :
      (g : ℕ) (bitmaps : List (String × b.Bitmap)) (membership after : String → ℕ → Option b.Bitmap)
      (sid : String) (bm : b.Bitmap)
      → insert_bitmaps b g bitmaps membership ≡ ok after
      → ((entry b sets matches bitmaps sid ≡ some bm)
          ⊎ ((entry b sets matches bitmaps sid ≡ none) × (membership sid g ≡ some bm)))
      → after sid g ≡ some bm
  unfolding insert_bitmaps put_bitmap
  insert_bitmaps-entry g [] membership after sid bm h e =
      let same : membership ≡ after = cc h in
      ap (λ (m : String → ℕ → Option b.Bitmap). m sid g) (sym same)
      ∙ elim e [ inl found ↦ absurd (cc found) | inr (absent, there) ↦ there ]
  insert_bitmaps-entry g ((id, c) ∷ bitmaps) membership after sid bm h e =
      elim (Bool-cases (is_row b (membership id g))) [
        | inl conflict ↦ absurd (cc (rw conflict at h))
        | inr free ↦ elim (Bool-cases (str_eq sid id)) [
          | inl same ↦
              let placed : (◌≡◌ {A = Option b.Bitmap} (some c) (some bm))
                  ⊎ ((◌≡◌ {A = Option b.Bitmap} (some c) none) × (membership sid g ≡ some bm)) =
                rw same at e in
              let here : put_bitmap b id g c membership sid g ≡ some c = rw same (ground (arith)) in
              let absent =
                conflict-entry g bitmaps (put_bitmap b id g c membership) after sid (rw free at h)
                  (ap (is_row b) here) in
              insert_bitmaps-entry g bitmaps (put_bitmap b id g c membership) after sid bm
                (rw free at h)
                (inr (
                  absent,
                  here ∙ elim placed [
                    | inl found ↦ found
                    | inr (missing, there) ↦ absurd (cc missing)
                  ],
                ))
          | inr other ↦
              insert_bitmaps-entry g bitmaps (put_bitmap b id g c membership) after sid bm
                (rw free at h) (rw other (rw other at e))
        ]
      ]

  any_segment-none :
      (rows : List OrdinalRow) (s : Segment P) (segments : List (Segment P)) (k : ℕ)
      → All (λ t. (to_uint32 s.ordinal == to_uint32 t.ordinal) ≡ false) segments
      → any_segment b sets matches rows segments k (to_uint32 s.ordinal) ≡ false
  any_segment-none rows s [] k a = refl
  any_segment-none rows s (t ∷ segments) k a =
      flip (any_match b sets matches t.predicate rows k) (to_uint32 s.ordinal) (to_uint32 t.ordinal)
        a.0 (any_segment-none rows s segments k a.1)
    where
      flip :
          (c : Bool) (m n : ℕ) {d : Bool}
          → (m == n) ≡ false
          → d ≡ false
          → ((c && n == m) || d) ≡ false
      flip c m n h k = ground (arith, h, k, ==_iff m n, ==_iff n m)

  pub any_segment-own :
      (rows : List OrdinalRow) (segments : List (Segment P)) (k : ℕ)
      → Separate segments
      → All
          (λ s.
            any_segment b sets matches rows segments k (to_uint32 s.ordinal)
            ≡ any_match b sets matches s.predicate rows k)
          segments
  any_segment-own rows [] k a = tt
  any_segment-own rows (s ∷ segments) k a = (
    own (any_match b sets matches s.predicate rows k) (to_uint32 s.ordinal)
        (any_segment-none rows s segments k a.0),
    passed segments a.0 (any_segment-own rows segments k a.1),
  )
    where
      own : (c : Bool) (m : ℕ) {d : Bool} → d ≡ false → ((c && m == m) || d) ≡ c
      own c m h = ground (arith, h)

      skip : (c : Bool) (m n : ℕ) {d e : Bool} → (m == n) ≡ false → d ≡ e → ((c && m == n) || d) ≡ e
      skip c m n h k = ground (arith, h, k)

      passed :
          (ts : List (Segment P))
          → All (λ t. (to_uint32 s.ordinal == to_uint32 t.ordinal) ≡ false) ts
          → All
              (λ t.
                any_segment b sets matches rows segments k (to_uint32 t.ordinal)
                ≡ any_match b sets matches t.predicate rows k)
              ts
          → All
              (λ t.
                any_segment b sets matches rows (s ∷ segments) k (to_uint32 t.ordinal)
                ≡ any_match b sets matches t.predicate rows k)
              ts
      passed [] h e = tt
      passed (t ∷ ts) h e = (
        skip (any_match b sets matches s.predicate rows k) (to_uint32 s.ordinal)
            (to_uint32 t.ordinal) h.0 e.0,
        passed ts h.1 e.1,
      )

  pub live_rows :
      (rows part : List OrdinalRow)
      → ((n : ℕ) → has_live b part n ≡ true → has_live b rows n ≡ true)
      → All (λ r. (r.retired ≡ true) ⊎ (has_live b rows r.ordinal ≡ true)) part
  live_rows rows [] h = tt
  live_rows rows (r ∷ part) h = (
    elim (Bool-cases r.retired) [
      | inl gone ↦ inl gone
      | inr live ↦ inr (h r.ordinal (ground (arith, live)))
    ],
    live_rows rows part (λ n there. h n (ground (arith, there))),
  )
