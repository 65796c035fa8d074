-- ===== src/Membership/Bits.antt =====
-- The bits of the indexes behind one write of `UpdateChannel`.
use citywalk.Prelude.{
  ℕ, String, ◌≡◌, refl, sym, ap, ◌∙◌, Bool, true, false, ◌&&◌, ◌==◌, ==_iff, Option, str_eq, eq_iff,
  if◌then◌else◌, Bool-cases, inl, inr, arith,
}
use citywalk.Membership.Bitmaps.{Bitmaps, AreSets}
use citywalk.Membership.Index.{bitmap, put_bitmap}
use citywalk.Membership.Incremental.{same_bool, update_forward_bit, update_reverse_bit}

module _ (b : Bitmaps) (sets : AreSets b) where
  put_bitmap-bitmap :
      (sid s : String) (g h : ℕ) (bm : b.Bitmap) (membership : String → ℕ → Option b.Bitmap)
      → bitmap b (put_bitmap b sid g bm membership) s h
        ≡ (if str_eq s sid && h == g then bm else bitmap b membership s h)
  unfolding put_bitmap
  put_bitmap-bitmap sid s g h bm membership = elim (Bool-cases (str_eq s sid && h == g)) [
    | inl here ↦ rw here refl
    | inr elsewhere ↦ rw elsewhere refl
  ]

  flipped_bit :
      (o n : ℕ) (matched : Bool) (bm : b.Bitmap)
      → b.has (if matched then b.add o bm else b.remove o bm) n
        ≡ (if o == n then matched else b.has bm n)
  flipped_bit o n true bm = ground (arith, sets.has_add o n bm)
  flipped_bit o n false bm = ground (arith, sets.has_remove o n bm)

  pub same_bool-eq : (c d : Bool) → same_bool c d ≡ true → c ≡ d
  same_bool-eq true d h = sym h
  same_bool-eq false d h = ground (arith, h)

  same_row :
      (sid s : String) (g h : ℕ) (membership : String → ℕ → Option b.Bitmap)
      → (str_eq s sid && h == g) ≡ true
      → bitmap b membership sid g ≡ bitmap b membership s h
  same_row sid s g h membership here =
      let segment : s ≡ sid = (eq_iff s sid).0 (ground (arith, here)) in
      let generation : h ≡ g = ground (arith, here) in
      ap (λ (t : String). bitmap b membership t g) (sym segment)
      ∙ ap (λ (k : ℕ). bitmap b membership s k) (sym generation)

  -- The bit of a channel in the bitmap of a segment and a generation, behind a write of one bit.
  pub update_forward_bit-bit :
      (sid s : String) (g h o n : ℕ) (matched : Bool) (membership : String → ℕ → Option b.Bitmap)
      → b.has (bitmap b (update_forward_bit b sid g o matched membership) s h) n ≡ (
          if (str_eq s sid && h == g) && o == n then matched else b.has (bitmap b membership s h) n)
  unfolding update_forward_bit
  update_forward_bit-bit sid s g h o n matched membership =
      elim (Bool-cases (same_bool (b.has (bitmap b membership sid g) o) matched)) [
        | inl same ↦ rw same (elim (Bool-cases ((str_eq s sid && h == g) && o == n)) [
          | inr elsewhere ↦ rw elsewhere refl
          | inl here ↦ rw here (
              let row = same_row sid s g h membership (ground (arith, here)) in
              let bit : o ≡ n = ground (arith, here) in
              ap (λ bm. b.has bm n) (sym row)
              ∙ ap (b.has (bitmap b membership sid g)) (sym bit)
              ∙ same_bool-eq (b.has (bitmap b membership sid g) o) matched same)
        ])
        | inr differs ↦ rw differs (
            ap (λ bm. b.has bm n) (put_bitmap-bitmap sid s g h _ membership)
            ∙ (elim (Bool-cases (str_eq s sid && h == g)) [
              | inl here ↦ rw here (
                  flipped_bit o n matched (bitmap b membership sid g)
                  ∙ ap (λ bm. if o == n then matched else b.has bm n)
                      (same_row sid s g h membership here))
              | inr elsewhere ↦ rw elsewhere refl
            ]))
      ]

  pub update_reverse_bit-bit :
      (so n : ℕ) (matched : Bool) (bm : b.Bitmap)
      → b.has (update_reverse_bit b so matched bm) n ≡ (if so == n then matched else b.has bm n)
  unfolding update_reverse_bit
  update_reverse_bit-bit so n true bm = elim (Bool-cases (b.has bm so)) [
    | inl member ↦ rw member (ground (arith, member, ==_iff so n))
    | inr absent ↦ rw absent (ground (arith, sets.has_add so n bm))
  ]
  update_reverse_bit-bit so n false bm = elim (Bool-cases (b.has bm so)) [
    | inl member ↦ rw member (ground (arith, sets.has_remove so n bm))
    | inr absent ↦ rw absent (ground (arith, absent, ==_iff so n))
  ]
