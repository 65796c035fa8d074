-- ===== src/Delivery/Prefix.antt =====
-- The truncation of a payload keeps the longest prefix that fits.
use citywalk.Prelude.{
  ℕ, ◌+◌, ◌≤◌, ◌<◌, ◌≡◌, ◌⊎◌, inl, inr, refl, ap, List, [], ◌∷◌, ◌++◌, length, ltb, Bool-cases,
  arith,
}
use citywalk.Prelude.Int.{ℤ, pos, pos_part, leb_ℤ}
use citywalk.Delivery.Payload.{Entry, truncate_from, truncate}

abbrev pub size : List Entry → ℕ
size [] = 0
size (e ∷ entries) = length e.content + size entries

-- The next entry, if there is one, would pass the ceiling.
abbrev pub Overflows : ℕ → ℕ → List Entry → Type 0
Overflows used ceiling [] = Unit
Overflows used ceiling (e ∷ entries) = ceiling < used + length e.content

-- `kept` is the longest prefix of `entries` that fits, and `dropped` the number of the others.
pub record IsLongestPrefix (used ceiling : ℕ) (entries kept : List Entry) (dropped : ℕ)
    : Type 0 where
  pub rest : List Entry
  pub split : entries ≡ kept ++ rest
  pub counted : length rest ≡ dropped
  pub fits : used + size kept ≤ ceiling
  pub longest : Overflows (used + size kept) ceiling rest

truncate_from-IsLongestPrefix :
    (used ceiling : ℕ) (entries : List Entry)
    → used ≤ ceiling
    → let (kept, dropped) = truncate_from used ceiling entries in
      IsLongestPrefix used ceiling entries kept dropped
unfolding truncate_from
truncate_from-IsLongestPrefix used ceiling [] le = record {
  rest = [];
  split = refl;
  counted = refl;
  fits = omega (arith, le);
  longest = tt;
}
truncate_from-IsLongestPrefix used ceiling (e ∷ entries) le =
    elim (Bool-cases (ltb ceiling (used + length e.content))) [
      | inl over ↦ rw over (record {
        rest = e ∷ entries;
        split = refl;
        counted = refl;
        fits = omega (arith, le);
        longest = ground (arith, over);
      })
      | inr under ↦
          let fits_one : used + length e.content ≤ ceiling = ground (arith, under) in
          let next =
            truncate_from-IsLongestPrefix (used + length e.content) ceiling entries fits_one in
          rw under (record {
            rest = next.rest;
            split = ap (λ (l : List Entry). e ∷ l) next.split;
            counted = next.counted;
            fits = omega (arith, next.fits);
            longest = shifted _ next.rest next.longest;
          })
    ]
  where
    shifted :
        (k : ℕ) (rest : List Entry)
        → Overflows (used + length e.content + k) ceiling rest
        → Overflows (used + (length e.content + k)) ceiling rest
    shifted k [] o = tt
    shifted k (x ∷ rest) o = omega (arith, o)

-- With a ceiling above 0, the payload that is sent is the longest prefix of the entries, which come in
-- the order of priority, whose contents fit the ceiling, and the count is that of the others; any
-- other ceiling drops nothing.
pub truncate-IsLongestPrefix :
    (entries : List Entry) (ceiling : ℤ)
    → ((0 < pos_part ceiling)
        × IsLongestPrefix 0
            (pos_part ceiling)
            entries
            (truncate entries ceiling).0
            (truncate entries ceiling).1)
      ⊎ ((pos_part ceiling ≡ 0) × (truncate entries ceiling ≡ (entries, 0)))
unfolding truncate
truncate-IsLongestPrefix entries ceiling = elim (Bool-cases (leb_ℤ ceiling (pos 0))) [
  | inl off ↦ inr (ground (arith, off), rw off)
  | inr on ↦ inl (
    ground (arith, on),
    rw on (truncate_from-IsLongestPrefix 0 (pos_part ceiling) entries (omega arith)),
  )
]
