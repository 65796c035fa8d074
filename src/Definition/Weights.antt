-- ===== src/Definition/Weights.antt =====
-- What the lists of violations and the totals of the weights say.
use citywalk.Prelude.{
  String, ◌≡◌, ◌↔◌, inl, inr, refl, sym, subst, Bool, true, false, List, [], ◌∷◌, ◌++◌, str_eq,
  eq_iff, contains, All, Bool-cases, arith, if◌then◌else◌,
}
use citywalk.Prelude.Int.{ℤ, pos, add64, eqb_ℤ}
use citywalk.Definition.Model.{Variant}
use citywalk.Definition.Validate.{
  Violation, check, each, Totals, no_totals, add_weight, totals, validate_variant_weights,
}

-- The weights of a language's variants, added up in their order on 64-bit integers that wrap.
abbrev pub weight_sum : ℤ → String → List Variant → ℤ
weight_sum acc l [] = acc
weight_sum acc l (v ∷ variants) =
    weight_sum (if str_eq l v.language then add64 acc v.weight else acc) l variants

pub append-nil_iff : (xs ys : List Violation) → ((xs ++ ys) ≡ []) ↔ ((xs ≡ []) × (ys ≡ []))
append-nil_iff [] ys = (λ h. (refl, h), λ p. p.1)
append-nil_iff (x ∷ xs) ys = (λ h. absurd (ground (arith, h)), λ p. absurd (ground (arith, p.0)))

pub check-nil_iff : (b : Bool) (v : Violation) → (check b v ≡ []) ↔ (b ≡ true)
check-nil_iff true v = (λ h. refl, λ h. refl)
check-nil_iff false v = (λ h. absurd (ground (arith, h)), λ h. absurd (ground (arith, h)))

module _ {A : Type 0} (report : A → List Violation) (P : A → Type 0)
    (agrees : (x : A) → (report x ≡ []) ↔ P x) where
  pub each-nil_iff : (xs : List A) → (each report xs ≡ []) ↔ All P xs
  each-nil_iff [] = (λ h. tt, λ h. refl)
  each-nil_iff (x ∷ xs) =
      let first = append-nil_iff (report x) (each report xs) in
      let rest = each-nil_iff xs in
      (
        λ h. ((agrees x).0 (first.0 h).0, rest.0 (first.0 h).1),
        λ p. first.1 ((agrees x).1 p.0, rest.1 p.1),
      )

contains-All :
    (P : String → Type 0) (s : String) (ts : List String) → contains s ts ≡ true → All P ts → P s
contains-All P s [] h a = absurd (ground (arith, h))
contains-All P s (t ∷ ts) h a = elim (Bool-cases (str_eq s t)) [
  | inl same ↦ subst P (sym ((eq_iff s t).0 same)) a.0
  | inr other ↦ contains-All P s ts (rw other at h) a.1
]

add_weight-languages :
    (P : String → Type 0) (v : Variant) (t : Totals)
    → All P (add_weight v t).languages ↔ (P v.language × All P t.languages)
add_weight-languages P v t = elim (Bool-cases (contains v.language t.languages)) [
  | inl old ↦ rw old (λ a. (contains-All P v.language t.languages old a, a), λ p. p.1)
  | inr new ↦ rw new (λ a. a, λ p. p)
]

totals-languages :
    (P : String → Type 0) (variants : List Variant) (t : Totals)
    → All P (totals variants t).languages ↔ (All (λ v. P v.language) variants × All P t.languages)
unfolding totals
totals-languages P [] t = (λ a. (tt, a), λ p. p.1)
totals-languages P (v ∷ variants) t =
    let rest = totals-languages P variants (add_weight v t) in
    let first = add_weight-languages P v t in
    (
      λ a. (((first.0 (rest.0 a).1).0, (rest.0 a).0), (first.0 (rest.0 a).1).1),
      λ p. rest.1 (p.0.1, first.1 (p.0.0, p.1)),
    )

totals-total :
    (l : String) (variants : List Variant) (t : Totals)
    → (totals variants t).total l ≡ weight_sum (t.total l) l variants
unfolding totals
totals-total l [] t = refl
totals-total l (v ∷ variants) t = totals-total l variants (add_weight v t)

eqb_ℤ-iff : (a b : ℤ) → (eqb_ℤ a b ≡ true) ↔ (a ≡ b)
eqb_ℤ-iff a b = ground arith

pub validate_variant_weights_iff :
    (variants : List Variant)
    → (validate_variant_weights variants ≡ [])
      ↔ All (λ v. weight_sum (pos 0) v.language variants ≡ pos 100) variants
unfolding validate_variant_weights
validate_variant_weights_iff variants =
    let reported =
      each-nil_iff
        (λ l.
          check (eqb_ℤ ((totals variants no_totals).total l) (pos 100))
            (Violation.weight_total l ((totals variants no_totals).total l)))
        IsWhole whole (totals variants no_totals).languages in
    let by_variant = totals-languages IsWhole variants no_totals in
    (λ h. (by_variant.0 (reported.0 h)).0, λ a. reported.1 (by_variant.1 (a, tt)))
  where
    IsWhole : String → Type 0
    IsWhole l = weight_sum (pos 0) l variants ≡ pos 100

    whole :
        (l : String)
        → (check
              (eqb_ℤ ((totals variants no_totals).total l) (pos 100))
              (Violation.weight_total l ((totals variants no_totals).total l))
            ≡ [])
          ↔ IsWhole l
    whole l = rw (totals-total l variants no_totals) (
        let c =
          check-nil_iff (eqb_ℤ (weight_sum (pos 0) l variants) (pos 100))
            (Violation.weight_total l (weight_sum (pos 0) l variants)) in
        let e = eqb_ℤ-iff (weight_sum (pos 0) l variants) (pos 100) in
        (λ h. e.0 (c.0 h), λ h. c.1 (e.1 h)))
