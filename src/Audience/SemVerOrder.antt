-- ===== src/Audience/SemVerOrder.antt =====
-- internal/audience/registry/semver.go: the order of normalized versions.
use citywalk.Prelude.{
  ℕ, zero, suc, ◌+◌, ◌/◌, ◌%◌, ◌^◌, ◌<◌, ◌≡◌, refl, ◌∙◌, Bool, true, false, ◌&&◌, ◌||◌, ◌==◌, ltb,
  ok, subst, List, [], ◌∷◌, ◌++◌, arith,
}
use mathlib.Core.List.{append_assoc, append-nil}
use citywalk.Audience.SemVer.{
  sem_ver_field_width, digits, field_of, Version, components, split, join_fields, normalize_sem_ver,
}

-- Byte-wise order of two texts.
abbrev pub bytes_less : List ℕ → List ℕ → Bool
bytes_less [] [] = false
bytes_less [] (d ∷ t) = true
bytes_less (c ∷ s) [] = false
bytes_less (c ∷ s) (d ∷ t) = ltb c d || (c == d && bytes_less s t)

step :
    (n m : ℕ) (rest : Bool)
    → (ltb (n / 10) (m / 10)
        || (n / 10 == m / 10
            && (ltb (48 + n % 10) (48 + m % 10) || (48 + n % 10 == 48 + m % 10 && rest))))
      ≡ (ltb n m || (n == m && rest))
step n m rest = ground arith

digits-bytes_less :
    (k n m : ℕ) (r s : List ℕ)
    → n < 10 ^ k
    → m < 10 ^ k
    → bytes_less (digits k n ++ r) (digits k m ++ s) ≡ (ltb n m || (n == m && bytes_less r s))
digits-bytes_less zero n m r s h g = ground (arith, h, g)
digits-bytes_less (suc k) n m r s h g =
    rw
      (
        append_assoc (digits k (n / 10)) ((48 + n % 10) ∷ []) r,
        append_assoc (digits k (m / 10)) ((48 + m % 10) ∷ []) s,
        digits-bytes_less k (n / 10) (m / 10) ((48 + n % 10) ∷ r) ((48 + m % 10) ∷ s) (omega arith)
            (omega arith),
      )
      (step n m (bytes_less r s))

-- Both below 10^10.
field_of-bytes_less :
    (n m : ℕ) (r s : List ℕ)
    → n < 10 ^ sem_ver_field_width
    → m < 10 ^ sem_ver_field_width
    → bytes_less (field_of n ++ r) (field_of m ++ s) ≡ (ltb n m || (n == m && bytes_less r s))
field_of-bytes_less n m r s h g =
    let short_n : ltb n (10 ^ sem_ver_field_width) ≡ true = ground (arith, h) in
    let short_m : ltb m (10 ^ sem_ver_field_width) ≡ true = ground (arith, g) in
    rw (short_n, short_m) (digits-bytes_less sem_ver_field_width n m r s h g)

last-bytes_less :
    (n m : ℕ)
    → n < 10 ^ sem_ver_field_width
    → m < 10 ^ sem_ver_field_width
    → bytes_less (field_of n) (field_of m) ≡ ltb n m
last-bytes_less n m h g =
    subst (λ (x : List ℕ). bytes_less x (field_of m) ≡ ltb n m) (append-nil (field_of n))
      (subst (λ (x : List ℕ). bytes_less (field_of n ++ []) x ≡ ltb n m) (append-nil (field_of m))
        (field_of-bytes_less n m [] [] h g ∙ ground arith))

-- One version comes before another: by major, then minor, then patch.
abbrev pub precedes : Version → Version → Bool
precedes v w =
    ltb v.major w.major
    || (v.major == w.major && (ltb v.minor w.minor || (v.minor == w.minor && ltb v.patch w.patch)))

-- No component has more digits than a field.
abbrev pub FitsFields : Version → Type 0
FitsFields v =
    (v.major < 10 ^ sem_ver_field_width)
    × (v.minor < 10 ^ sem_ver_field_width)
    × (v.patch < 10 ^ sem_ver_field_width)

join_fields-bytes_less :
    (v w : Version)
    → FitsFields v
    → FitsFields w
    → bytes_less (join_fields v) (join_fields w) ≡ precedes v w
join_fields-bytes_less v w (v1, v2, v3) (w1, w2, w3) =
    rw
      (
        field_of-bytes_less v.major w.major (46 ∷ (field_of v.minor ++ 46 ∷ field_of v.patch))
            (46 ∷ (field_of w.minor ++ 46 ∷ field_of w.patch)) v1 w1,
        field_of-bytes_less v.minor w.minor (46 ∷ field_of v.patch) (46 ∷ field_of w.patch) v2 w2,
        last-bytes_less v.patch w.patch v3 w3,
      )
      refl

-- Where the components of two version strings are below 10^10: the normalized strings stand in byte-wise
-- order exactly as the versions do by major, minor and patch number, a missing component being 0.
pub normalize_sem_ver-precedes :
    (s t p q : List ℕ) (v w : Version)
    → components (split s) ≡ ok v
    → components (split t) ≡ ok w
    → FitsFields v
    → FitsFields w
    → normalize_sem_ver s ≡ ok p
    → normalize_sem_ver t ≡ ok q
    → bytes_less p q ≡ precedes v w
unfolding normalize_sem_ver
normalize_sem_ver-precedes s t p q v w found_v found_w fits_v fits_w made_p made_q =
    let is_p : join_fields v ≡ p = cc (simp found_v at made_p) in
    let is_q : join_fields w ≡ q = cc (simp found_w at made_q) in
    subst (λ (x : List ℕ). bytes_less x q ≡ precedes v w) is_p
      (subst (λ (x : List ℕ). bytes_less (join_fields v) x ≡ precedes v w) is_q
        (join_fields-bytes_less v w fits_v fits_w))
