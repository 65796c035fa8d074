-- ===== src/Audience/SemVer.antt =====
-- internal/audience/registry/semver.go, on the bytes of a string. ParseUint is the standard library's
-- strconv.ParseUint in base 10 with 64 bits.
use citywalk.Prelude.{
  ℕ, zero, suc, ◌+◌, ◌*◌, ◌/◌, ◌%◌, ◌^◌, ◌-◌, ◌&&◌, ◌==◌, ltb, leb, Option, some, none, Result, ok,
  err, ◌>>=◌, List, [], ◌∷◌, ◌++◌, if◌then◌else◌,
}

abbrev pub sem_ver_field_width : ℕ
sem_ver_field_width = 10

-- `strings.Split(s, ".")`, with the bytes of the component that is not closed yet.
abbrev split_from : List ℕ → List ℕ → List (List ℕ)
split_from part [] = part ∷ []
split_from part (c ∷ s) =
    let closed = split_from [] s in
    let longer = split_from (part ++ c ∷ []) s in if c == 46 then part ∷ closed else longer

abbrev pub split : List ℕ → List (List ℕ)
split s = split_from [] s

-- The digits of a number before `n`; none at another byte, or above 64 bits.
abbrev scan : ℕ → List ℕ → Option ℕ
scan n [] = some n
scan n (c ∷ s) =
    let rest = scan (n * 10 + (c - 48)) s in
    if leb 48 c && leb c 57 && ltb (n * 10 + (c - 48)) (2 ^ 64) then rest else none

abbrev pub parse_uint : List ℕ → Option ℕ
parse_uint [] = none
parse_uint (c ∷ s) = scan 0 (c ∷ s)

-- The last k digits of n, in ASCII.
abbrev pub digits : ℕ → ℕ → List ℕ
digits zero n = []
digits (suc k) n = digits k (n / 10) ++ (48 + n % 10) ∷ []

-- How many digits n has, with at most k more than one.
abbrev width : ℕ → ℕ → ℕ
width zero n = 1
width (suc k) n = let rest = width k (n / 10) in if ltb n 10 then 1 else 1 + rest

-- `fmt.Sprintf("%0*d", semVerFieldWidth, n)` of a 64-bit n, which has at most 20 digits.
abbrev pub field_of : ℕ → List ℕ
field_of n =
    if ltb n (10 ^ sem_ver_field_width) then digits sem_ver_field_width n else digits (width 19 n) n

pub record Version : Type 0 where
  pub major : ℕ
  pub minor : ℕ
  pub patch : ℕ

pub data SemVerError : Type 0 where
  more_than_three_components : SemVerError
  not_a_non_negative_integer : List ℕ → SemVerError

abbrev parsed : List ℕ → Option ℕ → Result SemVerError ℕ
parsed component none = err (not_a_non_negative_integer component)
parsed component (some n) = ok n

abbrev component : List ℕ → Result SemVerError ℕ
component c = parsed c (parse_uint c)

-- The components, where a missing one is "0".
abbrev pub components : List (List ℕ) → Result SemVerError Version
components [] = ok (record { major = 0; minor = 0; patch = 0 })
components (a ∷ []) = do x ← component a; ok (record { major = x; minor = 0; patch = 0 })
components (a ∷ b ∷ []) = do
  x ← component a
  y ← component b
  ok (record { major = x; minor = y; patch = 0 })
components (a ∷ b ∷ c ∷ []) = do
  x ← component a
  y ← component b
  z ← component c
  ok (record { major = x; minor = y; patch = z })
components (a ∷ b ∷ c ∷ d ∷ rest) = err more_than_three_components

-- `strings.Join(padded, ".")`
abbrev pub join_fields : Version → List ℕ
join_fields v = field_of v.major ++ 46 ∷ (field_of v.minor ++ 46 ∷ field_of v.patch)

unfoldable pub normalize_sem_ver : List ℕ → Result SemVerError (List ℕ)
normalize_sem_ver s = do v ← components (split s); ok (join_fields v)
