-- ===== src/Assign/Bucket.antt =====
-- bucket.go and identity.go of internal/experiment/assign. A Go string enters the hash as its
-- bytes: `bytes` is the UTF-8 encoding. FNV-1a is the standard library's hash/fnv.
use Prim.Native.Char.{code}
use Prim.Native.Nat.{bit_xor}
use mathlib.Core.List.{foldl, append_assoc}
use citywalk.Prelude.{
  ℕ, ◌+◌, ◌*◌, ◌/◌, ◌%◌, ◌^◌, ◌<◌, String, ◌≡◌, ◌≢◌, refl, All, List, [], ◌∷◌, ◌++◌, arith, ltb,
  str_eq, if◌then◌else◌,
}

-- The UTF-8 bytes of one code point.
abbrev pub utf8 : ℕ → List ℕ
utf8 c =
    if ltb c 0x80
    then c ∷ []
    else if ltb c 0x800
    then (0xc0 + c / 0x40) ∷ (0x80 + c % 0x40) ∷ []
    else if ltb c 0x10000
    then (0xe0 + c / 0x1000) ∷ (0x80 + c / 0x40 % 0x40) ∷ (0x80 + c % 0x40) ∷ []
    else (0xf0 + c / 0x40000)
      ∷ (0x80 + c / 0x1000 % 0x40)
      ∷ (0x80 + c / 0x40 % 0x40)
      ∷ (0x80 + c % 0x40)
      ∷ []

abbrev pub bytes : String → List ℕ
bytes String.[] = []
bytes (String.◌∷◌ c s) = utf8 (code c) ++ bytes s

abbrev pub bucket_count : ℕ
bucket_count = 10000

abbrev pub identity_separator : List ℕ
identity_separator = 0 ∷ []

-- One byte of `Write`: xor, then multiply modulo 2^64.
fnv_step : ℕ → ℕ → ℕ
fnv_step h b = bit_xor h b * 1099511628211 % 2 ^ 64

-- `h.Write(p)`: the state after the bytes of p.
unfoldable pub fnv_write : ℕ → List ℕ → ℕ
unfolding fnv_step
fnv_write h p = foldl fnv_step h p

abbrev pub fnv_offset : ℕ
fnv_offset = 14695981039346656037

unfoldable pub bucket : String → String → ℕ
bucket salt identity =
    fnv_write (fnv_write (fnv_write fnv_offset (bytes salt)) identity_separator) (bytes identity)
    % bucket_count

unfoldable pub identity : String → String → String
identity user_id channel_id = if str_eq user_id "" then channel_id else user_id

-- Every bucket is below the number of buckets.
pub bucket-lt : (salt id : String) → bucket salt id < bucket_count
unfolding bucket
bucket-lt salt id = omega arith

-- What is hashed, as one sequence of bytes.
abbrev pub hash_input : String → String → List ℕ
hash_input salt identity = bytes salt ++ (identity_separator ++ bytes identity)

abbrev pub NoNull : List ℕ → Type 0
NoNull = All (λ b. b ≢ 0)

fnv_write-append : (h : ℕ) (p q : List ℕ) → fnv_write (fnv_write h p) q ≡ fnv_write h (p ++ q)
unfolding fnv_write
fnv_write-append h [] q = refl
fnv_write-append h (b ∷ p) q = fnv_write-append (fnv_step h b) p q

split_at_null :
    (p p' q q' : List ℕ) → NoNull p → NoNull p' → p ++ 0 ∷ q ≡ p' ++ 0 ∷ q' → (p ≡ p') × (q ≡ q')
split_at_null [] [] q q' n n' e = (refl, ground arith)
split_at_null [] (b ∷ p') q q' n n' e = absurd (ground arith)
split_at_null (b ∷ p) [] q q' n n' e = absurd (ground arith)
split_at_null (b ∷ p) (c ∷ p') q q' n n' e = ground (arith, split_at_null p p' q q' n.1 n'.1)

-- The bucket of a salt and an identity is the hash of one byte sequence modulo the number of
-- buckets; and if two salts hold no null byte, two pairs of a salt and an identity give the same
-- sequence only if both the salts and the identities have the same bytes.
pub bucket-hash_input :
    (salt id salt' id' : String)
    → NoNull (bytes salt)
    → NoNull (bytes salt')
    → (bucket salt id ≡ fnv_write fnv_offset (hash_input salt id) % bucket_count)
      × (hash_input salt id ≡ hash_input salt' id'
          → (bytes salt ≡ bytes salt') × (bytes id ≡ bytes id'))
unfolding bucket
bucket-hash_input salt id salt' id' n n' = (
  simp fnv_write-append (rw (append_assoc (bytes salt) identity_separator (bytes id))),
  split_at_null (bytes salt) (bytes salt') (bytes id) (bytes id') n n',
)
