-- ===== src/Audience/Spans.antt =====
-- Ranges of placeholders in SQL, each once.
use citywalk.Prelude.{
  ℕ, suc, ◌+◌, ◌≤◌, String, ◌≡◌, Bool, true, false, ◌&&◌, ◌==◌, List, [], ◌∷◌, ◌++◌, length,
  length-append, ltb, leb, ok, err, arith,
}
use citywalk.Audience.Compile.{Piece, word, param, Arg, Compiled, enclose}

abbrev pub one_when : Bool → ℕ
one_when true = 1
one_when false = 0

-- How often a placeholder stands in SQL.
abbrev pub occurrences : ℕ → List Piece → ℕ
occurrences k [] = 0
occurrences k (word w ∷ sql) = occurrences k sql
occurrences k (param n ∷ sql) = one_when (k == n) + occurrences k sql

occurrences-append :
    (k : ℕ) (s t : List Piece) → occurrences k (s ++ t) ≡ occurrences k s + occurrences k t
occurrences-append k [] t = omega arith
occurrences-append k (word w ∷ s) t = occurrences-append k s t
occurrences-append k (param n ∷ s) t = omega (arith, occurrences-append k s t)

abbrev pub within : ℕ → ℕ → ℕ → Bool
within a b k = ltb a k && leb k b

-- The placeholders above `a` up to `b`, once each, and no other.
abbrev pub Spans : ℕ → ℕ → List Piece → Type 0
Spans a b sql = (a ≤ b) × ((k : ℕ) → occurrences k sql ≡ one_when (within a b k))

split_within :
    (a b c k : ℕ)
    → a ≤ b
    → b ≤ c
    → one_when (within a c k) ≡ one_when (within a b k) + one_when (within b c k)
split_within a b c k h i = ground arith

pub Spans-append : (a b c : ℕ) (s t : List Piece) → Spans a b s → Spans b c t → Spans a c (s ++ t)
Spans-append a b c s t p q = (
  omega (arith, p.0, q.0),
  λ k. omega (arith, occurrences-append k s t, p.1 k, q.1 k, split_within a b c k p.0 q.0),
)

pub Spans-behind : (a b c : ℕ) (s t : List Piece) → Spans a b s → Spans b c t → Spans a c (t ++ s)
Spans-behind a b c s t p q = (
  omega (arith, p.0, q.0),
  λ k. omega (arith, occurrences-append k t s, p.1 k, q.1 k, split_within a b c k p.0 q.0),
)

empty_within : (a k : ℕ) → 0 ≡ one_when (within a a k)
empty_within a k = ground arith

pub Spans-words : (a : ℕ) → Spans a a []
Spans-words a = (omega arith, λ k. empty_within a k)

one_within : (a k : ℕ) → one_when (k == suc a) + 0 ≡ one_when (within a (suc a) k)
one_within a k = ground arith

pub Spans-param : (a : ℕ) → Spans a (suc a) (param (suc a) ∷ [])
Spans-param a = (omega arith, λ k. one_within a k)

-- What a compilation from `args` on gives: SQL with the placeholders of the arguments that it adds.
abbrev pub Emits : List Arg → Compiled → Type 0
Emits args (err e) = Unit
Emits args (ok (sql, after)) = Spans (length args) (length after) sql

pub placeholder-Spans :
    (arg : Arg) (args : List Arg)
    → Spans (length args) (length (args ++ arg ∷ [])) (param (suc (length args)) ∷ [])
placeholder-Spans arg args =
    let grown : length (args ++ arg ∷ []) ≡ suc (length args) =
      omega (arith, length-append args (arg ∷ [])) in
    rw grown (Spans-param (length args))

pub enclose-Spans :
    (a b : ℕ) (before after : String) (s : List Piece)
    → Spans a b s
    → Spans a b (enclose before s after)
enclose-Spans a b before after s p = Spans-append a b b s (word after ∷ []) p (Spans-words b)
