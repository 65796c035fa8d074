-- ===== src/Audience/Vocabulary.antt =====
-- The texts of SQL, and those of the parts that are no calls.
use citywalk.Prelude.{
  contains, ℕ, String, ◌≡◌, refl, Bool, true, ◌&&◌, Option, none, some, List, [], ◌∷◌, ◌++◌, ok,
  err, ◌>>=◌, arith,
}
use citywalk.Audience.Registry.{
  AttributeType, type_string, type_number, type_bool, type_timestamp, type_semver, type_string_set,
  unknown_type, Source, channel_field, user_attribute, tag, event_aggregate, Definition,
}
use citywalk.Audience.Expr.{
  Value, bool_value, double_value, string_value, time_value, int_value, uint_value, other_value,
}
use citywalk.Audience.Compile.{
  Piece, word, param, Arg, Compiled, compile_literal, enclose, scalar, compile_event_aggregate,
  ident_of, known_ident,
}

-- The texts of the SQL, none of which comes from a predicate.
abbrev pub vocabulary : List String
vocabulary =
    "(" ∷ ")" ∷ " " ∷ " AND " ∷ " OR " ∷ "(NOT " ∷ "semver_normalize(" ∷ " = ANY("
    ∷ "(attributes->>" ∷ "(attributes->" ∷ ") ? (" ∷ "::double precision" ∷ "::boolean"
    ∷ "::timestamptz" ∷ "::int)" ∷ " AND day > current_date - "
    ∷ "(SELECT COALESCE(sum(count), 0)::double precision FROM targeting_rollup WHERE channel_id = c.id AND event_name = "
    ∷ "=" ∷ "<>" ∷ "<" ∷ "<=" ∷ ">" ∷ ">=" ∷ []

abbrev pub has_fixed_words : List Piece → Bool
has_fixed_words [] = true
has_fixed_words (word w ∷ sql) = contains w vocabulary && has_fixed_words sql
has_fixed_words (param n ∷ sql) = has_fixed_words sql

both_true : (a b : Bool) → a ≡ true → b ≡ true → (a && b) ≡ true
both_true a b h k = ground (arith, h, k)

first_true : (a b : Bool) → (a && b) ≡ true → a ≡ true
first_true a b h = ground (arith, h)

second_true : (a b : Bool) → (a && b) ≡ true → b ≡ true
second_true a b h = ground (arith, h)

pub fixed-append :
    (s t : List Piece)
    → has_fixed_words s ≡ true
    → has_fixed_words t ≡ true
    → has_fixed_words (s ++ t) ≡ true
fixed-append [] t h k = k
fixed-append (word w ∷ s) t h k =
    both_true (contains w vocabulary) (has_fixed_words (s ++ t))
      (first_true (contains w vocabulary) (has_fixed_words s) h)
      (fixed-append s t (second_true (contains w vocabulary) (has_fixed_words s) h) k)
fixed-append (param n ∷ s) t h k = fixed-append s t h k

pub fixed-enclose :
    (before after : String) (s : List Piece)
    → contains before vocabulary ≡ true
    → contains after vocabulary ≡ true
    → has_fixed_words s ≡ true
    → has_fixed_words (enclose before s after) ≡ true
fixed-enclose before after s b a h =
    both_true (contains before vocabulary) _ b
      (fixed-append s (word after ∷ []) h (both_true (contains after vocabulary) true a refl))

-- SQL of the vocabulary, or an error.
abbrev pub Fixed : Compiled → Type 0
Fixed (err e) = Unit
Fixed (ok (sql, args)) = has_fixed_words sql ≡ true

pub literal-Fixed : (v : Value) (args : List Arg) → Fixed (compile_literal v args)
unfolding compile_literal
literal-Fixed (bool_value b) args = refl
literal-Fixed (double_value b) args = refl
literal-Fixed (string_value b) args = refl
literal-Fixed (time_value b) args = refl
literal-Fixed (int_value b) args = refl
literal-Fixed (uint_value b) args = refl
literal-Fixed (other_value t) args = tt

attribute-Fixed :
    (t : AttributeType) (name : String) (n : ℕ) (args : List Arg)
    → Fixed (scalar t name (enclose "(attributes->>" (param n ∷ []) ")") >>= λ sql. ok (sql, args))
attribute-Fixed type_string name n args = refl
attribute-Fixed type_semver name n args = refl
attribute-Fixed type_number name n args = refl
attribute-Fixed type_bool name n args = refl
attribute-Fixed type_timestamp name n args = refl
attribute-Fixed type_string_set name n args = tt
attribute-Fixed (unknown_type t) name n args = tt

source-Fixed :
    (d : Definition) (name : String) (args : List Arg) (s : Source) → Fixed (ident_of d name args s)
unfolding compile_event_aggregate
source-Fixed d name args event_aggregate = refl
source-Fixed d name args channel_field = attribute-Fixed d.kind name _ _
source-Fixed d name args user_attribute = attribute-Fixed d.kind name _ _
source-Fixed d name args tag = attribute-Fixed d.kind name _ _

pub ident-Fixed :
    (name : String) (args : List Arg) (found : Option Definition)
    → Fixed (known_ident name args found)
ident-Fixed name args none = tt
ident-Fixed name args (some d) = source-Fixed d name args d.source
