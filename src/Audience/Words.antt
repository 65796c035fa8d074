-- ===== src/Audience/Words.antt =====
-- The texts that compiled SQL is made of.
use citywalk.Prelude.{
  contains, ℕ, String, subst, ◌≡◌, refl, true, Option, none, some, List, [], ◌∷◌, ◌++◌, Result, ok,
  err, ◌>>=◌,
}
use citywalk.Audience.Registry.{
  AttributeType, type_string, type_number, type_bool, type_timestamp, type_semver, type_string_set,
  unknown_type, Definition, lookup,
}
use citywalk.Audience.Expr.{
  Comparison, equals, not_equals, less, less_equals, greater, greater_equals, Function, logical_and,
  logical_or, logical_not, in_list, semver, timestamp, comparison, other_function, bool_value,
  double_value, string_value, time_value, int_value, uint_value, other_value, Expr, call, ident,
  literal, list, other_kind, no_exprs, more,
}
use citywalk.Audience.Compile.{
  Piece, word, Arg, strings_arg, CompileError, Compiled, comparison_sql, placeholder, enclose,
  compile_ident_scalar, literal_string_list, set_column, set_haystack, compile_haystack, time_arg,
  compile_timestamp, version_arg, compile_semver, wrong_call, unary_call, joined, both, binary_call,
  compile, compile_to_sql,
}
use citywalk.Audience.Vocabulary.{
  vocabulary, has_fixed_words, fixed-append, fixed-enclose, Fixed, literal-Fixed, ident-Fixed,
}

module _ (registry : List Definition) (parse_rfc3339 : String → Option ℕ)
    (normalize_semver : String → Option String) where
  column-Fixed :
      (t : AttributeType) (name : String) (needle : List Piece) (args : List Arg)
      → has_fixed_words needle ≡ true
      → Fixed (set_column registry t name needle args)
  column-Fixed type_string_set name needle args h = fixed-append needle (word ")" ∷ []) h refl
  column-Fixed type_string name needle args h = tt
  column-Fixed type_number name needle args h = tt
  column-Fixed type_bool name needle args h = tt
  column-Fixed type_timestamp name needle args h = tt
  column-Fixed type_semver name needle args h = tt
  column-Fixed (unknown_type t) name needle args h = tt

  set-Fixed :
      (name : String) (needle : List Piece) (args : List Arg) (found : Option Definition)
      → has_fixed_words needle ≡ true
      → Fixed (set_haystack registry name needle args found)
  set-Fixed name needle args none h = tt
  set-Fixed name needle args (some d) h = column-Fixed d.kind name needle args h

  listed-Fixed :
      (needle : List Piece) (args : List Arg) (r : Result CompileError (List String))
      → has_fixed_words needle ≡ true
      → Fixed (
          r >>= λ strings. ok (
            needle ++ enclose " = ANY(" (placeholder (strings_arg strings) args).0 ")",
            (placeholder (strings_arg strings) args).1,
          ))
  listed-Fixed needle args (err e) h = tt
  listed-Fixed needle args (ok strings) h = fixed-append needle _ h refl

  haystack-Fixed :
      (e : Expr) (needle : List Piece) (args : List Arg)
      → has_fixed_words needle ≡ true
      → Fixed (compile_haystack registry e needle args)
  unfolding compile_haystack
  haystack-Fixed (list es) needle args h =
      listed-Fixed needle args (literal_string_list registry es) h
  haystack-Fixed (ident name) needle args h = set-Fixed name needle args (lookup registry name) h
  haystack-Fixed (literal v) needle args h = tt
  haystack-Fixed (call f es) needle args h = tt
  haystack-Fixed (other_kind k es) needle args h = tt

  parsed-Fixed :
      (s : String) (args : List Arg) (r : Option ℕ)
      → Fixed (time_arg registry parse_rfc3339 normalize_semver s args r)
  parsed-Fixed s args none = tt
  parsed-Fixed s args (some t) = refl

  time-Fixed :
      (e : Expr) (args : List Arg)
      → Fixed (compile_timestamp registry parse_rfc3339 normalize_semver e args)
  unfolding compile_timestamp
  time-Fixed (literal (string_value s)) args = parsed-Fixed s args (parse_rfc3339 s)
  time-Fixed (literal (bool_value b)) args = tt
  time-Fixed (literal (double_value b)) args = tt
  time-Fixed (literal (time_value b)) args = tt
  time-Fixed (literal (int_value b)) args = tt
  time-Fixed (literal (uint_value b)) args = tt
  time-Fixed (literal (other_value b)) args = tt
  time-Fixed (call f es) args = tt
  time-Fixed (ident n) args = tt
  time-Fixed (list es) args = tt
  time-Fixed (other_kind k es) args = tt

  normalized-Fixed :
      (s : String) (args : List Arg) (r : Option String)
      → Fixed (version_arg registry parse_rfc3339 normalize_semver s args r)
  normalized-Fixed s args none = tt
  normalized-Fixed s args (some t) = refl

  enclosed-Fixed :
      (before after : String) (r : Compiled)
      → contains before vocabulary ≡ true
      → contains after vocabulary ≡ true
      → Fixed r
      → Fixed (r >>= λ (sql, args). ok (enclose before sql after, args))
  enclosed-Fixed before after (err e) b a h = tt
  enclosed-Fixed before after (ok (sql, args)) b a h = fixed-enclose before after sql b a h

  version-Fixed :
      (e : Expr) (args : List Arg) (inner : Compiled)
      → Fixed inner
      → Fixed (compile_semver registry parse_rfc3339 normalize_semver e args inner)
  unfolding compile_semver
  version-Fixed (literal (string_value s)) args inner h =
      normalized-Fixed s args (normalize_semver s)
  version-Fixed (literal (bool_value b)) args inner h = tt
  version-Fixed (literal (double_value b)) args inner h = tt
  version-Fixed (literal (time_value b)) args inner h = tt
  version-Fixed (literal (int_value b)) args inner h = tt
  version-Fixed (literal (uint_value b)) args inner h = tt
  version-Fixed (literal (other_value b)) args inner h = tt
  version-Fixed (call f es) args inner h = enclosed-Fixed "semver_normalize(" ")" inner refl refl h
  version-Fixed (ident n) args inner h = enclosed-Fixed "semver_normalize(" ")" inner refl refl h
  version-Fixed (list es) args inner h = enclosed-Fixed "semver_normalize(" ")" inner refl refl h
  version-Fixed (other_kind k es) args inner h =
      enclosed-Fixed "semver_normalize(" ")" inner refl refl h

  wrong-Fixed : (f : Function) → Fixed (wrong_call registry parse_rfc3339 normalize_semver f)
  wrong-Fixed logical_and = tt
  wrong-Fixed logical_or = tt
  wrong-Fixed logical_not = tt
  wrong-Fixed in_list = tt
  wrong-Fixed semver = tt
  wrong-Fixed timestamp = tt
  wrong-Fixed (comparison c) = tt
  wrong-Fixed (other_function f) = tt

  unary-Fixed :
      (f : Function) (a : Expr) (args : List Arg) (r : Compiled)
      → Fixed r
      → Fixed (unary_call registry parse_rfc3339 normalize_semver f a args r)
  unfolding unary_call
  unary-Fixed logical_not a args r h = enclosed-Fixed "(NOT " ")" r refl refl h
  unary-Fixed semver a args r h = version-Fixed a args r h
  unary-Fixed timestamp a args r h = time-Fixed a args
  unary-Fixed logical_and a args r h = tt
  unary-Fixed logical_or a args r h = tt
  unary-Fixed in_list a args r h = tt
  unary-Fixed (comparison c) a args r h = tt
  unary-Fixed (other_function f) a args r h = tt

  joined-Fixed :
      (joiner left : List Piece) (r : Compiled)
      → has_fixed_words joiner ≡ true
      → has_fixed_words left ≡ true
      → Fixed r
      → Fixed (
          r >>= λ (right, after).
          ok (joined registry parse_rfc3339 normalize_semver left joiner right, after))
  joined-Fixed joiner left (err e) j l h = tt
  joined-Fixed joiner left (ok (right, after)) j l h =
      fixed-append left _ l (fixed-append joiner _ j (fixed-append right (word ")" ∷ []) h refl))

  both-Fixed :
      (joiner : List Piece) (first : Compiled) (second : List Arg → Compiled)
      → has_fixed_words joiner ≡ true
      → Fixed first
      → ((args : List Arg) → Fixed (second args))
      → Fixed (both registry parse_rfc3339 normalize_semver joiner first second)
  both-Fixed joiner (err e) second j h k = tt
  both-Fixed joiner (ok (left, middle)) second j h k =
      joined-Fixed joiner left (second middle) j h (k middle)

  comparison-Fixed :
      (c : Comparison) → has_fixed_words (word " " ∷ word (comparison_sql c) ∷ word " " ∷ []) ≡ true
  unfolding comparison_sql
  comparison-Fixed equals = refl
  comparison-Fixed not_equals = refl
  comparison-Fixed less = refl
  comparison-Fixed less_equals = refl
  comparison-Fixed greater = refl
  comparison-Fixed greater_equals = refl

  in-Fixed :
      (b : Expr) (first : Compiled)
      → Fixed first
      → Fixed (first >>= λ (needle, middle). compile_haystack registry b needle middle)
  in-Fixed b (err e) h = tt
  in-Fixed b (ok (needle, middle)) h = haystack-Fixed b needle middle h

  binary-Fixed :
      (f : Function) (e : Expr) (first : Compiled) (second : List Arg → Compiled)
      → Fixed first
      → ((args : List Arg) → Fixed (second args))
      → Fixed (binary_call registry parse_rfc3339 normalize_semver f e first second)
  unfolding binary_call
  binary-Fixed logical_and e first second h k = both-Fixed (word " AND " ∷ []) first second refl h k
  binary-Fixed logical_or e first second h k = both-Fixed (word " OR " ∷ []) first second refl h k
  binary-Fixed (comparison c) e first second h k =
      both-Fixed (word " " ∷ word (comparison_sql c) ∷ word " " ∷ []) first second
        (comparison-Fixed c) h k
  binary-Fixed in_list e first second h k = in-Fixed e first h
  binary-Fixed logical_not e first second h k = tt
  binary-Fixed semver e first second h k = tt
  binary-Fixed timestamp e first second h k = tt
  binary-Fixed (other_function f) e first second h k = tt

  compile-Fixed :
      (e : Expr) (args : List Arg) → Fixed (compile registry parse_rfc3339 normalize_semver e args)
  unfolding compile compile_ident_scalar
  compile-Fixed (ident name) args = ident-Fixed name args (lookup registry name)
  compile-Fixed (literal v) args = literal-Fixed v args
  compile-Fixed (call f no_exprs) args = wrong-Fixed f
  compile-Fixed (call f (more a no_exprs)) args =
      unary-Fixed f a args (compile registry parse_rfc3339 normalize_semver a args)
        (compile-Fixed a args)
  compile-Fixed (call f (more a (more b no_exprs))) args =
      binary-Fixed f b (compile registry parse_rfc3339 normalize_semver a args)
        (compile registry parse_rfc3339 normalize_semver b) (compile-Fixed a args)
        (λ middle. compile-Fixed b middle)
  compile-Fixed (call f (more a (more b (more c rest)))) args = wrong-Fixed f
  compile-Fixed (list es) args = tt
  compile-Fixed (other_kind k es) args = tt

-- Whatever the predicate and the registry are: the SQL that the compiler returns is made of placeholders
-- and of texts of the fixed vocabulary. So no literal, attribute name or event name stands in its text.
pub compile_to_sql-words :
    (registry : List Definition) (parse_rfc3339 : String → Option ℕ)
    (normalize_semver : String → Option String) (e : Expr) (sql : List Piece) (args : List Arg)
    → compile_to_sql registry parse_rfc3339 normalize_semver e ≡ ok (sql, args)
    → has_fixed_words sql ≡ true
compile_to_sql-words registry parse normalize e sql args compiled =
    subst (λ (r : Compiled). Fixed r) compiled (compile-Fixed registry parse normalize e [])
