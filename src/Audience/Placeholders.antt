-- ===== src/Audience/Placeholders.antt =====
-- The placeholders of compiled SQL against its arguments.
use citywalk.Prelude.{
  subst, ℕ, String, ◌≡◌, ◌&&◌, Option, none, some, List, [], ◌∷◌, ◌++◌, length, ltb, leb, ok, err,
  ◌>>=◌,
}
use citywalk.Audience.Registry.{Definition, lookup}
use citywalk.Audience.Expr.{
  Function, logical_and, logical_or, logical_not, in_list, semver, timestamp, comparison,
  other_function, bool_value, double_value, string_value, time_value, int_value, uint_value,
  other_value, Expr, call, ident, literal, list, other_kind, no_exprs, more,
}
use citywalk.Audience.Compile.{
  Piece, word, Arg, value_arg, Compiled, comparison_sql, enclose, compile_ident_scalar,
  compile_haystack, time_arg, compile_timestamp, version_arg, compile_semver, wrong_call,
  unary_call, joined, both, binary_call, compile, compile_to_sql,
}
use citywalk.Audience.Spans.{
  one_when, occurrences, Spans, Spans-append, Spans-words, Emits, placeholder-Spans, enclose-Spans,
}
use citywalk.Audience.Emitted.{compile_literal-Emits, known_ident-Emits, compile_haystack-Emits}

module _ (registry : List Definition) (parse_rfc3339 : String → Option ℕ)
    (normalize_semver : String → Option String) where
  time_arg-Emits :
      (s : String) (args : List Arg) (parsed : Option ℕ)
      → Emits args (time_arg registry parse_rfc3339 normalize_semver s args parsed)
  time_arg-Emits s args none = tt
  time_arg-Emits s args (some t) = placeholder-Spans (value_arg (time_value t)) args

  version_arg-Emits :
      (s : String) (args : List Arg) (normalized : Option String)
      → Emits args (version_arg registry parse_rfc3339 normalize_semver s args normalized)
  version_arg-Emits s args none = tt
  version_arg-Emits s args (some t) = placeholder-Spans (value_arg (string_value t)) args

  compile_timestamp-Emits :
      (e : Expr) (args : List Arg)
      → Emits args (compile_timestamp registry parse_rfc3339 normalize_semver e args)
  unfolding compile_timestamp
  compile_timestamp-Emits (literal (string_value s)) args = time_arg-Emits s args (parse_rfc3339 s)
  compile_timestamp-Emits (literal (bool_value b)) args = tt
  compile_timestamp-Emits (literal (double_value b)) args = tt
  compile_timestamp-Emits (literal (time_value b)) args = tt
  compile_timestamp-Emits (literal (int_value b)) args = tt
  compile_timestamp-Emits (literal (uint_value b)) args = tt
  compile_timestamp-Emits (literal (other_value b)) args = tt
  compile_timestamp-Emits (call f es) args = tt
  compile_timestamp-Emits (ident name) args = tt
  compile_timestamp-Emits (list es) args = tt
  compile_timestamp-Emits (other_kind k es) args = tt

  normalized-Emits :
      (args : List Arg) (inner : Compiled)
      → Emits args inner
      → Emits args (inner >>= λ (sql, after). ok (enclose "semver_normalize(" sql ")", after))
  normalized-Emits args (err e) p = tt
  normalized-Emits args (ok (sql, after)) p =
      enclose-Spans (length args) (length after) "semver_normalize(" ")" sql p

  compile_semver-Emits :
      (e : Expr) (args : List Arg) (inner : Compiled)
      → Emits args inner
      → Emits args (compile_semver registry parse_rfc3339 normalize_semver e args inner)
  unfolding compile_semver
  compile_semver-Emits (literal (string_value s)) args inner p =
      version_arg-Emits s args (normalize_semver s)
  compile_semver-Emits (literal (bool_value b)) args inner p = tt
  compile_semver-Emits (literal (double_value b)) args inner p = tt
  compile_semver-Emits (literal (time_value b)) args inner p = tt
  compile_semver-Emits (literal (int_value b)) args inner p = tt
  compile_semver-Emits (literal (uint_value b)) args inner p = tt
  compile_semver-Emits (literal (other_value b)) args inner p = tt
  compile_semver-Emits (call f es) args inner p = normalized-Emits args inner p
  compile_semver-Emits (ident name) args inner p = normalized-Emits args inner p
  compile_semver-Emits (list es) args inner p = normalized-Emits args inner p
  compile_semver-Emits (other_kind k es) args inner p = normalized-Emits args inner p

  negated-Emits :
      (args : List Arg) (inner : Compiled)
      → Emits args inner
      → Emits args (inner >>= λ (sql, after). ok (enclose "(NOT " sql ")", after))
  negated-Emits args (err e) p = tt
  negated-Emits args (ok (sql, after)) p =
      enclose-Spans (length args) (length after) "(NOT " ")" sql p

  wrong_call-Emits :
      (f : Function) (args : List Arg)
      → Emits args (wrong_call registry parse_rfc3339 normalize_semver f)
  wrong_call-Emits logical_and args = tt
  wrong_call-Emits logical_or args = tt
  wrong_call-Emits logical_not args = tt
  wrong_call-Emits in_list args = tt
  wrong_call-Emits semver args = tt
  wrong_call-Emits timestamp args = tt
  wrong_call-Emits (comparison c) args = tt
  wrong_call-Emits (other_function f) args = tt

  unary_call-Emits :
      (f : Function) (a : Expr) (args : List Arg) (compiled : Compiled)
      → Emits args compiled
      → Emits args (unary_call registry parse_rfc3339 normalize_semver f a args compiled)
  unfolding unary_call
  unary_call-Emits logical_not a args compiled p = negated-Emits args compiled p
  unary_call-Emits semver a args compiled p = compile_semver-Emits a args compiled p
  unary_call-Emits timestamp a args compiled p = compile_timestamp-Emits a args
  unary_call-Emits logical_and a args compiled p = tt
  unary_call-Emits logical_or a args compiled p = tt
  unary_call-Emits in_list a args compiled p = tt
  unary_call-Emits (comparison c) a args compiled p = tt
  unary_call-Emits (other_function f) a args compiled p = tt

  joined-Emits :
      (joiner : List Piece) (args middle : List Arg) (left : List Piece) (second : Compiled)
      → ((a : ℕ) → Spans a a joiner)
      → Spans (length args) (length middle) left
      → Emits middle second
      → Emits args (
          second >>= λ (right, after).
          ok (joined registry parse_rfc3339 normalize_semver left joiner right, after))
  joined-Emits joiner args middle left (err e) j p q = tt
  joined-Emits joiner args middle left (ok (right, after)) j p q =
      Spans-append (length args) (length middle) (length after) left
        (joiner ++ (right ++ word ")" ∷ [])) p
        (Spans-append (length middle) (length middle) (length after) joiner (right ++ word ")" ∷ [])
          (j (length middle)) (enclose-Spans (length middle) (length after) "" ")" right q))

  both-Emits :
      (joiner : List Piece) (args : List Arg) (first : Compiled) (second : List Arg → Compiled)
      → ((a : ℕ) → Spans a a joiner)
      → Emits args first
      → ((middle : List Arg) → Emits middle (second middle))
      → Emits args (both registry parse_rfc3339 normalize_semver joiner first second)
  both-Emits joiner args (err e) second j p q = tt
  both-Emits joiner args (ok (left, middle)) second j p q =
      joined-Emits joiner args middle left (second middle) j p (q middle)

  in-Emits :
      (b : Expr) (args : List Arg) (first : Compiled)
      → Emits args first
      → Emits args (first >>= λ (needle, middle). compile_haystack registry b needle middle)
  in-Emits b args (err e) p = tt
  in-Emits b args (ok (needle, middle)) p = compile_haystack-Emits registry b needle args middle p

  binary_call-Emits :
      (f : Function) (b : Expr) (args : List Arg) (first : Compiled) (second : List Arg → Compiled)
      → Emits args first
      → ((middle : List Arg) → Emits middle (second middle))
      → Emits args (binary_call registry parse_rfc3339 normalize_semver f b first second)
  unfolding binary_call
  binary_call-Emits logical_and b args first second p q =
      both-Emits (word " AND " ∷ []) args first second Spans-words p q
  binary_call-Emits logical_or b args first second p q =
      both-Emits (word " OR " ∷ []) args first second Spans-words p q
  binary_call-Emits in_list b args first second p q = in-Emits b args first p
  binary_call-Emits (comparison c) b args first second p q =
      both-Emits (word " " ∷ word (comparison_sql c) ∷ word " " ∷ []) args first second Spans-words
        p q
  binary_call-Emits logical_not b args first second p q = tt
  binary_call-Emits semver b args first second p q = tt
  binary_call-Emits timestamp b args first second p q = tt
  binary_call-Emits (other_function f) b args first second p q = tt

  compile-Emits :
      (e : Expr) (args : List Arg)
      → Emits args (compile registry parse_rfc3339 normalize_semver e args)
  unfolding compile compile_ident_scalar
  compile-Emits (ident name) args = known_ident-Emits name args (lookup registry name)
  compile-Emits (literal v) args = compile_literal-Emits v args
  compile-Emits (call f no_exprs) args = wrong_call-Emits f args
  compile-Emits (call f (more a no_exprs)) args =
      unary_call-Emits f a args (compile registry parse_rfc3339 normalize_semver a args)
        (compile-Emits a args)
  compile-Emits (call f (more a (more b no_exprs))) args =
      binary_call-Emits f b args (compile registry parse_rfc3339 normalize_semver a args)
        (compile registry parse_rfc3339 normalize_semver b) (compile-Emits a args)
        (λ middle. compile-Emits b middle)
  compile-Emits (call f (more a (more b (more c rest)))) args = wrong_call-Emits f args
  compile-Emits (list es) args = tt
  compile-Emits (other_kind k es) args = tt

-- In SQL that the compiler returns with its arguments: each of the placeholders from $1 to the number of
-- arguments stands exactly once, and no other placeholder stands in it.
pub compile_to_sql-placeholders :
    (registry : List Definition) (parse_rfc3339 : String → Option ℕ)
    (normalize_semver : String → Option String) (e : Expr) (sql : List Piece) (args : List Arg)
    (k : ℕ)
    → compile_to_sql registry parse_rfc3339 normalize_semver e ≡ ok (sql, args)
    → occurrences k sql ≡ one_when (ltb 0 k && leb k (length args))
compile_to_sql-placeholders registry parse normalize e sql args k compiled =
    (subst (λ (r : Compiled). Emits [] r) compiled (compile-Emits registry parse normalize e [])).1
      k
