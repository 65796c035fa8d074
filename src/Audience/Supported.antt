-- ===== src/Audience/Supported.antt =====
-- Which expressions the compiler takes.
use citywalk.Prelude.{
  ℕ, String, ◌≡◌, refl, ap, ◌∙◌, Bool, false, ◌&&◌, Option, List, [], ◌∷◌, ok, err,
}
use citywalk.Audience.Registry.{Definition, lookup}
use citywalk.Audience.Expr.{
  Function, logical_and, logical_or, logical_not, in_list, semver, timestamp, comparison,
  other_function, Expr, call, ident, literal, list, other_kind, no_exprs, more,
}
use citywalk.Audience.Compile.{
  Piece, word, Arg, Compiled, comparison_sql, compile_ident_scalar, wrong_call, unary_call, both,
  binary_call, compile, compile_to_sql,
}
use citywalk.Audience.Grammar.{is_ok, is_haystack, is_unary, is_binary, is_supported}
use citywalk.Audience.Leaves.{
  bind_ok, ident_ok, literal_ok, haystack_ok, time_ok, same_ok, version_ok,
}

module _ (registry : List Definition) (parse_rfc3339 : String → Option ℕ)
    (normalize_semver : String → Option String) where
  wrong_ok : (f : Function) → is_ok (wrong_call registry parse_rfc3339 normalize_semver f) ≡ false
  wrong_ok logical_and = refl
  wrong_ok logical_or = refl
  wrong_ok logical_not = refl
  wrong_ok in_list = refl
  wrong_ok semver = refl
  wrong_ok timestamp = refl
  wrong_ok (comparison c) = refl
  wrong_ok (other_function f) = refl

  unary_ok :
      (f : Function) (a : Expr) (args : List Arg) (r : Compiled)
      → is_ok (unary_call registry parse_rfc3339 normalize_semver f a args r)
        ≡ is_unary registry parse_rfc3339 normalize_semver f a (is_ok r)
  unfolding unary_call
  unary_ok logical_not a args r = same_ok registry parse_rfc3339 normalize_semver r _
  unary_ok semver a args r = version_ok registry parse_rfc3339 normalize_semver a args r
  unary_ok timestamp a args r = time_ok registry parse_rfc3339 normalize_semver a args
  unary_ok logical_and a args r = refl
  unary_ok logical_or a args r = refl
  unary_ok in_list a args r = refl
  unary_ok (comparison c) a args r = refl
  unary_ok (other_function f) a args r = refl

  both_ok :
      (joiner : List Piece) (first : Compiled) (second : List Arg → Compiled) (b : Bool)
      → ((args : List Arg) → is_ok (second args) ≡ b)
      → is_ok (both registry parse_rfc3339 normalize_semver joiner first second)
        ≡ (is_ok first && b)
  both_ok joiner (err e) second b h = refl
  both_ok joiner (ok (left, middle)) second b h =
      same_ok registry parse_rfc3339 normalize_semver (second middle) _ ∙ h middle

  binary_ok :
      (f : Function) (e : Expr) (first : Compiled) (second : List Arg → Compiled) (b : Bool)
      → ((args : List Arg) → is_ok (second args) ≡ b)
      → is_ok (binary_call registry parse_rfc3339 normalize_semver f e first second)
        ≡ is_binary registry parse_rfc3339 normalize_semver f e (is_ok first) b
  unfolding binary_call
  binary_ok logical_and e first second b h = both_ok (word " AND " ∷ []) first second b h
  binary_ok logical_or e first second b h = both_ok (word " OR " ∷ []) first second b h
  binary_ok (comparison c) e first second b h =
      both_ok (word " " ∷ word (comparison_sql c) ∷ word " " ∷ []) first second b h
  binary_ok in_list e first second b h =
      bind_ok registry parse_rfc3339 normalize_semver first _
        (is_haystack registry parse_rfc3339 normalize_semver e)
        (λ x. haystack_ok registry parse_rfc3339 normalize_semver e x.0 x.1)
  binary_ok logical_not e first second b h = refl
  binary_ok semver e first second b h = refl
  binary_ok timestamp e first second b h = refl
  binary_ok (other_function f) e first second b h = refl

  compile_ok :
      (e : Expr) (args : List Arg)
      → is_ok (compile registry parse_rfc3339 normalize_semver e args)
        ≡ is_supported registry parse_rfc3339 normalize_semver e
  unfolding compile compile_ident_scalar
  compile_ok (ident name) args =
      ident_ok registry parse_rfc3339 normalize_semver name args (lookup registry name)
  compile_ok (literal v) args = literal_ok registry parse_rfc3339 normalize_semver v args
  compile_ok (call f no_exprs) args = wrong_ok f
  compile_ok (call f (more a no_exprs)) args =
      unary_ok f a args (compile registry parse_rfc3339 normalize_semver a args)
      ∙ ap (is_unary registry parse_rfc3339 normalize_semver f a) (compile_ok a args)
  compile_ok (call f (more a (more b no_exprs))) args =
      binary_ok f b (compile registry parse_rfc3339 normalize_semver a args)
        (compile registry parse_rfc3339 normalize_semver b)
        (is_supported registry parse_rfc3339 normalize_semver b) (λ middle. compile_ok b middle)
      ∙ ap
          (λ (left : Bool).
            is_binary registry parse_rfc3339 normalize_semver f b left
              (is_supported registry parse_rfc3339 normalize_semver b))
          (compile_ok a args)
  compile_ok (call f (more a (more b (more c rest)))) args = wrong_ok f
  compile_ok (list es) args = refl
  compile_ok (other_kind k es) args = refl

-- The compiler takes exactly these expressions: literals of a plain type; attributes of the registry that
-- are event aggregates or have a scalar type; `&&`, `||` and a comparison of two such, and `!` of one; `in`
-- of one and a list of string literals or a string-set attribute; `semver` of a string literal that
-- normalizes or of a supported expression that is no literal; and `timestamp` of a string literal in RFC
-- 3339 form. It rejects every other, also with a wrong number of arguments.
pub compile_to_sql-supported :
    (registry : List Definition) (parse_rfc3339 : String → Option ℕ)
    (normalize_semver : String → Option String) (e : Expr)
    → is_ok (compile_to_sql registry parse_rfc3339 normalize_semver e)
      ≡ is_supported registry parse_rfc3339 normalize_semver e
compile_to_sql-supported registry parse normalize e = compile_ok registry parse normalize e []
