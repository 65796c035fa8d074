-- ===== src/Audience/Grammar.antt =====
-- internal/audience/sqlcompile: the expressions that have an SQL form.
use citywalk.Prelude.{
  ℕ, String, Bool, true, false, ◌&&◌, ◌||◌, Option, none, some, List, Result, ok, err,
}
use citywalk.Audience.Registry.{
  AttributeType, type_string_set, unknown_type, is_aggregate, Definition, lookup,
}
use citywalk.Audience.Expr.{
  Function, logical_and, logical_or, logical_not, in_list, semver, timestamp, comparison, Value,
  string_value, other_value, Expr, call, ident, literal, list, other_kind, Exprs, no_exprs, more,
}
use citywalk.Audience.Compile.{CompileError, Compiled}

abbrev pub is_ok : Compiled → Bool
is_ok (ok a) = true
is_ok (err e) = false

abbrev pub are_listed : Result CompileError (List String) → Bool
are_listed (ok strings) = true
are_listed (err e) = false

abbrev pub is_scalar : AttributeType → Bool
is_scalar type_string_set = false
is_scalar (unknown_type t) = false
is_scalar _ = true

abbrev pub is_string_set : AttributeType → Bool
is_string_set type_string_set = true
is_string_set _ = false

-- An attribute of the registry that has a scalar form.
abbrev pub is_scalar_attribute : Option Definition → Bool
is_scalar_attribute none = false
is_scalar_attribute (some d) = is_aggregate d.source || is_scalar d.kind

abbrev pub is_set_attribute : Option Definition → Bool
is_set_attribute none = false
is_set_attribute (some d) = is_string_set d.kind

abbrev pub is_plain : Value → Bool
is_plain (other_value t) = false
is_plain _ = true

abbrev pub all_strings : Exprs → Bool
all_strings no_exprs = true
all_strings (more (literal (string_value s)) rest) = all_strings rest
all_strings (more _ rest) = false

abbrev pub is_some {ℓ} : {A : Type ℓ} → Option A → Bool
is_some none = false
is_some (some a) = true

module _ (registry : List Definition) (parse_rfc3339 : String → Option ℕ)
    (normalize_semver : String → Option String) where
  abbrev pub is_haystack : Expr → Bool
  is_haystack (list elements) = all_strings elements
  is_haystack (ident name) = is_set_attribute (lookup registry name)
  is_haystack _ = false

  abbrev pub is_time : Expr → Bool
  is_time (literal (string_value s)) = is_some (parse_rfc3339 s)
  is_time _ = false

  -- A version: a literal that normalizes, or any other expression that is supported.
  abbrev pub is_version : Expr → Bool → Bool
  is_version (literal (string_value s)) supported_too = is_some (normalize_semver s)
  is_version (literal v) supported_too = false
  is_version e supported_too = supported_too

  abbrev pub is_unary : Function → Expr → Bool → Bool
  is_unary logical_not a inner = inner
  is_unary semver a inner = is_version a inner
  is_unary timestamp a inner = is_time a
  is_unary _ a inner = false

  abbrev pub is_binary : Function → Expr → Bool → Bool → Bool
  is_binary logical_and b left right = left && right
  is_binary logical_or b left right = left && right
  is_binary (comparison c) b left right = left && right
  is_binary in_list b left right = left && is_haystack b
  is_binary _ b left right = false

  -- The expressions that the compiler takes.
  abbrev pub is_supported : Expr → Bool
  is_supported (ident name) = is_scalar_attribute (lookup registry name)
  is_supported (literal v) = is_plain v
  is_supported (call f no_exprs) = false
  is_supported (call f (more a no_exprs)) = is_unary f a (is_supported a)
  is_supported (call f (more a (more b no_exprs))) = is_binary f b (is_supported a) (is_supported b)
  is_supported (call f (more a (more b (more c rest)))) = false
  is_supported (list es) = false
  is_supported (other_kind k es) = false
