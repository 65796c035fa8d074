-- ===== src/Audience/Leaves.antt =====
-- internal/audience/sqlcompile: which identifiers, literals and arguments compile.
use citywalk.Prelude.{
  ℕ, String, ◌≡◌, refl, ◌∙◌, Bool, ◌&&◌, ◌||◌, Option, none, some, List, ◌∷◌, Result, ok, err,
  ◌>>=◌,
}
use citywalk.Audience.Registry.{
  AttributeType, type_string, type_number, type_bool, type_timestamp, type_semver, type_string_set,
  unknown_type, Source, channel_field, user_attribute, tag, event_aggregate, is_aggregate,
  Definition, lookup,
}
use citywalk.Audience.Expr.{
  Value, bool_value, double_value, string_value, time_value, int_value, uint_value, other_value,
  Expr, call, ident, literal, list, other_kind, Exprs, no_exprs, more,
}
use citywalk.Audience.Compile.{
  Piece, Arg, CompileError, Compiled, compile_literal, scalar, compile_event_aggregate, ident_of,
  known_ident, literal_string_list, set_column, set_haystack, compile_haystack, time_arg,
  compile_timestamp, version_arg, compile_semver,
}
use citywalk.Audience.Grammar.{
  is_ok, are_listed, is_scalar, is_string_set, is_scalar_attribute, is_set_attribute, is_plain,
  all_strings, is_some, is_haystack, is_time, is_version,
}

module _ (registry : List Definition) (parse_rfc3339 : String → Option ℕ)
    (normalize_semver : String → Option String) where
  pub bind_ok :
      (r : Compiled) (g : List Piece × List Arg → Compiled) (b : Bool)
      → ((x : List Piece × List Arg) → is_ok (g x) ≡ b)
      → is_ok (r >>= g) ≡ (is_ok r && b)
  bind_ok (ok x) g b h = h x
  bind_ok (err e) g b h = refl

  scalar_ok :
      (t : AttributeType) (name : String) (column : List Piece) (args : List Arg)
      → is_ok (scalar t name column >>= λ sql. ok (sql, args)) ≡ is_scalar t
  scalar_ok type_string name column args = refl
  scalar_ok type_number name column args = refl
  scalar_ok type_bool name column args = refl
  scalar_ok type_timestamp name column args = refl
  scalar_ok type_semver name column args = refl
  scalar_ok type_string_set name column args = refl
  scalar_ok (unknown_type t) name column args = refl

  source_ok :
      (d : Definition) (name : String) (args : List Arg) (s : Source)
      → is_ok (ident_of d name args s) ≡ (is_aggregate s || is_scalar d.kind)
  unfolding compile_event_aggregate
  source_ok d name args event_aggregate = refl
  source_ok d name args channel_field = scalar_ok d.kind name _ _
  source_ok d name args user_attribute = scalar_ok d.kind name _ _
  source_ok d name args tag = scalar_ok d.kind name _ _

  pub ident_ok :
      (name : String) (args : List Arg) (found : Option Definition)
      → is_ok (known_ident name args found) ≡ is_scalar_attribute found
  ident_ok name args none = refl
  ident_ok name args (some d) = source_ok d name args d.source

  pub literal_ok : (v : Value) (args : List Arg) → is_ok (compile_literal v args) ≡ is_plain v
  unfolding compile_literal
  literal_ok (bool_value b) args = refl
  literal_ok (double_value b) args = refl
  literal_ok (string_value b) args = refl
  literal_ok (time_value b) args = refl
  literal_ok (int_value b) args = refl
  literal_ok (uint_value b) args = refl
  literal_ok (other_value b) args = refl

  more_strings :
      (s : String) (r : Result CompileError (List String))
      → are_listed (r >>= λ strings. ok (s ∷ strings)) ≡ are_listed r
  more_strings s (ok strings) = refl
  more_strings s (err e) = refl

  strings_ok : (es : Exprs) → are_listed (literal_string_list registry es) ≡ all_strings es
  unfolding literal_string_list
  strings_ok no_exprs = refl
  strings_ok (more (literal (string_value s)) rest) =
      more_strings s (literal_string_list registry rest) ∙ strings_ok rest
  strings_ok (more (literal (bool_value b)) rest) = refl
  strings_ok (more (literal (double_value b)) rest) = refl
  strings_ok (more (literal (time_value b)) rest) = refl
  strings_ok (more (literal (int_value b)) rest) = refl
  strings_ok (more (literal (uint_value b)) rest) = refl
  strings_ok (more (literal (other_value b)) rest) = refl
  strings_ok (more (call f es) rest) = refl
  strings_ok (more (ident n) rest) = refl
  strings_ok (more (list es) rest) = refl
  strings_ok (more (other_kind k es) rest) = refl

  listed_ok :
      (r : Result CompileError (List String)) (g : List String → List Piece × List Arg)
      → is_ok (r >>= λ strings. ok (g strings)) ≡ are_listed r
  listed_ok (ok strings) g = refl
  listed_ok (err e) g = refl

  column_ok :
      (t : AttributeType) (name : String) (needle : List Piece) (args : List Arg)
      → is_ok (set_column registry t name needle args) ≡ is_string_set t
  column_ok type_string_set name needle args = refl
  column_ok type_string name needle args = refl
  column_ok type_number name needle args = refl
  column_ok type_bool name needle args = refl
  column_ok type_timestamp name needle args = refl
  column_ok type_semver name needle args = refl
  column_ok (unknown_type t) name needle args = refl

  set_ok :
      (name : String) (needle : List Piece) (args : List Arg) (found : Option Definition)
      → is_ok (set_haystack registry name needle args found) ≡ is_set_attribute found
  set_ok name needle args none = refl
  set_ok name needle args (some d) = column_ok d.kind name needle args

  pub haystack_ok :
      (e : Expr) (needle : List Piece) (args : List Arg)
      → is_ok (compile_haystack registry e needle args)
        ≡ is_haystack registry parse_rfc3339 normalize_semver e
  unfolding compile_haystack
  haystack_ok (list es) needle args = listed_ok (literal_string_list registry es) _ ∙ strings_ok es
  haystack_ok (ident name) needle args = set_ok name needle args (lookup registry name)
  haystack_ok (literal v) needle args = refl
  haystack_ok (call f es) needle args = refl
  haystack_ok (other_kind k es) needle args = refl

  parsed_ok :
      (s : String) (args : List Arg) (r : Option ℕ)
      → is_ok (time_arg registry parse_rfc3339 normalize_semver s args r) ≡ is_some r
  parsed_ok s args none = refl
  parsed_ok s args (some t) = refl

  pub time_ok :
      (e : Expr) (args : List Arg)
      → is_ok (compile_timestamp registry parse_rfc3339 normalize_semver e args)
        ≡ is_time registry parse_rfc3339 normalize_semver e
  unfolding compile_timestamp
  time_ok (literal (string_value s)) args = parsed_ok s args (parse_rfc3339 s)
  time_ok (literal (bool_value b)) args = refl
  time_ok (literal (double_value b)) args = refl
  time_ok (literal (time_value b)) args = refl
  time_ok (literal (int_value b)) args = refl
  time_ok (literal (uint_value b)) args = refl
  time_ok (literal (other_value b)) args = refl
  time_ok (call f es) args = refl
  time_ok (ident n) args = refl
  time_ok (list es) args = refl
  time_ok (other_kind k es) args = refl

  normalized_ok :
      (s : String) (args : List Arg) (r : Option String)
      → is_ok (version_arg registry parse_rfc3339 normalize_semver s args r) ≡ is_some r
  normalized_ok s args none = refl
  normalized_ok s args (some t) = refl

  pub same_ok :
      (r : Compiled) (g : List Piece × List Arg → List Piece × List Arg)
      → is_ok (r >>= λ x. ok (g x)) ≡ is_ok r
  same_ok (ok x) g = refl
  same_ok (err e) g = refl

  pub version_ok :
      (e : Expr) (args : List Arg) (inner : Compiled)
      → is_ok (compile_semver registry parse_rfc3339 normalize_semver e args inner)
        ≡ is_version registry parse_rfc3339 normalize_semver e (is_ok inner)
  unfolding compile_semver
  version_ok (literal (string_value s)) args inner = normalized_ok s args (normalize_semver s)
  version_ok (literal (bool_value b)) args inner = refl
  version_ok (literal (double_value b)) args inner = refl
  version_ok (literal (time_value b)) args inner = refl
  version_ok (literal (int_value b)) args inner = refl
  version_ok (literal (uint_value b)) args inner = refl
  version_ok (literal (other_value b)) args inner = refl
  version_ok (call f es) args inner = same_ok inner _
  version_ok (ident n) args inner = same_ok inner _
  version_ok (list es) args inner = same_ok inner _
  version_ok (other_kind k es) args inner = same_ok inner _
