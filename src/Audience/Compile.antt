-- ===== src/Audience/Compile.antt =====
-- internal/audience/sqlcompile/sqlcompile.go. The SQL text is the sequence of the strings that the source
-- puts together, and a placeholder `$n` is its number. `time.Parse` and `NormalizeSemVer` are parameters.
use citywalk.Prelude.{
  ℕ, suc, String, Option, none, some, List, [], ◌∷◌, ◌++◌, length, Result, ok, err, ◌>>=◌,
}
use citywalk.Prelude.Int.{ℤ}
use citywalk.Audience.Registry.{
  AttributeType, type_string, type_number, type_bool, type_timestamp, type_semver, type_string_set,
  unknown_type, Source, event_aggregate, Definition, lookup,
}
use citywalk.Audience.Expr.{
  Comparison, equals, not_equals, less, less_equals, greater, greater_equals, Function, logical_and,
  logical_or, logical_not, in_list, semver, timestamp, comparison, other_function, Value,
  string_value, time_value, other_value, Expr, call, ident, literal, list, other_kind, Exprs,
  no_exprs, more,
}

pub data Piece : Type 0 where
  word : String → Piece
  param : ℕ → Piece

pub data Arg : Type 0 where
  value_arg : Value → Arg
  strings_arg : List String → Arg
  days_arg : ℤ → Arg

pub data CompileError : Type 0 where
  wrong_arity : CompileError
  unsupported : String → CompileError
  unknown_attribute : String → CompileError
  not_a_string_set : String → CompileError
  not_a_string : CompileError
  not_normalized : String → CompileError
  not_rfc3339 : String → CompileError

-- SQL with the arguments so far.
abbrev pub Compiled : Type 0
Compiled = Result CompileError (List Piece × List Arg)

unfoldable pub comparison_sql : Comparison → String
comparison_sql equals = "="
comparison_sql not_equals = "<>"
comparison_sql less = "<"
comparison_sql less_equals = "<="
comparison_sql greater = ">"
comparison_sql greater_equals = ">="

abbrev pub placeholder : Arg → List Arg → List Piece × List Arg
placeholder arg args = (param (suc (length args)) ∷ [], args ++ arg ∷ [])

unfoldable pub compile_literal : Value → List Arg → Compiled
compile_literal (other_value t) args = err (unsupported t)
compile_literal v args = ok (placeholder (value_arg v) args)

-- The SQL put between two texts.
abbrev pub enclose : String → List Piece → String → List Piece
enclose before sql after = word before ∷ (sql ++ word after ∷ [])

abbrev pub scalar : AttributeType → String → List Piece → Result CompileError (List Piece)
scalar type_string name column = ok column
scalar type_semver name column = ok column
scalar type_number name column = ok (column ++ word "::double precision" ∷ [])
scalar type_bool name column = ok (column ++ word "::boolean" ∷ [])
scalar type_timestamp name column = ok (column ++ word "::timestamptz" ∷ [])
scalar type_string_set name column = err (unsupported name)
scalar (unknown_type t) name column = err (unsupported t)

unfoldable pub compile_event_aggregate : Definition → List Arg → Compiled
compile_event_aggregate d args =
    let (event_name, with_event) =
      placeholder (value_arg (string_value d.aggregate_event_name)) args in
    let (days, with_days) = placeholder (days_arg d.aggregate_window_days) with_event in
    ok (
      word
            "(SELECT COALESCE(sum(count), 0)::double precision FROM targeting_rollup WHERE channel_id = c.id AND event_name = "
          ∷ (event_name ++ word " AND day > current_date - " ∷ (days ++ word "::int)" ∷ [])),
      with_days,
    )

abbrev pub ident_of : Definition → String → List Arg → Source → Compiled
ident_of d name args event_aggregate = compile_event_aggregate d args
ident_of d name args _ = do
  let column : List Piece × List Arg = placeholder (value_arg (string_value name)) args
  sql ← scalar d.kind name (enclose "(attributes->>" column.0 ")")
  ok (sql, column.1)

abbrev pub known_ident : String → List Arg → Option Definition → Compiled
known_ident name args none = err (unknown_attribute name)
known_ident name args (some d) = ident_of d name args d.source

module _ (registry : List Definition) where
  unfoldable pub compile_ident_scalar : String → List Arg → Compiled
  compile_ident_scalar name args = known_ident name args (lookup registry name)

  unfoldable pub literal_string_list : Exprs → Result CompileError (List String)
  literal_string_list no_exprs = ok []
  literal_string_list (more (literal (string_value s)) rest) = do
    strings ← literal_string_list rest
    ok (s ∷ strings)
  literal_string_list (more _ rest) = err (unsupported "list element")

  abbrev pub set_column : AttributeType → String → List Piece → List Arg → Compiled
  set_column type_string_set name needle args =
      let (column, after) = placeholder (value_arg (string_value name)) args in
      ok (enclose "(attributes->" column ") ? (" ++ (needle ++ word ")" ∷ []), after)
  set_column _ name needle args = err (not_a_string_set name)

  abbrev pub set_haystack : String → List Piece → List Arg → Option Definition → Compiled
  set_haystack name needle args none = err (unknown_attribute name)
  set_haystack name needle args (some d) = set_column d.kind name needle args

  -- The haystack of `compileIn`, behind the SQL of the needle.
  unfoldable pub compile_haystack : Expr → List Piece → List Arg → Compiled
  compile_haystack (list elements) needle args = do
    strings ← literal_string_list elements
    let strings_param : List Piece × List Arg = placeholder (strings_arg strings) args
    ok (needle ++ enclose " = ANY(" strings_param.0 ")", strings_param.1)
  compile_haystack (ident name) needle args = set_haystack name needle args (lookup registry name)
  compile_haystack _ needle args = err (unsupported "in")

module _ (registry : List Definition) (parse_rfc3339 : String → Option ℕ)
    (normalize_semver : String → Option String) where
  abbrev pub time_arg : String → List Arg → Option ℕ → Compiled
  time_arg s args none = err (not_rfc3339 s)
  time_arg s args (some t) = ok (placeholder (value_arg (time_value t)) args)

  unfoldable pub compile_timestamp : Expr → List Arg → Compiled
  compile_timestamp (literal (string_value s)) args = time_arg s args (parse_rfc3339 s)
  compile_timestamp (literal v) args = err not_a_string
  compile_timestamp _ args = err (unsupported "timestamp() over a non-literal argument")

  abbrev pub version_arg : String → List Arg → Option String → Compiled
  version_arg s args none = err (not_normalized s)
  version_arg s args (some normalized) = ok (placeholder (value_arg (string_value normalized)) args)

  -- `compileSemVer` of an argument, with the SQL that `compile` gives for it.
  unfoldable pub compile_semver : Expr → List Arg → Compiled → Compiled
  compile_semver (literal (string_value s)) args inner = version_arg s args (normalize_semver s)
  compile_semver (literal v) args inner = err not_a_string
  compile_semver e args inner = do
    (sql, after) ← inner
    ok (enclose "semver_normalize(" sql ")", after)

  -- `compileCall` by the number of arguments: none or more than two,
  abbrev pub wrong_call : Function → Compiled
  wrong_call (other_function f) = err (unsupported f)
  wrong_call _ = err wrong_arity

  -- one, with what `compile` gives for it,
  unfoldable pub unary_call : Function → Expr → List Arg → Compiled → Compiled
  unfolding compile_semver compile_timestamp
  unary_call logical_not a args compiled = do
    (inner, after) ← compiled
    ok (enclose "(NOT " inner ")", after)
  unary_call semver a args compiled = compile_semver a args compiled
  unary_call timestamp a args compiled = compile_timestamp a args
  unary_call f a args compiled = wrong_call f

  abbrev pub joined : List Piece → List Piece → List Piece → List Piece
  joined left joiner right = word "(" ∷ (left ++ (joiner ++ (right ++ word ")" ∷ [])))

  -- Both sides, the second behind the arguments of the first.
  abbrev pub both : List Piece → Compiled → (List Arg → Compiled) → Compiled
  both joiner first second = do
    (left, with_left) ← first
    (right, with_right) ← second with_left
    ok (joined left joiner right, with_right)

  -- and two.
  unfoldable pub binary_call : Function → Expr → Compiled → (List Arg → Compiled) → Compiled
  unfolding compile_haystack
  binary_call logical_and b first second = both (word " AND " ∷ []) first second
  binary_call logical_or b first second = both (word " OR " ∷ []) first second
  binary_call in_list b first second = do
    (needle, with_needle) ← first
    compile_haystack registry b needle with_needle
  binary_call (comparison c) b first second =
      both (word " " ∷ word (comparison_sql c) ∷ word " " ∷ []) first second
  binary_call f b first second = wrong_call f

  unfoldable pub compile : Expr → List Arg → Compiled
  unfolding unary_call binary_call
  compile (ident name) args = compile_ident_scalar registry name args
  compile (literal v) args = compile_literal v args
  compile (call f no_exprs) args = wrong_call f
  compile (call f (more a no_exprs)) args = unary_call f a args (compile a args)
  compile (call f (more a (more b no_exprs))) args = binary_call f b (compile a args) (compile b)
  compile (call f (more a (more b (more c rest)))) args = wrong_call f
  compile (list _) args = err (unsupported "list")
  compile (other_kind k _) args = err (unsupported k)

  abbrev pub compile_to_sql : Expr → Compiled
  compile_to_sql e = compile e []
