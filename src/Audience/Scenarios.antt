-- ===== src/Audience/Scenarios.antt =====
-- Runs and examples of predicates.
use citywalk.Prelude.{
  ℕ, zero, suc, String, ◌≡◌, refl, true, false, ◌&&◌, Option, none, List, [], ◌∷◌, ltb, leb, ok,
  err, arith,
}
use citywalk.Prelude.Int.{pos}
use citywalk.Audience.Registry.{
  Definition, type_number, type_string_set, user_attribute, no_granularity, lookup,
}
use citywalk.Audience.Expr.{
  Expr, call, ident, literal, no_exprs, more, logical_and, in_list, comparison, greater_equals,
  double_value, string_value,
}
use citywalk.Audience.Compile.{
  Piece, word, param, Arg, value_arg, compile_to_sql, compile, unary_call, binary_call,
  compile_haystack, compile_semver, compile_ident_scalar, compile_literal, comparison_sql,
}
use citywalk.Audience.Spans.{occurrences, one_when}
use citywalk.Audience.Placeholders.{compile_to_sql-placeholders}
use citywalk.Audience.Grammar.{is_ok}
use citywalk.Audience.Supported.{compile_to_sql-supported}
use citywalk.Audience.Vocabulary.{has_fixed_words}
use citywalk.Audience.SemVer.{normalize_sem_ver, more_than_three_components}
use citywalk.Audience.SemVerOrder.{bytes_less, FitsFields, normalize_sem_ver-precedes}
use citywalk.Audience.Words.{compile_to_sql-words}

abbrev attributes : List Definition
attributes =
    record {
      name = "age";
      kind = type_number;
      source = user_attribute;
      confidential = false;
      aggregate_granularity = no_granularity;
      aggregate_event_name = "";
      aggregate_window_days = pos 0;
    }
    ∷ record {
      name = "tags";
      kind = type_string_set;
      source = user_attribute;
      confidential = false;
      aggregate_granularity = no_granularity;
      aggregate_event_name = "";
      aggregate_window_days = pos 0;
    }
    ∷ []

-- "vip" in tags && age >= 18.0
abbrev adults : Expr
adults = call logical_and (
    more (call in_list (more (literal (string_value "vip")) (more (ident "tags") no_exprs))) (
      more
        (call (comparison greater_equals)
          (more (ident "age") (more (literal (double_value 18)) no_exprs)))
        no_exprs))

abbrev no_time : String → Option ℕ
no_time s = none

abbrev no_version : String → Option String
no_version s = none

abbrev adults_sql : List Piece
adults_sql =
    word "("
    ∷ word "(attributes->"
    ∷ param 2
    ∷ word ") ? ("
    ∷ param 1
    ∷ word ")"
    ∷ word " AND "
    ∷ word "("
    ∷ word "(attributes->>"
    ∷ param 3
    ∷ word ")"
    ∷ word "::double precision"
    ∷ word " "
    ∷ word ">="
    ∷ word " "
    ∷ param 4
    ∷ word ")"
    ∷ word ")"
    ∷ []

abbrev adults_args : List Arg
adults_args =
    value_arg (string_value "vip")
    ∷ value_arg (string_value "tags")
    ∷ value_arg (string_value "age")
    ∷ value_arg (double_value 18)
    ∷ []

adults_compiled : compile_to_sql attributes no_time no_version adults ≡ ok (adults_sql, adults_args)
unfolding compile unary_call binary_call compile_haystack compile_semver compile_ident_scalar
    compile_literal comparison_sql lookup
adults_compiled = refl

compile_to_sql-placeholders_example : occurrences 2 adults_sql ≡ one_when (ltb 0 2 && leb 2 4)
compile_to_sql-placeholders_example =
    compile_to_sql-placeholders attributes no_time no_version adults adults_sql adults_args 2
      adults_compiled

compile_to_sql-supported_example :
    is_ok (compile_to_sql attributes no_time no_version adults) ≡ true
unfolding lookup
compile_to_sql-supported_example = compile_to_sql-supported attributes no_time no_version adults

compile_to_sql-words_example : has_fixed_words adults_sql ≡ true
compile_to_sql-words_example =
    compile_to_sql-words attributes no_time no_version adults adults_sql adults_args adults_compiled

-- The bytes of "2.9.0", of "2.10" and of "1.2.3.4".
abbrev two_nine : List ℕ
two_nine = 50 ∷ 46 ∷ 57 ∷ 46 ∷ 48 ∷ []

abbrev two_ten : List ℕ
two_ten = 50 ∷ 46 ∷ 49 ∷ 48 ∷ []

abbrev four_components : List ℕ
four_components = 49 ∷ 46 ∷ 50 ∷ 46 ∷ 51 ∷ 46 ∷ 52 ∷ []

abbrev zeros : ℕ → List ℕ → List ℕ
zeros zero s = s
zeros (suc k) s = 48 ∷ zeros k s

abbrev two_nine_padded : List ℕ
two_nine_padded = zeros 9 (50 ∷ 46 ∷ zeros 9 (57 ∷ 46 ∷ zeros 10 []))

abbrev two_ten_padded : List ℕ
two_ten_padded = zeros 9 (50 ∷ 46 ∷ zeros 8 (49 ∷ 48 ∷ 46 ∷ zeros 10 []))

two_nine_normalized : normalize_sem_ver two_nine ≡ ok two_nine_padded
unfolding normalize_sem_ver
two_nine_normalized = refl

two_ten_normalized : normalize_sem_ver two_ten ≡ ok two_ten_padded
unfolding normalize_sem_ver
two_ten_normalized = refl

four_components_refused : normalize_sem_ver four_components ≡ err more_than_three_components
unfolding normalize_sem_ver
four_components_refused = refl

small_fit : FitsFields (record { major = 2; minor = 9; patch = 0 })
small_fit = (omega arith, omega arith, omega arith)

later_fit : FitsFields (record { major = 2; minor = 10; patch = 0 })
later_fit = (omega arith, omega arith, omega arith)

normalize_sem_ver-precedes_example : bytes_less two_nine_padded two_ten_padded ≡ true
normalize_sem_ver-precedes_example =
    normalize_sem_ver-precedes two_nine two_ten two_nine_padded two_ten_padded
      (record { major = 2; minor = 9; patch = 0 }) (record { major = 2; minor = 10; patch = 0 })
      refl refl small_fit later_fit two_nine_normalized two_ten_normalized
