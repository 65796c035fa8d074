-- ===== src/Audience/Emitted.antt =====
-- The placeholders of the parts that are no calls.
use citywalk.Prelude.{
  suc, String, Option, none, some, List, [], ◌∷◌, ◌++◌, length, ok, ◌>>=◌, Result-cases, inl, inr,
}
use citywalk.Audience.Registry.{
  AttributeType, type_string, type_number, type_bool, type_timestamp, type_semver, type_string_set,
  unknown_type, Source, channel_field, user_attribute, tag, event_aggregate, Definition, lookup,
}
use citywalk.Audience.Expr.{
  Value, bool_value, double_value, string_value, time_value, int_value, uint_value, other_value,
  Expr, call, ident, literal, list, other_kind,
}
use citywalk.Audience.Compile.{
  Piece, word, param, Arg, value_arg, strings_arg, days_arg, compile_literal, enclose, scalar,
  compile_event_aggregate, ident_of, known_ident, literal_string_list, set_column, set_haystack,
  compile_haystack,
}
use citywalk.Audience.Spans.{
  Spans, Spans-append, Spans-behind, Emits, placeholder-Spans, enclose-Spans,
}

pub compile_literal-Emits : (v : Value) (args : List Arg) → Emits args (compile_literal v args)
unfolding compile_literal
compile_literal-Emits (bool_value b) args = placeholder-Spans (value_arg (bool_value b)) args
compile_literal-Emits (double_value b) args = placeholder-Spans (value_arg (double_value b)) args
compile_literal-Emits (string_value b) args = placeholder-Spans (value_arg (string_value b)) args
compile_literal-Emits (time_value b) args = placeholder-Spans (value_arg (time_value b)) args
compile_literal-Emits (int_value b) args = placeholder-Spans (value_arg (int_value b)) args
compile_literal-Emits (uint_value b) args = placeholder-Spans (value_arg (uint_value b)) args
compile_literal-Emits (other_value t) args = tt

compile_event_aggregate-Emits :
    (d : Definition) (args : List Arg) → Emits args (compile_event_aggregate d args)
unfolding compile_event_aggregate
compile_event_aggregate-Emits d args =
    let named = args ++ value_arg (string_value d.aggregate_event_name) ∷ [] in
    let days = days_arg d.aggregate_window_days in
    Spans-append (length args) (length named) (length (named ++ days ∷ []))
      (param (suc (length args)) ∷ []) (enclose "" (param (suc (length named)) ∷ []) "")
      (placeholder-Spans _ args)
      (enclose-Spans (length named) (length (named ++ days ∷ [])) "" ""
        (param (suc (length named)) ∷ []) (placeholder-Spans days named))

attribute-Emits :
    (d : Definition) (name : String) (args : List Arg) (t : AttributeType)
    → Emits args (
        scalar t name (enclose "(attributes->>" (param (suc (length args)) ∷ []) ")") >>= λ sql.
        ok (sql, args ++ value_arg (string_value name) ∷ []))
attribute-Emits d name args type_string = placeholder-Spans (value_arg (string_value name)) args
attribute-Emits d name args type_semver = placeholder-Spans (value_arg (string_value name)) args
attribute-Emits d name args type_number = placeholder-Spans (value_arg (string_value name)) args
attribute-Emits d name args type_bool = placeholder-Spans (value_arg (string_value name)) args
attribute-Emits d name args type_timestamp = placeholder-Spans (value_arg (string_value name)) args
attribute-Emits d name args type_string_set = tt
attribute-Emits d name args (unknown_type t) = tt

ident_of-Emits :
    (d : Definition) (name : String) (args : List Arg) (s : Source)
    → Emits args (ident_of d name args s)
ident_of-Emits d name args event_aggregate = compile_event_aggregate-Emits d args
ident_of-Emits d name args channel_field = attribute-Emits d name args d.kind
ident_of-Emits d name args user_attribute = attribute-Emits d name args d.kind
ident_of-Emits d name args tag = attribute-Emits d name args d.kind

pub known_ident-Emits :
    (name : String) (args : List Arg) (found : Option Definition)
    → Emits args (known_ident name args found)
known_ident-Emits name args none = tt
known_ident-Emits name args (some d) = ident_of-Emits d name args d.source

set_column-Emits :
    (registry : List Definition) (name : String) (needle : List Piece) (args middle : List Arg)
    (t : AttributeType)
    → Spans (length args) (length middle) needle
    → Emits args (set_column registry t name needle middle)
set_column-Emits registry name needle args middle type_string_set p =
    let column = value_arg (string_value name) in
    Spans-behind (length args) (length middle) (length (middle ++ column ∷ []))
      (needle ++ word ")" ∷ []) (enclose "(attributes->" (param (suc (length middle)) ∷ []) ") ? (")
      (enclose-Spans (length args) (length middle) "" ")" needle p)
      (enclose-Spans (length middle) (length (middle ++ column ∷ [])) "(attributes->" ") ? ("
        (param (suc (length middle)) ∷ []) (placeholder-Spans column middle))
set_column-Emits registry name needle args middle type_string p = tt
set_column-Emits registry name needle args middle type_semver p = tt
set_column-Emits registry name needle args middle type_number p = tt
set_column-Emits registry name needle args middle type_bool p = tt
set_column-Emits registry name needle args middle type_timestamp p = tt
set_column-Emits registry name needle args middle (unknown_type t) p = tt

set_haystack-Emits :
    (registry : List Definition) (name : String) (needle : List Piece) (args middle : List Arg)
    (found : Option Definition)
    → Spans (length args) (length middle) needle
    → Emits args (set_haystack registry name needle middle found)
set_haystack-Emits registry name needle args middle none p = tt
set_haystack-Emits registry name needle args middle (some d) p =
    set_column-Emits registry name needle args middle d.kind p

pub compile_haystack-Emits :
    (registry : List Definition) (e : Expr) (needle : List Piece) (args middle : List Arg)
    → Spans (length args) (length middle) needle
    → Emits args (compile_haystack registry e needle middle)
unfolding compile_haystack
compile_haystack-Emits registry (list elements) needle args middle p =
    elim (Result-cases (literal_string_list registry elements)) [
      | inr (e, failed) ↦ rw failed tt
      | inl (strings, made) ↦ rw made (
          Spans-append (length args) (length middle) (length (middle ++ strings_arg strings ∷ []))
            needle (enclose " = ANY(" (param (suc (length middle)) ∷ []) ")") p
            (enclose-Spans (length middle) (length (middle ++ strings_arg strings ∷ [])) " = ANY("
              ")" (param (suc (length middle)) ∷ [])
              (placeholder-Spans (strings_arg strings) middle)))
    ]
compile_haystack-Emits registry (ident name) needle args middle p =
    set_haystack-Emits registry name needle args middle (lookup registry name) p
compile_haystack-Emits registry (call f arguments) needle args middle p = tt
compile_haystack-Emits registry (literal v) needle args middle p = tt
compile_haystack-Emits registry (other_kind k es) needle args middle p = tt
