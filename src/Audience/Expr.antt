-- ===== src/Audience/Expr.antt =====
-- What internal/audience reads of a checked CEL expression: the kinds of github.com/google/cel-go's `Expr`
-- that it takes apart, the operators that it knows by name, and the Go values of literals.
use citywalk.Prelude.{ℕ, String, Bool}
use citywalk.Prelude.Int.{ℤ}

pub data Comparison : Type 0 where
  equals : Comparison
  not_equals : Comparison
  less : Comparison
  less_equals : Comparison
  greater : Comparison
  greater_equals : Comparison

-- A function by its name.
pub data Function : Type 0 where
  logical_and : Function
  logical_or : Function
  logical_not : Function
  in_list : Function
  semver : Function
  timestamp : Function
  comparison : Comparison → Function
  other_function : String → Function

-- A double by its bits, an instant by its nanoseconds; any other Go value by its type.
pub data Value : Type 0 where
  bool_value : Bool → Value
  double_value : ℕ → Value
  string_value : String → Value
  time_value : ℕ → Value
  int_value : ℤ → Value
  uint_value : ℕ → Value
  other_value : String → Value

-- Comprehensions, maps, field selections and structs are `other_kind`.
mutual
  pub data Expr : Type 0 where
    call : Function → Exprs → Expr
    ident : String → Expr
    literal : Value → Expr
    list : Exprs → Expr
    other_kind : String → Exprs → Expr

  pub data Exprs : Type 0 where
    no_exprs : Exprs
    more : Expr → Exprs → Exprs
