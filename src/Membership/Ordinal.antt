-- ===== src/Membership/Ordinal.antt =====
-- internal/membership/ordinal/ordinal.go, on the table of ordinals and the ordinal that the next row gets.
use citywalk.Prelude.{
  ℕ, suc, String, Bool, true, false, ◌||◌, List, [], ◌∷◌, ◌++◌, str_eq, Result, ok, err,
  if◌then◌else◌,
}

pub record OrdinalRow : Type 0 where
  pub channel_id : String
  pub ordinal : ℕ
  pub retired : Bool

pub record Ordinals : Type 0 where
  pub rows : List OrdinalRow
  pub next_ordinal : ℕ

pub data OrdinalError : Type 0 where
  no_ordinal : String → OrdinalError
  is_retired : String → OrdinalError

abbrev pub of_row : OrdinalRow → Result OrdinalError ℕ
of_row r = if r.retired then err (is_retired r.channel_id) else ok r.ordinal

unfoldable pub lookup_row : List OrdinalRow → String → Result OrdinalError ℕ
lookup_row [] channel_id = err (no_ordinal channel_id)
lookup_row (r ∷ rows) channel_id =
    if str_eq r.channel_id channel_id then of_row r else lookup_row rows channel_id

abbrev pub lookup : Ordinals → String → Result OrdinalError ℕ
lookup t channel_id = lookup_row t.rows channel_id

-- The row of a channel, made if there is none.
unfoldable pub existing : List OrdinalRow → String → ℕ → ℕ
existing [] channel_id fresh = fresh
existing (r ∷ rows) channel_id fresh =
    if str_eq r.channel_id channel_id then r.ordinal else existing rows channel_id fresh

abbrev pub has_row : List OrdinalRow → String → Bool
has_row [] channel_id = false
has_row (r ∷ rows) channel_id = str_eq r.channel_id channel_id || has_row rows channel_id

-- A conflicting insertion uses up an ordinal of the sequence all the same.
unfoldable pub allocate : String → Ordinals → Ordinals × ℕ
allocate channel_id t =
    if has_row t.rows channel_id
    then (
      record { rows = t.rows; next_ordinal = suc t.next_ordinal },
      existing t.rows channel_id t.next_ordinal,
    )
    else (
      record {
        rows =
            t.rows
            ++ record { channel_id = channel_id; ordinal = t.next_ordinal; retired = false } ∷ [];
        next_ordinal = suc t.next_ordinal;
      },
      t.next_ordinal,
    )

abbrev pub retired_row : OrdinalRow → OrdinalRow
retired_row r = record { channel_id = r.channel_id; ordinal = r.ordinal; retired = true }

unfoldable pub retire_rows : String → List OrdinalRow → List OrdinalRow
retire_rows channel_id [] = []
retire_rows channel_id (r ∷ rows) =
    (if str_eq r.channel_id channel_id then retired_row r else r) ∷ retire_rows channel_id rows

unfoldable pub retire : String → Ordinals → Result OrdinalError Ordinals
retire channel_id t =
    if has_row t.rows channel_id
    then ok (record { rows = retire_rows channel_id t.rows; next_ordinal = t.next_ordinal })
    else err (no_ordinal channel_id)
