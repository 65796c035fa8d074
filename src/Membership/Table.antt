-- ===== src/Membership/Table.antt =====
-- The table of ordinals under `Allocate` and `Retire`.
use citywalk.Prelude.{
  ℕ, ◌<◌, String, ◌≡◌, false, ◌==◌, List, [], ◌∷◌, All, str_eq, Option, none, some, ◌⊎◌,
  if◌then◌else◌,
}
use citywalk.Membership.Ordinal.{OrdinalRow, Ordinals, has_row, allocate}
use citywalk.Membership.Inserted.{HaveOrdinals}

-- Channels and ordinals tell rows apart alike, and each ordinal is below the next one.
abbrev pub IsTable : Ordinals → Type 0
IsTable t = HaveOrdinals t.rows × All (λ r. r.ordinal < t.next_ordinal) t.rows

abbrev Told : OrdinalRow → OrdinalRow → Type 0
Told r t = str_eq t.channel_id r.channel_id ≡ (r.ordinal == t.ordinal)

module _ (t : Ordinals) (c : String) (table : IsTable t) (new : has_row t.rows c ≡ false) where
  abbrev made : OrdinalRow
  made = record { channel_id = c; ordinal = t.next_ordinal; retired = false }

-- The ordinal in the first row of a channel.
unfoldable pub ordinal_of : List OrdinalRow → String → Option ℕ
ordinal_of [] channel_id = none
ordinal_of (r ∷ rows) channel_id =
    if str_eq r.channel_id channel_id then some r.ordinal else ordinal_of rows channel_id

-- What `Allocate` answers: the ordinal that the table holds for the channel then, which is the one that
-- it held before, or else one above all that it held.
abbrev pub IsAllotted : Ordinals → String → Type 0
IsAllotted t d =
    (ordinal_of (allocate d t).0.rows d ≡ some (allocate d t).1)
    × ((ordinal_of t.rows d ≡ some (allocate d t).1)
        ⊎ All (λ r. r.ordinal < (allocate d t).1) t.rows)
