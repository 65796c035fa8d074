-- ===== src/Delivery/Payload.antt =====
-- internal/delivery/payload/payload.go: the entries of a payload, the variants that a channel can
-- render, and the size ceiling. A content document is the list of its bytes. The sum of their sizes
-- does not wrap.
use citywalk.Prelude.{ℕ, suc, ◌+◌, String, List, [], ◌∷◌, str_eq, length, ltb, if◌then◌else◌}
use citywalk.Prelude.Int.{ℤ, pos, pos_part, leb_ℤ}
use citywalk.Definition.Model.{
  SchemaVersion, supports_major, Variant, Trigger, DisplayCondition, ControlPolicy,
}

pub record Entry : Type 0 where
  pub message_id : String
  pub version : ℤ
  pub variant_id : String
  pub schema_version : SchemaVersion
  pub priority : ℤ
  pub content : List ℕ
  pub triggers : List Trigger
  pub display_conditions : List DisplayCondition
  pub control_policy : ControlPolicy
  pub expires_at : ℕ

unfoldable pub variants_supporting_major : List Variant → ℕ → List Variant
variants_supporting_major [] declared_major = []
variants_supporting_major (v ∷ variants) declared_major =
    let rest = variants_supporting_major variants declared_major in
    if supports_major v.schema_version declared_major then v ∷ rest else rest

unfoldable pub variants_for_language : List Variant → String → List Variant
variants_for_language [] language = []
variants_for_language (v ∷ variants) language =
    let rest = variants_for_language variants language in
    if str_eq v.language language then v ∷ rest else rest

-- The entry put before the kept ones.
abbrev pub keep : Entry → List Entry × ℕ → List Entry × ℕ
keep e (kept, dropped) = (e ∷ kept, dropped)

-- The loop of `truncate`, from a `total` on.
unfoldable pub truncate_from : ℕ → ℕ → List Entry → List Entry × ℕ
truncate_from total ceiling [] = ([], 0)
truncate_from total ceiling (e ∷ entries) =
    let rest = truncate_from (total + length e.content) ceiling entries in
    if ltb ceiling (total + length e.content) then ([], suc (length entries)) else keep e rest

unfoldable pub truncate : List Entry → ℤ → List Entry × ℕ
unfolding truncate_from
truncate entries size_ceiling_bytes =
    if leb_ℤ size_ceiling_bytes (pos 0)
    then (entries, 0)
    else truncate_from 0 (pos_part size_ceiling_bytes) entries
