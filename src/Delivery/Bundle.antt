-- ===== src/Delivery/Bundle.antt =====
-- The assembly of a bundle: `toBundleMessage`, `toBundleVariant` and `assembleShared` of
-- internal/delivery/payload/bundle.go, with the query of payload.go that selects the messages, and
-- `GetMessage` of internal/definition/store/store.go on the rows of a message put together. What the
-- repository does not implement is a parameter: floats, the JSON encoding of a content document, and
-- the serialized bytes of a bitmap. A failing query is not modelled.
use citywalk.Prelude.{
  ℕ, String, Bool, true, false, ◌&&◌, Option, none, some, List, [], ◌∷◌, map, contains, str_eq,
  str_lt, ltb, leb, Result, ok, err, ◌>>=◌, if◌then◌else◌,
}
use citywalk.Prelude.Int.{ℤ, ltb_ℤ, eqb_ℤ}
use citywalk.Definition.Model.{
  SchemaVersion, Content, Variant, Window, Trigger, DisplayCondition, ControlPolicy,
}
use citywalk.Definition.Lifecycle.{MessageState, active, same_state}
use citywalk.Delivery.Payload.{variants_supporting_major, variants_for_language}
use citywalk.Delivery.Allocation.{Floats}
use citywalk.Delivery.Variants.{BundleVariant}

pub record Outside : Type 1 where
  pub floats : Floats
  pub encode : SchemaVersion → Content → Option (List ℕ)
  pub marshal : List ℕ → List ℕ

pub data BundleError : Type 0 where
  not_found : String → BundleError
  no_variants : String → BundleError
  not_encoded : String → BundleError

-- `model.Message`, the rows that `GetMessage` reads, less the name and the conversion event.
pub record StoredMessage (o : Outside) : Type 0 where
  pub id : String
  pub state : MessageState
  pub priority : ℤ
  pub window : Window
  pub version : ℤ
  pub audience_ref : Option String
  pub control_policy : ControlPolicy
  pub holdout_fraction : o.floats.Float
  pub experiment_salt : String
  pub triggers : List Trigger
  pub display_conditions : List DisplayCondition
  pub variants : List Variant

pub record BundleMessage (o : Outside) : Type 0 where
  pub message_id : String
  pub version : ℤ
  pub priority : ℤ
  pub expires_at : ℕ
  pub control_policy : ControlPolicy
  pub triggers : List Trigger
  pub display_conditions : List DisplayCondition
  pub holdout_fraction : o.floats.Float
  pub experiment_salt : String
  pub fallback_variant : BundleVariant
  pub language_variants : List BundleVariant

module _ (o : Outside) where
  -- `MarshalContentColumn`.
  abbrev pub marshal_content_column : Variant → Result BundleError (List ℕ)
  marshal_content_column v = elim (o.encode v.schema_version v.content) [
    | none ↦ err (not_encoded v.id)
    | some bytes ↦ ok bytes
  ]

  unfoldable pub to_bundle_variant : Variant → Result BundleError BundleVariant
  to_bundle_variant v = do
    content ← marshal_content_column v
    ok (record {
      id = v.id;
      weight = v.weight;
      language = v.language;
      schema_version = v.schema_version;
      content = content;
    })

  unfoldable pub to_bundle_variants : List Variant → Result BundleError (List BundleVariant)
  to_bundle_variants [] = ok []
  to_bundle_variants (v ∷ variants) = do
    bv ← to_bundle_variant v
    rest ← to_bundle_variants variants
    ok (bv ∷ rest)

  -- `toBundleMessage` for a message whose variants that the declared major supports are given.
  abbrev pub bundle_of :
      StoredMessage o → String → List Variant → Result BundleError (Option (BundleMessage o))
  bundle_of msg language [] = ok none
  bundle_of msg language (v ∷ compatible) = do
    fallback ← to_bundle_variant v
    language_variants ← to_bundle_variants (variants_for_language (v ∷ compatible) language)
    ok (
        some (record {
          message_id = msg.id;
          version = msg.version;
          priority = msg.priority;
          expires_at = msg.window.until;
          control_policy = msg.control_policy;
          triggers = msg.triggers;
          display_conditions = msg.display_conditions;
          holdout_fraction = msg.holdout_fraction;
          experiment_salt = msg.experiment_salt;
          fallback_variant = fallback;
          language_variants = language_variants;
        }))

  abbrev has_variants : List Variant → Bool
  has_variants [] = false
  has_variants (v ∷ variants) = true

  unfoldable pub to_bundle_message :
      StoredMessage o → String → ℕ → Result BundleError (Option (BundleMessage o))
  to_bundle_message msg language declared_major =
      if has_variants msg.variants
      then bundle_of msg language (variants_supporting_major msg.variants declared_major)
      else err (no_variants msg.id)

  abbrev pub audience_in : Option String → List String → Bool
  audience_in none segment_ids = false
  audience_in (some segment) segment_ids = contains segment segment_ids

  -- The condition of the query, and its order.
  abbrev pub is_eligible : List String → ℕ → StoredMessage o → Bool
  is_eligible segment_ids now m =
      same_state m.state active
      && (leb m.window.start now
          && (ltb now m.window.until && audience_in m.audience_ref segment_ids))

  abbrev pub goes_first : StoredMessage o → StoredMessage o → Bool
  goes_first a b =
      if eqb_ℤ a.priority b.priority then str_lt a.id b.id else ltb_ℤ b.priority a.priority

  unfoldable pub insert_message : StoredMessage o → List (StoredMessage o) → List (StoredMessage o)
  insert_message m [] = m ∷ []
  insert_message m (x ∷ messages) =
      let later = insert_message m messages in
      if goes_first x m then x ∷ later else m ∷ x ∷ messages

  unfoldable pub eligible_messages :
      List String → ℕ → List (StoredMessage o) → List (StoredMessage o)
  eligible_messages segment_ids now [] = []
  eligible_messages segment_ids now (m ∷ messages) =
      let rest = eligible_messages segment_ids now messages in
      if is_eligible segment_ids now m then insert_message m rest else rest

  abbrev pub eligible_message_ids : List String → ℕ → List (StoredMessage o) → List String
  eligible_message_ids segment_ids now messages =
      map (λ m. m.id) (eligible_messages segment_ids now messages)

  unfoldable pub get_message :
      List (StoredMessage o) → String → Result BundleError (StoredMessage o)
  get_message [] id = err (not_found id)
  get_message (m ∷ messages) id = if str_eq m.id id then ok m else get_message messages id

  abbrev pub add_included :
      Option (BundleMessage o) → List (BundleMessage o) → List (BundleMessage o)
  add_included none rest = rest
  add_included (some bm) rest = bm ∷ rest

  -- The loop of `assembleShared`.
  unfoldable pub load_all :
      (String → Result BundleError (StoredMessage o))
      → String
      → ℕ
      → List String
      → Result BundleError (List (BundleMessage o))
  load_all get language declared_major [] = ok []
  load_all get language declared_major (id ∷ ids) = do
    msg ← get id
    included ← to_bundle_message msg language declared_major
    rest ← load_all get language declared_major ids
    ok (add_included included rest)

  unfoldable pub assemble_shared :
      List (StoredMessage o)
      → List String
      → String
      → ℕ
      → ℕ
      → Result BundleError (List (BundleMessage o))
  assemble_shared messages [] language declared_major now = ok []
  assemble_shared messages (s ∷ segment_ids) language declared_major now =
      load_all (get_message messages) language declared_major
        (eligible_message_ids (s ∷ segment_ids) now messages)
