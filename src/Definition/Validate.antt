-- ===== src/Definition/Validate.antt =====
-- internal/definition/validate/validate.go: the checks of a save. An error is a `Violation`, and the
-- joined error is the list of them, empty for Go's nil. Parameters: Go's strings.ToLower and
-- strings.Contains, the shape check of media URLs (net/url and regexp), and the lookup of a segment.
-- A query of Postgres that fails is not modelled. Weights add up without the wrap at 64 bits.
use text.Mathlib.Text.{starts_with}
use citywalk.Prelude.{
  ℕ, String, Bool, not, Option, none, some, List, [], ◌∷◌, ◌++◌, str_eq, ltb, contains,
  if◌then◌else◌,
}
use citywalk.Prelude.Int.{ℤ, pos, add64, eqb_ℤ}
use citywalk.Definition.Model.{
  supports_schema_major, Action, open_link, Button, Content, dialog, banner, full_screen, html,
  sequence, Steps, no_steps, step, Variant, Window, Message,
}

pub data Violation : Type 0 where
  window_order : Violation
  window_closed : Violation
  weight_total : String → ℤ → Violation
  schema_major : String → ℕ → Violation
  forbidden_scheme : String → String → Violation
  disallowed_link : String → String → String → Violation
  media_reference : String → String → Violation
  unknown_audience : String → Violation

abbrev pub check : Bool → Violation → List Violation
check passes violation = if passes then [] else violation ∷ []

-- Go's append of what each item reports.
abbrev pub each {ℓ} : {A : Type ℓ} → (A → List Violation) → List A → List Violation
each report [] = []
each report (x ∷ xs) = report x ++ each report xs

abbrev pub forbidden_html_schemes : List String
forbidden_html_schemes = "javascript:" ∷ "vbscript:" ∷ "data:text/html" ∷ []

unfoldable pub validate_temporal_sanity : Window → ℕ → List Violation
validate_temporal_sanity w now =
    check (ltb w.start w.until) window_order ++ check (ltb now w.until) window_closed

-- Go's map of totals: its keys, and the total of each, 0 for any other text. A total is an `int`, so it wraps.
pub record Totals : Type 0 where
  pub languages : List String
  pub total : String → ℤ

abbrev pub no_totals : Totals
no_totals = record { languages = []; total = λ l. pos 0 }

abbrev pub add_weight : Variant → Totals → Totals
add_weight v t = record {
  languages = if contains v.language t.languages then t.languages else v.language ∷ t.languages;
  total = λ l. if str_eq l v.language then add64 (t.total l) v.weight else t.total l;
}

unfoldable pub totals : List Variant → Totals → Totals
totals [] t = t
totals (v ∷ variants) t = totals variants (add_weight v t)

abbrev pub expected_variant_weight_total : ℤ
expected_variant_weight_total = pos 100

unfoldable pub validate_variant_weights : List Variant → List Violation
validate_variant_weights variants =
    let t = totals variants no_totals in
    each (λ l. check (eqb_ℤ (t.total l) expected_variant_weight_total) (weight_total l (t.total l)))
      t.languages

unfoldable pub validate_schema_version : Variant → List Violation
validate_schema_version v =
    check (supports_schema_major v.schema_version.major) (schema_major v.id v.schema_version.major)

abbrev pub steps_of : Steps → List Content
steps_of no_steps = []
steps_of (step c steps) = c ∷ steps_of steps

-- The contents that `walkContent` visits, in its order.
unfoldable pub visited : Content → List Content
visited (sequence steps) = sequence steps ∷ steps_of steps
visited c = c ∷ []

abbrev pub buttons_of : Content → List Button
buttons_of (dialog p) = p.buttons
buttons_of (banner p e) = p.buttons
buttons_of (full_screen p) = p.buttons
buttons_of _ = []

abbrev pub media_of : Content → Option String
media_of (dialog p) = p.media
media_of (banner p e) = p.media
media_of (full_screen p) = p.media
media_of _ = none

module _ (to_lower : String → String) (has_text : String → String → Bool) where
  abbrev pub has_allowed_scheme : String → Bool
  has_allowed_scheme url = starts_with (to_lower url) "https://"

  abbrev pub check_action : String → String → Action → List Violation
  check_action id label (open_link url) =
      check (has_allowed_scheme url) (disallowed_link id label url)
  check_action id label _ = []

  -- The callback of `validateContentSecurity`.
  abbrev pub check_content : String → Content → List Violation
  check_content id (html text) =
      each (λ scheme. check (not (has_text (to_lower text) scheme)) (forbidden_scheme id scheme))
        forbidden_html_schemes
  check_content id c =
      each (λ (b : Button). each (check_action id b.label) b.actions) (buttons_of c)

  unfoldable pub validate_content_security : Variant → List Violation
  validate_content_security v = each (check_content v.id) (visited v.content)

module _ (is_content_addressed_url : String → Bool) where
  abbrev pub check_media : String → Option String → List Violation
  check_media id none = []
  check_media id (some url) = check (is_content_addressed_url url) (media_reference id url)

  unfoldable pub validate_media_ref : Variant → List Violation
  validate_media_ref v = each (λ c. check_media v.id (media_of c)) (visited v.content)

unfoldable pub validate_audience_ref : (String → Bool) → String → List Violation
validate_audience_ref segment_exists audience_ref =
    if str_eq audience_ref ""
    then []
    else check (segment_exists audience_ref) (unknown_audience audience_ref)

-- What `Validate` takes from outside.
pub record Environment : Type 0 where
  pub to_lower : String → String
  pub has_text : String → String → Bool
  pub is_content_addressed_url : String → Bool
  pub segment_exists : String → Bool

abbrev pub validate_variant : Environment → Variant → List Violation
validate_variant env v =
    validate_schema_version v
    ++ (validate_content_security env.to_lower env.has_text v
        ++ validate_media_ref env.is_content_addressed_url v)

unfoldable pub validate : Environment → Message → ℕ → List Violation
validate env message now =
    validate_temporal_sanity message.window now
    ++ (validate_variant_weights message.variants
        ++ (each (validate_variant env) message.variants
            ++ validate_audience_ref env.segment_exists message.audience_ref))
