-- ===== src/Definition/Accepted.antt =====
-- What a message is that a save admits.
use text.Mathlib.Text.{starts_with}
use citywalk.Prelude.{
  ℕ, ◌<◌, String, ◌≡◌, ◌↔◌, ◌⊎◌, inl, inr, refl, Bool, true, false, not, Option, none, some, List,
  [], str_eq, eq_iff, ltb, All, Bool-cases, arith, ltb→lt, lt→ltb,
}
use citywalk.Prelude.Int.{pos}
use citywalk.Definition.Model.{
  supports_schema_major, Action, open_link, Button, Content, dialog, banner, full_screen, html,
  sequence, Variant, Window, Message,
}
use citywalk.Definition.Validate.{
  Violation, check, each, forbidden_html_schemes, validate_temporal_sanity,
  validate_variant_weights, validate_schema_version, visited, buttons_of, media_of, check_action,
  check_content, validate_content_security, check_media, validate_media_ref, validate_audience_ref,
  Environment, validate_variant, validate,
}
use citywalk.Definition.Weights.{
  weight_sum, append-nil_iff, check-nil_iff, each-nil_iff, validate_variant_weights_iff,
}

-- A link that a button opens has the allowed scheme; a text of HTML has none of the forbidden ones.
abbrev pub IsSafeAction : Environment → Action → Type 0
IsSafeAction env (open_link url) = starts_with (env.to_lower url) "https://" ≡ true
IsSafeAction env _ = Unit

abbrev pub IsSafeContent : Environment → Content → Type 0
IsSafeContent env (html text) =
    All (λ scheme. env.has_text (env.to_lower text) scheme ≡ false) forbidden_html_schemes
IsSafeContent env c = All (λ (b : Button). All (IsSafeAction env) b.actions) (buttons_of c)

abbrev pub IsStoredMedia : Environment → Option String → Type 0
IsStoredMedia env none = Unit
IsStoredMedia env (some url) = env.is_content_addressed_url url ≡ true

abbrev pub IsAdmissibleVariant : Environment → Variant → Type 0
IsAdmissibleVariant env v =
    (v.schema_version.major ≡ 1)
    × (All (IsSafeContent env) (visited v.content)
        × All (λ c. IsStoredMedia env (media_of c)) (visited v.content))

pub record IsAdmissible (env : Environment) (message : Message) (now : ℕ) : Type 0 where
  pub opens_first : message.window.start < message.window.until
  pub still_open : now < message.window.until
  pub weights : All (λ v. weight_sum (pos 0) v.language message.variants ≡ pos 100) message.variants
  pub variants : All (IsAdmissibleVariant env) message.variants
  pub audience : (message.audience_ref ≡ "") ⊎ (env.segment_exists message.audience_ref ≡ true)

check_action_iff :
    (env : Environment) (id label : String) (a : Action)
    → (check_action env.to_lower env.has_text id label a ≡ []) ↔ IsSafeAction env a
check_action_iff env id label (open_link url) = check-nil_iff _ _
check_action_iff env id label Action.close = (λ h. tt, λ h. refl)
check_action_iff env id label (Action.navigate d) = (λ h. tt, λ h. refl)
check_action_iff env id label (Action.emit_event n ps) = (λ h. tt, λ h. refl)
check_action_iff env id label (Action.set_attribute k v) = (λ h. tt, λ h. refl)

not_iff : (b : Bool) → (not b ≡ true) ↔ (b ≡ false)
not_iff b = ground arith

buttons_iff :
    (env : Environment) (id : String) (buttons : List Button)
    → (each
          (λ (b : Button). each (check_action env.to_lower env.has_text id b.label) b.actions)
          buttons
        ≡ [])
      ↔ All (λ (b : Button). All (IsSafeAction env) b.actions) buttons
buttons_iff env id =
    each-nil_iff _ _ (λ b. each-nil_iff _ _ (check_action_iff env id b.label) b.actions)

check_content_iff :
    (env : Environment) (id : String) (c : Content)
    → (check_content env.to_lower env.has_text id c ≡ []) ↔ IsSafeContent env c
check_content_iff env id (html text) =
    each-nil_iff _ _
      (λ scheme.
        let c =
          check-nil_iff (not (env.has_text (env.to_lower text) scheme))
            (Violation.forbidden_scheme id scheme) in
        let n = not_iff (env.has_text (env.to_lower text) scheme) in
        (λ h. n.0 (c.0 h), λ h. c.1 (n.1 h)))
      forbidden_html_schemes
check_content_iff env id (dialog p) = buttons_iff env id p.buttons
check_content_iff env id (banner p e) = buttons_iff env id p.buttons
check_content_iff env id (full_screen p) = buttons_iff env id p.buttons
check_content_iff env id (sequence s) = (λ h. tt, λ h. refl)

check_media_iff :
    (env : Environment) (id : String) (m : Option String)
    → (check_media env.is_content_addressed_url id m ≡ []) ↔ IsStoredMedia env m
check_media_iff env id none = (λ h. tt, λ h. refl)
check_media_iff env id (some url) = check-nil_iff _ _

major_iff : (n : ℕ) → (supports_schema_major n ≡ true) ↔ (n ≡ 1)
unfolding supports_schema_major
major_iff n = ground arith

validate_variant_iff :
    (env : Environment) (v : Variant) → (validate_variant env v ≡ []) ↔ IsAdmissibleVariant env v
unfolding validate_schema_version validate_content_security validate_media_ref
validate_variant_iff env v =
    let first = append-nil_iff (validate_schema_version v) _ in
    let second =
      append-nil_iff (validate_content_security env.to_lower env.has_text v)
        (validate_media_ref env.is_content_addressed_url v) in
    let major =
      check-nil_iff (supports_schema_major v.schema_version.major)
        (Violation.schema_major v.id v.schema_version.major) in
    let number = major_iff v.schema_version.major in
    let safe = each-nil_iff _ _ (check_content_iff env v.id) (visited v.content) in
    let media = each-nil_iff _ _ (λ c. check_media_iff env v.id (media_of c)) (visited v.content) in
    (
      λ h. (
        number.0 (major.0 (first.0 h).0),
        (safe.0 (second.0 (first.0 h).1).0, media.0 (second.0 (first.0 h).1).1),
      ),
      λ p. first.1 (major.1 (number.1 p.0), second.1 (safe.1 p.1.0, media.1 p.1.1)),
    )

audience_iff :
    (exists_in : String → Bool) (ref : String)
    → (validate_audience_ref exists_in ref ≡ []) ↔ ((ref ≡ "") ⊎ (exists_in ref ≡ true))
unfolding validate_audience_ref
audience_iff exists_in ref = elim (Bool-cases (str_eq ref "")) [
  | inl everyone ↦ rw everyone (λ h. inl ((eq_iff ref "").0 everyone), λ h. refl)
  | inr named ↦ rw named (
      let c = check-nil_iff (exists_in ref) (Violation.unknown_audience ref) in
      (
        λ h. inr (c.0 h),
        λ h. elim h [
          | inl empty_ref ↦ absurd (ground (arith, named, (eq_iff ref "").1 empty_ref))
          | inr known ↦ c.1 known
        ],
      ))
]

window_iff :
    (w : Window) (now : ℕ)
    → (validate_temporal_sanity w now ≡ []) ↔ ((w.start < w.until) × (now < w.until))
unfolding validate_temporal_sanity
window_iff w now =
    let first =
      append-nil_iff (check (ltb w.start w.until) Violation.window_order)
        (check (ltb now w.until) Violation.window_closed) in
    let opens = check-nil_iff (ltb w.start w.until) Violation.window_order in
    let closes = check-nil_iff (ltb now w.until) Violation.window_closed in
    (
      λ h. (ltb→lt _ _ (opens.0 (first.0 h).0), ltb→lt _ _ (closes.0 (first.0 h).1)),
      λ p. first.1 (opens.1 (lt→ltb _ _ p.0), closes.1 (lt→ltb _ _ p.1)),
    )

-- A save reports no violation exactly where the message is admissible: its window opens before it
-- closes and has not closed, the weights of each language of a variant, added up as 64-bit integers that wrap, give 100, each variant
-- has the schema's major version 1, only safe links and HTML and only content-addressed media in each
-- content that is visited, and its audience, unless empty, exists.
pub validate-IsAdmissible :
    (env : Environment) (message : Message) (now : ℕ)
    → (validate env message now ≡ []) ↔ IsAdmissible env message now
unfolding validate
validate-IsAdmissible env message now =
    let first = append-nil_iff (validate_temporal_sanity message.window now) _ in
    let second = append-nil_iff (validate_variant_weights message.variants) _ in
    let third =
      append-nil_iff (each (validate_variant env) message.variants)
        (validate_audience_ref env.segment_exists message.audience_ref) in
    let window = window_iff message.window now in
    let weight = validate_variant_weights_iff message.variants in
    let variant = each-nil_iff _ _ (validate_variant_iff env) message.variants in
    let audience = audience_iff env.segment_exists message.audience_ref in
    (
      λ h.
          let (w, rest) = first.0 h in
          let (s, rest') = second.0 rest in
          let (v, a) = third.0 rest' in
          record {
            opens_first = (window.0 w).0;
            still_open = (window.0 w).1;
            weights = weight.0 s;
            variants = variant.0 v;
            audience = audience.0 a;
          },
      λ (ok_message : IsAdmissible env message now). first.1 (
        window.1 (ok_message.opens_first, ok_message.still_open),
        second.1 (
          weight.1 ok_message.weights,
          third.1 (variant.1 ok_message.variants, audience.1 ok_message.audience),
        ),
      ),
    )
