-- ===== src/Definition/Scenarios.antt =====
-- Runs and examples of the lifecycle and of the checks of a save.
use citywalk.Prelude.{◌≤◌, String, ◌≡◌, ◌↔◌, refl, true, false, none, [], ◌∷◌}
use citywalk.Prelude.Int.{ℤ, pos, negsuc, add64}
use citywalk.Definition.Model.{supports_schema_major, Action, Content, dialog, Variant, Message}
use citywalk.Definition.Lifecycle.{
  draft, active, paused, forward_message_states, can_transition, Reaches, here, then_to, stage,
  Reaches-stage,
}
use citywalk.Definition.Validate.{
  Environment, validate, validate_temporal_sanity, validate_variant_weights, totals,
  validate_schema_version, validate_content_security, visited, validate_media_ref,
  validate_audience_ref,
}
use citywalk.Definition.Accepted.{IsAdmissible, validate-IsAdmissible}

run_and_pause : Reaches draft paused
unfolding can_transition forward_message_states
run_and_pause = then_to draft active paused refl (then_to active paused paused refl (here paused))

Reaches-stage_example : stage draft ≤ stage paused
Reaches-stage_example = Reaches-stage draft paused run_and_pause

-- Texts without letters in upper case, with no scheme inside; every reference exists.
abbrev plain : Environment
plain = record {
  to_lower = λ s. s;
  has_text = λ s t. false;
  is_content_addressed_url = λ s. true;
  segment_exists = λ s. true;
}

abbrev greeting : Content
greeting = dialog (record {
  heading = "Hello";
  body = "Welcome back";
  media = none;
  buttons = record { label = "Go"; actions = Action.open_link "https://example.com" ∷ [] } ∷ [];
  colors = record { background = "#fff"; text = "#000" };
  auto_close_delay_seconds = none;
})

abbrev arm : String → ℤ → Variant
arm id weight = record {
  id = id;
  weight = weight;
  language = "en";
  schema_version = record { major = 1; minor = 0 };
  content = greeting;
}

abbrev campaign : Message
campaign = record {
  window = record { start = 10; until = 20 };
  audience_ref = "";
  variants = arm "a" (pos 60) ∷ arm "b" (pos 40) ∷ [];
}

campaign_test : validate plain campaign 12 ≡ []
unfolding validate validate_temporal_sanity validate_variant_weights totals add64
    validate_schema_version supports_schema_major validate_content_security visited
    validate_media_ref validate_audience_ref
campaign_test = refl

-- A negative weight passes, as long as the sum is right.
negative_test :
    validate plain (record campaign { variants = arm "a" (pos 150) ∷ arm "b" (negsuc 49) ∷ [] }) 12
    ≡ []
unfolding validate validate_temporal_sanity validate_variant_weights totals add64
    validate_schema_version supports_schema_major validate_content_security visited
    validate_media_ref validate_audience_ref
negative_test = refl

validate-IsAdmissible_example : (validate plain campaign 12 ≡ []) ↔ IsAdmissible plain campaign 12
validate-IsAdmissible_example = validate-IsAdmissible plain campaign 12
