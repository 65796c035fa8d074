-- ===== src/Definition/Model.antt =====
-- internal/definition/model: the types of a message. Times are nanoseconds since Go's zero time, of
-- UTC. The corner radius of a presentation, a float that nothing reads, and the holdout fraction of a
-- message are left out.
use citywalk.Prelude.{ℕ, String, Bool, false, ◌||◌, Option, List, [], ◌∷◌, ◌==◌}
use citywalk.Prelude.Int.{ℤ}

pub record SchemaVersion : Type 0 where
  pub major : ℕ
  pub minor : ℕ

abbrev pub current_major : ℕ
current_major = 1

abbrev pub supported_majors : List ℕ
supported_majors = current_major ∷ []

abbrev pub is_one_of : ℕ → List ℕ → Bool
is_one_of n [] = false
is_one_of n (m ∷ ms) = m == n || is_one_of n ms

unfoldable pub supports_schema_major : ℕ → Bool
supports_schema_major major = is_one_of major supported_majors

unfoldable pub supports_major : SchemaVersion → ℕ → Bool
supports_major v declared_major = v.major == declared_major

pub data Action : Type 0 where
  close : Action
  open_link : String → Action
  navigate : String → Action
  emit_event : String → List (String × String) → Action
  set_attribute : String → String → Action

pub record Button : Type 0 where
  pub label : String
  pub actions : List Action

pub record Colors : Type 0 where
  pub background : String
  pub text : String

-- The media reference is its URL.
pub record Presentation : Type 0 where
  pub heading : String
  pub body : String
  pub media : Option String
  pub buttons : List Button
  pub colors : Colors
  pub auto_close_delay_seconds : Option ℤ

pub data Edge : Type 0 where
  top : Edge
  bottom : Edge

-- The members of Go's `Content`; the steps of a sequence are contents again.
mutual
  pub data Content : Type 0 where
    dialog : Presentation → Content
    banner : Presentation → Edge → Content
    full_screen : Presentation → Content
    html : String → Content
    sequence : Steps → Content

  pub data Steps : Type 0 where
    no_steps : Steps
    step : Content → Steps → Steps

pub record Variant : Type 0 where
  pub id : String
  pub weight : ℤ
  pub language : String
  pub schema_version : SchemaVersion
  pub content : Content

pub record Window : Type 0 where
  pub start : ℕ
  pub until : ℕ

-- The fields of `Message` that the checks of a save read.
pub record Message : Type 0 where
  pub window : Window
  pub audience_ref : String
  pub variants : List Variant

pub record Trigger : Type 0 where
  pub id : String
  pub kind : String
  pub occurrence_goal : ℤ
  pub event_predicate : String

pub data ScreenFilterMode : Type 0 where
  allow : ScreenFilterMode
  deny : ScreenFilterMode

pub data ConnectivityRequirement : Type 0 where
  any : ConnectivityRequirement
  online : ConnectivityRequirement

pub record DisplayCondition : Type 0 where
  pub delay : ℤ
  pub screen_filter_mode : ScreenFilterMode
  pub screens : List String
  pub connectivity_required : ConnectivityRequirement

pub record ControlPolicy : Type 0 where
  pub per_message_cap : ℤ
  pub min_interval_between : ℤ
  pub exempt_from_project_cap : Bool
  pub requires_server_confirmation : Bool
