-- ===== src/Definition/Lifecycle.antt =====
-- `MessageState` and `CanTransition` of internal/definition/model/message.go.
use citywalk.Prelude.{
  ℕ, zero, suc, ◌≤◌, ◌==◌, ==_iff, sym, ap, subst, ◌∙◌, All, Bool-cases, arith, ◌≡◌, refl, Bool,
  true, false, ◌||◌, List, [], ◌∷◌, inl, inr,
}

pub data MessageState : Type 0 where
  draft : MessageState
  scheduled : MessageState
  active : MessageState
  paused : MessageState
  completed : MessageState
  archived : MessageState

unfoldable pub forward_message_states : MessageState → List MessageState
forward_message_states draft = draft ∷ scheduled ∷ active ∷ archived ∷ []
forward_message_states scheduled = scheduled ∷ active ∷ paused ∷ archived ∷ []
forward_message_states active = active ∷ paused ∷ completed ∷ archived ∷ []
forward_message_states paused = paused ∷ active ∷ completed ∷ archived ∷ []
forward_message_states completed = completed ∷ archived ∷ []
forward_message_states archived = archived ∷ []

-- A number for each state, and the state of a number.
abbrev pub code : MessageState → ℕ
code draft = 0
code scheduled = 1
code active = 2
code paused = 3
code completed = 4
code archived = 5

abbrev decode : ℕ → MessageState
decode zero = draft
decode (suc zero) = scheduled
decode (suc (suc zero)) = active
decode (suc (suc (suc zero))) = paused
decode (suc (suc (suc (suc zero)))) = completed
decode _ = archived

decode-code : (s : MessageState) → decode (code s) ≡ s
decode-code draft = refl
decode-code scheduled = refl
decode-code active = refl
decode-code paused = refl
decode-code completed = refl
decode-code archived = refl

abbrev pub same_state : MessageState → MessageState → Bool
same_state s t = code s == code t

same_state-eq : (s t : MessageState) → same_state s t ≡ true → s ≡ t
same_state-eq s t h =
    sym (decode-code s) ∙ ap decode ((==_iff (code s) (code t)).0 h) ∙ decode-code t

abbrev pub is_listed : MessageState → List MessageState → Bool
is_listed state [] = false
is_listed state (allowed ∷ others) = same_state allowed state || is_listed state others

unfoldable pub can_transition : MessageState → MessageState → Bool
can_transition s t = is_listed t (forward_message_states s)

-- A save after a save, each of which the lifecycle admits.
pub data Reaches : MessageState → MessageState → Type 0 where
  here : (s : MessageState) → Reaches s s
  then_to : (s t u : MessageState) → can_transition s t ≡ true → Reaches t u → Reaches s u

-- The stages of a campaign, in which active and paused are one.
abbrev pub stage : MessageState → ℕ
stage draft = 0
stage scheduled = 1
stage active = 2
stage paused = 2
stage completed = 3
stage archived = 4

listed-All :
    (P : MessageState → Type 0) (t : MessageState) (states : List MessageState)
    → is_listed t states ≡ true
    → All P states
    → P t
listed-All P t [] h a = absurd (ground (arith, h))
listed-All P t (s ∷ states) h a = elim (Bool-cases (same_state s t)) [
  | inl same ↦ subst P (same_state-eq s t same) a.0
  | inr other ↦ listed-All P t states (rw other at h) a.1
]

forward_stages : (s : MessageState) → All (λ t. stage s ≤ stage t) (forward_message_states s)
unfolding forward_message_states
forward_stages draft = (omega arith, (omega arith, (omega arith, (omega arith, tt))))
forward_stages scheduled = (omega arith, (omega arith, (omega arith, (omega arith, tt))))
forward_stages active = (omega arith, (omega arith, (omega arith, (omega arith, tt))))
forward_stages paused = (omega arith, (omega arith, (omega arith, (omega arith, tt))))
forward_stages completed = (omega arith, (omega arith, tt))
forward_stages archived = (omega arith, tt)

-- No sequence of admitted saves takes a campaign to an earlier stage of draft, scheduled, active or
-- paused, completed, archived.
pub Reaches-stage : (s t : MessageState) → Reaches s t → stage s ≤ stage t
unfolding can_transition
Reaches-stage s t (here _) = omega arith
Reaches-stage s u (then_to _ t _ allowed rest) = omega (
  arith,
  listed-All (λ x. stage s ≤ stage x) t (forward_message_states s) allowed (forward_stages s),
  Reaches-stage t u rest,
)
