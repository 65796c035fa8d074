-- ===== src/Delivery/Confirm.antt =====
-- `Confirm` of internal/delivery/confirm/confirm.go, on the rows of the messages. A failing query is not
-- modelled.
use citywalk.Prelude.{
  ℕ, String, Bool, true, false, ◌||◌, not, List, Result, ok, ◌>>=◌, ltb, if◌then◌else◌,
}
use citywalk.Definition.Lifecycle.{active, same_state}
use citywalk.Delivery.Bundle.{Outside, BundleError, StoredMessage, get_message}

module _ (o : Outside) where
  abbrev confirmed_at : ℕ → StoredMessage o → Bool
  confirmed_at now m =
      if not (same_state m.state active)
      then false
      else if ltb now m.window.start || not (ltb now m.window.until)
      then false
      else true

  unfoldable pub confirm : List (StoredMessage o) → String → ℕ → Result BundleError Bool
  confirm messages message_id now = do
    m ← get_message o messages message_id
    ok (confirmed_at now m)
