-- ===== src/Delivery/Edits.antt =====
-- The edit of a campaign: `UpdateState` of internal/definition/store/store.go and the handler
-- `UpdateMessageState` of internal/platform/connectserver/admin.go. The caller is authenticated and
-- Redis is set. `UpdateState` is one transaction.
use citywalk.Prelude.{
  ℕ, String, List, [], ◌∷◌, ◌++◌, str_eq, Result, ok, err, ◌>>=◌, wrap, if◌then◌else◌,
}
use citywalk.Definition.Lifecycle.{MessageState, active, can_transition, same_state}
use citywalk.Delivery.Changelog.{ChangeLog, Kind, upsert, tombstone, record_change}
use citywalk.Delivery.Bundle.{Outside, BundleError, StoredMessage, get_message}
use citywalk.Delivery.Cache.{Redis, invalidate_campaign}

pub record AuditEntry : Type 0 where
  pub message_id : String
  pub from_state : MessageState
  pub to_state : MessageState
  pub actor : String
  pub occurred_at : ℕ

-- The tables, and the cache.
pub record Platform (o : Outside) : Type 0 where
  pub messages : List (StoredMessage o)
  pub audit_log : List AuditEntry
  pub change_log : ChangeLog
  pub redis : Redis o

pub data EditError : Type 0 where
  failed_precondition : String → EditError
  internal : BundleError → EditError

module _ (o : Outside) where
  abbrev pub with_state : MessageState → StoredMessage o → StoredMessage o
  with_state new_state m = record {
    id = m.id;
    state = new_state;
    priority = m.priority;
    window = m.window;
    version = m.version;
    audience_ref = m.audience_ref;
    control_policy = m.control_policy;
    holdout_fraction = m.holdout_fraction;
    experiment_salt = m.experiment_salt;
    triggers = m.triggers;
    display_conditions = m.display_conditions;
    variants = m.variants;
  }

  -- `UPDATE messages SET state = $1 WHERE id = $3`.
  unfoldable pub set_state : String → MessageState → List (StoredMessage o) → List (StoredMessage o)
  set_state id new_state [] = []
  set_state id new_state (m ∷ messages) =
      (if str_eq m.id id then with_state new_state m else m) ∷ set_state id new_state messages

  -- The two writes of the transaction.
  abbrev pub moved : String → MessageState → String → ℕ → MessageState → Platform o → Platform o
  moved message_id new_state actor now from p = record {
    messages = set_state message_id new_state p.messages;
    audit_log =
        p.audit_log
        ++ record {
          message_id = message_id;
          from_state = from;
          to_state = new_state;
          actor = actor;
          occurred_at = now;
        }
          ∷ [];
    change_log = p.change_log;
    redis = p.redis;
  }

  unfoldable pub update_state :
      String → MessageState → String → ℕ → Platform o → Result EditError (Platform o)
  update_state message_id new_state actor now p = do
    m ← wrap (λ e. failed_precondition message_id) (get_message o p.messages message_id)
    (if can_transition m.state new_state
        then ok (moved message_id new_state actor now m.state p)
        else err (failed_precondition message_id))

  abbrev pub kind_of : MessageState → Kind
  kind_of new_state = if same_state new_state active then upsert else tombstone

  abbrev pub with_change : String → Kind → ℕ → Platform o → Platform o
  with_change message_id kind now p = record {
    messages = p.messages;
    audit_log = p.audit_log;
    change_log = record_change message_id kind now p.change_log;
    redis = p.redis;
  }

  abbrev pub with_redis : Redis o → Platform o → Platform o
  with_redis redis p = record {
    messages = p.messages;
    audit_log = p.audit_log;
    change_log = p.change_log;
    redis = redis;
  }

  abbrev pub invalidated : String → Platform o → Result EditError (Platform o)
  invalidated message_id p = do
    redis ← wrap (λ e. internal e) (invalidate_campaign o p.messages message_id p.redis)
    ok (with_redis redis p)

  unfoldable pub update_message_state :
      String → MessageState → String → ℕ → Platform o → Result EditError (Platform o)
  update_message_state message_id new_state subject now p = do
    updated ← update_state message_id new_state subject now p
    invalidated message_id (with_change message_id (kind_of new_state) now updated)
