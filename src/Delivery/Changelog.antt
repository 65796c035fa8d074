-- ===== src/Delivery/Changelog.antt =====
-- internal/delivery/changelog: the log of changes of messages, in the order of seq, which Postgres
-- counts up from 1. Times are nanoseconds since Go's zero time. A failing query is not modelled.
use citywalk.Prelude.{ℕ, suc, ◌-◌, ◌*◌, ◌^◌, String, List, [], ◌∷◌, ◌++◌, ltb, if◌then◌else◌}

pub data Kind : Type 0 where
  upsert : Kind
  tombstone : Kind

-- Seven days.
abbrev pub retention : ℕ
retention = 7 * (24 * (3600 * 10 ^ 9))

pub record Change : Type 0 where
  pub seq : ℕ
  pub message_id : String
  pub kind : Kind
  pub occurred_at : ℕ

-- The table, and the seq that the next row gets.
pub record ChangeLog : Type 0 where
  pub rows : List Change
  pub next_seq : ℕ

unfoldable pub prune : ℕ → List Change → List Change
prune before [] = []
prune before (c ∷ rows) =
    let rest = prune before rows in if ltb c.occurred_at before then rest else c ∷ rest

-- `Record`: the insertion, and the deletion of the rows past the retention.
unfoldable pub record_change : String → Kind → ℕ → ChangeLog → ChangeLog
record_change message_id kind occurred_at log = record {
  rows = prune (occurred_at - retention) (
      log.rows
      ++ record {
        seq = log.next_seq;
        message_id = message_id;
        kind = kind;
        occurred_at = occurred_at;
      }
        ∷ []);
  next_seq = suc log.next_seq;
}

-- The highest seq of the rows, 0 for none.
unfoldable pub current_seq : List Change → ℕ
current_seq [] = 0
current_seq (c ∷ rows) =
    let highest = current_seq rows in if ltb highest c.seq then c.seq else highest

unfoldable pub changes_since : ℕ → List Change → List Change
changes_since after_seq [] = []
changes_since after_seq (c ∷ rows) =
    let rest = changes_since after_seq rows in if ltb after_seq c.seq then c ∷ rest else rest
