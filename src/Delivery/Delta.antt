-- ===== src/Delivery/Delta.antt =====
-- `computeDelta` of internal/delivery/deliver/deliver.go. The cursor of the device comes decoded, none
-- where it does not decode; the channel's membership hash and the table of the window starts are
-- arguments. Go's map of the latest kinds is the list of its keys and a function.
use citywalk.Prelude.{
  ℕ, ◌-◌, String, Bool, true, false, not, ◌&&◌, ◌||◌, Option, none, some, List, [], ◌∷◌, map,
  str_eq, leb, contains, if◌then◌else◌,
}
use citywalk.Delivery.Payload.{Entry}
use citywalk.Delivery.Changelog.{Kind, tombstone, Change, retention, current_seq, changes_since}

-- `Cursor` of internal/delivery/cursor/cursor.go.
pub record Cursor : Type 0 where
  pub seq : ℕ
  pub membership_hash : String
  pub issued_at : ℕ

pub record Latest : Type 0 where
  pub keys : List String
  pub kind_of : String → Option Kind

abbrev pub no_latest : Latest
no_latest = record { keys = []; kind_of = λ m. none }

-- `latestKind[c.MessageID] = c.Kind`.
abbrev pub put_latest : Change → Latest → Latest
put_latest c l = record {
  keys = if contains c.message_id l.keys then l.keys else c.message_id ∷ l.keys;
  kind_of = λ m. if str_eq m c.message_id then some c.kind else l.kind_of m;
}

unfoldable pub latest_kinds : List Change → Latest → Latest
latest_kinds [] l = l
latest_kinds (c ∷ changes) l = latest_kinds changes (put_latest c l)

abbrev pub entry_message_ids : List Entry → List String
entry_message_ids = map (λ e. e.message_id)

abbrev pub is_some : Option Kind → Bool
is_some none = false
is_some (some k) = true

abbrev pub is_tombstone : Option Kind → Bool
is_tombstone (some tombstone) = true
is_tombstone _ = false

-- The test of the loop over the entries: changed, or in a window that opened since the cursor.
abbrev pub must_send : Latest → (String → ℕ) → Cursor → String → Bool
must_send latest window_starts cursor m =
    is_some (latest.kind_of m) || leb cursor.issued_at (window_starts m)

unfoldable pub delta_entries : Latest → (String → ℕ) → Cursor → List Entry → List Entry
delta_entries latest window_starts cursor [] = []
delta_entries latest window_starts cursor (e ∷ entries) =
    let rest = delta_entries latest window_starts cursor entries in
    if must_send latest window_starts cursor e.message_id then e ∷ rest else rest

unfoldable pub delta_tombstones : Latest → List String → List String → List String
delta_tombstones latest in_now [] = []
delta_tombstones latest in_now (m ∷ keys) =
    let rest = delta_tombstones latest in_now keys in
    if is_tombstone (latest.kind_of m) && not (contains m in_now) then m ∷ rest else rest

pub record DeltaResult : Type 0 where
  pub entries : List Entry
  pub tombstones : List String

abbrev pub is_honorable : String → ℕ → ℕ → Cursor → Bool
is_honorable membership_hash newest now cursor =
    str_eq cursor.membership_hash membership_hash
    && (leb cursor.seq newest && leb (now - retention) cursor.issued_at)

-- The delta for a cursor that can be honored.
unfoldable pub delta_since : Cursor → List Change → (String → ℕ) → List Entry → DeltaResult
delta_since cursor rows window_starts entries =
    let latest = latest_kinds (changes_since cursor.seq rows) no_latest in
    record {
      entries = delta_entries latest window_starts cursor entries;
      tombstones = delta_tombstones latest (entry_message_ids entries) latest.keys;
    }

-- `computeDelta`: the fresh cursor, and the delta, none where the payload goes out whole.
unfoldable pub compute_delta :
    String
    → List Change
    → (String → ℕ)
    → List Entry
    → Option Cursor
    → ℕ
    → Cursor × Option DeltaResult
compute_delta membership_hash rows window_starts entries client_cursor now = (
  record { seq = current_seq rows; membership_hash = membership_hash; issued_at = now },
  answer client_cursor,
)
  where
    answer : Option Cursor → Option DeltaResult
    answer none = none
    answer (some cursor) =
        if is_honorable membership_hash (current_seq rows) now cursor
        then some (delta_since cursor rows window_starts entries)
        else none
