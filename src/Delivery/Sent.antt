-- ===== src/Delivery/Sent.antt =====
-- Which messages a delta sends and which it removes.
use citywalk.Prelude.{
  ℕ, String, ◌≡◌, refl, sym, ap, subst, ◌∙◌, Bool, true, false, not, ◌&&◌, ◌||◌, Option, none, some,
  List, [], ◌∷◌, str_eq, eq_iff, leb, contains, Bool-cases, arith, inl, inr, if◌then◌else◌,
}
use citywalk.Delivery.Payload.{Entry}
use citywalk.Delivery.Changelog.{Kind, Change, changes_since}
use citywalk.Delivery.Delta.{
  Cursor, Latest, no_latest, put_latest, latest_kinds, entry_message_ids, is_some, is_tombstone,
  must_send, delta_entries, delta_tombstones, delta_since,
}

-- The kind of the last change of a message, `before` if there is none.
abbrev pub last_kind : Option Kind → String → List Change → Option Kind
last_kind before m [] = before
last_kind before m (c ∷ changes) =
    last_kind (if str_eq m c.message_id then some c.kind else before) m changes

latest_kinds-kind_of :
    (m : String) (changes : List Change) (l : Latest)
    → (latest_kinds changes l).kind_of m ≡ last_kind (l.kind_of m) m changes
unfolding latest_kinds
latest_kinds-kind_of m [] l = refl
latest_kinds-kind_of m (c ∷ changes) l = latest_kinds-kind_of m changes (put_latest c l)

-- The keys of a map of kinds are those that have one.
abbrev Keyed : Latest → Type 0
Keyed l = (m : String) → contains m l.keys ≡ is_some (l.kind_of m)

put_latest-Keyed : (c : Change) (l : Latest) → Keyed l → Keyed (put_latest c l)
put_latest-Keyed c l k m = elim (Bool-cases (str_eq m c.message_id)) [
  | inl same ↦ elim (Bool-cases (contains c.message_id l.keys)) [
    | inl old ↦
        rw (old, same)
          (subst (λ (x : String). contains x l.keys ≡ true) (sym ((eq_iff m c.message_id).0 same))
            old)
    | inr new ↦ rw (new, same)
  ]
  | inr other ↦ elim (Bool-cases (contains c.message_id l.keys)) [
    | inl old ↦ rw (old, other) (k m)
    | inr new ↦ rw (new, other) (k m)
  ]
]

latest_kinds-Keyed : (changes : List Change) (l : Latest) → Keyed l → Keyed (latest_kinds changes l)
unfolding latest_kinds
latest_kinds-Keyed [] l k = k
latest_kinds-Keyed (c ∷ changes) l k =
    latest_kinds-Keyed changes (put_latest c l) (put_latest-Keyed c l k)

and-same :
    (b : Bool) (f : String → Bool) (m x : String)
    → (str_eq m x ≡ true → f x ≡ f m)
    → f x ≡ true
    → (str_eq m x || (b && f m)) ≡ ((str_eq m x || b) && f m)
and-same b f m x same h = ground (arith, same, h)

and-other :
    (b : Bool) (f : String → Bool) (m x : String)
    → (str_eq m x ≡ true → f x ≡ f m)
    → f x ≡ false
    → (b && f m) ≡ ((str_eq m x || b) && f m)
and-other b f m x same h = ground (arith, same, h)

-- A loop that keeps the ids that pass a test of the id.
delta_entries-ids :
    (latest : Latest) (window_starts : String → ℕ) (cursor : Cursor) (entries : List Entry)
    (m : String)
    → contains m (entry_message_ids (delta_entries latest window_starts cursor entries))
      ≡ (contains m (entry_message_ids entries) && must_send latest window_starts cursor m)
unfolding delta_entries
delta_entries-ids latest window_starts cursor [] m = refl
delta_entries-ids latest window_starts cursor (e ∷ entries) m =
    let ih = delta_entries-ids latest window_starts cursor entries m in
    let test = must_send latest window_starts cursor in
    let same : str_eq m e.message_id ≡ true → test e.message_id ≡ test m =
      λ h. ap test (sym ((eq_iff m e.message_id).0 h)) in
    elim (Bool-cases (test e.message_id)) [
      | inl sent ↦
          rw (sent, ih)
            (and-same (contains m (entry_message_ids entries)) test m e.message_id same sent)
      | inr not_sent ↦
          rw (not_sent, ih)
            (and-other (contains m (entry_message_ids entries)) test m e.message_id same not_sent)
    ]

delta_tombstones-ids :
    (latest : Latest) (in_now keys : List String) (m : String)
    → contains m (delta_tombstones latest in_now keys)
      ≡ (contains m keys && (is_tombstone (latest.kind_of m) && not (contains m in_now)))
unfolding delta_tombstones
delta_tombstones-ids latest in_now [] m = refl
delta_tombstones-ids latest in_now (x ∷ keys) m =
    let ih = delta_tombstones-ids latest in_now keys m in
    let test : String → Bool = λ y. is_tombstone (latest.kind_of y) && not (contains y in_now) in
    let same : str_eq m x ≡ true → test x ≡ test m = λ h. ap test (sym ((eq_iff m x).0 h)) in
    elim (Bool-cases (test x)) [
      | inl sent ↦ rw (sent, ih) (and-same (contains m keys) test m x same sent)
      | inr not_sent ↦ rw (not_sent, ih) (and-other (contains m keys) test m x same not_sent)
    ]

tombstone-keyed :
    (o : Option Kind) (b : Bool) → (is_some o && (is_tombstone o && b)) ≡ (is_tombstone o && b)
tombstone-keyed none b = refl
tombstone-keyed (some k) b = refl

-- The delta for a cursor sends a message of the current payload exactly where the log has a change of
-- it past the cursor, or its window opened no earlier than the cursor was issued; and it removes a
-- message exactly where the last such change of it is a tombstone and it is not in the current
-- payload.
pub delta_since-ids :
    (cursor : Cursor) (rows : List Change) (window_starts : String → ℕ) (entries : List Entry)
    (m : String)
    → let delta = delta_since cursor rows window_starts entries in
      let last = last_kind none m (changes_since cursor.seq rows) in
      (contains m (entry_message_ids delta.entries) ≡ (
        contains m (entry_message_ids entries)
        && (is_some last || leb cursor.issued_at (window_starts m))))
      × (contains m delta.tombstones
          ≡ (is_tombstone last && not (contains m (entry_message_ids entries))))
unfolding delta_since
delta_since-ids cursor rows window_starts entries m =
    let changes = changes_since cursor.seq rows in
    let latest = latest_kinds changes no_latest in
    let last = latest_kinds-kind_of m changes no_latest in
    (
      delta_entries-ids latest window_starts cursor entries m ∙ rw last,
      delta_tombstones-ids latest (entry_message_ids entries) latest.keys m
          ∙ rw (latest_kinds-Keyed changes no_latest (λ x. refl) m) (
              tombstone-keyed (latest.kind_of m) (not (contains m (entry_message_ids entries)))
              ∙ rw last),
    )
