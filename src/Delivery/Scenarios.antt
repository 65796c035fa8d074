-- ===== src/Delivery/Scenarios.antt =====
-- Runs and examples of the delivery of payloads.
mod Bundles
use citywalk.Prelude.{
  arith, ℕ, ◌+◌, ◌<◌, String, ◌≡◌, ◌⊎◌, refl, false, not, ◌&&◌, ◌||◌, none, List, [], ◌∷◌, contains,
  leb, ◌*◌, ◌-◌, ◌/◌, ◌==◌, ltb, str_eq, if◌then◌else◌, ap,
}
use citywalk.Prelude.Int.{ℤ, pos, pos_part, add64, sub64}
use citywalk.Delivery.Payload.{Entry, truncate, truncate_from}
use citywalk.Delivery.Prefix.{IsLongestPrefix, truncate-IsLongestPrefix}
use citywalk.Delivery.Allocation.{
  Floats, share_of, shares_of, insert_share, sort_shares, hand_out, allocate_experiment_buckets,
}
use citywalk.Delivery.Allotted.{FloorExact}
use citywalk.Delivery.Changelog.{ChangeLog, current_seq, upsert, tombstone, Change, changes_since}
use citywalk.Delivery.Delta.{
  Cursor, entry_message_ids, is_some, is_tombstone, delta_since, delta_entries, delta_tombstones,
  latest_kinds,
}
use citywalk.Delivery.Retention.{Call, record_all, numbered, changes_since-current_seq}
use citywalk.Delivery.Sent.{last_kind, delta_since-ids}

abbrev entry : String → List ℕ → Entry
entry id content = record {
  message_id = id;
  version = pos 1;
  variant_id = "v";
  schema_version = record { major = 1; minor = 0 };
  priority = pos 0;
  content = content;
  triggers = [];
  display_conditions = [];
  control_policy = record {
    per_message_cap = pos 0;
    min_interval_between = pos 0;
    exempt_from_project_cap = false;
    requires_server_confirmation = false;
  };
  expires_at = 100;
}

abbrev three_entries : List Entry
three_entries = entry "m1" (1 ∷ 2 ∷ []) ∷ entry "m2" (3 ∷ []) ∷ entry "m3" (4 ∷ []) ∷ []

truncate_test : (truncate three_entries (pos 3)).1 ≡ 1
unfolding truncate truncate_from
truncate_test = refl

truncate-IsLongestPrefix_example :
    ((0 < 3)
      × IsLongestPrefix 0 3 three_entries
          (truncate three_entries (pos 3)).0
          (truncate three_entries (pos 3)).1)
    ⊎ ((pos_part (pos 3) ≡ 0) × (truncate three_entries (pos 3) ≡ (three_entries, 0)))
truncate-IsLongestPrefix_example = truncate-IsLongestPrefix three_entries (pos 3)

abbrev changes : List Change
changes =
    record { seq = 4; message_id = "m1"; kind = upsert; occurred_at = 50 }
    ∷ record { seq = 5; message_id = "m9"; kind = tombstone; occurred_at = 60 }
    ∷ []

abbrev device : Cursor
device = record { seq = 3; membership_hash = "h"; issued_at = 40 }

tombstones_test : (delta_since device changes (λ m. 10) three_entries).tombstones ≡ "m9" ∷ []
unfolding delta_since delta_tombstones latest_kinds changes_since
tombstones_test = refl

-- A message that the last payload had no room for and this one has: it is not in the delta.
readmitted_test : (delta_since device [] (λ m. 10) three_entries).entries ≡ []
unfolding delta_since delta_entries latest_kinds changes_since
readmitted_test = refl

delta_since-ids_example :
    let delta = delta_since device changes (λ m. 10) three_entries in
    let last = last_kind none "m1" (changes_since 3 changes) in
    (contains "m1" (entry_message_ids delta.entries)
      ≡ (contains "m1" (entry_message_ids three_entries) && (is_some last || leb 40 10)))
    × (contains "m1" delta.tombstones
        ≡ (is_tombstone last && not (contains "m1" (entry_message_ids three_entries))))
delta_since-ids_example = delta_since-ids device changes (λ m. 10) three_entries "m1"

abbrev change_log : ChangeLog
change_log = record { rows = changes; next_seq = 6 }

abbrev later : List Call
later =
    record { message_id = "m1"; kind = upsert; at = 80 }
    ∷ record { message_id = "m2"; kind = tombstone; at = 90 }
    ∷ []

below : current_seq changes < 6
unfolding current_seq
below = omega arith

changes_since-current_seq_example :
    changes_since (current_seq changes) (record_all later change_log).rows ≡ numbered 6 later
changes_since-current_seq_example =
    changes_since-current_seq 70 100 later change_log below (omega arith)
      ((omega arith, omega arith), ((omega arith, omega arith), tt))

-- Fractions in place of floats.
abbrev pub fractions : Floats
fractions = record {
  Float = ℤ × ℕ;
  of_int = λ n. (n, 1);
  mul = λ x y. (pos (pos_part x.0 * pos_part y.0), x.1 * y.1);
  div = λ x y. (pos (pos_part x.0 * y.1), x.1 * pos_part y.0);
  sub = λ x y. (pos (pos_part x.0 * y.1 - pos_part y.0 * x.1), x.1 * y.1);
  to_int = λ x. pos (pos_part x.0 / x.1);
  round = λ x. (pos ((pos_part x.0 * 2 + x.1) / (x.1 * 2)), 1);
  differ = λ x y. not (pos_part x.0 * y.1 == pos_part y.0 * x.1);
  exceeds = λ x y. ltb (pos_part y.0 * x.1) (pos_part x.0 * y.1);
}

pub fractions-FloorExact : FloorExact fractions
fractions-FloorExact w t small = ap (λ (n : ℕ). pos (n / 100)) (one_times (w * t))
  where
    one_times : (n : ℕ) → n * 1 ≡ n
    one_times n = omega arith

abbrev percents : String → ℤ
percents id = if str_eq id "a" then pos 34 else pos 33

allocate_experiment_buckets_test :
    allocate_experiment_buckets fractions ("a" ∷ "b" ∷ "c" ∷ []) percents (pos 9950)
    ≡ ("b", pos 3284) ∷ ("c", pos 3283) ∷ ("a", pos 3383) ∷ []
unfolding allocate_experiment_buckets shares_of share_of sort_shares insert_share hand_out add64
    sub64
allocate_experiment_buckets_test = refl
