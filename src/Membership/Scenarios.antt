-- ===== src/Membership/Scenarios.antt =====
-- Runs and examples of the membership of segments.
use citywalk.Prelude.{
  ℕ, String, ◌≡◌, ◌⊎◌, refl, Bool, true, false, not, ◌&&◌, ◌==◌, ==_iff, Option, none, some, List,
  [], ◌∷◌, str_eq, All, Result, ok, err, if◌then◌else◌, Bool-cases, inl, inr, arith,
}
use citywalk.Membership.Bitmaps.{Bitmaps, AreSets, holds}
use citywalk.Membership.Ordinal.{Ordinals, lookup_row, lookup}
use citywalk.Membership.Index.{
  incremental, batch_only, Segment, MembershipError, Index, put_bitmap, reverse_set,
}
use citywalk.Membership.Incremental.{
  update_channel, update_segments, update_segment, update_forward_bit, update_reverse_bit,
}
use citywalk.Membership.Batch.{Report, recompute, build_segments, scan_rows, insert_bitmaps}
use citywalk.Membership.Inserted.{IsExact}
use citywalk.Membership.Recomputed.{recompute-IsExact}
use citywalk.Membership.Updated.{IsAgreed, FollowsPredicates, update_channel-IsAgreed}

-- Lists of numbers in place of roaring bitmaps.
abbrev without : ℕ → List ℕ → List ℕ
without m [] = []
without m (n ∷ ns) = if m == n then without m ns else n ∷ without m ns

abbrev lists : Bitmaps
lists = record {
  Bitmap = List ℕ;
  empty = [];
  add = λ m ms. m ∷ ms;
  remove = without;
  has = holds;
  elements = λ ms. ms;
  cardinality_of_xor = λ ms ns. 0;
}

holds-without : (m n : ℕ) (ms : List ℕ) → holds (without m ms) n ≡ (not (m == n) && holds ms n)
holds-without m n [] = ground (arith)
holds-without m n (k ∷ ms) = elim (Bool-cases (m == k)) [
  | inl same ↦ rw same (ground (arith, same, holds-without m n ms, ==_iff m k))
  | inr other ↦ rw other (ground (arith, other, holds-without m n ms, ==_iff k n))
]

lists-AreSets : AreSets lists
lists-AreSets = record {
  has_empty = λ n. refl;
  has_add = λ m n s. refl;
  has_remove = λ m n s. holds-without m n s;
  has_elements = λ n s. refl;
}

abbrev premium : Segment String
premium = record { id = "s1"; ordinal = 5; predicate = "premium"; refresh_mode = incremental }

abbrev recent : Segment String
recent = record { id = "s2"; ordinal = 6; predicate = "recent"; refresh_mode = batch_only }

abbrev both_segments : List (Segment String)
both_segments = premium ∷ recent ∷ []

abbrev evaluate : String → String → Option Bool
evaluate predicate attributes = some (str_eq predicate attributes)

abbrev table : Ordinals
table = record {
  rows =
      record { channel_id = "c1"; ordinal = 1; retired = false }
      ∷ record { channel_id = "c2"; ordinal = 2; retired = false }
      ∷ [];
  next_ordinal = 3;
}

abbrev no_members : Index lists
no_members = record {
  ordinals = table;
  generation = 1;
  membership = λ s g. none;
  reverse = λ c. none;
}

-- The first channel becomes a premium one.
abbrev updated : Index lists
updated = record {
  ordinals = table;
  generation = 1;
  membership = put_bitmap lists "s1" 1 (1 ∷ []) (λ s g. none);
  reverse = reverse_set lists "c1" (5 ∷ []) (λ c. none);
}

update_channel_test :
    update_channel lists evaluate "c1" both_segments "premium" no_members ≡ ok updated
unfolding update_channel update_segments update_segment update_forward_bit update_reverse_bit
    lookup_row put_bitmap reverse_set
update_channel_test = refl

update_channel-IsAgreed_example :
    (ord : ℕ) × (lookup table "c1" ≡ ok ord)
    × FollowsPredicates lists evaluate "premium" updated ord both_segments
    × IsAgreed lists updated both_segments
update_channel-IsAgreed_example =
    update_channel-IsAgreed lists evaluate both_segments both_segments "c1" "premium" no_members
      updated lists-AreSets ((refl, (refl, tt)), ((refl, (refl, tt)), tt))
      ((refl, (refl, tt)), ((refl, (refl, tt)), tt)) (refl, (refl, tt))
      (inr (refl, (refl, tt)), (inr (refl, (refl, tt)), tt)) update_channel_test

abbrev selects : String → String → Bool
selects predicate channel_id = str_eq predicate "premium" && str_eq channel_id "c1"

abbrev recomputed : Result MembershipError (Index lists × Report)
recomputed = recompute lists selects both_segments no_members

abbrev index_or_none : Result MembershipError (Index lists × Report) → Index lists × Report
index_or_none (ok r) = r
index_or_none (err e) = (no_members, record { generation = 0; disagreements = [] })

recompute_test : recomputed ≡ ok (index_or_none recomputed)
unfolding recompute build_segments scan_rows insert_bitmaps put_bitmap
recompute_test = refl

recompute-IsExact_example :
    ((index_or_none recomputed).0.generation ≡ 2)
    × All
        (λ r.
          (r.retired ≡ true)
          ⊎ All (IsExact lists selects (index_or_none recomputed).0 r) both_segments)
        table.rows
recompute-IsExact_example =
    recompute-IsExact lists selects both_segments no_members (index_or_none recomputed).0
      (index_or_none recomputed).1 lists-AreSets ((refl, (refl, tt)), ((refl, (refl, tt)), tt))
      ((refl, tt), (tt, tt)) (refl, (refl, tt)) recompute_test

abbrev retired_table : Ordinals
retired_table = record {
  rows =
      record { channel_id = "c1"; ordinal = 1; retired = true }
      ∷ record { channel_id = "c2"; ordinal = 2; retired = false }
      ∷ [];
  next_ordinal = 3;
}
