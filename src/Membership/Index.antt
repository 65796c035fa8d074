-- ===== src/Membership/Index.antt =====
-- The forward index of internal/membership/forward in Postgres and the reverse index of
-- internal/membership/reverse in Redis, and the segments of internal/membership/segment. A missing bitmap
-- is none; a bitmap read back is the one written; a failing query or call of Redis is not modelled.
use citywalk.Prelude.{ℕ, ◌%◌, ◌^◌, String, Option, none, some, ◌&&◌, ◌==◌, str_eq, if◌then◌else◌}
use citywalk.Membership.Bitmaps.{Bitmaps}
use citywalk.Membership.Ordinal.{Ordinals, OrdinalError}

pub data RefreshMode : Type 0 where
  incremental : RefreshMode
  batch_only : RefreshMode

-- A segment, with what stands for its predicate.
pub record Segment (P : Type 0) : Type 0 where
  pub id : String
  pub ordinal : ℕ
  pub predicate : P
  pub refresh_mode : RefreshMode

pub data MembershipError : Type 0 where
  no_channel : OrdinalError → MembershipError
  not_evaluated : String → MembershipError
  ordinal_too_large : ℕ → MembershipError
  generation_exists : String → MembershipError

-- `uint32(n)`.
abbrev pub to_uint32 : ℕ → ℕ
to_uint32 n = n % 2 ^ 32

-- The tables of the membership, and the keys of Redis.
pub record Index (b : Bitmaps) : Type 0 where
  pub ordinals : Ordinals
  pub generation : ℕ
  pub membership : String → ℕ → Option b.Bitmap
  pub reverse : String → Option b.Bitmap

module _ (b : Bitmaps) where
  abbrev pub or_empty : Option b.Bitmap → b.Bitmap
  or_empty none = b.empty
  or_empty (some bm) = bm

  -- `forward.Bitmap` and `reverse.Get`.
  abbrev pub bitmap : (String → ℕ → Option b.Bitmap) → String → ℕ → b.Bitmap
  bitmap membership segment_id generation = or_empty (membership segment_id generation)

  abbrev pub current_bitmap : Index b → String → b.Bitmap
  current_bitmap x segment_id = bitmap x.membership segment_id x.generation

  abbrev pub reverse_get : Index b → String → b.Bitmap
  reverse_get x channel_id = or_empty (x.reverse channel_id)

  -- The row of a segment and a generation, written over.
  unfoldable pub put_bitmap :
      String → ℕ → b.Bitmap → (String → ℕ → Option b.Bitmap) → String → ℕ → Option b.Bitmap
  put_bitmap segment_id generation bm membership s g =
      if str_eq s segment_id && g == generation then some bm else membership s g

  unfoldable pub reverse_set :
      String → b.Bitmap → (String → Option b.Bitmap) → String → Option b.Bitmap
  reverse_set channel_id bm reverse c = if str_eq c channel_id then some bm else reverse c
