-- ===== src/Membership/Bitmaps.antt =====
-- What internal/membership uses of github.com/RoaringBitmap/roaring: sets of 32-bit numbers.
use citywalk.Prelude.{ℕ, ◌≡◌, Bool, false, not, ◌&&◌, ◌||◌, ◌==◌, List, [], ◌∷◌}

pub record Bitmaps : Type 1 where
  pub Bitmap : Type 0
  pub empty : Bitmap
  pub add : ℕ → Bitmap → Bitmap
  pub remove : ℕ → Bitmap → Bitmap
  pub has : Bitmap → ℕ → Bool
  pub elements : Bitmap → List ℕ
  pub cardinality_of_xor : Bitmap → Bitmap → ℕ

abbrev pub holds : List ℕ → ℕ → Bool
holds [] n = false
holds (m ∷ ms) n = m == n || holds ms n

-- The documented behaviour of the operations.
pub record AreSets (b : Bitmaps) : Type 0 where
  pub has_empty : (n : ℕ) → b.has b.empty n ≡ false
  pub has_add : (m n : ℕ) (s : b.Bitmap) → b.has (b.add m s) n ≡ (m == n || b.has s n)
  pub has_remove : (m n : ℕ) (s : b.Bitmap) → b.has (b.remove m s) n ≡ (not (m == n) && b.has s n)
  pub has_elements : (n : ℕ) (s : b.Bitmap) → holds (b.elements s) n ≡ b.has s n
