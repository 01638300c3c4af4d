-- ===== src/Index/Bitmap.antt =====
-- The crate roaring as the index uses it: sets of u32 doc ids, with the crate's documented meaning of
-- each operation as laws.
use syntext.Prelude.{ℕ, ◌≡◌, Bool, true, false, not, ◌&&◌, ◌||◌, List, ◌==◌, contains}

pub record RoaringBitmap : Type 1 where
  pub Bitmap : Type 0
  pub new : Bitmap
  pub insert : ℕ → Bitmap → Bitmap
  pub remove : ℕ → Bitmap → Bitmap
  pub extend : List ℕ → Bitmap → Bitmap
  pub intersect : Bitmap → Bitmap → Bitmap
  pub union : Bitmap → Bitmap → Bitmap
  pub subtract : Bitmap → Bitmap → Bitmap
  pub has : Bitmap → ℕ → Bool
  pub no_ids : Bitmap → Bool
  pub len : Bitmap → ℕ
  pub iter : Bitmap → List ℕ
  pub serialized_size : Bitmap → ℕ
  pub has-new : (d : ℕ) → has new d ≡ false
  pub has-insert : (a : ℕ) (b : Bitmap) (d : ℕ) → has (insert a b) d ≡ (a == d || has b d)
  pub has-remove : (a : ℕ) (b : Bitmap) (d : ℕ) → has (remove a b) d ≡ (has b d && not (a == d))
  pub has-extend :
      (ids : List ℕ) (b : Bitmap) (d : ℕ) → has (extend ids b) d ≡ (has b d || contains d ids)
  pub has-intersect : (a b : Bitmap) (d : ℕ) → has (intersect a b) d ≡ (has a d && has b d)
  pub has-union : (a b : Bitmap) (d : ℕ) → has (union a b) d ≡ (has a d || has b d)
  pub has-subtract : (a b : Bitmap) (d : ℕ) → has (subtract a b) d ≡ (has a d && not (has b d))
  pub no_ids_has : (b : Bitmap) (d : ℕ) → no_ids b ≡ true → has b d ≡ false
  pub contains-iter : (b : Bitmap) (d : ℕ) → contains d (iter b) ≡ has b d
