-- ===== src/BTree/Keys.antt =====
-- Keys of the B+ tree: byte strings in their lexicographic order, and the searches in the sorted
-- keys of a node (btree.rs).
use chu_sql.Base.{◌≡◌, refl, Bool, true, false, not, ◌&&◌, ◌||◌, [], ◌∷◌, ltb, ◌==◌, arith}
use chu_sql.Base.Bytes.{Bytes}

-- `a < b` on byte strings
unfoldable pub key_lt : Bytes → Bytes → Bool
key_lt a [] = false
key_lt [] (y ∷ b) = true
key_lt (x ∷ a) (y ∷ b) = ltb x y || ((x == y) && key_lt a b)

-- `a <= b`
abbrev pub key_le : Bytes → Bytes → Bool
key_le a b = not (key_lt b a)

pub key_lt_irrefl : (a : Bytes) → key_lt a a ≡ false
unfolding key_lt
key_lt_irrefl [] = refl
key_lt_irrefl (x ∷ a) = ground (arith, key_lt_irrefl a)

pub key_lt_trans : (a b c : Bytes) → key_lt a b ≡ true → key_lt b c ≡ true → key_lt a c ≡ true
unfolding key_lt
key_lt_trans a [] c h k = ground (arith, h)
key_lt_trans a (y ∷ b) [] h k = ground (arith, k)
key_lt_trans [] (y ∷ b) (z ∷ c) h k = refl
key_lt_trans (x ∷ a) (y ∷ b) (z ∷ c) h k = ground (arith, h, k, key_lt_trans a b c)

-- Two byte strings are in order or equal.
pub key_lt_total : (a b : Bytes) → key_lt a b ≡ false → key_lt b a ≡ false → a ≡ b
unfolding key_lt
key_lt_total [] [] h k = refl
key_lt_total [] (y ∷ b) h k = ground (arith, h)
key_lt_total (x ∷ a) [] h k = ground (arith, k)
key_lt_total (x ∷ a) (y ∷ b) h k = ground (arith, h, k, key_lt_total a b)

pub key_le_trans : (a b c : Bytes) → key_lt b a ≡ false → key_lt c b ≡ false → key_lt c a ≡ false
unfolding key_lt
key_le_trans [] b c h k = ground arith
key_le_trans (x ∷ a) [] c h k = ground (arith, h)
key_le_trans (x ∷ a) (y ∷ b) [] h k = ground (arith, k)
key_le_trans (x ∷ a) (y ∷ b) (z ∷ c) h k = ground (arith, h, k, key_le_trans a b c)
