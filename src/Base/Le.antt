-- ===== src/Base/Le.antt =====
-- `to_le_bytes` and `from_le_bytes`: a number as `w` bytes, the lowest first.
use native.Mathlib.Nat.{pow-suc}
use chu_sql.Base.{
  ℕ, zero, suc, ◌+◌, ◌*◌, ◌/◌, ◌%◌, ◌^◌, ◌<◌, ◌≡◌, refl, [], ◌∷◌, arith, length, All,
}
use chu_sql.Base.Bytes.{Bytes}

abbrev pub IsByte : ℕ → Type 0
IsByte b = b < 256

-- `v.to_le_bytes()` of a `w`-byte unsigned integer
unfoldable pub to_le : ℕ → ℕ → Bytes
to_le zero v = []
to_le (suc w) v = (v % 256) ∷ to_le w (v / 256)

-- `from_le_bytes(bs)`
unfoldable pub of_le : Bytes → ℕ
of_le [] = 0
of_le (b ∷ bs) = b + 256 * of_le bs

pub length-to_le : (w v : ℕ) → length (to_le w v) ≡ w
unfolding to_le
length-to_le zero v = refl
length-to_le (suc w) v = omega (arith, length-to_le w (v / 256))

pub to_le-IsByte : (w v : ℕ) → All IsByte (to_le w v)
unfolding to_le
to_le-IsByte zero v = tt
to_le-IsByte (suc w) v = (omega arith, to_le-IsByte w (v / 256))

-- A value that fits its width is read back from its bytes.
pub of_le-to_le : (w v : ℕ) → v < 256 ^ w → of_le (to_le w v) ≡ v
unfolding of_le to_le
of_le-to_le zero v h = omega arith
of_le-to_le (suc w) v h = omega (arith, of_le-to_le w (v / 256) (omega (arith, pow-suc 256 w)))

pub of_le-lt : (bs : Bytes) → All IsByte bs → of_le bs < 256 ^ length bs
unfolding of_le
of_le-lt [] h = omega arith
of_le-lt (b ∷ bs) (hb, hbs) = omega (arith, of_le-lt bs hbs, pow-suc 256 (length bs))
