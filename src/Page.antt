-- ===== src/Page.antt =====
-- The page of chusql-core/storage/src/page.rs: an identifier and a fixed number of bytes.
pub mod PageFile
use chu_sql.Base.{ℕ, zero, suc, [], ◌∷◌, ◌≡◌, refl, ap, length, map}
use chu_sql.Base.Bytes.{Bytes}

pub record Page : Type 0 where
  pub id : ℕ
  pub bytes : Bytes

-- `vec![0u8; n]`
abbrev pub zeros : ℕ → Bytes
zeros zero = []
zeros (suc n) = 0 ∷ zeros n

-- `Page::new`
unfoldable pub new : ℕ → ℕ → Page
new id size = record { id = id; bytes = zeros size }

-- `Page::zero`
unfoldable pub zero_page : Page → Page
zero_page p = record p { bytes = map (λ b. 0) p.bytes }

pub length-zeros : (n : ℕ) → length (zeros n) ≡ n
length-zeros zero = refl
length-zeros (suc n) = ap suc (length-zeros n)
