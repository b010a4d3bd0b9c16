-- ===== src/Protocol/Names.antt =====
-- The names that protocol.rs lets through: storage names, and the tables of the system.
use chu_sql.Base.{
  ℕ, ◌+◌, ◌<◌, ◌≡◌, ◌≢◌, inl, inr, Bool, true, false, ◌&&◌, ◌||◌, not, List, [], ◌∷◌, map, any, all,
  length, All, arith, leb, ◌==◌, bytes_eq, if◌then◌else◌, Bool-cases,
}
use chu_sql.Base.Text.{Str, ascii}

-- `char::is_ascii_alphanumeric`, or an underscore
abbrev pub storage_char : ℕ → Bool
storage_char c =
    (leb 48 c && leb c 57) || ((leb 65 c && leb c 90) || ((leb 97 c && leb c 122) || c == 95))

-- `valid_storage_name`
unfoldable pub valid_storage_name : Str → Bool
valid_storage_name [] = false
valid_storage_name (c ∷ cs) = all storage_char (c ∷ cs)

-- `str::to_ascii_lowercase`
abbrev pub lower : ℕ → ℕ
lower c = if leb 65 c && leb c 90 then c + 32 else c

abbrev pub to_ascii_lowercase : Str → Str
to_ascii_lowercase s = map lower s

-- `str::starts_with`
abbrev pub starts_with : Str → Str → Bool
starts_with [] s = true
starts_with (c ∷ cs) [] = false
starts_with (c ∷ cs) (d ∷ ds) = c == d && starts_with cs ds

-- `reserved_table`
unfoldable pub reserved_table : Str → Bool
reserved_table table = starts_with (ascii "__system_") (to_ascii_lowercase table)

-- `PRIVILEGE_TABLES`
abbrev pub privilege_tables : List Str
privilege_tables =
    ascii "__system_roles"
    ∷ ascii "__system_grants"
    ∷ ascii "__system_grant_options"
    ∷ ascii "__system_members"
    ∷ []

-- `internal_table`
unfoldable pub internal_table : Str → Bool
internal_table table =
    let name = to_ascii_lowercase table in
    any (bytes_eq name) privilege_tables || starts_with (ascii "__system_domain_") name

-- `blocked_table`
unfoldable pub blocked_table : Str → Bool
unfolding reserved_table internal_table
blocked_table table = reserved_table table && not (internal_table table)

-- None of the bytes that separate paths, mark an extension or end a string, and ASCII.
abbrev pub Plain : ℕ → Type 0
Plain c = (c ≢ 46) × (c ≢ 47) × (c ≢ 92) × (c ≢ 0) × (c < 128)

storage_char-Plain : (c : ℕ) → storage_char c ≡ true → Plain c
storage_char-Plain c h = (ground arith, ground arith, ground arith, ground arith, ground arith)

all-Plain : (s : Str) → all storage_char s ≡ true → All Plain s
all-Plain [] h = tt
all-Plain (c ∷ cs) h = elim (Bool-cases (storage_char c)) [
  | inl y ↦ (storage_char-Plain c y, all-Plain cs (rw y at h))
  | inr z ↦ absurd (ground (arith, rw z at h))
]

-- A storage name is not empty, and none of its bytes is a dot, a slash, a backslash or zero, or
-- lies outside of ASCII.
pub valid_storage_name_lem :
    (name : Str) → valid_storage_name name ≡ true → (0 < length name) × All Plain name
unfolding valid_storage_name
valid_storage_name_lem [] h = ground (arith, h)
valid_storage_name_lem (c ∷ cs) h = (omega arith, all-Plain (c ∷ cs) h)
