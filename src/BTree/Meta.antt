-- ===== src/BTree/Meta.antt =====
-- The first page of an index file: `write_meta` and `check_meta` of btree.rs.
use chu_sql.Base.{
  ℕ, not, ◌||◌, Option, some, length, ltb, ◌==◌, bytes_eq, if◌then◌else◌, Result, ok, err,
}
use chu_sql.Base.{and_then as ◌>>=◌}
use chu_sql.Base.Bytes.{Bytes, slice, splice}
use chu_sql.Base.Text.{Str, ascii}
use chu_sql.Page.{zeros}
use chu_sql.BTree.Layout.{legacy_key_bytes, key_limit}
use chu_sql.BTree.Node.{read_le, write_le}

-- `META_MAGIC`
abbrev pub meta_magic : Bytes
meta_magic = ascii "CBK2"

-- `write_meta` on a page
unfoldable pub write_meta : Bytes → ℕ → ℕ → ℕ → Option Bytes
unfolding write_le key_limit
write_meta page page_size order root = do
  b1 ← splice 0 meta_magic (zeros (length page))
  b2 ← write_le 4 b1 4 page_size
  b3 ← write_le 2 b2 8 (key_limit page_size order)
  b4 ← write_le 8 b3 10 root
  write_le 2 b4 18 order

-- `check_meta`
unfoldable pub check_meta : Bytes → ℕ → ℕ → Option (Result Str (Unit {0}))
unfolding read_le key_limit
check_meta page page_size order = do
  magic ← slice 0 4 page
  if not (bytes_eq magic meta_magic)
      then some (err (ascii "not a chusql index file (bad magic)"))
      else do
        stored_page ← read_le 4 page 4
        stored_order ← read_le 2 page 18
        if not (stored_page == page_size) || not (stored_order == order)
            then some (err (ascii "index file was built with other settings"))
            else do
              stored_key ← read_le 2 page 8
              if ltb stored_key legacy_key_bytes || ltb (key_limit page_size order) stored_key
                  then some (err (ascii "unsupported index key limit"))
                  else some (ok tt)
