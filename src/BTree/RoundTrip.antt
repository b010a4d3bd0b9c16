-- ===== src/BTree/RoundTrip.antt =====
-- Nodes of the B+ tree survive their pages: `put_node` and `get_node` of btree.rs.
use chu_sql.Base.{
  ℕ, zero, suc, ◌+◌, ◌-◌, ◌*◌, ◌^◌, ◌≤◌, ◌<◌, ◌≡◌, refl, sym, ap, ◌∙◌, ◌⊎◌, inl, inr, false, not,
  ◌||◌, some, List, [], ◌∷◌, ◌++◌, any, length, ltb, ◌==◌, ok, arith, All, take, Bool-cases,
  take_all,
}
use chu_sql.Base.Bytes.{Bytes}
use chu_sql.Base.Le.{to_le, length-to_le}
use chu_sql.Page.{zeros, length-zeros}
use chu_sql.BTree.Layout.{node_header, slot, cell_fixed, cell_bytes, cells_bytes, max_key_bytes}
use chu_sql.BTree.Node.{
  Node, read_le, write_le, put_node, get_cells, get_node, node_bytes, leaf, internal, trailer,
  unsorted, last_or_zero, get_checked,
}
use chu_sql.BTree.Codec.{splice_lem, read_le-Wrote, read_le-eq, Cells, put_cells_lem}

get_cells_lem :
    (keys : List Bytes) (values : List ℕ) (i cursor slots_end : ℕ) (buf : Bytes)
    → Cells keys values i cursor buf
    → length keys ≤ length values
    → All (λ key. length key ≤ max_key_bytes) keys
    → slots_end + cells_bytes keys ≤ cursor
    → cursor ≤ length buf
    → get_cells (length keys) i slots_end cursor buf ≡ some (ok (keys, take (length keys) values))
unfolding get_cells cells_bytes
get_cells_lem [] values i cursor slots_end buf cells hk small room hc = refl
get_cells_lem (key ∷ keys) [] i cursor slots_end buf cells hk small room hc = absurd (omega arith)
get_cells_lem (key ∷ keys) (value ∷ values) i cursor slots_end buf ((a, b, d, e), cells) hk
      (s, small) room hc =
    let c = cursor - cell_bytes key in
    let inside : (ltb c slots_end || ltb (length buf) (c + cell_fixed)) ≡ false = ground arith in
    let short : (ltb max_key_bytes (length key) || ltb (length buf) (c + cell_fixed + length key))
        ≡ false =
      ground arith in
    let apart : ltb cursor (c + cell_fixed + length key) ≡ false = ground arith in
    rw (
      a,
      inside,
      b,
      short,
      apart,
      d,
      e,
      get_cells_lem keys values (suc i) c slots_end buf cells (omega arith) small (omega arith)
          (omega arith),
    )

-- What `get_node` asks of a node, and `put_node` takes as given.
unfoldable pub WellFormed : Node → Type 0
WellFormed node =
    (unsorted node.keys ≡ false)
    × All (λ key. length key ≤ max_key_bytes) node.keys
    × All (λ v. v < 2 ^ 64) node.values
    × (node.next < 2 ^ 64)
    × (((node.kind ≡ leaf) × (length node.values ≡ length node.keys))
        ⊎ ((node.kind ≡ internal)
            × (node.next ≡ 0)
            × (length node.values ≡ suc (length node.keys))
            × (any (λ v. v == 0) node.values ≡ false)))

take-last :
    (n : ℕ) (values : List ℕ)
    → length values ≡ suc n
    → take n values ++ last_or_zero values ∷ [] ≡ values
take-last n [] h = absurd (omega arith)
take-last zero (v ∷ []) h = refl
take-last zero (v ∷ w ∷ values) h = absurd (omega arith)
take-last (suc n) (v ∷ []) h = absurd (omega arith)
take-last (suc n) (v ∷ w ∷ values) h = ap (λ r. v ∷ r) (take-last n (w ∷ values) (omega arith))

last-lt : (values : List ℕ) → All (λ v. v < 2 ^ 64) values → last_or_zero values < 2 ^ 64
last-lt [] h = omega arith
last-lt (v ∷ []) (h, t) = h
last-lt (v ∷ w ∷ values) (h, t) = last-lt (w ∷ values) t

trailer-lt : (node : Node) → WellFormed node → trailer node < 2 ^ 64
unfolding WellFormed
trailer-lt node (o, s, v, n, k) = elim (Bool-cases (node.kind == internal)) [
  | inl y ↦ rw y (last-lt node.values v)
  | inr y ↦ rw y n
]

-- The checks behind the loop pass on what `put_node` wrote.
get_checked_lem :
    (node : Node)
    → WellFormed node
    → get_checked node.kind (trailer node) (ok (node.keys, take (length node.keys) node.values))
      ≡ ok node
unfolding WellFormed
get_checked_lem node (o, s, v, n, inl (k, l)) =
    rw (o, k, take_all node.values (length node.keys) (omega (arith, l))) refl
get_checked_lem node (o, s, v, n, inr (k, z, l, nz)) =
    rw (o, k, take-last (length node.keys) node.values l, nz)
      (ap (λ x. ok (record node { kind = internal; next = x })) (sym z))

cells-least : (keys : List Bytes) → length keys * 10 ≤ cells_bytes keys
unfolding cells_bytes
cells-least [] = omega arith
cells-least (key ∷ keys) = omega (arith, cells-least keys)

WellFormed-kind :
    (node : Node) → WellFormed node → (node.kind < 2) × (length node.keys ≤ length node.values)
unfolding WellFormed
WellFormed-kind node (o, s, v, n, inl (k, l)) = (omega (arith, k), omega (arith, l))
WellFormed-kind node (o, s, v, n, inr (k, z, l, nz)) = (omega (arith, k), omega (arith, l))

-- The head of a node's page: kind, number of keys, and the last child or the next leaf.
head_lem :
    (kind count last : ℕ) (buf : Bytes)
    → 11 ≤ length buf
    → kind < 2
    → count < 65536
    → last < 2 ^ 64
    → (b1 b2 b3 : Bytes) × (write_le 1 buf 0 kind ≡ some b1)
      × (write_le 2 b1 1 count ≡ some b2)
      × (write_le 8 b2 3 last ≡ some b3)
      × (length b3 ≡ length buf)
      × (read_le 1 b3 0 ≡ some kind)
      × (read_le 2 b3 1 ≡ some count)
      × (read_le 8 b3 3 ≡ some last)
unfolding write_le
head_lem kind count last buf h hk hc hl =
    let l1 = length-to_le 1 kind in
    let l2 = length-to_le 2 count in
    let l8 = length-to_le 8 last in
    let (b1, e1, w1) = splice_lem 0 (to_le 1 kind) buf (omega (arith, l1)) in
    let (b2, e2, w2) = splice_lem 1 (to_le 2 count) b1 (omega (arith, l2, w1.0)) in
    let (b3, e3, w3) = splice_lem 3 (to_le 8 last) b2 (omega (arith, l8, w1.0, w2.0)) in
    (
      b1,
      b2,
      b3,
      e1,
      e2,
      e3,
      w3.0 ∙ w2.0 ∙ w1.0,
      read_le-eq 1 0 b1 b3 (w3.2 0 1 (inl (omega arith)) ∙ w2.2 0 1 (inl (omega arith)))
          ∙ read_le-Wrote 1 0 kind buf b1 (omega arith) w1,
      read_le-eq 2 1 b2 b3 (w3.2 1 2 (inl (omega arith)))
          ∙ read_le-Wrote 2 1 count b1 b2 (omega arith) w2,
      read_le-Wrote 8 3 last b2 b3 hl w3,
    )

get_node_lem :
    (node : Node) (page : Bytes)
    → WellFormed node
    → node_bytes node ≤ length page
    → read_le 1 page 0 ≡ some node.kind
    → read_le 2 page 1 ≡ some (length node.keys)
    → read_le 8 page 3 ≡ some (trailer node)
    → Cells node.keys node.values 0 (length page) page
    → get_node page ≡ some (ok node)
unfolding get_node node_bytes WellFormed
get_node_lem node page w fits kind count last cells =
    let (lt, le) = WellFormed-kind node w in
    let slots_end = node_header + length node.keys * slot in
    let header : ltb (length page) node_header ≡ false = ground arith in
    let known : (not (node.kind == leaf || node.kind == internal) || ltb (length page) slots_end)
        ≡ false =
      ground (arith, lt) in
    rw (
      header,
      kind,
      count,
      known,
      last,
      get_cells_lem node.keys node.values 0 (length page) slots_end page cells le w.1 (omega arith)
          (omega arith),
      get_checked_lem node w,
    )

-- A node that is well formed and fits in a page of at most 65536 bytes: `put_node` succeeds without
-- a panic, keeps the page's size, and `get_node` reads the same node back, with its kind, its keys
-- in order, its values and its successor.
pub get_node-put_node :
    (node : Node) (buf : Bytes)
    → WellFormed node
    → node_bytes node ≤ length buf
    → length buf ≤ 2 ^ 16
    → (page : Bytes) × (put_node node buf ≡ some (ok page))
      × (length page ≡ length buf)
      × (get_node page ≡ some (ok node))
unfolding put_node node_bytes WellFormed
get_node-put_node node buf w fits small =
    let keys = node.keys in
    let n = length-zeros (length buf) in
    let (lt, le) = WellFormed-kind node w in
    let count : length keys < 65536 = omega (arith, cells-least keys) in
    let (b1, b2, b3, e1, e2, e3, l, r1, r2, r3) =
      head_lem node.kind (length keys) (trailer node) (zeros (length buf)) (omega (arith, n)) lt
        count (trailer-lt node w) in
    let (page, e4, l4, cells, frame) =
      put_cells_lem keys node.values 0 (length buf) b3 le w.2 (omega arith) (omega (arith, l, n))
        (omega (arith, l, n)) in
    let room : (ltb 65535 (length keys) || ltb (length buf) (node_bytes node)) ≡ false =
      ground arith in
    let size : length page ≡ length buf = l4 ∙ l ∙ n in
    (
      page,
      rw (room, e1, e2, e3, e4) refl,
      size,
      get_node_lem node page w (omega (arith, size))
          (read_le-eq 1 0 b3 page (frame 0 1 (inl (omega arith))) ∙ r1)
          (read_le-eq 2 1 b3 page (frame 1 2 (inl (omega arith))) ∙ r2)
          (read_le-eq 8 3 b3 page (frame 3 8 (inl (omega arith))) ∙ r3) (rw size cells),
    )
