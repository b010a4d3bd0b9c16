-- ===== src/BTree/Codec.antt =====
-- What `put_node` of btree.rs writes, `get_node` reads.
use chu_sql.Base.{
  ℕ, suc, ◌+◌, ◌-◌, ◌*◌, ◌^◌, ◌≤◌, ◌<◌, ◌≡◌, refl, ◌∙◌, ◌⊎◌, inl, inr, false, some, List, [], ◌∷◌,
  length, ltb, arith, All,
}
use chu_sql.Base.Bytes.{Bytes, slice, splice, splice_total, length-splice, slice-splice_self}
use chu_sql.Base.Le.{to_le, length-to_le, of_le-to_le}
use chu_sql.Heap.Fields.{Apart, slice-splice}
use chu_sql.BTree.Layout.{node_header, slot, cell_bytes, cells_bytes}
use chu_sql.BTree.Node.{read_le, write_le, put_cell, put_cells}

-- `out` is `buf` with `ds` written at `off`.
abbrev pub Wrote : ℕ → Bytes → Bytes → Bytes → Type 0
Wrote off ds buf out =
    (length out ≡ length buf)
    × (slice off (length ds) out ≡ some ds)
    × ((o n : ℕ) → Apart o n off (length ds) → slice o n out ≡ slice o n buf)

pub splice_lem :
    (off : ℕ) (ds buf : Bytes)
    → off + length ds ≤ length buf
    → (out : Bytes) × (splice off ds buf ≡ some out) × Wrote off ds buf out
splice_lem off ds buf h =
    let (out, e) = splice_total off ds buf h in
    (
      out,
      e,
      (
        length-splice off ds buf out e,
        slice-splice_self off ds buf out e,
        λ o n a. slice-splice off ds buf out o n a e,
      ),
    )

pub read_le-Wrote :
    (w off v : ℕ) (buf out : Bytes)
    → v < 256 ^ w
    → Wrote off (to_le w v) buf out
    → read_le w out off ≡ some v
unfolding read_le
read_le-Wrote w off v buf out h (l, s, f) =
    let s' : slice off w out ≡ some (to_le w v) = rw length-to_le at s in rw (s', of_le-to_le w v h)

pub read_le-eq :
    (w off : ℕ) (buf out : Bytes)
    → slice off w out ≡ slice off w buf
    → read_le w out off ≡ read_le w buf off
unfolding read_le
read_le-eq w off buf out h = rw h

Apart-within : (o n c w off v : ℕ) → Apart o n c w → c ≤ off → off + v ≤ c + w → Apart o n off v
Apart-within o n c w off v (inl a) h k = inl (omega arith)
Apart-within o n c w off v (inr a) h k = inr (omega arith)

-- What a cell and its slot hold.
abbrev pub Holds : ℕ → ℕ → Bytes → ℕ → Bytes → Type 0
Holds i c key value buf =
    (read_le 2 buf (node_header + i * slot) ≡ some c)
    × (read_le 2 buf c ≡ some (length key))
    × (slice (c + 2) (length key) buf ≡ some key)
    × (read_le 8 buf (c + 2 + length key) ≡ some value)

put_cell_lem :
    (i c : ℕ) (key : Bytes) (value : ℕ) (buf : Bytes)
    → node_header + i * slot + 2 ≤ c
    → c + cell_bytes key ≤ length buf
    → length buf ≤ 65536
    → value < 2 ^ 64
    → (out : Bytes) × (put_cell i c key value buf ≡ some out)
      × (length out ≡ length buf)
      × Holds i c key value out
      × ((o n : ℕ)
          → Apart o n (node_header + i * slot) 2
          → Apart o n c (cell_bytes key)
          → slice o n out ≡ slice o n buf)
unfolding put_cell write_le
put_cell_lem i c key value buf hs hc hl hv =
    let len = length key in
    let l2 = length-to_le 2 len in
    let l8 = length-to_le 8 value in
    let k2 = length-to_le 2 c in
    let s = node_header + i * slot in
    let (b1, e1, w1) = splice_lem c (to_le 2 len) buf (omega (arith, l2)) in
    let (b2, e2, w2) = splice_lem (c + 2) key b1 (omega (arith, w1.0)) in
    let (b3, e3, w3) =
      splice_lem (c + 2 + len) (to_le 8 value) b2 (omega (arith, l8, w1.0, w2.0)) in
    let (b4, e4, w4) = splice_lem s (to_le 2 c) b3 (omega (arith, k2, w1.0, w2.0, w3.0)) in
    (
      b4,
      rw (e1, e2, e3, e4) refl,
      w4.0 ∙ w3.0 ∙ w2.0 ∙ w1.0,
      (
        read_le-Wrote 2 s c b3 b4 (omega arith) w4,
        read_le-eq 2 c b1 b4 (
              w4.2 c 2 (inr (omega (arith, k2)))
              ∙ w3.2 c 2 (inl (omega arith))
              ∙ w2.2 c 2 (inl (omega arith)))
            ∙ read_le-Wrote 2 c len buf b1 (omega arith) w1,
        w4.2 (c + 2) len (inr (omega (arith, k2))) ∙ w3.2 (c + 2) len (inl (omega arith)) ∙ w2.1,
        read_le-eq 8 (c + 2 + len) b3 b4 (w4.2 (c + 2 + len) 8 (inr (omega (arith, k2))))
            ∙ read_le-Wrote 8 (c + 2 + len) value b2 b3 hv w3,
      ),
      λ o n a b.
          w4.2 o n (Apart-within o n s 2 s (length (to_le 2 c)) a (omega arith) (omega (arith, k2)))
          ∙ w3.2 o n (
              Apart-within o n c (cell_bytes key) (c + 2 + len) (length (to_le 8 value)) b
                (omega arith) (omega (arith, l8)))
          ∙ w2.2 o n (Apart-within o n c (cell_bytes key) (c + 2) len b (omega arith) (omega arith))
          ∙ w1.2 o n (
              Apart-within o n c (cell_bytes key) c (length (to_le 2 len)) b (omega arith)
                (omega (arith, l2))),
    )

-- What the cells of a node hold, from slot `i` and under `cursor`.
abbrev pub Cells : List Bytes → List ℕ → ℕ → ℕ → Bytes → Type 0
Cells [] values i cursor buf = Unit {0}
Cells (key ∷ keys) [] i cursor buf = Unit {0}
Cells (key ∷ keys) (value ∷ values) i cursor buf =
    Holds i (cursor - cell_bytes key) key value buf
    × Cells keys values (suc i) (cursor - cell_bytes key) buf

Holds-eq :
    (i c : ℕ) (key : Bytes) (value : ℕ) (buf out : Bytes)
    → Holds i c key value buf
    → ((o n : ℕ) → (o + n ≤ node_header + suc i * slot) ⊎ (c ≤ o) → slice o n out ≡ slice o n buf)
    → Holds i c key value out
Holds-eq i c key value buf out (a, b, d, e) f = (
  read_le-eq 2 (node_header + i * slot) buf out (f (node_header + i * slot) 2 (inl (omega arith)))
      ∙ a,
  read_le-eq 2 c buf out (f c 2 (inr (omega arith))) ∙ b,
  f (c + 2) (length key) (inr (omega arith)) ∙ d,
  read_le-eq 8 (c + 2 + length key) buf out (f (c + 2 + length key) 8 (inr (omega arith))) ∙ e,
)

pub put_cells_lem :
    (keys : List Bytes) (values : List ℕ) (i cursor : ℕ) (buf : Bytes)
    → length keys ≤ length values
    → All (λ v. v < 2 ^ 64) values
    → node_header + i * slot + (length keys * slot + cells_bytes keys) ≤ cursor
    → cursor ≤ length buf
    → length buf ≤ 65536
    → (out : Bytes) × (put_cells keys values i cursor buf ≡ some out)
      × (length out ≡ length buf)
      × Cells keys values i cursor out
      × ((o n : ℕ)
          → (o + n ≤ node_header + i * slot) ⊎ (cursor ≤ o)
          → slice o n out ≡ slice o n buf)
unfolding put_cells cells_bytes
put_cells_lem [] values i cursor buf hk hv room hc hl = (buf, refl, refl, tt, λ o n a. refl)
put_cells_lem (key ∷ keys) [] i cursor buf hk hv room hc hl = absurd (omega arith)
put_cells_lem (key ∷ keys) (value ∷ values) i cursor buf hk (hv, hvs) room hc hl =
    let c = cursor - cell_bytes key in
    let (b, e, l, holds, f) = put_cell_lem i c key value buf (omega arith) (omega arith) hl hv in
    let (out, e', l', cells, f') =
      put_cells_lem keys values (suc i) c b (omega arith) hvs (omega arith) (omega (arith, l))
        (omega (arith, l)) in
    let fits : ltb cursor (cell_bytes key) ≡ false = ground arith in
    (
      out,
      rw (fits, e, e') refl,
      l' ∙ l,
      (Holds-eq i c key value b out holds f', cells),
      λ o n a. f' o n (under o n a) ∙ f o n (slot_apart o n a) (cell_apart o n a),
    )
  where
    under :
        (o n : ℕ)
        → (o + n ≤ node_header + i * slot) ⊎ (cursor ≤ o)
        → (o + n ≤ node_header + suc i * slot) ⊎ (cursor - cell_bytes key ≤ o)
    under o n (inl a) = inl (omega arith)
    under o n (inr a) = inr (omega arith)

    slot_apart :
        (o n : ℕ)
        → (o + n ≤ node_header + i * slot) ⊎ (cursor ≤ o)
        → Apart o n (node_header + i * slot) 2
    slot_apart o n (inl a) = inl a
    slot_apart o n (inr a) = inr (omega arith)

    cell_apart :
        (o n : ℕ)
        → (o + n ≤ node_header + i * slot) ⊎ (cursor ≤ o)
        → Apart o n (cursor - cell_bytes key) (cell_bytes key)
    cell_apart o n (inl a) = inl (omega arith)
    cell_apart o n (inr a) = inr (omega arith)
