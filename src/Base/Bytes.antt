-- ===== src/Base/Bytes.antt =====
-- Byte buffers: `buf[o..o + n]` and `buf[o..o + n].copy_from_slice(bs)`, where an access out of
-- range is a panic, `none`; and how reads and writes interact.
use chu_sql.Base.{
  ℕ, zero, suc, ◌+◌, ◌≤◌, ◌<◌, ◌≡◌, refl, Option, none, some, List, [], ◌∷◌, ◌++◌, arith, length,
  option_map,
}
use native.Mathlib.Nat.{zero-add, suc-add}

abbrev pub Bytes : Type 0
Bytes = List ℕ

-- The first `n` bytes, if there are that many.
abbrev pub take_exact : ℕ → Bytes → Option Bytes
take_exact zero bs = some []
take_exact (suc n) [] = none
take_exact (suc n) (b ∷ bs) = option_map (◌∷◌ b) (take_exact n bs)

-- `buf[o..o + n]`
unfoldable pub slice : ℕ → ℕ → Bytes → Option Bytes
slice zero n buf = take_exact n buf
slice (suc o) n [] = none
slice (suc o) n (b ∷ buf) = slice o n buf

-- `buf[0..ds.len()].copy_from_slice(ds)`
abbrev pub put_prefix : Bytes → Bytes → Option Bytes
put_prefix [] buf = some buf
put_prefix (d ∷ ds) [] = none
put_prefix (d ∷ ds) (b ∷ buf) = option_map (◌∷◌ d) (put_prefix ds buf)

-- `buf[o..o + ds.len()].copy_from_slice(ds)`
unfoldable pub splice : ℕ → Bytes → Bytes → Option Bytes
splice zero ds buf = put_prefix ds buf
splice (suc o) ds [] = none
splice (suc o) ds (b ∷ buf) = option_map (◌∷◌ b) (splice o ds buf)

take_exact_total :
    (n : ℕ) (buf : Bytes)
    → n ≤ length buf
    → (out : Bytes) × (take_exact n buf ≡ some out) × (length out ≡ n)
take_exact_total zero buf h = ([], refl, refl)
take_exact_total (suc n) [] h = absurd (omega arith)
take_exact_total (suc n) (b ∷ buf) h =
    let (out, e, l) = take_exact_total n buf (omega arith) in (b ∷ out, ground arith, ground arith)

-- A read within the buffer succeeds.
pub slice_total :
    (o n : ℕ) (buf : Bytes)
    → o + n ≤ length buf
    → (out : Bytes) × (slice o n buf ≡ some out) × (length out ≡ n)
unfolding slice
slice_total zero n buf h = take_exact_total n buf (omega arith)
slice_total (suc o) n [] h = absurd (omega arith)
slice_total (suc o) n (b ∷ buf) h = slice_total o n buf (omega arith)

put_prefix_total :
    (ds buf : Bytes) → length ds ≤ length buf → (out : Bytes) × (put_prefix ds buf ≡ some out)
put_prefix_total [] buf h = (buf, refl)
put_prefix_total (d ∷ ds) [] h = absurd (omega arith)
put_prefix_total (d ∷ ds) (b ∷ buf) h =
    let (out, e) = put_prefix_total ds buf (omega arith) in (d ∷ out, ground arith)

-- A write within the buffer succeeds.
pub splice_total :
    (o : ℕ) (ds buf : Bytes)
    → o + length ds ≤ length buf
    → (out : Bytes) × (splice o ds buf ≡ some out)
unfolding splice
splice_total zero ds buf h = put_prefix_total ds buf (omega arith)
splice_total (suc o) ds [] h = absurd (omega arith)
splice_total (suc o) ds (b ∷ buf) h =
    let (out, e) = splice_total o ds buf (omega arith) in (b ∷ out, ground arith)

module _ {ℓ κ} {A : Type ℓ} {B : Type κ} where
  pub option_map-eq-some :
      (f : A → B) (o : Option A) {c : B}
      → option_map f o ≡ some c
      → (a : A) × (o ≡ some a) × (f a ≡ c)
  option_map-eq-some f none e = cc
  option_map-eq-some f (some a) e = (a, refl, ground arith)

length-put_prefix : (ds buf out : Bytes) → put_prefix ds buf ≡ some out → length out ≡ length buf
length-put_prefix [] buf out e = ground arith
length-put_prefix (d ∷ ds) [] out e = cc
length-put_prefix (d ∷ ds) (b ∷ buf) out e =
    let (rest, s, q) = option_map-eq-some (◌∷◌ d) (put_prefix ds buf) e in
    ground (arith, length-put_prefix ds buf rest s)

pub length-splice :
    (o : ℕ) (ds buf out : Bytes) → splice o ds buf ≡ some out → length out ≡ length buf
unfolding splice
length-splice zero ds buf out e = length-put_prefix ds buf out e
length-splice (suc o) ds [] out e = cc
length-splice (suc o) ds (b ∷ buf) out e =
    let (rest, s, q) = option_map-eq-some (◌∷◌ b) (splice o ds buf) e in
    ground (arith, length-splice o ds buf rest s)

take-put_prefix_self :
    (ds buf out : Bytes) → put_prefix ds buf ≡ some out → take_exact (length ds) out ≡ some ds
take-put_prefix_self [] buf out e = refl
take-put_prefix_self (d ∷ ds) [] out e = cc
take-put_prefix_self (d ∷ ds) (b ∷ buf) out e =
    let (rest, s, q) = option_map-eq-some _ _ e in rw (← q, take-put_prefix_self ds buf rest s)

-- What was written is read back.
pub slice-splice_self :
    (o : ℕ) (ds buf out : Bytes) → splice o ds buf ≡ some out → slice o (length ds) out ≡ some ds
unfolding splice slice
slice-splice_self zero ds buf out e = take-put_prefix_self ds buf out e
slice-splice_self (suc o) ds [] out e = cc
slice-splice_self (suc o) ds (b ∷ buf) out e =
    let (rest, s, q) = option_map-eq-some _ _ e in rw (← q) (slice-splice_self o ds buf rest s)

slice-put_prefix :
    (ds buf out : Bytes) (p n : ℕ)
    → put_prefix ds buf ≡ some out
    → length ds ≤ p
    → slice p n out ≡ slice p n buf
unfolding slice
slice-put_prefix [] buf out p n e h = cc
slice-put_prefix (d ∷ ds) [] out p n e h = cc
slice-put_prefix (d ∷ ds) (b ∷ buf) out zero n e h = absurd (omega arith)
slice-put_prefix (d ∷ ds) (b ∷ buf) out (suc p) n e h =
    let (rest, s, q) = option_map-eq-some _ _ e in
    rw (← q) (slice-put_prefix ds buf rest p n s (omega arith))

take-splice :
    (o : ℕ) (ds buf out : Bytes) (n : ℕ)
    → splice o ds buf ≡ some out
    → n ≤ o
    → take_exact n out ≡ take_exact n buf
unfolding splice
take-splice o ds buf out zero e h = refl
take-splice zero ds buf out (suc n) e h = absurd (omega arith)
take-splice (suc o) ds [] out (suc n) e h = cc
take-splice (suc o) ds (b ∷ buf) out (suc n) e h =
    let (rest, s, q) = option_map-eq-some _ _ e in
    rw (← q, take-splice o ds buf rest n s (omega arith))

-- A read that ends before a write, or starts after it, is not changed by it.
pub slice-splice_before :
    (o : ℕ) (ds buf out : Bytes) (p n : ℕ)
    → splice o ds buf ≡ some out
    → p + n ≤ o
    → slice p n out ≡ slice p n buf
unfolding slice splice
slice-splice_before o ds buf out zero n e h = take-splice o ds buf out n e (omega arith)
slice-splice_before zero ds buf out (suc p) n e h = absurd (omega arith)
slice-splice_before (suc o) ds [] out (suc p) n e h = cc
slice-splice_before (suc o) ds (b ∷ buf) out (suc p) n e h =
    let (rest, s, q) = option_map-eq-some _ _ e in
    rw (← q) (slice-splice_before o ds buf rest p n s (omega arith))

pub slice-splice_after :
    (o : ℕ) (ds buf out : Bytes) (p n : ℕ)
    → splice o ds buf ≡ some out
    → o + length ds ≤ p
    → slice p n out ≡ slice p n buf
unfolding slice splice
slice-splice_after zero ds buf out p n e h = slice-put_prefix ds buf out p n e (omega arith)
slice-splice_after (suc o) ds [] out p n e h = cc
slice-splice_after (suc o) ds (b ∷ buf) out zero n e h = absurd (omega arith)
slice-splice_after (suc o) ds (b ∷ buf) out (suc p) n e h =
    let (rest, s, q) = option_map-eq-some _ _ e in
    rw (← q) (slice-splice_after o ds buf rest p n s (omega arith))

-- A buffer in two parts: a read that starts behind the first part is a read of the second.
pub slice-append_skip :
    (pre rest : Bytes) (n : ℕ) → slice (length pre) n (pre ++ rest) ≡ take_exact n rest
unfolding slice
slice-append_skip [] rest n = refl
slice-append_skip (b ∷ pre) rest n = slice-append_skip pre rest n

pub slice-append_shift :
    (pre rest : Bytes) (o n : ℕ) → slice (length pre + o) n (pre ++ rest) ≡ slice o n rest
unfolding slice
slice-append_shift [] rest o n = rw zero-add
slice-append_shift (b ∷ pre) rest o n = rw suc-add (slice-append_shift pre rest o n)

pub take_exact-append : (xs ys : Bytes) → take_exact (length xs) (xs ++ ys) ≡ some xs
take_exact-append [] ys = refl
take_exact-append (x ∷ xs) ys = rw (take_exact-append xs ys)

take_exact-short : (n : ℕ) (buf : Bytes) → length buf < n → take_exact n buf ≡ none
take_exact-short zero buf h = absurd (omega arith)
take_exact-short (suc n) [] h = refl
take_exact-short (suc n) (b ∷ buf) h = rw (take_exact-short n buf (omega arith))

-- The middle part of a buffer in three parts.
pub slice_middle :
    (pre mid post : Bytes) (o n : ℕ)
    → o ≡ length pre
    → n ≡ length mid
    → slice o n (pre ++ (mid ++ post)) ≡ some mid
slice_middle pre mid post o n ho hn = rw (ho, hn, slice-append_skip) (take_exact-append mid post)

length-take_exact : (n : ℕ) (buf out : Bytes) → take_exact n buf ≡ some out → length out ≡ n
length-take_exact zero buf out e = ground (arith, e)
length-take_exact (suc n) [] out e = cc
length-take_exact (suc n) (b ∷ buf) out e =
    let (rest, s, q) = option_map-eq-some (◌∷◌ b) (take_exact n buf) e in
    ground (arith, length-take_exact n buf rest s)

pub length-slice : (o n : ℕ) (buf out : Bytes) → slice o n buf ≡ some out → length out ≡ n
unfolding slice
length-slice zero n buf out e = length-take_exact n buf out e
length-slice (suc o) n [] out e = cc
length-slice (suc o) n (b ∷ buf) out e = length-slice o n buf out e
