-- ===== src/BTree/Chain.antt =====
-- The second loop of `scan` in btree.rs, against the entries of the leaves that it walks.
use chu_sql.Base.{
  ℕ, zero, suc, ◌*◌, ◌^◌, ◌<◌, ◌≡◌, ◌≢◌, refl, sym, ap, subst, ◌∙◌, inl, inr, Bool, true, false,
  not, ◌&&◌, Option, none, some, List, [], ◌∷◌, ◌++◌, length, ◌==◌, Result, ok, err, filter,
  filter-append, All, arith, Bool-cases, eqb→eq, unwrap_or,
}
use chu_sql.Base.Bytes.{Bytes}
use chu_sql.Base.Text.{Str}
use chu_sql.Page.PageFile.{PageFile, Exec, continue, with_page, note_access, cached}
use chu_sql.Page.PageFile.View.{
  view, IsValid, Keeps, Keeps-refl, Keeps-trans, Keeps-IsValid, Keeps-view, Keeps-size,
}
use chu_sql.Page.PageFile.Refinement.{Refused}
use chu_sql.Page.PageFile.Reads.{Accessed, note_access-Accessed}
use chu_sql.Page.PageFile.Refusals.{Later, Later-refl, Later-trans, Lasts, note_access-Lasts}
use chu_sql.BTree.Keys.{key_lt, key_le_trans}
use chu_sql.BTree.Node.{Node, get_node}
use chu_sql.BTree.Slots.{zip}
use chu_sql.BTree.Disk.{load, pure, ◌>>=◌, checked, lift}
use chu_sql.BTree.Scan.{in_range, below, above, walk}

-- A method that gives `a` and loses no page; its only failure is that of the journal on the pages
-- that were dirty when it began.
unfoldable pub Gives : {A : Type 0} → PageFile → A → Result Str A × PageFile → Type 0
Gives p a (ok b, q) = (b ≡ a) × Keeps p q
Gives p a (err e, q) = Keeps p q × Refused p e

-- The same, with what it leaves for the journal.
unfoldable Steps : {A : Type 0} → PageFile → A → Result Str A × PageFile → Type 0
Steps p a (ok b, q) = (b ≡ a) × Keeps p q × Later p q
Steps p a (err e, q) = Keeps p q × Refused p e

Steps-Gives :
    {A : Type 0} (p : PageFile) (a : A) (r : Result Str A × PageFile) → Steps p a r → Gives p a r
unfolding Steps Gives
Steps-Gives p a (ok b, q) (e, k, l) = (e, k)
Steps-Gives p a (err e, q) s = s

with_page-Steps :
    {A : Type 0} (id : ℕ) (f : Bytes → A) (p : PageFile) (page : Bytes)
    → IsValid p
    → id * p.page_size < 2 ^ 64
    → view p id ≡ some page
    → Steps p (f page) (with_page id f p)
unfolding with_page Steps Accessed
with_page-Steps id f p page v small there =
    go (note_access id p) (note_access-Accessed id p v small) (note_access-Lasts id p v)
  where
    go :
        (r : Result Str (Unit {0}) × PageFile)
        → Accessed p id r
        → Lasts p r
        → Steps p (f page) (continue r (λ u p'. (ok (f (cached id p')), p')))
    go (err e, q) (k, inl gone) l = absurd (ground (arith, gone, there))
    go (err e, q) (k, inr refused) l = (k, refused)
    go (ok u, q) (k, b, e, here) l =
        (ap (λ o. f (unwrap_or {A = Bytes} o [])) (here ∙ sym e ∙ there), k, l)

-- What follows a method.
then-Steps :
    {A B : Type 0} (p : PageFile) (a : A) (b : B) (r : Result Str A × PageFile) (f : A → Exec B)
    → Steps p a r
    → ((q : PageFile) → Keeps p q → Steps q b (f a q))
    → Steps p b (continue r f)
unfolding Steps Later
then-Steps p a b (err e, q) f g h = g
then-Steps {B = B} p a b (ok x, q) f (same, k, l) h = rw same (go (f a q) (h q k))
  where
    go : (r : Result Str B × PageFile) → Steps q b r → Steps p b r
    go (ok y, q') (e, k', l') = (e, Keeps-trans p q q' k k', Later-trans p q q' l l')
    go (err e, q') (k', refused) = (Keeps-trans p q q' k k', l e refused)

pure-Steps : {A : Type 0} (p : PageFile) (a : A) → IsValid p → Steps p a (pure a p)
unfolding Steps
pure-Steps p a v = (refl, Keeps-refl p v, Later-refl p)

-- Page `id`, whose offset fits in 64 bits, holds the node.
abbrev pub NodeAt : PageFile → ℕ → Node → Type 0
NodeAt p id node =
    (id * p.page_size < 2 ^ 64)
    × (page : Bytes) × (view p id ≡ some page)
    × (get_node page ≡ some (ok node))

load-Steps :
    (id : ℕ) (p : PageFile) (node : Node) → IsValid p → NodeAt p id node → Steps p node (load id p)
unfolding load
load-Steps id p node v (small, page, there, e) =
    then-Steps p (some (ok node)) node (with_page id get_node p) (λ r. checked r >>= lift)
      (subst (λ n. Steps p n (with_page id get_node p)) e
        (with_page-Steps id get_node p page v small there))
      (λ q k. pure-Steps q node (Keeps-IsValid p q k))

NodeAt-Keeps :
    (p q : PageFile) (id : ℕ) (node : Node) → Keeps p q → NodeAt p id node → NodeAt q id node
NodeAt-Keeps p q id node k (small, page, there, e) = (
  subst (λ n. id * n < 2 ^ 64) (sym (Keeps-size p q k)) small,
  page,
  Keeps-view p q k id page there,
  e,
)

-- The chain of leaves from page `id` on: each names the next one, the last names none.
abbrev pub Chain : PageFile → ℕ → List Node → Type 0
Chain p id [] = id ≡ 0
Chain p id (node ∷ nodes) = (id ≢ 0) × NodeAt p id node × Chain p node.next nodes

Chain-Keeps :
    (p q : PageFile) (id : ℕ) (nodes : List Node) → Keeps p q → Chain p id nodes → Chain q id nodes
Chain-Keeps p q id [] k c = c
Chain-Keeps p q id (node ∷ nodes) k (z, a, c) =
    (z, NodeAt-Keeps p q id node k a, Chain-Keeps p q node.next nodes k c)

-- The entries of some leaves, in their order.
abbrev pub entries : List Node → List (Bytes × ℕ)
entries [] = []
entries (node ∷ nodes) = zip node.keys node.values ++ entries nodes

-- No key is less than an earlier one.
abbrev pub Sorted : List (Bytes × ℕ) → Type 0
Sorted [] = Unit {0}
Sorted (e ∷ es) = All (λ (f : Bytes × ℕ). key_lt f.0 e.0 ≡ false) es × Sorted es

-- The entry lies between the bounds.
abbrev pub inside : Option Bytes → Option Bytes → Bytes × ℕ → Bool
inside lo hi (key, value) = not (below lo key) && not (above hi key)

filter_beyond :
    (lo hi : Option Bytes) (key : Bytes) (es : List (Bytes × ℕ))
    → above hi key ≡ true
    → All (λ (f : Bytes × ℕ). key_lt f.0 key ≡ false) es
    → filter (inside lo hi) es ≡ []
filter_beyond lo hi key [] h a = refl
filter_beyond lo none key ((k, v) ∷ es) h a = ground (arith, h)
filter_beyond lo (some end) key ((k, v) ∷ es) h (a, rest) = elim (Bool-cases (key_lt end k)) [
  | inl y ↦ ground (arith, y, filter_beyond lo (some end) key es h rest)
  | inr n ↦ absurd (ground (arith, h, key_le_trans key k end a n))
]

-- One leaf, with what comes behind it.
in_range_lem :
    (lo hi : Option Bytes) (keys : List Bytes) (values : List ℕ) (rest : List (Bytes × ℕ))
    → Sorted (zip keys values ++ rest)
    → let found = in_range lo hi keys values in
      (found.1 ≡ false → found.0 ≡ filter (inside lo hi) (zip keys values))
      × (found.1 ≡ true → found.0 ≡ filter (inside lo hi) (zip keys values ++ rest))
unfolding in_range
in_range_lem lo hi [] values rest s = (λ e. refl, λ e. ground (arith, e))
in_range_lem lo hi (key ∷ keys) [] rest s = (λ e. refl, λ e. ground (arith, e))
in_range_lem lo hi (key ∷ keys) (value ∷ values) rest (a, s) =
    let (f, t) = in_range_lem lo hi keys values rest s in
    elim (Bool-cases (below lo key)) [
      | inl y ↦ rw y (f, t)
      | inr n ↦ rw n (elim (Bool-cases (above hi key)) [
        | inl y ↦ rw y (
          λ e. ground (arith, e),
          λ e. sym (filter_beyond lo hi key (zip keys values ++ rest) y a),
        )
        | inr m ↦
            rw m (λ e. ap (λ r. (key, value) ∷ r) (f e), λ e. ap (λ r. (key, value) ∷ r) (t e))
      ])
    ]

Sorted-drop : (es fs : List (Bytes × ℕ)) → Sorted (es ++ fs) → Sorted fs
Sorted-drop [] fs s = s
Sorted-drop (e ∷ es) fs (a, s) = Sorted-drop es fs s

walk-Steps :
    (fuel : ℕ) (lo hi : Option Bytes) (id : ℕ) (p : PageFile) (nodes : List Node)
    → length nodes < fuel
    → IsValid p
    → Chain p id nodes
    → Sorted (entries nodes)
    → Steps p (filter (inside lo hi) (entries nodes)) (walk fuel lo hi id p)
unfolding walk
walk-Steps zero lo hi id p nodes h v c s = absurd (omega arith)
walk-Steps (suc fuel) lo hi id p [] h v c s = rw (walk, c) (pure-Steps p [] v)
walk-Steps (suc fuel) lo hi id p (node ∷ nodes) h v (z, at, c) s =
    let more : (id == 0) ≡ false = ground (arith, z, eqb→eq id 0) in
    let (f, t) = in_range_lem lo hi node.keys node.values (entries nodes) s in
    let found = in_range lo hi node.keys node.values in
    let all = filter (inside lo hi) (entries (node ∷ nodes)) in
    let later = filter (inside lo hi) (entries nodes) in
    rw more (
      then-Steps p node all (load id p) _ (load-Steps id p node v at) (λ q k.
        elim (Bool-cases (found.1)) [
          | inl y ↦ rw y (
              subst (λ es. Steps q es (pure (found.0) q)) (t y)
                (pure-Steps q (found.0) (Keeps-IsValid p q k)))
          | inr n ↦ rw n (
              then-Steps q later all (walk fuel lo hi node.next q) (λ rest. pure (found.0 ++ rest))
                (walk-Steps fuel lo hi node.next q nodes (omega arith) (Keeps-IsValid p q k)
                  (Chain-Keeps p q node.next nodes k c)
                  (Sorted-drop (zip node.keys node.values) (entries nodes) s))
                (λ q' k'.
                  subst (λ es. Steps q' es (pure (found.0 ++ later) q'))
                    (ap (λ es. es ++ later) (f n)
                      ∙ sym (
                          filter-append (inside lo hi) (zip node.keys node.values) (entries nodes)))
                    (pure-Steps q' (found.0 ++ later) (Keeps-IsValid q q' k'))))
        ]))

-- The walk of a range scan over a chain of leaves whose keys are in order, with fuel for each leaf
-- and for the end of the chain: it gives all entries of the leaves whose keys lie between the
-- bounds, in their order, and no others, and it loses no page; it fails only with the error with
-- which the journal refuses the pages that are dirty at its start.
pub walk-Gives :
    (fuel : ℕ) (lo hi : Option Bytes) (id : ℕ) (p : PageFile) (nodes : List Node)
    → length nodes < fuel
    → IsValid p
    → Chain p id nodes
    → Sorted (entries nodes)
    → Gives p (filter (inside lo hi) (entries nodes)) (walk fuel lo hi id p)
walk-Gives fuel lo hi id p nodes h v c s =
    Steps-Gives p (filter (inside lo hi) (entries nodes)) (walk fuel lo hi id p)
      (walk-Steps fuel lo hi id p nodes h v c s)
