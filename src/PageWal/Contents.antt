-- ===== src/PageWal/Contents.antt =====
-- What a run of page images leaves of the data file and of the page versions, page by page.
use chu_sql.Base.{
  ℕ, ◌+◌, ◌*◌, ◌≡◌, refl, subst, ap, ◌∙◌, inl, inr, Bool, true, false, Option, none, some, List, [],
  ◌∷◌, length, max, arith, ◌==◌, ltb, if◌then◌else◌, eqb→eq, Bool-cases,
}
use chu_sql.Base.Bytes.{Bytes, slice}
use chu_sql.Page.PageFile.Images.{slice-write_at_other, slice-write_page, length-write_at}
use chu_sql.PageWal.{PageWal, State, reset_page, page_at, put_page, apply_image, write_at}
use chu_sql.PageWal.Frames.{Image, Good}

-- The content of a page behind some images: that of its last image, or what was there; a reset
-- removes it.
abbrev pub content_after : List Image → ℕ → Option Bytes → Option Bytes
content_after [] id old = old
content_after (i ∷ is) id old =
    content_after is id
      (if i.page == reset_page then none else if i.page == id then some i.bytes else old)

-- The version of a page behind some images.
abbrev pub version_after : List Image → ℕ → Option ℕ → Option ℕ
version_after [] id old = old
version_after (i ∷ is) id old =
    version_after is id
      (if i.page == reset_page then none else if i.page == id then some i.lsn else old)

-- The length of the file: a reset empties it, a page beyond its end extends it.
abbrev pub length_after : ℕ → List Image → ℕ → ℕ
length_after n [] old = old
length_after n (i ∷ is) old =
    length_after n is (if i.page == reset_page then 0 else max old (i.page * n + n))

-- The sequence number of the last image.
abbrev pub sequence_after : List Image → ℕ → ℕ
sequence_after [] old = old
sequence_after (i ∷ is) old = sequence_after is i.sequence

page_at-put_page :
    (id page lsn : ℕ) (pages : List (ℕ × ℕ))
    → page_at id (put_page page lsn pages) ≡ (if page == id then some lsn else page_at id pages)
page_at-put_page id page lsn [] = refl
page_at-put_page id page lsn ((p, l) ∷ pages) = elim (Bool-cases (p == page)) [
  | inl y ↦
      rw y (elim (Bool-cases (page == id)) [
        | inl a ↦ rw a refl
        | inr b ↦ rw (eqb→eq p page y, b) refl
      ])
  | inr z ↦ rw z (elim (Bool-cases (ltb page p)) [
    | inl y ↦ rw y refl
    | inr n ↦ rw n (elim (Bool-cases (p == id)) [
      | inl a ↦ ground (arith, a, z, eqb→eq p id a, eqb→eq page id)
      | inr b ↦ rw b (page_at-put_page id page lsn pages)
    ])
  ])
]

-- What holds of the file and of the versions behind some images.
pub record Applied (is : List Image) (n : ℕ) (old file : Bytes) (before after : State)
    : Type 0 where
  pub pages :
      (id : ℕ) (page : Bytes)
      → content_after is id (slice (id * n) n old) ≡ some page
      → slice (id * n) n file ≡ some page
  pub extent : length file ≡ length_after n is (length old)
  pub versions : (id : ℕ) → page_at id after.pages ≡ version_after is id (page_at id before.pages)
  pub last : after.sequence ≡ sequence_after is before.sequence
  pub same_size : after.page_size ≡ before.page_size

module _ (i : Image) (file : Bytes) (j : PageWal) (g : Good j.state.page_size i) where
  abbrev n : ℕ
  n = j.state.page_size

  abbrev next : PageWal × Bytes
  next = apply_image i.sequence i.lsn i.page i.bytes (j, file)

  abbrev here : ℕ → Option Bytes → Option Bytes
  here id old = if i.page == reset_page then none else if i.page == id then some i.bytes else old

  one_page :
      (id : ℕ) (page : Bytes)
      → here id (slice (id * n) n file) ≡ some page
      → slice (id * n) n next.1 ≡ some page
  one_page id page e = elim g.shape [
    | inl (r, z) ↦
        let at_reset : (i.page == reset_page) ≡ true = ground (arith, r) in
        absurd (ground (arith, rw at_reset at e))
    | inr (ne, len, small) ↦
        let other : (i.page == reset_page) ≡ false = ground (arith, ne) in
        rw other (elim (Bool-cases (i.page == id)) [
          | inl y ↦
              subst (λ k. slice (k * n) n (write_at (i.page * n) i.bytes file) ≡ some page)
                (eqb→eq i.page id y)
                (slice-write_page i.page n i.bytes file len ∙ (rw (other, y) at e))
          | inr z ↦
              slice-write_at_other id i.page n i.bytes file page
                (λ q. absurd (ground (arith, q, z))) len (rw (other, z) at e)
        ])
  ]

  one_extent :
      length next.1 ≡ (if i.page == reset_page then 0 else max (length file) (i.page * n + n))
  one_extent = elim g.shape [
    | inl (r, z) ↦
        let at_reset : (i.page == reset_page) ≡ true = ground (arith, r) in rw at_reset refl
    | inr (ne, len, small) ↦
        let other : (i.page == reset_page) ≡ false = ground (arith, ne) in
        rw other (
          length-write_at (i.page * n) i.bytes file
          ∙ ap (λ k. max (length file) (i.page * n + k)) len)
  ]

  one_version :
      (id : ℕ)
      → page_at id (next.0).state.pages ≡ (
          if i.page == reset_page
          then none
          else if i.page == id
          then some i.lsn
          else page_at id j.state.pages)
  one_version id = elim (Bool-cases (i.page == reset_page)) [
    | inl y ↦ rw y refl
    | inr z ↦ rw z (page_at-put_page id i.page i.lsn j.state.pages)
  ]

-- An absent page gives no content that is not in the images.
content_mono :
    (is : List Image) (id : ℕ) (x y : Option Bytes) (page : Bytes)
    → ((b : Bytes) → x ≡ some b → y ≡ some b)
    → content_after is id x ≡ some page
    → content_after is id y ≡ some page
content_mono [] id x y page h e = h page e
content_mono (i ∷ is) id x y page h e =
    content_mono is id
      (if i.page == reset_page then none else if i.page == id then some i.bytes else x)
      (if i.page == reset_page then none else if i.page == id then some i.bytes else y) page
      (step (i.page == reset_page) (i.page == id)) e
  where
    step :
        (r s : Bool) (b : Bytes)
        → (if r then none else if s then some i.bytes else x) ≡ some b
        → (if r then none else if s then some i.bytes else y) ≡ some b
    step true s b q = q
    step false true b q = q
    step false false b q = h b q

pub Applied-none :
    (file : Bytes) (j : PageWal) → Applied [] j.state.page_size file file j.state j.state
Applied-none file j = record {
  pages = λ id page e. e;
  extent = refl;
  versions = λ id. refl;
  last = refl;
  same_size = refl;
}

-- One image more in front.
pub Applied-step :
    (i : Image) (is : List Image) (old file : Bytes) (j : PageWal) (after : State)
    → Good j.state.page_size i
    → let next = apply_image i.sequence i.lsn i.page i.bytes (j, old) in
      Applied is j.state.page_size next.1 file (next.0).state after
      → Applied (i ∷ is) j.state.page_size old file j.state after
Applied-step i is old file j after g a = record {
  pages = λ id page e. a.pages id page (content_mono is id _ _ page (one_page i old j g id) e);
  extent = a.extent ∙ ap (length_after j.state.page_size is) (one_extent i old j g);
  versions = λ id. a.versions id ∙ ap (version_after is id) (one_version i old j g id);
  last = a.last;
  same_size = a.same_size;
}
