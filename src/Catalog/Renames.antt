-- ===== src/Catalog/Renames.antt =====
-- Renaming a table in catalog.rs.
use chu_sql.Base.{
  ◌+◌, ◌^◌, ◌≡◌, ◌≢◌, refl, sym, ap, ◌∙◌, ◌⊎◌, inl, inr, Bool, true, false, Option, none, some,
  List, bytes_eq, bytes_eq→eq, bytes_eq_refl, leb, if◌then◌else◌, Result, ok, err, arith,
  Bool-cases, Option-cases, unwrap_or,
}
use chu_sql.Base.Text.{Str}
use chu_sql.Catalog.{
  Kinds, TableSchema, Catalog, named, put_named, remove_named, describe, rename_table,
  next_schema_version,
}
use chu_sql.Catalog.Names.{named-put_named, named-remove_named}
use chu_sql.Catalog.Objects.{IsValid}

module _ {K : Kinds} where
  -- What is promised of a change of name.
  unfoldable pub Renamed : Catalog K → Str → Str → Result Str Bool × Catalog K → Type 0
  unfolding IsValid describe
  Renamed c source target (err e, c') =
      (c' ≡ c) × ((s : TableSchema K) × (describe source c ≡ some s))
  Renamed c source target (ok false, c') = (c' ≡ c) × (describe source c ≡ none)
  Renamed c source target (ok true, c') =
      IsValid c'
      × ((s t : TableSchema K) × (describe source c ≡ some s)
          × (describe target c' ≡ some t)
          × (t.object_id ≡ s.object_id)
          × (t.schema_version ≡ s.schema_version + 1)
          × (t.columns ≡ s.columns))
      × (describe source c' ≡ none)
      × ((n : Str) → n ≢ source → n ≢ target → describe n c' ≡ describe n c)

  -- A table goes to another name.
  module _ (c : Catalog K) (source target : Str) (s t : TableSchema K)
      (here : named source c.tables ≡ some s) (same : t.object_id ≡ s.object_id) where
    at_name :
        (n : Str)
        → named n (put_named target t (remove_named source c.tables)) ≡ (
            if bytes_eq target n
            then some t
            else (if bytes_eq source n then none else named n c.tables))
    at_name n =
        named-put_named n target t (remove_named source c.tables)
        ∙ ap (λ o. if bytes_eq target n then some t else o) (named-remove_named n source c.tables)

    -- Where a table of the changed catalog stood before.
    before_move :
        (n : Str) (u : TableSchema K)
        → named n (put_named target t (remove_named source c.tables)) ≡ some u
        → (m : Str) × (w : TableSchema K) × (named m c.tables ≡ some w)
          × (u.object_id ≡ w.object_id)
          × (((m ≡ source) × (n ≡ target)) ⊎ ((m ≡ n) × (n ≢ source)))
    before_move n u f = elim (Bool-cases (bytes_eq target n)) [
      | inl y ↦ (
        source,
        s,
        here,
        sym (
              ap (λ (o : Option (TableSchema K)). (unwrap_or o t).object_id)
                (rw (at_name n, y) at f))
            ∙ same,
        inl (refl, sym (bytes_eq→eq target n y)),
      )
      | inr z ↦ elim (Bool-cases (bytes_eq source n)) [
        | inl y ↦ absurd (ground (arith, at_name n, z, y, f))
        | inr x ↦ (
          n,
          u,
          (rw (at_name n, z, x) at f),
          refl,
          inr (refl, λ q. absurd (ground (arith, x, ap (bytes_eq source) q, bytes_eq_refl source))),
        )
      ]
    ]

    moved-IsValid :
        (seen : List (Str × K.Seen))
        → IsValid c
        → IsValid
            (record c { tables = put_named target t (remove_named source c.tables); seen = seen })
    unfolding IsValid
    moved-IsValid seen (below, unique) = (
      λ n u f. let (m, w, g, q, l) = before_move n u f in omega (arith, below m w g, q),
      λ n n' u u' f f' q p.
          let (m, w, g, a, l) = before_move n u f in
          let (m', w', g', a', l') = before_move n' u' f' in
          let one : m ≡ m' = unique m m' w w' g g' (sym a ∙ q ∙ a') (omega (arith, p, a)) in
          joined n n' m m' one l l',
    )
      where
        joined :
            (n n' m m' : Str)
            → m ≡ m'
            → ((m ≡ source) × (n ≡ target)) ⊎ ((m ≡ n) × (n ≢ source))
            → ((m' ≡ source) × (n' ≡ target)) ⊎ ((m' ≡ n') × (n' ≢ source))
            → n ≡ n'
        joined n n' m m' e (inl (a, b)) (inl (a', b')) = b ∙ sym b'
        joined n n' m m' e (inl (a, b)) (inr (a', b')) = absurd (b' (sym a' ∙ sym e ∙ a))
        joined n n' m m' e (inr (a, b)) (inl (a', b')) = absurd (b (sym a ∙ e ∙ a'))
        joined n n' m m' e (inr (a, b)) (inr (a', b')) = sym a ∙ e ∙ a'

  -- `Catalog::rename_table` on a valid catalog: an error leaves the catalog as it was, and so does the
  -- answer that there is no such table; otherwise the table stands under the new name with its
  -- number, its columns and the next version, the old name is free, all other tables are as they
  -- were, and the catalog is valid.
  pub rename_table-Renamed :
      (c : Catalog K) (source target : Str)
      → IsValid c
      → Renamed c source target (rename_table source target c)
  unfolding rename_table Renamed describe next_schema_version
  rename_table-Renamed c source target v = elim (Option-cases (named source c.tables)) [
    | inl e ↦ rw (rename_table, e) (refl, e)
    | inr (s, e) ↦
        rw (rename_table, e)
          (elim (Option-cases (named target c.tables)) [
            | inr (t, f) ↦ rw f (refl, (s, e))
            | inl f ↦ rw f (elim (Bool-cases (leb (2 ^ 64) (s.schema_version + 1))) [
              | inl y ↦ rw y (refl, (s, e))
              | inr z ↦ rw z (
                  let t : TableSchema K = record s { schema_version = s.schema_version + 1 } in
                  let apart : bytes_eq target source ≡ false =
                    elim (Bool-cases (bytes_eq target source)) [
                      | inl y ↦ absurd (
                          ground
                            (arith, ap (λ k. named k c.tables) (bytes_eq→eq target source y), e, f))
                      | inr z ↦ z
                    ] in
                  (
                    moved-IsValid c source target s t e refl (remove_named source c.seen) v,
                    (
                      s,
                      t,
                      e,
                      rw (at_name c source target s t e refl target, bytes_eq_refl target) refl,
                      refl,
                      refl,
                      refl,
                    ),
                    rw (at_name c source target s t e refl source, apart, bytes_eq_refl source)
                        refl,
                    λ n a b.
                        let x : bytes_eq target n ≡ false = differ target n b in
                        let w : bytes_eq source n ≡ false = differ source n a in
                        rw (at_name c source target s t e refl n, x, w) refl,
                  ))
            ])
          ])
  ]
    where
      differ : (k n : Str) → n ≢ k → bytes_eq k n ≡ false
      differ k n ne = elim (Bool-cases (bytes_eq k n)) [
        | inl y ↦ absurd (ne (sym (bytes_eq→eq k n y)))
        | inr z ↦ z
      ]
