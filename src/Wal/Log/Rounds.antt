-- ===== src/Wal/Log/Rounds.antt =====
-- The number of rounds that the loop of `Wal::parse` in wal.rs takes.
use chu_sql.Base.{
  ◌≢◌, err, ok, sym, ◌∙◌, none, [], Result, ap, Bool, true, if◌then◌else◌, ◌>>=◌, ℕ, zero, suc, ◌+◌,
  ◌<◌, ◌≡◌, refl, inl, inr, arith, some, length, ltb, Bool-cases, false,
}
use chu_sql.Base.Bytes.{Bytes}
use chu_sql.Base.Text.{Str}
use chu_sql.Base.Le.{of_le}
use chu_sql.Wal.Codec.{
  WalError, too_short, table_truncated, bad_utf8, part, out_of_fuel, decode_op, decode_body,
}
use chu_sql.Wal.Op.{Serde}
use chu_sql.Wal.Log.{Wal, parse, parse_loop}

module _ (S : Serde) where
  loop_rounds :
      (f g : ℕ) (buf : Bytes) (offset : ℕ)
      → length buf < f + offset
      → length buf < g + offset
      → 0 < f
      → 0 < g
      → parse_loop S f buf offset ≡ parse_loop S g buf offset
  unfolding parse_loop
  loop_rounds zero g buf offset h i a b = absurd (omega (arith, a))
  loop_rounds (suc f) zero buf offset h i a b = absurd (omega (arith, b))
  loop_rounds (suc f) (suc g) buf offset h i a b =
      let end : ℕ = offset + 4 + of_le (part offset 4 buf) in
      elim (Bool-cases (ltb (length buf) (offset + 4))) [
        | inl y ↦ rw (y) refl
        | inr y ↦ rw (y) (elim (Bool-cases (ltb (length buf) end)) [
          | inl z ↦ rw (z) refl
          | inr z ↦
              rw (z, loop_rounds f g buf end (omega arith) (omega arith) (left f h z) (left g i z))
                refl
        ])
      ]
    where
      left :
          (n : ℕ)
          → length buf < suc n + offset
          → ltb (length buf) (offset + 4 + of_le (part offset 4 buf)) ≡ false
          → 0 < n
      left n a z = ground arith

  decode_op_ends : (code : ℕ) (t : Str) (p : Bytes) → decode_op S code t p ≢ err out_of_fuel
  unfolding decode_op
  decode_op_ends code t p e = absurd (ground (arith, e))

  then_ends :
      {A B : Type 0} (d : Result WalError A) (f : A → Result WalError B)
      → d ≢ err out_of_fuel
      → ((a : A) → f a ≢ err out_of_fuel)
      → (d >>= f) ≢ err out_of_fuel
  then_ends (err x) f h k e = absurd (ground (arith, h, e))
  then_ends (ok a) f h k e = k a e

  if_ends :
      {A : Type 0} (b : Bool) (x : WalError) (y : Result WalError A)
      → x ≢ out_of_fuel
      → y ≢ err out_of_fuel
      → (if b then err x else y) ≢ err out_of_fuel
  if_ends true x y h k = λ e. absurd (ground (arith, h, e))
  if_ends false x y h k = k

  decode_body_ends : (body : Bytes) → decode_body S body ≢ err out_of_fuel
  unfolding decode_body
  decode_body_ends body =
      if_ends _ too_short _ (λ e. absurd (ground (arith, e)))
        (if_ends _ table_truncated _ (λ e. absurd (ground (arith, e)))
          (if_ends _ bad_utf8 _ (λ e. absurd (ground (arith, e)))
            (then_ends (decode_op S _ _ _) _ (decode_op_ends _ _ _)
              (λ a e. absurd (ground (arith, e))))))

  loop_ends :
      (f : ℕ) (buf : Bytes) (offset : ℕ)
      → length buf < f + offset
      → 0 < f
      → parse_loop S f buf offset ≢ err out_of_fuel
  unfolding parse_loop
  loop_ends zero buf offset h a e = absurd (omega (arith, a))
  loop_ends (suc f) buf offset h a e =
      let end : ℕ = offset + 4 + of_le (part offset 4 buf) in
      elim (Bool-cases (ltb (length buf) (offset + 4))) [
        | inl y ↦ absurd (ground (arith, rw y at e))
        | inr y ↦ elim (Bool-cases (ltb (length buf) end)) [
          | inl z ↦ absurd (ground (arith, rw (y, z) at e))
          | inr z ↦
              then_ends _ _ (decode_body_ends (part (offset + 4) (of_le (part offset 4 buf)) buf))
                (λ d.
                  then_ends _ _ (loop_ends f buf end (omega arith) (ground (arith, h, z)))
                    (λ r q. absurd (ground (arith, q))))
                (rw (y, z) at e)
        ]
      ]

  -- The loop of `Wal::parse` ends: `Wal::parse` does not run out of rounds, and with any number of
  -- rounds that exceeds the length of the log its loop gives the same.
  pub parse_rounds :
      (w : Wal) (buf : Bytes) (rounds : ℕ)
      → w.log ≡ some buf
      → length buf < rounds
      → (parse S w ≢ err out_of_fuel) × (parse_loop S rounds buf 0 ≡ parse S w)
  unfolding parse
  parse_rounds w buf rounds e h = (
    λ q. loop_ends (length buf + 1) buf 0 (omega arith) (omega arith) (sym opened ∙ q),
    loop_rounds rounds (length buf + 1) buf 0 (omega arith) (omega arith) (omega arith)
          (omega arith)
        ∙ sym opened,
  )
    where
      opened : parse S w ≡ parse_loop S (length buf + 1) buf 0
      opened = ap (λ o. elim o [ none ↦ ok ([], 0) | some b ↦ parse_loop S (length b + 1) b 0 ]) e
