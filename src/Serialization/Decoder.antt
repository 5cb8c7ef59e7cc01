-- ===== src/Serialization/Decoder.antt =====
-- What the format of src/serialization.rs means: a reader written from the layout that the `write_`
-- functions of that file produce. It is the yardstick for `read_var_u64`, and shows that what is
-- written can be read in one way only.
use nkn_sdk_rust.Prelude.{
  ℕ, ◌≡◌, refl, sym, ◌∙◌, ap, [], ◌∷◌, ◌++◌, ok, panicked, Outcome, arith, Bytes, length, ltb, ◌==◌,
  if◌then◌else◌, IsU64, append_assoc, ◌>>=◌, Bool-cases, inl, inr, leb,
}
use nkn_sdk_rust.Serialization.Buffers.{BytesMut}
use nkn_sdk_rust.Serialization.{
  drain, var_u64_buf, read_u16, read_u32, read_u64, write_var_u64, write_var_bytes,
}
use nkn_sdk_rust.Serialization.Uints.{
  drain-append, var_u64_buf_byte, var_u64_buf_u16, var_u64_buf_u32, var_u64_buf_u64,
  read_u16-put_u16, read_u32-put_u32, read_u64-put_u64,
}

module _ (m : BytesMut) where
  pub decode_var_u64 : Bytes → Outcome (ℕ × Bytes)
  decode_var_u64 [] = panicked
  decode_var_u64 (b ∷ rest) =
      if ltb b 0xFD
      then ok (b, rest)
      else if b == 0xFD
      then read_u16 m rest
      else if b == 0xFE
      then read_u32 m rest
      else read_u64 m rest

  pub decode_var_bytes : Bytes → Outcome (Bytes × Bytes)
  unfolding decode_var_u64
  decode_var_bytes bytes = do (len, rest) ← decode_var_u64 bytes; drain len rest

  decode_buf :
      (v : ℕ) (rest : Bytes) → IsU64 v → decode_var_u64 (var_u64_buf m v ++ rest) ≡ ok (v, rest)
  unfolding decode_var_u64
  decode_buf v rest h = elim (Bool-cases (ltb v 0xFD)) [
    | inl small ↦ rw (var_u64_buf_byte m v (ground arith)) (ground arith)
    | inr a ↦ elim (Bool-cases (leb v 0xFFFF)) [
      | inl b ↦
          rw (var_u64_buf_u16 m v (ground arith) (ground arith))
            (read_u16-put_u16 m v rest (ground arith))
      | inr b ↦ elim (Bool-cases (leb v 0xFFFFFFFF)) [
        | inl c ↦
            rw (var_u64_buf_u32 m v (ground arith) (ground arith))
              (read_u32-put_u32 m v rest (ground arith))
        | inr c ↦ rw (var_u64_buf_u64 m v (ground arith)) (read_u64-put_u64 m v rest h)
      ]
    ]
  ]

  -- A reader of the layout gets back every `u64` that `write_var_u64` wrote, and leaves what follows.
  pub decode_var_u64-write_var_u64 :
      (v : ℕ) (rest : Bytes)
      → IsU64 v
      → decode_var_u64 (write_var_u64 m [] v ++ rest) ≡ ok (v, rest)
  unfolding write_var_u64
  decode_var_u64-write_var_u64 v rest h = decode_buf v rest h

  pub decode_var_bytes-write_var_bytes :
      (v rest : Bytes)
      → IsU64 (length v)
      → decode_var_bytes (write_var_bytes m [] v ++ rest) ≡ ok (v, rest)
  unfolding decode_var_bytes write_var_bytes write_var_u64
  decode_var_bytes-write_var_bytes v rest h =
      rw (append_assoc (var_u64_buf m (length v)) v rest)
        (rw (decode_buf (length v) (v ++ rest) h) (drain-append (length v) v rest refl))

  -- Two byte strings that were written with anything after them are the same if the bytes are, and
  -- so is what follows.
  pub write_var_bytes-injective :
      (v w rest more : Bytes)
      → IsU64 (length v)
      → IsU64 (length w)
      → write_var_bytes m [] v ++ rest ≡ write_var_bytes m [] w ++ more
      → (v ≡ w) × (rest ≡ more)
  write_var_bytes-injective v w rest more hv hw e =
      let same : ◌≡◌ {A = Outcome (Bytes × Bytes)} (ok (v, rest)) (ok (w, more)) =
        sym (decode_var_bytes-write_var_bytes v rest hv)
        ∙ ap decode_var_bytes e
        ∙ decode_var_bytes-write_var_bytes w more hw in
      (cc, cc)

  -- Appending to what is there already.
  pub write_var_bytes-append :
      (bytes v : Bytes) → write_var_bytes m bytes v ≡ bytes ++ write_var_bytes m [] v
  unfolding write_var_bytes write_var_u64
  write_var_bytes-append bytes v = append_assoc bytes (var_u64_buf m (length v)) v
