-- ===== src/RingPedersen/Serialization/Bounds.antt =====
-- About the two functions of ring_pedersen.c that decode a key, on bytes of any kind.
use mpc_lib_demo.Buffer.Reads.{
  IsSafe, IsSafe-bind, IsSafe-guard, IsSafe-or_fail, read_bytes-IsSafe, read_u32-IsSafe,
}
use mpc_lib_demo.Buffer.{null_dereference, read_bytes, read_u32, refused, sub32, sub64}
use mpc_lib_demo.RingPedersen.Serialization.{
  Cursor, min_key_bits, private_deserialize, public_deserialize, public_deserialize_internal,
  read_number,
}
use mpc_lib_demo.OpenSsl.{OpenSsl}
use mpc_lib_demo.Base.{
  Bool, Bytes, and-left, and-right, arith, leb, leb→le, length, some, ℕ, ◌&&◌, ◌+◌, ◌<◌, ◌^◌, ◌≡◌,
  ◌≤◌,
}
use mpc_lib_demo.RingPedersen.{PublicKey}

-- The cursor stands in the buffer, with what is left of it behind.
pub record IsInside (buffer : Bytes) (reserve : ℕ) (cursor : Cursor) : Type 0 where
  pub total : cursor.at + cursor.left ≡ length buffer
  pub small : cursor.left < 2 ^ 32
  pub enough : reserve ≤ cursor.left

-- A modulus of 256 bits at least, and generators that do not exceed it.
pub record IsWellFormed (o : OpenSsl) (key : PublicKey) : Type 0 where
  pub long : min_key_bits ≤ o.bn_num_bits key.n
  pub s_le : key.s ≤ key.n
  pub t_le : key.t ≤ key.n

module _ (o : OpenSsl) (buffer : Bytes) where
  pub read_number-IsSafe :
      (reserve : ℕ) (cursor : Cursor)
      → IsInside buffer (reserve + 4) cursor
      → IsSafe
          (λ found. IsInside buffer reserve found.1)
          (read_number o buffer (reserve + 4) cursor)
  unfolding read_number
  read_number-IsSafe reserve cursor inside =
      IsSafe-bind (λ (w : ℕ). Unit {0}) _ (read_u32 buffer cursor.at) _
        (read_u32-IsSafe buffer cursor.at (omega (arith, inside.total, inside.enough)))
        (λ len u. IsSafe-guard _ (leb len (sub64 cursor.left (reserve + 4))) _ (λ fits.
          let le : len ≤ sub64 cursor.left (reserve + 4) = leb→le _ _ fits in
          let exact : len + (reserve + 4) ≤ cursor.left =
            omega (arith, inside.small, inside.enough) in
          IsSafe-bind (λ bs. length bs ≡ len) _ (read_bytes buffer (cursor.at + 4) len) _
            (read_bytes-IsSafe buffer (cursor.at + 4) len (omega (arith, inside.total)))
            (λ bs e. record {
              total = omega (arith, inside.total, inside.small);
              small = omega arith;
              enough = omega (arith, inside.small);
            })))

  pub internal-IsSafe :
      length buffer < 2 ^ 32
      → IsSafe
          (λ found. IsWellFormed o found.0 × (found.1 ≤ length buffer))
          (public_deserialize_internal o (some buffer) (length buffer))
  unfolding public_deserialize_internal
  internal-IsSafe small = IsSafe-guard _ (leb 12 (length buffer)) _ (λ enough.
      IsSafe-bind (λ found. IsInside buffer 8 found.1) _
        (read_number o buffer 12 (record { at = 0; left = length buffer })) _
        (read_number-IsSafe 8 (record { at = 0; left = length buffer })
          (record { total = omega arith; small = small; enough = leb→le _ _ enough }))
        (λ first inside.
          IsSafe-bind (λ found. IsInside buffer 4 found.1) _ (read_number o buffer 8 first.1) _
            (read_number-IsSafe 4 first.1 inside)
            (λ second inside'.
              IsSafe-bind (λ found. IsInside buffer 0 found.1) _ (read_number o buffer 4 second.1) _
                (read_number-IsSafe 0 second.1 inside')
                (λ third inside''. IsSafe-or_fail _ first.0 refused _ tt (λ n e.
                  IsSafe-or_fail _ second.0 refused _ tt (λ s e'.
                    IsSafe-or_fail _ third.0 refused _ tt (λ t e''.
                      IsSafe-guard _ (leb min_key_bits (o.bn_num_bits n)) _ (λ long.
                        IsSafe-guard _ (leb s n && leb t n) _ (λ le. (
                          record {
                            long = leb→le _ _ long;
                            s_le = leb→le _ _ (and-left (leb s n) (leb t n) le);
                            t_le = leb→le _ _ (and-right (leb s n) (leb t n) le);
                          },
                          omega (arith, inside''.total),
                        ))))))))))

  public_deserialize-IsSafe :
      (calloc_works : Bool)
      → length buffer < 2 ^ 32
      → IsSafe
          (λ key. IsWellFormed o key)
          (public_deserialize o calloc_works (some buffer) (length buffer))
  unfolding public_deserialize
  public_deserialize-IsSafe calloc_works small = IsSafe-guard _ calloc_works _ (λ works.
      IsSafe-bind (λ found. IsWellFormed o found.0 × (found.1 ≤ length buffer)) _
        (public_deserialize_internal o (some buffer) (length buffer)) _ (internal-IsSafe small)
        (λ found h. h.0))

  private_deserialize-IsSafe :
      (calloc_works : Bool)
      → length buffer < 2 ^ 32
      → IsSafe
          (λ key. IsWellFormed o key.public)
          (private_deserialize o calloc_works (some buffer) (length buffer))
  unfolding private_deserialize
  private_deserialize-IsSafe calloc_works small = IsSafe-guard _ calloc_works _ (λ works.
      IsSafe-bind (λ found. IsWellFormed o found.0 × (found.1 ≤ length buffer)) _
        (public_deserialize_internal o (some buffer) (length buffer)) _ (internal-IsSafe small)
        (λ found h.
          let left : ℕ = sub32 (length buffer) found.1 in
          IsSafe-guard _ (leb 8 left) _ (λ enough.
            let start : IsInside buffer 8 (record { at = found.1; left = left }) = record {
              total = omega (arith, h.1);
              small = omega arith;
              enough = leb→le _ _ enough;
            } in
            IsSafe-bind (λ r. IsInside buffer 4 r.1) _
              (read_number o buffer 8 (record { at = found.1; left = left })) _
              (read_number-IsSafe 4 _ start)
              (λ first inside. IsSafe-or_fail _ first.0 null_dereference _ tt (λ lamda e.
                IsSafe-bind (λ r. IsInside buffer 0 r.1) _ (read_number o buffer 4 first.1) _
                  (read_number-IsSafe 0 first.1 inside)
                  (λ second inside'.
                    IsSafe-or_fail _ second.0 null_dereference _ tt (λ phi_n e'. h.0)))))))

  -- Whatever the bytes are, and whether or not OpenSSL fails, decoding a public or a private key
  -- reads no byte outside the buffer, and a key that is returned has a modulus of 256 bits at least
  -- that its generators do not exceed.
  pub deserialize-IsSafe :
      (calloc_works : Bool)
      → length buffer < 2 ^ 32
      → IsSafe
          (λ key. IsWellFormed o key)
          (public_deserialize o calloc_works (some buffer) (length buffer))
        × IsSafe
            (λ key. IsWellFormed o key.public)
            (private_deserialize o calloc_works (some buffer) (length buffer))
  deserialize-IsSafe calloc_works small =
      (public_deserialize-IsSafe calloc_works small, private_deserialize-IsSafe calloc_works small)
