-- ===== src/RingPedersen/Serialization/Fields.antt =====
-- The fields of an encoded key of ring_pedersen.c, and what is decoded from them.
use mpc_lib_demo.Buffer.{sub32, sub64, u32_bytes}
use mpc_lib_demo.RingPedersen.Serialization.Bounds.{IsWellFormed}
use mpc_lib_demo.RingPedersen.Serialization.{
  Cursor, field_bytes, public_bytes, public_deserialize, public_deserialize_internal, read_number,
}
use mpc_lib_demo.OpenSsl.{IsOpenSsl, OpenSsl}
use mpc_lib_demo.Base.{
  Bytes, [], ap, append-nil, append_assoc, arith, length, length-append, le→leb, ok, refl, some,
  sym, true, ℕ, ◌++◌, ◌+◌, ◌-◌, ◌<◌, ◌^◌, ◌∙◌, ◌≡◌, ◌≤◌,
}
use mpc_lib_demo.Buffer.Reads.{read_bytes-append, read_u32-append}
use mpc_lib_demo.RingPedersen.{PublicKey}

module _ (o : OpenSsl) (laws : IsOpenSsl o) where
  pub length-field_bytes : (a : ℕ) → length (field_bytes o a) ≡ 4 + o.bn_num_bytes a
  unfolding field_bytes
  length-field_bytes a = omega (arith, laws.length-bn2bin a)

  pub read_number-field :
      (buffer before behind : Bytes) (a reserve : ℕ) (cursor : Cursor)
      → buffer ≡ before ++ (field_bytes o a ++ behind)
      → cursor.at ≡ length before
      → cursor.at + cursor.left ≡ length buffer
      → cursor.left < 2 ^ 32
      → reserve ≤ length behind
      → read_number o buffer (reserve + 4) cursor
        ≡ ok (
          some a,
          record {
            at = cursor.at + (4 + o.bn_num_bytes a);
            left = cursor.left - (4 + o.bn_num_bytes a);
          },
        )
  unfolding read_number field_bytes
  read_number-field buffer before behind a reserve cursor e here total small room =
      let len : ℕ = o.bn_num_bytes a in
      let word : Bytes = u32_bytes len in
      let bin : Bytes = o.bn_bn2bin a in
      let whole : length buffer ≡ length before + (4 + len + length behind) = omega (
        arith,
        ap length e,
        length-append before (field_bytes o a ++ behind),
        length-append (field_bytes o a) behind,
        length-field_bytes a,
      ) in
      let first : buffer ≡ before ++ (word ++ (bin ++ behind)) =
        e ∙ ap (λ x. before ++ x) (append_assoc word bin behind) in
      let second : buffer ≡ (before ++ word) ++ (bin ++ behind) =
        first ∙ sym (append_assoc before word (bin ++ behind)) in
      let at' : cursor.at + 4 ≡ length (before ++ word) =
        omega (arith, length-append before word) in
      let next : cursor.at + 4 + len ≡ cursor.at + (4 + len) = omega arith in
      let less : sub32 (sub32 cursor.left 4) len ≡ cursor.left - (4 + len) = omega arith in
      rw
        (
          read_u32-append buffer before (bin ++ behind) cursor.at len first here (omega arith),
          le→leb len (sub64 cursor.left (reserve + 4)) (omega arith),
          read_bytes-append buffer (before ++ word) bin behind (cursor.at + 4) len second at'
              (sym (laws.length-bn2bin a)),
          laws.bin2bn bin,
          laws.bn2bin a,
          next,
          less,
        )
        refl

  -- The length of the three fields of a public key
  abbrev pub public_length : PublicKey → ℕ
  public_length key = 12 + o.bn_num_bytes key.n + o.bn_num_bytes key.s + o.bn_num_bytes key.t

  pub length-public_bytes : (key : PublicKey) → length (public_bytes o key) ≡ public_length key
  unfolding public_bytes
  length-public_bytes key = omega (
    arith,
    length-append (field_bytes o key.n) (field_bytes o key.s ++ field_bytes o key.t),
    length-append (field_bytes o key.s) (field_bytes o key.t),
    length-field_bytes key.n,
    length-field_bytes key.s,
    length-field_bytes key.t,
  )

  pub internal-fields :
      (key : PublicKey) (buffer rest : Bytes)
      → IsWellFormed o key
      → buffer ≡ field_bytes o key.n ++ (field_bytes o key.s ++ (field_bytes o key.t ++ rest))
      → length buffer < 2 ^ 32
      → public_deserialize_internal o (some buffer) (length buffer) ≡ ok (key, public_length key)
  unfolding public_deserialize_internal
  internal-fields key buffer rest h e small =
      let fn : Bytes = field_bytes o key.n in
      let fs : Bytes = field_bytes o key.s in
      let ft : Bytes = field_bytes o key.t in
      let ln : ℕ = o.bn_num_bytes key.n in
      let ls : ℕ = o.bn_num_bytes key.s in
      let lt : ℕ = o.bn_num_bytes key.t in
      let e2 : buffer ≡ fn ++ (fs ++ (ft ++ rest)) = e in
      let e3 : buffer ≡ (fn ++ fs) ++ (ft ++ rest) = e ∙ sym (append_assoc fn fs (ft ++ rest)) in
      let third : length (ft ++ rest) ≡ 4 + lt + length rest =
        omega (arith, length-append ft rest, length-field_bytes key.t) in
      let second : length (fs ++ (ft ++ rest)) ≡ 4 + ls + length (ft ++ rest) =
        omega (arith, length-append fs (ft ++ rest), length-field_bytes key.s) in
      let total : length buffer ≡ 4 + ln + length (fs ++ (ft ++ rest)) =
        omega
          (arith, ap length e, length-append fn (fs ++ (ft ++ rest)), length-field_bytes key.n) in
      let front : length (fn ++ fs) ≡ 0 + (4 + ln) + (4 + ls) =
        omega (arith, length-append fn fs, length-field_bytes key.n, length-field_bytes key.s) in
      let c : Cursor = record { at = 0; left = length buffer } in
      let c2 : Cursor = record { at = 0 + (4 + ln); left = length buffer - (4 + ln) } in
      let c3 : Cursor = record {
        at = 0 + (4 + ln) + (4 + ls);
        left = length buffer - (4 + ln) - (4 + ls);
      } in
      rw
        (
          le→leb 12 (length buffer) (omega arith),
          read_number-field buffer [] (fs ++ (ft ++ rest)) key.n 8 c e2 refl (omega arith) small
              (omega arith),
          read_number-field buffer fn (ft ++ rest) key.s 4 c2 e
              (omega (arith, length-field_bytes key.n)) (omega arith) (omega arith) (omega arith),
          read_number-field buffer (fn ++ fs) rest key.t 0 c3 e3 (sym front) (omega arith)
              (omega arith) (omega arith),
          le→leb _ _ h.long,
          le→leb _ _ h.s_le,
          le→leb _ _ h.t_le,
        )
        (ap (λ (x : ℕ). ok (key, x)) {x = 0 + (4 + ln) + (4 + ls) + (4 + lt)}
          {y = public_length key} (omega arith))

  pub public_bytes-append :
      (key : PublicKey) (rest : Bytes)
      → public_bytes o key ++ rest
        ≡ field_bytes o key.n ++ (field_bytes o key.s ++ (field_bytes o key.t ++ rest))
  unfolding public_bytes
  public_bytes-append key rest =
      append_assoc (field_bytes o key.n) (field_bytes o key.s ++ field_bytes o key.t) rest
      ∙ ap (λ x. field_bytes o key.n ++ x)
          (append_assoc (field_bytes o key.s) (field_bytes o key.t) rest)

  pub public_deserialize-public_bytes :
      (key : PublicKey)
      → IsWellFormed o key
      → public_length key < 2 ^ 32
      → public_deserialize o true (some (public_bytes o key)) (length (public_bytes o key)) ≡ ok key
  unfolding public_deserialize
  public_deserialize-public_bytes key h small =
      rw
        (internal-fields key (public_bytes o key) [] h
          (sym (append-nil (public_bytes o key)) ∙ public_bytes-append key [])
          (omega (arith, length-public_bytes key)))
        refl
