-- ===== src/RingPedersen/Serialization/RoundTrip.antt =====
-- About the functions of ring_pedersen.c that encode and decode keys.
use mpc_lib_demo.RingPedersen.Serialization.Fields.{
  internal-fields, length-field_bytes, length-public_bytes, public_bytes-append,
  public_deserialize-public_bytes, public_length, read_number-field,
}
use mpc_lib_demo.Buffer.{sub32}
use mpc_lib_demo.RingPedersen.Serialization.Bounds.{IsWellFormed}
use mpc_lib_demo.RingPedersen.Serialization.{
  Cursor, field_bytes, private_deserialize, private_serialize, public_bytes, public_deserialize,
  public_needed, public_serialize,
}
use mpc_lib_demo.OpenSsl.{IsOpenSsl, OpenSsl}
use mpc_lib_demo.Base.{
  Bytes, [], ap, append-nil, append_assoc, arith, length, length-append, le→leb, le→ltb, ok, refl,
  some, sym, true, ℕ, ◌%◌, ◌++◌, ◌+◌, ◌-◌, ◌<◌, ◌^◌, ◌∙◌, ◌≡◌, ◌≤◌,
}
use mpc_lib_demo.RingPedersen.{PrivateKey, PublicKey}

module _ (o : OpenSsl) (laws : IsOpenSsl o) where
  -- A public key whose encoding has a length of 32 bits is encoded into a buffer that is long
  -- enough, and decoded from the bytes that were written.
  public_serialize-deserialize :
      (key : PublicKey) (buffer_len : ℕ)
      → IsWellFormed o key
      → public_length o laws key < 2 ^ 32
      → public_length o laws key ≤ buffer_len
      → (bs : Bytes) × (public_serialize o (some key) true buffer_len
          ≡ some (record { real_len = length bs; written = some bs }))
        × (public_deserialize o true (some bs) (length bs) ≡ ok key)
  unfolding public_serialize public_needed
  public_serialize-deserialize key buffer_len h small room =
      let bs : Bytes = public_bytes o key in
      let needed : public_length o laws key % 2 ^ 32 ≡ length bs =
        omega (arith, length-public_bytes o laws key) in
      (
        bs,
        rw (needed, le→ltb buffer_len (length bs) (omega (arith, length-public_bytes o laws key)))
            refl,
        public_deserialize-public_bytes o laws key h small,
      )

  -- The length of a private key's encoding
  abbrev pub private_length : PrivateKey → ℕ
  private_length key =
      public_length o laws key.public + 8 + o.bn_num_bytes key.lamda + o.bn_num_bytes key.phi_n

  abbrev private_bytes : PrivateKey → Bytes
  private_bytes key =
      public_bytes o key.public ++ (field_bytes o key.lamda ++ field_bytes o key.phi_n)

  length-private_bytes : (key : PrivateKey) → length (private_bytes key) ≡ private_length key
  length-private_bytes key = omega (
    arith,
    length-append (public_bytes o key.public) (field_bytes o key.lamda ++ field_bytes o key.phi_n),
    length-append (field_bytes o key.lamda) (field_bytes o key.phi_n),
    length-public_bytes o laws key.public,
    length-field_bytes o laws key.lamda,
    length-field_bytes o laws key.phi_n,
  )

  private_deserialize-private_bytes :
      (key : PrivateKey) (buffer : Bytes)
      → IsWellFormed o key.public
      → private_length key < 2 ^ 32
      → buffer ≡ private_bytes key
      → private_deserialize o true (some buffer) (length buffer) ≡ ok key
  unfolding private_deserialize
  private_deserialize-private_bytes key buffer h small e =
      let front : Bytes = public_bytes o key.public in
      let fl : Bytes = field_bytes o key.lamda in
      let fp : Bytes = field_bytes o key.phi_n in
      let used : ℕ = public_length o laws key.public in
      let ll : ℕ = o.bn_num_bytes key.lamda in
      let lp : ℕ = o.bn_num_bytes key.phi_n in
      let total : length buffer ≡ used + (4 + ll) + (4 + lp) =
        omega (arith, ap length e, length-private_bytes key) in
      let left : sub32 (length buffer) used ≡ length buffer - used = omega arith in
      let e2 : buffer ≡ (front ++ fl) ++ (fp ++ []) =
        e ∙ sym (append_assoc front fl fp) ∙ ap (λ x. (front ++ fl) ++ x) (sym (append-nil fp)) in
      let c : Cursor = record { at = used; left = length buffer - used } in
      let c2 : Cursor = record { at = used + (4 + ll); left = length buffer - used - (4 + ll) } in
      rw
        (
          internal-fields o laws key.public buffer (fl ++ fp) h
              (e ∙ public_bytes-append o laws key.public (fl ++ fp)) (omega arith),
          left,
          le→leb 8 (length buffer - used) (omega arith),
          read_number-field o laws buffer front fp key.lamda 4 c e
              (sym (length-public_bytes o laws key.public)) (omega arith) (omega arith)
              (omega (arith, length-field_bytes o laws key.phi_n)),
          read_number-field o laws buffer (front ++ fl) [] key.phi_n 0 c2 e2
              (omega (
                arith,
                length-append front fl,
                length-public_bytes o laws key.public,
                length-field_bytes o laws key.lamda,
              ))
              (omega arith) (omega arith) (omega arith),
        )
        refl

  private_serialize-deserialize :
      (key : PrivateKey) (buffer_len : ℕ)
      → IsWellFormed o key.public
      → private_length key < 2 ^ 32
      → private_length key ≤ buffer_len
      → (bs : Bytes) × (private_serialize o (some key) true buffer_len
          ≡ some (record { real_len = length bs; written = some bs }))
        × (private_deserialize o true (some bs) (length bs) ≡ ok key)
  unfolding private_serialize public_needed
  private_serialize-deserialize key buffer_len h small room =
      let bs : Bytes = private_bytes key in
      let count : length bs ≡ private_length key = length-private_bytes key in
      let needed : (public_length o laws key.public % 2 ^ 32
              + 8
              + o.bn_num_bytes key.lamda
              + o.bn_num_bytes key.phi_n)
            % 2 ^ 32
          ≡ length bs =
        omega (arith, count) in
      (
        bs,
        rw (needed, le→ltb buffer_len (length bs) (omega (arith, count))) refl,
        private_deserialize-private_bytes key bs h small refl,
      )

  -- A private key with its public part, whose modulus has enough bits and whose generators are not
  -- above it, and whose encodings have lengths of 32 bits, are encoded into
  -- buffers that are long enough, and decoded from the bytes that were written.
  pub serialize-deserialize :
      (key : PrivateKey) (buffer_len : ℕ)
      → IsWellFormed o key.public
      → private_length key < 2 ^ 32
      → private_length key ≤ buffer_len
      → ((bs : Bytes) × (public_serialize o (some key.public) true buffer_len
            ≡ some (record { real_len = length bs; written = some bs }))
          × (public_deserialize o true (some bs) (length bs) ≡ ok key.public))
        × ((bs : Bytes) × (private_serialize o (some key) true buffer_len
              ≡ some (record { real_len = length bs; written = some bs }))
            × (private_deserialize o true (some bs) (length bs) ≡ ok key))
  serialize-deserialize key buffer_len h small room = (
    public_serialize-deserialize key.public buffer_len h (omega arith) (omega arith),
    private_serialize-deserialize key buffer_len h small room,
  )
