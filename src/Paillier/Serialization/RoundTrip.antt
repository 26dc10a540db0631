-- ===== src/Paillier/Serialization/RoundTrip.antt =====
-- About the functions of paillier.c that encode and decode keys.
use native.Mathlib.Decide.{dec_lt}
use native.Mathlib.Nat.{pow-le-pow_right}
use mpc_lib_demo.Paillier.Serialization.Bounds.{IsMade, IsWellFormed}
use mpc_lib_demo.Paillier.Serialization.{
  private_key_deserialize, private_key_deserialize_internal, private_key_serialize,
  public_key_deserialize, public_key_deserialize_internal, public_key_serialize, release_again,
}
use mpc_lib_demo.Paillier.{PrivateKey, PublicKey, min_key_len_in_bits}
use mpc_lib_demo.OpenSsl.{IsOpenSsl, OpenSsl}
use mpc_lib_demo.Buffer.{sub32, u32_bytes}
use mpc_lib_demo.Buffer.Reads.{read_bytes-append, read_u32-append}
use mpc_lib_demo.Base.{
  Bytes, [], ap, append-nil, append_assoc, arith, length, length-append, le→leb, le→ltb, ok, refl,
  some, subst, sym, true, ℕ, ◌%◌, ◌*◌, ◌++◌, ◌+◌, ◌<◌, ◌^◌, ◌∙◌, ◌≡◌, ◌≤◌,
}
use mpc_lib_demo.Base.Powers.{pow-add}

module _ (o : OpenSsl) (laws : IsOpenSsl o) where
  -- A number of at most 31 bytes is less than 256 bits long.
  bytes_of_long : (n k : ℕ) → min_key_len_in_bits ≤ o.bn_num_bits n → n < 256 ^ k → 32 ≤ k
  bytes_of_long n k long small = elim (dec_lt k 32) [
    | yes few ↦
        let power : 256 ^ k ≤ 256 ^ 31 =
          pow-le-pow_right {n = 256} (omega arith) {i = k} {j = 31} (omega (arith, few)) in
        absurd (omega (arith, long, laws.num_bits-le n 248 (omega (arith, small, power))))
    | no enough ↦ omega (arith, enough)
  ]

  public_serialize-deserialize :
      (key : PublicKey) (buffer_len : ℕ)
      → IsWellFormed o key
      → 4 + o.bn_num_bytes key.n < 2 ^ 32
      → 4 + o.bn_num_bytes key.n ≤ buffer_len
      → (bs : Bytes) × (public_key_serialize o (some key) true buffer_len
          ≡ some (record { real_len = length bs; written = some bs }))
        × (public_key_deserialize o (λ k. true) (some bs) (length bs) ≡ ok key)
  unfolding public_key_serialize public_key_deserialize public_key_deserialize_internal
      release_again
  public_serialize-deserialize key buffer_len h small room =
      let len : ℕ = o.bn_num_bytes key.n in
      let bin : Bytes = o.bn_bn2bin key.n in
      let bs : Bytes = u32_bytes len ++ bin in
      let count : length bs ≡ 4 + len = omega (arith, laws.length-bn2bin key.n) in
      let enough : 32 ≤ len = bytes_of_long key.n len h.long (laws.lt-num_bytes key.n) in
      let needed : (4 + len) % 2 ^ 32 ≡ length bs = omega (arith, count, small) in
      (
        bs,
        rw (needed, le→ltb buffer_len (length bs) (omega (arith, count, room))) refl,
        rw
            (
              le→leb 36 (length bs) (omega (arith, count, enough)),
              read_u32-append bs [] bin 0 len refl refl (omega (arith, small)),
              le→leb len (sub32 (length bs) 4) (omega (arith, count, small)),
              read_bytes-append bs (u32_bytes len) bin [] 4 len
                  (ap (λ x. u32_bytes len ++ x) (sym (append-nil bin))) refl
                  (sym (laws.length-bn2bin key.n)),
              public_key_deserialize_internal,
              laws.bin2bn bin,
              laws.bn2bin key.n,
              le→leb _ _ h.long,
              h.square,
            )
            refl,
      )

  get_of_some : {a b : ℕ} → some a ≡ some b → a ≡ b
  get_of_some e = cc

  -- The modulus has at most twice the bytes of its factors.
  modulus_lt :
      (key : PrivateKey)
      → IsMade o key
      → o.bn_num_bytes key.q ≡ o.bn_num_bytes key.p
      → key.public.n < 256 ^ (2 * o.bn_num_bytes key.p)
  modulus_lt key made same =
      let len : ℕ = o.bn_num_bytes key.p in
      let n_eq : key.public.n ≡ key.p * key.q =
        get_of_some (sym made.product ∙ laws.mul key.p key.q) in
      let p_lt : key.p < 256 ^ len = laws.lt-num_bytes key.p in
      let q_lt : key.q < 256 ^ len = subst (λ k. key.q < 256 ^ k) same (laws.lt-num_bytes key.q) in
      let power : 256 ^ (2 * len) ≡ 256 ^ len * 256 ^ len =
        ap (λ k. 256 ^ k) {x = 2 * len} {y = len + len} (omega arith) ∙ pow-add 256 len len in
      grind (arith, n_eq, p_lt, q_lt, power)

  private_serialize-deserialize :
      (key : PrivateKey) (buffer_len : ℕ)
      → IsMade o key
      → o.bn_num_bytes key.q ≡ o.bn_num_bytes key.p
      → o.bn_num_bytes key.p < 2 ^ 30
      → 4 + 2 * o.bn_num_bytes key.p ≤ buffer_len
      → (bs : Bytes) × (private_key_serialize o (some key) true buffer_len
          ≡ some (record { real_len = length bs; written = some bs }))
        × (private_key_deserialize o (λ k. true) (some bs) (length bs) ≡ ok key)
  unfolding private_key_serialize private_key_deserialize private_key_deserialize_internal
  private_serialize-deserialize key buffer_len made same small room =
      let len : ℕ = o.bn_num_bytes key.p in
      let bin_p : Bytes = o.bn_bn2bin key.p in
      let bin_q : Bytes = o.bn_bn2bin key.q in
      let bs : Bytes = u32_bytes len ++ (bin_p ++ bin_q) in
      let count : length bs ≡ 4 + 2 * len = omega (
        arith,
        length-append bin_p bin_q,
        laws.length-bn2bin key.p,
        laws.length-bn2bin key.q,
        same,
      ) in
      let enough : 32 ≤ 2 * len =
        bytes_of_long key.public.n (2 * len) made.public.long (modulus_lt key made same) in
      let needed : (4 + 2 * len) % 2 ^ 32 ≡ length bs = omega (arith, count, small) in
      (
        bs,
        rw (needed, le→ltb buffer_len (length bs) (omega (arith, count, room))) refl,
        rw
            (
              le→leb 36 (length bs) (omega (arith, count, enough)),
              read_u32-append bs [] (bin_p ++ bin_q) 0 len refl refl (omega (arith, small)),
              le→leb (2 * len % 2 ^ 32) (sub32 (length bs) 4) (omega (arith, count, small)),
              read_bytes-append bs (u32_bytes len) bin_p bin_q 4 len refl refl
                  (sym (laws.length-bn2bin key.p)),
              read_bytes-append bs (u32_bytes len ++ bin_p) bin_q [] (4 + len) len
                  (sym (append_assoc (u32_bytes len) bin_p bin_q)
                    ∙ ap (λ x. (u32_bytes len ++ bin_p) ++ x) (sym (append-nil bin_q)))
                  (omega (arith, length-append (u32_bytes len) bin_p, laws.length-bn2bin key.p))
                  (omega (arith, laws.length-bn2bin key.q, same)),
              laws.bin2bn bin_p,
              laws.bn2bin key.p,
              laws.bin2bn bin_q,
              laws.bn2bin key.q,
              made.product,
              made.public.square,
              made.less_p,
              made.less_both,
              made.lamda,
              made.inverse,
              le→leb _ _ made.public.long,
            )
            refl,
      )

  -- A key that was made from two factors of the same length is encoded into buffers that are long
  -- enough, its public part and the whole, and decoded from the bytes that were written.
  pub keys_serialize-deserialize :
      (key : PrivateKey) (buffer_len : ℕ)
      → IsMade o key
      → o.bn_num_bytes key.q ≡ o.bn_num_bytes key.p
      → o.bn_num_bytes key.p < 2 ^ 30
      → 4 + 2 * o.bn_num_bytes key.p ≤ buffer_len
      → ((bs : Bytes) × (public_key_serialize o (some key.public) true buffer_len
            ≡ some (record { real_len = length bs; written = some bs }))
          × (public_key_deserialize o (λ k. true) (some bs) (length bs) ≡ ok key.public))
        × ((bs : Bytes) × (private_key_serialize o (some key) true buffer_len
              ≡ some (record { real_len = length bs; written = some bs }))
            × (private_key_deserialize o (λ k. true) (some bs) (length bs) ≡ ok key))
  keys_serialize-deserialize key buffer_len made same small room =
      let product : key.public.n < 256 ^ (2 * o.bn_num_bytes key.p) = modulus_lt key made same in
      let few : o.bn_num_bytes key.public.n ≤ 2 * o.bn_num_bytes key.p =
        laws.num_bytes-le key.public.n (2 * o.bn_num_bytes key.p) product in
      (
        public_serialize-deserialize key.public buffer_len made.public (omega (arith, few, small))
            (omega (arith, few, room)),
        private_serialize-deserialize key buffer_len made same small room,
      )
