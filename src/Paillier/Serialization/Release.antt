-- ===== src/Paillier/Serialization/Release.antt =====
-- What paillier.c frees when it decodes a public key.
use mpc_lib_demo.Paillier.Serialization.{
  public_key_deserialize, public_key_deserialize_internal, release_again,
}
use mpc_lib_demo.Paillier.{PublicKey, min_key_len_in_bits}
use mpc_lib_demo.OpenSsl.{IsOpenSsl, OpenSsl, big_endian}
use mpc_lib_demo.Buffer.{Failure, double_free, little_endian, read_bytes, sub32}
use mpc_lib_demo.Buffer.Reads.{read_u32-start}
use mpc_lib_demo.Base.{
  Bool, Bytes, Result, arith, drop, err, false, guard, leb, length, le→leb, ok, refl, some, take,
  true, ℕ, ◌*◌, ◌+◌, ◌-◌, ◌<◌, ◌>>◌, ◌^◌, ◌≡◌, ◌≤◌,
}

-- The number behind the word that announces its length
abbrev pub announced_number : Bytes → ℕ
announced_number buffer = big_endian 0 (take (little_endian (take 4 buffer)) (drop 4 buffer))

-- What is returned for a number that is long enough, and for another.
abbrev pub decoded : Bool → ℕ → Result Failure PublicKey
decoded true n = ok (record { n = n; n2 = n * n })
decoded false n = err double_free

release_again-decoded :
    (long : Bool) (n : ℕ)
    → release_again (do guard long true; ok (record { n = n; n2 = n * n })) ≡ decoded long n
unfolding release_again
release_again-decoded true n = refl
release_again-decoded false n = refl

module _ (o : OpenSsl) (laws : IsOpenSsl o) where
  -- When no allocation fails and the word of a buffer of 36 bytes or more announces what follows
  -- it, as the code asserts, a public key is decoded if the number has 256 bits at least; if it has
  -- fewer, its memory is freed twice.
  pub public_key_deserialize-decoded :
      (buffer : Bytes)
      → 36 ≤ length buffer
      → length buffer < 2 ^ 32
      → little_endian (take 4 buffer) ≡ length buffer - 4
      → public_key_deserialize o (λ k. true) (some buffer) (length buffer)
        ≡ decoded
            (leb min_key_len_in_bits (o.bn_num_bits (announced_number buffer)))
            (announced_number buffer)
  unfolding public_key_deserialize public_key_deserialize_internal read_bytes
  public_key_deserialize-decoded buffer enough small fits =
      let len : ℕ = little_endian (take 4 buffer) in
      let number : Bytes = take len (drop 4 buffer) in
      let n : ℕ = announced_number buffer in
      rw
        (
          le→leb 36 (length buffer) enough,
          read_u32-start buffer (omega (arith, enough)),
          le→leb len (sub32 (length buffer) 4) (omega (arith, enough, small, fits)),
          le→leb (4 + len) (length buffer) (omega (arith, enough, fits)),
          public_key_deserialize_internal,
          laws.bin2bn number,
          laws.sqr n,
        )
        (release_again-decoded (leb min_key_len_in_bits (o.bn_num_bits n)) n)
