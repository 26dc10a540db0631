-- ===== src/RingPedersen/Parameters/Encoding.antt =====
-- About the bytes of a proof in ring_pedersen.c.
use mpc_lib_demo.RingPedersen.Parameters.{
  Round, deserialize, read_rounds, security, serialize, serialized_size, write_padded, write_rounds,
}
use mpc_lib_demo.RingPedersen.{PublicKey}
use mpc_lib_demo.OpenSsl.{IsOpenSsl, OpenSsl}
use mpc_lib_demo.Base.{
  ==_refl, All, Bytes, List, [], ap, arith, drop, drop-append, length, length-append, refl, some,
  subst, sym, take-append, ℕ, ◌*◌, ◌++◌, ◌<◌, ◌^◌, ◌∙◌, ◌∷◌, ◌≡◌,
}
use mpc_lib_demo.Buffer.Reads.{little_endian-u32_bytes}
use mpc_lib_demo.Buffer.{little_endian, u32_bytes}

module _ (o : OpenSsl) (laws : IsOpenSsl o) (len : ℕ) where
  -- Both numbers of a round fit into `len` bytes.
  pub record FitsIn (round : Round) : Type 0 where
    pub a_small : round.a < 256 ^ len
    pub z_small : round.z < 256 ^ len

  write_padded-value :
      (a : ℕ) (old : Bytes)
      → a < 256 ^ len
      → (length (write_padded o len a old) ≡ len)
        × (o.bn_bin2bn (write_padded o len a old) ≡ some a)
  unfolding write_padded
  write_padded-value a old small =
      let (bytes, padded, count, value) = laws.bn2binpad a len small in
      (rw (write_padded, padded) count, rw (write_padded, padded, laws.bin2bn bytes, value) refl)

  pub read_rounds-write_rounds :
      (rounds : List Round) (old : Bytes)
      → All FitsIn rounds
      → (read_rounds o len (length rounds) (write_rounds o len rounds old) ≡ some rounds)
        × (length (write_rounds o len rounds old) ≡ len * 2 * length rounds)
  unfolding read_rounds write_rounds
  read_rounds-write_rounds [] old fit = (refl, omega arith)
  read_rounds-write_rounds (round ∷ rounds) old fit =
      let a : Bytes = write_padded o len round.a old in
      let z : Bytes = write_padded o len round.z (drop len old) in
      let rest : Bytes = write_rounds o len rounds (drop len (drop len old)) in
      let (a_len, a_read) = write_padded-value round.a old fit.0.a_small in
      let (z_len, z_read) = write_padded-value round.z (drop len old) fit.0.z_small in
      let (read, count) = read_rounds-write_rounds rounds (drop len (drop len old)) fit.1 in
      (
        rw
            (
              take-append a (z ++ rest) len (sym a_len),
              drop-append a (z ++ rest) len (sym a_len),
              take-append z rest len (sym z_len),
              drop-append z rest len (sym z_len),
              a_read,
              z_read,
              read,
            )
            refl,
        omega (arith, length-append a (z ++ rest), length-append z rest, a_len, z_len, count),
      )

-- A proof of 80 rounds is read back from its bytes, whatever the buffer held before.
pub deserialize-serialize :
    (o : OpenSsl) (laws : IsOpenSsl o) (key : PublicKey) (rounds : List Round) (old : Bytes)
    → length rounds ≡ security
    → All (FitsIn o laws (o.bn_num_bytes key.n)) rounds
    → o.bn_num_bytes key.n < 2 ^ 32
    → (deserialize o (o.bn_num_bytes key.n) (serialize o (o.bn_num_bytes key.n) rounds old)
        ≡ some rounds)
      × (length (serialize o (o.bn_num_bytes key.n) rounds old) ≡ serialized_size o key)
unfolding deserialize serialize serialized_size
deserialize-serialize o laws key rounds old many fit small =
    let len : ℕ = o.bn_num_bytes key.n in
    let (read, count) = read_rounds-write_rounds o laws len rounds (drop 8 old) fit in
    let count' : length (write_rounds o len rounds (drop 8 old)) ≡ len * 2 * security =
      count ∙ ap (λ k. len * 2 * k) many in
    let word : little_endian (u32_bytes len) ≡ len = little_endian-u32_bytes len small in
    let read' : read_rounds o len security (write_rounds o len rounds (drop 8 old)) ≡ some rounds =
      subst (λ k. read_rounds o len k (write_rounds o len rounds (drop 8 old)) ≡ some rounds) many
        read in
    (rw (word, ==_refl len) read', omega (arith, count'))
