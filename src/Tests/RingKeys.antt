-- ===== src/Tests/RingKeys.antt =====
-- Runs of the encoding of ring_pedersen.c's keys with a modulus of 256 bits.
use mpc_lib_demo.RingPedersen.{PrivateKey}
use mpc_lib_demo.RingPedersen.Serialization.{
  private_deserialize, private_serialize, public_deserialize, public_serialize,
}
use mpc_lib_demo.RingPedersen.Serialization.Bounds.{IsWellFormed, deserialize-IsSafe}
use mpc_lib_demo.RingPedersen.Serialization.RoundTrip.{private_length, serialize-deserialize}
use mpc_lib_demo.Buffer.Reads.{IsSafe}
use mpc_lib_demo.OpenSsl.{IsOpenSsl, OpenSsl}
use mpc_lib_demo.OpenSsl.Numbers.{lt-num_bits_of_le}
use mpc_lib_demo.OpenSsl.Reference.{reference, reference_laws}
use mpc_lib_demo.Base.{Bytes, [], arith, length, ok, some, true, ℕ, ◌<◌, ◌^◌, ◌∷◌, ◌≡◌, ◌≤◌}
use mpc_lib_demo.RingPedersen.Generation.{Draws}

abbrev long_key : PrivateKey
long_key = record { public = record { n = 2 ^ 255; s = 2 ^ 254; t = 5 }; lamda = 3; phi_n = 2 ^ 40 }

module _ (o : OpenSsl) (laws : IsOpenSsl o) where
  long_key-IsWellFormed : IsWellFormed o long_key.public
  long_key-IsWellFormed = record {
    long = lt-num_bits_of_le o laws (2 ^ 255) 255 (omega arith);
    s_le = omega arith;
    t_le = omega arith;
  }

  long_key-short : private_length o laws long_key ≤ 200
  long_key-short = omega (
    arith,
    laws.num_bytes-le (2 ^ 255) 32 (omega arith),
    laws.num_bytes-le (2 ^ 254) 32 (omega arith),
    laws.num_bytes-le 5 32 (omega arith),
    laws.num_bytes-le 3 32 (omega arith),
    laws.num_bytes-le (2 ^ 40) 32 (omega arith),
  )

lt_of_200 : (k : ℕ) → k ≤ 200 → k < 2 ^ 32
lt_of_200 k h = omega arith

serialize-deserialize_example :
    ((bs : Bytes) × (public_serialize reference (some long_key.public) true 200
        ≡ some (record { real_len = length bs; written = some bs }))
      × (public_deserialize reference true (some bs) (length bs) ≡ ok long_key.public))
    × ((bs : Bytes) × (private_serialize reference (some long_key) true 200
          ≡ some (record { real_len = length bs; written = some bs }))
        × (private_deserialize reference true (some bs) (length bs) ≡ ok long_key))
serialize-deserialize_example =
    serialize-deserialize reference reference_laws long_key 200
      (long_key-IsWellFormed reference reference_laws)
      (lt_of_200 (private_length reference reference_laws long_key)
        (long_key-short reference reference_laws))
      (long_key-short reference reference_laws)

-- A length of 255 bytes in a buffer of 13
abbrev hostile : Bytes
hostile = 255 ∷ 0 ∷ 0 ∷ 0 ∷ 1 ∷ 2 ∷ 3 ∷ 4 ∷ 5 ∷ 6 ∷ 7 ∷ 8 ∷ 9 ∷ []

deserialize-IsSafe_example :
    IsSafe
      (λ key. IsWellFormed reference key)
      (public_deserialize reference true (some hostile) (length hostile))
    × IsSafe
        (λ key. IsWellFormed reference key.public)
        (private_deserialize reference true (some hostile) (length hostile))
deserialize-IsSafe_example = deserialize-IsSafe reference hostile true (omega arith)

-- The numbers 3 and 5 are the primes, 3 is refused, and 2 is coprime to 15.
abbrev drawn : Draws
drawn = record { p = some 3; q = some 5; lamda = some 3; tries = 3 ∷ 2 ∷ [] }
