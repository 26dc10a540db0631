-- ===== src/Tests/PaillierKeys.antt =====
-- Runs of the encoding of paillier.c's keys with a modulus of 256 bits.
use mpc_lib_demo.Paillier.Serialization.RoundTrip.{keys_serialize-deserialize}
use mpc_lib_demo.Paillier.Serialization.Bounds.{IsMade, IsWellFormed, deserialize-IsMade}
use mpc_lib_demo.Paillier.Serialization.{
  private_key_deserialize, private_key_serialize, public_key_deserialize, public_key_serialize,
}
use mpc_lib_demo.Paillier.{PrivateKey}
use mpc_lib_demo.OpenSsl.{IsOpenSsl, OpenSsl}
use mpc_lib_demo.OpenSsl.Numbers.{lt-num_bits_of_le}
use mpc_lib_demo.OpenSsl.Reference.{reference, reference_laws}
use mpc_lib_demo.Base.{
  Bytes, [], arith, err, length, ok, refl, replicate, some, true, ℕ, ◌%◌, ◌*◌, ◌++◌, ◌+◌, ◌-◌, ◌<◌,
  ◌^◌, ◌∷◌, ◌≡◌, ◌≤◌,
}
use mpc_lib_demo.Paillier.Serialization.Release.{public_key_deserialize-decoded}
use mpc_lib_demo.Buffer.{double_free}
use mpc_lib_demo.Buffer.Reads.{IsSafe}

-- The greatest number of 16 bytes
abbrev factor : ℕ
factor = 2 ^ 128 - 1

abbrev modulus : ℕ
modulus = factor * factor

abbrev lamda : ℕ
lamda = modulus - factor - factor + 1

module _ (o : OpenSsl) (laws : IsOpenSsl o) where
  inverse_of :
      (v : ℕ) × (o.bn_mod_inverse lamda modulus ≡ some v)
      × ((lamda * v) % modulus ≡ 1)
      × (v < modulus)
  inverse_of = laws.mod_inverse lamda (1 + 2 * factor) modulus (omega arith) refl

  abbrev made_key : PrivateKey
  made_key = record {
    public = record { n = modulus; n2 = modulus * modulus };
    p = factor;
    q = factor;
    lamda = lamda;
    mu = inverse_of.0;
  }

  factor-short : o.bn_num_bytes factor ≤ 16
  factor-short = laws.num_bytes-le factor 16 (omega arith)

  made_key-IsMade : IsMade o made_key
  made_key-IsMade = record {
    n_less_p = modulus - factor;
    n_less_both = modulus - factor - factor;
    public = record {
      long = lt-num_bits_of_le o laws modulus 255 (omega arith);
      square = laws.sqr modulus;
    };
    product = laws.mul factor factor;
    less_p = laws.sub modulus factor (omega arith);
    less_both = laws.sub (modulus - factor) factor (omega arith);
    lamda = laws.add_word (modulus - factor - factor) 1;
    inverse = inverse_of.1;
  }

lt_of_16 : (k : ℕ) → k ≤ 16 → k < 2 ^ 30
lt_of_16 k h = omega arith

le_of_16 : (k : ℕ) → k ≤ 16 → 4 + 2 * k ≤ 200
le_of_16 k h = omega arith

keys_serialize-deserialize_example :
    ((bs : Bytes) × (public_key_serialize reference
          (some (made_key reference reference_laws).public)
          true
          200
        ≡ some (record { real_len = length bs; written = some bs }))
      × (public_key_deserialize reference (λ k. true) (some bs) (length bs)
          ≡ ok (made_key reference reference_laws).public))
    × ((bs : Bytes) × (private_key_serialize reference
            (some (made_key reference reference_laws))
            true
            200
          ≡ some (record { real_len = length bs; written = some bs }))
        × (private_key_deserialize reference (λ k. true) (some bs) (length bs)
            ≡ ok (made_key reference reference_laws)))
keys_serialize-deserialize_example =
    keys_serialize-deserialize reference reference_laws (made_key reference reference_laws) 200
      (made_key-IsMade reference reference_laws) refl
      (lt_of_16 (reference.bn_num_bytes factor) (factor-short reference reference_laws))
      (le_of_16 (reference.bn_num_bytes factor) (factor-short reference reference_laws))

-- The number 5 in 32 bytes
abbrev short_key : Bytes
short_key = 32 ∷ 0 ∷ 0 ∷ 0 ∷ replicate 31 0 ++ (5 ∷ [])

public_key_deserialize-decoded_example :
    public_key_deserialize reference (λ k. true) (some short_key) 36 ≡ err double_free
public_key_deserialize-decoded_example =
    public_key_deserialize-decoded reference reference_laws short_key (omega arith) (omega arith)
      (omega arith)

-- The word in front is 2^31 and more.
abbrev wrapped_key : Bytes
wrapped_key = 32 ∷ 0 ∷ 0 ∷ 128 ∷ replicate 32 1

deserialize-IsMade_example :
    IsSafe
      (IsWellFormed reference)
      (public_key_deserialize reference (λ k. true) (some wrapped_key) 36)
    × IsSafe (IsMade reference) (private_key_deserialize reference (λ k. true) (some short_key) 36)
deserialize-IsMade_example =
    deserialize-IsMade reference (λ k. true) wrapped_key short_key (omega arith) (omega arith)
      (omega arith)
