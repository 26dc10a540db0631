-- ===== src/OpenSsl/Numbers.antt =====
-- Bytes of numbers, from the laws.
use native.Mathlib.Decide.{dec_lt}
use native.Mathlib.Nat.{pow-le-pow_right}
use mpc_lib_demo.OpenSsl.{IsOpenSsl, OpenSsl, big_endian}
use mpc_lib_demo.Base.{Bytes, [], arith, length, ℕ, ◌<◌, ◌^◌, ◌∷◌, ◌≡◌, ◌≤◌}

module _ (o : OpenSsl) (laws : IsOpenSsl o) where
  -- A number that is not zero has a byte.
  pub bn2bin-pos : (a : ℕ) → 0 < a → 0 < length (o.bn_bn2bin a)
  bn2bin-pos a h = nonempty (o.bn_bn2bin a) (laws.bn2bin a)
    where
      nonempty : (bs : Bytes) → big_endian 0 bs ≡ a → 0 < length bs
      nonempty [] e = absurd (omega (arith, e))
      nonempty (b ∷ bs) e = omega arith

  -- A smaller number has no more bytes.
  pub length-bn2bin_le : (a b : ℕ) → a < b → length (o.bn_bn2bin a) ≤ o.bn_num_bytes b
  length-bn2bin_le a b h = omega (
    arith,
    laws.length-bn2bin a,
    laws.num_bytes-le a (o.bn_num_bytes b) (omega (arith, h, laws.lt-num_bytes b)),
  )

  -- A number that is not below a power of two has more bits than its exponent.
  pub lt-num_bits_of_le : (a k : ℕ) → 2 ^ k ≤ a → k < o.bn_num_bits a
  lt-num_bits_of_le a k h = elim (dec_lt k (o.bn_num_bits a)) [
    | yes more ↦ more
    | no fewer ↦ absurd (
        omega (
          arith,
          h,
          laws.lt-num_bits a,
          pow-le-pow_right {n = 2} (omega arith) {i = o.bn_num_bits a} {j = k} (omega arith),
        ))
  ]
