-- ===== src/Pedersen/Opening.antt =====
-- About the commitments of pedersen.c and their opening.
use mpc_lib_demo.Commitments.{IsSha256, Sha256, success}
use mpc_lib_demo.Algebra.{Algebra}
use mpc_lib_demo.Algebra.Curve.{IsCurve}
use mpc_lib_demo.Pedersen.{create_commitment, scaled, verify_opening}
use mpc_lib_demo.OpenSsl.{big_endian}
use mpc_lib_demo.Base.{
  Bytes, Cong, Cong-mul_left, Cong-of_eq, Cong-trans, [], ap, arith, false, is_empty, ok, refl,
  some, true, ℕ, ◌*◌, ◌+◌, ◌∷◌, ◌≡◌,
}

module _ (algebra : Algebra) (order : ℕ) (point : ℕ → Bytes)
    (curve : IsCurve algebra order point) where
  scaled_value :
      (x : ℕ) (number : Bytes)
      → is_empty number ≡ false
      → scaled algebra (point x) number ≡ ok (point (x * big_endian 0 number))
  unfolding scaled
  scaled_value x number given =
      let (r, (e, small), value) = curve.add_scalars number (0 ∷ []) given refl in
      rw (e, curve.point_mul x r small.0)
        (ap ok (
          curve.point_eq (x * big_endian 0 r) (x * big_endian 0 number)
            (Cong-mul_left x (Cong-trans value (Cong-of_eq (omega arith))))))

  -- Over a curve that meets its laws, for numbers that are not empty, the commitment is the point of
  -- `a + h b + f c`, when `h` and `f` are the numbers of the two generators.
  pub create_commitment-point :
      (h f : ℕ) (a b c : Bytes)
      → is_empty a ≡ false
      → is_empty b ≡ false
      → is_empty c ≡ false
      → create_commitment true
          (some (record { h = point h; f = point f }))
          (some a)
          (some b)
          (some c)
          (some algebra)
        ≡ ok (point (big_endian 0 a + h * big_endian 0 b + f * big_endian 0 c))
  unfolding create_commitment
  create_commitment-point h f a b c ea eb ec =
      rw
        (
          ea,
          eb,
          ec,
          curve.generator_mul_data a ea,
          scaled_value h b eb,
          curve.add_points (big_endian 0 a) (h * big_endian 0 b),
          scaled_value f c ec,
          curve.add_points (big_endian 0 a + h * big_endian 0 b) (f * big_endian 0 c),
        )
        refl

  -- Over a curve that meets its laws, for numbers that are not empty a commitment is made, and
  -- whoever opens it with numbers that give the same sum modulo the order is accepted.
  pub create-verify_opening :
      (sha : Sha256) (laws : IsSha256 sha) (h f : ℕ) (a b c a' b' c' : Bytes)
      → is_empty a ≡ false
      → is_empty b ≡ false
      → is_empty c ≡ false
      → is_empty a' ≡ false
      → is_empty b' ≡ false
      → is_empty c' ≡ false
      → Cong order
          (big_endian 0 a' + h * big_endian 0 b' + f * big_endian 0 c')
          (big_endian 0 a + h * big_endian 0 b + f * big_endian 0 c)
      → (commitment : Bytes) × (create_commitment true
            (some (record { h = point h; f = point f }))
            (some a)
            (some b)
            (some c)
            (some algebra)
          ≡ ok commitment)
        × (verify_opening sha commitment
              (some (record { h = point h; f = point f }))
              (some a')
              (some b')
              (some c')
              (some algebra)
            ≡ success)
  unfolding verify_opening
  create-verify_opening sha laws h f a b c a' b' c' ea eb ec ea' eb' ec' same =
      let commitment : Bytes = point (big_endian 0 a + h * big_endian 0 b + f * big_endian 0 c) in
      (
        commitment,
        create_commitment-point h f a b c ea eb ec,
        rw
            (
              verify_opening,
              create_commitment-point h f a' b' c' ea' eb' ec',
              curve.point_eq _ _ same,
              laws.memcmp_refl commitment 33,
            )
            refl,
      )
