-- ===== src/ZeroKnowledge/Schnorr/Completeness.antt =====
-- About the generation and the verification of Schnorr proofs.
use mpc_lib_demo.Algebra
use mpc_lib_demo.ZeroKnowledge.{invalid_parameter, success, verification_failed}
use mpc_lib_demo.ZeroKnowledge.Schnorr.{
  SchnorrZkp, answer, challenge, generate, generate_for_data, generate_impl,
  generate_with_custom_randomness, is_zero, one, verify,
}
use mpc_lib_demo.Commitments.{IsSha256, Sha256}
use mpc_lib_demo.Algebra.{Algebra}
use mpc_lib_demo.Algebra.Curve.{IsCurve, IsReduced, dot, scalar_given}
use mpc_lib_demo.OpenSsl.{big_endian}
use mpc_lib_demo.Base.{
  ==_refl, Bool, Bytes, Cong, Cong-add, Cong-of_eq, Cong-refl, Cong-symm, Cong-trans, Ptr, [], ap,
  arith, err, false, if◌then◌else◌, inl, inr, is_empty, length, mod-eq_of_Cong, none, ok, refl,
  some, true, ℕ, ◌%◌, ◌*◌, ◌+◌, ◌==◌, ◌∙◌, ◌∷◌, ◌≡◌, ◌⊎◌,
}

module _ (sha : Sha256) (is_sha : IsSha256 sha) (algebra : Algebra) (order : ℕ) (point : ℕ → Bytes)
    (curve : IsCurve algebra order point) (prover_id : Bytes) where
  -- The number that the challenge stands for, for the nonce `k` and the secret `x`.
  abbrev pub challenge_of : ℕ → ℕ → ℕ
  challenge_of k x = big_endian 0 (challenge sha algebra prover_id (point k) (point x))

  challenge-length :
      (r public_data : Bytes) → length (challenge sha algebra prover_id r public_data) ≡ 32
  unfolding challenge
  challenge-length r public_data = is_sha.length-final _

  one-IsReduced : IsReduced order one
  one-IsReduced = (refl, curve.order_big)

  answer_of : (b : Bool) → answer sha (ok b) ≡ (if b then success else verification_failed)
  unfolding answer
  answer_of true = refl
  answer_of false = refl

  -- Over a curve that meets its laws, for a prover's id that is not empty, a proof that consists of
  -- the point of `k` and a scalar of 32 bytes is accepted for the point of `x` exactly when `k` is,
  -- modulo the order, the challenge times `x` plus the scalar.
  pub verify-equation :
      (k x : ℕ) (s : Bytes)
      → is_empty prover_id ≡ false
      → length s ≡ 32
      → verify sha
          (some algebra)
          (some prover_id)
          (some (point x))
          (some (record { r = point k; s = s }))
        ≡ (if (k % order) == ((x * challenge_of k x + big_endian 0 s) % order)
            then success
            else verification_failed)
  unfolding verify
  verify-equation k x s given scalar =
      let c : Bytes = challenge sha algebra prover_id (point k) (point x) in
      let total : ℕ = dot (x * big_endian 0 c ∷ big_endian 0 s ∷ []) (one ∷ one ∷ []) in
      let same : total ≡ x * big_endian 0 c + big_endian 0 s = omega arith in
      rw
        (
          given,
          curve.point_mul x c (challenge-length (point k) (point x)),
          curve.generator_mul s scalar,
          curve.verify k (x * big_endian 0 c ∷ big_endian 0 s ∷ []) (one ∷ one ∷ []) refl refl
              (one-IsReduced, (one-IsReduced, tt)),
        )
        (answer_of ((k % order) == (total % order)))
      ∙ ap (λ t. if (k % order) == (t % order) then success else verification_failed) same

  impl-verify :
      (secret k : Bytes) (randomness : Ptr Bytes)
      → is_empty prover_id ≡ false
      → is_empty secret ≡ false
      → length k ≡ 32
      → (randomness ≡ some k) ⊎ ((randomness ≡ none) × (algebra.rand ≡ (Algebra.success, k)))
      → (proof : SchnorrZkp) × (generate_impl sha algebra prover_id secret
            (point (big_endian 0 secret))
            randomness
          ≡ ok proof)
        × (verify sha
              (some algebra)
              (some prover_id)
              (some (point (big_endian 0 secret)))
              (some proof)
            ≡ success)
  unfolding generate_impl
  impl-verify secret k randomness given some_secret nonce source =
      let x : ℕ = big_endian 0 secret in
      let n : ℕ = big_endian 0 k in
      let c : Bytes = challenge sha algebra prover_id (point n) (point x) in
      let filled : is_empty c ≡ false = scalar_given c (challenge-length (point n) (point x)) in
      let (product, (e, reduced), times) = curve.mul_scalars secret c some_secret filled in
      let (s, (e', reduced'), minus) =
        curve.sub_scalars k product (scalar_given k nonce) (scalar_given product reduced.0) in
      let right : Cong order n (x * big_endian 0 c + big_endian 0 s) =
        Cong-trans (Cong-symm minus) (
          Cong-trans (Cong-add (Cong-refl (big_endian 0 s)) times) (
            Cong-of_eq {a = big_endian 0 s + x * big_endian 0 c}
              {b = x * big_endian 0 c + big_endian 0 s} (omega arith))) in
      (
        record { r = point n; s = s },
        elim source [
          | inl eq ↦ rw (eq, curve.generator_mul k nonce, e, e') refl
          | inr eqs ↦ rw (eqs.0, eqs.1, curve.generator_mul k nonce, e, e') refl
        ],
        verify-equation n x s given reduced'.0
            ∙ rw
                (
                  mod-eq_of_Cong order n (x * big_endian 0 c + big_endian 0 s) right,
                  ==_refl ((x * big_endian 0 c + big_endian 0 s) % order),
                )
                refl,
      )

  -- When the prover's id is not empty and the curve finds a random scalar of 32 bytes, a proof for
  -- a secret of 32 bytes is made, and accepted for the point of the secret.
  pub generate-verify :
      (secret k : Bytes)
      → is_empty prover_id ≡ false
      → length secret ≡ 32
      → length k ≡ 32
      → algebra.rand ≡ (Algebra.success, k)
      → (proof : SchnorrZkp) × (generate sha
            (some algebra)
            (some prover_id)
            (some secret)
            (some (point (big_endian 0 secret)))
            true
          ≡ ok proof)
        × (verify sha
              (some algebra)
              (some prover_id)
              (some (point (big_endian 0 secret)))
              (some proof)
            ≡ success)
  unfolding generate
  generate-verify secret k given scalar nonce found =
      let (proof, made, accepted) =
        impl-verify secret k none given (scalar_given secret scalar) nonce (inr (refl, found)) in
      (proof, rw given made, accepted)

  -- When the curve finds a random scalar of 32 bytes, a proof for data that are not empty is made
  -- and accepted, with the point that is returned.
  pub generate_for_data-verify :
      (secret k : Bytes)
      → is_empty prover_id ≡ false
      → is_empty secret ≡ false
      → length k ≡ 32
      → algebra.rand ≡ (Algebra.success, k)
      → (proof : SchnorrZkp) × (public_data : Bytes) × (generate_for_data sha
            (some algebra)
            (some prover_id)
            (some secret)
            true
            true
          ≡ ok (proof, public_data))
        × (verify sha (some algebra) (some prover_id) (some public_data) (some proof) ≡ success)
  unfolding generate_for_data
  generate_for_data-verify secret k given some_secret nonce found =
      let (proof, made, accepted) =
        impl-verify secret k none given some_secret nonce (inr (refl, found)) in
      (
        proof,
        point (big_endian 0 secret),
        rw (given, some_secret, curve.generator_mul_data secret some_secret, made) refl,
        accepted,
      )

  -- A nonce of the caller's that is zero is refused; with another one a proof is made, and accepted
  -- for the point of the secret, when secret and nonce have 32 bytes.
  pub generate_with_custom_randomness-verify :
      (secret blank k : Bytes)
      → is_empty prover_id ≡ false
      → length secret ≡ 32
      → length k ≡ 32
      → is_zero blank ≡ true
      → is_zero k ≡ false
      → (generate_with_custom_randomness sha
            (some algebra)
            (some prover_id)
            (some secret)
            (some (point (big_endian 0 secret)))
            (some blank)
            true
          ≡ err invalid_parameter)
        × (proof : SchnorrZkp) × (generate_with_custom_randomness sha
              (some algebra)
              (some prover_id)
              (some secret)
              (some (point (big_endian 0 secret)))
              (some k)
              true
            ≡ ok proof)
        × (verify sha
              (some algebra)
              (some prover_id)
              (some (point (big_endian 0 secret)))
              (some proof)
            ≡ success)
  unfolding generate_with_custom_randomness
  generate_with_custom_randomness-verify secret blank k given scalar nonce no_nonce other =
      let (proof, made, accepted) =
        impl-verify secret k (some k) given (scalar_given secret scalar) nonce (inl refl) in
      (rw (given, no_nonce) refl, proof, rw (given, other) made, accepted)
