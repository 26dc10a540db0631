-- ===== src/Tests/Schnorr.antt =====
-- Runs of schnorr.c modulo 7.
use mpc_lib_demo.ZeroKnowledge.{success, verification_failed}
use mpc_lib_demo.ZeroKnowledge.Schnorr.{SchnorrZkp, generate, is_zero, verify}
use mpc_lib_demo.ZeroKnowledge.Schnorr.Completeness.{challenge_of, generate-verify, verify-equation}
use mpc_lib_demo.Tests.Field.{algebra_7, algebra_7-IsCurve, point_7, scalar_7}
use mpc_lib_demo.Tests.Commitments.{sha, sha_laws}
use mpc_lib_demo.Base.{
  Bytes, [], false, if◌then◌else◌, ok, refl, some, true, ◌%◌, ◌*◌, ◌+◌, ◌==◌, ◌∷◌, ◌≡◌,
}

abbrev prover : Bytes
prover = 1 ∷ 2 ∷ []

verify-equation_example :
    verify sha
      (some algebra_7)
      (some prover)
      (some (point_7 3))
      (some (record { r = point_7 5; s = scalar_7 2 }))
    ≡ (if (5 % 7) == (
          (3 * challenge_of sha sha_laws algebra_7 7 point_7 algebra_7-IsCurve prover 5 3 + 2) % 7)
        then success
        else verification_failed)
verify-equation_example =
    verify-equation sha sha_laws algebra_7 7 point_7 algebra_7-IsCurve prover 5 3 (scalar_7 2) refl
      refl

generate-verify_example :
    (proof : SchnorrZkp) × (generate sha
        (some algebra_7)
        (some prover)
        (some (scalar_7 3))
        (some (point_7 3))
        true
      ≡ ok proof)
    × (verify sha (some algebra_7) (some prover) (some (point_7 3)) (some proof) ≡ success)
generate-verify_example =
    generate-verify sha sha_laws algebra_7 7 point_7 algebra_7-IsCurve prover (scalar_7 3)
      (scalar_7 5) refl refl refl refl

zero_nonce : is_zero (0 ∷ 0 ∷ []) ≡ true
unfolding is_zero
zero_nonce = refl

some_nonce : is_zero (0 ∷ 4 ∷ []) ≡ false
unfolding is_zero
some_nonce = refl
