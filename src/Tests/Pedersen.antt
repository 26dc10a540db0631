-- ===== src/Tests/Pedersen.antt =====
-- Runs of pedersen.c modulo 7.
use mpc_lib_demo.Algebra
use mpc_lib_demo.Commitments.{success}
use mpc_lib_demo.Drng.{overlaps}
use mpc_lib_demo.Tests.Field.{algebra_7, algebra_7-IsCurve, point_7}
use mpc_lib_demo.Tests.Commitments.{sha, sha_laws}
use mpc_lib_demo.Pedersen.{TwoGenerators, create_commitment, verify_opening}
use mpc_lib_demo.Pedersen.Opening.{create-verify_opening, create_commitment-point}
use mpc_lib_demo.OpenSsl.{big_endian}
use mpc_lib_demo.Base.{Bytes, Cong-of_mod-eq, [], false, ok, refl, some, true, ◌∷◌, ◌≡◌}

abbrev generators : TwoGenerators
generators = record { h = point_7 3; f = point_7 5 }

create_commitment-point_example :
    create_commitment true
      (some generators)
      (some (2 ∷ []))
      (some (4 ∷ []))
      (some (6 ∷ []))
      (some algebra_7)
    ≡ ok (point_7 44)
create_commitment-point_example =
    create_commitment-point algebra_7 7 point_7 algebra_7-IsCurve 3 5 (2 ∷ []) (4 ∷ []) (6 ∷ [])
      refl refl refl

create-verify_opening_example :
    (commitment : Bytes) × (create_commitment true
        (some generators)
        (some (2 ∷ []))
        (some (4 ∷ []))
        (some (6 ∷ []))
        (some algebra_7)
      ≡ ok commitment)
    × (verify_opening sha commitment
          (some generators)
          (some (9 ∷ []))
          (some (4 ∷ []))
          (some (6 ∷ []))
          (some algebra_7)
        ≡ success)
create-verify_opening_example =
    create-verify_opening algebra_7 7 point_7 algebra_7-IsCurve sha sha_laws 3 5 (2 ∷ []) (4 ∷ [])
      (6 ∷ []) (9 ∷ []) (4 ∷ []) (6 ∷ []) refl refl refl refl refl refl
      (Cong-of_mod-eq 7 51 44 refl)

hashes_7 :
    (message : Bytes)
    → algebra_7.hash_on_curve message ≡ (Algebra.success, point_7 (big_endian 0 message))
hashes_7 message = refl

apart_64 : overlaps 0 100 64 ≡ false
unfolding overlaps
apart_64 = refl
