-- ===== src/Tests/DiffieHellman.antt =====
-- Runs of diffie_hellman_log.c modulo 7, with a digest that is zero.
use mpc_lib_demo.Algebra
use mpc_lib_demo.ZeroKnowledge.{success}
use mpc_lib_demo.ZeroKnowledge.DiffieHellman.Challenge.{FindsBelow, draw_scalar-finds}
use mpc_lib_demo.Drng.{Drng, overlaps, write_digest}
use mpc_lib_demo.Drng.Stream.{
  IsValid, first_block, stream, stream-block, write_digest-IsValid, write_digest-pos,
}
use mpc_lib_demo.OpenSsl.{big_endian}
use mpc_lib_demo.Base.{
  All, Bytes, IsByte, [], ap, arith, false, inl, length, ok, refl, replicate, some, subst, sym,
  true, ◌<◌, ◌∙◌, ◌∷◌, ◌≡◌,
}
use mpc_lib_demo.ZeroKnowledge.DiffieHellman.{LogZkp, draw_scalar, generate, verify}
use mpc_lib_demo.ZeroKnowledge.DiffieHellman.Completeness.{log_generate-verify, values_of}
use mpc_lib_demo.Tests.Field.{algebra_7, algebra_7-IsCurve, point_7, scalar_7}
use mpc_lib_demo.Tests.Commitments.{sha, sha_laws}

abbrev zeros : Bytes → Bytes
zeros message = replicate 64 0

zeros_full : (message : Bytes) → length (zeros message) ≡ 64
zeros_full message = refl

apart_32 : overlaps 0 100 32 ≡ false
unfolding overlaps
apart_32 = refl

abbrev start : Drng
start = write_digest (replicate 64 0) 0

block_zero : (stream zeros 32 start).0 ≡ replicate 32 0
block_zero =
    let v : IsValid start = write_digest-IsValid (replicate 64 0) refl in
    ap (λ r. r.0)
      (stream-block zeros 32 start v.bytes_full
        (omega (arith, write_digest-pos (replicate 64 0) 0)))
    ∙ first_block (replicate 64 0) 32 (omega arith)

finds : FindsBelow zeros 7 1 start
finds =
    let block : All IsByte (stream zeros 32 start).0
        × (big_endian 0 (stream zeros 32 start).0 < 7) =
      subst (λ bs. All IsByte bs × (big_endian 0 bs < 7)) (sym block_zero)
        (omega arith, omega arith) in
    (block.0, inl block.1)

draw_scalar-finds_example :
    (e : Bytes) × (draw_scalar sha zeros true 0 100 1 algebra_7 1 start ≡ some (ok e))
    × (big_endian 0 e < big_endian 0 algebra_7.order)
    × (length e ≡ 32)
draw_scalar-finds_example =
    draw_scalar-finds sha zeros zeros_full 0 100 1 apart_32 algebra_7 (omega arith) refl 1 start
      (write_digest-IsValid (replicate 64 0) refl) finds

log_generate-verify_example :
    (proof : LogZkp) × (generate sha zeros true 0 100 1
        (Algebra.success, scalar_7 2)
        (Algebra.success, scalar_7 6)
        (some algebra_7)
        (some (1 ∷ []))
        (some (point_7 3))
        (some (scalar_7 4))
        (some (scalar_7 5))
        (some (scalar_7 3))
        (some (
          values_of algebra_7 7 point_7 algebra_7-IsCurve 3 (scalar_7 4) (scalar_7 5) (scalar_7 3)))
        true
      ≡ some (ok proof))
    × (verify sha zeros true 0 100 1
          (some algebra_7)
          (some (1 ∷ []))
          (some (point_7 3))
          (some (
            values_of algebra_7 7 point_7 algebra_7-IsCurve 3
              (scalar_7 4)
              (scalar_7 5)
              (scalar_7 3)))
          (some proof)
        ≡ some success)
log_generate-verify_example =
    log_generate-verify algebra_7 7 point_7 algebra_7-IsCurve sha sha_laws zeros zeros_full 0 100 1
      apart_32 (omega arith) refl 3 (1 ∷ []) (scalar_7 4) (scalar_7 5) (scalar_7 3) (scalar_7 2)
      (scalar_7 6) refl refl refl refl refl refl finds
