-- ===== src/Tests/RingPedersen.antt =====
-- Runs of ring_pedersen.c with the modulus 3 * 5.
use native.Mathlib.Nat.{dvd-mod_iff, eq-one_of_dvd-one}
use mpc_lib_demo.RingPedersen
use mpc_lib_demo.ZeroKnowledge
use mpc_lib_demo.RingPedersen.{PrivateKey}
use mpc_lib_demo.RingPedersen.Scheme.{IsKey, commitment_of}
use mpc_lib_demo.RingPedersen.Commitments.{create_commitment, verify_commitment}
use mpc_lib_demo.RingPedersen.Commitments.Opening.{create-verify_commitment, verify_commitment_iff}
use mpc_lib_demo.RingPedersen.Commitments.Batch.{
  Item, entry_of, verify_batch_commitments, verify_batch_commitments_internal,
}
use mpc_lib_demo.RingPedersen.Commitments.Batch.Weights.{IsOpened, verify_batch_commitments-success}
use mpc_lib_demo.RingPedersen.Parameters.{serialized_size}
use mpc_lib_demo.RingPedersen.Parameters.Zkp.{parameters_zkp_generate, parameters_zkp_verify}
use mpc_lib_demo.RingPedersen.Parameters.Zkp.Completeness.{IsWellMade, parameters_generate-verify}
use mpc_lib_demo.AlgebraUtils.Coprime.{AreCoprime}
use mpc_lib_demo.OpenSsl.{big_endian}
use mpc_lib_demo.OpenSsl.Reference.{reference, reference_laws}
use mpc_lib_demo.Drng.{overlaps}
use mpc_lib_demo.Tests.Field.{mem_works, works}
use mpc_lib_demo.Tests.Commitments.{sha, sha_laws}
use mpc_lib_demo.Tests.Drng.{digest, digest_full}
use mpc_lib_demo.Base.{
  Bytes, Cong-of_mod-eq, List, [], arith, false, if◌then◌else◌, length, map, refl, replicate, some,
  true, ℕ, ◌==◌, ◌∣◌, ◌∷◌, ◌≡◌, ◌≤◌,
}

abbrev pub ring_key : PrivateKey
ring_key = record { public = record { n = 15; s = 4; t = 4 }; lamda = 3; phi_n = 8 }

pub ring_key-IsKey : IsKey ring_key
ring_key-IsKey = record {
  odd = refl;
  big = omega arith;
  phi_pos = omega arith;
  generator = Cong-of_mod-eq 15 _ _ refl;
  order = Cong-of_mod-eq 15 _ _ refl;
}

four-AreCoprime : AreCoprime 15 4
four-AreCoprime d fifteen four =
    let three : d ∣ 3 = (dvd-mod_iff d four).1 fifteen in
    eq-one_of_dvd-one ((dvd-mod_iff d three).1 four)

ring_key-IsWellMade : IsWellMade ring_key
ring_key-IsWellMade = record {
  p = 3;
  q = 5;
  p_big = omega arith;
  q_big = omega arith;
  composite = refl;
  t_coprime = four-AreCoprime;
  s_coprime = four-AreCoprime;
  s_le = omega arith;
  t_le = omega arith;
  lamda_lt = omega arith;
  phi_le = omega arith;
}

verify_commitment_iff_example :
    verify_commitment reference mem_works
      (some ring_key)
      (some (2 ∷ []))
      (some (3 ∷ []))
      (some (9 ∷ []))
    ≡ (if commitment_of ring_key.public 2 3 == 9
        then RingPedersen.success
        else RingPedersen.invalid_commitment)
verify_commitment_iff_example =
    verify_commitment_iff reference reference_laws ring_key ring_key-IsKey mem_works works (2 ∷ [])
      (3 ∷ []) refl refl (9 ∷ []) refl refl

create-verify_commitment_example :
    (commitment : Bytes) × (create_commitment reference mem_works
        (some ring_key.public)
        (some (2 ∷ []))
        (some (3 ∷ []))
        true
        4
      ≡ record {
        status = RingPedersen.success;
        real_len = some (length commitment);
        commitment = some commitment;
      })
    × (big_endian 0 commitment ≡ commitment_of ring_key.public 2 3)
    × (verify_commitment reference mem_works
          (some ring_key)
          (some (2 ∷ []))
          (some (3 ∷ []))
          (some commitment)
        ≡ RingPedersen.success)
create-verify_commitment_example =
    create-verify_commitment reference reference_laws ring_key ring_key-IsKey mem_works works
      (2 ∷ []) (3 ∷ []) refl refl 4 (omega arith)

-- 4 ^ 2 * 4 ^ 3 is 4 modulo 15.
abbrev item : Item Bytes
item = record { x = 2 ∷ []; r = 3 ∷ []; commitment = 4 ∷ [] }

abbrev number_item : Item ℕ
number_item = record { x = 1; r = 3; commitment = 1 }

item-IsOpened : IsOpened reference reference_laws ring_key ring_key-IsKey item
item-IsOpened = record {
  some_x = refl;
  some_r = refl;
  some_c = refl;
  fits = refl;
  right = Cong-of_mod-eq 15 _ _ refl;
}

verify_batch_commitments-success_example :
    (verify_batch_commitments reference mem_works
        (9 ∷ 7 ∷ [])
        (some ring_key)
        (some (map entry_of (item ∷ item ∷ [])))
      ≡ RingPedersen.success)
    × (verify_batch_commitments_internal reference mem_works
          (9 ∷ 7 ∷ [])
          (some ring_key)
          (some (map entry_of (number_item ∷ [])))
          true
        ≡ RingPedersen.success)
verify_batch_commitments-success_example =
    verify_batch_commitments-success reference reference_laws ring_key ring_key-IsKey mem_works
      works (9 ∷ 7 ∷ []) (item ∷ item ∷ []) (number_item ∷ []) refl refl
      (item-IsOpened, (item-IsOpened, tt)) (Cong-of_mod-eq 15 _ _ refl, tt) (omega arith)
      (omega arith)

apart_1 : overlaps 0 100 1 ≡ false
unfolding overlaps
apart_1 = refl

abbrev nonces : List ℕ
nonces = replicate 80 5

abbrev old_buffer : Bytes
old_buffer = replicate 168 0

size_15 : serialized_size reference ring_key.public ≤ length old_buffer
unfolding serialized_size
size_15 = omega arith

parameters_generate-verify_example :
    (proof : Bytes) × (parameters_zkp_generate reference sha digest 0 100 mem_works nonces
        (some ring_key)
        (some (1 ∷ []))
        (some old_buffer)
        (length old_buffer)
      ≡ record {
        status = ZeroKnowledge.success;
        real_len = some (length proof);
        proof = some proof;
      })
    × (parameters_zkp_verify reference sha digest 0 100 mem_works
          (some ring_key.public)
          (some (1 ∷ []))
          (some proof)
        ≡ ZeroKnowledge.success)
parameters_generate-verify_example =
    parameters_generate-verify reference reference_laws ring_key ring_key-IsKey ring_key-IsWellMade
      sha sha_laws digest digest_full 0 100 apart_1 mem_works works nonces (1 ∷ []) old_buffer
      (omega arith) (omega arith) refl (omega arith) size_15
