-- ===== src/RingPedersen/Parameters/Zkp.antt =====
-- The calls of ring_pedersen.c that make and verify the proof of a key's parameters.
pub mod Completeness
use mathlib.Core.Option
use mpc_lib_demo.ZeroKnowledge
use mpc_lib_demo.RingPedersen.Parameters.{
  Round, check_rounds, deserialize, draw_rounds, respond, rounds_work, security, serialize,
  serialized_size, zkp_seed,
}
use mpc_lib_demo.ZeroKnowledge.{ZkpStatus}
use mpc_lib_demo.Commitments.{Sha256}
use mpc_lib_demo.Drng.{drng_new}
use mpc_lib_demo.AlgebraUtils.{is_coprime_fast}
use mpc_lib_demo.OpenSsl.{OpenSsl}
use mpc_lib_demo.RingPedersen.{PrivateKey, PublicKey}
use mpc_lib_demo.Base.{
  Bool, Bytes, List, Option, Ptr, Result, after, err, guard, if◌then◌else◌, is_empty, is_null,
  length, ltb, map, none, not, ok, or_fail, some, true, ℕ, ◌&&◌, ◌==◌, ◌>>=◌, ◌>>◌, ◌||◌,
}

-- The status, the length through the last pointer, and the bytes of the proof.
pub record Output : Type 0 where
  pub status : ZkpStatus
  pub real_len : Option ℕ
  pub proof : Option Bytes

refuse : ZkpStatus → Option ℕ → Output
refuse status real_len = record { status = status; real_len = real_len; proof = none }

module _ (o : OpenSsl) where
  -- `is_coprime_fast(a, b, ctx) != 1` is a refusal.
  refuses_coprime : (ℕ → Bool) → ℕ → ℕ → Bool
  refuses_coprime mem a b = elim (is_coprime_fast o mem (some a) (some b) true) [
    | none ↦ true
    | some answer ↦ not answer
  ]

  module _ (sha : Sha256) (sha512 : Bytes → Bytes) (rng_at e_at : ℕ) where
    -- The rounds of the finished proof
    pub prove_rounds : (ℕ → Bool) → List ℕ → PrivateKey → Bytes → Result ZkpStatus (List Round)
    unfolding rounds_work draw_rounds zkp_seed respond
    prove_rounds mem tape key aad = do
      guard (mem 0) ZeroKnowledge.out_of_memory
      guard (rounds_work mem 1 security) ZeroKnowledge.out_of_memory
      rounds ← or_fail (draw_rounds o key security tape) ZeroKnowledge.unknown_error
      seed ←
          or_fail (zkp_seed o sha (mem 161) key.public (map (λ round. round.a) rounds) aad)
            ZeroKnowledge.unknown_error
      rng ← or_fail (drng_new sha512 (mem 162) (some seed) true).1 ZeroKnowledge.unknown_error
      or_fail (respond o sha512 rng_at e_at key rng rounds) ZeroKnowledge.unknown_error

    -- `serialized_proof` is what the buffer holds, `proof_len` its length. The generator of the
    -- challenge stands at `rng_at` and its byte at `e_at`.
    pub parameters_zkp_generate :
        (ℕ → Bool) → List ℕ → Ptr PrivateKey → Ptr Bytes → Ptr Bytes → ℕ → Output
    unfolding refuse serialized_size prove_rounds serialize
    parameters_zkp_generate mem tape (some key) (some aad) serialized_proof proof_len =
        let needed = serialized_size o key.public in
        if is_empty aad || (is_null serialized_proof && not (proof_len == 0))
        then refuse ZeroKnowledge.invalid_parameter none
        else if ltb proof_len needed
        then refuse ZeroKnowledge.insufficient_buffer (some needed)
        else elim (prove_rounds mem tape key aad) [
          | err status ↦ refuse status (some needed)
          | ok rounds ↦ record {
            status = ZeroKnowledge.success;
            real_len = some needed;
            proof = Option.map (serialize o (o.bn_num_bytes key.public.n) rounds) serialized_proof;
          }
        ]
    parameters_zkp_generate mem tape key aad serialized_proof proof_len =
        refuse ZeroKnowledge.invalid_parameter none

    -- Whether the proof is accepted, once the memory for it is there.
    pub verdict : (ℕ → Bool) → PublicKey → Bytes → Bytes → Result ZkpStatus (Unit {0})
    unfolding refuses_coprime deserialize zkp_seed check_rounds
    verdict mem key aad serialized_proof = do
      prime ← or_fail (o.bn_is_prime_fasttest key.n) ZeroKnowledge.verification_failed
      guard (not prime) ZeroKnowledge.verification_failed
      guard (not (refuses_coprime (after 162 mem) key.n key.t)) ZeroKnowledge.verification_failed
      guard (not (refuses_coprime (after 164 mem) key.n key.s)) ZeroKnowledge.verification_failed
      rounds ←
          or_fail (deserialize o (o.bn_num_bytes key.n) serialized_proof)
            ZeroKnowledge.verification_failed
      seed ←
          or_fail (zkp_seed o sha (mem 166) key (map (λ round. round.a) rounds) aad)
            ZeroKnowledge.unknown_error
      rng ← or_fail (drng_new sha512 (mem 167) (some seed) true).1 ZeroKnowledge.verification_failed
      guard (check_rounds o sha512 rng_at e_at key rng rounds) ZeroKnowledge.verification_failed

    pub verdict_status : Result ZkpStatus (Unit {0}) → ZkpStatus
    verdict_status (ok _) = ZeroKnowledge.success
    verdict_status (err status) = status

    -- When there is no memory for `t_pow_z`, the status of the step before is returned, which is the
    -- success.
    pub parameters_zkp_verify : (ℕ → Bool) → Ptr PublicKey → Ptr Bytes → Ptr Bytes → ZkpStatus
    unfolding serialized_size rounds_work verdict verdict_status
    parameters_zkp_verify mem (some key) (some aad) (some serialized_proof) =
        if is_empty aad || not (length serialized_proof == serialized_size o key)
        then ZeroKnowledge.invalid_parameter
        else if not (mem 0)
        then ZeroKnowledge.out_of_memory
        else if not (rounds_work mem 1 security)
        then ZeroKnowledge.out_of_memory
        else if not (mem 161)
        then ZeroKnowledge.success
        else verdict_status (verdict mem key aad serialized_proof)
    parameters_zkp_verify mem key aad serialized_proof = ZeroKnowledge.invalid_parameter
