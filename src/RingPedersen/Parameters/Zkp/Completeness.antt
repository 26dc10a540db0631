-- ===== src/RingPedersen/Parameters/Zkp/Completeness.antt =====
-- About the proofs of parameters that ring_pedersen.c makes, and their verification.
use native.Mathlib.Nat.{mod-lt}
use mpc_lib_demo.ZeroKnowledge
use mpc_lib_demo.Drng
use mpc_lib_demo.RingPedersen.Parameters.Zkp.{
  parameters_zkp_generate, parameters_zkp_verify, prove_rounds, refuses_coprime, verdict,
}
use mpc_lib_demo.RingPedersen.Parameters.Rounds.{
  IsHonest, IsReduced, draw_rounds-IsHonest, respond-check_rounds, rounds_work-true, zkp_seed-finds,
}
use mpc_lib_demo.RingPedersen.Parameters.Encoding.{FitsIn, deserialize-serialize}
use mpc_lib_demo.RingPedersen.Parameters.{Round, deserialize, security, serialize, serialized_size}
use mpc_lib_demo.RingPedersen.Scheme.{IsKey}
use mpc_lib_demo.RingPedersen.{PrivateKey}
use mpc_lib_demo.Drng.{Drng, drng_new, overlaps}
use mpc_lib_demo.Drng.Stream.{IsValid}
use mpc_lib_demo.Drng.Stream.Reads.{new-read}
use mpc_lib_demo.Commitments.{IsSha256, Sha256}
use mpc_lib_demo.AlgebraUtils.Coprime.{AreCoprime, is_coprime_fast-AreCoprime}
use mpc_lib_demo.OpenSsl.{IsOpenSsl, OpenSsl}
use mpc_lib_demo.Base.{
  ==_iff, All, Bool, Bytes, List, [], after, arith, false, is_empty, length, le→ltb, map, ok, refl,
  some, subst, sym, true, ℕ, ◌*◌, ◌+◌, ◌<◌, ◌^◌, ◌∙◌, ◌∷◌, ◌≡◌, ◌≤◌,
}

-- What the verifier tests of a key, and the sizes of a key's numbers.
pub record IsWellMade (key : PrivateKey) : Type 0 where
  pub p : ℕ
  pub q : ℕ
  pub p_big : 1 < p
  pub q_big : 1 < q
  pub composite : key.public.n ≡ p * q
  pub t_coprime : AreCoprime key.public.n key.public.t
  pub s_coprime : AreCoprime key.public.n key.public.s
  pub s_le : key.public.s ≤ key.public.n
  pub t_le : key.public.t ≤ key.public.n
  pub lamda_lt : key.lamda < key.phi_n
  pub phi_le : key.phi_n ≤ key.public.n

refuses_coprime-false :
    (o : OpenSsl) (laws : IsOpenSsl o) (mem : ℕ → Bool) (works : (k : ℕ) → mem k ≡ true) (a b : ℕ)
    → AreCoprime a b
    → refuses_coprime o mem a b ≡ false
unfolding refuses_coprime
refuses_coprime-false o laws mem works a b coprime =
    let (answer, found, right) = is_coprime_fast-AreCoprime o laws mem a b works in
    rw (refuses_coprime, found, right.1 coprime) refl

apart_one : overlaps 0 100 1 ≡ false
unfolding overlaps
apart_one = refl

module _ (o : OpenSsl) (laws : IsOpenSsl o) (key : PrivateKey) (is_key : IsKey key)
    (made : IsWellMade key) (sha : Sha256) (is_sha : IsSha256 sha) (sha512 : Bytes → Bytes)
    (digest_length : (message : Bytes) → length (sha512 message) ≡ 64) (rng_at e_at : ℕ)
    (apart : overlaps rng_at e_at 1 ≡ false) (mem : ℕ → Bool) (works : (k : ℕ) → mem k ≡ true) where
  abbrev n : ℕ
  n = key.public.n

  abbrev size : ℕ
  size = o.bn_num_bytes n

  drng_new-IsValid :
      (seed : Bytes)
      → length seed ≡ 32
      → (g : Drng) × (drng_new sha512 true (some seed) true ≡ (Drng.success, some g)) × IsValid g
  drng_new-IsValid seed count =
      let (g, end, found, v, first) =
        new-read sha512 digest_length seed 0 100 1 (omega (arith, count)) (omega arith)
          (omega arith) apart_one in
      (g, found, v)

  All-FitsIn : (rounds : List Round) → All (IsReduced key) rounds → All (FitsIn o laws size) rounds
  All-FitsIn [] h = tt
  All-FitsIn (round ∷ rounds) h = (
    record {
      a_small = omega (arith, h.0.a_lt, laws.lt-num_bytes n);
      z_small = omega (arith, h.0.z_lt, made.phi_le, laws.lt-num_bytes n);
    },
    All-FitsIn rounds h.1,
  )

  All-small :
      (rounds : List Round)
      → All (IsHonest key) rounds
      → All (λ x. x < 256 ^ size) (map (λ (round : Round). round.a) rounds)
  All-small [] h = tt
  All-small (round ∷ rounds) h =
      let below : round.a < n =
        rw h.0.power (mod-lt (key.public.t ^ round.z) (omega (arith, is_key.big))) in
      (omega (arith, below, laws.lt-num_bytes n), All-small rounds h.1)

  -- The prover's rounds, and that the verifier accepts them once they are read.
  prove_rounds-verdict :
      (tape : List ℕ) (aad : Bytes)
      → All (λ z. z < key.phi_n) tape
      → security ≤ length tape
      → (rounds : List Round) × (prove_rounds o sha sha512 rng_at e_at mem tape key aad ≡ ok rounds)
        × (length rounds ≡ security)
        × All (IsReduced key) rounds
        × ((bs : Bytes)
            → deserialize o size bs ≡ some rounds
            → verdict o sha sha512 rng_at e_at mem key.public aad bs ≡ ok tt)
  unfolding prove_rounds verdict
  prove_rounds-verdict tape aad small enough =
      let (drawn, found, honest, many) =
        draw_rounds-IsHonest o laws key is_key security tape small enough in
      let numbers : List ℕ = map (λ (round : Round). round.a) drawn in
      let (seed, hashed, seed_len) =
        zkp_seed-finds o laws sha is_sha key.public numbers aad made.s_le made.t_le
          (All-small drawn honest) in
      let (g, created, v) = drng_new-IsValid seed seed_len in
      let (answers, answered, same, reduced, many', checked) =
        respond-check_rounds o laws key is_key sha512 digest_length rng_at e_at apart made.lamda_lt
          g drawn v honest in
      (
        answers,
        rw
            (
              works 0,
              rounds_work-true mem 1 security (λ j h h'. works j),
              found,
              works 161,
              hashed,
              works 162,
              created,
              answered,
            )
            refl,
        many' ∙ many,
        reduced,
        λ bs read.
            rw
              (
                composite_test,
                refuses_coprime-false o laws (after 162 mem) (λ k. works (k + 162)) n key.public.t
                    made.t_coprime,
                refuses_coprime-false o laws (after 164 mem) (λ k. works (k + 164)) n key.public.s
                    made.s_coprime,
                read,
                same,
                works 166,
                hashed,
                works 167,
                created,
                checked,
              )
              refl,
      )
    where
      composite_test : o.bn_is_prime_fasttest n ≡ some false
      composite_test =
          subst (λ x. o.bn_is_prime_fasttest x ≡ some false) (sym made.composite)
            (laws.is_prime_composite made.p made.q made.p_big made.q_big)

  -- When no allocation fails, 80 nonces below `phi_n` are drawn, and the buffer is long enough, a
  -- proof is made for a key that is well made, and verified against its public part and the same
  -- data, which must not be empty.
  pub parameters_generate-verify :
      (tape : List ℕ) (aad old : Bytes)
      → All (λ z. z < key.phi_n) tape
      → security ≤ length tape
      → is_empty aad ≡ false
      → size < 2 ^ 32
      → serialized_size o key.public ≤ length old
      → (proof : Bytes) × (parameters_zkp_generate o sha sha512 rng_at e_at mem tape
            (some key)
            (some aad)
            (some old)
            (length old)
          ≡ record {
            status = ZeroKnowledge.success;
            real_len = some (length proof);
            proof = some proof;
          })
        × (parameters_zkp_verify o sha sha512 rng_at e_at mem
              (some key.public)
              (some aad)
              (some proof)
            ≡ ZeroKnowledge.success)
  unfolding parameters_zkp_generate parameters_zkp_verify
  parameters_generate-verify tape aad old small enough some_aad fits room =
      let (rounds, proved, many, reduced, accepted) = prove_rounds-verdict tape aad small enough in
      let (read, count) =
        deserialize-serialize o laws key.public rounds old many (All-FitsIn rounds reduced) fits in
      let proof : Bytes = serialize o size rounds old in
      (
        proof,
        rw (some_aad, le→ltb (length old) (serialized_size o key.public) room, proved, count) refl,
        rw
            (
              some_aad,
              (==_iff _ _).1 count,
              works 0,
              rounds_work-true mem 1 security (λ j h h'. works j),
              works 161,
              accepted proof read,
            )
            refl,
      )
