-- ===== src/Lib.antt =====
-- The C library of a multi-party signing service: the cryptographic primitives under
-- mpc-lib/src/common/crypto, modelled as functions on natural numbers, bytes and nullable
-- pointers, with the theorems that make them correct.
--
--   - OpenSsl: the calls of OpenSSL's big numbers, as a record of functions that may fail, and
--     what their documentation promises, `IsOpenSsl`. OpenSsl.Reference is an instance that
--     computes, for the tests.
--   - Algebra: the table of functions of a curve, mpc-lib/include/crypto/elliptic_curve_algebra.
--   - AlgebraUtils: mpc-lib/src/common/crypto/algebra_utils/algebra_utils.c: Coprime, Crt and
--     CrtExp about its arithmetic, ToughPrime the search for primes.
--   - Commitments: mpc-lib/src/common/crypto/commitments/commitments.c.
--   - Pedersen: mpc-lib/src/common/crypto/commitments/pedersen.c, over Drng, Algebra and
--     Commitments.
--   - Drng: mpc-lib/src/common/crypto/drng/drng.c.
--   - Paillier: mpc-lib/src/common/crypto/paillier/paillier.c, over AlgebraUtils: Paillier holds
--     the keys and the two operations on numbers, Encryption the calls that encrypt and decrypt,
--     Homomorphic those that compute with ciphertexts, Generation how keys are made,
--     Serialization the keys as bytes, Scheme what a ciphertext is.
--   - Vss: mpc-lib/src/common/crypto/shamir_secret_sharing/verifiable_secret_sharing.c, which
--     uses the curve for the proofs of its shares.
--   - ZeroKnowledge: mpc-lib/src/common/crypto/zero_knowledge_proof, of which Schnorr is
--     schnorr.c and DiffieHellman diffie_hellman_log.c, over Algebra. Algebra.Curve says what
--     its proofs, those of Vss and Pedersen rely on of a curve: laws that GFp_curve_algebra.c
--     and ed25519_algebra.c are read to meet, on operands that are not empty, combinations of
--     one point or more, and reduced coefficients, when their own allocations succeed.
--     AlgebraUtils.StatusConvert, mpc-lib/src/common/crypto/algebra_utils/status_convert.c, uses
--     the status of RingPedersen.
--   - RingPedersen: mpc-lib/src/common/crypto/commitments/ring_pedersen.c: Generation makes the
--     keys, Serialization turns them to bytes, over Buffer, which says what it is to read
--     outside a buffer; Commitments the commitments, with Batch for many at once; Parameters the
--     parts of the proof of a key's parameters and Zkp its two calls; Scheme what a commitment
--     is.
--   - Base: lists, Boolean tests, congruence and results that the others share. Tests: runs on
--     small inputs.
--
-- Definitions carry the names of the C functions without the prefix of their module. A function
-- that changes an object returns the object after the call beside its status. A pointer that the
-- code tests for null is an option; a buffer is the list of its bytes, so its length argument is
-- the length of the list. Whether an allocation succeeds is an argument: `mem k` for the k-th of a
-- call. Random numbers are an argument as well, the list of those that the generator hands out.
-- Memory that is only cleansed and freed has no counterpart. Where an allocation and the first use
-- of what it gives fail alike, the model has one failure for both. Assertions, which release
-- builds leave out, are not part of the functions. The words of 32 bits that announce lengths keep
-- their wrap-around. OpenSSL's context for Montgomery's multiplication has no counterpart but the
-- law of the calls that use it, which is for odd moduli.
--
-- The loop of `drng_read_deterministic_rand` runs on fuel, the number of bytes and two: every
-- round but the first hands out 32 bytes. The loop of `is_coprime_fast` runs on its smaller number
-- and one, which falls in every round. The loop that finds the challenge of diffie_hellman_log.c
-- ends when a block of the generator is below the order, so its fuel is an argument, and running
-- out of it is a result of its own.
--
-- The predicate `IsKey` on a Paillier key has Euler's theorem as a field;
-- Paillier.Generation.Factors derives it for a key that is made from two primes, by Base.Fermat
-- and Base.Euler. AlgebraUtils.Primes and RingPedersen.Generation derive in the same way what
-- `IsKey` of RingPedersen says of a generator. The primes that OpenSSL finds are an argument of
-- the generation, a pair for each round of its loop, which is structural on their list; the search
-- for tough primes has the small primes and the random bytes as arguments, and the rounds of its
-- two loops as the constants of the code. The number that it leaves in its result when it fails
-- has no counterpart.
--
-- Not modelled: the Damgard-Fujisaki commitments, the proofs and the commitments over Paillier
-- keys, the range proofs, the implementations of the curves, Keccak, logging, and the C++ services
-- and program around the library.
mod Base
pub mod OpenSsl
pub mod Algebra
pub mod Buffer
pub mod AlgebraUtils
pub mod Commitments
pub mod Drng
pub mod Paillier
pub mod ZeroKnowledge
pub mod RingPedersen
pub mod Pedersen
pub mod Tests
pub mod Vss
