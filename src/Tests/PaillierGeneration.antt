-- ===== src/Tests/PaillierGeneration.antt =====
-- Runs of the generation of keys of paillier.c: the pair 11, 7 has different lengths, 19 and 23 are
-- taken.
use native.Mathlib.Nat.{dvd-mod_iff, eq-one_of_dvd-one}
use mpc_lib_demo.Paillier.Generation.{
  draw_loop, draw_round, generate_key_pair, generate_private, test_round,
}
use mpc_lib_demo.Paillier.Generation.Factors.{HasFactors}
use mpc_lib_demo.Paillier.Generation.Draws.{CanMake, IsPrimePair}
use mpc_lib_demo.Paillier.Generation.Keys.{generate-encrypt-decrypt, generate_key_pair-HasFactors}
use mpc_lib_demo.Paillier.Encryption.{decrypt, encrypt}
use mpc_lib_demo.Paillier.Encryption.RoundTrip.{wrote}
use mpc_lib_demo.Paillier.{PrivateKey}
use mpc_lib_demo.OpenSsl.{big_endian, is_one}
use mpc_lib_demo.OpenSsl.Reference.{reference, reference_laws}
use mpc_lib_demo.Base.{
  All, Bytes, List, [], arith, inl, inr, ok, refl, some, true, ℕ, ◌*◌, ◌∣◌, ◌∷◌, ◌≡◌,
}
use mpc_lib_demo.AlgebraUtils.Coprime.{AreCoprime}
use mpc_lib_demo.Tests.Field.{mem_works, works}
use mpc_lib_demo.Tests.Primes.{IsPrime-of_check}

abbrev primes_found : List (ℕ × ℕ)
primes_found = (11, 7) ∷ (19, 23) ∷ []

forms : All IsPrimePair primes_found
forms = (
  record {
    p_prime = IsPrime-of_check 11 (omega arith) refl;
    q_prime = IsPrime-of_check 7 (omega arith) refl;
    p_form = refl;
    q_form = refl;
  },
  (
    record {
      p_prime = IsPrime-of_check 19 (omega arith) refl;
      q_prime = IsPrime-of_check 23 (omega arith) refl;
      p_form = refl;
      q_form = refl;
    },
    tt,
  ),
)

-- 437 = 396 + 41, 396 = 9 * 41 + 27, 41 = 27 + 14, 27 = 14 + 13
order-AreCoprime : AreCoprime (18 * 22) (19 * 23)
order-AreCoprime d left right =
    let r41 : d ∣ 41 = (dvd-mod_iff d {m = 437} left).1 right in
    let r27 : d ∣ 27 = (dvd-mod_iff d {m = 396} r41).1 left in
    let r14 : d ∣ 14 = (dvd-mod_iff d {m = 41} r27).1 r41 in
    let r13 : d ∣ 13 = (dvd-mod_iff d {m = 27} r14).1 r27 in
    eq-one_of_dvd-one ((dvd-mod_iff d {m = 14} r13).1 r14)

can_make : CanMake reference primes_found
can_make = inr (inl (refl, order-AreCoprime))

abbrev made : PrivateKey
made = record { public = record { n = 437; n2 = 190969 }; p = 19; q = 23; lamda = 396; mu = 405 }

made_eq :
    generate_key_pair reference 9 mem_works 256 primes_found true true ≡ ok (made.public, made)
unfolding generate_key_pair generate_private draw_loop draw_round test_round is_one
made_eq = refl

generate_key_pair-HasFactors_example :
    (key : PrivateKey) × (generate_key_pair reference 9 mem_works 256 primes_found true true
      ≡ ok (key.public, key))
    × HasFactors key
generate_key_pair-HasFactors_example =
    generate_key_pair-HasFactors reference reference_laws 9 mem_works 256 primes_found works
      (omega arith) forms can_make

two-AreCoprime : AreCoprime 2 437
two-AreCoprime d two whole = eq-one_of_dvd-one ((dvd-mod_iff d {m = 437} two).1 whole)

generate-encrypt-decrypt_example :
    (bs : Bytes) × (out : Bytes) × (encrypt reference mem_works 9
        (2 ∷ [])
        (some made.public)
        (some (7 ∷ []))
        true
        4
      ≡ wrote bs)
    × (decrypt reference mem_works 9 (some made) (some bs) true 4 ≡ wrote out)
    × (big_endian 0 out ≡ 7)
generate-encrypt-decrypt_example =
    generate-encrypt-decrypt reference reference_laws 9 mem_works 256 primes_found made (2 ∷ [])
      (7 ∷ []) 4 4 works (omega arith) forms can_make made_eq (inl two-AreCoprime) (omega arith)
      (omega arith) (omega arith) (omega arith) (omega arith)
