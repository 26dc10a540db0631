-- ===== src/Tests/Paillier.antt =====
-- Runs of paillier.c with the key 3 * 5.
use native.Mathlib.Nat.{dvd-mod_iff, eq-one_of_dvd-one}
use mpc_lib_demo.Paillier.Generation.Factors.{HasFactors-IsKey}
use mpc_lib_demo.Tests.Primes.{IsPrime-of_check}
use mpc_lib_demo.OpenSsl.{big_endian}
use mpc_lib_demo.OpenSsl.Reference.{reference, reference_laws}
use mpc_lib_demo.Tests.Field.{mem_works, works}
use mpc_lib_demo.AlgebraUtils.Coprime.{AreCoprime}
use mpc_lib_demo.Paillier.{PrivateKey}
use mpc_lib_demo.Paillier.Scheme.{IsCiphertext, IsKey}
use mpc_lib_demo.Paillier.Encryption.{decrypt, decrypt_integer, encrypt, encrypt_integer}
use mpc_lib_demo.Paillier.Encryption.Internal.{CanDraw}
use mpc_lib_demo.Paillier.Encryption.RoundTrip.{Encrypts, encrypt-decrypt, wrote}
use mpc_lib_demo.Base.{
  Bytes, Cong-of_mod-eq, List, [], arith, inl, inr, ok, refl, some, true, ℕ, ◌%◌, ◌*◌, ◌+◌, ◌<◌,
  ◌^◌, ◌∷◌, ◌≡◌,
}
use mpc_lib_demo.Paillier.Encryption.Integers.{encrypt_integer-decrypt_integer}

abbrev pub key : PrivateKey
key = record { public = record { n = 15; n2 = 225 }; p = 3; q = 5; lamda = 8; mu = 2 }

pub key-IsKey : IsKey key
key-IsKey = HasFactors-IsKey key (record {
  p_prime = IsPrime-of_check 3 (omega arith) refl;
  q_prime = IsPrime-of_check 5 (omega arith) refl;
  distinct = λ same. omega (arith, same);
  product = refl;
  square = refl;
  order = refl;
  inverse = Cong-of_mod-eq 15 _ _ refl;
})

two-AreCoprime : AreCoprime 2 15
two-AreCoprime d two fifteen = eq-one_of_dvd-one ((dvd-mod_iff d two).1 fifteen)

-- The first draw is refused, the second is not.
abbrev pub tape : List ℕ
tape = 3 ∷ 2 ∷ []

pub can_draw : CanDraw 15 tape
can_draw = inr (inl two-AreCoprime)

two-IsCiphertext :
    (c m : ℕ) → c < 225 → c % 225 ≡ ((1 + 15 * m) * 2 ^ 15) % 225 → IsCiphertext 15 c m
two-IsCiphertext c m small e = record {
  r = 2;
  coprime = two-AreCoprime;
  value = Cong-of_mod-eq 225 c _ e;
  reduced = small;
}

pub seven : Encrypts reference key.public (83 ∷ []) 7
seven = record { ciphertext = two-IsCiphertext 83 7 (omega arith) refl; fits = omega arith }

pub four : Encrypts reference key.public (173 ∷ []) 4
four = record { ciphertext = two-IsCiphertext 173 4 (omega arith) refl; fits = omega arith }

pub nothing : Encrypts reference key.public (143 ∷ []) 0
nothing = record { ciphertext = two-IsCiphertext 143 0 (omega arith) refl; fits = omega arith }

encrypt_integer-decrypt_integer_example :
    (bs : Bytes) × (encrypt_integer reference mem_works 9 tape (some key.public) 7 true 4
      ≡ wrote bs)
    × (decrypt_integer reference mem_works 9 (some key) bs true ≡ ok 7)
encrypt_integer-decrypt_integer_example =
    encrypt_integer-decrypt_integer reference reference_laws key key-IsKey mem_works 9 works tape 7
      4 can_draw (omega arith) (omega arith) (omega arith)

encrypt-decrypt_example :
    (bs : Bytes) × (out : Bytes) × (encrypt reference mem_works 9 tape
        (some key.public)
        (some (7 ∷ []))
        true
        4
      ≡ wrote bs)
    × (decrypt reference mem_works 9 (some key) (some bs) true 4 ≡ wrote out)
    × (big_endian 0 out ≡ 7)
encrypt-decrypt_example =
    encrypt-decrypt reference reference_laws key key-IsKey mem_works 9 works tape (7 ∷ []) 4 4
      can_draw (omega arith) (omega arith) (omega arith) (omega arith) (omega arith)
