-- ===== src/Tests/Ciphertexts.antt =====
-- Runs of the calls of paillier.c on ciphertexts.
use mpc_lib_demo.Tests.Paillier.{four, key, key-IsKey, seven}
use mpc_lib_demo.Paillier.Homomorphic.Differences.{sub-Encrypts}
use mpc_lib_demo.OpenSsl.Reference.{reference, reference_laws}
use mpc_lib_demo.Tests.Field.{mem_works, works}
use mpc_lib_demo.Paillier.Encryption.RoundTrip.{Encrypts, wrote}
use mpc_lib_demo.Paillier.Homomorphic.{add, mul, sub}
use mpc_lib_demo.Paillier.Homomorphic.Sums.{add-Encrypts, mul-Encrypts}
use mpc_lib_demo.Base.{Bytes, [], arith, some, true, ℕ, ◌%◌, ◌+◌, ◌∷◌, ◌≡◌}

add-Encrypts_example :
    (out : Bytes) × (add reference mem_works 9
        (some key.public)
        (some (83 ∷ []))
        (some (173 ∷ []))
        true
        4
      ≡ wrote out)
    × Encrypts reference key.public out 11
add-Encrypts_example =
    add-Encrypts reference reference_laws key key-IsKey mem_works 9 works 4 (omega arith) (83 ∷ [])
      (173 ∷ []) 7 4 seven four

mul-Encrypts_example :
    (out : Bytes) × (mul reference mem_works 9
        (some key.public)
        (some (83 ∷ []))
        (some (3 ∷ []))
        true
        4
      ≡ wrote out)
    × Encrypts reference key.public out 21
mul-Encrypts_example =
    mul-Encrypts reference reference_laws key key-IsKey mem_works 9 works 4 (omega arith) (83 ∷ [])
      (3 ∷ []) 7 seven (omega arith)

sub-Encrypts_example :
    (out : Bytes) × (d : ℕ) × (sub reference mem_works 9
        (some key.public)
        (some (83 ∷ []))
        (some (173 ∷ []))
        true
        4
      ≡ wrote out)
    × Encrypts reference key.public out d
    × ((d + 4) % 15 ≡ 7)
sub-Encrypts_example =
    sub-Encrypts reference reference_laws key key-IsKey mem_works 9 works 4 (omega arith) (83 ∷ [])
      (173 ∷ []) 7 4 seven four
