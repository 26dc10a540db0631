-- ===== src/Tests.antt =====
-- Runs of the definitions on small inputs, and the theorems applied to such inputs.
pub mod Field
pub mod Vss
pub mod Drng
pub mod RingPedersen
pub mod RingKeys
pub mod Commitments
pub mod AlgebraUtils
pub mod Schnorr
pub mod DiffieHellman
pub mod PaillierKeys
pub mod PaillierGeneration
pub mod Primes
pub mod ToughPrimes
pub mod Pedersen
pub mod Paillier
pub mod Ciphertexts
