-- ===== src/RingPedersen/Generation/Keys.antt =====
-- About the keys that ring_pedersen.c makes.
use mpc_lib_demo.RingPedersen.Generation.{Draws}
use mpc_lib_demo.OpenSsl.{OpenSsl}
use mpc_lib_demo.AlgebraUtils.Coprime.{AreCoprime}
use mpc_lib_demo.Base.{List, [], some, ℕ, ◌%◌, ◌*◌, ◌-◌, ◌<◌, ◌∷◌, ◌≡◌, ◌≢◌, ◌⊎◌}
use mpc_lib_demo.Base.Fermat.{IsPrime}

-- What OpenSSL is asked for: two primes, a number below the order of their product, and numbers of
-- which some is coprime to the product. The primes are different and odd.
pub record IsDrawn (draws : Draws) (p q lamda : ℕ) : Type 0 where
  pub p_drawn : draws.p ≡ some p
  pub q_drawn : draws.q ≡ some q
  pub lamda_drawn : draws.lamda ≡ some lamda
  pub p_prime : IsPrime p
  pub q_prime : IsPrime q
  pub distinct : p ≢ q
  pub odd : (p * q) % 2 ≡ 1
  pub lamda_lt : lamda < (p - 1) * (q - 1)

-- Some of the numbers is coprime.
abbrev pub SomeCoprime : ℕ → List ℕ → Type 0
SomeCoprime n [] = ⊥
SomeCoprime n (r ∷ tries) = AreCoprime r n ⊎ SomeCoprime n tries
