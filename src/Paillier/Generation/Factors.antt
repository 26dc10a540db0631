-- ===== src/Paillier/Generation/Factors.antt =====
-- About the keys that paillier.c makes.
use mpc_lib_demo.Paillier.Scheme.{IsKey}
use mpc_lib_demo.Paillier.{PrivateKey}
use mpc_lib_demo.Base.{Cong, ◌*◌, ◌-◌, ◌≡◌, ◌≢◌}
use mpc_lib_demo.Base.Fermat.{IsPrime}
use mpc_lib_demo.AlgebraUtils.Primes.{order_of_product, product_big}

-- Two different primes, with the key that is computed from them
pub record HasFactors (key : PrivateKey) : Type 0 where
  pub p_prime : IsPrime key.p
  pub q_prime : IsPrime key.q
  pub distinct : key.p ≢ key.q
  pub product : key.public.n ≡ key.p * key.q
  pub square : key.public.n2 ≡ key.public.n * key.public.n
  pub order : key.lamda ≡ (key.p - 1) * (key.q - 1)
  pub inverse : Cong key.public.n (key.lamda * key.mu) 1

-- Euler's theorem gives the order of a key that was made from primes.
pub HasFactors-IsKey : (key : PrivateKey) → HasFactors key → IsKey key
HasFactors-IsKey key h = record {
  big = rw h.product (product_big key.p key.q h.p_prime.big h.q_prime.big);
  square = h.square;
  inverse = h.inverse;
  order = λ a coprime. rw h.order (
      order_of_product key.p key.q key.public.n a h.p_prime h.q_prime h.distinct h.product coprime);
}
