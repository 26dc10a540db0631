-- ===== src/RingPedersen/Generation.antt =====
-- How ring_pedersen.c makes a key. What OpenSSL draws is an argument: the two primes and `lamda`,
-- which are missing when a call fails, and the numbers below the modulus, one for each round of the
-- loop, whose end is a failure of the generator.
pub mod Keys
use mpc_lib_demo.RingPedersen.{
  PrivateKey, PublicKey, RingPedersenStatus, invalid_parameter, keylen_too_short, out_of_memory,
  unknown_error,
}
use mpc_lib_demo.RingPedersen.Serialization.{min_key_bits}
use mpc_lib_demo.OpenSsl.{OpenSsl, is_one}
use mpc_lib_demo.Base.{
  Bool, List, Ptr, Result, [], guard, if◌then◌else◌, leb, none, ok, or_fail, some, ℕ, ◌&&◌, ◌>>=◌,
  ◌>>◌, ◌∷◌,
}

-- The two primes, `lamda`, and the numbers that are tried
pub record Draws : Type 0 where
  pub p : Ptr ℕ
  pub q : Ptr ℕ
  pub lamda : Ptr ℕ
  pub tries : List ℕ

module _ (o : OpenSsl) where
  -- Numbers are drawn until one is coprime to the modulus.
  unfoldable pub draw_coprime : ℕ → List ℕ → Ptr ℕ
  unfolding is_one
  draw_coprime n [] = none
  draw_coprime n (r ∷ tries) =
      let rest = draw_coprime n tries in if is_one (o.bn_gcd r n) then some r else rest

  unfoldable pub generate_key_pair :
      (ℕ → Bool) → ℕ → Draws → Bool → Bool → Result RingPedersenStatus (PublicKey × PrivateKey)
  unfolding draw_coprime
  generate_key_pair mem key_len draws public_given private_given = do
    guard (public_given && private_given) invalid_parameter
    guard (leb min_key_bits key_len) keylen_too_short
    guard (mem 0) out_of_memory
    guard (mem 1 && mem 2 && mem 3 && mem 4) unknown_error
    guard (mem 5 && mem 6 && mem 7 && mem 8 && mem 9) unknown_error
    p ← or_fail draws.p unknown_error
    q ← or_fail draws.q unknown_error
    n ← or_fail (o.bn_mul p q) unknown_error
    n_less_p ← or_fail (o.bn_sub n p) unknown_error
    n_less_both ← or_fail (o.bn_sub n_less_p q) unknown_error
    phi ← or_fail (o.bn_add_word n_less_both 1) unknown_error
    lamda ← or_fail draws.lamda unknown_error
    r ← or_fail (draw_coprime n draws.tries) unknown_error
    t ← or_fail (o.bn_mod_sqr r n) unknown_error
    s ← or_fail (o.bn_mod_exp t lamda n) unknown_error
    guard (mem 10 && mem 11) out_of_memory
    n_copy ← or_fail (o.bn_copy n) out_of_memory
    s_copy ← or_fail (o.bn_copy s) out_of_memory
    t_copy ← or_fail (o.bn_copy t) out_of_memory
    ok (
      record { n = n_copy; s = s_copy; t = t_copy },
      record { public = record { n = n; s = s; t = t }; lamda = lamda; phi_n = phi },
    )
