-- ===== src/AlgebraUtils.antt =====
-- mpc-lib/src/common/crypto/algebra_utils/algebra_utils.c: arithmetic over OpenSSL's numbers that
-- the protocols share.
--
-- The assertions, which release builds leave out, are not part of the functions here.
pub mod StatusConvert
pub mod Coprime
pub mod Primes
pub mod Crt
pub mod CrtExp
pub mod ToughPrime
use mpc_lib_demo.Algebra
use mpc_lib_demo.OpenSsl.{OpenSsl}
use mpc_lib_demo.Algebra.{AlgebraStatus}
use mpc_lib_demo.Base.Options.{◌>>=◌}
use mpc_lib_demo.Base.{
  Bool, Option, Ptr, false, if◌then◌else◌, ltb, none, not, some, suc, true, zero, ℕ, ◌&&◌, ◌==◌,
  ◌||◌,
}

module _ (o : OpenSsl) where
  -- `while (!BN_is_zero(b))`, on fuel: the divisor that is left when `b` is zero, or `none` when
  -- a division fails.
  pub gcd_loop : ℕ → ℕ → ℕ → Option ℕ
  gcd_loop zero a b = none
  gcd_loop (suc fuel) a b = elim (b == 0) [
    | true ↦ some a
    | false ↦ elim (o.bn_mod a b) [ none ↦ none | some r ↦ gcd_loop fuel b r ]
  ]

  -- From the comparison that puts the larger number first, to the answer.
  coprime_loop : ℕ → ℕ → Option Bool
  unfolding gcd_loop
  coprime_loop a b = elim (if ltb a b then gcd_loop (suc a) b a else gcd_loop (suc b) a b) [
    | none ↦ none
    | some g ↦ some (g == 1)
  ]

  -- `none` is the result -1. The second number falls in every round, so one round more than it is
  -- enough.
  pub is_coprime_fast : (ℕ → Bool) → Ptr ℕ → Ptr ℕ → Bool → Option Bool
  unfolding coprime_loop
  is_coprime_fast mem none in_b ctx = none
  is_coprime_fast mem (some in_a) none ctx = none
  is_coprime_fast mem (some in_a) (some in_b) ctx =
      if not ctx || not (mem 0)
      then none
      else do a ← o.bn_copy in_a; b ← if mem 1 then o.bn_copy in_b else none; coprime_loop a b

  recombine_steps : ℕ → ℕ → ℕ → ℕ → ℕ → Option ℕ
  recombine_steps mod_p mod_q q q_inv_p pq = do
    difference ← o.bn_mod_sub_quick mod_p mod_q pq
    quotient ← o.bn_mod_mul difference q_inv_p pq
    multiple ← o.bn_mod_mul quotient q pq
    o.bn_mod_add_quick multiple mod_q pq

  or_unknown : Option ℕ → AlgebraStatus × Option ℕ
  or_unknown none = (Algebra.unknown_error, none)
  or_unknown (some r) = (Algebra.success, some r)

  -- What is written to `out` comes second; the numbers given are pointers that must not be null.
  pub crt_recombine :
      Bool → Ptr ℕ → Ptr ℕ → Ptr ℕ → Ptr ℕ → Ptr ℕ → Ptr ℕ → Bool → AlgebraStatus × Option ℕ
  unfolding recombine_steps or_unknown
  crt_recombine true (some mod_p) (some p) (some mod_q) (some q) (some q_inv_p) (some pq) true =
      or_unknown (recombine_steps mod_p mod_q q q_inv_p pq)
  crt_recombine out mod_p p mod_q q q_inv_p pq ctx = (Algebra.invalid_parameter, none)

  pub crt_mod_exp :
      (ℕ → Bool)
      → Bool
      → Ptr ℕ
      → Ptr ℕ
      → Ptr ℕ
      → Ptr ℕ
      → Ptr ℕ
      → Ptr ℕ
      → Bool
      → AlgebraStatus × Option ℕ
  unfolding crt_recombine
  crt_mod_exp mem out (some base) (some expo) (some p) (some q) (some q_inv_p) (some pq) true =
      if not (mem 0 && mem 1)
      then (Algebra.out_of_memory, none)
      else elim (o.bn_mod_exp base expo p) [
        | none ↦ (Algebra.unknown_error, none)
        | some mod_p ↦ elim (o.bn_mod_exp base expo q) [
          | none ↦ (Algebra.unknown_error, none)
          | some mod_q ↦
              crt_recombine out (some mod_p) (some p) (some mod_q) (some q) (some q_inv_p) (some pq)
                true
        ]
      ]
  crt_mod_exp mem out base expo p q q_inv_p pq ctx = (Algebra.invalid_parameter, none)
