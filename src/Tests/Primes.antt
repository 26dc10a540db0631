-- ===== src/Tests/Primes.antt =====
-- Small primes, by the search for a divisor.
use native.Mathlib.Decide.{dec_lt}
use native.Mathlib.Nat.{eq-zero_of_zero-dvd, le_of_dvd, mod-eq-zero_of_dvd}
use mpc_lib_demo.Base.{Bool, arith, false, inl, inr, refl, suc, true, zero, ℕ, ◌-◌, ◌<◌, ◌∣◌, ◌≡◌}
use mpc_lib_demo.Base.Fermat.{IsPrime}
use mpc_lib_demo.OpenSsl.Reference.{has_divisor, has_divisor-finds}

pub IsPrime-of_check : (p : ℕ) → 1 < p → has_divisor p (p - 2) ≡ false → IsPrime p
IsPrime-of_check p big none_found = record {
  big = big;
  divisors = λ d h. elim (dec_lt 1 d) [
    | no small ↦ inl (at_least d h small)
    | yes more ↦ elim (dec_lt d p) [
      | yes below ↦ absurd (
          differ (has_divisor-finds p d (p - 2) more (omega arith) (mod-eq-zero_of_dvd d h))
            none_found)
      | no same ↦ inr (omega (arith, same, le_of_dvd (omega (arith, big)) h))
    ]
  ];
}
  where
    differ : {b : Bool} → b ≡ true → b ≡ false → ⊥
    differ h h' = cc

    at_least : (d : ℕ) → d ∣ p → ¬ (1 < d) → d ≡ 1
    at_least zero h small = absurd (omega (arith, big, eq-zero_of_zero-dvd h))
    at_least (suc zero) h small = refl
    at_least (suc (suc d)) h small = absurd (small (omega arith))
