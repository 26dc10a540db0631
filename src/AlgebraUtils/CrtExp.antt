-- ===== src/AlgebraUtils/CrtExp.antt =====
-- About the exponentiation through residues of algebra_utils.c.
use native.Mathlib.Nat.{mod-lt, mod-eq_of_lt}
use mpc_lib_demo.Algebra
use mpc_lib_demo.AlgebraUtils.Crt.{crt_recombine-residues}
use mpc_lib_demo.AlgebraUtils.{crt_mod_exp}
use mpc_lib_demo.OpenSsl.{IsOpenSsl, OpenSsl}
use mpc_lib_demo.Base.{
  Bool, Cong, ap, arith, Cong-mod, Cong-of_eq, Cong-symm, Cong-trans, mod-eq_of_Cong, some, sym,
  true, ℕ, ◌%◌, ◌*◌, ◌+◌, ◌<◌, ◌^◌, ◌∙◌, ◌≡◌,
}

-- Two numbers that agree modulo `p` and modulo `q` agree modulo the product, when `q` has an
-- inverse modulo `p`.
Cong-product : (p q u a b : ℕ) → Cong p (q * u) 1 → Cong p a b → Cong q a b → Cong (p * q) a b
Cong-product p q u a b inv hp hq = record {
  over_left = hp.over_left * u + hq.over_right * inv.over_right + hq.over_left * inv.over_left;
  over_right = hp.over_right * u + hq.over_left * inv.over_right + hq.over_right * inv.over_left;
  balance = omega (
    arith,
    ap (λ (t : ℕ). t * (q * u)) hp.balance,
    ap (λ (t : ℕ). t * (inv.over_right * p)) hq.balance,
    ap (λ (t : ℕ). t * (inv.over_left * p)) hq.balance,
    ap (λ (t : ℕ). t * a) inv.balance,
    ap (λ (t : ℕ). t * b) inv.balance,
  );
}

module _ (o : OpenSsl) (laws : IsOpenSsl o) (p q q_inv_p : ℕ) where
  -- When `q_inv_p` inverts `q` modulo `p` and no allocation fails, `crt_mod_exp` succeeds with the
  -- power modulo the product.
  pub crt_mod_exp-power :
      (mem : ℕ → Bool) (base expo : ℕ)
      → ((k : ℕ) → mem k ≡ true)
      → 0 < p
      → 0 < q
      → Cong p (q * q_inv_p) 1
      → crt_mod_exp o mem true
          (some base)
          (some expo)
          (some p)
          (some q)
          (some q_inv_p)
          (some (p * q))
          true
        ≡ (Algebra.success, some (base ^ expo % (p * q)))
  unfolding crt_mod_exp
  crt_mod_exp-power mem base expo works pos_p pos_q inverse =
      let power : ℕ = base ^ expo in
      let (x, e, small, on_p, on_q) =
        crt_recombine-residues o laws p q q_inv_p (power % p) (power % q) (record {
          left_reduced = mod-lt power pos_p;
          right_reduced = mod-lt power pos_q;
          inverse = inverse;
        }) in
      let same : x % (p * q) ≡ power % (p * q) = mod-eq_of_Cong (p * q) x power (
        Cong-product p q q_inv_p x power inverse
          (Cong-trans (Cong-symm (Cong-mod p x)) (Cong-trans (Cong-of_eq on_p) (Cong-mod p power)))
          (Cong-trans (Cong-symm (Cong-mod q x))
            (Cong-trans (Cong-of_eq on_q) (Cong-mod q power)))) in
      rw (works 0, works 1, laws.mod_exp base expo p pos_p, laws.mod_exp base expo q pos_q, e)
        (ap (λ r. (Algebra.success, some r)) (sym (mod-eq_of_lt small) ∙ same))
