-- ===== src/AlgebraUtils/Crt.antt =====
-- About `crt_recombine`, the recombination of residues in algebra_utils.c.
use native.Mathlib.Nat.{mod-lt, mod-eq_of_lt}
use mpc_lib_demo.Algebra
use mpc_lib_demo.AlgebraUtils.{crt_recombine, recombine_steps}
use mpc_lib_demo.OpenSsl.{IsOpenSsl, OpenSsl}
use mpc_lib_demo.Base.{
  Cong, ap, arith, Cong-add, Cong-mod, Cong-mod_left, Cong-mul_left, Cong-mul_right, Cong-of_eq,
  Cong-refl, Cong-trans, mod-eq_of_Cong, refl, some, sub_mod-Cong, true, ℕ, ◌%◌, ◌*◌, ◌+◌, ◌-◌, ◌<◌,
  ◌∙◌, ◌≡◌,
}

-- What holds modulo a product holds modulo its factors.
pub Cong-factor_left : {p a b : ℕ} (q : ℕ) → Cong (p * q) a b → Cong p a b
Cong-factor_left {p} q h = record {
  over_left = h.over_left * q;
  over_right = h.over_right * q;
  balance = omega (arith, h.balance);
}

pub Cong-factor_right : {q a b : ℕ} (p : ℕ) → Cong (p * q) a b → Cong q a b
Cong-factor_right {q} p h = record {
  over_left = h.over_left * p;
  over_right = h.over_right * p;
  balance = omega (arith, h.balance);
}

below_product_left : (p q a : ℕ) → a < p → 0 < q → a < p * q
below_product_left p q a h pos =
    let e : q ≡ q - 1 + 1 = omega arith in omega (arith, ap (λ t. p * t) e)

below_product_right : (p q a : ℕ) → a < q → 0 < p → a < p * q
below_product_right p q a h pos =
    let e : p ≡ p - 1 + 1 = omega arith in omega (arith, ap (λ t. t * q) e)

-- The inputs of a recombination: residues, and the inverse of `q` modulo `p`.
pub record AreCrt (p q q_inv_p mod_p mod_q : ℕ) : Type 0 where
  pub left_reduced : mod_p < p
  pub right_reduced : mod_q < q
  pub inverse : Cong p (q * q_inv_p) 1

module _ (o : OpenSsl) (laws : IsOpenSsl o) (p q q_inv_p : ℕ) where
  -- Of reduced residues, with `q_inv_p` the inverse of `q` modulo `p`, `crt_recombine` succeeds, and
  -- the number it writes is below the product and has both residues.
  pub crt_recombine-residues :
      (mod_p mod_q : ℕ)
      → AreCrt p q q_inv_p mod_p mod_q
      → (x : ℕ) × (crt_recombine o true
            (some mod_p)
            (some p)
            (some mod_q)
            (some q)
            (some q_inv_p)
            (some (p * q))
            true
          ≡ (Algebra.success, some x))
        × (x < p * q)
        × (x % p ≡ mod_p)
        × (x % q ≡ mod_q)
  unfolding crt_recombine recombine_steps
  crt_recombine-residues mod_p mod_q h =
      let m : ℕ = p * q in
      let left_small : mod_p < p * q =
        below_product_left p q mod_p h.left_reduced (omega (arith, h.right_reduced)) in
      let right_small : mod_q < p * q =
        below_product_right p q mod_q h.right_reduced (omega (arith, h.left_reduced)) in
      let pos : 0 < p * q = omega (arith, left_small) in
      let s : ℕ = (mod_p + m - mod_q) % m in
      let t : ℕ = (s * q_inv_p) % m in
      let u : ℕ = (t * q) % m in
      let x : ℕ = (u + mod_q) % m in
      let difference : Cong m (s + mod_q) mod_p =
        sub_mod-Cong mod_q mod_p m right_small left_small in
      let product : Cong m u (s * q_inv_p * q) =
        Cong-mod_left (Cong-mul_right q (Cong-mod m (s * q_inv_p))) in
      let undone : Cong p (s * q_inv_p * q) s =
        Cong-trans (Cong-of_eq {a = s * q_inv_p * q} {b = s * (q * q_inv_p)} (omega arith))
          (Cong-trans (Cong-mul_left s h.inverse) (Cong-of_eq {a = s * 1} {b = s} (omega arith))) in
      let vanishes : Cong q (s * q_inv_p * q) 0 = record {
        over_left = 0;
        over_right = s * q_inv_p;
        balance = omega arith;
      } in
      let on_p : Cong p x mod_p = Cong-trans (Cong-factor_left q (Cong-mod m (u + mod_q))) (
        Cong-trans (Cong-add (Cong-trans (Cong-factor_left q product) undone) (Cong-refl mod_q))
          (Cong-factor_left q difference)) in
      let on_q : Cong q x mod_q = Cong-trans (Cong-factor_right p (Cong-mod m (u + mod_q))) (
        Cong-trans (Cong-add (Cong-trans (Cong-factor_right p product) vanishes) (Cong-refl mod_q))
          (Cong-of_eq {a = 0 + mod_q} {b = mod_q} (omega arith))) in
      (
        x,
        rw
            (
              laws.mod_sub_quick mod_p mod_q m left_small right_small,
              laws.mod_mul s q_inv_p m pos,
              laws.mod_mul t q m pos,
              laws.mod_add_quick u mod_q m (mod-lt _ pos) right_small,
            )
            refl,
        mod-lt _ pos,
        mod-eq_of_Cong p x mod_p on_p ∙ mod-eq_of_lt h.left_reduced,
        mod-eq_of_Cong q x mod_q on_q ∙ mod-eq_of_lt h.right_reduced,
      )
