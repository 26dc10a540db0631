-- ===== src/Vss/Verify/Shares.antt =====
-- About `verifiable_secret_sharing_verify_share` and the polynomial of the coefficients.
use native.Mathlib.Nat.{mod-lt}
use mpc_lib_demo.Vss.{invalid_share, success}
use mpc_lib_demo.OpenSsl.{IsOpenSsl, OpenSsl}
use mpc_lib_demo.Algebra.Curve.{IsCurve, IsReduced, dot}
use mpc_lib_demo.Algebra.{Algebra}
use mpc_lib_demo.Vss.Interpolation.{eval}
use mpc_lib_demo.Vss.Verify.{power_vals, status_of, verify_share, x_vals}
use mpc_lib_demo.Base.{
  All, Bool, Bytes, Cong, Cong-add, Cong-mod, Cong-mul_left, Cong-mul_right, Cong-of_eq, Cong-trans,
  List, [], ap, arith, false, if◌then◌else◌, is_empty, length, map, mod-eq_of_Cong, ok, refl, some,
  suc, take, true, ℕ, ≢0→==0, ◌%◌, ◌*◌, ◌+◌, ◌-◌, ◌<◌, ◌==◌, ◌^◌, ◌∙◌, ◌∷◌, ◌≡◌, ◌≤◌,
}

module _ (o : OpenSsl) (laws : IsOpenSsl o) (algebra : Algebra) (order : ℕ) (big : 1 < order)
    (fits : order ≤ 256 ^ 32) (point : ℕ → Bytes) (curve : IsCurve algebra order point) where
  powers_dot :
      (cs : List ℕ) (tmp x : ℕ)
      → (vals : List Bytes) × (power_vals o (length cs) tmp x order ≡ ok vals)
        × (length vals ≡ length cs)
        × All (IsReduced order) vals
        × Cong order (dot cs vals) (tmp * (x * eval cs x))
  unfolding power_vals
  powers_dot [] tmp x = ([], refl, refl, tt, Cong-of_eq (omega arith))
  powers_dot (c ∷ cs) tmp x =
      let next : ℕ = (tmp * x) % order in
      let small : next < order = mod-lt (tmp * x) (omega arith) in
      let (val, e, len, value) = laws.bn2binpad next 32 (omega (arith, fits, small)) in
      let (rest, es, lens, all, sum) = powers_dot cs next x in
      (
        val ∷ rest,
        rw (laws.mod_mul tmp x order (omega arith), e, es) refl,
        ap suc lens,
        ((len, rw value small), all),
        rw value (
            Cong-trans
              (Cong-add (Cong-mul_left c (Cong-mod order (tmp * x)))
                (Cong-trans sum (Cong-mul_right (x * eval cs x) (Cong-mod order (tmp * x)))))
              (Cong-of_eq {a = c * (tmp * x) + tmp * x * (x * eval cs x)}
                {b = tmp * (x * (c + x * eval cs x))} (omega arith))),
      )

  x_vals-dot :
      (mem : ℕ → Bool) (id c : ℕ) (cs : List ℕ)
      → ((k : ℕ) → mem k ≡ true)
      → (vals : List Bytes) × (x_vals o mem algebra id (suc (length cs)) ≡ ok vals)
        × (length (c ∷ cs) ≡ length vals)
        × (is_empty vals ≡ false)
        × All (IsReduced order) vals
        × Cong order (dot (c ∷ cs) vals) (eval (c ∷ cs) id)
  unfolding x_vals
  x_vals-dot mem id c cs works =
      let (first, e, len, value) = laws.bn2binpad 1 32 (omega (arith, fits, big)) in
      let (rest, es, lens, all, sum) = powers_dot cs 1 id in
      let pred : suc (length cs) - 1 ≡ length cs = omega arith in
      (
        first ∷ rest,
        rw (works 0, works 1, works 2, works 3, laws.set_word id, curve.order_eq, e, pred, es) refl,
        omega (arith, lens),
        refl,
        ((len, rw value big), all),
        Cong-trans (Cong-add (Cong-of_eq (ap (λ t. c * t) value)) sum) (
            Cong-of_eq {a = c * 1 + 1 * (id * eval cs id)} {b = c + id * eval cs id} (omega arith)),
      )

  take_all : (xs : List ℕ) → take (length xs) (map point xs) ≡ map point xs
  take_all [] = refl
  take_all (x ∷ xs) = ap (λ ys. point x ∷ ys) (take_all xs)

  status_of_answer : (b : Bool) → status_of o (ok b) ≡ (if b then success else invalid_share)
  unfolding status_of
  status_of_answer true = refl
  status_of_answer false = refl

  -- When no allocation fails, and over a curve that meets its laws, `verify_share` accepts the
  -- proof of a share exactly when the share is the value at its id of the polynomial whose
  -- coefficients were committed to, modulo the order.
  pub verify_share-eval :
      (mem : ℕ → Bool) (id share c : ℕ) (cs : List ℕ)
      → ((k : ℕ) → mem k ≡ true)
      → verify_share o mem
          (some algebra)
          id
          (some (point share))
          (suc (length cs))
          (some (map point (c ∷ cs)))
        ≡ (if (share % order) == (eval (c ∷ cs) id % order) then success else invalid_share)
  unfolding verify_share
  verify_share-eval mem id share c cs works =
      let (vals, e, len, filled, all, sum) = x_vals-dot mem id c cs works in
      let same : dot (c ∷ cs) vals % order ≡ eval (c ∷ cs) id % order =
        mod-eq_of_Cong order (dot (c ∷ cs) vals) (eval (c ∷ cs) id) sum in
      rw
        (
          ≢0→==0 (suc (length cs)) (omega arith),
          e,
          take_all (c ∷ cs),
          curve.verify share (c ∷ cs) vals len filled all,
        )
        (status_of_answer ((share % order) == (dot (c ∷ cs) vals % order)))
      ∙ ap (λ r. if (share % order) == r then success else invalid_share) same
