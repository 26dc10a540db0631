-- ===== src/AlgebraUtils/Coprime.antt =====
-- About `is_coprime_fast`, the Euclidean loop of algebra_utils.c.
use native.Mathlib.Nat.{dvd-mod_iff, dvd-zero, dvd_refl, eq-one_of_dvd-one, mod-lt}
use mpc_lib_demo.AlgebraUtils.{coprime_loop, gcd_loop, is_coprime_fast}
use mpc_lib_demo.OpenSsl.{IsOpenSsl, OpenSsl}
use mpc_lib_demo.Base.{
  Bool, Bool-cases, arith, inl, inr, ltb, refl, some, subst, suc, sym, true, zero, ℕ, ◌%◌, ◌<◌,
  ◌==◌, ◌↔◌, ◌∣◌, ◌≡◌,
}

-- Only 1 divides both numbers.
abbrev pub AreCoprime : ℕ → ℕ → Type 0
AreCoprime a b = (d : ℕ) → d ∣ a → d ∣ b → d ≡ 1

-- The number divides both, and what divides both divides it.
pub record IsGcd (g a b : ℕ) : Type 0 where
  pub left : g ∣ a
  pub right : g ∣ b
  pub greatest : (d : ℕ) → d ∣ a → d ∣ b → d ∣ g

module _ (o : OpenSsl) (laws : IsOpenSsl o) where
  gcd_loop-IsGcd :
      (fuel a b : ℕ) → b < fuel → (g : ℕ) × (gcd_loop o fuel a b ≡ some g) × IsGcd g a b
  unfolding gcd_loop
  gcd_loop-IsGcd zero a b h = elim h [ ]
  gcd_loop-IsGcd (suc fuel) a b h = elim (Bool-cases (b == 0)) [
    | inl e ↦
        let z : b ≡ 0 = ground arith in
        (
          a,
          rw (gcd_loop, e) refl,
          record {
            left = dvd_refl a;
            right = subst (λ x. a ∣ x) (sym z) (dvd-zero a);
            greatest = λ d ha hb. ha;
          },
        )
    | inr e ↦
        let pos : 0 < b = ground arith in
        let (g, found, is_gcd) = gcd_loop-IsGcd fuel b (a % b) (omega (arith, mod-lt a pos)) in
        (
          g,
          rw (gcd_loop, e, laws.mod_ a b pos) found,
          record {
            left = (dvd-mod_iff g is_gcd.left).0 is_gcd.right;
            right = is_gcd.left;
            greatest = λ d ha hb. is_gcd.greatest d hb ((dvd-mod_iff d hb).1 ha);
          },
        )
  ]

  pub is_one_iff : (g a b : ℕ) → IsGcd g a b → ((g == 1) ≡ true) ↔ AreCoprime a b
  is_one_iff g a b is_gcd = (
    λ one d ha hb.
        let e : g ≡ 1 = ground arith in
        eq-one_of_dvd-one (subst (λ x. d ∣ x) e (is_gcd.greatest d ha hb)),
    λ coprime. rw (coprime g is_gcd.left is_gcd.right) refl,
  )

  swap-IsGcd : {g a b : ℕ} → IsGcd g a b → IsGcd g b a
  swap-IsGcd h = record { left = h.right; right = h.left; greatest = λ d ha hb. h.greatest d hb ha }

  coprime_loop-AreCoprime :
      (a b : ℕ)
      → (answer : Bool) × (coprime_loop o a b ≡ some answer) × ((answer ≡ true) ↔ AreCoprime a b)
  unfolding coprime_loop
  coprime_loop-AreCoprime a b = elim (Bool-cases (ltb a b)) [
    | inl e ↦
        let (g, found, is_gcd) = gcd_loop-IsGcd (suc a) b a (omega arith) in
        (g == 1, rw (coprime_loop, e, found) refl, is_one_iff g a b (swap-IsGcd is_gcd))
    | inr e ↦
        let (g, found, is_gcd) = gcd_loop-IsGcd (suc b) a b (omega arith) in
        (g == 1, rw (coprime_loop, e, found) refl, is_one_iff g a b is_gcd)
  ]

  -- When no call of OpenSSL fails, `is_coprime_fast` answers, and answers whether the numbers are
  -- coprime.
  pub is_coprime_fast-AreCoprime :
      (mem : ℕ → Bool) (a b : ℕ)
      → ((k : ℕ) → mem k ≡ true)
      → (answer : Bool) × (is_coprime_fast o mem (some a) (some b) true ≡ some answer)
        × ((answer ≡ true) ↔ AreCoprime a b)
  unfolding is_coprime_fast
  is_coprime_fast-AreCoprime mem a b works =
      let (answer, found, right) = coprime_loop-AreCoprime a b in
      (answer, rw (works 0, works 1, laws.copy a, laws.copy b) found, right)
