-- ===== src/Base/Congruence.antt =====
-- Congruence modulo `m` with its witnesses, so that `omega` can compute with it.
use native.Mathlib.Decide.{dec_lt}
use native.Mathlib.Nat.{
  add-mod_right, add-mul-mod_self_right, div-add-mod, pow-suc, pow-zero, mod-eq_of_lt,
}
use mpc_lib_demo.Base.Names.{
  ap, arith, inl, inr, refl, suc, sym, zero, ℕ, ◌%◌, ◌*◌, ◌+◌, ◌-◌, ◌/◌, ◌<◌, ◌^◌, ◌∙◌, ◌≡◌, ◌≢◌,
  ◌⊎◌,
}

pub record Cong (m a b : ℕ) : Type 0 where
  pub over_left : ℕ
  pub over_right : ℕ
  pub balance : a + over_left * m ≡ b + over_right * m

module _ {m : ℕ} where
  pub Cong-refl : (a : ℕ) → Cong m a a
  Cong-refl a = record { over_left = 0; over_right = 0; balance = refl }

  pub Cong-of_eq : {a b : ℕ} → a ≡ b → Cong m a b
  Cong-of_eq e = record { over_left = 0; over_right = 0; balance = ap (λ x. x + 0 * m) e }

  pub Cong-symm : {a b : ℕ} → Cong m a b → Cong m b a
  Cong-symm h = record {
    over_left = h.over_right;
    over_right = h.over_left;
    balance = sym h.balance;
  }

  pub Cong-trans : {a b c : ℕ} → Cong m a b → Cong m b c → Cong m a c
  Cong-trans h h' = record {
    over_left = h.over_left + h'.over_left;
    over_right = h.over_right + h'.over_right;
    balance = omega (arith, h.balance, h'.balance);
  }

  pub Cong-add : {a b c d : ℕ} → Cong m a b → Cong m c d → Cong m (a + c) (b + d)
  Cong-add h h' = record {
    over_left = h.over_left + h'.over_left;
    over_right = h.over_right + h'.over_right;
    balance = omega (arith, h.balance, h'.balance);
  }

  pub Cong-mul_right : {a b : ℕ} (c : ℕ) → Cong m a b → Cong m (a * c) (b * c)
  Cong-mul_right c h = record {
    over_left = h.over_left * c;
    over_right = h.over_right * c;
    balance = omega (arith, ap (λ (t : ℕ). t * c) h.balance);
  }

  pub Cong-mul_left : {a b : ℕ} (c : ℕ) → Cong m a b → Cong m (c * a) (c * b)
  Cong-mul_left c h = record {
    over_left = h.over_left * c;
    over_right = h.over_right * c;
    balance = omega (arith, ap (λ (t : ℕ). t * c) h.balance);
  }

  pub Cong-mul : {a b c d : ℕ} → Cong m a b → Cong m c d → Cong m (a * c) (b * d)
  Cong-mul {b = b} {c = c} h h' = Cong-trans (Cong-mul_right c h) (Cong-mul_left b h')

  pub Cong-pow : {a b : ℕ} (n : ℕ) → Cong m a b → Cong m (a ^ n) (b ^ n)
  Cong-pow {a} {b} zero h = Cong-of_eq (pow-zero a ∙ sym (pow-zero b))
  Cong-pow {a} {b} (suc n) h = rw (pow-suc a n, pow-suc b n) (Cong-mul (Cong-pow n h) h)

  pub Cong-add_cancel : {a b : ℕ} (c : ℕ) → Cong m (a + c) (b + c) → Cong m a b
  Cong-add_cancel c h = record {
    over_left = h.over_left;
    over_right = h.over_right;
    balance = omega (arith, h.balance);
  }

pub Cong-mod : (m a : ℕ) → Cong m (a % m) a
Cong-mod m a = record {
  over_left = a / m;
  over_right = 0;
  balance = omega (arith, div-add-mod a m);
}

pub Cong-mod_left : {m a b : ℕ} → Cong m a b → Cong m (a % m) b
Cong-mod_left {m} {a} h = Cong-trans (Cong-mod m a) h

pub mod-eq_of_Cong : (m a b : ℕ) → Cong m a b → a % m ≡ b % m
mod-eq_of_Cong m a b h =
    sym (add-mul-mod_self_right a h.over_left m)
    ∙ ap (λ x. x % m) h.balance
    ∙ add-mul-mod_self_right b h.over_right m

pub Cong-of_mod-eq : (m a b : ℕ) → a % m ≡ b % m → Cong m a b
Cong-of_mod-eq m a b e =
    Cong-trans (Cong-symm (Cong-mod m a)) (Cong-trans (Cong-of_eq e) (Cong-mod m b))

pub Cong-zero_iff : (m a : ℕ) → a % m ≡ 0 → Cong m a 0
Cong-zero_iff m a e = Cong-trans (Cong-symm (Cong-mod m a)) (Cong-of_eq e)

pub mul-mod : (a b m : ℕ) → (a * b) % m ≡ (a % m * (b % m)) % m
mul-mod a b m =
    mod-eq_of_Cong m (a * b) (a % m * (b % m)) (Cong-symm (Cong-mul (Cong-mod m a) (Cong-mod m b)))

pub eq_of_Cong_lt : (m a b : ℕ) → a < m → b < m → Cong m a b → a ≡ b
eq_of_Cong_lt m a b ha hb h = sym (mod-eq_of_lt ha) ∙ mod-eq_of_Cong m a b h ∙ mod-eq_of_lt hb

-- `BN_mod_sub_quick` on reduced arguments.
pub sub_mod_cases :
    (x y m : ℕ) → x < m → y < m → ((y + m - x) % m + x ≡ y) ⊎ ((y + m - x) % m + x ≡ y + m)
sub_mod_cases x y m hx hy = elim (dec_lt y x) [
  | yes lt ↦ inr (omega (arith, mod-eq_of_lt {n = y + m - x} {m = m} (omega arith)))
  | no ge ↦
      let e : y + m - x ≡ y - x + m = omega arith in
      inl (
        rw e
          (omega (arith, add-mod_right (y - x) m, mod-eq_of_lt {n = y - x} {m = m} (omega arith))))
]

pub sub_mod-Cong : (x y m : ℕ) → x < m → y < m → Cong m ((y + m - x) % m + x) y
sub_mod-Cong x y m hx hy = elim (sub_mod_cases x y m hx hy) [
  | inl e ↦ Cong-of_eq e
  | inr e ↦ record { over_left = 0; over_right = 1; balance = omega (arith, e) }
]

pub sub_mod-pos : (x y m : ℕ) → x < m → y < m → x ≢ y → 0 < (y + m - x) % m
sub_mod-pos x y m hx hy ne = elim (sub_mod_cases x y m hx hy) [
  | inl e ↦ omega (arith, e)
  | inr e ↦ omega (arith, e)
]
