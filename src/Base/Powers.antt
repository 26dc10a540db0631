-- ===== src/Base/Powers.antt =====
-- Powers of numbers.
use native.Mathlib.Nat.{pow-suc, pow-zero}
use mpc_lib_demo.Base.Names.{ap, arith, refl, suc, sym, zero, ℕ, ◌*◌, ◌+◌, ◌^◌, ◌∙◌, ◌≡◌}

pub mul-pow : (a b k : ℕ) → (a * b) ^ k ≡ a ^ k * b ^ k
mul-pow a b zero = rw (pow-zero (a * b), pow-zero a, pow-zero b) refl
mul-pow a b (suc k) = rw (pow-suc (a * b) k, pow-suc a k, pow-suc b k, mul-pow a b k) (omega arith)

pub pow-add : (a j k : ℕ) → a ^ (j + k) ≡ a ^ j * a ^ k
pow-add a j zero = ap (λ i. a ^ i) {x = j + 0} {y = j} (omega arith) ∙ rw (pow-zero a) (omega arith)
pow-add a j (suc k) =
    ap (λ i. a ^ i) {x = j + suc k} {y = suc (j + k)} (omega arith)
    ∙ rw (pow-suc a (j + k), pow-suc a k, pow-add a j k) (omega arith)

pub pow-pow : (a j k : ℕ) → (a ^ j) ^ k ≡ (a ^ k) ^ j
pow-pow a j zero = rw (pow-zero (a ^ j), pow-zero a) (sym (one-pow j))
  where
    one-pow : (i : ℕ) → 1 ^ i ≡ 1
    one-pow zero = pow-zero 1
    one-pow (suc i) = rw (pow-suc 1 i, one-pow i) refl
pow-pow a j (suc k) = rw (pow-suc (a ^ j) k, pow-suc a k, mul-pow (a ^ k) a j, pow-pow a j k) refl

pub pow-mul : (a j k : ℕ) → a ^ (j * k) ≡ (a ^ j) ^ k
pow-mul a j zero =
    rw (pow-zero (a ^ j)) (ap (λ i. a ^ i) {x = j * 0} {y = 0} (omega arith) ∙ pow-zero a)
pow-mul a j (suc k) =
    ap (λ i. a ^ i) {x = j * suc k} {y = j * k + j} (omega arith)
    ∙ pow-add a (j * k) j
    ∙ rw (pow-suc (a ^ j) k, pow-mul a j k) refl
