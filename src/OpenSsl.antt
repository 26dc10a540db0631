-- ===== src/OpenSsl.antt =====
-- What the code takes from OpenSSL's BIGNUM: operations on natural numbers that may fail.
--
-- A BIGNUM stands for its value; a call that returns 0 or NULL is `none`. `IsOpenSsl` says what
-- the manual pages promise, when no allocation fails.
pub mod Reference
pub mod Numbers
use mpc_lib_demo.Base.{
  All, Bool, Bytes, IsByte, Option, [], false, length, none, some, ℕ, ◌%◌, ◌*◌, ◌+◌, ◌-◌, ◌/◌, ◌<◌,
  ◌==◌, ◌^◌, ◌∣◌, ◌∷◌, ◌≡◌, ◌≤◌,
}

pub record OpenSsl : Type 0 where
  pub bn_set_word : ℕ → Option ℕ
  pub bn_copy : ℕ → Option ℕ
  pub bn_add_word : ℕ → ℕ → Option ℕ
  pub bn_sub_word : ℕ → ℕ → Option ℕ
  pub bn_mul_word : ℕ → ℕ → Option ℕ
  pub bn_add : ℕ → ℕ → Option ℕ
  pub bn_sub : ℕ → ℕ → Option ℕ
  pub bn_mul : ℕ → ℕ → Option ℕ
  pub bn_sqr : ℕ → Option ℕ
  pub bn_div : ℕ → ℕ → Option ℕ
  pub bn_mod : ℕ → ℕ → Option ℕ
  pub bn_mod_add_quick : ℕ → ℕ → ℕ → Option ℕ
  pub bn_mod_sub_quick : ℕ → ℕ → ℕ → Option ℕ
  pub bn_mod_mul : ℕ → ℕ → ℕ → Option ℕ
  pub bn_mod_add : ℕ → ℕ → ℕ → Option ℕ
  pub bn_mod_sqr : ℕ → ℕ → Option ℕ
  pub bn_mod_exp : ℕ → ℕ → ℕ → Option ℕ
  pub bn_mod_exp_mont : ℕ → ℕ → ℕ → Option ℕ
  pub bn_mod_exp2_mont : ℕ → ℕ → ℕ → ℕ → ℕ → Option ℕ
  pub bn_mod_inverse : ℕ → ℕ → Option ℕ
  pub bn_gcd : ℕ → ℕ → Option ℕ
  pub bn_bin2bn : Bytes → Option ℕ
  pub bn_bn2bin : ℕ → Bytes
  pub bn_bn2binpad : ℕ → ℕ → Option Bytes
  pub bn_num_bytes : ℕ → ℕ
  pub bn_num_bits : ℕ → ℕ
  pub bn_is_prime_fasttest : ℕ → Option Bool

-- `BN_is_one(tmp)` after a `BN_gcd` that worked
unfoldable pub is_one : Option ℕ → Bool
is_one none = false
is_one (some divisor) = divisor == 1

-- The number that bytes stand for, the most significant first.
abbrev pub big_endian : ℕ → Bytes → ℕ
big_endian acc [] = acc
big_endian acc (b ∷ bs) = big_endian (acc * 256 + b) bs

pub record IsOpenSsl (o : OpenSsl) : Type 0 where
  pub set_word : (w : ℕ) → o.bn_set_word w ≡ some w
  pub copy : (a : ℕ) → o.bn_copy a ≡ some a
  pub add_word : (a w : ℕ) → o.bn_add_word a w ≡ some (a + w)
  pub sub_word : (a w : ℕ) → w ≤ a → o.bn_sub_word a w ≡ some (a - w)
  pub mul_word : (a w : ℕ) → o.bn_mul_word a w ≡ some (a * w)
  pub add : (a b : ℕ) → o.bn_add a b ≡ some (a + b)
  pub sub : (a b : ℕ) → b ≤ a → o.bn_sub a b ≡ some (a - b)
  pub mul : (a b : ℕ) → o.bn_mul a b ≡ some (a * b)
  pub sqr : (a : ℕ) → o.bn_sqr a ≡ some (a * a)
  pub div : (a b : ℕ) → 0 < b → o.bn_div a b ≡ some (a / b)
  pub mod_ : (a m : ℕ) → 0 < m → o.bn_mod a m ≡ some (a % m)
  pub mod_add_quick : (a b m : ℕ) → a < m → b < m → o.bn_mod_add_quick a b m ≡ some ((a + b) % m)
  pub mod_sub_quick :
      (a b m : ℕ) → a < m → b < m → o.bn_mod_sub_quick a b m ≡ some ((a + m - b) % m)
  pub mod_mul : (a b m : ℕ) → 0 < m → o.bn_mod_mul a b m ≡ some ((a * b) % m)
  pub mod_exp : (a e m : ℕ) → 0 < m → o.bn_mod_exp a e m ≡ some (a ^ e % m)
  pub mod_add : (a b m : ℕ) → 0 < m → o.bn_mod_add a b m ≡ some ((a + b) % m)
  pub mod_sqr : (a m : ℕ) → 0 < m → o.bn_mod_sqr a m ≡ some ((a * a) % m)
  -- Montgomery's multiplication is for odd moduli.
  pub mod_exp_mont : (a e m : ℕ) → m % 2 ≡ 1 → o.bn_mod_exp_mont a e m ≡ some (a ^ e % m)
  pub mod_exp2_mont :
      (a e b f m : ℕ) → m % 2 ≡ 1 → o.bn_mod_exp2_mont a e b f m ≡ some ((a ^ e * b ^ f) % m)
  -- A product of two numbers greater than 1 is not taken for a prime.
  pub is_prime_composite : (a b : ℕ) → 1 < a → 1 < b → o.bn_is_prime_fasttest (a * b) ≡ some false
  -- An inverse is found where there is one.
  pub mod_inverse :
      (a u m : ℕ)
      → 1 < m
      → (a * u) % m ≡ 1
      → (v : ℕ) × (o.bn_mod_inverse a m ≡ some v) × ((a * v) % m ≡ 1) × (v < m)
  -- The greatest common divisor, which every common divisor divides.
  pub gcd :
      (a b : ℕ)
      → (g : ℕ) × (o.bn_gcd a b ≡ some g) × (g ∣ a) × (g ∣ b) × ((d : ℕ) → d ∣ a → d ∣ b → d ∣ g)
  pub bin2bn : (bs : Bytes) → o.bn_bin2bn bs ≡ some (big_endian 0 bs)
  pub bn2bin : (a : ℕ) → big_endian 0 (o.bn_bn2bin a) ≡ a
  pub length-bn2bin : (a : ℕ) → length (o.bn_bn2bin a) ≡ o.bn_num_bytes a
  pub bn2bin-bytes : (a : ℕ) → All IsByte (o.bn_bn2bin a)
  pub bn2binpad :
      (a n : ℕ)
      → a < 256 ^ n
      → (bs : Bytes) × (o.bn_bn2binpad a n ≡ some bs) × (length bs ≡ n) × (big_endian 0 bs ≡ a)
  pub num_bytes-zero : o.bn_num_bytes 0 ≡ 0
  pub num_bytes-le : (a n : ℕ) → a < 256 ^ n → o.bn_num_bytes a ≤ n
  pub lt-num_bytes : (a : ℕ) → a < 256 ^ o.bn_num_bytes a
  pub num_bits-le : (a n : ℕ) → a < 2 ^ n → o.bn_num_bits a ≤ n
  pub lt-num_bits : (a : ℕ) → a < 2 ^ o.bn_num_bits a
