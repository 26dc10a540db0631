-- ===== src/OpenSsl/Reference.antt =====
-- An instance of the interface that computes: numbers as they are, bytes by division.
use native.Mathlib.Nat.{
  dvd-mod_iff, dvd-zero, dvd_refl, div-lt_self, div-lt_iff_lt-mul, mod-lt, mul-mod_right, pow-suc,
  pow-zero,
}
use native.Mathlib.Decide.{dec_lt}
use mpc_lib_demo.OpenSsl.{IsOpenSsl, OpenSsl, big_endian}
use mpc_lib_demo.Base.{
  All, Bool, Bool-cases, Bytes, Cong-mod, Cong-mul_left, IsByte, Option, [], ap, arith, false,
  if◌then◌else◌, inl, inr, length, mod-eq_of_Cong, none, not, refl, some, subst, suc, sym, true,
  zero, ℕ, ◌%◌, ◌*◌, ◌+◌, ◌-◌, ◌/◌, ◌<◌, ◌==◌, ◌^◌, ◌||◌, ◌∙◌, ◌∣◌, ◌∷◌, ◌≡◌, ◌≢◌, ◌≤◌,
}

-- How many digits a number has.
abbrev pub digits : ℕ → ℕ → ℕ → ℕ
digits base zero a = 0
digits base (suc fuel) a = let rest = digits base fuel (a / base) in if a == 0 then 0 else suc rest

abbrev pub pad : ℕ → ℕ → Bytes → Bytes
pad zero a acc = acc
pad (suc n) a acc = pad n (a / 256) (a % 256 ∷ acc)

abbrev pub find_inverse : ℕ → ℕ → ℕ → Option ℕ
find_inverse a m zero = none
find_inverse a m (suc n) =
    let rest = find_inverse a m n in if (a * n) % m == 1 then some n else rest

abbrev pub euclid : ℕ → ℕ → ℕ → ℕ
euclid zero a b = a
euclid (suc fuel) a b = let rest = euclid fuel b (a % b) in if b == 0 then a else rest

-- A divisor from 2 to `n + 1`
abbrev pub has_divisor : ℕ → ℕ → Bool
has_divisor a zero = false
has_divisor a (suc n) = a % (n + 2) == 0 || has_divisor a n

abbrev pub reference : OpenSsl
reference = record {
  bn_set_word = λ w. some w;
  bn_copy = λ a. some a;
  bn_add_word = λ a w. some (a + w);
  bn_sub_word = λ a w. some (a - w);
  bn_mul_word = λ a w. some (a * w);
  bn_add = λ a b. some (a + b);
  bn_sub = λ a b. some (a - b);
  bn_mul = λ a b. some (a * b);
  bn_sqr = λ a. some (a * a);
  bn_div = λ a b. some (a / b);
  bn_mod = λ a m. some (a % m);
  bn_mod_add_quick = λ a b m. some ((a + b) % m);
  bn_mod_sub_quick = λ a b m. some ((a + m - b) % m);
  bn_mod_mul = λ a b m. some ((a * b) % m);
  bn_mod_add = λ a b m. some ((a + b) % m);
  bn_mod_sqr = λ a m. some ((a * a) % m);
  bn_mod_exp_mont = λ a e m. some (a ^ e % m);
  bn_mod_exp2_mont = λ a e b f m. some ((a ^ e * b ^ f) % m);
  bn_mod_exp = λ a e m. some (a ^ e % m);
  bn_mod_inverse = λ a m. find_inverse a m m;
  bn_gcd = λ a b. some (euclid (b + 1) a b);
  bn_bin2bn = λ bs. some (big_endian 0 bs);
  bn_bn2bin = λ a. pad (digits 256 a a) a [];
  bn_bn2binpad = λ a n. some (pad n a []);
  bn_num_bytes = λ a. digits 256 a a;
  bn_num_bits = λ a. digits 2 a a;
  bn_is_prime_fasttest = λ a. some (not (has_divisor a (a - 2)));
}

div_step : (base a n : ℕ) → 1 < base → a < base ^ suc n → a / base < base ^ n
div_step base a n big h = (div-lt_iff_lt-mul {k = base} (omega arith)).1 (rw (← pow-suc base n) h)

div_shrinks : (base a : ℕ) → 1 < base → 0 < a → a / base < a
div_shrinks base a big pos = div-lt_self pos big

digits-le : (base fuel a n : ℕ) → 1 < base → a < base ^ n → digits base fuel a ≤ n
digits-le base zero a n big h = omega arith
digits-le base (suc fuel) a zero big h =
    let z : a ≡ 0 = omega (arith, h, pow-zero base) in rw z (omega arith)
digits-le base (suc fuel) a (suc n) big h = elim (Bool-cases (a == 0)) [
  | inl e ↦ rw e (omega arith)
  | inr e ↦ rw e (omega (arith, digits-le base fuel (a / base) n big (div_step base a n big h)))
]

lt-digits : (base fuel a : ℕ) → 1 < base → a ≤ fuel → a < base ^ digits base fuel a
lt-digits base zero a big h = omega (arith, pow-zero base)
lt-digits base (suc fuel) a big h = elim (Bool-cases (a == 0)) [
  | inl e ↦ let z : a ≡ 0 = ground arith in rw e (omega (arith, pow-zero base, z))
  | inr e ↦
      let pos : 0 < a = ground arith in
      let shorter : a / base < base ^ digits base fuel (a / base) =
        lt-digits base fuel (a / base) big (omega (arith, div_shrinks base a big pos)) in
      rw (e, pow-suc base (digits base fuel (a / base)))
        ((div-lt_iff_lt-mul (omega arith)).0 shorter)
]

length-pad : (n a : ℕ) (acc : Bytes) → length (pad n a acc) ≡ n + length acc
length-pad zero a acc = omega arith
length-pad (suc n) a acc = omega (arith, length-pad n (a / 256) (a % 256 ∷ acc))

pad-bytes : (n a : ℕ) (acc : Bytes) → All IsByte acc → All IsByte (pad n a acc)
pad-bytes zero a acc h = h
pad-bytes (suc n) a acc h = pad-bytes n (a / 256) (a % 256 ∷ acc) (omega arith, h)

big_endian-pad :
    (n a : ℕ) (acc : Bytes) → a < 256 ^ n → big_endian 0 (pad n a acc) ≡ big_endian a acc
big_endian-pad zero a acc h =
    let z : a ≡ 0 = omega (arith, pow-zero 256) in ap (λ x. big_endian x acc) (sym z)
big_endian-pad (suc n) a acc h =
    big_endian-pad n (a / 256) (a % 256 ∷ acc) (div_step 256 a n (omega arith) h)
    ∙ ap (λ x. big_endian x acc) {x = a / 256 * 256 + a % 256} {y = a} (omega arith)

no_inverse : {x : ℕ} → x ≡ 1 → (x == 1) ≡ false → ⊥
no_inverse e f = ground arith

find_inverse-finds :
    (a m n u : ℕ)
    → u < n
    → n ≤ m
    → (a * u) % m ≡ 1
    → (v : ℕ) × (find_inverse a m n ≡ some v) × ((a * v) % m ≡ 1) × (v < m)
find_inverse-finds a m zero u h le e = elim h [ ]
find_inverse-finds a m (suc n) u h le e = elim (Bool-cases ((a * n) % m == 1)) [
  | inl here ↦ (n, rw here refl, ground arith, omega arith)
  | inr not_here ↦
      let u_ne : u ≢ n = λ same. no_inverse (subst (λ w. (a * w) % m ≡ 1) same e) not_here in
      let (v, found, inverse, lt) =
        find_inverse-finds a m n u (omega (arith, u_ne)) (omega arith) e in
      (v, rw not_here found, inverse, lt)
]

pub has_divisor-finds : (a d n : ℕ) → 1 < d → d < n + 2 → a % d ≡ 0 → has_divisor a n ≡ true
has_divisor-finds a d zero big h e = absurd (omega arith)
has_divisor-finds a d (suc n) big h e = elim (dec_lt d (n + 2)) [
  | yes below ↦
      let found : has_divisor a n ≡ true = has_divisor-finds a d n big below e in
      rw found (ground arith)
  | no last ↦ let same : n + 2 ≡ d = omega arith in rw (same, e) refl
]

has_divisor-product :
    (a b : ℕ) → 1 < a → 1 < b → some (not (has_divisor (a * b) (a * b - 2))) ≡ some false
has_divisor-product a b ha hb =
    let less : a < a * b = grind arith in
    let found : has_divisor (a * b) (a * b - 2) ≡ true =
      has_divisor-finds (a * b) a (a * b - 2) ha (omega arith) (mul-mod_right a b) in
    rw found refl

euclid-divides :
    (fuel a b : ℕ)
    → b < fuel
    → (euclid fuel a b ∣ a)
      × (euclid fuel a b ∣ b)
      × ((d : ℕ) → d ∣ a → d ∣ b → d ∣ euclid fuel a b)
euclid-divides zero a b h = elim h [ ]
euclid-divides (suc fuel) a b h = elim (Bool-cases (b == 0)) [
  | inl e ↦
      let z : b ≡ 0 = ground arith in
      rw e (dvd_refl a, subst (λ x. a ∣ x) (sym z) (dvd-zero a), λ d ha hb. ha)
  | inr e ↦
      let pos : 0 < b = ground arith in
      let (left, right, greatest) = euclid-divides fuel b (a % b) (omega (arith, mod-lt a pos)) in
      rw e ((dvd-mod_iff _ left).0 right, left, λ d ha hb. greatest d hb ((dvd-mod_iff d hb).1 ha))
]

pub reference_laws : IsOpenSsl reference
reference_laws = record {
  set_word = λ w. refl;
  copy = λ a. refl;
  add_word = λ a w. refl;
  sub_word = λ a w h. refl;
  mul_word = λ a w. refl;
  add = λ a b. refl;
  sub = λ a b h. refl;
  mul = λ a b. refl;
  sqr = λ a. refl;
  div = λ a b h. refl;
  mod_ = λ a m h. refl;
  mod_add_quick = λ a b m ha hb. refl;
  mod_sub_quick = λ a b m ha hb. refl;
  mod_mul = λ a b m h. refl;
  mod_exp = λ a e m h. refl;
  mod_add = λ a b m h. refl;
  mod_sqr = λ a m h. refl;
  mod_exp_mont = λ a e m h. refl;
  mod_exp2_mont = λ a e b f m h. refl;
  is_prime_composite = λ a b ha hb. has_divisor-product a b ha hb;
  mod_inverse = λ a u m big e.
      find_inverse-finds a m m (u % m) (mod-lt u (omega arith)) (omega arith)
        (mod-eq_of_Cong m (a * (u % m)) (a * u) (Cong-mul_left a (Cong-mod m u)) ∙ e);
  gcd = λ a b.
      let (left, right, greatest) = euclid-divides (b + 1) a b (omega arith) in
      (euclid (b + 1) a b, refl, left, right, greatest);
  bin2bn = λ bs. refl;
  bn2bin =
      λ a. big_endian-pad (digits 256 a a) a [] (lt-digits 256 a a (omega arith) (omega arith));
  length-bn2bin = λ a. omega (arith, length-pad (digits 256 a a) a []);
  bn2bin-bytes = λ a. pad-bytes (digits 256 a a) a [] tt;
  bn2binpad =
      λ a n h. (pad n a [], refl, omega (arith, length-pad n a []), big_endian-pad n a [] h);
  num_bytes-zero = refl;
  num_bytes-le = λ a n h. digits-le 256 a a n (omega arith) h;
  lt-num_bytes = λ a. lt-digits 256 a a (omega arith) (omega arith);
  num_bits-le = λ a n h. digits-le 2 a a n (omega arith) h;
  lt-num_bits = λ a. lt-digits 2 a a (omega arith) (omega arith);
}
