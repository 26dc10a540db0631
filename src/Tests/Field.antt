-- ===== src/Tests/Field.antt =====
-- A curve whose group is the numbers modulo 7.
use native.Mathlib.Nat.{mod-mod}
use mpc_lib_demo.Algebra
use mpc_lib_demo.OpenSsl.{big_endian}
use mpc_lib_demo.Algebra.Curve.{IsCurve, IsReduced, dot}
use mpc_lib_demo.Vss.Lagrange.Factor.{HasInverses}
use mpc_lib_demo.Algebra.{Algebra, Call}
use mpc_lib_demo.Base.{
  Bool, Bytes, Cong, Cong-add, Cong-mod, Cong-mul_right, Cong-of_eq, Cong-refl, Cong-trans, List,
  [], ap, arith, false, get_or, if◌then◌else◌, is_empty, map, mod-eq_of_Cong, refl, replicate, some,
  suc, true, zero, ℕ, ◌%◌, ◌*◌, ◌++◌, ◌+◌, ◌==◌, ◌||◌, ◌∷◌, ◌≡◌,
}

abbrev pub mem_works : ℕ → Bool
mem_works k = true

abbrev pub works : (k : ℕ) → mem_works k ≡ true
works k = refl

-- The multiple of the generator by a number, as one byte.
abbrev pub point_7 : ℕ → Bytes
point_7 a = a % 7 ∷ []

abbrev combination : List Bytes → List Bytes → ℕ
combination [] xs = 0
combination (p ∷ ps) [] = 0
combination (p ∷ ps) (x ∷ xs) = get_or p 0 0 * big_endian 0 x + combination ps xs

abbrev accept : ℕ → Call
accept a = (Algebra.success, point_7 a)

-- Scalars have 32 bytes.
abbrev pub scalar_7 : ℕ → Bytes
scalar_7 a = replicate 31 0 ++ (a % 7) ∷ []

abbrev refuse : Call
refuse = (Algebra.invalid_parameter, [])

-- As the curves do, arithmetic refuses operands that are empty.
abbrev reduce_if_given : Bytes → Bytes → ℕ → Call
reduce_if_given a b value =
    if is_empty a || is_empty b then refuse else (Algebra.success, scalar_7 value)

abbrev pub algebra_7 : Algebra
algebra_7 = record {
  order = replicate 31 0 ++ 7 ∷ [];
  order_internal = some 7;
  generator_mul_data = λ d. if is_empty d then refuse else accept (big_endian 0 d);
  verify_linear_combination = λ sum points scalars.
      if is_empty scalars
      then (Algebra.invalid_parameter, false)
      else (Algebra.success, (get_or sum 0 0 % 7) == (combination points scalars % 7));
  generator_mul = λ s. accept (big_endian 0 s);
  add_points = λ a b. accept (get_or a 0 0 + get_or b 0 0);
  point_mul = λ p s. accept (get_or p 0 0 * big_endian 0 s);
  add_scalars = λ a b. reduce_if_given a b (big_endian 0 a + big_endian 0 b);
  sub_scalars = λ a b. reduce_if_given a b (big_endian 0 a + 6 * big_endian 0 b);
  mul_scalars = λ a b. reduce_if_given a b (big_endian 0 a * big_endian 0 b);
  hash_on_curve = λ message. accept (big_endian 0 message);
  rand = (Algebra.success, scalar_7 5);
}

combination-Cong :
    (cs : List ℕ) (xs : List Bytes) → Cong 7 (combination (map point_7 cs) xs) (dot cs xs)
combination-Cong [] xs = Cong-refl 0
combination-Cong (c ∷ cs) [] = Cong-refl 0
combination-Cong (c ∷ cs) (x ∷ xs) =
    Cong-add (Cong-mul_right (big_endian 0 x) (Cong-mod 7 c)) (combination-Cong cs xs)

scalar_7-value : (a : ℕ) → big_endian 0 (scalar_7 a) ≡ a % 7
scalar_7-value a = omega arith

scalar_7-IsReduced : (a : ℕ) → IsReduced 7 (scalar_7 a)
scalar_7-IsReduced a = (refl, omega (arith, scalar_7-value a))

scalar_7-Cong : (a : ℕ) → Cong 7 (big_endian 0 (scalar_7 a)) a
scalar_7-Cong a = Cong-trans (Cong-of_eq (scalar_7-value a)) (Cong-mod 7 a)

pub algebra_7-IsCurve : IsCurve algebra_7 7 point_7
algebra_7-IsCurve = record {
  order_eq = refl;
  order_big = omega arith;
  point_eq = λ a b h. ap (λ x. x ∷ []) (mod-eq_of_Cong 7 a b h);
  generator_mul = λ s h. refl;
  generator_mul_data = λ s given. rw given refl;
  point_mul = λ a s h.
      ap (λ x. (Algebra.success, x ∷ []))
        (mod-eq_of_Cong 7 (a % 7 * big_endian 0 s) (a * big_endian 0 s)
          (Cong-mul_right (big_endian 0 s) (Cong-mod 7 a)));
  add_points = λ a b.
      ap (λ x. (Algebra.success, x ∷ []))
        (mod-eq_of_Cong 7 (a % 7 + b % 7) (a + b) (Cong-add (Cong-mod 7 a) (Cong-mod 7 b)));
  add_scalars = λ a b given given'. (
    scalar_7 (big_endian 0 a + big_endian 0 b),
    (rw (given, given') refl, scalar_7-IsReduced (big_endian 0 a + big_endian 0 b)),
    scalar_7-Cong (big_endian 0 a + big_endian 0 b),
  );
  mul_scalars = λ a b given given'. (
    scalar_7 (big_endian 0 a * big_endian 0 b),
    (rw (given, given') refl, scalar_7-IsReduced (big_endian 0 a * big_endian 0 b)),
    scalar_7-Cong (big_endian 0 a * big_endian 0 b),
  );
  sub_scalars = λ a b given given'. (
    scalar_7 (big_endian 0 a + 6 * big_endian 0 b),
    (rw (given, given') refl, scalar_7-IsReduced (big_endian 0 a + 6 * big_endian 0 b)),
    Cong-trans
        (Cong-add (scalar_7-Cong (big_endian 0 a + 6 * big_endian 0 b))
          (Cong-refl (big_endian 0 b)))
        (record { over_left = 0; over_right = big_endian 0 b; balance = omega arith }),
  );
  verify = λ a cs xs h given reduced.
      rw
        (
          given,
          mod-mod a 7,
          mod-eq_of_Cong 7 (combination (map point_7 cs) xs) (dot cs xs) (combination-Cong cs xs),
        )
        refl;
}

pub inverses_7 : HasInverses 7
inverses_7 zero pos h = elim pos [ ]
inverses_7 (suc zero) pos h = (1, refl)
inverses_7 (suc (suc zero)) pos h = (4, refl)
inverses_7 (suc (suc (suc zero))) pos h = (5, refl)
inverses_7 (suc (suc (suc (suc zero)))) pos h = (2, refl)
inverses_7 (suc (suc (suc (suc (suc zero))))) pos h = (3, refl)
inverses_7 (suc (suc (suc (suc (suc (suc zero)))))) pos h = (6, refl)
inverses_7 (suc (suc (suc (suc (suc (suc (suc n))))))) pos h = absurd (omega arith)
