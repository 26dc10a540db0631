-- ===== src/Algebra/Curve.antt =====
-- What the protocols rely on of a curve, as its header and its name promise.
use mpc_lib_demo.Algebra
use mpc_lib_demo.OpenSsl.{big_endian}
use mpc_lib_demo.Algebra.{Algebra, Call, field_size}
use mpc_lib_demo.Base.{
  All, Bytes, Cong, List, [], arith, false, is_empty, is_empty-length, length, map, some, ℕ, ◌%◌,
  ◌*◌, ◌+◌, ◌<◌, ◌==◌, ◌∷◌, ◌≡◌,
}

-- The sum of the products of the numbers and the scalars.
abbrev pub dot : List ℕ → List Bytes → ℕ
dot [] xs = 0
dot (c ∷ cs) [] = 0
dot (c ∷ cs) (x ∷ xs) = c * big_endian 0 x + dot cs xs

-- A scalar: 32 bytes, below the order
abbrev pub IsReduced : ℕ → Bytes → Type 0
IsReduced order s = (length s ≡ field_size) × (big_endian 0 s < order)

-- A call on two scalars gives a reduced one.
abbrev pub Reduces : ℕ → Call → Bytes → Type 0
Reduces order call r = (call ≡ (Algebra.success, r)) × IsReduced order r

-- `point a` is the multiple of the generator by `a`; scalars count modulo the order. The laws are
-- about calls whose own allocations succeed. They ask of the operands what GFp_curve_algebra.c and
-- ed25519_algebra.c test: data and the operands of scalar arithmetic that are not empty, and a
-- combination of at least one point. Its coefficients are reduced, since ed25519_algebra.c refuses
-- the others with their top bit set.
pub record IsCurve (algebra : Algebra) (order : ℕ) (point : ℕ → Bytes) : Type 0 where
  pub order_eq : algebra.order_internal ≡ some order
  pub order_big : 1 < order
  pub point_eq : (a b : ℕ) → Cong order a b → point a ≡ point b
  pub generator_mul :
      (s : Bytes)
      → length s ≡ field_size
      → algebra.generator_mul s ≡ (Algebra.success, point (big_endian 0 s))
  pub generator_mul_data :
      (s : Bytes)
      → is_empty s ≡ false
      → algebra.generator_mul_data s ≡ (Algebra.success, point (big_endian 0 s))
  pub point_mul :
      (a : ℕ) (s : Bytes)
      → length s ≡ field_size
      → algebra.point_mul (point a) s ≡ (Algebra.success, point (a * big_endian 0 s))
  pub add_points :
      (a b : ℕ) → algebra.add_points (point a) (point b) ≡ (Algebra.success, point (a + b))
  pub add_scalars :
      (a b : Bytes)
      → is_empty a ≡ false
      → is_empty b ≡ false
      → (r : Bytes) × Reduces order (algebra.add_scalars a b) r
        × Cong order (big_endian 0 r) (big_endian 0 a + big_endian 0 b)
  pub mul_scalars :
      (a b : Bytes)
      → is_empty a ≡ false
      → is_empty b ≡ false
      → (r : Bytes) × Reduces order (algebra.mul_scalars a b) r
        × Cong order (big_endian 0 r) (big_endian 0 a * big_endian 0 b)
  pub sub_scalars :
      (a b : Bytes)
      → is_empty a ≡ false
      → is_empty b ≡ false
      → (r : Bytes) × Reduces order (algebra.sub_scalars a b) r
        × Cong order (big_endian 0 r + big_endian 0 b) (big_endian 0 a)
  pub verify :
      (a : ℕ) (cs : List ℕ) (xs : List Bytes)
      → length cs ≡ length xs
      → is_empty xs ≡ false
      → All (IsReduced order) xs
      → algebra.verify_linear_combination (point a) (map point cs) xs
        ≡ (Algebra.success, (a % order) == (dot cs xs % order))

-- A scalar of 32 bytes is not empty.
pub scalar_given : (s : Bytes) → length s ≡ field_size → is_empty s ≡ false
scalar_given s h = is_empty-length s (omega (arith, h))
