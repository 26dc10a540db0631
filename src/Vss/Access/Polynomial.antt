-- ===== src/Vss/Access/Polynomial.antt =====
-- About the rows of the access matrix and the polynomial of the coefficients.
use native.Mathlib.Nat.{mod-lt}
use mpc_lib_demo.OpenSsl.{IsOpenSsl, OpenSsl}
use mpc_lib_demo.Vss.Interpolation.{eval}
use mpc_lib_demo.Vss.Access.{
  absent, access_mat, access_row, ids_ok, powers, reduce, row_product, running_ids,
}
use mpc_lib_demo.Vss.Lagrange.Sum.{AreIds}
use mpc_lib_demo.Base.{
  All, Cong, List, [], and-left, and-right, ap, arith, Cong-add, Cong-mod, Cong-mod_left,
  Cong-mul_right, Cong-of_eq, Cong-refl, Cong-trans, length, map, not, refl, replicate, some, suc,
  true, zero, ℕ, ◌%◌, ◌&&◌, ◌*◌, ◌+◌, ◌<◌, ◌==◌, ◌∷◌, ◌≡◌, ◌≢◌,
}

absent-All : (x : ℕ) (ys : List ℕ) → absent x ys ≡ true → All (λ y. x ≢ y) ys
unfolding absent
absent-All x [] h = tt
absent-All x (y ∷ ys) h = (ground arith, absent-All x ys (ground arith))

-- Ids that pass the test and are reduced are distinct modulo the order.
pub ids_ok-AreIds :
    (field : ℕ) (xs : List ℕ) → ids_ok xs ≡ true → All (λ x. x < field) xs → AreIds field xs
unfolding ids_ok
ids_ok-AreIds field [] h reduced = tt
ids_ok-AreIds field (x ∷ xs) h reduced = (
  reduced.0,
  absent-All x xs (and-right (not (x == 0)) _ (and-left (not (x == 0) && absent x xs) _ h)),
  ids_ok-AreIds field xs (and-right (not (x == 0) && absent x xs) _ h) reduced.1,
)

-- `count` numbers, each the one before it times `id`.
abbrev pub pows : ℕ → ℕ → ℕ → List ℕ
pows zero prev id = []
pows (suc count) prev id = prev * id ∷ pows count (prev * id) id

-- Ones are the row of the id 1.
pub pows_one : (count : ℕ) → pows count 1 1 ≡ replicate count 1
pows_one zero = refl
pows_one (suc count) = ap (λ xs. 1 ∷ xs) (pows_one count)

module _ (o : OpenSsl) (laws : IsOpenSsl o) where
  powers_value : (count prev id : ℕ) → powers o count prev id ≡ some (pows count prev id)
  unfolding powers
  powers_value zero prev id = refl
  powers_value (suc count) prev id =
      rw (laws.copy prev, laws.mul_word prev id, powers_value count (prev * id) id) refl

  access_row_value : (columns id : ℕ) → access_row o (suc columns) id ≡ some (1 ∷ pows columns 1 id)
  unfolding access_row
  access_row_value columns id = rw (powers_value columns 1 id)

  -- The matrix has one row for each id.
  pub access_mat_value :
      (columns : ℕ) (xs : List ℕ)
      → access_mat o (suc columns) xs ≡ some (map (λ id. 1 ∷ pows columns 1 id) xs)
  unfolding access_mat
  access_mat_value columns [] = refl
  access_mat_value columns (x ∷ xs) =
      rw (access_row_value columns x, access_mat_value columns xs) refl

  module _ (prime : ℕ) (big : 1 < prime) where
    reduce_value : (a : ℕ) → reduce o prime a ≡ a % prime
    unfolding reduce
    reduce_value a = rw (laws.mod_ a prime (omega arith), reduce) refl

    -- One step of the product: a reduced entry times a coefficient, added onto the share.
    step-Cong :
        (a c share rest : ℕ)
        → Cong prime
            ((share + (reduce o prime a * c) % prime) % prime + rest)
            (share + a * c + rest)
    step-Cong a c share rest =
        Cong-add
          (Cong-mod_left (
            Cong-add (Cong-refl share)
              (Cong-mod_left (Cong-mul_right c (rw (reduce_value a) (Cong-mod prime a))))))
          (Cong-refl rest)

    product_value :
        (cs : List ℕ) (prev id share : ℕ)
        → share < prime
        → (r : ℕ) × (row_product o prime (map (reduce o prime) (pows (length cs) prev id)) cs share
            ≡ some r)
          × (r < prime)
          × Cong prime r (share + prev * id * eval cs id)
    unfolding row_product
    product_value [] prev id share hs = (share, refl, hs, Cong-of_eq (omega arith))
    product_value (c ∷ cs) prev id share hs =
        let m : ℕ = reduce o prime (prev * id) in
        let tmp : ℕ = (m * c) % prime in
        let tmp-lt : tmp < prime = mod-lt (m * c) (omega arith) in
        let (r, er, lt, cong) =
          product_value cs (prev * id) id ((share + tmp) % prime)
            (mod-lt (share + tmp) (omega arith)) in
        (
          r,
          rw (laws.mod_mul m c prime (omega arith), laws.mod_add_quick share tmp prime hs tmp-lt)
              er,
          lt,
          Cong-trans cong (
              Cong-trans (step-Cong (prev * id) c share (prev * id * id * eval cs id))
                (Cong-of_eq (omega arith))),
        )

    -- The row of an id times the coefficients is the value of the polynomial at that id.
    pub row_product_value :
        (c : ℕ) (cs : List ℕ) (id : ℕ)
        → (r : ℕ) × (row_product o prime
              (map (reduce o prime) (1 ∷ pows (length cs) 1 id))
              (c ∷ cs)
              0
            ≡ some r)
          × (r < prime)
          × Cong prime r (eval (c ∷ cs) id)
    unfolding row_product
    row_product_value c cs id =
        let m : ℕ = reduce o prime 1 in
        let tmp : ℕ = (m * c) % prime in
        let tmp-lt : tmp < prime = mod-lt (m * c) (omega arith) in
        let (r, er, lt, cong) =
          product_value cs 1 id ((0 + tmp) % prime) (mod-lt (0 + tmp) (omega arith)) in
        (
          r,
          rw
              (
                laws.mod_mul m c prime (omega arith),
                laws.mod_add_quick 0 tmp prime (omega arith) tmp-lt,
              )
              er,
          lt,
          Cong-trans cong
              (Cong-trans (step-Cong 1 c 0 (1 * id * eval cs id)) (Cong-of_eq (omega arith))),
        )

pub length-running_ids : (first count : ℕ) → length (running_ids first count) ≡ count
unfolding running_ids
length-running_ids first zero = refl
length-running_ids first (suc count) = ap suc (length-running_ids (first + 1) count)

pub running_ids-suc :
    (first count : ℕ) → running_ids first (suc count) ≡ first ∷ running_ids (first + 1) count
unfolding running_ids
running_ids-suc first count = refl
