-- ===== src/Vss/Access.antt =====
-- The access matrix, the random polynomial and the products of `create_shares`.
pub mod Polynomial
pub mod Draws
use mpc_lib_demo.Base.Options.{◌>>=◌}
use mpc_lib_demo.OpenSsl.{OpenSsl}
use mpc_lib_demo.Base.{
  Bool, List, Option, [], false, none, not, some, suc, true, zero, ℕ, ◌&&◌, ◌+◌, ◌==◌, ◌∷◌,
}

-- The random coefficients, from the numbers that the generator hands out. A zero is drawn again;
-- the end of the list stands for a failure of the generator, or of the allocation before it.
unfoldable pub draw : ℕ → List ℕ → Option (List ℕ)
draw zero tape = some []
draw (suc count) [] = none
draw (suc count) (c ∷ tape) = elim (c == 0) [
  | true ↦ draw (suc count) tape
  | false ↦ do rest ← draw count tape; some (c ∷ rest)
]

module _ (o : OpenSsl) where
  -- The rest of a row: each number is the one before it times the id.
  pub powers : ℕ → ℕ → ℕ → Option (List ℕ)
  powers zero prev id = some []
  powers (suc count) prev id = do
    copy ← o.bn_copy prev
    cur ← o.bn_mul_word copy id
    rest ← powers count cur id
    some (cur ∷ rest)

  -- The row of an id, from its first column, which is one.
  pub access_row : ℕ → ℕ → Option (List ℕ)
  access_row zero id = some []
  access_row (suc columns) id = do row ← powers columns 1 id; some (1 ∷ row)

  pub access_mat : ℕ → List ℕ → Option (List (List ℕ))
  access_mat t [] = some []
  access_mat t (id ∷ ids) = do row ← access_row t id; rows ← access_mat t ids; some (row ∷ rows)

  -- `BN_mod(a, a, prime, ctx)`, whose result is not tested.
  pub reduce : ℕ → ℕ → ℕ
  reduce prime a = elim (o.bn_mod a prime) [ some r ↦ r | none ↦ a ]

  -- A row of the matrix times the coefficients, added onto `share`.
  pub row_product : ℕ → List ℕ → List ℕ → ℕ → Option ℕ
  row_product prime [] polynom share = some share
  row_product prime (m ∷ row) [] share = some share
  row_product prime (m ∷ row) (c ∷ polynom) share = do
    tmp ← o.bn_mod_mul m c prime
    share' ← o.bn_mod_add_quick share tmp prime
    row_product prime row polynom share'

-- The test for the ids: none is zero, and no two are equal.
unfoldable pub absent : ℕ → List ℕ → Bool
absent x [] = true
absent x (y ∷ ys) = not (x == y) && absent x ys

unfoldable pub ids_ok : List ℕ → Bool
unfolding absent
ids_ok [] = true
ids_ok (x ∷ xs) = not (x == 0) && absent x xs && ids_ok xs

-- The ids `first`, `first + 1` and so on.
pub running_ids : ℕ → ℕ → List ℕ
running_ids first zero = []
running_ids first (suc count) = first ∷ running_ids (first + 1) count
