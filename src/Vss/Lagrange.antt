-- ===== src/Vss/Lagrange.antt =====
-- `lagrange_interpolate` and the loop of `verifiable_secret_sharing_reconstruct`.
pub mod Factor
pub mod Sum
use mathlib.Core.Option
use mpc_lib_demo.Base.Options.{◌>>=◌}
use mpc_lib_demo.Base.{List, Option, [], get_elem?, if◌then◌else◌, some, ℕ, ◌+◌, ◌==◌, ◌∷◌}
use mpc_lib_demo.OpenSsl.{OpenSsl}
use mpc_lib_demo.Vss.{Share}

module _ (o : OpenSsl) where
  -- One factor of the product: other_x / (other_x - x).
  pub lagrange_factor : ℕ → ℕ → ℕ → Option ℕ
  lagrange_factor x other field = do
    other_x ← o.bn_set_word other
    difference ← o.bn_mod_sub_quick other_x x field
    inverse ← o.bn_mod_inverse difference field
    o.bn_mod_mul inverse other_x field

  pub lagrange_loop : ℕ → ℕ → ℕ → ℕ → List Share → ℕ → Option ℕ
  lagrange_loop field x index i [] p = some p
  lagrange_loop field x index i (s ∷ rest) p = do
    p' ←
        if i == index
        then some p
        else do tmp ← lagrange_factor x s.id field; o.bn_mod_mul p tmp field
    lagrange_loop field x index (i + 1) rest p'

  pub lagrange_interpolate : List Share → ℕ → ℕ → Option ℕ
  lagrange_interpolate shares index field = do
    x ← o.bn_set_word (Option.get_or (Option.map (λ s. s.id) (get_elem? shares index)) 0)
    lagrange_loop field x index 0 shares 1

  -- The sum over the shares from position `i` on, onto `sum`.
  pub reconstruct_loop : ℕ → List Share → ℕ → List Share → ℕ → Option ℕ
  reconstruct_loop field shares i [] sum = some sum
  reconstruct_loop field shares i (s ∷ rest) sum = do
    y_value ← o.bn_bin2bn s.scalar
    basis ← lagrange_interpolate shares i field
    tmp ← o.bn_mod_mul y_value basis field
    sum' ← o.bn_mod_add_quick sum tmp field
    reconstruct_loop field shares (i + 1) rest sum'
