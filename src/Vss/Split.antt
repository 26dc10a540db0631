-- ===== src/Vss/Split.antt =====
-- `create_shares`, `verifiable_secret_sharing_split_impl` and the two functions that call it.
pub mod Values
pub mod Callers
use mpc_lib_demo.Algebra
use mpc_lib_demo.Vss.{
  Sharing, VssStatus, invalid_parameter, invalid_secret, invalid_share_id, out_of_memory,
  unknown_error,
}
use mpc_lib_demo.OpenSsl.{OpenSsl}
use mpc_lib_demo.Algebra.{Algebra, AlgebraStatus, check, field_size}
use mpc_lib_demo.Vss.Access.{access_mat, draw, ids_ok, reduce, row_product, running_ids}
use mpc_lib_demo.Base.{
  Bool, Bytes, List, Ptr, Result, [], err, guard, is_empty, ltb, map, none, not, ok, or_fail,
  replicate, some, take, ℕ, ◌&&◌, ◌-◌, ◌>>=◌, ◌>>◌, ◌||◌, ◌∷◌,
}

-- Every status of the curve but its lack of memory is an unknown error here.
pub from_algebra : AlgebraStatus → VssStatus
from_algebra Algebra.out_of_memory = out_of_memory
from_algebra _ = unknown_error

module _ (o : OpenSsl) (algebra : Algebra) where
  -- A number as 32 bytes, and its multiple of the generator.
  pub prove : ℕ → Result VssStatus (Bytes × Bytes)
  prove a = do
    scalar ← or_fail (o.bn_bn2binpad a field_size) out_of_memory
    proof ← check (algebra.generator_mul scalar) from_algebra
    ok (scalar, proof)

  pub prove_all : List ℕ → Result VssStatus (List (Bytes × Bytes))
  prove_all [] = ok []
  prove_all (a ∷ as') = do first ← prove a; rest ← prove_all as'; ok (first ∷ rest)

  -- The share of each row with its proof, one after the other.
  pub share_rows : ℕ → List ℕ → List (List ℕ) → Result VssStatus (List (Bytes × Bytes))
  share_rows prime polynom [] = ok []
  share_rows prime polynom (row ∷ rows) = do
    share ← or_fail (row_product o prime row polynom 0) out_of_memory
    first ← prove share
    rest ← share_rows prime polynom rows
    ok (first ∷ rest)

  pub create_shares :
      (ℕ → Bool) → List ℕ → ℕ → ℕ → ℕ → List (List ℕ) → List ℕ → ℕ → Result VssStatus Sharing
  create_shares mem tape secret t n mat owners prime = do
    guard (mem 0) out_of_memory
    coefficients ← or_fail (draw (t - 1) tape) out_of_memory
    let polynom = secret ∷ coefficients
    guard (mem 1 && mem 2 && mem 3) out_of_memory
    coefficient_proofs ← prove_all polynom
    guard (mem 4 && mem 5) out_of_memory
    shares ← share_rows prime polynom mat
    ok (record {
      share_ids = some owners;
      shares = some (map (λ s. s.0) shares);
      proofs = map (λ s. s.1) shares;
      coefficient_proofs = map (λ s. s.1) coefficient_proofs;
      num_shares = n;
      threshold = t;
    })

  -- Any failure of `create_shares` is reported as a lack of memory.
  pub split_impl :
      (ℕ → Bool) → List ℕ → Bytes → ℕ → ℕ → List (List ℕ) → List ℕ → Result VssStatus Sharing
  split_impl mem tape secret t n mat owners = do
    guard (mem 6) out_of_memory
    bn_secret ← or_fail (o.bn_bin2bn secret) out_of_memory
    prime ← or_fail (o.bn_bin2bn algebra.order) out_of_memory
    guard (ltb bn_secret prime) invalid_secret
    elim (create_shares mem tape bn_secret t n (map (map (reduce o prime)) mat) owners prime) [
      | ok shares ↦ ok shares
      | err _ ↦ err out_of_memory
    ]

-- The arguments that both callers refuse.
bad_arguments : Bytes → Bool → ℕ → ℕ → Bool
bad_arguments secret shares t n = is_empty secret || not shares || ltb t 1 || ltb n t

module _ (o : OpenSsl) where
  -- With the ids 1, 2, …; the first row is written as ones.
  pub split :
      (ℕ → Bool) → List ℕ → Ptr Algebra → Ptr Bytes → ℕ → ℕ → Bool → Result VssStatus Sharing
  unfolding bad_arguments
  split mem tape none secret t n shares = err invalid_parameter
  split mem tape (some algebra) none t n shares = err invalid_parameter
  split mem tape (some algebra) (some secret) t n shares = do
    guard (not (bad_arguments secret shares t n)) invalid_parameter
    guard (mem 7 && mem 8 && mem 9 && mem 10) out_of_memory
    rows ← or_fail (access_mat o t (running_ids 2 (n - 1))) out_of_memory
    split_impl o algebra mem tape secret t n (replicate t 1 ∷ rows) (running_ids 1 n)

  pub split_with_custom_ids :
      (ℕ → Bool)
      → List ℕ
      → Ptr Algebra
      → Ptr Bytes
      → ℕ
      → ℕ
      → Ptr (List ℕ)
      → Bool
      → Result VssStatus Sharing
  unfolding bad_arguments
  split_with_custom_ids mem tape none secret t n owners shares = err invalid_parameter
  split_with_custom_ids mem tape (some algebra) none t n owners shares = err invalid_parameter
  split_with_custom_ids mem tape (some algebra) (some secret) t n none shares =
      err invalid_parameter
  split_with_custom_ids mem tape (some algebra) (some secret) t n (some owners) shares = do
    guard (not (bad_arguments secret shares t n)) invalid_parameter
    guard (mem 7 && mem 8 && mem 9 && mem 10) out_of_memory
    let local_ids = take n owners
    guard (ids_ok local_ids) invalid_share_id
    rows ← or_fail (access_mat o t local_ids) out_of_memory
    split_impl o algebra mem tape secret t n rows local_ids
