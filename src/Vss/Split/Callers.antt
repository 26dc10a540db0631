-- ===== src/Vss/Split/Callers.antt =====
-- About the two functions that split a secret.
use mpc_lib_demo.Algebra
use mpc_lib_demo.Vss.Split.Values.{CanSplit, IsSharingOf, split_impl_value}
use mpc_lib_demo.Vss.Access.Polynomial.{
  access_mat_value, length-running_ids, pows_one, running_ids-suc,
}
use mpc_lib_demo.Vss.{Sharing}
use mpc_lib_demo.OpenSsl.{IsOpenSsl, OpenSsl, big_endian}
use mpc_lib_demo.Algebra.{Algebra}
use mpc_lib_demo.Vss.Access.{ids_ok, running_ids}
use mpc_lib_demo.Vss.Split.{bad_arguments, split, split_with_custom_ids}
use mpc_lib_demo.Base.{
  Bool, Bytes, List, arith, false, is_empty, length, length-take, ok, some, suc, take, true, zero,
  ℕ, ◌-◌, ◌<◌, ◌^◌, ◌∷◌, ◌≡◌, ◌≤◌,
}
use mpc_lib_demo.Vss.Access.Draws.{draw_value}

module _ (o : OpenSsl) (laws : IsOpenSsl o) (algebra : Algebra) (prime : ℕ) (big : 1 < prime)
    (fits : prime ≤ 256 ^ 32)
    (multiplies : (b : Bytes) → (algebra.generator_mul b).0 ≡ Algebra.success) where
  good_arguments :
      (secret : Bytes) (k n : ℕ)
      → is_empty secret ≡ false
      → suc k ≤ n
      → bad_arguments secret true (suc k) n ≡ false
  unfolding bad_arguments
  good_arguments secret k n given h = rw given (ground arith)

  -- When no allocation and no draw fails, splitting a secret below the order, with a threshold that
  -- is not above the number of shares, among ids that are given, distinct and not zero succeeds, and
  -- makes a sharing of the secret among the first `n` of them, with the drawn coefficients.
  pub split_with_custom_ids-IsSharingOf :
      (mem : ℕ → Bool) (tape cs : List ℕ) (secret : Bytes) (k n : ℕ) (owners : List ℕ)
      → CanSplit algebra prime mem tape cs secret k n
      → n ≤ length owners
      → ids_ok (take n owners) ≡ true
      → (s : Sharing) × (split_with_custom_ids o mem tape
            (some algebra)
            (some secret)
            (suc k)
            n
            (some owners)
            true
          ≡ ok s)
        × IsSharingOf prime (big_endian 0 secret ∷ cs) (take n owners) s
  unfolding split_with_custom_ids
  split_with_custom_ids-IsSharingOf mem tape cs secret k n owners can enough accepted =
      let count : length (take n owners) ≡ n = omega (arith, length-take n owners) in
      let (len, _) = draw_value prime k tape cs can.drawn can.in_range in
      let (s, e, sharing) =
        split_impl_value o laws algebra prime big fits multiplies mem can.works tape can.in_range
          can.order secret k cs (take n owners) can.drawn can.secret_reduced in
      (
        s,
        rw
            (
              good_arguments secret k n can.secret_given can.threshold_fits,
              can.works 7,
              can.works 8,
              can.works 9,
              can.works 10,
              accepted,
              access_mat_value o laws k (take n owners),
            )
            (rw (len, count) at e),
        sharing,
      )

  -- Splitting a secret below the order among the ids 1, 2, … succeeds, when no allocation and no
  -- draw fails and the threshold is not above the number of shares, and makes a sharing of the secret among them, with the drawn coefficients.
  pub split-IsSharingOf :
      (mem : ℕ → Bool) (tape cs : List ℕ) (secret : Bytes) (k n : ℕ)
      → CanSplit algebra prime mem tape cs secret k n
      → (s : Sharing) × (split o mem tape (some algebra) (some secret) (suc k) n true ≡ ok s)
        × IsSharingOf prime (big_endian 0 secret ∷ cs) (running_ids 1 n) s
  unfolding split
  split-IsSharingOf mem tape cs secret k zero can = absurd (omega (arith, can.threshold_fits))
  split-IsSharingOf mem tape cs secret k (suc m) can =
      let count : length (running_ids 1 (suc m)) ≡ suc m = length-running_ids 1 (suc m) in
      let (len, _) = draw_value prime k tape cs can.drawn can.in_range in
      let (s, e, sharing) =
        split_impl_value o laws algebra prime big fits multiplies mem can.works tape can.in_range
          can.order secret k cs (running_ids 1 (suc m)) can.drawn can.secret_reduced in
      let pred : suc m - 1 ≡ m = omega arith in
      (
        s,
        rw
            (
              good_arguments secret k (suc m) can.secret_given can.threshold_fits,
              can.works 7,
              can.works 8,
              can.works 9,
              can.works 10,
              pred,
              access_mat_value o laws k (running_ids 2 m),
              running_ids-suc 1 m,
              ← pows_one k,
            )
            (rw (len, count, running_ids-suc 1 m) at e),
        sharing,
      )
