-- ===== src/Vss/Split/Values.antt =====
-- About the shares that the internal split makes.
use mpc_lib_demo.Algebra
use mpc_lib_demo.Vss.Access.Polynomial.{pows, row_product_value}
use mpc_lib_demo.Vss.Interpolation.{eval}
use mpc_lib_demo.Vss.{Sharing}
use mpc_lib_demo.OpenSsl.{IsOpenSsl, OpenSsl, big_endian}
use mpc_lib_demo.Algebra.{Algebra}
use mpc_lib_demo.Vss.Access.{draw, reduce}
use mpc_lib_demo.Vss.Split.{create_shares, prove, prove_all, share_rows, split_impl}
use mpc_lib_demo.Base.{
  All, Bool, Bytes, Cong, Cong-of_eq, Cong-trans, List, [], ap, arith, false, is_empty, length,
  lt→ltb, map, ok, refl, some, suc, sym, true, ℕ, ◌-◌, ◌<◌, ◌^◌, ◌∷◌, ◌≡◌, ◌≤◌,
}
use mpc_lib_demo.Vss.Access.Draws.{draw_value}

-- The scalars are, in order, the values of the polynomial at the ids.
abbrev pub AreValues : ℕ → List ℕ → List ℕ → List Bytes → Type 0
AreValues prime cs [] [] = Unit
AreValues prime cs [] (_ ∷ _) = ⊥
AreValues prime cs (_ ∷ _) [] = ⊥
AreValues prime cs (x ∷ xs) (s ∷ ss) =
    (length s ≡ 32) × Cong prime (big_endian 0 s) (eval cs x) × AreValues prime cs xs ss

-- A sharing of the constant coefficient of `cs` among the owners.
pub record IsSharingOf (prime : ℕ) (cs owners : List ℕ) (s : Sharing) : Type 0 where
  pub scalars : List Bytes
  pub ids_eq : s.share_ids ≡ some owners
  pub shares_eq : s.shares ≡ some scalars
  pub on_polynomial : AreValues prime cs owners scalars
  pub num_eq : s.num_shares ≡ length owners
  pub threshold_eq : s.threshold ≡ length cs

module _ (o : OpenSsl) (laws : IsOpenSsl o) (algebra : Algebra) (prime : ℕ) (big : 1 < prime)
    (fits : prime ≤ 256 ^ 32)
    (multiplies : (b : Bytes) → (algebra.generator_mul b).0 ≡ Algebra.success) where
  prove_value :
      (a : ℕ)
      → a < prime
      → (s : Bytes) × (prove o algebra a ≡ ok (s, (algebra.generator_mul s).1))
        × (length s ≡ 32)
        × (big_endian 0 s ≡ a)
  unfolding prove
  prove_value a h =
      let (s, e, len, value) = laws.bn2binpad a 32 (omega (arith, fits)) in
      (s, rw (e, multiplies s) refl, len, value)

  prove_all_value :
      (as' : List ℕ)
      → All (λ a. a < prime) as'
      → (ps : List (Bytes × Bytes)) × (prove_all o algebra as' ≡ ok ps)
  unfolding prove_all
  prove_all_value [] h = ([], refl)
  prove_all_value (a ∷ as') h =
      let (s, e, len, value) = prove_value a h.0 in
      let (ps, es) = prove_all_value as' h.1 in
      ((s, (algebra.generator_mul s).1) ∷ ps, rw (e, es) refl)

  module _ (c : ℕ) (cs : List ℕ) where
    abbrev rows : List ℕ → List (List ℕ)
    rows owners = map (map (reduce o prime)) (map (λ id. 1 ∷ pows (length cs) 1 id) owners)

    share_rows_value :
        (owners : List ℕ)
        → (ps : List (Bytes × Bytes)) × (share_rows o algebra prime (c ∷ cs) (rows owners) ≡ ok ps)
          × AreValues prime (c ∷ cs) owners (map (λ s. s.0) ps)
    unfolding share_rows
    share_rows_value [] = ([], refl, tt)
    share_rows_value (x ∷ owners) =
        let (r, er, lt, value) = row_product_value o laws prime big c cs x in
        let (s, e, len, stands) = prove_value r lt in
        let (ps, es, values) = share_rows_value owners in
        (
          (s, (algebra.generator_mul s).1) ∷ ps,
          rw (er, e, es) refl,
          (len, Cong-trans (Cong-of_eq stands) value, values),
        )

  module _ (mem : ℕ → Bool) (works : (k : ℕ) → mem k ≡ true) (tape : List ℕ)
      (in_range : All (λ c. c < prime) tape) where
    create_shares_value :
        (secret k : ℕ) (cs owners : List ℕ)
        → draw k tape ≡ some cs
        → secret < prime
        → (s : Sharing) × (create_shares o algebra mem tape secret
              (suc k)
              (length owners)
              (rows secret cs owners)
              owners
              prime
            ≡ ok s)
          × IsSharingOf prime (secret ∷ cs) owners s
    unfolding create_shares
    create_shares_value secret k cs owners drawn reduced =
        let (len, small) = draw_value prime k tape cs drawn in_range in
        let (proofs, ep) = prove_all_value (secret ∷ cs) (reduced, small) in
        let (ps, es, values) = share_rows_value secret cs owners in
        let pred : suc k - 1 ≡ k = omega arith in
        (
          record {
            share_ids = some owners;
            shares = some (map (λ s. s.0) ps);
            proofs = map (λ s. s.1) ps;
            coefficient_proofs = map (λ s. s.1) proofs;
            num_shares = length owners;
            threshold = suc k;
          },
          rw (works 0, pred, drawn, works 1, works 2, works 3, ep, works 4, works 5, es) refl,
          record {
            scalars = map (λ s. s.0) ps;
            ids_eq = refl;
            shares_eq = refl;
            on_polynomial = values;
            num_eq = refl;
            threshold_eq = ap suc (sym len);
          },
        )

    module _ (order : big_endian 0 algebra.order ≡ prime) where
      pub split_impl_value :
          (secret : Bytes) (k : ℕ) (cs owners : List ℕ)
          → draw k tape ≡ some cs
          → big_endian 0 secret < prime
          → (s : Sharing) × (split_impl o algebra mem tape secret
                (suc k)
                (length owners)
                (map (λ id. 1 ∷ pows (length cs) 1 id) owners)
                owners
              ≡ ok s)
            × IsSharingOf prime (big_endian 0 secret ∷ cs) owners s
      unfolding split_impl
      split_impl_value secret k cs owners drawn reduced =
          let (s, e, sharing) =
            create_shares_value (big_endian 0 secret) k cs owners drawn reduced in
          (
            s,
            rw
                (
                  works 6,
                  laws.bin2bn secret,
                  laws.bin2bn algebra.order,
                  order,
                  lt→ltb _ _ reduced,
                  e,
                )
                refl,
            sharing,
          )

-- What both ways to split ask of the environment and of the arguments: no allocation fails, the
-- draws are reduced and give `k` coefficients, the secret is not empty and reduced, and the
-- threshold `k + 1` is at most the number of players.
pub record CanSplit (algebra : Algebra) (prime : ℕ) (mem : ℕ → Bool) (tape cs : List ℕ)
    (secret : Bytes) (k n : ℕ) : Type 0 where
  pub works : (i : ℕ) → mem i ≡ true
  pub order : big_endian 0 algebra.order ≡ prime
  pub in_range : All (λ c. c < prime) tape
  pub drawn : draw k tape ≡ some cs
  pub secret_given : is_empty secret ≡ false
  pub secret_reduced : big_endian 0 secret < prime
  pub threshold_fits : suc k ≤ n
