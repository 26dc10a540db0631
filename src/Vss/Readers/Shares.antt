-- ===== src/Vss/Readers/Shares.antt =====
-- About the calls that read a share and a proof from a sharing.
use mpc_lib_demo.Vss.{Share, Sharing, VssStatus, invalid_index}
use mpc_lib_demo.OpenSsl.{big_endian}
use mpc_lib_demo.Vss.Interpolation.{eval}
use mpc_lib_demo.Vss.Readers.{get_share}
use mpc_lib_demo.Vss.Split.Values.{AreValues, IsSharingOf}
use mpc_lib_demo.Base.{
  All, Bool-cases, Bytes, Cong, List, Result, [], arith, err, get_or, inl, inr, length, le→ltb, ltb,
  ltb→lt, lt→ltb, ok, refl, some, subst, suc, true, zero, ℕ, ◌<◌, ◌∷◌, ◌≡◌, ◌≤◌,
}

module _ (prime : ℕ) (cs : List ℕ) where
  values_at :
      (owners : List ℕ) (scalars : List Bytes) (i : ℕ)
      → AreValues prime cs owners scalars
      → i < length owners
      → Cong prime (big_endian 0 (get_or scalars i [])) (eval cs (get_or owners i 0))
  values_at [] ss i v h = elim h [ ]
  values_at (x ∷ xs) [] i v h = absurd v
  values_at (x ∷ xs) (s ∷ ss) zero v h = v.1
  values_at (x ∷ xs) (s ∷ ss) (suc i) v h = values_at xs ss i v.2 (omega arith)

  All-get_or :
      (owners : List ℕ) (i : ℕ)
      → All (λ x. x < prime) owners
      → i < length owners
      → get_or owners i 0 < prime
  All-get_or [] i a h = elim h [ ]
  All-get_or (x ∷ xs) zero a h = a.0
  All-get_or (x ∷ xs) (suc i) a h = All-get_or xs i a.1 (omega arith)

  module _ (owners : List ℕ) (s : Sharing) (sharing : IsSharingOf prime cs owners s) where
    -- Below the number of players `get_share` returns the id and the value at that position.
    pub get_share_value :
        (i : ℕ)
        → i < length owners
        → get_share (some s) i true
          ≡ ok (record { scalar = get_or sharing.scalars i []; id = get_or owners i 0 })
    unfolding get_share
    get_share_value i h = rw (sharing.num_eq, lt→ltb _ _ h, sharing.shares_eq, sharing.ids_eq) refl

    -- From there on it reports the index.
    pub get_share-out_of_range :
        (i : ℕ) → length owners ≤ i → get_share (some s) i true ≡ err invalid_index
    unfolding get_share
    get_share-out_of_range i h = rw (sharing.num_eq, le→ltb _ _ h) refl

    -- A share that was read lies on the polynomial, and its id is one of the owners'.
    pub get_share-on_polynomial :
        (i : ℕ) {q : Share}
        → All (λ x. x < prime) owners
        → get_share (some s) i true ≡ ok q
        → (q.id < prime) × Cong prime (big_endian 0 q.scalar) (eval cs q.id)
    get_share-on_polynomial i {q} reduced read = elim (Bool-cases (ltb i (length owners))) [
      | inl inside ↦
          let h : i < length owners = ltb→lt _ _ inside in
          subst (λ r. (r.id < prime) × Cong prime (big_endian 0 r.scalar) (eval cs r.id))
            (same_share (get_share_value i h) read)
            (
              All-get_or owners i reduced h,
              values_at owners sharing.scalars i sharing.on_polynomial h,
            )
      | inr outside ↦ absurd (no_share (get_share-out_of_range i (ground arith)) read)
    ]
      where
        same_share : {r : Result VssStatus Share} {a b : Share} → r ≡ ok a → r ≡ ok b → a ≡ b
        same_share e e' = cc

        no_share : {r : Result VssStatus Share} {b : Share} → r ≡ err invalid_index → r ≡ ok b → ⊥
        no_share e e' = cc
