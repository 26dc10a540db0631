-- ===== src/Vss/RoundTrip.antt =====
-- About a split followed by a reconstruction.
use mpc_lib_demo.Algebra
use mpc_lib_demo.Vss.{Share, Sharing, ids, success}
use mpc_lib_demo.OpenSsl.{IsOpenSsl, OpenSsl, big_endian}
use mpc_lib_demo.Algebra.{Algebra}
use mpc_lib_demo.Vss.Access.{ids_ok}
use mpc_lib_demo.Vss.Access.Draws.{draw_value}
use mpc_lib_demo.Vss.Interpolation.{eval}
use mpc_lib_demo.Vss.Lagrange.Factor.{HasInverses}
use mpc_lib_demo.Vss.Reconstruct.{reconstruct}
use mpc_lib_demo.Vss.Reconstruct.Secret.{AreSharesOf, reconstruct-secret}
use mpc_lib_demo.Vss.Split.{split_with_custom_ids}
use mpc_lib_demo.Vss.Split.Callers.{split_with_custom_ids-IsSharingOf}
use mpc_lib_demo.Vss.Split.Values.{CanSplit, IsSharingOf}
use mpc_lib_demo.Vss.Readers.{get_share}
use mpc_lib_demo.Vss.Readers.Shares.{get_share-on_polynomial, get_share_value}
use mpc_lib_demo.Base.{
  All, Bool, Bytes, Cong, List, [], ap, arith, get_or, length, length-map, map, ok, refl, some, suc,
  take, true, ℕ, ◌<◌, ◌^◌, ◌∙◌, ◌∷◌, ◌≡◌, ◌≤◌,
}

-- The shares are those that `get_share` returns at the indices, in order.
abbrev pub AreRead : Sharing → List ℕ → List Share → Type 0
AreRead s [] [] = Unit
AreRead s [] (_ ∷ _) = ⊥
AreRead s (_ ∷ _) [] = ⊥
AreRead s (i ∷ is) (q ∷ qs) = (get_share (some s) i true ≡ ok q) × AreRead s is qs

module _ (prime : ℕ) (cs owners : List ℕ) (s : Sharing) (sharing : IsSharingOf prime cs owners s)
    (reduced : All (λ x. x < prime) owners) where
  abbrev share_at : ℕ → Share
  share_at i = record { scalar = get_or sharing.scalars i []; id = get_or owners i 0 }

  abbrev InRange : List ℕ → Type 0
  InRange indices = All (λ i. i < length owners) indices

  read_all : (indices : List ℕ) → InRange indices → AreRead s indices (map share_at indices)
  read_all [] h = tt
  read_all (i ∷ is) h = (get_share_value prime cs owners s sharing i h.0, read_all is h.1)

  ids_at : (indices : List ℕ) → ids (map share_at indices) ≡ map (λ i. get_or owners i 0) indices
  ids_at [] = refl
  ids_at (i ∷ is) = ap (λ xs. get_or owners i 0 ∷ xs) (ids_at is)

  on_polynomial :
      (indices : List ℕ)
      → InRange indices
      → All (λ x. x < prime) (ids (map share_at indices))
        × All (λ q. Cong prime (big_endian 0 q.scalar) (eval cs q.id)) (map share_at indices)
  on_polynomial [] h = (tt, tt)
  on_polynomial (i ∷ is) h =
      let (small, value) =
        get_share-on_polynomial prime cs owners s sharing i reduced
          (get_share_value prime cs owners s sharing i h.0) in
      let (smalls, values) = on_polynomial is h.1 in ((small, smalls), (value, values))

  pub read-AreSharesOf :
      (o : OpenSsl) (laws : IsOpenSsl o) (big : 1 < prime) (invert : HasInverses prime)
      (indices : List ℕ)
      → InRange indices
      → ids_ok (map (λ i. get_or owners i 0) indices) ≡ true
      → length cs ≤ length indices
      → 0 < length indices
      → get_or cs 0 0 < prime
      → AreSharesOf o laws prime big invert cs (map share_at indices)
  read-AreSharesOf o laws big invert indices h accepted enough some_share small_secret = record {
    accepted = ap ids_ok (ids_at indices) ∙ accepted;
    reduced = (on_polynomial indices h).0;
    values = (on_polynomial indices h).1;
    enough = omega (arith, length-map indices share_at);
    some_share = omega (arith, length-map indices share_at);
    secret_reduced = small_secret;
  }

module _ (o : OpenSsl) (laws : IsOpenSsl o) (algebra : Algebra) (prime : ℕ) (big : 1 < prime)
    (fits : prime ≤ 256 ^ 32) (invert : HasInverses prime)
    (internal : algebra.order_internal ≡ some prime)
    (multiplies : (b : Bytes) → (algebra.generator_mul b).0 ≡ Algebra.success) where
  -- When no allocation and no draw fails, split a secret that is not zero and below the order into
  -- `k + 1` shares at least, among ids that are distinct, not zero and reduced, read the shares at
  -- `k + 1` indices or more that have distinct ids, and reconstruct into a buffer that is long
  -- enough: every step succeeds, and the bytes stand for the secret.
  pub split-reconstruct :
      (mem : ℕ → Bool) (tape cs : List ℕ) (secret : Bytes) (k n : ℕ) (owners indices : List ℕ)
      (secret_len : ℕ)
      → CanSplit algebra prime mem tape cs secret k n
      → n ≤ length owners
      → ids_ok (take n owners) ≡ true
      → All (λ x. x < prime) (take n owners)
      → All (λ i. i < length (take n owners)) indices
      → ids_ok (map (λ i. get_or (take n owners) i 0) indices) ≡ true
      → k < length indices
      → 0 < big_endian 0 secret
      → o.bn_num_bytes (big_endian 0 secret) ≤ secret_len
      → (s : Sharing) × (split_with_custom_ids o mem tape
            (some algebra)
            (some secret)
            (suc k)
            n
            (some owners)
            true
          ≡ ok s)
        × (shares : List Share) × AreRead s indices shares
        × (bytes : Bytes) × (reconstruct o mem (some algebra) (some shares) true secret_len
            ≡ record {
              status = success;
              out_secret_len = some (length bytes);
              secret = some bytes;
            })
        × (big_endian 0 bytes ≡ big_endian 0 secret)
  split-reconstruct mem tape cs secret k n owners indices secret_len can enough accepted reduced
        inside distinct reach pos room =
      let (s, split_ok, sharing) =
        split_with_custom_ids-IsSharingOf o laws algebra prime big fits multiplies mem tape cs
          secret k n owners can enough accepted in
      let (len, _) = draw_value prime k tape cs can.drawn can.in_range in
      let polynom : List ℕ = big_endian 0 secret ∷ cs in
      let chosen : List ℕ = take n owners in
      let shares : List Share = map (share_at prime polynom chosen s sharing reduced) indices in
      let good : AreSharesOf o laws prime big invert polynom shares =
        read-AreSharesOf prime polynom chosen s sharing reduced o laws big invert indices inside
          distinct (omega (arith, len)) (omega arith) can.secret_reduced in
      let (bytes, done, value) =
        reconstruct-secret o laws prime big invert mem can.works algebra internal polynom shares
          secret_len good pos room in
      (
        s,
        split_ok,
        shares,
        read_all prime polynom chosen s sharing reduced indices inside,
        bytes,
        done,
        value,
      )
