-- ===== src/Vss/Reconstruct/Secret.antt =====
-- About `verifiable_secret_sharing_reconstruct` and the polynomial of the shares.
use mpc_lib_demo.Vss.{Share, ids, insufficient_buffer, success, unknown_error}
use mpc_lib_demo.OpenSsl.{IsOpenSsl, OpenSsl, big_endian}
use mpc_lib_demo.Algebra.{Algebra}
use mpc_lib_demo.OpenSsl.Numbers.{bn2bin-pos}
use mpc_lib_demo.Vss.Access.{ids_ok}
use mpc_lib_demo.Vss.Access.Polynomial.{ids_ok-AreIds}
use mpc_lib_demo.Vss.Interpolation.{eval}
use mpc_lib_demo.Vss.Lagrange.Factor.{HasInverses}
use mpc_lib_demo.Vss.Lagrange.Sum.{loop_interpolates}
use mpc_lib_demo.Vss.Reconstruct.{reconstruct, sum_of_shares, write_secret}
use mpc_lib_demo.Base.{
  All, Bool, Bytes, Cong, List, [], arith, get_or, length, le→leb, lt→leb, lt→ltb, none, refl, some,
  true, ℕ, ◌<◌, ◌∙◌, ◌∷◌, ◌≡◌, ◌≤◌,
}

module _ (o : OpenSsl) (laws : IsOpenSsl o) (field : ℕ) (big : 1 < field)
    (invert : HasInverses field) where
  -- The shares lie on the polynomial, which has no more coefficients than there are shares.
  pub record AreSharesOf (cs : List ℕ) (shares : List Share) : Type 0 where
    pub accepted : ids_ok (ids shares) ≡ true
    pub reduced : All (λ x. x < field) (ids shares)
    pub values : All (λ q. Cong field (big_endian 0 q.scalar) (eval cs q.id)) shares
    pub enough : length cs ≤ length shares
    pub some_share : 0 < length shares
    pub secret_reduced : get_or cs 0 0 < field

  module _ (mem : ℕ → Bool) (works : (k : ℕ) → mem k ≡ true) (algebra : Algebra)
      (order : algebra.order_internal ≡ some field) where
    sum_value :
        (cs : List ℕ) (shares : List Share)
        → AreSharesOf cs shares
        → sum_of_shares o mem algebra shares ≡ some (get_or cs 0 0)
    unfolding sum_of_shares
    sum_value cs [] h = absurd (omega (arith, h.some_share))
    sum_value cs (s ∷ rest) h =
        rw (order, works 1, works 2, works 3)
          (loop_interpolates o laws field big invert cs s rest
            (ids_ok-AreIds field (ids (s ∷ rest)) h.accepted h.reduced) h.values h.enough
            h.secret_reduced)

    reconstruct_write :
        (cs : List ℕ) (shares : List Share) (secret_len : ℕ)
        → AreSharesOf cs shares
        → reconstruct o mem (some algebra) (some shares) true secret_len
          ≡ write_secret o true secret_len (get_or cs 0 0)
    unfolding reconstruct
    reconstruct_write cs [] secret_len h = absurd (omega (arith, h.some_share))
    reconstruct_write cs (s ∷ rest) secret_len h =
        rw (h.accepted, works 0, sum_value cs (s ∷ rest) h) refl

    -- With a buffer that is long enough, reconstruction from enough shares of a polynomial whose
    -- constant coefficient is not zero succeeds, and the bytes that it writes stand for it.
    pub reconstruct-secret :
        (cs : List ℕ) (shares : List Share) (secret_len : ℕ)
        → AreSharesOf cs shares
        → 0 < get_or cs 0 0
        → o.bn_num_bytes (get_or cs 0 0) ≤ secret_len
        → (bytes : Bytes) × (reconstruct o mem (some algebra) (some shares) true secret_len
            ≡ record {
              status = success;
              out_secret_len = some (length bytes);
              secret = some bytes;
            })
          × (big_endian 0 bytes ≡ get_or cs 0 0)
    unfolding write_secret
    reconstruct-secret cs shares secret_len h pos fits =
        let c : ℕ = get_or cs 0 0 in
        let bytes : Bytes = o.bn_bn2bin c in
        let written : 0 < length bytes = bn2bin-pos o laws c pos in
        (
          bytes,
          reconstruct_write cs shares secret_len h
              ∙ rw (le→leb _ _ fits, lt→ltb _ _ written, laws.length-bn2bin c) refl,
          laws.bn2bin c,
        )

    -- A secret of zero is never given back: its number of bytes is zero, and that is taken for a
    -- failure of the conversion.
    pub reconstruct-zero :
        (cs : List ℕ) (shares : List Share) (secret_len : ℕ)
        → AreSharesOf cs shares
        → get_or cs 0 0 ≡ 0
        → reconstruct o mem (some algebra) (some shares) true secret_len
          ≡ record { status = unknown_error; out_secret_len = some 0; secret = none }
    unfolding write_secret
    reconstruct-zero cs shares secret_len h zero_secret =
        reconstruct_write cs shares secret_len h
        ∙ rw (zero_secret, laws.length-bn2bin 0, laws.num_bytes-zero)
            (rw (le→leb 0 secret_len (omega arith)) refl)

    -- A buffer that is too short is reported, with the length that is needed, and nothing is
    -- written.
    pub reconstruct-short :
        (cs : List ℕ) (shares : List Share) (secret_len : ℕ)
        → AreSharesOf cs shares
        → secret_len < o.bn_num_bytes (get_or cs 0 0)
        → reconstruct o mem (some algebra) (some shares) true secret_len ≡ record {
          status = insufficient_buffer;
          out_secret_len = some (o.bn_num_bytes (get_or cs 0 0));
          secret = none;
        }
    unfolding write_secret
    reconstruct-short cs shares secret_len h short =
        reconstruct_write cs shares secret_len h ∙ rw (lt→leb _ _ short) refl
