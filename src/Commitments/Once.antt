-- ===== src/Commitments/Once.antt =====
-- About the calls of commitments.c on all the data at once.
use mpc_lib_demo.Commitments.{
  Commitment, IsSha256, Sha256, compare_digest, create_commitment_for_data, digest_len,
  invalid_parameter, salted, success, verify_commitment,
}
use mpc_lib_demo.Base.{
  Bytes, [], arith, false, is_empty, length, refl, some, true, ◌++◌, ◌<◌, ◌∷◌, ◌≡◌,
}

module _ (sha : Sha256) where
  is_empty-false : (d : Bytes) → 0 < length d → is_empty d ≡ false
  is_empty-false [] h = elim h [ ]
  is_empty-false (b ∷ d) h = refl

  module _ (laws : IsSha256 sha) where
    -- What is committed to at once is accepted, if it is not empty.
    pub create-verify :
        (salt d : Bytes)
        → 0 < length d
        → (c : Commitment) × (create_commitment_for_data sha (some salt) (some d) true
            ≡ (success, some c))
          × (verify_commitment sha (some d) (some c) ≡ success)
    unfolding create_commitment_for_data verify_commitment compare_digest
    create-verify salt d pos =
        let c : Commitment = record {
          salt = salt;
          commitment = sha.final (sha.update (salted sha salt) d);
        } in
        (
          c,
          rw (is_empty-false d pos) refl,
          rw (is_empty-false d pos, laws.memcmp_refl c.commitment digest_len) refl,
        )

    compare_digest-success :
        (a b : Bytes) → compare_digest sha a b ≡ success → sha.crypto_memcmp a b digest_len ≡ 0
    unfolding compare_digest
    compare_digest-success a b h = ground arith

    -- Only the digest of the salt and the data is accepted: two different data of one commitment
    -- are a collision of SHA-256.
    pub verify_commitment-binding :
        (c : Commitment) (d : Bytes)
        → length c.commitment ≡ digest_len
        → verify_commitment sha (some d) (some c) ≡ success
        → sha.final (sha.update sha.init (c.salt ++ d)) ≡ c.commitment
    unfolding verify_commitment compare_digest salted
    verify_commitment-binding c [] len accepted = absurd (not_success accepted)
      where
        not_success : invalid_parameter ≡ success → ⊥
        not_success e = cc
    verify_commitment-binding c (b ∷ d) len accepted =
        laws.memcmp_eq (sha.final (sha.update sha.init (c.salt ++ b ∷ d))) c.commitment
          (laws.length-final _) len
          (compare_digest-success _ _ (rw (laws.update-update sha.init c.salt (b ∷ d)) at accepted))
