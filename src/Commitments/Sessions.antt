-- ===== src/Commitments/Sessions.antt =====
-- About the calls of commitments.c that take the data chunk by chunk.
use mpc_lib_demo.Commitments.{
  Commitment, CommitmentsCtx, CommitmentsStatus, IsSha256, Sha256, commitment_final, commitment_new,
  commitment_update, compare_digest, create_commitment_for_data, digest_len, salted, success,
  verify_commitment, verify_final, verify_new, verify_update,
}
use mpc_lib_demo.Base.{
  All, Bool, Bytes, List, Option, Ptr, [], append-nil, append_assoc, false, is_empty, length, none,
  refl, some, true, ◌++◌, ◌<◌, ◌∙◌, ◌∷◌, ◌≡◌,
}

-- The data that the chunks make together.
abbrev pub joined : List Bytes → Bytes
joined [] = []
joined (d ∷ ds) = d ++ joined ds

abbrev pub IsChunk : Bytes → Type 0
IsChunk d = 0 < length d

module _ (sha : Sha256) where
  abbrev pub Context : Type 0
  Context = CommitmentsCtx sha

  -- A caller that passes chunks to an update until one of them fails.
  pub feed :
      (Ptr Context → Ptr Bytes → CommitmentsStatus × Ptr Context)
      → List Bytes
      → CommitmentsStatus × Ptr Context
      → CommitmentsStatus × Ptr Context
  feed update [] r = r
  feed update (d ∷ rest) (success, c) = feed update rest (update c (some d))
  feed update (d ∷ rest) (status, c) = (status, c)

  finish_commit : CommitmentsStatus × Ptr Context → CommitmentsStatus × Option Commitment
  finish_commit (success, c) = let (status, _, out) = commitment_final sha c true in (status, out)
  finish_commit (status, c) = (status, none)

  finish_verify : CommitmentsStatus × Ptr Context → CommitmentsStatus
  finish_verify (success, c) = (verify_final sha c).0
  finish_verify (status, c) = status

  -- A caller that commits to chunks, and one that verifies a commitment against chunks.
  pub commit_session : Option Bytes → List Bytes → CommitmentsStatus × Option Commitment
  unfolding feed finish_commit
  commit_session rand ds =
      finish_commit (feed (commitment_update sha) ds (commitment_new sha true rand true))

  pub verify_session : Commitment → List Bytes → CommitmentsStatus
  unfolding feed finish_verify
  verify_session c ds =
      finish_verify (feed (verify_update sha) ds (verify_new sha true true (some c)))

  is_chunk : (d : Bytes) → IsChunk d → is_empty d ≡ false
  is_chunk [] h = elim h [ ]
  is_chunk (b ∷ d) h = refl

  IsChunk-joined : (d : Bytes) (ds : List Bytes) → IsChunk d → is_empty (joined (d ∷ ds)) ≡ false
  IsChunk-joined [] ds h = elim h [ ]
  IsChunk-joined (b ∷ d) ds h = refl

  module _ (laws : IsSha256 sha) where
    feed_value :
        (update : Ptr Context → Ptr Bytes → CommitmentsStatus × Ptr Context)
        → (expected : Bytes) (role : Bool) (start : sha.Ctx)
        → ((hashed d : Bytes)
            → IsChunk d
            → update
                (some (record {
                  commitment = expected;
                  ctx = sha.update start hashed;
                  verifier = role;
                }))
                (some d)
              ≡ (
                success,
                some (record {
                  commitment = expected;
                  ctx = sha.update (sha.update start hashed) d;
                  verifier = role;
                }),
              ))
        → (ds : List Bytes) (hashed : Bytes) → All IsChunk ds
        → feed update ds (
          success,
          some (record { commitment = expected; ctx = sha.update start hashed; verifier = role }),
        )
          ≡ (
            success,
            some (record {
              commitment = expected;
              ctx = sha.update start (hashed ++ joined ds);
              verifier = role;
            }),
          )
    unfolding feed
    feed_value update expected role start accepts [] hashed h = rw (append-nil hashed) refl
    feed_value update expected role start accepts (d ∷ ds) hashed h =
        rw
          (
            accepts hashed d h.0,
            laws.update-update start hashed d,
            feed_value update expected role start accepts ds (hashed ++ d) h.1,
            append_assoc hashed d (joined ds),
          )
          refl

    commit_feed :
        (salt : Bytes) (ds : List Bytes)
        → All IsChunk ds
        → feed (commitment_update sha) ds (commitment_new sha true (some salt) true) ≡ (
          success,
          some (record {
            commitment = salt;
            ctx = sha.update sha.init (salt ++ joined ds);
            verifier = false;
          }),
        )
    unfolding commitment_new commitment_update salted
    commit_feed salt ds h =
        feed_value (commitment_update sha) salt false sha.init
          (λ hashed d chunk. rw (is_chunk d chunk) refl) ds salt h

    verify_feed :
        (c : Commitment) (ds : List Bytes)
        → All IsChunk ds
        → feed (verify_update sha) ds (verify_new sha true true (some c)) ≡ (
          success,
          some (record {
            commitment = c.commitment;
            ctx = sha.update sha.init (c.salt ++ joined ds);
            verifier = true;
          }),
        )
    unfolding verify_new verify_update salted
    verify_feed c ds h =
        feed_value (verify_update sha) c.commitment true sha.init
          (λ hashed d chunk. rw (is_chunk d chunk) refl) ds c.salt h

    -- Committing to one chunk or more that are not empty gives the commitment to their
    -- concatenation, and the same failure when there are no random bytes.
    pub commit_session-eq-create :
        (rand : Option Bytes) (d : Bytes) (ds : List Bytes)
        → All IsChunk (d ∷ ds)
        → commit_session rand (d ∷ ds)
          ≡ create_commitment_for_data sha rand (some (joined (d ∷ ds))) true
    unfolding create_commitment_for_data commitment_new commit_session commitment_final salted
    commit_session-eq-create none d ds h = rw (IsChunk-joined d ds h.0) refl
    commit_session-eq-create (some salt) d ds h =
        rw
          (
            IsChunk-joined d ds h.0,
            commit_feed salt (d ∷ ds) h,
            laws.update-update sha.init salt (joined (d ∷ ds)),
          )
          refl

    -- Verifying a commitment against one chunk or more that are not empty answers what verifying
    -- it against their concatenation answers.
    pub verify_session-eq-verify :
        (c : Commitment) (d : Bytes) (ds : List Bytes)
        → All IsChunk (d ∷ ds)
        → verify_session c (d ∷ ds) ≡ verify_commitment sha (some (joined (d ∷ ds))) (some c)
    unfolding verify_commitment verify_session verify_final salted
    verify_session-eq-verify c d ds h =
        rw
          (
            IsChunk-joined d ds h.0,
            verify_feed c (d ∷ ds) h,
            laws.update-update sha.init c.salt (joined (d ∷ ds)),
          )
          refl

    -- What is committed to chunk by chunk is accepted chunk by chunk, however the verifier cuts
    -- the same data.
    pub commit_session-verify_session :
        (salt d e : Bytes) (ds es : List Bytes)
        → All IsChunk (d ∷ ds)
        → All IsChunk (e ∷ es)
        → joined (d ∷ ds) ≡ joined (e ∷ es)
        → (c : Commitment) × (commit_session (some salt) (d ∷ ds) ≡ (success, some c))
          × (verify_session c (e ∷ es) ≡ success)
    unfolding create_commitment_for_data verify_commitment compare_digest
    commit_session-verify_session salt d e ds es h h' same =
        let c : Commitment = record {
          salt = salt;
          commitment = sha.final (sha.update (sha.update sha.init salt) (joined (d ∷ ds)));
        } in
        (
          c,
          commit_session-eq-create (some salt) d ds h ∙ rw (IsChunk-joined d ds h.0) refl,
          verify_session-eq-verify c e es h'
              ∙ rw (← same, IsChunk-joined d ds h.0, laws.memcmp_refl c.commitment digest_len) refl,
        )
