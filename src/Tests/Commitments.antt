-- ===== src/Tests/Commitments.antt =====
-- Runs of commitments.c with a digest of 32 bytes that is the length of what was hashed.
use mpc_lib_demo.Commitments.{
  Commitment, IsSha256, Sha256, compare_digest, salted, success, verify_commitment,
}
use mpc_lib_demo.Base.{
  ==_iff, ==_refl, All, Bool-cases, Bytes, [], append_assoc, ap₂, arith, if◌then◌else◌, inl, inr,
  length, refl, replicate, some, suc, zero, ℕ, ◌++◌, ◌==◌, ◌∷◌, ◌≡◌,
}
use mpc_lib_demo.Commitments.Once.{verify_commitment-binding}
use mpc_lib_demo.Commitments.Sessions.{
  IsChunk, commit_session, commit_session-verify_session, verify_session, verify_session-eq-verify,
}

-- 0 when the first bytes are equal
abbrev pub memcmp : Bytes → Bytes → ℕ → ℕ
memcmp a b zero = 0
memcmp [] [] (suc n) = 0
memcmp [] (_ ∷ _) (suc n) = 1
memcmp (_ ∷ _) [] (suc n) = 1
memcmp (x ∷ a) (y ∷ b) (suc n) = let rest = memcmp a b n in if x == y then rest else 1

abbrev pub sha : Sha256
sha = record {
  Ctx = Bytes;
  init = [];
  update = λ c d. c ++ d;
  final = λ c. replicate 32 (length c);
  crypto_memcmp = memcmp;
}

memcmp_same : (a : Bytes) (n : ℕ) → memcmp a a n ≡ 0
memcmp_same a zero = refl
memcmp_same [] (suc n) = refl
memcmp_same (x ∷ a) (suc n) = rw (==_refl x) (memcmp_same a n)

memcmp_zero : (a b : Bytes) (n : ℕ) → length a ≡ n → length b ≡ n → memcmp a b n ≡ 0 → a ≡ b
memcmp_zero [] [] n ha hb h = refl
memcmp_zero [] (y ∷ b) n ha hb h = absurd (omega (arith, ha, hb))
memcmp_zero (x ∷ a) [] n ha hb h = absurd (omega (arith, ha, hb))
memcmp_zero (x ∷ a) (y ∷ b) zero ha hb h = absurd (omega (arith, ha))
memcmp_zero (x ∷ a) (y ∷ b) (suc n) ha hb h = elim (Bool-cases (x == y)) [
  | inl same ↦
      ap₂ (λ u v. u ∷ v) ((==_iff x y).0 same)
        (memcmp_zero a b n (omega (arith, ha)) (omega (arith, hb)) (rw same at h))
  | inr differ ↦ absurd (omega (arith, (rw differ at h)))
]

pub sha_laws : IsSha256 sha
sha_laws = record {
  length-final = λ c. refl;
  update-update = λ c a b. append_assoc c a b;
  memcmp_refl = memcmp_same;
  memcmp_eq = λ a b ha hb h. memcmp_zero a b 32 ha hb h;
}

abbrev pub salt : Bytes
salt = replicate 32 9

abbrev given : Commitment
given = record { salt = salt; commitment = replicate 32 35 }

two_chunks : All IsChunk ((1 ∷ []) ∷ (2 ∷ 3 ∷ []) ∷ [])
two_chunks = (omega arith, (omega arith, tt))

commit_session-verify_session_example :
    (c : Commitment) × (commit_session sha (some salt) ((1 ∷ []) ∷ (2 ∷ 3 ∷ []) ∷ [])
      ≡ (success, some c))
    × (verify_session sha c ((1 ∷ 2 ∷ 3 ∷ []) ∷ []) ≡ success)
commit_session-verify_session_example =
    commit_session-verify_session sha sha_laws salt (1 ∷ []) (1 ∷ 2 ∷ 3 ∷ []) ((2 ∷ 3 ∷ []) ∷ []) []
      two_chunks (omega arith, tt) refl

given_accepted : verify_commitment sha (some (1 ∷ 2 ∷ 3 ∷ [])) (some given) ≡ success
unfolding verify_commitment salted compare_digest
given_accepted = refl

verify_commitment-binding_example :
    sha.final (sha.update sha.init (salt ++ 1 ∷ 2 ∷ 3 ∷ [])) ≡ replicate 32 35
verify_commitment-binding_example =
    verify_commitment-binding sha sha_laws given (1 ∷ 2 ∷ 3 ∷ []) refl given_accepted

-- One session and one call accept the same commitment.
verify_session-eq-verify_example :
    verify_session sha given ((1 ∷ []) ∷ (2 ∷ 3 ∷ []) ∷ [])
    ≡ verify_commitment sha (some (1 ∷ 2 ∷ 3 ∷ [])) (some given)
verify_session-eq-verify_example =
    verify_session-eq-verify sha sha_laws given (1 ∷ []) ((2 ∷ 3 ∷ []) ∷ []) two_chunks
