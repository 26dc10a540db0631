-- ===== src/Vss/Commit.antt =====
-- The commitments of verifiable_secret_sharing.c to the proofs of shares and of coefficients.
use mpc_lib_demo.Commitments
use mpc_lib_demo.Commitments.Once.{create-verify}
use mpc_lib_demo.Vss.{
  Share, Sharing, VssStatus, invalid_parameter, invalid_share, out_of_memory, success,
  unknown_error,
}
use mpc_lib_demo.Commitments.{
  Commitment, CommitmentsStatus, IsSha256, Sha256, create_commitment_for_data, verify_commitment,
}
use mpc_lib_demo.Base.{
  Bool, Bytes, List, Option, Ptr, [], ap, arith, drop, get_or, if◌then◌else◌, length, le→leb, none,
  not, ok, refl, some, subst, suc, sym, take, true, zero, ℕ, ◌++◌, ◌+◌, ◌<◌, ◌∙◌, ◌∷◌, ◌≡◌, ◌≤◌,
}
use mpc_lib_demo.Vss.Readers.{get_polynom_proofs, get_share, get_share_and_proof}
use mpc_lib_demo.Base.Inversion.{bind-ok}

from_commitments_status : CommitmentsStatus → VssStatus
from_commitments_status Commitments.success = success
from_commitments_status Commitments.internal_error = unknown_error
from_commitments_status Commitments.invalid_parameter = invalid_parameter
from_commitments_status Commitments.invalid_context = invalid_parameter
from_commitments_status Commitments.out_of_memory = out_of_memory
from_commitments_status Commitments.invalid_commitment = invalid_share

-- The array of points, as its bytes.
abbrev pub array_bytes : List Bytes → Bytes
array_bytes [] = []
array_bytes (p ∷ ps) = p ++ array_bytes ps

-- Proofs that `get_share_and_proof` reads, at the indexes from `i` on
abbrev pub AreProofs : Sharing → ℕ → List Bytes → Type 0
AreProofs s i [] = Unit
AreProofs s i (p ∷ ps) =
    ((share : Share) × (get_share_and_proof (some s) i true true ≡ ok (share, p)))
    × AreProofs s (suc i) ps

drop_entry :
    (xs : List Bytes) (i : ℕ) → i < length xs → drop i xs ≡ get_or xs i [] ∷ drop (suc i) xs
drop_entry [] i h = elim h [ ]
drop_entry (x ∷ xs) zero h = refl
drop_entry (x ∷ xs) (suc i) h = drop_entry xs i (omega arith)

drop_all : (xs : List Bytes) (i : ℕ) → i ≡ length xs → drop i xs ≡ []
drop_all [] zero h = refl
drop_all [] (suc i) h = refl
drop_all (x ∷ xs) zero h = absurd (omega (arith, h))
drop_all (x ∷ xs) (suc i) h = drop_all xs i (omega (arith, h))

read-eq-entry :
    (s : Sharing) (i : ℕ) (share : Share) (p : Bytes)
    → get_share_and_proof (some s) i true true ≡ ok (share, p)
    → p ≡ get_or s.proofs i []
unfolding get_share_and_proof
read-eq-entry s i share p e =
    let (found, got, made) = bind-ok (get_share (some s) i true) _ (share, p) e in cc

take_whole : (xs : List Bytes) (n : ℕ) → n ≡ length xs → take n xs ≡ xs
take_whole [] zero h = refl
take_whole [] (suc n) h = refl
take_whole (x ∷ xs) zero h = absurd (omega (arith, h))
take_whole (x ∷ xs) (suc n) h = ap (λ ys. x ∷ ys) (take_whole xs n (omega (arith, h)))

take_twice : (n : ℕ) (xs : List Bytes) → take n (take n xs) ≡ take n xs
take_twice zero xs = refl
take_twice (suc n) [] = refl
take_twice (suc n) (x ∷ xs) = ap (λ ys. x ∷ ys) (take_twice n xs)

-- As many proofs as there are from an index on, read from there, are those of the sharing.
AreProofs-eq-drop :
    (s : Sharing) (i : ℕ) (ps : List Bytes)
    → AreProofs s i ps
    → i + length ps ≡ length s.proofs
    → ps ≡ drop i s.proofs
AreProofs-eq-drop s i [] h count = sym (drop_all s.proofs i (omega (arith, count)))
AreProofs-eq-drop s i (p ∷ ps) h count =
    rw
      (
        drop_entry s.proofs i (omega (arith, count)),
        sym (read-eq-entry s i h.0.0 p h.0.1),
        sym (AreProofs-eq-drop s (suc i) ps h.1 (omega (arith, count))),
      )
      refl

module _ (sha : Sha256) where
  commit_to : (ℕ → Bool) → Option Bytes → List Bytes → Bool → VssStatus × Option Commitment
  unfolding from_commitments_status
  commit_to mem rand proofs commitment =
      if not commitment
      then (invalid_parameter, none)
      else if not (mem 0)
      then (out_of_memory, none)
      else let (status, out) =
          create_commitment_for_data sha rand (some (array_bytes proofs)) commitment in
        (from_commitments_status status, out)

  pub get_shares_commitment :
      (ℕ → Bool) → Option Bytes → Ptr Sharing → Bool → VssStatus × Option Commitment
  unfolding commit_to
  get_shares_commitment mem rand none commitment = (invalid_parameter, none)
  get_shares_commitment mem rand (some s) commitment =
      commit_to mem rand (take s.num_shares s.proofs) commitment

  pub get_polynom_commitment :
      (ℕ → Bool) → Option Bytes → Ptr Sharing → Bool → VssStatus × Option Commitment
  unfolding commit_to
  get_polynom_commitment mem rand none commitment = (invalid_parameter, none)
  get_polynom_commitment mem rand (some s) commitment =
      commit_to mem rand (take s.threshold s.coefficient_proofs) commitment

  pub verify_proofs_commitment : Ptr (List Bytes) → ℕ → Ptr Commitment → VssStatus
  unfolding from_commitments_status
  verify_proofs_commitment none proofs_count commitment =
      from_commitments_status (verify_commitment sha none commitment)
  verify_proofs_commitment (some proofs) proofs_count commitment =
      from_commitments_status
        (verify_commitment sha (some (array_bytes (take proofs_count proofs))) commitment)

  verify-take :
      (proofs : List Bytes) (count : ℕ) (c : Commitment)
      → verify_proofs_commitment (some (take count proofs)) count (some c)
        ≡ verify_proofs_commitment (some proofs) count (some c)
  unfolding verify_proofs_commitment
  verify-take proofs count c = rw (take_twice count proofs) refl

  module _ (laws : IsSha256 sha) (mem : ℕ → Bool) (works : (k : ℕ) → mem k ≡ true) where
    commit-verify :
        (salt : Bytes) (proofs : List Bytes) (count : ℕ)
        → 0 < length (array_bytes (take count proofs))
        → (c : Commitment) × (commit_to mem (some salt) (take count proofs) true
            ≡ (success, some c))
          × (verify_proofs_commitment (some proofs) count (some c) ≡ success)
    unfolding commit_to verify_proofs_commitment from_commitments_status
    commit-verify salt proofs count pos =
        let (c, created, accepted) =
          create-verify sha laws salt (array_bytes (take count proofs)) pos in
        (c, rw (works 0, created) refl, rw accepted refl)

    -- When no allocation fails, the commitments to the proofs of the shares and of the coefficients
    -- are made, when there is a proof. The first is accepted with the proofs that
    -- `get_share_and_proof` reads at all indexes in order, of a sharing with a proof for each
    -- share; the second with those that `get_polynom_proofs` reads, for a count that is large
    -- enough.
    pub get_commitment-verify :
        (salt : Bytes) (s : Sharing) (proofs : List Bytes) (count : ℕ)
        → length s.proofs ≡ s.num_shares
        → length proofs ≡ s.num_shares
        → AreProofs s 0 proofs
        → s.threshold ≤ count
        → 0 < length (array_bytes proofs)
        → 0 < length (array_bytes (take s.threshold s.coefficient_proofs))
        → ((c : Commitment) × (get_shares_commitment mem (some salt) (some s) true
              ≡ (success, some c))
            × (verify_proofs_commitment (some proofs) s.num_shares (some c) ≡ success))
          × ((c : Commitment) × (read : List Bytes) × (get_polynom_commitment mem
                  (some salt)
                  (some s)
                  true
                ≡ (success, some c))
              × (get_polynom_proofs (some s) true count ≡ ok read)
              × (verify_proofs_commitment (some read) s.threshold (some c) ≡ success))
    unfolding get_shares_commitment get_polynom_commitment get_polynom_proofs
    get_commitment-verify salt s proofs count enough all given fits pos pos' =
        let same : proofs ≡ s.proofs =
          AreProofs-eq-drop s 0 proofs given (omega (arith, enough, all)) in
        let whole : take s.num_shares s.proofs ≡ s.proofs =
          take_whole s.proofs s.num_shares (omega (arith, enough)) in
        let (c, made, accepted) =
          commit-verify salt s.proofs s.num_shares
            (subst (λ ps. 0 < length (array_bytes ps)) (same ∙ sym whole) pos) in
        let (c', made', accepted') = commit-verify salt s.coefficient_proofs s.threshold pos' in
        (
          (
            c,
            made,
            ap (λ ps. verify_proofs_commitment (some ps) s.num_shares (some c)) same ∙ accepted,
          ),
          (
            c',
            take s.threshold s.coefficient_proofs,
            made',
            rw (le→leb _ _ fits) refl,
            verify-take s.coefficient_proofs s.threshold c' ∙ accepted',
          ),
        )
