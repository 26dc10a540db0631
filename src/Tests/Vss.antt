-- ===== src/Tests/Vss.antt =====
-- Runs of verifiable_secret_sharing.c modulo 7.
use mpc_lib_demo.Algebra
use mpc_lib_demo.Vss.{Share, Sharing, success, unknown_error}
use mpc_lib_demo.Vss.Verify.{verify_share}
use mpc_lib_demo.Vss.Verify.Shares.{verify_share-eval}
use mpc_lib_demo.Vss.Commit.{
  AreProofs, get_commitment-verify, get_polynom_commitment, get_shares_commitment,
  verify_proofs_commitment,
}
use mpc_lib_demo.Tests.Commitments.{salt, sha, sha_laws}
use mpc_lib_demo.Commitments.{Commitment}
use mpc_lib_demo.OpenSsl.{big_endian}
use mpc_lib_demo.OpenSsl.Reference.{reference, reference_laws}
use mpc_lib_demo.Tests.Field.{algebra_7, algebra_7-IsCurve, inverses_7, mem_works, point_7, works}
use mpc_lib_demo.Vss.Split.Callers.{split-IsSharingOf, split_with_custom_ids-IsSharingOf}
use mpc_lib_demo.Vss.Split.Values.{CanSplit, IsSharingOf}
use mpc_lib_demo.Vss.Reconstruct.{reconstruct}
use mpc_lib_demo.Vss.Reconstruct.Secret.{AreSharesOf, reconstruct-secret, reconstruct-zero}
use mpc_lib_demo.Vss.Access.{absent, draw, ids_ok, running_ids}
use mpc_lib_demo.Base.{
  Bytes, Cong-of_mod-eq, List, [], arith, length, map, none, ok, refl, some, true, ℕ, ◌∷◌, ◌≡◌,
}
use mpc_lib_demo.Vss.Split.{split, split_with_custom_ids}
use mpc_lib_demo.Vss.RoundTrip.{AreRead, split-reconstruct}
use mpc_lib_demo.Vss.Readers.{get_polynom_proofs, get_share, get_share_and_proof}

multiplies_7 : (b : Bytes) → (algebra_7.generator_mul b).0 ≡ Algebra.success
multiplies_7 b = refl

-- The zero that the generator draws is drawn again.
abbrev tape : List ℕ
tape = 0 ∷ 2 ∷ 5 ∷ []

abbrev secret : Bytes
secret = 3 ∷ []

abbrev owners : List ℕ
owners = 1 ∷ 4 ∷ 2 ∷ []

can_split : CanSplit algebra_7 7 mem_works tape (2 ∷ []) secret 1 3
unfolding draw
can_split = record {
  works = works;
  order = refl;
  in_range = (omega arith, (omega arith, (omega arith, tt)));
  drawn = refl;
  secret_given = refl;
  secret_reduced = omega arith;
  threshold_fits = omega arith;
}

owners_ok : ids_ok owners ≡ true
unfolding ids_ok absent
owners_ok = refl

chosen_ok : ids_ok (4 ∷ 2 ∷ []) ≡ true
unfolding ids_ok absent
chosen_ok = refl

-- Three of the polynomial 3 + 2 x at the ids 1, 4 and 2.
abbrev shares : List Share
shares =
    record { scalar = 5 ∷ []; id = 1 }
    ∷ record { scalar = 4 ∷ []; id = 4 }
    ∷ record { scalar = 0 ∷ []; id = 2 }
    ∷ []

shares-AreSharesOf :
    AreSharesOf reference reference_laws 7 (omega arith) inverses_7 (3 ∷ 2 ∷ []) shares
shares-AreSharesOf = record {
  accepted = owners_ok;
  reduced = (omega arith, (omega arith, (omega arith, tt)));
  values =
      (Cong-of_mod-eq 7 _ _ refl, (Cong-of_mod-eq 7 _ _ refl, (Cong-of_mod-eq 7 _ _ refl, tt)));
  enough = omega arith;
  some_share = omega arith;
  secret_reduced = omega arith;
}

-- Two of the polynomial 0 + 2 x at the ids 1 and 2.
abbrev zero_shares : List Share
zero_shares = record { scalar = 2 ∷ []; id = 1 } ∷ record { scalar = 4 ∷ []; id = 2 } ∷ []

zero_shares-AreSharesOf :
    AreSharesOf reference reference_laws 7 (omega arith) inverses_7 (0 ∷ 2 ∷ []) zero_shares
unfolding ids_ok absent
zero_shares-AreSharesOf = record {
  accepted = refl;
  reduced = (omega arith, (omega arith, tt));
  values = (Cong-of_mod-eq 7 _ _ refl, (Cong-of_mod-eq 7 _ _ refl, tt));
  enough = omega arith;
  some_share = omega arith;
  secret_reduced = omega arith;
}

reconstruct-secret_example :
    (bytes : Bytes) × (reconstruct reference mem_works (some algebra_7) (some shares) true 32
      ≡ record { status = success; out_secret_len = some (length bytes); secret = some bytes })
    × (big_endian 0 bytes ≡ 3)
reconstruct-secret_example =
    reconstruct-secret reference reference_laws 7 (omega arith) inverses_7 mem_works works algebra_7
      refl (3 ∷ 2 ∷ []) shares 32 shares-AreSharesOf (omega arith) (omega arith)

reconstruct-zero_example :
    reconstruct reference mem_works (some algebra_7) (some zero_shares) true 32
    ≡ record { status = unknown_error; out_secret_len = some 0; secret = none }
reconstruct-zero_example =
    reconstruct-zero reference reference_laws 7 (omega arith) inverses_7 mem_works works algebra_7
      refl (0 ∷ 2 ∷ []) zero_shares 32 zero_shares-AreSharesOf refl

split_with_custom_ids-IsSharingOf_example :
    (s : Sharing) × (split_with_custom_ids reference mem_works tape
        (some algebra_7)
        (some secret)
        2
        3
        (some owners)
        true
      ≡ ok s)
    × IsSharingOf 7 (3 ∷ 2 ∷ []) owners s
split_with_custom_ids-IsSharingOf_example =
    split_with_custom_ids-IsSharingOf reference reference_laws algebra_7 7 (omega arith)
      (omega arith) multiplies_7 mem_works tape (2 ∷ []) secret 1 3 owners can_split (omega arith)
      owners_ok

split-IsSharingOf_example :
    (s : Sharing) × (split reference mem_works tape (some algebra_7) (some secret) 2 3 true ≡ ok s)
    × IsSharingOf 7 (3 ∷ 2 ∷ []) (running_ids 1 3) s
split-IsSharingOf_example =
    split-IsSharingOf reference reference_laws algebra_7 7 (omega arith) (omega arith) multiplies_7
      mem_works tape (2 ∷ []) secret 1 3 can_split

split-reconstruct_example :
    (s : Sharing) × (split_with_custom_ids reference mem_works tape
        (some algebra_7)
        (some secret)
        2
        3
        (some owners)
        true
      ≡ ok s)
    × (chosen : List Share) × AreRead s (1 ∷ 2 ∷ []) chosen
    × (bytes : Bytes) × (reconstruct reference mem_works (some algebra_7) (some chosen) true 32
        ≡ record { status = success; out_secret_len = some (length bytes); secret = some bytes })
    × (big_endian 0 bytes ≡ 3)
split-reconstruct_example =
    split-reconstruct reference reference_laws algebra_7 7 (omega arith) (omega arith) inverses_7
      refl multiplies_7 mem_works tape (2 ∷ []) secret 1 3 owners (1 ∷ 2 ∷ []) 32 can_split
      (omega arith) owners_ok (omega arith, (omega arith, (omega arith, tt)))
      (omega arith, (omega arith, tt)) chosen_ok (omega arith) (omega arith) (omega arith)

-- The share 5 of 3 + 2 x at 1 is accepted.
verify_share-eval_example :
    verify_share reference mem_works
      (some algebra_7)
      1
      (some (point_7 5))
      2
      (some (map point_7 (3 ∷ 2 ∷ [])))
    ≡ success
verify_share-eval_example =
    verify_share-eval reference reference_laws algebra_7 7 (omega arith) (omega arith) point_7
      algebra_7-IsCurve mem_works 1 5 3 (2 ∷ []) works

abbrev sharing : Sharing
sharing = record {
  share_ids = some owners;
  shares = some ((5 ∷ []) ∷ (4 ∷ []) ∷ (0 ∷ []) ∷ []);
  proofs = (5 ∷ []) ∷ (4 ∷ []) ∷ (0 ∷ []) ∷ [];
  coefficient_proofs = (3 ∷ []) ∷ (2 ∷ []) ∷ [];
  num_shares = 3;
  threshold = 2;
}

abbrev read_proofs : List Bytes
read_proofs = (5 ∷ []) ∷ (4 ∷ []) ∷ (0 ∷ []) ∷ []

read_proofs-AreProofs : AreProofs sharing 0 read_proofs
unfolding get_share_and_proof get_share
read_proofs-AreProofs = ((_, refl), ((_, refl), ((_, refl), tt)))

get_commitment-verify_example :
    ((c : Commitment) × (get_shares_commitment sha mem_works (some salt) (some sharing) true
        ≡ (success, some c))
      × (verify_proofs_commitment sha (some read_proofs) 3 (some c) ≡ success))
    × ((c : Commitment) × (read : List Bytes) × (get_polynom_commitment sha mem_works
            (some salt)
            (some sharing)
            true
          ≡ (success, some c))
        × (get_polynom_proofs (some sharing) true 2 ≡ ok read)
        × (verify_proofs_commitment sha (some read) 2 (some c) ≡ success))
get_commitment-verify_example =
    get_commitment-verify sha sha_laws mem_works works salt sharing read_proofs 2 refl refl
      read_proofs-AreProofs (omega arith) (omega arith) (omega arith)
