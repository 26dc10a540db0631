-- ===== src/Vss/Readers.antt =====
-- The functions of verifiable_secret_sharing.c that read an initialised sharing.
pub mod Shares
use mpc_lib_demo.Base.{
  Bool, Bytes, List, Option, Ptr, Result, [], err, get_or, guard, leb, ltb, none, ok, or_fail, some,
  take, ℕ, ◌&&◌, ◌>>=◌, ◌>>◌,
}
use mpc_lib_demo.Vss.{Share, Sharing, VssStatus, invalid_index, invalid_parameter, unknown_error}

unfoldable pub get_share : Ptr Sharing → ℕ → Bool → Result VssStatus Share
get_share none index share = err invalid_parameter
get_share (some s) index share = do
  guard share invalid_parameter
  guard (ltb index s.num_shares) invalid_index
  shares ← or_fail s.shares unknown_error
  owners ← or_fail s.share_ids unknown_error
  ok (record { scalar = get_or shares index []; id = get_or owners index 0 })

pub get_share_id : Ptr Sharing → ℕ → Result VssStatus ℕ
get_share_id none index = err invalid_parameter
get_share_id (some s) index = do
  guard (ltb index s.num_shares) invalid_index
  shares ← or_fail s.shares unknown_error
  owners ← or_fail s.share_ids unknown_error
  ok (get_or owners index 0)

unfoldable pub get_share_and_proof :
    Ptr Sharing → ℕ → Bool → Bool → Result VssStatus (Share × Bytes)
get_share_and_proof none index share proof = err invalid_parameter
get_share_and_proof (some s) index share proof = do
  guard proof invalid_parameter
  found ← get_share (some s) index share
  ok (found, get_or s.proofs index [])

-- The `int` results, -1 as `none`.
pub get_number_of_players : Ptr Sharing → Option ℕ
get_number_of_players none = none
get_number_of_players (some s) = some s.num_shares

pub get_threshold : Ptr Sharing → Option ℕ
get_threshold none = none
get_threshold (some s) = some s.threshold

unfoldable pub get_polynom_proofs : Ptr Sharing → Bool → ℕ → Result VssStatus (List Bytes)
get_polynom_proofs none proofs proofs_count = err invalid_parameter
get_polynom_proofs (some s) proofs proofs_count = do
  guard (proofs && leb s.threshold proofs_count) invalid_parameter
  ok (take s.threshold s.coefficient_proofs)
