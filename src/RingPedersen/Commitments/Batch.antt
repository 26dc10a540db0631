-- ===== src/RingPedersen/Commitments/Batch.antt =====
-- The verification of many commitments at once in ring_pedersen.c.
pub mod Weights
use mathlib.Core.Option
use mpc_lib_demo.OpenSsl.{OpenSsl}
use mpc_lib_demo.RingPedersen.Commitments.{opening_exponent, status_of}
use mpc_lib_demo.RingPedersen.{
  PrivateKey, RingPedersenStatus, invalid_parameter, out_of_memory, unknown_error,
}
use mpc_lib_demo.Base.{
  Bool, Bytes, List, Option, Ptr, Result, [], err, guard, if◌then◌else◌, is_empty, length, none,
  not, ok, or_fail, some, true, ℕ, ◌%◌, ◌&&◌, ◌==◌, ◌>>=◌, ◌>>◌, ◌^◌, ◌||◌, ◌∷◌,
}

-- An entry of a batch: the three arrays of the call at one index. `A` is a number or bytes.
pub record Entry (A : Type 0) : Type 0 where
  pub x : Ptr A
  pub r : Ptr A
  pub commitment : Ptr A

-- An entry whose pointers are not null
pub record Item (A : Type 0) : Type 0 where
  pub x : A
  pub r : A
  pub commitment : A

-- The entry that an item comes from
abbrev pub entry_of : {A : Type 0} → Item A → Entry A
entry_of item = record { x = some item.x; r = some item.r; commitment = some item.commitment }

-- `!x[i] || !r[i] || !commitments[i]`
number_item : Ptr ℕ → Ptr ℕ → Ptr ℕ → Option (Item ℕ)
number_item (some x) (some r) (some commitment) =
    some (record { x = x; r = r; commitment = commitment })
number_item x r commitment = none

-- The same for bytes, which must not be empty; a commitment has `commitment_len` of them.
bytes_item : ℕ → Ptr Bytes → Ptr Bytes → Ptr Bytes → Option (Item Bytes)
bytes_item commitment_len (some x) (some r) (some commitment) =
    if is_empty x || is_empty r || is_empty commitment || not (length commitment == commitment_len)
    then none
    else some (record { x = x; r = r; commitment = commitment })
bytes_item commitment_len x r commitment = none

-- The first loop of both calls, which refuses the whole batch for one bad entry.
items_of :
    {A : Type 0}
    → (Ptr A → Ptr A → Ptr A → Option (Item A))
    → List (Entry A)
    → Option (List (Item A))
items_of check [] = some []
items_of check (entry ∷ entries) = elim (check entry.x entry.r entry.commitment) [
  | none ↦ none
  | some item ↦ Option.map (λ items. item ∷ items) (items_of check entries)
]

-- What the loop over a batch computes: the exponent of `t` and the product `B`.
pub record Totals : Type 0 where
  pub t_exp : ℕ
  pub product : ℕ

module _ (o : OpenSsl) where
  -- A round, with the random word `gamma`
  fold_item : PrivateKey → ℕ → Item ℕ → Totals → Result RingPedersenStatus Totals
  unfolding opening_exponent
  fold_item key gamma item totals = do
    exponent ← opening_exponent o key item.x item.r
    weighted ← or_fail (o.bn_mul_word exponent gamma) unknown_error
    t_exp ← or_fail (o.bn_add totals.t_exp weighted) unknown_error
    word ← or_fail (o.bn_set_word gamma) unknown_error
    power ← or_fail (o.bn_mod_exp_mont item.commitment word key.public.n) unknown_error
    product ← or_fail (o.bn_mod_mul totals.product power key.public.n) unknown_error
    ok (record { t_exp = t_exp; product = product })

  -- The random words are the list, whose end is a failure of the generator; 40 bits of each are used.
  batch_loop : PrivateKey → List ℕ → List (Item ℕ) → Totals → Result RingPedersenStatus Totals
  unfolding fold_item
  batch_loop key tape [] totals = ok totals
  batch_loop key [] (item ∷ items) totals = err unknown_error
  batch_loop key (gamma ∷ tape) (item ∷ items) totals = do
    totals' ← fold_item key (gamma % 2 ^ 40) item totals
    batch_loop key tape items totals'

  -- The comparison after the loop
  compare_totals : PrivateKey → Totals → Result RingPedersenStatus Bool
  compare_totals key totals = do
    exponent ← or_fail (o.bn_mod totals.t_exp key.phi_n) unknown_error
    power ← or_fail (o.bn_mod_exp_mont key.public.t exponent key.public.n) unknown_error
    ok (power == totals.product)

  pub verify_batch_commitments_internal :
      (ℕ → Bool) → List ℕ → Ptr PrivateKey → Ptr (List (Entry ℕ)) → Bool → RingPedersenStatus
  unfolding status_of items_of number_item batch_loop compare_totals
  verify_batch_commitments_internal mem tape (some key) (some entries) true = status_of (do
    guard (not (is_empty entries)) invalid_parameter
    items ← or_fail (items_of number_item entries) invalid_parameter
    guard (mem 0 && mem 1 && mem 2 && mem 3) out_of_memory
    totals ← batch_loop key tape items (record { t_exp = 0; product = 1 })
    compare_totals key totals)
  verify_batch_commitments_internal mem tape key entries ctx = invalid_parameter

  -- The numbers of an entry in bytes
  read_item : Item Bytes → Result RingPedersenStatus (Item ℕ)
  read_item item = do
    x ← or_fail (o.bn_bin2bn item.x) unknown_error
    r ← or_fail (o.bn_bin2bn item.r) unknown_error
    commitment ← or_fail (o.bn_bin2bn item.commitment) unknown_error
    ok (record { x = x; r = r; commitment = commitment })

  -- All 64 bits of the random words are used.
  batch_bytes_loop :
      PrivateKey → List ℕ → List (Item Bytes) → Totals → Result RingPedersenStatus Totals
  unfolding fold_item read_item
  batch_bytes_loop key tape [] totals = ok totals
  batch_bytes_loop key [] (bytes ∷ items) totals = err unknown_error
  batch_bytes_loop key (gamma ∷ tape) (bytes ∷ items) totals = do
    item ← read_item bytes
    totals' ← fold_item key (gamma % 2 ^ 64) item totals
    batch_bytes_loop key tape items totals'

  pub verify_batch_commitments :
      (ℕ → Bool) → List ℕ → Ptr PrivateKey → Ptr (List (Entry Bytes)) → RingPedersenStatus
  unfolding status_of items_of bytes_item batch_bytes_loop compare_totals
  verify_batch_commitments mem tape (some key) (some entries) = status_of (do
    guard (not (is_empty entries)) invalid_parameter
    items ← or_fail (items_of (bytes_item (o.bn_num_bytes key.public.n)) entries) invalid_parameter
    guard (mem 0) out_of_memory
    guard (mem 1 && mem 2 && mem 3 && mem 4) out_of_memory
    totals ← batch_bytes_loop key tape items (record { t_exp = 0; product = 1 })
    compare_totals key totals)
  verify_batch_commitments mem tape key entries = invalid_parameter
