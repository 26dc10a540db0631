-- ===== src/RingPedersen/Commitments/Batch/Weights.antt =====
-- About the two calls of ring_pedersen.c that verify a batch of commitments.
use native.Mathlib.Nat.{mod-eq_of_lt, mod-lt, pow-zero}
use mpc_lib_demo.RingPedersen.Commitments.Batch.{
  Item, Totals, batch_bytes_loop, batch_loop, bytes_item, compare_totals, entry_of, fold_item,
  items_of, number_item, read_item, verify_batch_commitments, verify_batch_commitments_internal,
}
use mpc_lib_demo.RingPedersen.Commitments.Opening.{opening_exponent_value}
use mpc_lib_demo.RingPedersen.Scheme.{IsKey, exponents}
use mpc_lib_demo.RingPedersen.{PrivateKey, PublicKey, success}
use mpc_lib_demo.OpenSsl.{IsOpenSsl, OpenSsl, big_endian}
use mpc_lib_demo.Base.Powers.{pow-add, pow-mul}
use mpc_lib_demo.Base.{
  ==_iff, ==_refl, All, Bool, Bytes, Cong, Cong-mod, Cong-mul, Cong-of_eq, Cong-pow, Cong-symm,
  Cong-trans, List, [], ap, arith, false, is_empty, length, map, mod-eq_of_Cong, ok, refl, some,
  true, ℕ, ◌%◌, ◌*◌, ◌+◌, ◌<◌, ◌^◌, ◌∙◌, ◌∷◌, ◌≡◌, ◌≤◌,
}

-- The entry's commitment commits to its number, modulo the modulus.
abbrev pub IsRight : PublicKey → Item ℕ → Type 0
IsRight key item = Cong key.n item.commitment (key.s ^ item.x * key.t ^ item.r)

-- The numbers of an entry in bytes
abbrev pub numbers : Item Bytes → Item ℕ
numbers item = record {
  x = big_endian 0 item.x;
  r = big_endian 0 item.r;
  commitment = big_endian 0 item.commitment;
}

is_empty-map : {A : Type 0} (items : List (Item A)) → is_empty (map entry_of items) ≡ is_empty items
is_empty-map [] = refl
is_empty-map (item ∷ items) = refl

module _ (o : OpenSsl) (laws : IsOpenSsl o) (key : PrivateKey) (is_key : IsKey key) where
  abbrev n : ℕ
  n = key.public.n

  abbrev t : ℕ
  t = key.public.t

  -- Both sides of the last comparison agree so far.
  record IsBalanced (totals : Totals) : Type 0 where
    pub balance : Cong n (t ^ totals.t_exp) totals.product
    pub reduced : totals.product < n

  fold_item-IsBalanced :
      (gamma : ℕ) (item : Item ℕ) (totals : Totals)
      → IsRight key.public item
      → IsBalanced totals
      → (totals' : Totals) × (fold_item o key gamma item totals ≡ ok totals') × IsBalanced totals'
  unfolding fold_item
  fold_item-IsBalanced gamma item totals right h =
      let (e, found, value) = opening_exponent_value o laws key is_key item.x item.r in
      let power : ℕ = item.commitment ^ gamma % n in
      let n_pos : 0 < n = omega (arith, is_key.big) in
      (
        record { t_exp = totals.t_exp + e * gamma; product = (totals.product * power) % n },
        rw
            (
              found,
              laws.mul_word e gamma,
              laws.add totals.t_exp (e * gamma),
              laws.set_word gamma,
              laws.mod_exp_mont item.commitment gamma n is_key.odd,
              laws.mod_mul totals.product power n n_pos,
            )
            refl,
        record {
          balance =
              Cong-trans
                (Cong-of_eq (
                  pow-add t totals.t_exp (e * gamma)
                  ∙ ap (λ p. t ^ totals.t_exp * p) (pow-mul t e gamma)))
                (Cong-trans
                  (Cong-mul h.balance (
                    Cong-trans (Cong-pow gamma (Cong-trans value (Cong-symm right)))
                      (Cong-symm (Cong-mod n (item.commitment ^ gamma)))))
                  (Cong-symm (Cong-mod n (totals.product * power))));
          reduced = mod-lt (totals.product * power) n_pos;
        },
      )

  start-IsBalanced : IsBalanced (record { t_exp = 0; product = 1 })
  start-IsBalanced = record { balance = Cong-of_eq (pow-zero t); reduced = is_key.big }

  compare_totals-true :
      (totals : Totals) → IsBalanced totals → compare_totals o key totals ≡ ok true
  unfolding compare_totals
  compare_totals-true totals h =
      let e : ℕ = totals.t_exp % key.phi_n in
      let same : t ^ e % n ≡ totals.product =
        mod-eq_of_Cong n (t ^ e) totals.product
          (Cong-trans (exponents key is_key (Cong-mod key.phi_n totals.t_exp)) h.balance)
        ∙ mod-eq_of_lt h.reduced in
      rw
        (
          laws.mod_ totals.t_exp key.phi_n is_key.phi_pos,
          laws.mod_exp_mont t e n is_key.odd,
          same,
          ==_refl totals.product,
        )
        refl

  batch_loop-IsBalanced :
      (tape : List ℕ) (items : List (Item ℕ)) (totals : Totals)
      → All (IsRight key.public) items
      → length items ≤ length tape
      → IsBalanced totals
      → (totals' : Totals) × (batch_loop o key tape items totals ≡ ok totals') × IsBalanced totals'
  unfolding batch_loop
  batch_loop-IsBalanced tape [] totals right enough h = (totals, refl, h)
  batch_loop-IsBalanced [] (item ∷ items) totals right enough h = absurd (omega arith)
  batch_loop-IsBalanced (gamma ∷ tape) (item ∷ items) totals right enough h =
      let (next, folded, h') = fold_item-IsBalanced (gamma % 2 ^ 40) item totals right.0 h in
      let (end, rest, h'') = batch_loop-IsBalanced tape items next right.1 (omega arith) h' in
      (end, rw folded rest, h'')

  batch_bytes_loop-IsBalanced :
      (tape : List ℕ) (items : List (Item Bytes)) (totals : Totals)
      → All (λ item. IsRight key.public (numbers item)) items
      → length items ≤ length tape
      → IsBalanced totals
      → (totals' : Totals) × (batch_bytes_loop o key tape items totals ≡ ok totals')
        × IsBalanced totals'
  unfolding batch_bytes_loop read_item
  batch_bytes_loop-IsBalanced tape [] totals right enough h = (totals, refl, h)
  batch_bytes_loop-IsBalanced [] (item ∷ items) totals right enough h = absurd (omega arith)
  batch_bytes_loop-IsBalanced (gamma ∷ tape) (item ∷ items) totals right enough h =
      let (next, folded, h') =
        fold_item-IsBalanced (gamma % 2 ^ 64) (numbers item) totals right.0 h in
      let (end, rest, h'') = batch_bytes_loop-IsBalanced tape items next right.1 (omega arith) h' in
      (
        end,
        rw (laws.bin2bn item.x, laws.bin2bn item.r, laws.bin2bn item.commitment, folded) rest,
        h'',
      )

  -- What the first loop lets through: numbers that are not empty, a commitment as long as the
  -- modulus, and it commits to them.
  pub record IsOpened (item : Item Bytes) : Type 0 where
    pub some_x : is_empty item.x ≡ false
    pub some_r : is_empty item.r ≡ false
    pub some_c : is_empty item.commitment ≡ false
    pub fits : length item.commitment ≡ o.bn_num_bytes n
    pub right : IsRight key.public (numbers item)

  items_of-numbers :
      (items : List (Item ℕ)) → items_of number_item (map entry_of items) ≡ some items
  unfolding items_of number_item
  items_of-numbers [] = refl
  items_of-numbers (item ∷ items) = rw (items_of-numbers items) refl

  bytes_item-opened :
      (item : Item Bytes)
      → IsOpened item
      → bytes_item (o.bn_num_bytes n) (some item.x) (some item.r) (some item.commitment) ≡ some item
  unfolding bytes_item
  bytes_item-opened item h = rw (h.some_x, h.some_r, h.some_c, (==_iff _ _).1 h.fits) refl

  items_of-bytes :
      (items : List (Item Bytes))
      → All IsOpened items
      → items_of (bytes_item (o.bn_num_bytes n)) (map entry_of items) ≡ some items
  unfolding items_of
  items_of-bytes [] h = refl
  items_of-bytes (item ∷ items) h =
      rw (items_of, bytes_item-opened item h.0, items_of-bytes items h.1) refl

  All-IsRight :
      (items : List (Item Bytes))
      → All IsOpened items
      → All (λ item. IsRight key.public (numbers item)) items
  All-IsRight [] h = tt
  All-IsRight (item ∷ items) h = (h.0.right, All-IsRight items h.1)

  module _ (mem : ℕ → Bool) (works : (k : ℕ) → mem k ≡ true) (tape : List ℕ) where
    -- When no allocation fails and there are enough random words, whatever they are, a batch is
    -- accepted that is not empty and whose commitments all commit to their numbers: in bytes, and as
    -- numbers.
    pub verify_batch_commitments-success :
        (items : List (Item Bytes)) (given : List (Item ℕ))
        → is_empty items ≡ false
        → is_empty given ≡ false
        → All IsOpened items
        → All (IsRight key.public) given
        → length items ≤ length tape
        → length given ≤ length tape
        → (verify_batch_commitments o mem tape (some key) (some (map entry_of items)) ≡ success)
          × (verify_batch_commitments_internal o mem tape
                (some key)
                (some (map entry_of given))
                true
              ≡ success)
    unfolding verify_batch_commitments verify_batch_commitments_internal
    verify_batch_commitments-success items given some_items some_given opened right enough enough' =
        let start : Totals = record { t_exp = 0; product = 1 } in
        let (end, done, h) =
          batch_bytes_loop-IsBalanced tape items start (All-IsRight items opened) enough
            start-IsBalanced in
        let (end', done', h') =
          batch_loop-IsBalanced tape given start right enough' start-IsBalanced in
        (
          rw
              (
                is_empty-map items,
                some_items,
                items_of-bytes items opened,
                works 0,
                works 1,
                works 2,
                works 3,
                works 4,
                done,
                compare_totals-true end h,
              )
              refl,
          rw
              (
                is_empty-map given,
                some_given,
                items_of-numbers given,
                works 0,
                works 1,
                works 2,
                works 3,
                done',
                compare_totals-true end' h',
              )
              refl,
        )
