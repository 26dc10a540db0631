-- ===== src/RingPedersen/Commitments/Opening.antt =====
-- About the creation and the verification of commitments in ring_pedersen.c.
use native.Mathlib.Decide.{dec_lt}
use native.Mathlib.Nat.{mod-lt, pow-zero}
use mpc_lib_demo.RingPedersen.Scheme.{IsKey, commitment_of, exponents, opens}
use mpc_lib_demo.RingPedersen.Commitments.{
  create_commitment, opening_exponent, status_of, verify_commitment,
}
use mpc_lib_demo.RingPedersen.{PrivateKey, invalid_commitment, success}
use mpc_lib_demo.OpenSsl.{IsOpenSsl, OpenSsl, big_endian}
use mpc_lib_demo.Base.{
  ==_iff, ==_refl, Bool, Bytes, Cong, Cong-add, Cong-mod, Cong-mod_left, Cong-refl, Cong-trans, ap,
  arith, false, if◌then◌else◌, is_empty, is_empty-length, length, le→ltb, mod-eq_of_Cong, ok, refl,
  some, true, ℕ, ◌%◌, ◌*◌, ◌+◌, ◌<◌, ◌==◌, ◌^◌, ◌∙◌, ◌≡◌, ◌≤◌,
}

module _ (o : OpenSsl) (laws : IsOpenSsl o) (key : PrivateKey) (is_key : IsKey key) where
  abbrev n : ℕ
  n = key.public.n

  -- The exponent is found, and opens the commitment.
  pub opening_exponent_value :
      (x r : ℕ)
      → (e : ℕ) × (opening_exponent o key x r ≡ ok e)
        × Cong n (key.public.t ^ e) (key.public.s ^ x * key.public.t ^ r)
  unfolding opening_exponent
  opening_exponent_value x r =
      let product : ℕ = (key.lamda * x) % key.phi_n in
      (
        (product + r) % key.phi_n,
        rw
            (
              laws.mod_mul key.lamda x key.phi_n is_key.phi_pos,
              laws.mod_add product r key.phi_n is_key.phi_pos,
            )
            refl,
        Cong-trans
            (exponents key is_key
              (Cong-mod_left (Cong-add (Cong-mod key.phi_n (key.lamda * x)) (Cong-refl r))))
            (opens key is_key x r),
      )

  answer_of : (b : Bool) → status_of (ok b) ≡ (if b then success else invalid_commitment)
  unfolding status_of
  answer_of true = refl
  answer_of false = refl

  module _ (mem : ℕ → Bool) (works : (k : ℕ) → mem k ≡ true) (x r : Bytes)
      (some_x : is_empty x ≡ false) (some_r : is_empty r ≡ false) where
    -- When no allocation fails, a commitment as long as the modulus is accepted for numbers that are
    -- not empty exactly when it is the number that commits to them.
    pub verify_commitment_iff :
        (commitment : Bytes)
        → is_empty commitment ≡ false
        → length commitment ≡ o.bn_num_bytes n
        → verify_commitment o mem (some key) (some x) (some r) (some commitment) ≡ (
            if commitment_of key.public (big_endian 0 x) (big_endian 0 r) == big_endian 0 commitment
            then success
            else invalid_commitment)
    unfolding verify_commitment
    verify_commitment_iff commitment some_c fits =
        let (e, found, value) = opening_exponent_value (big_endian 0 x) (big_endian 0 r) in
        rw
          (
            some_x,
            some_r,
            some_c,
            (==_iff _ _).1 fits,
            works 0,
            works 1,
            works 2,
            works 3,
            works 4,
            laws.bin2bn x,
            laws.bin2bn r,
            laws.bin2bn commitment,
            found,
            laws.mod_exp_mont key.public.t e n is_key.odd,
            mod-eq_of_Cong n _ _ value,
          )
          (answer_of _)

    -- The modulus is longer than no byte.
    n_bytes_pos : 0 < o.bn_num_bytes n
    n_bytes_pos = elim (dec_lt 0 (o.bn_num_bytes n)) [
      | yes pos ↦ pos
      | no none_left ↦
          let z : o.bn_num_bytes n ≡ 0 = omega (arith, none_left) in
          absurd (
            omega (arith, is_key.big, laws.lt-num_bytes n, ap (λ (k : ℕ). 256 ^ k) z, pow-zero 256))
    ]

    -- When no allocation fails and the buffer is long enough, a commitment to numbers that are not
    -- empty is made, as long as the modulus, and it is accepted for them.
    pub create-verify_commitment :
        (commitment_len : ℕ)
        → o.bn_num_bytes n ≤ commitment_len
        → (commitment : Bytes) × (create_commitment o mem
              (some key.public)
              (some x)
              (some r)
              true
              commitment_len
            ≡ record {
              status = success;
              real_len = some (length commitment);
              commitment = some commitment;
            })
          × (big_endian 0 commitment ≡ commitment_of key.public (big_endian 0 x) (big_endian 0 r))
          × (verify_commitment o mem (some key) (some x) (some r) (some commitment) ≡ success)
    unfolding create_commitment
    create-verify_commitment commitment_len room =
        let c : ℕ = commitment_of key.public (big_endian 0 x) (big_endian 0 r) in
        let small : c < 256 ^ o.bn_num_bytes n = omega (
          arith,
          laws.lt-num_bytes n,
          mod-lt (key.public.s ^ big_endian 0 x * key.public.t ^ big_endian 0 r) {m = n}
              (omega (arith, is_key.big)),
        ) in
        let (bs, padded, count, value) = laws.bn2binpad c (o.bn_num_bytes n) small in
        (
          bs,
          rw
              (
                some_x,
                some_r,
                le→ltb commitment_len (o.bn_num_bytes n) room,
                works 0,
                works 1,
                works 2,
                works 3,
                laws.bin2bn x,
                laws.bin2bn r,
                laws.mod_exp2_mont key.public.s (big_endian 0 x) key.public.t (big_endian 0 r) n
                    is_key.odd,
                padded,
                count,
              )
              refl,
          value,
          verify_commitment_iff bs (is_empty-length bs (omega (arith, count, n_bytes_pos))) count
              ∙ rw (value, ==_refl c) refl,
        )
