-- ===== src/RingPedersen/Parameters/Rounds.antt =====
-- About the two loops over the rounds of a proof in ring_pedersen.c, and the challenge's seed.
use native.Mathlib.Nat.{mod-lt}
use mpc_lib_demo.Drng
use mpc_lib_demo.RingPedersen.Parameters.{
  Round, check_rounds, draw_rounds, hash_padded, respond, rounds_work, zkp_seed,
}
use mpc_lib_demo.RingPedersen.Scheme.{IsKey, exponents}
use mpc_lib_demo.RingPedersen.{PrivateKey, PublicKey}
use mpc_lib_demo.Drng.{Drng, drng_read_deterministic_rand, overlaps}
use mpc_lib_demo.Drng.Stream.{IsValid, stream}
use mpc_lib_demo.Drng.Stream.Reads.{read-eq-stream, stream-IsValid}
use mpc_lib_demo.Commitments.{IsSha256, Sha256}
use mpc_lib_demo.OpenSsl.{IsOpenSsl, OpenSsl}
use mpc_lib_demo.Base.Powers.{pow-add}
use mpc_lib_demo.Base.{
  ==_refl, All, Bool, Bool-cases, Bytes, Cong-mod, Cong-mul, Cong-of_eq, Cong-symm, Cong-trans,
  List, [], ap, arith, false, get_or, inl, inr, length, map, mod-eq_of_Cong, refl, set, some, suc,
  sym, true, zero, ℕ, ◌%◌, ◌*◌, ◌+◌, ◌<◌, ◌==◌, ◌^◌, ◌∷◌, ◌≡◌, ◌≤◌,
}

-- The nonce `z` is reduced, and `a` is its power of `t`.
pub record IsHonest (key : PrivateKey) (round : Round) : Type 0 where
  pub reduced : round.z < key.phi_n
  pub power : round.a ≡ key.public.t ^ round.z % key.public.n

pub record IsReduced (key : PrivateKey) (round : Round) : Type 0 where
  pub a_lt : round.a < key.public.n
  pub z_lt : round.z < key.phi_n

-- The allocations from `k` on are enough for the rounds.
pub rounds_work-true :
    (mem : ℕ → Bool) (k count : ℕ)
    → ((j : ℕ) → k ≤ j → j < k + 2 * count → mem j ≡ true)
    → rounds_work mem k count ≡ true
unfolding rounds_work
rounds_work-true mem k zero works = refl
rounds_work-true mem k (suc count) works =
    rw
      (
        works k (omega arith) (omega arith),
        works (k + 1) (omega arith) (omega arith),
        rounds_work-true mem (k + 2) count (λ j h h'. works j (omega arith) (omega arith)),
      )
      refl

module _ (o : OpenSsl) (laws : IsOpenSsl o) (key : PrivateKey) (is_key : IsKey key) where
  abbrev n : ℕ
  n = key.public.n

  abbrev t : ℕ
  t = key.public.t

  n_pos : 0 < n
  n_pos = omega (arith, is_key.big)

  pub draw_rounds-IsHonest :
      (count : ℕ) (tape : List ℕ)
      → All (λ z. z < key.phi_n) tape
      → count ≤ length tape
      → (rounds : List Round) × (draw_rounds o key count tape ≡ some rounds)
        × All (IsHonest key) rounds
        × (length rounds ≡ count)
  unfolding draw_rounds
  draw_rounds-IsHonest zero tape small enough = ([], refl, tt, refl)
  draw_rounds-IsHonest (suc count) [] small enough = absurd (omega arith)
  draw_rounds-IsHonest (suc count) (z ∷ tape) small enough =
      let (rounds, drawn, honest, many) = draw_rounds-IsHonest count tape small.1 (omega arith) in
      (
        record { a = t ^ z % n; z = z } ∷ rounds,
        rw (laws.mod_exp_mont t z n is_key.odd, drawn) refl,
        (record { reduced = small.0; power = refl }, honest),
        ap suc many,
      )

  module _ (sha512 : Bytes → Bytes)
      (digest_length : (message : Bytes) → length (sha512 message) ≡ 64) (rng_at e_at : ℕ)
      (apart : overlaps rng_at e_at 1 ≡ false) (lamda_lt : key.lamda < key.phi_n) where
    pub respond-check_rounds :
        (g : Drng) (rounds : List Round)
        → IsValid g
        → All (IsHonest key) rounds
        → (answers : List Round) × (respond o sha512 rng_at e_at key g rounds ≡ some answers)
          × (map (λ round. round.a) answers ≡ map (λ round. round.a) rounds)
          × All (IsReduced key) answers
          × (length answers ≡ length rounds)
          × (check_rounds o sha512 rng_at e_at key.public g answers ≡ true)
    unfolding respond check_rounds
    respond-check_rounds g [] v honest = ([], refl, refl, tt, refl, refl)
    respond-check_rounds g (round ∷ rounds) v honest =
        let read : drng_read_deterministic_rand sha512 (some g) rng_at (some e_at) 1
            ≡ (Drng.success, some (stream sha512 1 g)) =
          read-eq-stream sha512 digest_length g rng_at e_at 1 v (omega arith) apart in
        let e : Bytes = (stream sha512 1 g).0 in
        let (answers, made, same, reduced, many, checked) =
          respond-check_rounds (stream sha512 1 g).1 rounds
            (stream-IsValid sha512 digest_length 1 g v).0 honest.1 in
        let a_lt : round.a < n = rw honest.0.power (mod-lt (t ^ round.z) n_pos) in
        elim (Bool-cases (get_or e 0 0 % 2 == 1)) [
          | inl set ↦
              let z' : ℕ = (round.z + key.lamda) % key.phi_n in
              let right : t ^ z' % n ≡ (round.a * key.public.s) % n =
                mod-eq_of_Cong n (t ^ z') (round.a * key.public.s) (
                  Cong-trans (exponents key is_key (Cong-mod key.phi_n (round.z + key.lamda))) (
                    Cong-trans (Cong-of_eq (pow-add t round.z key.lamda)) (
                      Cong-mul
                        (Cong-trans (Cong-symm (Cong-mod n (t ^ round.z)))
                          (Cong-of_eq (sym honest.0.power)))
                        (Cong-symm is_key.generator)))) in
              (
                record { a = round.a; z = z' } ∷ answers,
                rw
                    (
                      respond,
                      read,
                      set,
                      laws.mod_add_quick round.z key.lamda key.phi_n honest.0.reduced lamda_lt,
                      made,
                    )
                    refl,
                ap (λ (xs : List ℕ). round.a ∷ xs) same,
                (
                  record { a_lt = a_lt; z_lt = mod-lt (round.z + key.lamda) is_key.phi_pos },
                  reduced,
                ),
                ap suc many,
                rw
                    (
                      check_rounds,
                      read,
                      set,
                      laws.mod_exp_mont t z' n is_key.odd,
                      laws.mod_mul round.a key.public.s n n_pos,
                      right,
                      ==_refl ((round.a * key.public.s) % n),
                      checked,
                    )
                    refl,
              )
          | inr clear ↦ (
            record { a = round.a; z = round.z } ∷ answers,
            rw (respond, read, clear, made) refl,
            ap (λ (xs : List ℕ). round.a ∷ xs) same,
            (record { a_lt = a_lt; z_lt = honest.0.reduced }, reduced),
            ap suc many,
            rw
                (
                  check_rounds,
                  read,
                  clear,
                  laws.mod_exp_mont t round.z n is_key.odd,
                  sym honest.0.power,
                  ==_refl round.a,
                  checked,
                )
                refl,
          )
        ]

module _ (o : OpenSsl) (laws : IsOpenSsl o) (sha : Sha256) where
  hash_padded-finds :
      (size : ℕ) (ctx : sha.Ctx) (numbers : List ℕ)
      → All (λ a. a < 256 ^ size) numbers
      → (end : sha.Ctx) × (hash_padded o sha size ctx numbers ≡ some end)
  unfolding hash_padded
  hash_padded-finds size ctx [] small = (ctx, refl)
  hash_padded-finds size ctx (a ∷ numbers) small =
      let (bytes, padded, count, value) = laws.bn2binpad a size small.0 in
      let (end, done) = hash_padded-finds size (sha.update ctx bytes) numbers small.1 in
      (end, rw (hash_padded, padded) done)

  -- The seed of the challenge is found, and has the length of a digest.
  pub zkp_seed-finds :
      (is_sha : IsSha256 sha) (key : PublicKey) (a : List ℕ) (aad : Bytes)
      → key.s ≤ key.n
      → key.t ≤ key.n
      → All (λ x. x < 256 ^ o.bn_num_bytes key.n) a
      → (seed : Bytes) × (zkp_seed o sha true key a aad ≡ some seed) × (length seed ≡ 32)
  unfolding zkp_seed
  zkp_seed-finds is_sha key a aad s_le t_le small =
      let size : ℕ = o.bn_num_bytes key.n in
      let n_small : key.n < 256 ^ size = laws.lt-num_bytes key.n in
      let (end, done) =
        hash_padded-finds size (sha.update sha.init aad) (key.n ∷ key.s ∷ key.t ∷ a)
          (n_small, (omega (arith, n_small), (omega (arith, n_small), small))) in
      (sha.final end, rw done refl, is_sha.length-final end)
