-- ===== src/RingPedersen/Parameters.antt =====
-- The parts of the proof in ring_pedersen.c that the parameters of a key are well made: `s` is a
-- power of `t`.
pub mod Rounds
pub mod Encoding
pub mod Zkp
use mathlib.Core.Option
use mpc_lib_demo.Base.Options.{◌>>=◌}
use mpc_lib_demo.Commitments.{Sha256}
use mpc_lib_demo.Drng.{Drng, drng_read_deterministic_rand}
use mpc_lib_demo.Buffer.{little_endian, u32_bytes}
use mpc_lib_demo.OpenSsl.{OpenSsl}
use mpc_lib_demo.RingPedersen.{PrivateKey, PublicKey}
use mpc_lib_demo.Base.{
  Bool, Bytes, List, Option, [], drop, false, get_or, if◌then◌else◌, ltb, none, not, some, suc,
  take, true, zero, ℕ, ◌%◌, ◌&&◌, ◌*◌, ◌++◌, ◌+◌, ◌==◌, ◌||◌, ◌∷◌,
}

-- RING_PEDERSEN_STATISTICAL_SECURITY
abbrev pub security : ℕ
security = 80

-- One place of `ring_pedersen_param_proof_t`; `a` is its field `A`.
pub record Round : Type 0 where
  pub a : ℕ
  pub z : ℕ

-- Two numbers are allocated for each of `count` rounds, from the k-th allocation on.
pub rounds_work : (ℕ → Bool) → ℕ → ℕ → Bool
rounds_work mem k zero = true
rounds_work mem k (suc count) = mem k && mem (k + 1) && rounds_work mem (k + 2) count

-- Hashed one after the other, each in `size` bytes.
pub hash_padded : (o : OpenSsl) (sha : Sha256) → ℕ → sha.Ctx → List ℕ → Option sha.Ctx
hash_padded o sha size ctx [] = some ctx
hash_padded o sha size ctx (a ∷ numbers) = elim (o.bn_bn2binpad a size) [
  | none ↦ none
  | some bytes ↦ hash_padded o sha size (sha.update ctx bytes) numbers
]

-- `malloc_works` is for the buffer of the numbers.
pub zkp_seed : (o : OpenSsl) (sha : Sha256) → Bool → PublicKey → List ℕ → Bytes → Option Bytes
unfolding hash_padded
zkp_seed o sha malloc_works key a aad =
    if malloc_works
    then Option.map sha.final (
        hash_padded o sha (o.bn_num_bytes key.n) (sha.update sha.init aad)
          (key.n ∷ key.s ∷ key.t ∷ a))
    else none

module _ (o : OpenSsl) where
  -- A product of ints, which fits their width for moduli of less than 13 MB; it has no width here.
  unfoldable pub serialized_size : PublicKey → ℕ
  serialized_size key = 8 + o.bn_num_bytes key.n * 2 * security

  -- `BN_bn2binpad` whose failure is not looked at: what stood in the buffer stays.
  pub write_padded : ℕ → ℕ → Bytes → Bytes
  write_padded len a old = elim (o.bn_bn2binpad a len) [ none ↦ take len old | some bytes ↦ bytes ]

  pub write_rounds : ℕ → List Round → Bytes → Bytes
  unfolding write_padded
  write_rounds len [] old = []
  write_rounds len (round ∷ rounds) old =
      write_padded len round.a old
      ++ (write_padded len round.z (drop len old)
          ++ write_rounds len rounds (drop len (drop len old)))

  -- `old` is what the buffer held.
  pub serialize : ℕ → List Round → Bytes → Bytes
  unfolding write_rounds
  serialize n_len rounds old =
      u32_bytes n_len ++ (u32_bytes security ++ write_rounds n_len rounds (drop 8 old))

  pub read_rounds : ℕ → ℕ → Bytes → Option (List Round)
  read_rounds len zero bytes = some []
  read_rounds len (suc count) bytes = do
    a ← o.bn_bin2bn (take len bytes)
    z ← o.bn_bin2bn (take len (drop len bytes))
    rounds ← read_rounds len count (drop len (drop len bytes))
    some (record { a = a; z = z } ∷ rounds)

  pub deserialize : ℕ → Bytes → Option (List Round)
  unfolding read_rounds
  deserialize n_len bytes =
      if not (n_len == little_endian (take 4 bytes))
        || ltb (little_endian (take 4 (drop 4 bytes))) security
      then none
      else read_rounds n_len security (drop 4 (drop 4 bytes))

  -- The first loop of the prover: `z` is random, and `a` is its power of `t`. The draws are the
  -- list, whose end is a failure of the generator.
  pub draw_rounds : PrivateKey → ℕ → List ℕ → Option (List Round)
  draw_rounds key zero tape = some []
  draw_rounds key (suc count) [] = none
  draw_rounds key (suc count) (z ∷ tape) = do
    a ← o.bn_mod_exp_mont key.public.t z key.public.n
    rounds ← draw_rounds key count tape
    some (record { a = a; z = z } ∷ rounds)

  module _ (sha512 : Bytes → Bytes) (rng_at e_at : ℕ) where
    -- The second loop: `lamda` is added to `z` where the bit of the challenge is set.
    pub respond : PrivateKey → Drng → List Round → Option (List Round)
    respond key rng [] = some []
    respond key rng (round ∷ rounds) =
        elim (drng_read_deterministic_rand sha512 (some rng) rng_at (some e_at) 1).1 [
          | none ↦ none
          | some (e, next) ↦ do
            z ←
                if get_or e 0 0 % 2 == 1
                then o.bn_mod_add_quick round.z key.lamda key.phi_n
                else some round.z
            rest ← respond key next rounds
            some (record { a = round.a; z = z } ∷ rest)
        ]

    -- The loop of the verifier; any failure is a refusal.
    pub check_rounds : PublicKey → Drng → List Round → Bool
    check_rounds key rng [] = true
    check_rounds key rng (round ∷ rounds) =
        elim (drng_read_deterministic_rand sha512 (some rng) rng_at (some e_at) 1).1 [
          | none ↦ false
          | some (e, next) ↦
              let rest = check_rounds key next rounds in
              elim (do
                t_pow_z ← o.bn_mod_exp_mont key.t round.z key.n
                a ← if get_or e 0 0 % 2 == 1 then o.bn_mod_mul round.a key.s key.n else some round.a
                some (t_pow_z == a)) [ none ↦ false | some equal ↦ if equal then rest else false ]
        ]
