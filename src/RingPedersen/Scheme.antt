-- ===== src/RingPedersen/Scheme.antt =====
-- The key of ring_pedersen.c as a scheme: what a commitment is, and which exponent opens it.
use mpc_lib_demo.RingPedersen.{PrivateKey, PublicKey}
use mpc_lib_demo.Base.Powers.{pow-add, pow-mul}
use mpc_lib_demo.Base.{
  Cong, Cong-mul, Cong-mul_right, Cong-of_eq, Cong-pow, Cong-symm, Cong-trans, ap, arith, suc, zero,
  ℕ, ◌%◌, ◌*◌, ◌+◌, ◌<◌, ◌^◌, ◌∙◌, ◌≡◌,
}

-- A key as `ring_pedersen_generate_key_pair` means it: the modulus is odd, `phi_n` is a multiple of
-- the order of `t`, and `s` is the power `lamda` of `t`.
pub record IsKey (key : PrivateKey) : Type 0 where
  pub odd : key.public.n % 2 ≡ 1
  pub big : 1 < key.public.n
  pub phi_pos : 0 < key.phi_n
  pub generator : Cong key.public.n key.public.s (key.public.t ^ key.lamda)
  pub order : Cong key.public.n (key.public.t ^ key.phi_n) 1

-- The number that commits to `x` with the randomness `r`
abbrev pub commitment_of : PublicKey → ℕ → ℕ → ℕ
commitment_of key x r = (key.s ^ x * key.t ^ r) % key.n

module _ (key : PrivateKey) (is_key : IsKey key) where
  abbrev n : ℕ
  n = key.public.n

  abbrev t : ℕ
  t = key.public.t

  whole_turns : (a u : ℕ) → Cong n (t ^ (a + u * key.phi_n)) (t ^ a)
  whole_turns a zero = Cong-of_eq (ap (λ i. t ^ i) {x = a + 0 * key.phi_n} {y = a} (omega arith))
  whole_turns a (suc u) =
      Cong-trans
        (Cong-of_eq (
          ap (λ i. t ^ i) {x = a + suc u * key.phi_n} {y = a + u * key.phi_n + key.phi_n}
            (omega arith)
          ∙ pow-add t (a + u * key.phi_n) key.phi_n))
        (Cong-trans (Cong-mul (whole_turns a u) is_key.order)
          (Cong-of_eq {a = t ^ a * 1} {b = t ^ a} (omega arith)))

  -- Exponents of `t` count modulo `phi_n`.
  pub exponents : {a b : ℕ} → Cong key.phi_n a b → Cong n (t ^ a) (t ^ b)
  exponents {a} {b} h =
      Cong-trans (Cong-symm (whole_turns a h.over_left))
        (Cong-trans (Cong-of_eq (ap (λ i. t ^ i) h.balance)) (whole_turns b h.over_right))

  -- The power of `t` that opens a commitment
  pub opens : (x r : ℕ) → Cong n (t ^ (key.lamda * x + r)) (key.public.s ^ x * t ^ r)
  opens x r =
      Cong-trans
        (Cong-of_eq (pow-add t (key.lamda * x) r ∙ ap (λ p. p * t ^ r) (pow-mul t key.lamda x)))
        (Cong-mul_right (t ^ r) (Cong-pow x (Cong-symm is_key.generator)))
