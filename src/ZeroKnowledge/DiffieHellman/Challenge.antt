-- ===== src/ZeroKnowledge/DiffieHellman/Challenge.antt =====
-- About the comparison and the challenge of diffie_hellman_log.c.
use Prim.Native.Nat.{Ordering, compare}
use native.Mathlib.Decide.{dec_lt}
use native.Mathlib.Nat.{pow-zero, pow-suc}
use mpc_lib_demo.Drng
use mpc_lib_demo.OpenSsl.{big_endian}
use mpc_lib_demo.Base.{
  All, Bytes, IsByte, [], ap, arith, drop, false, inl, inr, length, length-drop, ok, refl, some,
  subst, suc, sym, take, take-append-drop, true, zero, ℕ, ◌*◌, ◌++◌, ◌+◌, ◌<◌, ◌^◌, ◌∙◌, ◌∷◌, ◌≡◌,
  ◌≢◌, ◌≤◌, ◌⊎◌,
}
use mpc_lib_demo.ZeroKnowledge.DiffieHellman.{
  LogZkp, PublicData, cmp_uint256, cmp_words, draw_scalar, generate_e, seed_of,
}
use mpc_lib_demo.Drng.{Drng, drng_read_deterministic_rand, overlaps, write_digest}
use mpc_lib_demo.Drng.Stream.{IsValid, drng_new-write_digest, stream, write_digest-IsValid}
use mpc_lib_demo.Drng.Stream.Reads.{read-eq-stream, stream-IsValid}
use mpc_lib_demo.Commitments.{IsSha256, Sha256}
use mpc_lib_demo.Algebra.{Algebra}

compare-cases :
    (a b : ℕ)
    → ((compare a b ≡ Ordering.lt) × (a < b))
      ⊎ (((compare a b ≡ Ordering.gt) × (b < a)) ⊎ ((compare a b ≡ Ordering.eq) × (a ≡ b)))
compare-cases a b = elim (dec_lt a b) [
  | yes h ↦ inl (ground arith, h)
  | no h ↦ elim (dec_lt b a) [
    | yes h' ↦ inr (inl (ground arith, h'))
    | no h' ↦ inr (inr (ground arith, omega arith))
  ]
]

compare-lt : (a b : ℕ) → a < b → compare a b ≡ Ordering.lt
compare-lt a b h = ground arith

compare-gt : (a b : ℕ) → b < a → compare a b ≡ Ordering.gt
compare-gt a b h = ground arith

lt_of_compare : (a b : ℕ) → compare a b ≡ Ordering.lt → a < b
lt_of_compare a b h = ground arith

Ordering-cases : (c : Ordering) → (c ≡ Ordering.lt) ⊎ ((c ≡ Ordering.gt) ⊎ (c ≡ Ordering.eq))
Ordering-cases Ordering.lt = inl refl
Ordering-cases Ordering.gt = inr (inl refl)
Ordering-cases Ordering.eq = inr (inr refl)

gt-ne-lt : Ordering.gt ≢ Ordering.lt
gt-ne-lt e = cc

eq-ne-lt : Ordering.eq ≢ Ordering.lt
eq-ne-lt e = cc

compare-eq : (a b : ℕ) → a ≡ b → compare a b ≡ Ordering.eq
compare-eq a b h = ground arith

-- The first bytes weigh more.
big_endian-shift :
    (acc : ℕ) (bs : Bytes) → big_endian acc bs ≡ acc * 256 ^ length bs + big_endian 0 bs
big_endian-shift acc [] = omega (arith, pow-zero 256)
big_endian-shift acc (b ∷ bs) = omega (
  arith,
  big_endian-shift (acc * 256 + b) bs,
  big_endian-shift (0 * 256 + b) bs,
  ap (λ (p : ℕ). acc * p) (pow-suc 256 (length bs)),
)

mul_mono : (a b p : ℕ) → a ≤ b → a * p ≤ b * p
mul_mono a b p h = grind arith

big_endian-lt : (bs : Bytes) → All IsByte bs → big_endian 0 bs < 256 ^ length bs
big_endian-lt [] h = omega (arith, pow-zero 256)
big_endian-lt (b ∷ bs) h =
    let rest : big_endian 0 bs < 256 ^ length bs = big_endian-lt bs h.1 in
    let top : (b + 1) * 256 ^ length bs ≤ 256 * 256 ^ length bs =
      mul_mono (b + 1) 256 _ (omega (arith, h.0)) in
    omega (arith, big_endian-shift (0 * 256 + b) bs, pow-suc 256 (length bs))

big_endian-append :
    (acc : ℕ) (xs ys : Bytes) → big_endian acc (xs ++ ys) ≡ big_endian (big_endian acc xs) ys
big_endian-append acc [] ys = refl
big_endian-append acc (x ∷ xs) ys = big_endian-append (acc * 256 + x) xs ys

All-take : (n : ℕ) (bs : Bytes) → All IsByte bs → All IsByte (take n bs)
All-take zero bs h = tt
All-take (suc n) [] h = tt
All-take (suc n) (b ∷ bs) h = (h.0, All-take n bs h.1)

All-drop : (n : ℕ) (bs : Bytes) → All IsByte bs → All IsByte (drop n bs)
All-drop zero bs h = h
All-drop (suc n) [] h = tt
All-drop (suc n) (b ∷ bs) h = All-drop n bs h.1

-- The number of bytes is that of its first word and of the rest.
big_endian-word :
    (bs : Bytes) (m : ℕ)
    → length bs ≡ 8 + m
    → (big_endian 0 bs ≡ big_endian 0 (take 8 bs) * 256 ^ m + big_endian 0 (drop 8 bs))
      × (length (drop 8 bs) ≡ m)
big_endian-word bs m count =
    let rest : length (drop 8 bs) ≡ m = omega (arith, length-drop 8 bs, count) in
    (
      ap (big_endian 0) (sym (take-append-drop 8 bs))
          ∙ big_endian-append 0 (take 8 bs) (drop 8 bs)
          ∙ big_endian-shift (big_endian 0 (take 8 bs)) (drop 8 bs)
          ∙ ap (λ k. big_endian 0 (take 8 bs) * 256 ^ k + big_endian 0 (drop 8 bs)) rest,
      rest,
    )

below_by_word : (x y p a b : ℕ) → x < y → a < p → x * p + a < y * p + b
below_by_word x y p a b h small =
    let top : (x + 1) * p ≤ y * p = mul_mono (x + 1) y p (omega arith) in omega (arith, top)

compare_same_word : (x y p a b : ℕ) → x ≡ y → compare a b ≡ compare (x * p + a) (y * p + b)
compare_same_word x y p a b e =
    let same : x * p ≡ y * p = ap (λ (k : ℕ). k * p) e in
    elim (compare-cases a b) [
      | inl h ↦ h.0 ∙ sym (compare-lt (x * p + a) (y * p + b) (omega (arith, same, h.1)))
      | inr h ↦ elim h [
        | inl h' ↦ h'.0 ∙ sym (compare-gt (x * p + a) (y * p + b) (omega (arith, same, h'.1)))
        | inr h' ↦ h'.0 ∙ sym (compare-eq (x * p + a) (y * p + b) (omega (arith, same, h'.1)))
      ]
    ]

-- Comparing words is comparing the numbers that the bytes stand for.
cmp_words-compare :
    (count : ℕ) (a b : Bytes)
    → All IsByte a
    → All IsByte b
    → length a ≡ 8 * count
    → length b ≡ 8 * count
    → cmp_words count a b ≡ compare (big_endian 0 a) (big_endian 0 b)
unfolding cmp_words
cmp_words-compare zero [] [] ha hb la lb = refl
cmp_words-compare zero (x ∷ a) b ha hb la lb = absurd (omega (arith, la))
cmp_words-compare zero [] (y ∷ b) ha hb la lb = absurd (omega (arith, lb))
cmp_words-compare (suc count) a b ha hb la lb =
    let x : ℕ = big_endian 0 (take 8 a) in
    let y : ℕ = big_endian 0 (take 8 b) in
    let a' : ℕ = big_endian 0 (drop 8 a) in
    let b' : ℕ = big_endian 0 (drop 8 b) in
    let p : ℕ = 256 ^ (8 * count) in
    let (ea, ra) = big_endian-word a (8 * count) (omega (arith, la)) in
    let (eb, rb) = big_endian-word b (8 * count) (omega (arith, lb)) in
    let small_a : a' < p =
      subst (λ k. a' < 256 ^ k) ra (big_endian-lt (drop 8 a) (All-drop 8 a ha)) in
    let small_b : b' < p =
      subst (λ k. b' < 256 ^ k) rb (big_endian-lt (drop 8 b) (All-drop 8 b hb)) in
    elim (compare-cases x y) [
      | inl h ↦
          rw (cmp_words, h.0, ea, eb) (sym (compare-lt _ _ (below_by_word x y p a' b' h.1 small_a)))
      | inr h ↦ elim h [
        | inl h' ↦
            rw (cmp_words, h'.0, ea, eb)
              (sym (compare-gt _ _ (below_by_word y x p b' a' h'.1 small_b)))
        | inr h' ↦
            rw
              (
                cmp_words,
                h'.0,
                cmp_words-compare count (drop 8 a) (drop 8 b) (All-drop 8 a ha) (All-drop 8 b hb) ra
                    rb,
                ea,
                eb,
              )
              (compare_same_word x y p a' b' h'.1)
      ]
    ]

module _ (sha512 : Bytes → Bytes) where
  -- The next blocks of 32 bytes of the stream are bytes, up to one of the first `rounds` that
  -- stands for a number below `q`.
  abbrev pub FindsBelow : ℕ → ℕ → Drng → Type 0
  FindsBelow q zero g = ⊥
  FindsBelow q (suc rounds) g =
      All IsByte (stream sha512 32 g).0
      × ((big_endian 0 (stream sha512 32 g).0 < q) ⊎ FindsBelow q rounds (stream sha512 32 g).1)

module _ (sha : Sha256) (sha512 : Bytes → Bytes)
    (digest_length : (message : Bytes) → length (sha512 message) ≡ 64) (rng_at e_at fuel : ℕ)
    (apart : overlaps rng_at e_at 32 ≡ false) (algebra : Algebra)
    (order_bytes : All IsByte algebra.order) (order_length : length algebra.order ≡ 32) where
  cmp-below :
      (e : Bytes)
      → All IsByte e
      → length e ≡ 32
      → cmp_uint256 e algebra.order ≡ compare (big_endian 0 e) (big_endian 0 algebra.order)
  unfolding cmp_uint256
  cmp-below e he le = cmp_words-compare 4 e algebra.order he order_bytes le order_length

  -- When one of the next blocks is below the order the loop ends, with a scalar of 32 bytes
  -- that is below the order.
  pub draw_scalar-finds :
      (rounds : ℕ) (g : Drng)
      → IsValid g
      → FindsBelow sha512 (big_endian 0 algebra.order) rounds g
      → (e : Bytes) × (draw_scalar sha sha512 true rng_at e_at fuel algebra rounds g ≡ some (ok e))
        × (big_endian 0 e < big_endian 0 algebra.order)
        × (length e ≡ 32)
  unfolding draw_scalar
  draw_scalar-finds zero g v h = elim h [ ]
  draw_scalar-finds (suc rounds) g v h =
      let block : Bytes = (stream sha512 32 g).0 in
      let next : Drng = (stream sha512 32 g).1 in
      let (v', count) = stream-IsValid sha512 digest_length 32 g v in
      let read : drng_read_deterministic_rand sha512 (some g) rng_at (some e_at) 32
          ≡ (Drng.success, some (stream sha512 32 g)) =
        read-eq-stream sha512 digest_length g rng_at e_at 32 v (omega arith) apart in
      let later : cmp_uint256 block algebra.order ≢ Ordering.lt
          → FindsBelow sha512 (big_endian 0 algebra.order) rounds next =
        λ not_lt. elim h.1 [
          | inl found ↦ absurd (not_lt (cmp-below block h.0 count ∙ compare-lt _ _ found))
          | inr rest ↦ rest
        ] in
      elim (Ordering-cases (cmp_uint256 block algebra.order)) [
        | inl less ↦ (
          block,
          rw (draw_scalar, read, less) refl,
          lt_of_compare _ _ (sym (cmp-below block h.0 count) ∙ less),
          count,
        )
        | inr other ↦ elim other [
          | inl more ↦
              let (e, found, below, count') =
                draw_scalar-finds rounds next v' (later (λ is_lt. gt-ne-lt (sym more ∙ is_lt))) in
              (e, rw (draw_scalar, read, more) found, below, count')
          | inr same ↦
              let (e, found, below, count') =
                draw_scalar-finds rounds next v' (later (λ is_lt. eq-ne-lt (sym same ∙ is_lt))) in
              (e, rw (draw_scalar, read, same) found, below, count')
        ]
      ]

  -- The generator that the challenge is read from
  abbrev pub challenge_source : Bytes → Bytes → PublicData → LogZkp → Drng
  challenge_source aad base_point values proof =
      write_digest (sha512 (seed_of sha sha512 true rng_at e_at fuel aad base_point values proof)) 0

  -- The scalars of a proof do not take part in its challenge.
  pub generate_e-scalars :
      (aad base_point : Bytes) (values : PublicData) (proof : LogZkp) (w z : Bytes)
      → generate_e sha sha512 true rng_at e_at fuel algebra aad base_point values
          (record proof { w = w; z = z })
        ≡ generate_e sha sha512 true rng_at e_at fuel algebra aad base_point values proof
  unfolding generate_e seed_of
  generate_e-scalars aad base_point values proof w z = refl

  pub generate_e-found :
      (aad base_point : Bytes) (values : PublicData) (proof : LogZkp)
      → IsSha256 sha
      → FindsBelow sha512
          (big_endian 0 algebra.order)
          fuel
          (challenge_source aad base_point values proof)
      → (e : Bytes) × (generate_e sha sha512 true rng_at e_at fuel algebra aad base_point values
            proof
          ≡ some (ok e))
        × (big_endian 0 e < big_endian 0 algebra.order)
        × (length e ≡ 32)
  unfolding generate_e
  generate_e-found aad base_point values proof is_sha h =
      let seed : Bytes = seed_of sha sha512 true rng_at e_at fuel aad base_point values proof in
      let count : length seed ≡ 32 = is_sha.length-final _ in
      let (e, found, below, length_e) =
        draw_scalar-finds fuel (write_digest (sha512 seed) 0)
          (write_digest-IsValid (sha512 seed) (digest_length seed)) h in
      (
        e,
        rw (generate_e, drng_new-write_digest sha512 seed (omega (arith, count))) found,
        below,
        length_e,
      )
