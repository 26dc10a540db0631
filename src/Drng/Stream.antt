-- ===== src/Drng/Stream.antt =====
-- The generator of drng.c seen as one stream of bytes: the specification of its reads.
pub mod Reads
use mpc_lib_demo.Base.{
  Bytes, [], ap, arith, drop, drop-eq-cons, get_or, if◌then◌else◌, is_empty-length, length,
  length-drop, length-take, ltb, refl, some, suc, take, take-take, true, zero, ℕ, ◌++◌, ◌+◌, ◌-◌,
  ◌<◌, ◌∙◌, ◌∷◌, ◌≡◌, ◌≤◌,
}
use mpc_lib_demo.Drng.{Drng, drng_new, half_digest, success, write_digest}

pub record IsValid (g : Drng) : Type 0 where
  pub bytes_full : length g.bytes ≡ half_digest
  pub seed_full : length g.seed ≡ half_digest
  pub pos_in_range : g.pos ≤ half_digest

pub write_digest-IsValid : (digest : Bytes) → length digest ≡ 64 → IsValid (write_digest digest 0)
unfolding write_digest
write_digest-IsValid digest h = record {
  bytes_full = omega (arith, length-take 32 digest);
  seed_full = omega (arith, length-take 32 (drop 32 digest), length-drop 32 digest);
  pos_in_range = omega arith;
}

pub write_digest-pos : (digest : Bytes) (p : ℕ) → (write_digest digest p).pos ≡ p
unfolding write_digest
write_digest-pos digest p = refl

pub first_block :
    (digest : Bytes) (n : ℕ)
    → n ≤ half_digest
    → take n (drop (write_digest digest 0).pos (write_digest digest 0).bytes) ≡ take n digest
unfolding write_digest
first_block digest n h = take-take n 32 digest h

module _ (sha512 : Bytes → Bytes) where
  -- The generator with at least one byte left: a spent block is replaced by the next digest.
  pub refill : Drng → Drng
  refill g = if ltb g.pos half_digest then g else write_digest (sha512 g.seed) 0

  abbrev pub byte : Drng → ℕ
  byte g = get_or g.bytes g.pos 0

  abbrev pub step : Drng → Drng
  step g = record g { pos = g.pos + 1 }

  -- The next `n` bytes, one at a time, and the generator after them.
  pub stream : ℕ → Drng → Bytes × Drng
  stream zero g = ([], g)
  stream (suc n) g =
      let g' = refill g in let (tail, end) = stream n (step g') in (byte g' ∷ tail, end)

  pub stream-append :
      (m n : ℕ) (g : Drng)
      → stream (m + n) g
        ≡ ((stream m g).0 ++ (stream n (stream m g).1).0, (stream n (stream m g).1).1)
  unfolding stream
  stream-append zero n g = ap (λ k. stream k g) {x = 0 + n} {y = n} (omega arith)
  stream-append (suc m) n g =
      ap (λ k. stream k g) {x = suc m + n} {y = suc (m + n)} (omega arith)
      ∙ ap (λ r. (byte (refill g) ∷ r.0, r.1)) (stream-append m n (step (refill g)))

  refill_noop : (g : Drng) → g.pos < half_digest → refill g ≡ g
  unfolding refill
  refill_noop g h = ground arith

  refill_spent :
      (g : Drng) → refill (record g { pos = half_digest }) ≡ write_digest (sha512 g.seed) 0
  unfolding refill
  refill_spent g = refl

  -- Bytes that are left in the block come straight from it.
  pub stream-block :
      (n : ℕ) (g : Drng)
      → length g.bytes ≡ half_digest
      → g.pos + n ≤ half_digest
      → stream n g ≡ (take n (drop g.pos g.bytes), record g { pos = g.pos + n })
  unfolding stream
  stream-block zero g full h =
      ap (λ p. ([], record g { pos = p })) {x = g.pos} {y = g.pos + 0} (omega arith)
  stream-block (suc n) g full h =
      rw
        (
          refill_noop g (omega arith),
          stream-block n (step g) full (omega arith),
          drop-eq-cons g.bytes g.pos 0 (omega arith),
        )
        (ap
          (λ p. (get_or g.bytes g.pos 0 ∷ take n (drop (g.pos + 1) g.bytes), record g { pos = p }))
          {x = g.pos + 1 + n} {y = g.pos + suc n} (omega arith))

  stream-spent :
      (n : ℕ) (g : Drng)
      → 0 < n
      → stream n (record g { pos = half_digest }) ≡ stream n (write_digest (sha512 g.seed) 0)
  unfolding stream
  stream-spent zero g h = elim h [ ]
  stream-spent (suc n) g h = rw (
    refill_spent g,
    refill_noop (write_digest (sha512 g.seed) 0) (unfold write_digest in omega arith),
  )

  -- A read past the end of the block is the rest of the block and a read from the next digest.
  pub stream-cross :
      (n : ℕ) (g : Drng)
      → IsValid g
      → half_digest - g.pos < n
      → let (tail, end) = stream (n - (half_digest - g.pos)) (write_digest (sha512 g.seed) 0) in
        stream n g ≡ (take (half_digest - g.pos) (drop g.pos g.bytes) ++ tail, end)
  stream-cross n g v h =
      let size : ℕ = half_digest - g.pos in
      let at_end : g.pos + size ≡ half_digest = omega (arith, v.pos_in_range) in
      ap (λ k. stream k g) {x = n} {y = size + (n - size)} (omega arith)
      ∙ stream-append size (n - size) g
      ∙ rw
          (
            stream-block size g v.bytes_full (omega (arith, at_end)),
            at_end,
            stream-spent (n - size) g (omega arith),
          )
          refl

  -- A generator starts with the digest of its seed.
  pub drng_new-write_digest :
      (seed : Bytes)
      → 0 < length seed
      → drng_new sha512 true (some seed) true ≡ (success, some (write_digest (sha512 seed) 0))
  unfolding drng_new
  drng_new-write_digest seed pos = rw (is_empty-length seed pos) refl
