-- ===== src/Drng/Stream/Reads.antt =====
-- About `drng_read_deterministic_rand` and the stream of the generator.
use mpc_lib_demo.Drng.{
  Drng, drng_new, drng_read_deterministic_rand, drng_size, half_digest, overlaps, read_loop,
  success, write_digest,
}
use mpc_lib_demo.Drng.Stream.{
  IsValid, first_block, refill, step, stream, stream-append, stream-block, stream-cross,
  write_digest-IsValid, write_digest-pos,
}
use mpc_lib_demo.Base.{
  Bool-cases, Bytes, [], ap, arith, drop, false, inl, inr, length, ltb, ltb→lt, refl, some, suc,
  take, true, zero, ℕ, ≢0→==0, ◌%◌, ◌*◌, ◌++◌, ◌+◌, ◌-◌, ◌<◌, ◌^◌, ◌∙◌, ◌∷◌, ◌≡◌, ◌≢◌, ◌≤◌,
}

module _ (sha512 : Bytes → Bytes) where
  module _ (digest_length : (message : Bytes) → length (sha512 message) ≡ 64) where
    read_loop-stream :
        (fuel : ℕ) (g : Drng) (n : ℕ)
        → IsValid g
        → n + g.pos < 32 * fuel
        → read_loop sha512 fuel g n ≡ some (stream sha512 n g)
    unfolding read_loop
    read_loop-stream zero g n v h = absurd (omega arith)
    read_loop-stream (suc fuel) g n v h =
        let next : Drng = write_digest (sha512 g.seed) 0 in
        let fits : (half_digest - g.pos) % 2 ^ 8 ≡ half_digest - g.pos = omega arith in
        elim (Bool-cases (ltb (half_digest - g.pos) n)) [
          | inl more ↦
              let longer : half_digest - g.pos < n = ltb→lt _ _ more in
              rw
                (
                  more,
                  fits,
                  read_loop-stream fuel next (n - (half_digest - g.pos))
                      (write_digest-IsValid (sha512 g.seed) (digest_length g.seed))
                      (omega (arith, write_digest-pos (sha512 g.seed) 0, v.pos_in_range)),
                  stream-cross sha512 n g v longer,
                )
                (rw fits)
          | inr last ↦
              let short : g.pos + n ≤ half_digest = ground (arith, v.pos_in_range) in
              rw (last, stream-block sha512 n g v.bytes_full short)
                (ap (λ p. some (take n (drop g.pos g.bytes), record g { pos = p }))
                  {x = (g.pos + n) % 2 ^ 8} {y = g.pos + n} (omega arith))
        ]

    -- A read from a valid generator into a buffer away from it succeeds, and returns the next bytes
    -- of the stream and the generator after them, whatever the number of digests that it crosses.
    pub read-eq-stream :
        (g : Drng) (rng_at rand_at n : ℕ)
        → IsValid g
        → 0 < n
        → overlaps rng_at rand_at n ≡ false
        → drng_read_deterministic_rand sha512 (some g) rng_at (some rand_at) n
          ≡ (success, some (stream sha512 n g))
    unfolding drng_read_deterministic_rand
    read-eq-stream g rng_at rand_at n v pos apart =
        rw (apart, ≢0→==0 n pos, read_loop-stream (n + 2) g n v (omega (arith, v.pos_in_range)))

    refill-IsValid :
        (g : Drng) → IsValid g → IsValid (refill sha512 g) × ((refill sha512 g).pos < half_digest)
    unfolding refill
    refill-IsValid g v = elim (Bool-cases (ltb g.pos half_digest)) [
      | inl left ↦ rw left (v, ltb→lt _ _ left)
      | inr spent ↦ rw spent (
        write_digest-IsValid (sha512 g.seed) (digest_length g.seed),
        omega (arith, write_digest-pos (sha512 g.seed) 0),
      )
    ]

    -- Reading keeps the generator valid, and hands out as many bytes as were asked for.
    pub stream-IsValid :
        (n : ℕ) (g : Drng)
        → IsValid g
        → IsValid (stream sha512 n g).1 × (length (stream sha512 n g).0 ≡ n)
    unfolding stream
    stream-IsValid zero g v = (v, refl)
    stream-IsValid (suc n) g v =
        let (w, room) = refill-IsValid g v in
        let next : IsValid (step sha512 (refill sha512 g)) = record {
          bytes_full = w.bytes_full;
          seed_full = w.seed_full;
          pos_in_range = omega (arith, room);
        } in
        let (end, count) = stream-IsValid n (step sha512 (refill sha512 g)) next in
        (end, ap suc count)

    -- Two reads return together what one read of both lengths returns, and leave the same
    -- generator, which is valid again.
    pub read-read :
        (g : Drng) (rng_at first_at second_at both_at m n : ℕ)
        → IsValid g
        → 0 < m
        → 0 < n
        → overlaps rng_at first_at m ≡ false
        → overlaps rng_at second_at n ≡ false
        → overlaps rng_at both_at (m + n) ≡ false
        → (first second : Bytes) × (mid end : Drng) × (drng_read_deterministic_rand sha512
              (some g)
              rng_at
              (some first_at)
              m
            ≡ (success, some (first, mid)))
          × (drng_read_deterministic_rand sha512 (some mid) rng_at (some second_at) n
              ≡ (success, some (second, end)))
          × (drng_read_deterministic_rand sha512 (some g) rng_at (some both_at) (m + n)
              ≡ (success, some (first ++ second, end)))
          × (length first ≡ m)
          × (length second ≡ n)
          × IsValid end
    read-read g rng_at first_at second_at both_at m n v pm pn a1 a2 a3 =
        let (v1, l1) = stream-IsValid m g v in
        let (v2, l2) = stream-IsValid n (stream sha512 m g).1 v1 in
        (
          (stream sha512 m g).0,
          (stream sha512 n (stream sha512 m g).1).0,
          (stream sha512 m g).1,
          (stream sha512 n (stream sha512 m g).1).1,
          read-eq-stream g rng_at first_at m v pm a1,
          read-eq-stream (stream sha512 m g).1 rng_at second_at n v1 pn a2,
          rw
              (
                read-eq-stream g rng_at both_at (m + n) v (omega arith) a3,
                stream-append sha512 m n g,
              )
              refl,
          l1,
          l2,
          v2,
        )

    -- From a seed that is not empty `drng_new` makes a valid generator, unless the allocation
    -- fails, and a first read of up to 32 bytes returns the first bytes of the seed's digest.
    pub new-read :
        (seed : Bytes) (rng_at rand_at n : ℕ)
        → 0 < length seed
        → 0 < n
        → n ≤ half_digest
        → overlaps rng_at rand_at n ≡ false
        → (g end : Drng) × (drng_new sha512 true (some seed) true ≡ (success, some g))
          × IsValid g
          × (drng_read_deterministic_rand sha512 (some g) rng_at (some rand_at) n
              ≡ (success, some (take n (sha512 seed), end)))
    unfolding drng_new
    new-read [] rng_at rand_at n ps pn hn apart = elim ps [ ]
    new-read (b ∷ seed) rng_at rand_at n ps pn hn apart =
        let g : Drng = write_digest (sha512 (b ∷ seed)) 0 in
        let v : IsValid g = write_digest-IsValid (sha512 (b ∷ seed)) (digest_length (b ∷ seed)) in
        let start : g.pos ≡ 0 = write_digest-pos (sha512 (b ∷ seed)) 0 in
        (
          g,
          record g { pos = g.pos + n },
          refl,
          v,
          read-eq-stream g rng_at rand_at n v pn apart
              ∙ ap (λ r. (success, some r))
                  (stream-block sha512 n g v.bytes_full (omega (arith, start))
                    ∙ ap (λ bs. (bs, record g { pos = g.pos + n }))
                        (first_block (sha512 (b ∷ seed)) n hn)),
        )

-- When the generator is not refused, no address of the buffer lies in the generator's structure.
pub overlaps-disjoint :
    (rng rand n : ℕ) (i j : ℕ)
    → overlaps rng rand n ≡ false
    → i < drng_size
    → j < n
    → rng + i ≢ rand + j
unfolding overlaps
overlaps-disjoint rng rand n i j h p q e = ground arith
