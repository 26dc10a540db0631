-- ===== src/Tests/Drng.antt =====
-- Runs of drng.c with a digest that repeats the length of the message.
use mpc_lib_demo.Drng.{Drng, drng_read_deterministic_rand, overlaps, success}
use mpc_lib_demo.Drng.Stream.{IsValid, stream}
use mpc_lib_demo.Drng.Stream.Reads.{read-eq-stream, read-read}
use mpc_lib_demo.Base.{Bytes, arith, false, length, refl, replicate, some, ◌++◌, ◌≡◌}

abbrev pub digest : Bytes → Bytes
digest message = replicate 64 (length message)

pub digest_full : (message : Bytes) → length (digest message) ≡ 64
digest_full message = refl

abbrev start : Drng
start = record { bytes = replicate 32 1; seed = replicate 32 2; pos = 30 }

start-IsValid : IsValid start
start-IsValid = record { bytes_full = refl; seed_full = refl; pos_in_range = omega arith }

apart_10 : overlaps 0 100 10 ≡ false
unfolding overlaps
apart_10 = refl

apart_40 : overlaps 0 100 40 ≡ false
unfolding overlaps
apart_40 = refl

apart_50 : overlaps 0 100 50 ≡ false
unfolding overlaps
apart_50 = refl

read-eq-stream_example :
    drng_read_deterministic_rand digest (some start) 0 (some 100) 40
    ≡ (success, some (stream digest 40 start))
read-eq-stream_example =
    read-eq-stream digest digest_full start 0 100 40 start-IsValid (omega arith) apart_40

read-read_example :
    (first second : Bytes) × (mid end : Drng) × (drng_read_deterministic_rand digest
        (some start)
        0
        (some 100)
        10
      ≡ (success, some (first, mid)))
    × (drng_read_deterministic_rand digest (some mid) 0 (some 100) 40
        ≡ (success, some (second, end)))
    × (drng_read_deterministic_rand digest (some start) 0 (some 100) 50
        ≡ (success, some (first ++ second, end)))
    × (length first ≡ 10)
    × (length second ≡ 40)
    × IsValid end
read-read_example =
    read-read digest digest_full start 0 100 100 100 10 40 start-IsValid (omega arith) (omega arith)
      apart_10 apart_40 apart_50
