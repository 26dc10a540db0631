-- ===== src/Buffer.antt =====
-- Memory that is read through a pointer and a length: what the functions that decode a key do with
-- the bytes they are given. Words of 32 bits stand in memory as on the machines that the library is
-- built for, their least significant byte first.
pub mod Reads
use mpc_lib_demo.Base.{
  Bytes, Option, Result, [], drop, err, if◌then◌else◌, leb, length, ok, take, ℕ, ◌%◌, ◌*◌, ◌+◌, ◌-◌,
  ◌/◌, ◌>>=◌, ◌^◌, ◌∷◌,
}

-- Why nothing is decoded: NULL is returned, or the program reads outside the buffer, or through a
-- pointer that is null, or frees memory that it has freed.
pub data Failure : Type 0 where
  refused out_of_bounds null_dereference double_free : Failure

-- What a call that encodes leaves: the length through its last pointer, and what it wrote when it
-- returns the buffer.
pub record Encoded : Type 0 where
  pub real_len : ℕ
  pub written : Option Bytes

-- `a - b` on words of 32 and of 64 bits
abbrev pub sub32 : ℕ → ℕ → ℕ
sub32 a b = (a + 2 ^ 32 - b) % 2 ^ 32

abbrev pub sub64 : ℕ → ℕ → ℕ
sub64 a b = (a + 2 ^ 64 - b) % 2 ^ 64

abbrev pub little_endian : Bytes → ℕ
little_endian [] = 0
little_endian (b ∷ bs) = b + 256 * little_endian bs

-- The four bytes of a `uint32_t`
abbrev pub u32_bytes : ℕ → Bytes
u32_bytes x = x % 256 ∷ x / 256 % 256 ∷ x / 65536 % 256 ∷ x / 16777216 % 256 ∷ []

-- The `len` bytes from offset `at` on
unfoldable pub read_bytes : Bytes → ℕ → ℕ → Result Failure Bytes
read_bytes buffer at len =
    if leb (at + len) (length buffer) then ok (take len (drop at buffer)) else err out_of_bounds

-- `*(uint32_t*)p`
unfoldable pub read_u32 : Bytes → ℕ → Result Failure ℕ
unfolding read_bytes
read_u32 buffer at = do word ← read_bytes buffer at 4; ok (little_endian word)
