-- ===== src/Buffer/Reads.antt =====
-- Reads that stay inside a buffer.
use mpc_lib_demo.Buffer.{
  Failure, double_free, little_endian, null_dereference, out_of_bounds, read_bytes, read_u32,
  refused, u32_bytes,
}
use mpc_lib_demo.Base.{
  Bool, Bytes, Option, Result, ap, arith, drop, drop-append, err, false, guard, length,
  length-append, length-drop, length-take, le→leb, none, ok, or_fail, refl, some, take, take-append,
  true, ℕ, ◌++◌, ◌+◌, ◌<◌, ◌>>=◌, ◌>>◌, ◌^◌, ◌≡◌, ◌≤◌,
}

-- What is returned has the property, and no read is outside the buffer.
abbrev pub IsSafe {ℓ} : {A : Type ℓ} → (A → Type 0) → Result Failure A → Type 0
IsSafe P (ok a) = P a
IsSafe P (err refused) = Unit
IsSafe P (err null_dereference) = Unit
IsSafe P (err double_free) = Unit
IsSafe P (err out_of_bounds) = ⊥

module _ {ℓ κ} {A : Type ℓ} {B : Type κ} (P : A → Type 0) (Q : B → Type 0) where
  pub IsSafe-bind :
      (m : Result Failure A) (f : A → Result Failure B)
      → IsSafe P m
      → ((a : A) → P a → IsSafe Q (f a))
      → IsSafe Q (m >>= f)
  IsSafe-bind (ok a) f h k = k a h
  IsSafe-bind (err refused) f h k = tt
  IsSafe-bind (err null_dereference) f h k = tt
  IsSafe-bind (err double_free) f h k = tt
  IsSafe-bind (err out_of_bounds) f h k = h

-- A test in front of what is safe
pub IsSafe-guard {ℓ} :
    {B : Type ℓ} (Q : B → Type 0) (b : Bool) (rest : Result Failure B)
    → (b ≡ true → IsSafe Q rest)
    → IsSafe Q (guard b refused >> rest)
IsSafe-guard Q true rest h = h refl
IsSafe-guard Q false rest h = tt

pub IsSafe-or_fail {ℓ κ} :
    {A : Type ℓ} {B : Type κ} (Q : B → Type 0) (m : Option A) (e : Failure)
    (f : A → Result Failure B)
    → IsSafe Q (err e)
    → ((a : A) → m ≡ some a → IsSafe Q (f a))
    → IsSafe Q (or_fail m e >>= f)
IsSafe-or_fail Q (some a) e f fails h = h a refl
IsSafe-or_fail Q none e f fails h = fails

pub read_bytes-IsSafe :
    (buffer : Bytes) (at len : ℕ)
    → at + len ≤ length buffer
    → IsSafe (λ bs. length bs ≡ len) (read_bytes buffer at len)
unfolding read_bytes
read_bytes-IsSafe buffer at len h =
    rw (le→leb _ _ h) (omega (arith, length-take len (drop at buffer), length-drop at buffer))

pub read_u32-IsSafe :
    (buffer : Bytes) (at : ℕ)
    → at + 4 ≤ length buffer
    → IsSafe (λ (w : ℕ). Unit {0}) (read_u32 buffer at)
unfolding read_u32
read_u32-IsSafe buffer at h =
    IsSafe-bind (λ (bs : Bytes). length bs ≡ 4) (λ (w : ℕ). Unit {0}) (read_bytes buffer at 4) _
      (read_bytes-IsSafe buffer at 4 h) (λ a e. tt)

-- A word is read back from its bytes.
pub little_endian-u32_bytes : (x : ℕ) → x < 2 ^ 32 → little_endian (u32_bytes x) ≡ x
little_endian-u32_bytes x h = omega arith

-- What stands at an offset is read.
pub read_bytes-append :
    (buffer before bs behind : Bytes) (at len : ℕ)
    → buffer ≡ before ++ (bs ++ behind)
    → at ≡ length before
    → len ≡ length bs
    → read_bytes buffer at len ≡ ok bs
unfolding read_bytes
read_bytes-append buffer before bs behind at len e here count =
    let room : at + len ≤ length (before ++ (bs ++ behind)) =
      omega (arith, length-append before (bs ++ behind), length-append bs behind) in
    rw (
      e,
      le→leb _ _ room,
      drop-append before (bs ++ behind) at here,
      take-append bs behind len count,
    )

pub read_u32-append :
    (buffer before behind : Bytes) (at x : ℕ)
    → buffer ≡ before ++ (u32_bytes x ++ behind)
    → at ≡ length before
    → x < 2 ^ 32
    → read_u32 buffer at ≡ ok x
unfolding read_u32
read_u32-append buffer before behind at x e here small =
    rw (read_bytes-append buffer before (u32_bytes x) behind at 4 e here refl)
      (ap ok (little_endian-u32_bytes x small))

-- The word at the start of a buffer
pub read_u32-start :
    (buffer : Bytes) → 4 ≤ length buffer → read_u32 buffer 0 ≡ ok (little_endian (take 4 buffer))
unfolding read_u32 read_bytes
read_u32-start buffer h = rw (le→leb 4 (length buffer) h) refl
