-- ===== src/Base/Memory.antt =====
-- Bytes and pointers of C. A pointer that the code tests for null is an option, and the buffer
-- behind it is the list of its bytes, so a length argument that tells how much of a readable
-- buffer is used is the length of the list.
use Prim.Native.Nat.{ℕ, ◌<◌, ◌+◌}
use mathlib.Core.Path.{◌≡◌, refl}
use mathlib.Core.Bool.{Bool, true, false}
use mathlib.Core.Option.{Option, none, some}
use mathlib.Core.List.{List, [], ◌∷◌}
use mpc_lib_demo.Base.Lists.{length}

abbrev pub Bytes : Type 0
Bytes = List ℕ

abbrev pub Ptr {ℓ} : Type ℓ → Type ℓ
Ptr A = Option A

-- `!p`
abbrev pub is_null {ℓ} : {A : Type ℓ} → Ptr A → Bool
is_null none = true
is_null (some _) = false

-- `!xs_len` for the length that goes with a buffer
abbrev pub is_empty {ℓ} : {A : Type ℓ} → List A → Bool
is_empty [] = true
is_empty (_ ∷ _) = false

module _ {ℓ κ} {A : Type ℓ} (P : A → Type κ) where
  -- Every element of the list has the property.
  abbrev pub All : List A → Type κ
  All [] = Unit
  All (x ∷ xs) = P x × All xs

abbrev pub IsByte : ℕ → Type 0
IsByte b = b < 256

-- The allocations that follow the first `count`
abbrev pub after : ℕ → (ℕ → Bool) → ℕ → Bool
after count mem k = mem (k + count)

pub is_empty-length {ℓ} : {A : Type ℓ} (xs : List A) → 0 < length xs → is_empty xs ≡ false
is_empty-length [] h = elim h [ ]
is_empty-length (x ∷ xs) h = refl
