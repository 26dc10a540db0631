-- ===== src/Base/Options.antt =====
-- Steps that fail without saying why, in a chain: `if (!step) goto cleanup;`.
use mpc_lib_demo.Base.Names.{Option, none, some}

infixl 5 ◌>>=◌
abbrev pub ◌>>=◌ {ℓ κ} : {A : Type ℓ} {B : Type κ} → Option A → (A → Option B) → Option B
some a >>= f = f a
none >>= f = none
