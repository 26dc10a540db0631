-- ===== src/Base/Inversion.antt =====
-- What a result that is not an error says of the steps that lead to it.
use mpc_lib_demo.Base.Names.{Bool, Option, false, none, refl, some, true, ◌≡◌}
use mpc_lib_demo.Base.Outcome.{Result, err, guard, ok, or_fail, ◌>>=◌, ◌>>◌}

pub bind-ok {ℓ κ} :
    {E : Type 0} {A : Type ℓ} {B : Type κ} (m : Result E A) (f : A → Result E B) (b : B)
    → (m >>= f) ≡ ok b
    → (a : A) × (m ≡ ok a) × (f a ≡ ok b)
bind-ok (ok a) f b h = (a, refl, h)
bind-ok (err e) f b h = absurd cc

pub guard-ok {ℓ} :
    {E : Type 0} {B : Type ℓ} (c : Bool) (e : E) (rest : Result E B) (b : B)
    → (guard c e >> rest) ≡ ok b
    → (c ≡ true) × (rest ≡ ok b)
guard-ok true e rest b h = (refl, h)
guard-ok false e rest b h = absurd cc

pub or_fail-ok {ℓ} :
    {E : Type 0} {A : Type ℓ} (m : Option A) (e : E) (a : A) → or_fail m e ≡ ok a → m ≡ some a
or_fail-ok (some x) e a h = cc
or_fail-ok none e a h = absurd cc
