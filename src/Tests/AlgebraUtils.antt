-- ===== src/Tests/AlgebraUtils.antt =====
-- Runs of algebra_utils.c.
use mpc_lib_demo.Algebra
use mpc_lib_demo.OpenSsl.Reference.{reference, reference_laws}
use mpc_lib_demo.Tests.Field.{mem_works, works}
use mpc_lib_demo.AlgebraUtils.{crt_mod_exp, is_coprime_fast}
use mpc_lib_demo.AlgebraUtils.Coprime.{AreCoprime, is_coprime_fast-AreCoprime}
use mpc_lib_demo.AlgebraUtils.Crt.{AreCrt}
use mpc_lib_demo.AlgebraUtils.CrtExp.{crt_mod_exp-power}
use mpc_lib_demo.Base.{Bool, Cong-of_mod-eq, arith, refl, some, true, ◌↔◌, ◌≡◌}

is_coprime_fast-AreCoprime_example :
    (answer : Bool) × (is_coprime_fast reference mem_works (some 12) (some 35) true ≡ some answer)
    × ((answer ≡ true) ↔ AreCoprime 12 35)
is_coprime_fast-AreCoprime_example =
    is_coprime_fast-AreCoprime reference reference_laws mem_works 12 35 works

-- 5 modulo 7 and 3 modulo 11; 2 is the inverse of 11 modulo 7.
residues : AreCrt 7 11 2 5 3
residues = record {
  left_reduced = omega arith;
  right_reduced = omega arith;
  inverse = Cong-of_mod-eq 7 _ _ refl;
}

crt_mod_exp-power_example :
    crt_mod_exp reference mem_works true
      (some 5)
      (some 4)
      (some 7)
      (some 11)
      (some 2)
      (some 77)
      true
    ≡ (Algebra.success, some 9)
crt_mod_exp-power_example =
    crt_mod_exp-power reference reference_laws 7 11 2 mem_works 5 4 works (omega arith)
      (omega arith) (Cong-of_mod-eq 7 _ _ refl)
