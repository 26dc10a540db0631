-- ===== src/Vss/Access/Draws.antt =====
-- The random coefficients.
use mpc_lib_demo.Base.Options.{◌>>=◌}
use mpc_lib_demo.Vss.Access.{draw}
use mpc_lib_demo.Base.{
  All, Bool-cases, List, Option, [], ap, inl, inr, length, none, refl, some, subst, suc, zero, ℕ,
  ◌<◌, ◌==◌, ◌∷◌, ◌≡◌,
}

-- What is drawn has the length that was asked for, and stays in the range of the draws.
pub draw_value :
    (prime count : ℕ) (tape cs : List ℕ)
    → draw count tape ≡ some cs
    → All (λ c. c < prime) tape
    → (length cs ≡ count) × All (λ c. c < prime) cs
unfolding draw
draw_value prime zero tape [] h range = (refl, tt)
draw_value prime zero tape (_ ∷ _) h range = cc
draw_value prime (suc count) [] cs h range = cc
draw_value prime (suc count) (c ∷ tape) cs h range = elim (Bool-cases (c == 0)) [
  | inl zero_draw ↦ draw_value prime (suc count) tape cs (rw (zero_draw, draw) at h) range.1
  | inr kept ↦
      keep (draw count tape) (λ r e. draw_value prime count tape r e range.1) refl
        (rw (kept, draw) at h)
]
  where
    keep :
        (rest : Option (List ℕ))
        → ((r : List ℕ) → draw count tape ≡ some r → (length r ≡ count) × All (λ c. c < prime) r)
        → draw count tape ≡ rest
        → (rest >>= λ r. some (c ∷ r)) ≡ some cs
        → (length cs ≡ suc count) × All (λ c. c < prime) cs
    keep none ih e h' = cc
    keep (some r) ih e h' =
        let (len, all) = ih r e in
        let same : c ∷ r ≡ cs = cc in
        subst (λ xs. (length xs ≡ suc count) × All (λ d. d < prime) xs) same
          (ap suc len, (range.0, all))
