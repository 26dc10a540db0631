-- ===== src/Vss/Lagrange/Factor.antt =====
-- About `lagrange_interpolate` and the product of the factors y / (y - x).
use mathlib.Core.Option
use native.Mathlib.Nat.{mod-lt, mod-eq_of_lt}
use mpc_lib_demo.Base.{
  ==_refl, All, Cong, List, [], arith, Cong-add, Cong-mod, Cong-mul_left, Cong-mul_right,
  Cong-of_eq, Cong-of_mod-eq, Cong-refl, Cong-symm, Cong-trans, get_elem?-append, length,
  ne→==false, refl, some, sub_mod-Cong, sub_mod-pos, sym, ℕ, ◌%◌, ◌*◌, ◌++◌, ◌+◌, ◌-◌, ◌<◌, ◌∙◌,
  ◌∷◌, ◌≡◌, ◌≢◌,
}
use mpc_lib_demo.OpenSsl.{IsOpenSsl, OpenSsl}
use mpc_lib_demo.Vss.{Share, ids}
use mpc_lib_demo.Vss.Interpolation.{IsFactor, weight}
use mpc_lib_demo.Vss.Lagrange.{lagrange_factor, lagrange_interpolate, lagrange_loop}

-- Every number but zero has an inverse modulo `m`, as it has when `m` is prime.
abbrev pub HasInverses : ℕ → Type 0
HasInverses m = (a : ℕ) → 0 < a → a < m → (u : ℕ) × ((a * u) % m ≡ 1)

module _ (o : OpenSsl) (laws : IsOpenSsl o) (field : ℕ) (big : 1 < field)
    (invert : HasInverses field) where
  pub factor : ℕ → ℕ → ℕ
  factor y x = Option.get_or (lagrange_factor o x y field) 0

  abbrev pub AreApart : ℕ → ℕ → Type 0
  AreApart x y = (x < field) × (y < field) × (x ≢ y)

  factor_steps :
      (x y v : ℕ)
      → AreApart x y
      → o.bn_mod_inverse ((y + field - x) % field) field ≡ some v
      → lagrange_factor o x y field ≡ some ((v * y) % field)
  unfolding lagrange_factor
  factor_steps x y v (hx, hy, ne) found =
      rw
        (
          laws.set_word y,
          laws.mod_sub_quick y x field hy hx,
          found,
          laws.mod_mul v y field (omega arith),
        )
        refl

  factor_inverts :
      (x y v : ℕ)
      → AreApart x y
      → ((y + field - x) % field * v) % field ≡ 1
      → Cong field (v * y) (1 + v * x)
  factor_inverts x y v (hx, hy, ne) one =
      let d : ℕ = (y + field - x) % field in
      Cong-trans (Cong-mul_left v (Cong-symm (sub_mod-Cong x y field hx hy))) (
        Cong-trans (Cong-of_eq {b = d * v + v * x} (omega arith)) (
          Cong-add (Cong-of_mod-eq field (d * v) 1 (one ∙ sym (mod-eq_of_lt big)))
            (Cong-refl (v * x))))

  factor_of :
      (x y v : ℕ)
      → lagrange_factor o x y field ≡ some ((v * y) % field)
      → Cong field (v * y) (1 + v * x)
      → (lagrange_factor o x y field ≡ some (factor y x)) × IsFactor field factor y x
  unfolding factor
  factor_of x y v e inverts =
      rw e (
        refl,
        record { inverse = v; inverts = inverts; is_quotient = rw e (Cong-mod field (v * y)) },
      )

  pub factor_value :
      (x y : ℕ)
      → AreApart x y
      → (lagrange_factor o x y field ≡ some (factor y x)) × IsFactor field factor y x
  factor_value x y (hx, hy, ne) =
      let d : ℕ = (y + field - x) % field in
      let (u, one_u) =
        invert d (sub_mod-pos x y field hx hy ne) (mod-lt (y + field - x) (omega arith)) in
      let (v, found, one_v, v_lt) = laws.mod_inverse d u field big one_u in
      factor_of x y v (factor_steps x y v (hx, hy, ne) found)
        (factor_inverts x y v (hx, hy, ne) one_v)

  -- Over shares that are not at `index` the loop multiplies their factors onto `p`.
  loop_plain :
      (x index i : ℕ) (rest : List Share) (p : ℕ)
      → index < i
      → x < field
      → All (λ s. AreApart x s.id) rest
      → (r : ℕ) × (lagrange_loop o field x index i rest p ≡ some r)
        × Cong field r (p * weight field factor x (ids rest))
  unfolding lagrange_loop
  loop_plain x index i [] p later hx h = (p, refl, Cong-of_eq (omega arith))
  loop_plain x index i (s ∷ rest) p later hx h =
      let (e, f) = factor_value x s.id h.0 in
      let (r, er, c) =
        loop_plain x index (i + 1) rest ((p * factor s.id x) % field) (omega arith) hx h.1 in
      (
        r,
        rw (ne→==false i index (omega arith), e, laws.mod_mul p (factor s.id x) field (omega arith))
            er,
        Cong-trans c (
            Cong-trans
              (Cong-mul_right (weight field factor x (ids rest))
                (Cong-mod field (p * factor s.id x)))
              (Cong-of_eq (omega arith))),
      )

  loop_skip :
      (x index i : ℕ) (pre : List Share) (s : Share) (post : List Share) (p : ℕ)
      → i + length pre ≡ index
      → x < field
      → All (λ s. AreApart x s.id) pre
      → All (λ s. AreApart x s.id) post
      → (r : ℕ) × (lagrange_loop o field x index i (pre ++ s ∷ post) p ≡ some r)
        × Cong field r (p * weight field factor x (ids (pre ++ post)))
  unfolding lagrange_loop
  loop_skip x index i [] s post p at hx hpre hpost =
      let (r, er, c) = loop_plain x index (i + 1) post p (omega arith) hx hpost in
      let here : i ≡ index = omega arith in (r, rw (here, ==_refl index) (rw (← here) er), c)
  loop_skip x index i (q ∷ pre) s post p at hx hpre hpost =
      let (e, f) = factor_value x q.id hpre.0 in
      let (r, er, c) =
        loop_skip x index (i + 1) pre s post ((p * factor q.id x) % field) (omega arith) hx hpre.1
          hpost in
      (
        r,
        rw (ne→==false i index (omega arith), e, laws.mod_mul p (factor q.id x) field (omega arith))
            er,
        Cong-trans c (
            Cong-trans
              (Cong-mul_right (weight field factor x (ids (pre ++ post)))
                (Cong-mod field (p * factor q.id x)))
              (Cong-of_eq (omega arith))),
      )

  -- `lagrange_interpolate` at the position of a share returns the weight of its id among the
  -- others, modulo the order.
  pub interpolate_value :
      (pre : List Share) (s : Share) (post : List Share)
      → s.id < field
      → All (λ q. AreApart s.id q.id) pre
      → All (λ q. AreApart s.id q.id) post
      → (r : ℕ) × (lagrange_interpolate o (pre ++ s ∷ post) (length pre) field ≡ some r)
        × Cong field r (weight field factor s.id (ids (pre ++ post)))
  unfolding lagrange_interpolate
  interpolate_value pre s post hs hpre hpost =
      let (r, er, c) = loop_skip s.id (length pre) 0 pre s post 1 (omega arith) hs hpre hpost in
      (
        r,
        rw (get_elem?-append pre s post, laws.set_word s.id) er,
        Cong-trans c (Cong-of_eq (omega arith)),
      )
