-- ===== src/Vss/Interpolation.antt =====
-- Lagrange interpolation at zero, modulo `p`, over factors y / (y - x) that are only known by the
-- congruences that they satisfy: the arithmetic on which the reconstruction of a secret rests.
use mpc_lib_demo.Base.{
  All, Cong, List, [], ap, arith, Cong-add, Cong-add_cancel, Cong-mul_left, Cong-mul_right,
  Cong-of_eq, Cong-refl, Cong-symm, Cong-trans, fun_ext, get_or, length, refl, suc, ℕ, ◌*◌, ◌+◌,
  ◌∙◌, ◌∷◌, ◌≡◌, ◌≤◌,
}

-- A polynomial by its coefficients, the constant first.
abbrev pub eval : List ℕ → ℕ → ℕ
eval [] z = 0
eval (c ∷ cs) z = c + z * eval cs z

module _ (p : ℕ) (w : ℕ → ℕ → ℕ) where
  -- `w y x` is y / (y - x).
  pub record IsFactor (y x : ℕ) : Type 0 where
    pub inverse : ℕ
    pub inverts : Cong p (inverse * y) (1 + inverse * x)
    pub is_quotient : Cong p (w y x) (inverse * y)

  -- The product of the factors of `x` over the other points.
  abbrev pub weight : ℕ → List ℕ → ℕ
  weight x [] = 1
  weight x (y ∷ ys) = w y x * weight x ys

  -- The sum of the values `c x`, each times the weight of its point among the others.
  abbrev pub isum : List ℕ → (ℕ → ℕ) → ℕ
  isum [] c = 0
  isum (x ∷ xs) c = c x * weight x xs + isum xs (λ z. c z * w x z)

  -- Any two of the points have their factors.
  abbrev pub ArePoints : List ℕ → Type 0
  ArePoints [] = Unit
  ArePoints (x ∷ xs) = All (λ y. IsFactor y x × IsFactor x y) xs × ArePoints xs

  factor_lem : {y x : ℕ} → IsFactor y x → Cong p (w y x * y) (y + w y x * x)
  factor_lem {y} {x} f = Cong-trans (Cong-mul_right y f.is_quotient) (
      Cong-trans (Cong-of_eq (omega arith)) (
        Cong-trans (Cong-mul_left y f.inverts) (
          Cong-trans (Cong-of_eq (omega arith))
            (Cong-add (Cong-refl y) (Cong-mul_right x (Cong-symm f.is_quotient))))))

  cancel_factor :
      {y x : ℕ} (a b : ℕ) → IsFactor y x → Cong p (y * a + x * b) (x * a + y * b) → Cong p a b
  cancel_factor {y} {x} a b f h =
      let v : ℕ = f.inverse in
      Cong-add_cancel (v * x * a + v * x * b) (
        Cong-trans (Cong-of_eq {b = (1 + v * x) * a + v * x * b} (omega arith)) (
          Cong-trans (Cong-add (Cong-mul_right a (Cong-symm f.inverts)) (Cong-refl (v * x * b))) (
            Cong-trans (Cong-of_eq {b = v * (y * a + x * b)} (omega arith)) (
              Cong-trans (Cong-mul_left v h) (
                Cong-trans (Cong-of_eq {b = v * x * a + v * y * b} (omega arith)) (
                  Cong-trans (Cong-add (Cong-refl (v * x * a)) (Cong-mul_right b f.inverts))
                    (Cong-of_eq (omega arith))))))))

  isum-Cong :
      (xs : List ℕ) (c d : ℕ → ℕ)
      → All (λ z. Cong p (c z) (d z)) xs
      → Cong p (isum xs c) (isum xs d)
  isum-Cong [] c d h = Cong-refl 0
  isum-Cong (x ∷ xs) c d h =
      Cong-add (Cong-mul_right (weight x xs) h.0)
        (isum-Cong xs (λ z. c z * w x z) (λ z. d z * w x z) (scale_all xs h.1))
    where
      scale_all :
          (ys : List ℕ)
          → All (λ z. Cong p (c z) (d z)) ys
          → All (λ z. Cong p (c z * w x z) (d z * w x z)) ys
      scale_all [] h = tt
      scale_all (y ∷ ys) h = (Cong-mul_right (w x y) h.0, scale_all ys h.1)

  isum_ext : (xs : List ℕ) (c d : ℕ → ℕ) → ((z : ℕ) → c z ≡ d z) → isum xs c ≡ isum xs d
  isum_ext xs c d h = ap (isum xs) (fun_ext h)

  isum_add : (xs : List ℕ) (c d : ℕ → ℕ) → isum xs (λ z. c z + d z) ≡ isum xs c + isum xs d
  isum_add [] c d = refl
  isum_add (x ∷ xs) c d = omega (
    arith,
    isum_ext xs (λ z. (c z + d z) * w x z) (λ z. c z * w x z + d z * w x z) (λ z. omega arith),
    isum_add xs (λ z. c z * w x z) (λ z. d z * w x z),
  )

  isum_scale : (k : ℕ) (xs : List ℕ) (c : ℕ → ℕ) → isum xs (λ z. k * c z) ≡ k * isum xs c
  isum_scale k [] c = omega arith
  isum_scale k (x ∷ xs) c = omega (
    arith,
    isum_ext xs (λ z. k * c z * w x z) (λ z. k * (c z * w x z)) (λ z. omega arith),
    isum_scale k xs (λ z. c z * w x z),
  )

  isum_swap : (x y : ℕ) (xs : List ℕ) (c : ℕ → ℕ) → isum (x ∷ y ∷ xs) c ≡ isum (y ∷ x ∷ xs) c
  isum_swap x y xs c =
      omega (
        arith,
        isum_ext xs (λ z. c z * w x z * w y z) (λ z. c z * w y z * w x z) (λ z. omega arith),
      )

  -- Dropping the point x from the sum of h is x - z, as a factor of h.
  isum_drop :
      (x : ℕ) (xs : List ℕ) (h : ℕ → ℕ)
      → ArePoints (x ∷ xs)
      → Cong p (isum (x ∷ xs) (λ z. z * h z) + x * isum xs h) (x * isum (x ∷ xs) h)
  isum_drop x xs h v =
      Cong-trans
        (Cong-of_eq {b = x * (h x * weight x xs) + isum xs (λ z. z * h z * w x z + x * h z)}
          (omega (arith, isum_add xs (λ z. z * h z * w x z) (λ z. x * h z), isum_scale x xs h)))
        (Cong-trans
          (Cong-add (Cong-refl (x * (h x * weight x xs))) (
            isum-Cong xs (λ z. z * h z * w x z + x * h z) (λ z. x * (h z * w x z))
              (factors xs v.0)))
          (Cong-of_eq (omega (arith, isum_scale x xs (λ z. h z * w x z)))))
    where
      factors :
          (ys : List ℕ)
          → All (λ y. IsFactor y x × IsFactor x y) ys
          → All (λ z. Cong p (z * h z * w x z + x * h z) (x * (h z * w x z))) ys
      factors [] f = tt
      factors (y ∷ ys) f = (
        Cong-trans (Cong-of_eq {b = (x + w x y * y) * h y} (omega arith)) (
            Cong-trans (Cong-mul_right (h y) (Cong-symm (factor_lem f.0.1)))
              (Cong-of_eq (omega arith))),
        factors ys f.1,
      )

  isum_one : (x : ℕ) (xs : List ℕ) → ArePoints (x ∷ xs) → Cong p (isum (x ∷ xs) (λ z. 1)) 1
  isum_one x [] v = Cong-refl 1
  isum_one x (y ∷ xs) v =
      let swapped : ArePoints (y ∷ x ∷ xs) = (((v.0.0.1, v.0.0.0), v.1.0), (v.0.1, v.1.1)) in
      let total : ℕ = isum (x ∷ y ∷ xs) (λ z. 1) in
      let moment : ℕ = isum (x ∷ y ∷ xs) (λ z. z * 1) in
      let drop_x : Cong p (moment + x * 1) (x * total) =
        Cong-trans (Cong-add (Cong-refl moment) (Cong-mul_left x (Cong-symm (isum_one y xs v.1))))
          (isum_drop x (y ∷ xs) (λ z. 1) v) in
      let drop_y : Cong p (moment + y * 1) (y * total) =
        Cong-trans
          (Cong-add (Cong-of_eq (isum_swap x y xs (λ z. z * 1)))
            (Cong-mul_left y (Cong-symm (isum_one x xs (v.0.1, v.1.1)))))
          (Cong-trans (isum_drop y (x ∷ xs) (λ z. 1) swapped)
            (Cong-mul_left y (Cong-of_eq (isum_swap y x xs (λ z. 1))))) in
      cancel_factor total 1 v.0.0.0 (
        Cong-trans (Cong-add (Cong-symm drop_y) (Cong-refl (x * 1))) (
          Cong-trans (Cong-of_eq {b = moment + x * 1 + y * 1} (omega arith))
            (Cong-add drop_x (Cong-refl (y * 1)))))

  isum_zero : (xs : List ℕ) → isum xs (λ z. 0) ≡ 0
  isum_zero [] = refl
  isum_zero (x ∷ xs) =
      omega (arith, isum_ext xs (λ z. 0 * w x z) (λ z. 0) (λ z. omega arith), isum_zero xs)

  isum_times :
      (x : ℕ) (xs : List ℕ) (g : ℕ → ℕ) (r : ℕ)
      → ArePoints (x ∷ xs)
      → Cong p (isum xs g) r
      → Cong p (isum (x ∷ xs) g) r
      → Cong p (isum (x ∷ xs) (λ z. z * g z)) 0
  isum_times x xs g r v inner outer = Cong-add_cancel (x * r) (
      Cong-trans
        (Cong-add (Cong-refl (isum (x ∷ xs) (λ z. z * g z))) (Cong-mul_left x (Cong-symm inner)))
        (Cong-trans (isum_drop x xs g v)
          (Cong-trans (Cong-mul_left x outer) (Cong-of_eq (omega arith)))))

  -- A polynomial with constant coefficient `c`, and a rest whose multiples by z vanish.
  isum_head :
      (c x : ℕ) (xs : List ℕ) (g : ℕ → ℕ)
      → ArePoints (x ∷ xs)
      → Cong p (isum (x ∷ xs) (λ z. z * g z)) 0
      → Cong p (isum (x ∷ xs) (λ z. c + z * g z)) c
  isum_head c x xs g v vanishes =
      Cong-trans
        (Cong-of_eq (
          isum_add (x ∷ xs) (λ z. c) (λ z. z * g z)
          ∙ ap (λ t. t + isum (x ∷ xs) (λ z. z * g z))
              (isum_ext (x ∷ xs) (λ z. c) (λ z. c * 1) (λ z. omega arith)
                ∙ isum_scale c (x ∷ xs) (λ z. 1))))
        (Cong-trans (Cong-add (Cong-mul_left c (isum_one x xs v)) vanishes)
          (Cong-of_eq (omega arith)))

  -- The weighted sum of the values of a polynomial with no more coefficients than there are points
  -- is its constant coefficient.
  pub isum-eval :
      (cs : List ℕ) (x : ℕ) (xs : List ℕ)
      → ArePoints (x ∷ xs)
      → length cs ≤ suc (length xs)
      → Cong p (isum (x ∷ xs) (eval cs)) (get_or cs 0 0)
  isum-eval [] x xs v h = Cong-of_eq (isum_zero (x ∷ xs))
  isum-eval (c ∷ []) x xs v h =
      isum_head c x xs (λ z. 0) v
        (isum_times x xs (λ z. 0) 0 v (Cong-of_eq (isum_zero xs)) (Cong-of_eq (isum_zero (x ∷ xs))))
  isum-eval (c ∷ d ∷ ds) x [] v h = absurd (omega arith)
  isum-eval (c ∷ d ∷ ds) x (y ∷ ys) v h = isum_head c x (y ∷ ys) (eval (d ∷ ds)) v (
      isum_times x (y ∷ ys) (eval (d ∷ ds)) d v (isum-eval (d ∷ ds) y ys v.1 (omega arith))
        (isum-eval (d ∷ ds) x (y ∷ ys) v (omega arith)))
