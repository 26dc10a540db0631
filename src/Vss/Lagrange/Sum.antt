-- ===== src/Vss/Lagrange/Sum.antt =====
-- About the loop of `verifiable_secret_sharing_reconstruct`.
use mathlib.Core.List.{map-append}
use native.Mathlib.Nat.{mod-lt, mul-one, zero-add}
use mpc_lib_demo.OpenSsl.{IsOpenSsl, OpenSsl, big_endian}
use mpc_lib_demo.Vss.{Share, ids}
use mpc_lib_demo.Vss.Lagrange.{lagrange_interpolate, reconstruct_loop}
use mpc_lib_demo.Vss.Lagrange.Factor.{HasInverses, factor, factor_value, interpolate_value}
use mpc_lib_demo.Base.{
  All, Cong, List, [], ap, append_assoc, arith, Cong-add, Cong-mod_left, Cong-mul, Cong-of_eq,
  Cong-refl, Cong-trans, eq_of_Cong_lt, fun_ext, get_or, length, length-append, length-map, refl,
  some, suc, sym, ℕ, ◌%◌, ◌*◌, ◌++◌, ◌+◌, ◌<◌, ◌∙◌, ◌∷◌, ◌≡◌, ◌≢◌, ◌≤◌,
}
use mpc_lib_demo.Vss.Interpolation.{ArePoints, IsFactor, eval, isum, isum-eval, weight}

-- The ids are reduced and no two are equal.
abbrev pub AreIds : ℕ → List ℕ → Type 0
AreIds field [] = Unit
AreIds field (x ∷ xs) = (x < field) × All (λ y. x ≢ y) xs × AreIds field xs

module _ (p : ℕ) (w : ℕ → ℕ → ℕ) where
  weight-append :
      (x : ℕ) (xs ys : List ℕ) → weight p w x (xs ++ ys) ≡ weight p w x xs * weight p w x ys
  weight-append x [] ys = omega arith
  weight-append x (y ∷ xs) ys = omega (arith, ap (λ (t : ℕ). w y x * t) (weight-append x xs ys))

  -- The sum over the shares of `post`, each weighed against all the others of `pre` and `post`.
  abbrev zsum : (ℕ → ℕ) → List ℕ → List ℕ → ℕ
  zsum f pre [] = 0
  zsum f pre (x ∷ post) = f x * weight p w x (pre ++ post) + zsum f (pre ++ x ∷ []) post

  zsum-eq-isum :
      (f : ℕ → ℕ) (pre post : List ℕ)
      → zsum f pre post ≡ isum p w post (λ z. f z * weight p w z pre)
  zsum-eq-isum f pre [] = refl
  zsum-eq-isum f pre (x ∷ post) = omega (
    arith,
    ap (λ (t : ℕ). f x * t) (weight-append x pre post),
    zsum-eq-isum f (pre ++ x ∷ []) post,
    ap (isum p w post) (fun_ext (regroup x)),
  )
    where
      regroup : (x z : ℕ) → f z * weight p w z (pre ++ x ∷ []) ≡ f z * weight p w z pre * w x z
      regroup x z = omega (arith, ap (λ (t : ℕ). f z * t) (weight-append z pre (x ∷ [])))

module _ (field : ℕ) where
  id-lt :
      (pre : List Share) (s : Share) (post : List Share)
      → AreIds field (ids (pre ++ s ∷ post))
      → s.id < field
  id-lt [] s post h = h.0
  id-lt (q ∷ pre) s post h = id-lt pre s post h.2

  apart_after :
      (x : ℕ) (qs : List Share)
      → x < field
      → All (λ y. x ≢ y) (ids qs)
      → AreIds field (ids qs)
      → All (λ q. (x < field) × (q.id < field) × (x ≢ q.id)) qs
  apart_after x [] hx ne h = tt
  apart_after x (q ∷ qs) hx ne h = ((hx, h.0, ne.0), apart_after x qs hx ne.1 h.2)

  apart_post :
      (pre : List Share) (s : Share) (post : List Share)
      → AreIds field (ids (pre ++ s ∷ post))
      → All (λ q. (s.id < field) × (q.id < field) × (s.id ≢ q.id)) post
  apart_post [] s post h = apart_after s.id post h.0 h.1 h.2
  apart_post (q ∷ pre) s post h = apart_post pre s post h.2

  ne_middle :
      (x : ℕ) (pre : List Share) (s : Share) (post : List Share)
      → All (λ y. x ≢ y) (ids (pre ++ s ∷ post))
      → s.id ≢ x
  ne_middle x [] s post h = λ e. h.0 (sym e)
  ne_middle x (q ∷ pre) s post h = ne_middle x pre s post h.1

  apart_pre :
      (pre : List Share) (s : Share) (post : List Share)
      → AreIds field (ids (pre ++ s ∷ post))
      → All (λ q. (s.id < field) × (q.id < field) × (s.id ≢ q.id)) pre
  apart_pre [] s post h = tt
  apart_pre (q ∷ pre) s post h =
      ((id-lt pre s post h.2, h.0, ne_middle q.id pre s post h.1), apart_pre pre s post h.2)

module _ (o : OpenSsl) (laws : IsOpenSsl o) (field : ℕ) (big : 1 < field)
    (invert : HasInverses field) where
  abbrev w : ℕ → ℕ → ℕ
  w = factor o laws field big invert

  loop_step :
      (pre : List Share) (s : Share) (post : List Share) (sum basis : ℕ) {r : ℕ}
      → lagrange_interpolate o (pre ++ s ∷ post) (length pre) field ≡ some basis
      → sum < field
      → let sum' : ℕ = (sum + (big_endian 0 s.scalar * basis) % field) % field in
        reconstruct_loop o field ((pre ++ s ∷ []) ++ post) (length (pre ++ s ∷ [])) post sum'
          ≡ some r
        → reconstruct_loop o field (pre ++ s ∷ post) (length pre) (s ∷ post) sum ≡ some r
  unfolding reconstruct_loop
  loop_step pre s post sum basis eb hs er =
      let y : ℕ = big_endian 0 s.scalar in
      rw
        (
          laws.bin2bn s.scalar,
          eb,
          laws.mod_mul y basis field (omega arith),
          laws.mod_add_quick sum ((y * basis) % field) field hs (mod-lt (y * basis) (omega arith)),
        )
        (rw (append_assoc pre (s ∷ []) post, length-append pre (s ∷ [])) at er)

  sum_step :
      (f : ℕ → ℕ) (pre : List Share) (s : Share) (post : List Share) (sum basis r : ℕ)
      → Cong field basis (weight field w s.id (ids (pre ++ post)))
      → Cong field (big_endian 0 s.scalar) (f s.id)
      → let sum' : ℕ = (sum + (big_endian 0 s.scalar * basis) % field) % field in
        Cong field r (sum' + zsum field w f (ids (pre ++ s ∷ [])) (ids post))
        → Cong field r (sum + zsum field w f (ids pre) (ids (s ∷ post)))
  sum_step f pre s post sum basis r cb value c =
      let y : ℕ = big_endian 0 s.scalar in
      let rest : ℕ = zsum field w f (ids pre ++ s.id ∷ []) (ids post) in
      let split : ids (pre ++ post) ≡ ids pre ++ ids post = map-append (λ q. q.id) pre post in
      let split' : ids (pre ++ s ∷ []) ≡ ids pre ++ s.id ∷ [] =
        map-append (λ q. q.id) pre (s ∷ []) in
      Cong-trans (rw split' at c) (
        Cong-trans
          (Cong-add
            (Cong-mod_left
              (Cong-add (Cong-refl sum) (Cong-mod_left (Cong-mul value (rw split at cb)))))
            (Cong-refl rest))
          (Cong-of_eq (omega arith)))

  -- From position `length pre` on, the loop adds the weighted values of the remaining shares.
  loop_value :
      (f : ℕ → ℕ) (pre post : List Share) (sum : ℕ)
      → AreIds field (ids (pre ++ post))
      → All (λ s. Cong field (big_endian 0 s.scalar) (f s.id)) post
      → sum < field
      → (r : ℕ) × (reconstruct_loop o field (pre ++ post) (length pre) post sum ≡ some r)
        × (r < field)
        × Cong field r (sum + zsum field w f (ids pre) (ids post))
  unfolding reconstruct_loop
  loop_value f pre [] sum distinct values hs = (sum, refl, hs, Cong-of_eq (omega arith))
  loop_value f pre (s ∷ post) sum distinct values hs =
      let (basis, eb, cb) =
        interpolate_value o laws field big invert pre s post (id-lt field pre s post distinct)
          (apart_pre field pre s post distinct) (apart_post field pre s post distinct) in
      let sum' : ℕ = (sum + (big_endian 0 s.scalar * basis) % field) % field in
      let shift : (pre ++ s ∷ []) ++ post ≡ pre ++ s ∷ post = append_assoc pre (s ∷ []) post in
      let (r, er, lt, c) =
        loop_value f (pre ++ s ∷ []) post sum' (rw shift distinct) values.1
          (mod-lt _ (omega arith)) in
      (
        r,
        loop_step pre s post sum basis eb hs er,
        lt,
        sum_step f pre s post sum basis r cb values.0 c,
      )

  -- On the shares of a polynomial with no more coefficients than there are shares, the loop ends
  -- with the constant coefficient.
  pub loop_interpolates :
      (cs : List ℕ) (s : Share) (rest : List Share)
      → AreIds field (ids (s ∷ rest))
      → All (λ q. Cong field (big_endian 0 q.scalar) (eval cs q.id)) (s ∷ rest)
      → length cs ≤ suc (length rest)
      → get_or cs 0 0 < field
      → reconstruct_loop o field (s ∷ rest) 0 (s ∷ rest) 0 ≡ some (get_or cs 0 0)
  loop_interpolates cs s rest distinct values enough reduced =
      let (r, er, lt, c) = loop_value (eval cs) [] (s ∷ rest) 0 distinct values (omega arith) in
      let constant : Cong field r (get_or cs 0 0) = Cong-trans c (
        Cong-trans
          (Cong-of_eq (
            zero-add (zsum field w (eval cs) [] (ids (s ∷ rest)))
            ∙ zsum-eq-isum field w (eval cs) [] (ids (s ∷ rest))
            ∙ ap (isum field w (ids (s ∷ rest))) (fun_ext (λ z. mul-one (eval cs z)))))
          (isum-eval field w cs s.id (ids rest) (points (s ∷ rest) distinct)
            (omega (arith, length-map rest (λ q. q.id))))) in
      er ∙ ap some (eq_of_Cong_lt field r (get_or cs 0 0) lt reduced constant)
    where
      points_after :
          (x : ℕ) (qs : List Share)
          → x < field
          → All (λ y. x ≢ y) (ids qs)
          → AreIds field (ids qs)
          → All (λ y. IsFactor field w y x × IsFactor field w x y) (ids qs)
      points_after x [] hx ne h = tt
      points_after x (q ∷ qs) hx ne h = (
        (
          (factor_value o laws field big invert x q.id (hx, h.0, ne.0)).1,
          (factor_value o laws field big invert q.id x (h.0, hx, λ e. ne.0 (sym e))).1,
        ),
        points_after x qs hx ne.1 h.2,
      )

      points : (qs : List Share) → AreIds field (ids qs) → ArePoints field w (ids qs)
      points [] h = tt
      points (q ∷ qs) h = (points_after q.id qs h.0 h.1 h.2, points qs h.2)
