-- ===== src/ZeroKnowledge/DiffieHellman/Completeness.antt =====
-- About the generation and the verification of proofs in diffie_hellman_log.c.
use mpc_lib_demo.Algebra
use mpc_lib_demo.ZeroKnowledge.{success}
use mpc_lib_demo.ZeroKnowledge.DiffieHellman.{
  LogZkp, PublicData, begin_proof, equal_points, finish_proof, generate, same_bytes, verify,
  verify_equations,
}
use mpc_lib_demo.Algebra.{Algebra, point_len}
use mpc_lib_demo.Algebra.Curve.{IsCurve, scalar_given}
use mpc_lib_demo.OpenSsl.{big_endian}
use mpc_lib_demo.Base.{
  ==_refl, All, Bytes, Cong, Cong-add, Cong-mul_left, Cong-of_eq, Cong-refl, Cong-trans, IsByte, [],
  arith, false, is_empty, length, ok, refl, some, suc, true, zero, ℕ, ◌*◌, ◌+◌, ◌∷◌, ◌≡◌,
}
use mpc_lib_demo.ZeroKnowledge.DiffieHellman.Challenge.{
  FindsBelow, challenge_source, generate_e-found, generate_e-scalars,
}
use mpc_lib_demo.Drng.{overlaps}
use mpc_lib_demo.Commitments.{IsSha256, Sha256}

same_bytes_refl : (a : Bytes) (n : ℕ) → same_bytes a a n ≡ true
unfolding same_bytes
same_bytes_refl a zero = refl
same_bytes_refl [] (suc n) = refl
same_bytes_refl (x ∷ a) (suc n) = rw (==_refl x) (same_bytes_refl a n)

equal_points_refl : (p : Bytes) → equal_points p p ≡ ok tt
unfolding equal_points
equal_points_refl p = rw (same_bytes_refl p point_len) refl

module _ (algebra : Algebra) (order : ℕ) (point : ℕ → Bytes)
    (curve : IsCurve algebra order point) where
  -- What the three comparisons need of the two scalars, for a base point that is the multiple of
  -- the generator by `h`.
  record Answers (h : ℕ) (secret a b d y e z w : Bytes) : Type 0 where
    pub z_length : length z ≡ 32
    pub w_length : length w ≡ 32
    pub z_value : Cong order (big_endian 0 z) (big_endian 0 e * big_endian 0 b + big_endian 0 d)
    pub w_value :
        Cong order (big_endian 0 w) (big_endian 0 e * big_endian 0 secret + big_endian 0 y)

  -- The public data of the secret, and the points that open a proof
  abbrev pub values_of : ℕ → Bytes → Bytes → Bytes → PublicData
  values_of h secret a b = record {
    a = point (big_endian 0 a);
    b = point (big_endian 0 b);
    c = point (big_endian 0 a * big_endian 0 b + big_endian 0 secret);
    x = point (h * big_endian 0 secret);
  }

  abbrev pub opening_of : ℕ → Bytes → Bytes → Bytes → LogZkp
  opening_of h a d y = record {
    d = point (big_endian 0 d);
    y = point (h * big_endian 0 y);
    v = point (big_endian 0 a * big_endian 0 d + big_endian 0 y);
    w = [];
    z = [];
  }

  begin_proof_value :
      (h : ℕ) (a d y : Bytes)
      → length a ≡ 32
      → length d ≡ 32
      → length y ≡ 32
      → begin_proof algebra (Algebra.success, d) (Algebra.success, y) (point h) a
        ≡ ok (record { proof = opening_of h a d y; d = d; y = y })
  unfolding begin_proof
  begin_proof_value h a d y la ld ly =
      let (product, (times, small), product_value) =
        curve.mul_scalars a d (scalar_given a la) (scalar_given d ld) in
      let (sum, (plus, small'), sum_value) =
        curve.add_scalars product y (scalar_given product small.0) (scalar_given y ly) in
      rw
        (
          curve.generator_mul d ld,
          curve.point_mul h y ly,
          times,
          plus,
          curve.generator_mul sum small'.0,
          curve.point_eq (big_endian 0 sum) (big_endian 0 a * big_endian 0 d + big_endian 0 y)
              (Cong-trans sum_value (Cong-add product_value (Cong-refl (big_endian 0 y)))),
        )
        refl

  finish_proof_value :
      (h : ℕ) (secret a b d y e : Bytes) (proof : LogZkp)
      → length secret ≡ 32
      → length b ≡ 32
      → length d ≡ 32
      → length y ≡ 32
      → length e ≡ 32
      → (z w : Bytes) × (finish_proof algebra (record { proof = proof; d = d; y = y }) e secret b
          ≡ ok (record proof { w = w; z = z }))
        × Answers h secret a b d y e z w
  unfolding finish_proof
  finish_proof_value h secret a b d y e proof ls lb ld ly le =
      let (e_b, (times, small), e_b_value) =
        curve.mul_scalars e b (scalar_given e le) (scalar_given b lb) in
      let (z, (plus, small_z), z_value) =
        curve.add_scalars e_b d (scalar_given e_b small.0) (scalar_given d ld) in
      let (e_s, (times', small'), e_s_value) =
        curve.mul_scalars e secret (scalar_given e le) (scalar_given secret ls) in
      let (w, (plus', small_w), w_value) =
        curve.add_scalars e_s y (scalar_given e_s small'.0) (scalar_given y ly) in
      (
        z,
        w,
        rw (times, plus, times', plus') refl,
        record {
          z_length = small_z.0;
          w_length = small_w.0;
          z_value = Cong-trans z_value (Cong-add e_b_value (Cong-refl (big_endian 0 d)));
          w_value = Cong-trans w_value (Cong-add e_s_value (Cong-refl (big_endian 0 y)));
        },
      )

  verify_equations_hold :
      (h : ℕ) (secret a b d y e z w : Bytes)
      → length e ≡ 32
      → Answers h secret a b d y e z w
      → verify_equations algebra e
          (point h)
          (values_of h secret a b)
          (record (opening_of h a d y) { w = w; z = z })
        ≡ ok tt
  unfolding verify_equations
  verify_equations_hold h secret a b d y e z w le ans =
      let va : ℕ = big_endian 0 a in
      let vb : ℕ = big_endian 0 b in
      let vs : ℕ = big_endian 0 secret in
      let vd : ℕ = big_endian 0 d in
      let vy : ℕ = big_endian 0 y in
      let ve : ℕ = big_endian 0 e in
      let vz : ℕ = big_endian 0 z in
      let vw : ℕ = big_endian 0 w in
      let first : point vz ≡ point (vb * ve + vd) =
        curve.point_eq vz (vb * ve + vd) (
          Cong-trans ans.z_value
            (Cong-of_eq {a = ve * vb + vd} {b = vb * ve + vd} (omega arith))) in
      let second : point (h * vw) ≡ point (h * vs * ve + h * vy) =
        curve.point_eq (h * vw) (h * vs * ve + h * vy) (
          Cong-trans (Cong-mul_left h ans.w_value)
            (Cong-of_eq {a = h * (ve * vs + vy)} {b = h * vs * ve + h * vy} (omega arith))) in
      let third : point (va * vz + vw) ≡ point ((va * vb + vs) * ve + (va * vd + vy)) =
        curve.point_eq (va * vz + vw) ((va * vb + vs) * ve + (va * vd + vy)) (
          Cong-trans (Cong-add (Cong-mul_left va ans.z_value) ans.w_value) (
            Cong-of_eq {a = va * (ve * vb + vd) + (ve * vs + vy)}
              {b = (va * vb + vs) * ve + (va * vd + vy)} (omega arith))) in
      rw
        (
          curve.generator_mul z ans.z_length,
          curve.point_mul vb e le,
          curve.add_points (vb * ve) vd,
          first,
          equal_points_refl (point (vb * ve + vd)),
          curve.point_mul h w ans.w_length,
          curve.point_mul (h * vs) e le,
          curve.add_points (h * vs * ve) (h * vy),
          second,
          equal_points_refl (point (h * vs * ve + h * vy)),
          curve.point_mul va z ans.z_length,
          curve.generator_mul w ans.w_length,
          curve.add_points (va * vz) vw,
          third,
          curve.point_mul (va * vb + vs) e le,
          curve.add_points ((va * vb + vs) * ve) (va * vd + vy),
          equal_points_refl (point ((va * vb + vs) * ve + (va * vd + vy))),
        )
        refl

  module _ (sha : Sha256) (is_sha : IsSha256 sha) (sha512 : Bytes → Bytes)
      (digest_length : (message : Bytes) → length (sha512 message) ≡ 64) (rng_at e_at fuel : ℕ)
      (apart : overlaps rng_at e_at 32 ≡ false) (order_bytes : All IsByte algebra.order)
      (order_length : length algebra.order ≡ 32) where
    -- When the order, the secrets and the nonces have 32 bytes, the nonces are found, and a block
    -- of the challenge's stream is below the order within the fuel, a proof is made for a base
    -- point and public data that belong to the secret, and data that are not empty; it is accepted
    -- with them.
    pub log_generate-verify :
        (h : ℕ) (aad secret a b d y : Bytes)
        → is_empty aad ≡ false
        → length secret ≡ 32
        → length a ≡ 32
        → length b ≡ 32
        → length d ≡ 32
        → length y ≡ 32
        → FindsBelow sha512 (big_endian 0 algebra.order) fuel (
            challenge_source sha sha512 digest_length rng_at e_at fuel apart algebra order_bytes
              order_length aad
              (point h)
              (values_of h secret a b)
              (opening_of h a d y))
        → (proof : LogZkp) × (generate sha sha512 true rng_at e_at fuel
              (Algebra.success, d)
              (Algebra.success, y)
              (some algebra)
              (some aad)
              (some (point h))
              (some secret)
              (some a)
              (some b)
              (some (values_of h secret a b))
              true
            ≡ some (ok proof))
          × (verify sha sha512 true rng_at e_at fuel
                (some algebra)
                (some aad)
                (some (point h))
                (some (values_of h secret a b))
                (some proof)
              ≡ some success)
    unfolding generate verify
    log_generate-verify h aad secret a b d y given ls la lb ld ly finds =
        let values : PublicData = values_of h secret a b in
        let opening : LogZkp = opening_of h a d y in
        let (e, found, below, le) =
          generate_e-found sha sha512 digest_length rng_at e_at fuel apart algebra order_bytes
            order_length aad (point h) values opening is_sha finds in
        let (z, w, finished, ans) = finish_proof_value h secret a b d y e opening ls lb ld ly le in
        (
          record opening { w = w; z = z },
          rw (given, begin_proof_value h a d y la ld ly, found, finished) refl,
          rw
              (
                given,
                generate_e-scalars sha sha512 digest_length rng_at e_at fuel apart algebra
                    order_bytes order_length aad (point h) values opening w z,
                found,
                verify_equations_hold h secret a b d y e z w le ans,
              )
              refl,
        )
