-- ===== src/SecretSharing/Decoding.antt =====
-- The decoder `rs_decode` of secretsharing.h: it returns, and what it returns is a decoding.
use ab_prototype.Prelude.{
  ℕ, zero, suc, ◌+◌, ◌*◌, ◌≤◌, ◌<◌, ◌≡◌, refl, sym, ap, ◌∙◌, Bool, true, false, not, ◌&&◌, Option,
  some, List, [], ◌∷◌, map, length, leb, ltb, ◌==◌, if◌then◌else◌, count_from, ltb→lt, Bool-cases,
  and_true_right, inl, inr, arith, map_ext,
}
use ab_prototype.ZzP.{ZzP, ◌⊕◌, ◌⊖◌}
use ab_prototype.ZzP.Laws.{zero-add, sub_self}
use ab_prototype.SecretSharing.{
  Poly, points_where, max_errors, partial_gcd, degree_at_most, gao_decode, rs_decode,
}

pub leb-true : (m n : ℕ) → m ≤ n → leb m n ≡ true
leb-true m n h = ground arith

module _ {A : Type 0} ⦃z : ZzP A⦄ where
  is_zero_of_iff :
      (a b : A) → (a ≡ z.zero → b ≡ z.zero) → (b ≡ z.zero → a ≡ z.zero) → z.is_zero a ≡ z.is_zero b
  is_zero_of_iff a b f g = elim (Bool-cases (z.is_zero a)) [
    | inl e ↦ e ∙ sym ((z.is_zero_iff b).1 (f ((z.is_zero_iff a).0 e)))
    | inr e ↦ elim (Bool-cases (z.is_zero b)) [
      | inl e' ↦ (z.is_zero_iff a).1 (g ((z.is_zero_iff b).0 e')) ∙ sym e'
      | inr e' ↦ e ∙ sym e'
    ]
  ]

  is_zero-sub : (s : A) → z.is_zero (z.zero ⊖ s) ≡ z.is_zero s
  is_zero-sub s = is_zero_of_iff (z.zero ⊖ s) s there back
    where
      there : z.zero ⊖ s ≡ z.zero → s ≡ z.zero
      there e =
          sym (z.add-zero s)
          ∙ ap (◌⊕◌ s) (sym e)
          ∙ ap (◌⊕◌ s) (z.sub_lem z.zero s ∙ zero-add (z.neg s))
          ∙ z.add-neg s

      back : s ≡ z.zero → z.zero ⊖ s ≡ z.zero
      back e = rw e (sub_self z.zero)

  points_where_ext :
      (f g : A → A → Bool)
      → ((x s : A) → f x s ≡ g x s)
      → (xvals shares : List A) → points_where f xvals shares ≡ points_where g xvals shares
  unfolding points_where
  points_where_ext f g h [] shares = refl
  points_where_ext f g h (x ∷ xvals) [] = refl
  points_where_ext f g h (x ∷ xvals) (s ∷ shares) = rw (h x s, points_where_ext f g h xvals shares)

module _ (A P : Type 0) ⦃z : ZzP A⦄ ⦃p : Poly A P⦄ where
  -- A decoding: a polynomial of degree at most d, whose low coefficients are the secrets, and which
  -- differs from the shares exactly at the errors.
  pub record IsDecoding (xvals shares : List A) (d ell : ℕ) (secrets errors : List A) : Type 0 where
    pub polynomial : P
    pub degree : p.len polynomial ≤ d + 1
    pub is_secrets : secrets ≡ map (p.coeff polynomial) (count_from ell 0)
    pub is_errors :
        errors ≡ points_where (λ x s. not (z.is_zero (z.sub (p.eval polynomial x) s))) xvals shares

  -- A success with a decoding, or a failure with nothing.
  unfoldable pub IsResult : List A → List A → ℕ → ℕ → Bool × List A × List A → Type 0
  IsResult xvals shares d ell (true, secrets, errors) = IsDecoding xvals shares d ell secrets errors
  IsResult xvals shares d ell (false, secrets, errors) = (secrets ≡ []) × (errors ≡ [])

  -- More fuel than the divisor is long is enough.
  partial_gcd-returns :
      (fuel bound : ℕ) (a b t0 t1 : P)
      → p.len b < fuel
      → 0 < p.len b
      → 0 < bound
      → (g : P) × (v : P) × (partial_gcd A P fuel bound a b t0 t1 ≡ some (g, v))
  unfolding partial_gcd
  partial_gcd-returns zero bound a b t0 t1 h h' k = absurd (omega arith)
  partial_gcd-returns (suc fuel) bound a b t0 t1 h h' k =
      by_length (ltb (2 * p.len r) bound) refl
        (λ lt lt'. partial_gcd-returns fuel bound b r t1 t2 lt lt' k)
    where
      r : P
      r = (p.div_rem a b).1

      t2 : P
      t2 = p.sub_poly t0 (p.mul_poly (p.div_rem a b).0 t1)

      by_length :
          (small : Bool)
          → ltb (2 * p.len r) bound ≡ small
          → (p.len r < fuel
              → 0 < p.len r
              → (g : P) × (v : P) × (partial_gcd A P fuel bound b r t1 t2 ≡ some (g, v)))
          → (g : P) × (v : P) × (partial_gcd A P (suc fuel) bound a b t0 t1 ≡ some (g, v))
      by_length true e more = (r, t2, rw (partial_gcd, e) refl)
      by_length false e more =
          let (g, v, run) = more (omega (arith, p.len-rem a b h')) (ground (arith, e)) in
          (g, v, rw (partial_gcd, e) run)

  -- Step 0 is a decoding, of the zero polynomial.
  zero-IsDecoding :
      (xvals shares : List A) (d ell : ℕ)
      → IsDecoding xvals shares d ell
          (map (λ i. z.zero) (count_from ell 0))
          (points_where (λ x s. not (z.is_zero s)) xvals shares)
  zero-IsDecoding xvals shares d ell = record {
    polynomial = p.zero_poly;
    degree = omega (arith, p.len-zero_poly);
    is_secrets =
        map_ext (λ i. z.zero) (p.coeff p.zero_poly) (λ i. sym (p.coeff-zero_poly i))
          (count_from ell 0);
    is_errors =
        points_where_ext (λ x s. not (z.is_zero s))
          (λ x s. not (z.is_zero (z.sub (p.eval p.zero_poly x) s)))
          (λ x s.
            ap not (sym (ap (λ a. z.is_zero (z.sub a s)) (p.eval-zero_poly x) ∙ is_zero-sub s)))
          xvals shares;
  }

  IsResult-if :
      (xvals shares : List A) (d ell : ℕ) (b : Bool) (x y : Bool × List A × List A)
      → (b ≡ true → IsResult xvals shares d ell x)
      → IsResult xvals shares d ell y
      → IsResult xvals shares d ell (if b then x else y)
  IsResult-if xvals shares d ell true x y f g = f refl
  IsResult-if xvals shares d ell false x y f g = g

  degree_at_most-le : (q : P) (d : ℕ) → degree_at_most A P q d ≡ true → p.len q ≤ d + 1
  unfolding degree_at_most
  degree_at_most-le q d e =
      let lt : p.len q < d + 2 =
        ltb→lt (p.len q) (d + 2) (and_true_right (not (p.len q == 0)) _ e) in
      omega arith

  module _ (xvals shares : List A) (g0 : P) (d ell : ℕ) where
    -- The result of step 3.
    abbrev divided : P → P → Bool × List A × List A
    divided g v =
        if (p.len (p.div_rem g v).1 == 0) && degree_at_most A P (p.div_rem g v).0 d
        then (
          true,
          map (p.coeff (p.div_rem g v).0) (count_from ell 0),
          points_where (λ x s. not (z.is_zero (z.sub (p.eval (p.div_rem g v).0 x) s))) xvals shares,
        )
        else (false, [], [])

    divided-IsResult : (g v : P) → IsResult xvals shares d ell (divided g v)
    unfolding IsResult
    divided-IsResult g v =
        IsResult-if xvals shares d ell
          ((p.len (p.div_rem g v).1 == 0) && degree_at_most A P (p.div_rem g v).0 d) _ _
          (λ e. record {
            polynomial = (p.div_rem g v).0;
            degree =
                degree_at_most-le (p.div_rem g v).0 d
                  (and_true_right (p.len (p.div_rem g v).1 == 0) _ e);
            is_secrets = refl;
            is_errors = refl;
          })
          (refl, refl)

    -- The result of step 2.
    abbrev loop : Option (P × P)
    loop =
        let g1 = p.interpolate xvals shares in
        if ltb (2 * p.len g1) (length xvals + d + 3)
        then some (g1, p.one_poly)
        else partial_gcd A P (p.len g1 + 1) (length xvals + d + 3) g0 g1 p.zero_poly p.one_poly

    loop-returns : (g : P) × (v : P) × (loop ≡ some (g, v))
    loop-returns =
        by_length (ltb (2 * p.len (p.interpolate xvals shares)) (length xvals + d + 3)) refl
      where
        by_length :
            (small : Bool)
            → ltb (2 * p.len (p.interpolate xvals shares)) (length xvals + d + 3) ≡ small
            → (g : P) × (v : P) × (loop ≡ some (g, v))
        by_length true e = (p.interpolate xvals shares, p.one_poly, rw e refl)
        by_length false e =
            let (g, v, run) =
              partial_gcd-returns (p.len (p.interpolate xvals shares) + 1) (length xvals + d + 3) g0
                (p.interpolate xvals shares) p.zero_poly p.one_poly (omega arith)
                (ground (arith, e)) (omega arith) in
            (g, v, rw e run)

    gao_decode-IsResult :
        (res : Bool × List A × List A) × (gao_decode A P xvals shares g0 d ell ≡ some res)
        × IsResult xvals shares d ell res
    unfolding gao_decode
    gao_decode-IsResult =
        let (g, v, run) = loop-returns in (divided g v, rw run refl, divided-IsResult g v)

  -- `rs_decode` returns if it is called with empty results and a share for each point. If the test is
  -- true, the secrets are the low coefficients of a polynomial of degree at most d, and the errors
  -- are the points at which the polynomial differs from the shares. If it is false, both are empty.
  pub rs_decode-IsResult :
      (xvals shares : List A) (g0 : P) (d ell : ℕ)
      → length xvals ≤ length shares
      → (res : Bool × List A × List A) × (rs_decode A P [] [] xvals shares g0 d ell ≡ some res)
        × IsResult xvals shares d ell res
  unfolding rs_decode IsResult
  rs_decode-IsResult xvals shares g0 d ell h = rw (leb-true (length xvals) (length shares) h) (
      by_count (
        leb (length (points_where (λ x s. not (z.is_zero s)) xvals shares))
          (max_errors (length xvals) d)))
    where
      by_count :
          (few : Bool)
          → (res : Bool × List A × List A) × ((if few
                then some (
                  true,
                  map (λ i. z.zero) (count_from ell 0),
                  points_where (λ x s. not (z.is_zero s)) xvals shares,
                )
                else gao_decode A P xvals shares g0 d ell)
              ≡ some res)
            × IsResult xvals shares d ell res
      by_count true = (
        (
          true,
          map (λ i. z.zero) (count_from ell 0),
          points_where (λ x s. not (z.is_zero s)) xvals shares,
        ),
        refl,
        zero-IsDecoding xvals shares d ell,
      )
      by_count false = gao_decode-IsResult xvals shares g0 d ell
