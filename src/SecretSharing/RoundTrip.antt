-- ===== src/SecretSharing/RoundTrip.antt =====
-- Sharing and decoding in secretsharing.h: `rs_decode` gives back what `packed_share_secret` shared.
use ab_prototype.Prelude.{
  ℕ, ◌+◌, ◌-◌, ◌*◌, ◌≤◌, ◌<◌, ◌≡◌, refl, sym, ap, ◌∙◌, Bool, true, false, not, some, List, [], ◌∷◌,
  map, length, length-map, leb, ltb, ◌==◌, count_from, lt→ltb, guard, >>=-eq-some, ◌⊎◌, inl, inr,
  arith, map_ext,
}
use ab_prototype.ZzP.{ZzP}
use ab_prototype.ZzP.Laws.{sub_self}
use ab_prototype.SecretSharing.{
  Poly, set_coeffs, packed_share_secret, points_where, max_errors, degree_at_most, gao_decode,
  rs_decode,
}
use ab_prototype.SecretSharing.Decoding.{leb-true}

module _ {A : Type 0} ⦃z : ZzP A⦄ where
  -- Every point passes a test or its negation.
  points_where-not :
      (test : A → A → Bool) (xs shares : List A)
      → length xs ≡ length shares
      → length (points_where test xs shares)
          + length (points_where (λ x s. not (test x s)) xs shares)
        ≡ length xs
  unfolding points_where
  points_where-not test [] shares e = omega arith
  points_where-not test (x ∷ xs) [] e = absurd (omega arith)
  points_where-not test (x ∷ xs) (s ∷ shares) e =
      ground (arith, points_where-not test xs shares (omega arith))

  -- A test that fails at all values of a function.
  points_where-none :
      (test : A → A → Bool) (f : A → A) (xs : List A)
      → ((x : A) → test x (f x) ≡ false)
      → points_where test xs (map f xs) ≡ []
  unfolding points_where
  points_where-none test f [] h = refl
  points_where-none test f (x ∷ xs) h = rw (h x, points_where-none test f xs h) refl

module _ (A P : Type 0) ⦃z : ZzP A⦄ ⦃p : Poly A P⦄ where
  -- The polynomial of a sharing: the messages, and then random coefficients up to the degree.
  unfoldable pub sharing_polynomial : List A → ℕ → (ℕ → A) → P
  unfolding set_coeffs
  sharing_polynomial msgs t random =
      let d = t + length msgs - 1 in
      set_coeffs A P (set_coeffs A P p.zero_poly 0 msgs) (length msgs)
        (map random (count_from (d + 1 - length msgs) 0))

  packed_share_secret-inv :
      (xvals msgs : List A) (t : ℕ) (random : ℕ → A) (shares : List A)
      → packed_share_secret A P xvals msgs t random ≡ some shares
      → (1 < t + length msgs)
        × (2 * (t + length msgs - 1) < length xvals)
        × (shares ≡ map (p.eval (sharing_polynomial msgs t random)) xvals)
  unfolding packed_share_secret sharing_polynomial
  packed_share_secret-inv xvals msgs t random shares e =
      let (u, enough, e1) = >>=-eq-some (guard (ltb 1 (t + length msgs))) _ e in
      let (u', points, e2) =
        >>=-eq-some (guard (ltb (2 * (t + length msgs - 1)) (length xvals))) _ e1 in
      (ground (arith, enough), ground (arith, points), cc)

  module _ (xvals : List A) (f g0 : P) (d ell : ℕ) where
    abbrev shares_of : List A
    shares_of = map (p.eval f) xvals

    no_errors : points_where (λ x s. not (z.is_zero (z.sub (p.eval f x) s))) xvals shares_of ≡ []
    no_errors =
        points_where-none (λ x s. not (z.is_zero (z.sub (p.eval f x) s))) (p.eval f) xvals
          (λ x.
            ap (λ a. not (z.is_zero a)) (sub_self (p.eval f x))
            ∙ ap not ((z.is_zero_iff z.zero).1 refl))

    -- The polynomial of the shares is short enough for step 2 to be skipped.
    gao_decode-shares_of :
        p.interpolate xvals shares_of ≡ f
        → p.div_rem f p.one_poly ≡ (f, p.zero_poly)
        → 0 < p.len f
        → p.len f ≤ d + 1
        → 2 * d < length xvals
        → gao_decode A P xvals shares_of g0 d ell
          ≡ some (true, map (p.coeff f) (count_from ell 0), [])
    unfolding gao_decode degree_at_most
    gao_decode-shares_of same divides positive short points =
        let skipped : ltb (2 * p.len f) (length xvals + d + 3) ≡ true = lt→ltb _ _ (omega arith) in
        let fits : ltb (p.len f) (d + 2) ≡ true = lt→ltb _ _ (omega arith) in
        let not_zero : (p.len f == 0) ≡ false = ground arith in
        rw
          (
            gao_decode, same, skipped, divides, p.len-zero_poly, degree_at_most, not_zero, fits,
            no_errors,
          )
          refl

    many_nonzero :
        length (points_where (λ x s. z.is_zero s) xvals shares_of) < p.len f
        → p.len f ≤ d + 1
        → 2 * d < length xvals
        → leb
            (length (points_where (λ x s. not (z.is_zero s)) xvals shares_of))
            (max_errors (length xvals) d)
          ≡ false
    unfolding max_errors
    many_nonzero roots short points =
        let all =
          points_where-not (λ x s. z.is_zero s) xvals shares_of
            (sym (length-map (p.eval f) xvals)) in
        let below : leb d (length xvals) ≡ true = leb-true _ _ (omega arith) in
        rw (max_errors, below) (ground (arith, all))

    -- Step 0 decides for the zero polynomial, and for no other.
    decode-zero :
        f ≡ p.zero_poly
        → rs_decode A P [] [] xvals shares_of g0 d ell
          ≡ some (true, map (p.coeff f) (count_from ell 0), [])
    unfolding rs_decode
    decode-zero is_zero =
        let enough : leb (length xvals) (length shares_of) ≡ true =
          leb-true _ _ (omega (arith, length-map (p.eval f) xvals)) in
        let none_nonzero : points_where (λ x s. not (z.is_zero s)) xvals shares_of ≡ [] =
          points_where-none (λ x s. not (z.is_zero s)) (p.eval f) xvals
            (λ x.
              ap (λ (g : P). not (z.is_zero (p.eval g x))) is_zero
              ∙ ap (λ a. not (z.is_zero a)) (p.eval-zero_poly x)
              ∙ ap not ((z.is_zero_iff z.zero).1 refl)) in
        let few : leb 0 (max_errors (length xvals) d) ≡ true = leb-true _ _ (omega arith) in
        let secrets : map (λ i. z.zero) (count_from ell 0) ≡ map (p.coeff f) (count_from ell 0) =
          map_ext (λ i. z.zero) (p.coeff f)
            (λ i. sym (ap (λ (g : P). p.coeff g i) is_zero ∙ p.coeff-zero_poly i))
            (count_from ell 0) in
        rw (rs_decode, enough, none_nonzero, few, secrets) refl

    decode-nonzero :
        p.interpolate xvals shares_of ≡ f
        → p.div_rem f p.one_poly ≡ (f, p.zero_poly)
        → length (points_where (λ x s. z.is_zero s) xvals shares_of) < p.len f
        → p.len f ≤ d + 1
        → 2 * d < length xvals
        → rs_decode A P [] [] xvals shares_of g0 d ell
          ≡ some (true, map (p.coeff f) (count_from ell 0), [])
    unfolding rs_decode
    decode-nonzero same divides roots short points =
        let enough : leb (length xvals) (length shares_of) ≡ true =
          leb-true _ _ (omega (arith, length-map (p.eval f) xvals)) in
        rw (rs_decode, enough, many_nonzero roots short points)
          (gao_decode-shares_of same divides (omega arith) short points)

  -- What NTL documents of a polynomial f with at most d + 1 coefficients and its values at the
  -- points: interpolation of the values gives f, division by 1 gives f without a remainder, and f is
  -- the zero polynomial or has fewer roots among the points than its degree plus one.
  pub record IsDecodable (xvals : List A) (d : ℕ) (f : P) : Type 0 where
    pub short : p.len f ≤ d + 1
    pub same : p.interpolate xvals (map (p.eval f) xvals) ≡ f
    pub divides : p.div_rem f p.one_poly ≡ (f, p.zero_poly)
    pub few_roots :
        (f ≡ p.zero_poly)
        ⊎ (length (points_where (λ x s. z.is_zero s) xvals (map (p.eval f) xvals)) < p.len f)

  -- Decoding the values of a polynomial gives its low coefficients, and no errors.
  pub rs_decode-values :
      (xvals : List A) (f g0 : P) (d ell : ℕ)
      → IsDecodable xvals d f
      → 2 * d < length xvals
      → rs_decode A P [] [] xvals (map (p.eval f) xvals) g0 d ell
        ≡ some (true, map (p.coeff f) (count_from ell 0), [])
  rs_decode-values xvals f g0 d ell h points = elim h.few_roots [
    | inl is_zero ↦ decode-zero xvals f g0 d ell is_zero
    | inr few ↦ decode-nonzero xvals f g0 d ell h.same h.divides few h.short points
  ]

  -- Decoding shares none of which is wrong gives back the messages that were shared, and no errors,
  -- where the sharing polynomial f and the points behave in NTL as documented: f has no coefficient
  -- past its degree t + length msgs - 1, its low coefficients are the messages that were set,
  -- interpolating its values at the points gives f, division by 1 gives f without a remainder, and
  -- f is the zero polynomial or has fewer roots among the points than its degree plus one.
  pub rs_decode-packed_share_secret :
      (xvals msgs : List A) (t : ℕ) (random : ℕ → A) (shares : List A) (g0 : P)
      → packed_share_secret A P xvals msgs t random ≡ some shares
      → let f = sharing_polynomial msgs t random in
        p.len f ≤ t + length msgs
        → map (p.coeff f) (count_from (length msgs) 0) ≡ msgs
        → p.interpolate xvals (map (p.eval f) xvals) ≡ f
        → p.div_rem f p.one_poly ≡ (f, p.zero_poly)
        → (f ≡ p.zero_poly)
          ⊎ (length (points_where (λ x s. z.is_zero s) xvals (map (p.eval f) xvals)) < p.len f)
        → rs_decode A P [] [] xvals shares g0 (t + length msgs - 1) (length msgs)
          ≡ some (true, msgs, [])
  rs_decode-packed_share_secret xvals msgs t random shares g0 e short coefficients same divides
        roots =
      let f = sharing_polynomial msgs t random in
      let d = t + length msgs - 1 in
      let (some_degree, points, eq) = packed_share_secret-inv xvals msgs t random shares e in
      let decoded =
        rs_decode-values xvals f g0 d (length msgs)
          (record { short = omega arith; same = same; divides = divides; few_roots = roots })
          points in
      ap (λ l. rs_decode A P [] [] xvals l g0 d (length msgs)) eq
      ∙ decoded
      ∙ ap (λ l. some (true, l, [])) coefficients
