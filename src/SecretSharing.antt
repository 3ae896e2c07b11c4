-- ===== src/SecretSharing.antt =====
-- secretsharing.h: Shamir sharing with several secrets in one polynomial, and Gao's decoder. The
-- polynomials (`ZZ_pX`) and matrices of NTL are a parameter: `len` is `deg` plus one, so 0 for the
-- zero polynomial. Random elements are a parameter too, by their position in the stream. A failed
-- assertion and an access out of range are `none`.
mod Decoding
pub mod Linear
pub mod Combinations
pub mod RoundTrip
pub mod Samples
mod Tests
use ab_prototype.Prelude.{
  ℕ, zero, suc, ◌+◌, ◌-◌, ◌*◌, ◌/◌, ◌<◌, ◌≡◌, Bool, true, false, not, ◌&&◌, Option, none, some,
  List, [], ◌∷◌, map, length, leb, ltb, ◌==◌, if◌then◌else◌, guard, ◌>>=◌, ◌>>◌, count_from,
}
use ab_prototype.ZzP.{ZzP}

-- What the sources use of `ZZ_pX` and of the matrices over `ZZ_p`.
pub record Poly (A P : Type 0) ⦃z : ZzP A⦄ : Type 0 where
  pub zero_poly : P
  pub one_poly : P
  pub len : P → ℕ
  pub coeff : P → ℕ → A
  pub set_coeff : P → ℕ → A → P
  pub eval : P → A → A
  pub sub_poly : P → P → P
  pub mul_poly : P → P → P
  pub div_rem : P → P → P × P
  pub interpolate : List A → List A → P
  pub build_from_roots : List A → P
  -- A matrix, given by its rows, times a column.
  pub mat_mul : List (List A) → List A → List A
  -- The remainder is shorter than a divisor that is not 0.
  pub len-rem : (a b : P) → 0 < len b → len (div_rem a b).1 < len b
  pub len-zero_poly : len zero_poly ≡ 0
  pub coeff-zero_poly : (i : ℕ) → coeff zero_poly i ≡ z.zero
  pub eval-zero_poly : (x : A) → eval zero_poly x ≡ z.zero

module _ {A : Type 0} ⦃z : ZzP A⦄ where
  -- Row i of the matrix has the powers of i + 1 from 0 to d.
  unfoldable pub vandermonde_gen : ℕ → ℕ → List (List A)
  vandermonde_gen N d =
      map (λ i. map (λ j. z.power (z.conv (i + 1)) j) (count_from (d + 1) 0)) (count_from N 0)

  -- The points 1 to n.
  unfoldable pub gen_xvals : ℕ → List A
  gen_xvals n = map (λ i. z.conv (i + 1)) (count_from n 0)

  -- The positions whose shares pass a test.
  unfoldable pub points_where : (A → A → Bool) → List A → List A → List A
  points_where test [] shares = []
  points_where test (x ∷ xs) [] = []
  points_where test (x ∷ xs) (s ∷ shares) =
      let rest = points_where test xs shares in if test x s then x ∷ rest else rest

-- `(n - d) * 0.5` on unsigned numbers of 64 bits.
unfoldable pub max_errors : ℕ → ℕ → ℕ
max_errors n d = if leb d n then (n - d) / 2 else (18446744073709551616 + n - d) / 2

module _ (A P : Type 0) ⦃z : ZzP A⦄ ⦃p : Poly A P⦄ where
  -- Shares of `m` from a Vandermonde matrix with `cols` columns.
  unfoldable pub vdm_share_secret : List (List A) → ℕ → (ℕ → A) → A → List A
  vdm_share_secret vdm cols random m = p.mat_mul vdm (m ∷ map random (count_from (cols - 1) 1))

  -- The coefficients from position i on.
  unfoldable pub set_coeffs : P → ℕ → List A → P
  set_coeffs f i [] = f
  set_coeffs f i (c ∷ cs) = set_coeffs (p.set_coeff f i c) (i + 1) cs

  -- The messages are the low coefficients of a polynomial of degree d = t + length msgs - 1.
  unfoldable pub packed_share_secret : List A → List A → ℕ → (ℕ → A) → Option (List A)
  packed_share_secret xvals msgs t random = do
    guard (ltb 1 (t + length msgs))
    let d = t + length msgs - 1
    guard (ltb (2 * d) (length xvals))
    let f = set_coeffs p.zero_poly 0 msgs
    let f' = set_coeffs f (length msgs) (map random (count_from (d + 1 - length msgs) 0))
    some (map (p.eval f') xvals)

  -- Step 2, the loop: division until the remainder is below the target degree, with the cofactors
  -- of the last two. `bound` is n + d + 3, so that the test is deg(r) < (n + d + 1) / 2.
  unfoldable pub partial_gcd : ℕ → ℕ → P → P → P → P → Option (P × P)
  partial_gcd zero bound a b t0 t1 = none
  partial_gcd (suc fuel) bound a b t0 t1 =
      let r = (p.div_rem a b).1 in
      let t2 = p.sub_poly t0 (p.mul_poly (p.div_rem a b).0 t1) in
      let rest = partial_gcd fuel bound b r t1 t2 in
      if ltb (2 * p.len r) bound then some (r, t2) else rest

  -- `deg(q) < d + 1`, a comparison of unsigned numbers: the zero polynomial, of degree -1, fails it.
  unfoldable pub degree_at_most : P → ℕ → Bool
  degree_at_most q d = not (p.len q == 0) && ltb (p.len q) (d + 2)

  -- Steps 1 to 3. The result of `rs_decode` and what it leaves in `secrets` and `errors`.
  unfoldable pub gao_decode : List A → List A → P → ℕ → ℕ → Option (Bool × List A × List A)
  gao_decode xvals shares g0 d ell = do
    let g1 = p.interpolate xvals shares
    let bound = length xvals + d + 3
    (g, v) ←
        (let loop = partial_gcd (p.len g1 + 1) bound g0 g1 p.zero_poly p.one_poly in
          if ltb (2 * p.len g1) bound then some (g1, p.one_poly) else loop)
    let (q, r) = p.div_rem g v
    let wrong = points_where (λ x s. not (z.is_zero (z.sub (p.eval q x) s))) xvals shares
    some (
        if (p.len r == 0) && degree_at_most q d
        then (true, map (p.coeff q) (count_from ell 0), wrong)
        else (false, [], []))

  -- The decoder. `secrets` and `errors` must be empty. Step 0: few shares other than 0 are taken
  -- for errors in a sharing of zeros.
  unfoldable pub rs_decode :
      List A → List A → List A → List A → P → ℕ → ℕ → Option (Bool × List A × List A)
  rs_decode secrets errors xvals shares g0 d ell = do
    guard (length secrets == 0)
    guard (length errors == 0)
    guard (leb (length xvals) (length shares))
    let nonzero = points_where (λ x s. not (z.is_zero s)) xvals shares
    let decoded = gao_decode xvals shares g0 d ell
    if leb (length nonzero) (max_errors (length xvals) d)
        then some (true, map (λ i. z.zero) (count_from ell 0), nonzero)
        else decoded
