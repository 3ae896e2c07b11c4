-- ===== src/SecretSharing/Linear.antt =====
-- What the batched opening uses of NTL's matrices and polynomials: rows of powers, and linear
-- combinations.
use ab_prototype.Prelude.{
  ℕ, ◌+◌, ◌-◌, ◌≤◌, ◌≡◌, sym, ◌∙◌, List, [], ◌∷◌, map, length, length-map, count_from, arith,
  map-map, length-count_from,
}
use ab_prototype.ZzP.{ZzP, ◌⊕◌, ◌⊗◌}
use ab_prototype.SecretSharing.{Poly, set_coeffs, vandermonde_gen, gen_xvals}

module _ {A : Type 0} ⦃z : ZzP A⦄ where
  abbrev pub dot : List A → List A → A
  dot [] column = z.zero
  dot (a ∷ row) [] = z.zero
  dot (a ∷ row) (b ∷ column) = a ⊗ b ⊕ dot row column

  -- The powers of x from 0 to l - 1.
  abbrev pub powers : A → ℕ → List A
  powers x l = map (z.power x) (count_from l 0)

  -- The matrix of an expansion has the powers of the points of the servers as its rows.
  pub vandermonde_gen-rows :
      (n l : ℕ) → 1 ≤ l → vandermonde_gen n (l - 1) ≡ map (λ x. powers x l) (gen_xvals n)
  unfolding vandermonde_gen gen_xvals
  vandermonde_gen-rows n l h =
      let e : l - 1 + 1 ≡ l = omega arith in
      rw e (sym (map-map (λ x. powers x l) (λ i. z.conv (i + 1)) (count_from n 0)))

-- A point for each server.
pub length-gen_xvals : (A : Type 0) ⦃z : ZzP A⦄ (n : ℕ) → length {A = A} (gen_xvals n) ≡ n
unfolding gen_xvals
length-gen_xvals A ⦃z⦄ n =
    length-map {B = A} (λ i. z.conv (i + 1)) (count_from n 0) ∙ length-count_from n 0

-- NTL's products of a matrix and a column, and sums of polynomials times scalars.
pub record Linear (A P : Type 0) ⦃z : ZzP A⦄ ⦃p : Poly A P⦄ : Type 0 where
  pub combine : List A → List P → P
  pub mat_mul_lem :
      (rows : List (List A)) (column : List A)
      → p.mat_mul rows column ≡ map (λ row. dot row column) rows
  pub eval-combine :
      (row : List A) (fs : List P) (x : A)
      → p.eval (combine row fs) x ≡ dot row (map (λ f. p.eval f x) fs)
  pub coeff-combine :
      (row : List A) (fs : List P) (i : ℕ)
      → p.coeff (combine row fs) i ≡ dot row (map (λ f. p.coeff f i) fs)
  -- The polynomial with the coefficients cs.
  pub eval-set_coeffs :
      (cs : List A) (x : A)
      → p.eval (set_coeffs A P p.zero_poly 0 cs) x ≡ dot (powers x (length cs)) cs
  pub coeff-set_coeffs :
      (cs : List A)
      → map (p.coeff (set_coeffs A P p.zero_poly 0 cs)) (count_from (length cs) 0) ≡ cs
