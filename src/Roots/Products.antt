-- ===== src/Roots/Products.antt =====
-- The coefficients and the values of the polynomials over the residues modulo 7.
use ab_prototype.Prelude.{
  ℕ, zero, suc, ◌-◌, ◌≤◌, ◌≡◌, refl, sym, ap, ◌∙◌, Bool, true, false, [], ◌∷◌, length,
  if◌then◌else◌, arith,
}
use ab_prototype.ZzP.{◌⊕◌, ◌⊗◌}
use ab_prototype.ZzP.Laws.{zero-add, mul-zero, zero-mul}
use ab_prototype.ZzP.Residues.{Residue}
use ab_prototype.SecretSharing.Samples.{
  mod7, poly7, Coeffs, trim, at, at-set_at, mul_poly, scale, eval7,
}
use ab_prototype.SecretSharing.Combinations.{at-add_poly, at-scale}
use ab_prototype.Roots.Sums.{sum, sum_ext, sum-zero, sum-mul}
use ab_prototype.Roots.Evaluation.{HasCoeffs}

-- The zero polynomial in a sum.
nothing : (g : ℕ → Residue 7) (n : ℕ) → sum (λ j. mod7.zero ⊗ g j) n ≡ mod7.zero
nothing g n = sum-zero (λ j. mod7.zero ⊗ g j) n (λ j l. zero-mul (g j))

pub at-mul_poly :
    (f g : Coeffs) (n : ℕ) → at (mul_poly f g) n ≡ sum (λ j. at f j ⊗ at g (n - j)) (suc n)
unfolding sum
at-mul_poly [] g n = sym (nothing (λ j. at g (n - j)) (suc n))
at-mul_poly (a ∷ f) g zero =
    at-add_poly (scale a g) (mod7.zero ∷ mul_poly f g) zero
    ∙ ap (λ b. b ⊕ mod7.zero) (at-scale a g zero)
at-mul_poly (a ∷ f) g (suc m) =
    let first : suc m ≡ suc m - zero = omega arith in
    let rest : at (mul_poly f g) m ≡ sum (λ j. at f j ⊗ at g (suc m - suc j)) (suc m) =
      at-mul_poly f g m
      ∙ sum_ext (λ j. at f j ⊗ at g (m - j)) (λ j. at f j ⊗ at g (suc m - suc j)) (suc m)
          (λ j l.
            let same : m - j ≡ suc m - suc j = omega arith in ap (λ k. at f j ⊗ at g k) same) in
    at-add_poly (scale a g) (mod7.zero ∷ mul_poly f g) (suc m)
    ∙ ap (λ b. b ⊕ at (mul_poly f g) m) (at-scale a g (suc m))
    ∙ ap (◌⊕◌ (a ⊗ at g (suc m))) rest
    ∙ ap (λ k. a ⊗ at g k ⊕ sum (λ j. at f j ⊗ at g (suc m - suc j)) (suc m)) first

-- A polynomial that is trimmed to nothing.
trim-nil :
    (a : Residue 7) (f : Coeffs)
    → length (trim (a ∷ f)) ≤ 0
    → (a ≡ mod7.zero) × (length (trim f) ≤ 0)
trim-nil a f h = by_rest (trim f) (mod7.is_zero a) refl h
  where
    by_rest :
        (rest : Coeffs) (b : Bool)
        → mod7.is_zero a ≡ b
        → length (elim rest [ [] ↦ if b then [] else a ∷ [] | c ∷ g ↦ a ∷ c ∷ g ]) ≤ 0
        → (a ≡ mod7.zero) × (length rest ≤ 0)
    by_rest [] true e k = ((mod7.is_zero_iff a).0 e, omega arith)
    by_rest [] false e k = absurd (omega arith)
    by_rest (c ∷ g) b e k = absurd (omega arith)

trim-suc :
    (a : Residue 7) (f : Coeffs) (n : ℕ) → length (trim (a ∷ f)) ≤ suc n → length (trim f) ≤ n
trim-suc a f n h = by_rest (trim f) h
  where
    by_rest :
        (rest : Coeffs)
        → length (elim rest [ [] ↦ if mod7.is_zero a then [] else a ∷ [] | c ∷ g ↦ a ∷ c ∷ g ])
          ≤ suc n
        → length rest ≤ n
    by_rest [] k = omega arith
    by_rest (c ∷ g) k = omega arith

pub eval7-sum :
    (f : Coeffs) (x : Residue 7) (n : ℕ)
    → length (trim f) ≤ n
    → eval7 f x ≡ sum (λ j. at f j ⊗ mod7.power x j) n
unfolding sum
eval7-sum [] x n h = sym (nothing (mod7.power x) n)
eval7-sum (a ∷ f) x zero h =
    let (is_zero, rest) = trim-nil a f h in
    ap (λ b. b ⊕ x ⊗ eval7 f x) is_zero
    ∙ zero-add (x ⊗ eval7 f x)
    ∙ ap (◌⊗◌ x) (eval7-sum f x zero rest)
    ∙ mul-zero x
eval7-sum (a ∷ f) x (suc n) h =
    ap (◌⊕◌ a) (
      ap (◌⊗◌ x) (eval7-sum f x n (trim-suc a f n h))
      ∙ mod7.mul_comm x (sum (λ j. at f j ⊗ mod7.power x j) n)
      ∙ sum-mul (λ j. at f j ⊗ mod7.power x j) n x
      ∙ sum_ext _ _ n (λ j l.
        mod7.mul_assoc (at f j) (mod7.power x j) x
        ∙ ap (◌⊗◌ (at f j)) (mod7.mul_comm (mod7.power x j) x ∙ sym (mod7.power-suc x j))))
    ∙ ap (λ b. b ⊕ sum (λ j. at f j ⊗ mod7.power x (suc j)) n)
        (sym (ap (◌⊗◌ a) (mod7.power-zero x) ∙ mod7.mul-one a))

abbrev pub coeffs7 : HasCoeffs (Residue 7) Coeffs
coeffs7 = record { coeff-set_coeff = at-set_at; coeff-mul_poly = at-mul_poly; eval-sum = eval7-sum }
