-- ===== src/Roots/Tests.antt =====
-- Newton's identities and the Graeffe transform over the residues modulo 7.
use mathlib.Core.Option
use ab_prototype.Prelude.{
  ℕ, ◌*◌, ◌%◌, ◌^◌, ◌≤◌, ◌<◌, ◌≡◌, ◌≢◌, refl, ap, some, List, [], ◌∷◌, map, length, arith,
  for_range, for_rounds,
}
use ab_prototype.ZzP.Residues.{Residue, Residue_path, of_ℕ}
use ab_prototype.SecretSharing.Samples.{mod7, Coeffs, poly7, at-set_at}
use ab_prototype.Roots.Powers.{powers_of-power}
use ab_prototype.Roots.{newton_to_polynomial, newton_loop, newton_coefficient}
use ab_prototype.Roots.Newton.{power_sum}
use ab_prototype.Roots.Coefficients.{power_sums, product_at, evaluate}
use ab_prototype.Roots.Polynomial.{newton_to_polynomial-power_sums}
use ab_prototype.Roots.Search.{choose_ell, chi_of, powers_of, powers_loop, batch_eval}
use ab_prototype.Roots.Evaluation.{batch_eval-eval}
use ab_prototype.Roots.Products.{coeffs7}
use ab_prototype.Roots.Sizes.{choose_ell-chi_of}
use ab_prototype.Roots.Samples.{inverse7, roots7}

abbrev roots : List (Residue 7)
roots = map (of_ℕ 7 (omega arith)) (2 ∷ 3 ∷ 5 ∷ [])

-- (x - 2) (x - 3) (x - 5) is x ^ 3 + 4 x ^ 2 + 3 x + 5 modulo 7.
newton_to_polynomial_three :
    Option.map (map (λ r. r.0)) (newton_to_polynomial (power_sums roots 3) 3)
    ≡ some (5 ∷ 3 ∷ 4 ∷ 1 ∷ [])
unfolding newton_to_polynomial newton_loop newton_coefficient power_sums power_sum for_range
    for_rounds
newton_to_polynomial_three = refl

not_zero : (i : ℕ) → 0 < i → i ≤ 3 → mod7.conv i ≢ mod7.zero
not_zero i h h' e = let e' : i % 7 ≡ 0 = ap (λ r. r.0) e in omega arith

newton_to_polynomial-power_sums_example :
    (output : List (Residue 7)) × (newton_to_polynomial (power_sums roots 3) 3 ≡ some output)
    × (length output ≡ 4)
    × ((x : Residue 7) → evaluate output x ≡ product_at roots x)
newton_to_polynomial-power_sums_example =
    newton_to_polynomial-power_sums roots (omega arith) not_zero

-- The transform for 23 messages modulo the prime of 32 bits.
choose_ell-chi_of_example :
    (1 ≤ choose_ell 27 23 27 (101 * 2 ^ 24) 1)
    × (choose_ell 27 23 27 (101 * 2 ^ 24) 1 ≤ 25)
    × (46 < chi_of 101 27 (choose_ell 27 23 27 (101 * 2 ^ 24) 1))
    × (chi_of 101 27 (choose_ell 27 23 27 (101 * 2 ^ 24) 1)
          * 2 ^ choose_ell 27 23 27 (101 * 2 ^ 24) 1
        ≡ 101 * 2 ^ 27)
choose_ell-chi_of_example =
    choose_ell-chi_of 101 27 23 (choose_ell 27 23 27 (101 * 2 ^ 24) 1) (omega arith) (omega arith)
      refl

powers_of-power_example :
    (poly7.coeff (powers_of (Residue 7) Coeffs (of_ℕ 7 (omega arith) 3) 6).0 2
      ≡ mod7.power (of_ℕ 7 (omega arith) 3) (2 * 2))
    × (poly7.coeff (powers_of (Residue 7) Coeffs (of_ℕ 7 (omega arith) 3) 6).1 2
        ≡ inverse7.inv (mod7.power (of_ℕ 7 (omega arith) 3) (2 * 2)))
powers_of-power_example =
    powers_of-power at-set_at (of_ℕ 7 (omega arith) 3) 6 2 (omega arith) (omega arith)

-- 3 has the order 6, so 12 is a multiple of it.
three : Residue 7
three = of_ℕ 7 (omega arith) 3

three-order : mod7.power three 12 ≡ mod7.one
unfolding three
three-order = Residue_path 7 (omega arith) (mod7.power three 12) mod7.one refl

batch_eval-eval_example :
    poly7.coeff
      (batch_eval
        (Residue 7)
        Coeffs
        (map (of_ℕ 7 (omega arith)) (1 ∷ 2 ∷ 3 ∷ []))
        (powers_of (Residue 7) Coeffs three 6).0
        (powers_of (Residue 7) Coeffs three 6).1)
      4
    ≡ poly7.eval (map (of_ℕ 7 (omega arith)) (1 ∷ 2 ∷ 3 ∷ [])) (mod7.power (mod7.power three 2) 4)
unfolding three powers_of powers_loop
batch_eval-eval_example =
    batch_eval-eval coeffs7 three 6 3 (omega arith) refl three-order
      (λ e. let e' : 1 ≡ 0 = ap (λ r. r.0) e in omega arith)
      (map (of_ℕ 7 (omega arith)) (1 ∷ 2 ∷ 3 ∷ [])) 4 refl (omega arith) (omega arith)
