-- ===== src/Roots/Polynomial.antt =====
-- `newton_to_polynomial` of root_finding.h, called with the power sums of a list of roots: it returns
-- the polynomial that has these roots.
use ab_prototype.Prelude.{
  ℕ, zero, suc, ◌+◌, ◌-◌, ◌≤◌, ◌<◌, ◌≡◌, ◌≢◌, sym, ap, ◌∙◌, some, List, [], ◌∷◌, length, for_range,
  >>=_run, arith,
}
use ab_prototype.ZzP.{ZzP, ◌⊕◌, ◌⊗◌}
use ab_prototype.ZzP.Laws.{zero-add, one-mul, add_left_cancel}
use ab_prototype.Roots.Field.{Inverse}
use ab_prototype.Roots.{newton_coefficient, newton_loop, newton_to_polynomial}
use ab_prototype.Roots.Newton.{
  symmetric, power_sum, convolution, convolution_ext, convolution_next, convolution_start,
  newton_identity,
}
use ab_prototype.Roots.Coefficients.{
  power_sums, product_at, evaluate, coefficients, length-coefficients, get_elem?-coefficients,
  get_elem?-power_sums, symmetric_one, evaluate-coefficients, inner_loop,
}

module _ {A : Type 0} ⦃z : ZzP A⦄ ⦃v : Inverse A⦄ (roots : List A) where
  abbrev p : ℕ → A
  p = power_sum roots

  abbrev e : ℕ → A
  e = symmetric roots

  -- Newton's identity solved for the last coefficient.
  solved : (k : ℕ) → z.conv k ≢ z.zero → z.neg (convolution p e k) ⊗ v.inv (z.conv k) ≡ e k
  solved k ne =
      ap (λ t. t ⊗ v.inv (z.conv k)) neg_sum
      ∙ ap (λ t. t ⊗ v.inv (z.conv k)) (z.mul_comm (z.conv k) (e k))
      ∙ z.mul_assoc (e k) (z.conv k) (v.inv (z.conv k))
      ∙ ap (λ t. e k ⊗ t) (v.mul-inv (z.conv k) ne)
      ∙ z.mul-one (e k)
    where
      neg_sum : z.neg (convolution p e k) ≡ z.conv k ⊗ e k
      neg_sum = add_left_cancel (convolution p e k) (z.neg (convolution p e k)) (z.conv k ⊗ e k) (
          z.add-neg (convolution p e k)
          ∙ sym (newton_identity roots k)
          ∙ z.add_comm (z.conv k ⊗ e k) (convolution p e k))

  newton_coefficient_lem :
      (n k : ℕ)
      → k < n
      → z.conv (suc k) ≢ z.zero
      → newton_coefficient (power_sums roots n) (coefficients roots k) (suc k) ≡ some (e (suc k))
  unfolding newton_coefficient for_range
  newton_coefficient_lem n k lt ne =
      let (total, run, value) =
        inner_loop (power_sums roots n) (coefficients roots k) p e k 0 (p k) (λ i j h. (
          get_elem?-power_sums roots n i (omega arith),
          get_elem?-coefficients roots k i j (omega arith),
        )) in
      let last : suc k - 1 ≡ k = omega arith in
      let rounds : k - 0 ≡ k = omega arith in
      rw (last, rounds)
        (>>=_run _ (get_elem?-power_sums roots n k lt)
          ∙ >>=_run _ run
          ∙ ap (λ t. some (z.neg t ⊗ v.inv (z.conv (suc k)))) (whole total value)
          ∙ ap some (solved (suc k) ne))
    where
      whole :
          (total : A)
          → total ⊕ p (0 + k) ⊗ e zero ≡ p k ⊕ convolution (λ i. p (0 + i)) e (suc k)
          → total ≡ convolution p e (suc k)
      whole total value = add_left_cancel (p k) total (convolution p e (suc k)) (
          z.add_comm (p k) total
          ∙ ap (λ t. total ⊕ t)
              (sym (z.mul-one (p k)) ∙ ap (λ t. p k ⊗ t) (sym (symmetric_one roots)))
          ∙ ap (λ i. total ⊕ p i ⊗ e zero) (omega arith)
          ∙ value
          ∙ ap (λ t. p k ⊕ t)
              (convolution_ext (λ i. p (0 + i)) p e (suc k) (λ i. ap p (omega arith))))

  newton_loop-coefficients :
      (n rounds k : ℕ)
      → k + rounds ≡ n
      → ((i : ℕ) → 0 < i → i ≤ n → z.conv i ≢ z.zero)
      → newton_loop (power_sums roots n) rounds (suc k) (coefficients roots k)
        ≡ some (coefficients roots n)
  unfolding newton_loop coefficients
  newton_loop-coefficients n zero k h ne = ap (λ i. some (coefficients roots i)) (omega arith)
  newton_loop-coefficients n (suc rounds) k h ne =
      >>=_run _ (newton_coefficient_lem n k (omega arith) (ne (suc k) (omega arith) (omega arith)))
      ∙ newton_loop-coefficients n rounds (suc k) (omega arith) ne

  -- The first two coefficients, which the source sets before the loop.
  first_two : z.neg (p 0) ∷ z.one ∷ [] ≡ coefficients roots 1
  unfolding coefficients
  first_two =
      ap (λ t. z.neg (p 0) ∷ t ∷ []) (sym (symmetric_one roots)) ∙ ap (λ t. t ∷ e zero ∷ []) first
    where
      sum_one : convolution p e 1 ≡ p 0
      sum_one =
          convolution_next p e zero
          ∙ ap (λ t. p 0 ⊗ e zero ⊕ t) (convolution_start (λ i. p (suc i)) e)
          ∙ z.add-zero (p 0 ⊗ e zero)
          ∙ ap (λ t. p 0 ⊗ t) (symmetric_one roots)
          ∙ z.mul-one (p 0)

      identity : e 1 ⊕ p 0 ≡ z.zero
      identity =
          ap (λ t. e 1 ⊕ t) (sym sum_one)
          ∙ ap (λ t. t ⊕ convolution p e 1)
              (sym (one-mul (e 1))
                ∙ ap (λ t. t ⊗ e 1)
                    (sym (zero-add z.one)
                      ∙ ap (λ t. t ⊕ z.one) (sym z.conv-zero)
                      ∙ sym (z.conv-suc 0)))
          ∙ newton_identity roots 1

      first : z.neg (p 0) ≡ e 1
      first =
          add_left_cancel (p 0) (z.neg (p 0)) (e 1)
            (z.add-neg (p 0) ∙ sym identity ∙ z.add_comm (e 1) (p 0))

  -- The whole of the function, for n roots.
  newton_to_polynomial-coefficients :
      (n : ℕ)
      → 0 < n
      → ((i : ℕ) → 0 < i → i ≤ n → z.conv i ≢ z.zero)
      → newton_to_polynomial (power_sums roots n) n ≡ some (coefficients roots n)
  unfolding newton_to_polynomial
  newton_to_polynomial-coefficients zero pos ne = absurd (omega arith)
  newton_to_polynomial-coefficients (suc rounds) pos ne =
      >>=_run _ (get_elem?-power_sums roots (suc rounds) 0 (omega arith))
      ∙ ap (newton_loop (power_sums roots (suc rounds)) rounds 2) first_two
      ∙ newton_loop-coefficients (suc rounds) rounds 1 (omega arith) ne

module _ {A : Type 0} ⦃z : ZzP A⦄ ⦃v : Inverse A⦄ where
  -- For roots r of which there is one at least, and not so many that a number up to their count is
  -- 0 modulo the prime: from the sums of their powers `newton_to_polynomial` returns one more
  -- coefficient than there are roots, and the polynomial that these give, from the constant one up,
  -- has at every x the value of the product of the (x - r).
  pub newton_to_polynomial-power_sums :
      (roots : List A)
      → 0 < length roots
      → ((i : ℕ) → 0 < i → i ≤ length roots → z.conv i ≢ z.zero)
      → (output : List A) × (newton_to_polynomial (power_sums roots (length roots)) (length roots)
          ≡ some output)
        × (length output ≡ length roots + 1)
        × ((x : A) → evaluate output x ≡ product_at roots x)
  newton_to_polynomial-power_sums roots pos ne = (
    coefficients roots (length roots),
    newton_to_polynomial-coefficients roots (length roots) pos ne,
    length-coefficients roots (length roots) ∙ omega arith,
    evaluate-coefficients roots,
  )
