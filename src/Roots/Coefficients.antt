-- ===== src/Roots/Coefficients.antt =====
-- `newton_to_polynomial` of root_finding.h on the power sums of a list of roots: the polynomial that
-- it computes is the product of the (x - root).
use ab_prototype.Prelude.{
  ℕ, zero, suc, ◌+◌, ◌<◌, ◌≡◌, refl, sym, ap, ◌∙◌, some, List, [], ◌∷◌, map, length, get_elem?,
  get_elem?-map, get_elem?-count_from, for_rounds, ◌>>=◌, >>=_run, count_from, arith,
}
use ab_prototype.ZzP.{ZzP, ◌⊕◌, ◌⊖◌, ◌⊗◌}
use ab_prototype.ZzP.Laws.{add_interchange, add-mul, mul_left_comm, zero-add, mul-zero}
use ab_prototype.Roots.Newton.{
  symmetric, power_sum, convolution, convolution_next, convolution_start, convolution_ext,
}

module _ {A : Type 0} ⦃z : ZzP A⦄ where
  -- The sums of the first n powers of the roots.
  unfoldable pub power_sums : List A → ℕ → List A
  unfolding power_sum
  power_sums roots n = map (power_sum roots) (count_from n 0)

  -- The product of the (x - root).
  unfoldable pub product_at : List A → A → A
  product_at [] x = z.one
  product_at (r ∷ roots) x = (x ⊖ r) ⊗ product_at roots x

  -- The value of a polynomial, given by its coefficients from the constant one up.
  unfoldable pub evaluate : List A → A → A
  evaluate [] x = z.zero
  evaluate (c ∷ f) x = c ⊕ x ⊗ evaluate f x

  unfoldable pub coefficients : List A → ℕ → List A
  coefficients roots zero = symmetric roots zero ∷ []
  coefficients roots (suc k) = symmetric roots (suc k) ∷ coefficients roots k

  pub length-coefficients : (roots : List A) (k : ℕ) → length (coefficients roots k) ≡ suc k
  unfolding coefficients
  length-coefficients roots zero = refl
  length-coefficients roots (suc k) = ap suc (length-coefficients roots k)

  pub get_elem?-coefficients :
      (roots : List A) (k i j : ℕ)
      → k ≡ i + j
      → get_elem? (coefficients roots k) i ≡ some (symmetric roots j)
  unfolding coefficients
  get_elem?-coefficients roots zero zero j e = let e' : 0 ≡ j = omega arith in rw e' refl
  get_elem?-coefficients roots zero (suc i) j e = absurd (omega arith)
  get_elem?-coefficients roots (suc k) zero j e = let e' : suc k ≡ j = omega arith in rw e' refl
  get_elem?-coefficients roots (suc k) (suc i) j e =
      get_elem?-coefficients roots k i j (omega arith)

  pub symmetric_one : (roots : List A) → symmetric roots zero ≡ z.one
  unfolding symmetric
  symmetric_one [] = refl
  symmetric_one (r ∷ roots) = symmetric_one roots

  symmetric_zero : (roots : List A) (k : ℕ) → length roots < k → symmetric roots k ≡ z.zero
  unfolding symmetric
  symmetric_zero [] zero h = absurd (omega arith)
  symmetric_zero [] (suc k) h = refl
  symmetric_zero (r ∷ roots) zero h = absurd (omega arith)
  symmetric_zero (r ∷ roots) (suc k) h =
      ap (λ t. t ⊕ z.neg r ⊗ symmetric roots k) (symmetric_zero roots (suc k) (omega arith))
      ∙ zero-add _
      ∙ ap (λ t. z.neg r ⊗ t) (symmetric_zero roots k (omega arith))
      ∙ mul-zero (z.neg r)

  -- (a + s * b) + x * (u + s * v) = (a + x * u) + s * (b + x * v).
  regroup : (a b x s u v : A) → (a ⊕ s ⊗ b) ⊕ x ⊗ (u ⊕ s ⊗ v) ≡ (a ⊕ x ⊗ u) ⊕ s ⊗ (b ⊕ x ⊗ v)
  regroup a b x s u v =
      ap (λ t. (a ⊕ s ⊗ b) ⊕ t) (z.mul-add x u (s ⊗ v) ∙ ap (λ t. x ⊗ u ⊕ t) (mul_left_comm x s v))
      ∙ add_interchange a (s ⊗ b) (x ⊗ u) (s ⊗ (x ⊗ v))
      ∙ ap (λ t. (a ⊕ x ⊗ u) ⊕ t) (sym (z.mul-add s b (x ⊗ v)))

  evaluate-step :
      (r : A) (roots : List A) (k : ℕ) (x : A)
      → evaluate (coefficients (r ∷ roots) (suc k)) x
        ≡ evaluate (coefficients roots (suc k)) x ⊕ z.neg r ⊗ evaluate (coefficients roots k) x
  unfolding evaluate coefficients symmetric
  evaluate-step r roots zero x =
      ap (λ t. (symmetric roots 1 ⊕ z.neg r ⊗ symmetric roots 0) ⊕ x ⊗ t)
        (sym (z.add-zero _)
          ∙ ap (λ t. (symmetric roots 0 ⊕ x ⊗ z.zero) ⊕ t) (sym (mul-zero (z.neg r))))
      ∙ regroup (symmetric roots 1) (symmetric roots 0) x (z.neg r) (symmetric roots 0 ⊕ x ⊗ z.zero)
          z.zero
  evaluate-step r roots (suc k) x =
      ap (λ t. (symmetric roots (suc (suc k)) ⊕ z.neg r ⊗ symmetric roots (suc k)) ⊕ x ⊗ t)
        (evaluate-step r roots k x)
      ∙ regroup (symmetric roots (suc (suc k))) (symmetric roots (suc k)) x (z.neg r)
          (evaluate (coefficients roots (suc k)) x) (evaluate (coefficients roots k) x)

  evaluate-coefficients_nil : (x : A) → evaluate (coefficients [] zero) x ≡ z.one
  unfolding evaluate coefficients symmetric
  evaluate-coefficients_nil x = ap (λ t. z.one ⊕ t) (mul-zero x) ∙ z.add-zero z.one

  -- The coefficient past the number of roots is 0.
  evaluate-coefficients_past :
      (roots : List A) (x : A)
      → evaluate (coefficients roots (suc (length roots))) x
        ≡ x ⊗ evaluate (coefficients roots (length roots)) x
  unfolding evaluate coefficients
  evaluate-coefficients_past roots x =
      ap (λ t. t ⊕ x ⊗ evaluate (coefficients roots (length roots)) x)
        (symmetric_zero roots (suc (length roots)) (omega arith))
      ∙ zero-add _

  pub evaluate-coefficients :
      (roots : List A) (x : A) → evaluate (coefficients roots (length roots)) x ≡ product_at roots x
  unfolding product_at
  evaluate-coefficients [] x = evaluate-coefficients_nil x
  evaluate-coefficients (r ∷ roots) x =
      evaluate-step r roots (length roots) x
      ∙ ap (λ t. t ⊕ z.neg r ⊗ evaluate (coefficients roots (length roots)) x)
          (evaluate-coefficients_past roots x)
      ∙ sym (add-mul x (z.neg r) (evaluate (coefficients roots (length roots)) x))
      ∙ ap (λ t. t ⊗ evaluate (coefficients roots (length roots)) x) (sym (z.sub_lem x r))
      ∙ ap (λ t. (x ⊖ r) ⊗ t) (evaluate-coefficients roots x)

  pub get_elem?-power_sums :
      (roots : List A) (n i : ℕ)
      → i < n
      → get_elem? (power_sums roots n) i ≡ some (power_sum roots i)
  unfolding power_sums
  get_elem?-power_sums roots n i h =
      get_elem?-map (power_sum roots) (count_from n 0) i
        (get_elem?-count_from n i 0 h ∙ ap some (omega arith))

module _ {A : Type 0} ⦃z : ZzP A⦄ where
  -- The inner loop: what it adds to `acc`, with the last product of the convolution left out.
  pub inner_loop :
      (sums out : List A) (p e : ℕ → A) (n t : ℕ) (acc : A)
      → ((i j : ℕ)
          → i + j ≡ t + n
          → (get_elem? sums i ≡ some (p i)) × (get_elem? out i ≡ some (e j)))
      → (total : A) × (for_rounds
            (λ j acc. do s ← get_elem? sums j; c ← get_elem? out j; some (acc ⊕ s ⊗ c))
            n
            t
            acc
          ≡ some total)
        × (total ⊕ p (t + n) ⊗ e zero ≡ acc ⊕ convolution (λ i. p (t + i)) e (suc n))
  unfolding for_rounds
  inner_loop sums out p e zero t acc h = (
    acc,
    refl,
    ap (λ x. acc ⊕ x)
        (sym (z.add-zero _)
          ∙ ap (λ x. p (t + 0) ⊗ e zero ⊕ x) (sym (convolution_start (λ i. p (t + suc i)) e))
          ∙ sym (convolution_next (λ i. p (t + i)) e zero)),
  )
  inner_loop sums out p e (suc n) t acc h =
      let (total, run, value) =
        inner_loop sums out p e n (suc t) (acc ⊕ p t ⊗ e (suc n)) (λ i j q. h i j (omega arith)) in
      (
        total,
        >>=_run _ (>>=_run _ (h t (suc n) refl).0 ∙ >>=_run _ (h t (suc n) refl).1) ∙ run,
        ap (λ i. total ⊕ p i ⊗ e zero) (omega arith)
            ∙ value
            ∙ z.add_assoc acc (p t ⊗ e (suc n)) (convolution (λ i. p (suc t + i)) e (suc n))
            ∙ ap (λ x. acc ⊕ (p x ⊗ e (suc n) ⊕ convolution (λ i. p (suc t + i)) e (suc n)))
                (omega arith)
            ∙ ap (λ x. acc ⊕ (p (t + 0) ⊗ e (suc n) ⊕ x))
                (convolution_ext (λ i. p (suc t + i)) (λ i. p (t + suc i)) e (suc n)
                  (λ i. ap p (omega arith)))
            ∙ ap (λ x. acc ⊕ x) (sym (convolution_next (λ i. p (t + i)) e (suc n))),
      )
