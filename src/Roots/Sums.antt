-- ===== src/Roots/Sums.antt =====
-- Finite sums of elements, and the sum of the two halves of a product that `batch_eval` of
-- root_finding.h adds up.
use ab_prototype.Prelude.{
  ℕ, zero, suc, ◌+◌, ◌-◌, ◌≤◌, ◌<◌, ◌≡◌, refl, sym, ap, ◌∙◌, ltb, if◌then◌else◌, arith,
}
use ab_prototype.ZzP.{ZzP, ◌⊕◌, ◌⊗◌}
use ab_prototype.ZzP.Laws.{zero-add, mul-zero, zero-mul, add-mul}

-- The index of the factor that meets j at i, in a product that is wound around at chi.
abbrev pub wound : ℕ → ℕ → ℕ → ℕ
wound chi i j = if ltb i j then i + chi - j else i - j

pub wound-low : (chi i j : ℕ) → j ≤ i → wound chi i j ≡ i - j
wound-low chi i j h = ground arith

pub wound-high : (chi i j : ℕ) → i < j → wound chi i j ≡ i + chi - j
wound-high chi i j h = ground arith

module _ {A : Type 0} ⦃z : ZzP A⦄ where
  -- f 0 + ... + f (n - 1).
  unfoldable pub sum : (ℕ → A) → ℕ → A
  sum f zero = z.zero
  sum f (suc n) = f zero ⊕ sum (λ j. f (suc j)) n

  pub sum_ext : (f g : ℕ → A) (n : ℕ) → ((j : ℕ) → j < n → f j ≡ g j) → sum f n ≡ sum g n
  unfolding sum
  sum_ext f g zero h = refl
  sum_ext f g (suc n) h =
      ap (λ a. a ⊕ sum (λ j. f (suc j)) n) (h zero (omega arith))
      ∙ ap (◌⊕◌ (g zero))
          (sum_ext (λ j. f (suc j)) (λ j. g (suc j)) n (λ j l. h (suc j) (omega arith)))

  pub sum-zero : (f : ℕ → A) (n : ℕ) → ((j : ℕ) → j < n → f j ≡ z.zero) → sum f n ≡ z.zero
  unfolding sum
  sum-zero f zero h = refl
  sum-zero f (suc n) h =
      ap (λ a. a ⊕ sum (λ j. f (suc j)) n) (h zero (omega arith))
      ∙ zero-add (sum (λ j. f (suc j)) n)
      ∙ sum-zero (λ j. f (suc j)) n (λ j l. h (suc j) (omega arith))

  sum-add : (f : ℕ → A) (m n : ℕ) → sum f (m + n) ≡ sum f m ⊕ sum (λ j. f (m + j)) n
  unfolding sum
  sum-add f zero n =
      let e : zero + n ≡ n = omega arith in
      ap (sum f) e
      ∙ sum_ext f (λ j. f (zero + j)) n (λ j l. ap f (omega arith))
      ∙ sym (zero-add (sum (λ j. f (zero + j)) n))
  sum-add f (suc m) n =
      let e : suc m + n ≡ suc (m + n) = omega arith in
      ap (sum f) e
      ∙ ap (◌⊕◌ (f zero)) (sum-add (λ j. f (suc j)) m n)
      ∙ sym (z.add_assoc (f zero) (sum (λ j. f (suc j)) m) (sum (λ j. f (suc (m + j))) n))
      ∙ ap (◌⊕◌ (sum f (suc m)))
          (sum_ext (λ j. f (suc (m + j))) (λ j. f (suc m + j)) n (λ j l. ap f (omega arith)))

  pub sum-mul : (f : ℕ → A) (n : ℕ) (a : A) → sum f n ⊗ a ≡ sum (λ j. f j ⊗ a) n
  unfolding sum
  sum-mul f zero a = zero-mul a
  sum-mul f (suc n) a =
      add-mul (f zero) (sum (λ j. f (suc j)) n) a
      ∙ ap (◌⊕◌ (f zero ⊗ a)) (sum-mul (λ j. f (suc j)) n a)

  module _ (chi : ℕ) (t g : ℕ → A) (t_end : (j : ℕ) → chi ≤ j → t j ≡ z.zero)
      (g_end : (k : ℕ) → chi ≤ k → g k ≡ z.zero) where
    upper_end : (i j : ℕ) → j < suc i → t j ⊗ g (i + chi - j) ≡ z.zero
    upper_end i j l = ap (◌⊗◌ (t j)) (g_end (i + chi - j) (omega arith)) ∙ mul-zero (t j)

    upper_start : (i j : ℕ) → chi ≤ j → t j ⊗ g (i + chi - j) ≡ z.zero
    upper_start i j l = ap (λ a. a ⊗ g (i + chi - j)) (t_end j l) ∙ zero-mul (g (i + chi - j))

    upper : ℕ → ℕ → A
    upper i j = t j ⊗ g (i + chi - j)

    -- Of the upper coefficient only the terms between i and chi are left.
    sum-upper :
        (i m : ℕ)
        → chi ≡ suc i + m
        → sum (upper i) (suc (i + chi)) ≡ sum (λ j. upper i (suc i + j)) m
    unfolding upper
    sum-upper i m e =
        let size : suc (i + chi) ≡ suc i + (m + suc i) = omega arith in
        ap (sum (upper i)) size
        ∙ sum-add (upper i) (suc i) (m + suc i)
        ∙ ap (λ a. a ⊕ sum (λ j. upper i (suc i + j)) (m + suc i))
            (sum-zero (upper i) (suc i) (upper_end i))
        ∙ zero-add (sum (λ j. upper i (suc i + j)) (m + suc i))
        ∙ sum-add (λ j. upper i (suc i + j)) m (suc i)
        ∙ ap (◌⊕◌ (sum (λ j. upper i (suc i + j)) m)) (
            sum-zero (λ j. upper i (suc i + (m + j))) (suc i)
              (λ j l. upper_start i (suc i + (m + j)) (omega arith)))
        ∙ z.add-zero (sum (λ j. upper i (suc i + j)) m)

    -- The coefficients i and i + chi of the product, together.
    pub sum-wound :
        (i m : ℕ)
        → chi ≡ suc i + m
        → sum (λ j. t j ⊗ g (i - j)) (suc i) ⊕ sum (λ j. t j ⊗ g (i + chi - j)) (suc (i + chi))
          ≡ sum (λ j. t j ⊗ g (wound chi i j)) chi
    unfolding upper
    sum-wound i m e =
        ap (◌⊕◌ (sum (λ j. t j ⊗ g (i - j)) (suc i))) (sum-upper i m e)
        ∙ ap (λ a. a ⊕ sum (λ j. upper i (suc i + j)) m)
            (sum_ext _ _ (suc i)
              (λ j l. ap (λ k. t j ⊗ g k) (sym (wound-low chi i j (omega arith)))))
        ∙ ap (◌⊕◌ (sum (λ j. t j ⊗ g (wound chi i j)) (suc i))) (
            sum_ext _ _ m (λ j l.
              ap (λ k. t (suc i + j) ⊗ g k) (sym (wound-high chi i (suc i + j) (omega arith)))))
        ∙ sym (sum-add (λ j. t j ⊗ g (wound chi i j)) (suc i) m)
        ∙ ap (sum (λ j. t j ⊗ g (wound chi i j))) (sym e)
