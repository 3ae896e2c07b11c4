-- ===== src/Roots/Newton.antt =====
-- Newton's identities, for `newton_to_polynomial` of root_finding.h: the elementary symmetric sums
-- of a list of roots (with their signs, so the coefficients of the polynomial that has them), the
-- sums of their powers, and the equation between the two.
use ab_prototype.Prelude.{ℕ, zero, suc, ◌≡◌, refl, sym, ap, ◌∙◌, List, [], ◌∷◌}
use ab_prototype.ZzP.{ZzP, ◌⊕◌, ◌⊗◌}
use ab_prototype.ZzP.Laws.{
  add_interchange, add-mul, mul_left_comm, zero-add, one-mul, neg-add, mul-zero, zero-mul,
  power-one,
}

module _ {A : Type 0} ⦃z : ZzP A⦄ where
  -- The coefficient of x ^ (length roots - k) in the product of the (x - root).
  unfoldable pub symmetric : List A → ℕ → A
  symmetric [] zero = z.one
  symmetric [] (suc k) = z.zero
  symmetric (r ∷ roots) zero = symmetric roots zero
  symmetric (r ∷ roots) (suc k) = symmetric roots (suc k) ⊕ z.neg r ⊗ symmetric roots k

  -- The sum of the powers to i + 1.
  unfoldable pub power_sum : List A → ℕ → A
  power_sum [] i = z.zero
  power_sum (r ∷ roots) i = z.power r (suc i) ⊕ power_sum roots i

  -- p 0 * e (k - 1) + ... + p (k - 1) * e 0.
  unfoldable pub convolution : (ℕ → A) → (ℕ → A) → ℕ → A
  convolution p e zero = z.zero
  convolution p e (suc k) = p zero ⊗ e k ⊕ convolution (λ i. p (suc i)) e k

  convolution-add :
      (p q e : ℕ → A) (k : ℕ)
      → convolution (λ i. p i ⊕ q i) e k ≡ convolution p e k ⊕ convolution q e k
  unfolding convolution
  convolution-add p q e zero = sym (z.add-zero z.zero)
  convolution-add p q e (suc k) =
      ap (λ x. (p zero ⊕ q zero) ⊗ e k ⊕ x) (convolution-add (λ i. p (suc i)) (λ i. q (suc i)) e k)
      ∙ ap (λ x. x ⊕ (convolution (λ i. p (suc i)) e k ⊕ convolution (λ i. q (suc i)) e k))
          (add-mul (p zero) (q zero) (e k))
      ∙ add_interchange (p zero ⊗ e k) (q zero ⊗ e k) (convolution (λ i. p (suc i)) e k)
          (convolution (λ i. q (suc i)) e k)

  convolution-mul :
      (r : A) (p e : ℕ → A) (k : ℕ) → convolution (λ i. r ⊗ p i) e k ≡ r ⊗ convolution p e k
  unfolding convolution
  convolution-mul r p e zero = sym (mul-zero r)
  convolution-mul r p e (suc k) =
      ap (λ x. (r ⊗ p zero) ⊗ e k ⊕ x) (convolution-mul r (λ i. p (suc i)) e k)
      ∙ ap (λ x. x ⊕ r ⊗ convolution (λ i. p (suc i)) e k) (z.mul_assoc r (p zero) (e k))
      ∙ sym (z.mul-add r (p zero ⊗ e k) (convolution (λ i. p (suc i)) e k))

  pub convolution_ext :
      (p q e : ℕ → A) (k : ℕ) → ((i : ℕ) → p i ≡ q i) → convolution p e k ≡ convolution q e k
  unfolding convolution
  convolution_ext p q e zero h = refl
  convolution_ext p q e (suc k) h =
      rw (h zero, convolution_ext (λ i. p (suc i)) (λ i. q (suc i)) e k (λ i. h (suc i)))

  -- a * (x + s * y) + (u + s * v) = (a * x + u) + s * (a * y + v).
  collect : (a x y s u v : A) → a ⊗ (x ⊕ s ⊗ y) ⊕ (u ⊕ s ⊗ v) ≡ (a ⊗ x ⊕ u) ⊕ s ⊗ (a ⊗ y ⊕ v)
  collect a x y s u v =
      ap (λ t. t ⊕ (u ⊕ s ⊗ v)) (z.mul-add a x (s ⊗ y) ∙ ap (λ t. a ⊗ x ⊕ t) (mul_left_comm a s y))
      ∙ add_interchange (a ⊗ x) (s ⊗ (a ⊗ y)) u (s ⊗ v)
      ∙ ap (λ t. (a ⊗ x ⊕ u) ⊕ t) (sym (z.mul-add s (a ⊗ y) v))

  -- One more root on the right: e' (k + 1) = e (k + 1) - r * e k.
  convolution-step :
      (r : A) (roots : List A) (p : ℕ → A) (k : ℕ)
      → convolution p (symmetric (r ∷ roots)) (suc k)
        ≡ convolution p (symmetric roots) (suc k) ⊕ z.neg r ⊗ convolution p (symmetric roots) k
  unfolding convolution symmetric
  convolution-step r roots p zero = sym (
      ap (λ t. (p zero ⊗ symmetric roots zero ⊕ z.zero) ⊕ t) (mul-zero (z.neg r))
      ∙ z.add-zero (p zero ⊗ symmetric roots zero ⊕ z.zero))
  convolution-step r roots p (suc k) =
      ap (λ t. p zero ⊗ (symmetric roots (suc k) ⊕ z.neg r ⊗ symmetric roots k) ⊕ t)
        (convolution-step r roots (λ i. p (suc i)) k)
      ∙ collect (p zero) (symmetric roots (suc k)) (symmetric roots k) (z.neg r)
          (convolution (λ i. p (suc i)) (symmetric roots) (suc k))
          (convolution (λ i. p (suc i)) (symmetric roots) k)

  -- The powers of the root itself telescope.
  convolution-powers :
      (r : A) (roots : List A) (k : ℕ)
      → convolution (λ i. z.power r (suc i)) (symmetric (r ∷ roots)) (suc k) ≡ r ⊗ symmetric roots k
  unfolding convolution
  convolution-powers r roots k =
      let c = convolution (λ i. z.power r (suc i)) (symmetric roots) k in
      let first = z.power r 1 ⊗ symmetric roots k in
      convolution-step r roots (λ i. z.power r (suc i)) k
      ∙ ap (λ t. (first ⊕ t) ⊕ z.neg r ⊗ c)
          (convolution_ext (λ i. z.power r (suc (suc i))) (λ i. r ⊗ z.power r (suc i))
              (symmetric roots) k (λ i. z.power-suc r (suc i))
            ∙ convolution-mul r (λ i. z.power r (suc i)) (symmetric roots) k)
      ∙ z.add_assoc first (r ⊗ c) (z.neg r ⊗ c)
      ∙ ap (λ t. first ⊕ t)
          (sym (add-mul r (z.neg r) c) ∙ ap (λ t. t ⊗ c) (z.add-neg r) ∙ zero-mul c)
      ∙ z.add-zero first
      ∙ ap (λ t. t ⊗ symmetric roots k) (power-one r)

  convolution_zero : (e : ℕ → A) (k : ℕ) → convolution (λ i. z.zero) e k ≡ z.zero
  unfolding convolution
  convolution_zero e zero = refl
  convolution_zero e (suc k) =
      ap (λ t. t ⊕ convolution (λ i. z.zero) e k) (zero-mul (e k))
      ∙ zero-add _
      ∙ convolution_zero e k

  -- With n' = n + 1 and s = - r, from n' * x + u = 0 and n * y + v = 0.
  cancel_step :
      (n r x y u v : A)
      → (n ⊕ z.one) ⊗ x ⊕ u ≡ z.zero
      → n ⊗ y ⊕ v ≡ z.zero
      → (n ⊕ z.one) ⊗ (x ⊕ z.neg r ⊗ y) ⊕ (r ⊗ y ⊕ (u ⊕ z.neg r ⊗ v)) ≡ z.zero
  cancel_step n r x y u v h k =
      let s = z.neg r in
      let m = n ⊕ z.one in
      ap (λ t. m ⊗ (x ⊕ s ⊗ y) ⊕ t) (z.add_comm (r ⊗ y) (u ⊕ s ⊗ v))
      ∙ sym (z.add_assoc (m ⊗ (x ⊕ s ⊗ y)) (u ⊕ s ⊗ v) (r ⊗ y))
      ∙ ap (λ t. t ⊕ r ⊗ y)
          (collect m x y s u v
            ∙ ap (λ t. t ⊕ s ⊗ (m ⊗ y ⊕ v)) h
            ∙ zero-add (s ⊗ (m ⊗ y ⊕ v))
            ∙ ap (λ t. s ⊗ t) once)
      ∙ sym (add-mul s r y)
      ∙ ap (λ t. t ⊗ y) (neg-add r)
      ∙ zero-mul y
    where
      once : (n ⊕ z.one) ⊗ y ⊕ v ≡ y
      once =
          ap (λ t. t ⊕ v)
            (add-mul n z.one y ∙ ap (λ t. n ⊗ y ⊕ t) (one-mul y) ∙ z.add_comm (n ⊗ y) y)
          ∙ z.add_assoc y (n ⊗ y) v
          ∙ ap (λ t. y ⊕ t) k
          ∙ z.add-zero y

  no_roots : (k : ℕ) → convolution (power_sum []) (symmetric []) k ≡ z.zero
  unfolding power_sum
  no_roots k =
      convolution_ext (power_sum []) (λ i. z.zero) (symmetric []) k (λ i. refl)
      ∙ convolution_zero (symmetric []) k

  pub convolution_next :
      (p e : ℕ → A) (k : ℕ)
      → convolution p e (suc k) ≡ p zero ⊗ e k ⊕ convolution (λ i. p (suc i)) e k
  unfolding convolution
  convolution_next p e k = refl

  pub convolution_start : (p e : ℕ → A) → convolution p e zero ≡ z.zero
  unfolding convolution
  convolution_start p e = refl

  power_sums-step :
      (r : A) (roots : List A) (k : ℕ)
      → convolution (power_sum (r ∷ roots)) (symmetric (r ∷ roots)) (suc k)
        ≡ r ⊗ symmetric roots k
          ⊕ (convolution (power_sum roots) (symmetric roots) (suc k)
              ⊕ z.neg r ⊗ convolution (power_sum roots) (symmetric roots) k)
  unfolding power_sum
  power_sums-step r roots k =
      convolution_ext (power_sum (r ∷ roots)) (λ i. z.power r (suc i) ⊕ power_sum roots i)
        (symmetric (r ∷ roots)) (suc k) (λ i. refl)
      ∙ convolution-add (λ i. z.power r (suc i)) (power_sum roots) (symmetric (r ∷ roots)) (suc k)
      ∙ ap (λ t. t ⊕ convolution (power_sum roots) (symmetric (r ∷ roots)) (suc k))
          (convolution-powers r roots k)
      ∙ ap (λ t. r ⊗ symmetric roots k ⊕ t) (convolution-step r roots (power_sum roots) k)

  -- Newton's identities: k * e k + (p 1 * e (k - 1) + ... + p k * e 0) = 0.
  pub newton_identity :
      (roots : List A) (k : ℕ)
      → z.conv k ⊗ symmetric roots k ⊕ convolution (power_sum roots) (symmetric roots) k ≡ z.zero
  unfolding symmetric power_sum
  newton_identity [] zero =
      ap (λ t. t ⊗ z.one ⊕ convolution (power_sum []) (symmetric []) zero) z.conv-zero
      ∙ ap (λ t. t ⊕ convolution (power_sum []) (symmetric []) zero) (zero-mul z.one)
      ∙ zero-add _
      ∙ no_roots zero
  newton_identity [] (suc k) =
      ap (λ t. t ⊕ convolution (power_sum []) (symmetric []) (suc k)) (mul-zero (z.conv (suc k)))
      ∙ zero-add _
      ∙ no_roots (suc k)
  newton_identity (r ∷ roots) zero =
      ap
        (λ t.
          t ⊗ symmetric roots zero
          ⊕ convolution (power_sum (r ∷ roots)) (symmetric (r ∷ roots)) zero)
        z.conv-zero
      ∙ ap (λ t. t ⊕ convolution (power_sum (r ∷ roots)) (symmetric (r ∷ roots)) zero)
          (zero-mul (symmetric roots zero))
      ∙ zero-add _
      ∙ convolution_start (power_sum (r ∷ roots)) (symmetric (r ∷ roots))
  newton_identity (r ∷ roots) (suc k) =
      ap
        (λ t.
          t ⊗ (symmetric roots (suc k) ⊕ z.neg r ⊗ symmetric roots k)
          ⊕ convolution (power_sum (r ∷ roots)) (symmetric (r ∷ roots)) (suc k))
        (z.conv-suc k)
      ∙ ap (λ t. (z.conv k ⊕ z.one) ⊗ (symmetric roots (suc k) ⊕ z.neg r ⊗ symmetric roots k) ⊕ t)
          (power_sums-step r roots k)
      ∙ cancel_step (z.conv k) r (symmetric roots (suc k)) (symmetric roots k)
          (convolution (power_sum roots) (symmetric roots) (suc k))
          (convolution (power_sum roots) (symmetric roots) k)
          (ap
              (λ t.
                t ⊗ symmetric roots (suc k)
                ⊕ convolution (power_sum roots) (symmetric roots) (suc k))
              (sym (z.conv-suc k))
            ∙ newton_identity roots (suc k))
          (newton_identity roots k)
