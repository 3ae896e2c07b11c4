-- ===== src/Roots/Chirps.antt =====
-- The powers of w, whose order divides 2 * chi, that `batch_eval` of root_finding.h multiplies.
use ab_prototype.Prelude.{
  ℕ, zero, suc, ◌+◌, ◌-◌, ◌*◌, ◌≤◌, ◌<◌, ◌≡◌, ◌≢◌, sym, ap, subst, ◌∙◌, ltb, Bool-cases, inl, inr,
  ltb→lt, arith,
}
use ab_prototype.ZzP.{ZzP, ◌⊗◌}
use ab_prototype.ZzP.Laws.{power-add, one-mul, zero-mul}
use ab_prototype.Roots.Sums.{wound, wound-low, wound-high}

module _ {A : Type 0} ⦃z : ZzP A⦄ where
  pub power-mul : (a : A) (m n : ℕ) → z.power (z.power a m) n ≡ z.power a (m * n)
  power-mul a m zero =
      let e : m * zero ≡ zero = omega arith in
      z.power-zero (z.power a m) ∙ sym (ap (z.power a) e ∙ z.power-zero a)
  power-mul a m (suc n) =
      let e : m + m * n ≡ m * suc n = omega arith in
      z.power-suc (z.power a m) n
      ∙ ap (◌⊗◌ (z.power a m)) (power-mul a m n)
      ∙ sym (power-add a m (m * n))
      ∙ ap (z.power a) e

squares_low : (j k : ℕ) → (j + k) * (j + k) + j * j ≡ 2 * ((j + k) * j) + k * k
squares_low j k = grind arith

squares_high :
    (i d k : ℕ)
    → i * i + (i + d) * (i + d) + ((d + k) * (d + k) + 2 * (d + k) * i)
      ≡ 2 * (i * (i + d)) + k * k + 2 * (d + k) * (i + d)
squares_high i d k = grind arith

halves : (c half i : ℕ) → 2 * c * (half + i) ≡ c * (2 * half) + 2 * c * i
halves c half i = grind arith

exponents_high :
    (i d k half : ℕ)
    → d + k ≡ 2 * half
    → i * i + (i + d) * (i + d) + 2 * (d + k) * (half + i)
      ≡ 2 * (i * (i + d)) + k * k + 2 * (d + k) * (i + d)
exponents_high i d k half even =
    ap (◌+◌ (i * i + (i + d) * (i + d)))
      (halves (d + k) half i ∙ ap (λ c. (d + k) * c + 2 * (d + k) * i) (sym even))
    ∙ squares_high i d k

module _ {A : Type 0} ⦃z : ZzP A⦄ (w : A) (chi half : ℕ) (root : z.power w (2 * chi) ≡ z.one)
    (even : chi ≡ 2 * half) where
  period : (e : ℕ) → z.power w (2 * chi * e) ≡ z.one
  period e = sym (power-mul w (2 * chi) e) ∙ ap (λ a. z.power a e) root ∙ one-power e
    where
      one-power : (n : ℕ) → z.power z.one n ≡ z.one
      one-power zero = z.power-zero z.one
      one-power (suc n) = z.power-suc z.one n ∙ one-mul (z.power z.one n) ∙ one-power n

  pub power-nonzero : 1 ≤ chi → z.one ≢ z.zero → (e : ℕ) → z.power w e ≢ z.zero
  power-nonzero some distinct e is_zero =
      let n = 2 * chi - 1 in
      let parts : 2 * chi * e ≡ e + n * e =
        ap (λ k. k * e) {x = 2 * chi} {y = suc n} (omega arith) ∙ omega arith in
      distinct (
        sym (period e)
        ∙ ap (z.power w) parts
        ∙ power-add w e (n * e)
        ∙ ap (λ a. a ⊗ z.power w (n * e)) is_zero
        ∙ zero-mul (z.power w (n * e)))

  -- Exponents that differ by periods give the same power.
  same_power : (m n s t : ℕ) → m + 2 * chi * s ≡ n + 2 * chi * t → z.power w m ≡ z.power w n
  same_power m n s t e = sym (shift m s) ∙ ap (z.power w) e ∙ shift n t
    where
      shift : (k r : ℕ) → z.power w (k + 2 * chi * r) ≡ z.power w k
      shift k r =
          power-add w k (2 * chi * r) ∙ ap (◌⊗◌ (z.power w k)) (period r) ∙ z.mul-one (z.power w k)

  power-low :
      (j k : ℕ)
      → z.power w ((j + k) * (j + k) + j * j) ≡ z.power w (2 * ((j + k) * j)) ⊗ z.power w (k * k)
  power-low j k = ap (z.power w) (squares_low j k) ∙ power-add w (2 * ((j + k) * j)) (k * k)

  power-high :
      (i d k : ℕ)
      → chi ≡ d + k
      → z.power w (i * i + (i + d) * (i + d)) ≡ z.power w (2 * (i * (i + d))) ⊗ z.power w (k * k)
  power-high i d k e =
      same_power (i * i + (i + d) * (i + d)) (2 * (i * (i + d)) + k * k) (half + i) (i + d) (
        subst
          (λ c.
            i * i + (i + d) * (i + d) + 2 * c * (half + i)
            ≡ 2 * (i * (i + d)) + k * k + 2 * c * (i + d))
          (sym e) (exponents_high i d k half (sym e ∙ even)))
      ∙ power-add w (2 * (i * (i + d))) (k * k)

  -- i * i + j * j and 2 * i * j differ by the square of the index that meets j.
  pub power-wound :
      (i j : ℕ)
      → i < chi
      → j < chi
      → z.power w (i * i + j * j)
        ≡ z.power w (2 * (i * j)) ⊗ z.power w (wound chi i j * wound chi i j)
  power-wound i j li lj = elim (Bool-cases (ltb i j)) [
    | inl e ↦
        let lt : i < j = ltb→lt i j e in
        let is_j : i + (j - i) ≡ j = omega arith in
        let parts : chi ≡ (j - i) + (i + chi - j) = omega arith in
        rw (wound-high chi i j lt) (
          subst
            (λ n.
              z.power w (i * i + n * n)
              ≡ z.power w (2 * (i * n)) ⊗ z.power w ((i + chi - j) * (i + chi - j)))
            is_j (power-high i (j - i) (i + chi - j) parts))
    | inr e ↦
        let le : j ≤ i = ground arith in
        let is_i : j + (i - j) ≡ i = omega arith in
        rw (wound-low chi i j le) (
          subst
            (λ n.
              z.power w (n * n + j * j) ≡ z.power w (2 * (n * j)) ⊗ z.power w ((i - j) * (i - j)))
            is_i (power-low j (i - j)))
  ]
