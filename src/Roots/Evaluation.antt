-- ===== src/Roots/Evaluation.antt =====
-- `batch_eval` of root_finding.h evaluates a polynomial at all powers of w ^ 2 by one product.
use ab_prototype.Prelude.{
  ℕ, zero, suc, ◌+◌, ◌-◌, ◌*◌, ◌≤◌, ◌<◌, ◌≡◌, ◌≢◌, ◌⊎◌, inl, inr, refl, sym, ap, subst, ◌∙◌, ◌==◌,
  if◌then◌else◌, arith,
}
use ab_prototype.ZzP.{ZzP, ◌⊕◌, ◌⊗◌}
use ab_prototype.ZzP.Laws.{zero-add, one-mul, power-add}
use ab_prototype.SecretSharing.{Poly}
use ab_prototype.Roots.Field.{Inverse}
use ab_prototype.Roots.Graeffe.{set_from}
use ab_prototype.Roots.Search.{powers_of, batch_eval}
use ab_prototype.Roots.Powers.{
  coeff-set_coeff_same, coeff-set_coeff_after, coeff-set_coeff_before, powers_of-power,
  powers_of-first, powers_of-last,
}
use ab_prototype.Roots.Sums.{sum, sum_ext, sum-mul, wound, sum-wound}
use ab_prototype.Roots.Chirps.{power-mul, power-nonzero, power-wound}

-- What NTL documents of the coefficients of a polynomial: one that is set is read back and the others
-- stay, and the products and values are those of polynomials.
pub record HasCoeffs (A P : Type 0) ⦃z : ZzP A⦄ ⦃p : Poly A P⦄ : Type 0 where
  pub coeff-set_coeff :
      (f : P) (i j : ℕ) (a : A)
      → p.coeff (p.set_coeff f i a) j ≡ (if i == j then a else p.coeff f j)
  pub coeff-mul_poly :
      (f g : P) (n : ℕ)
      → p.coeff (p.mul_poly f g) n ≡ sum (λ j. p.coeff f j ⊗ p.coeff g (n - j)) (suc n)
  pub eval-sum :
      (f : P) (x : A) (n : ℕ) → p.len f ≤ n → p.eval f x ≡ sum (λ j. p.coeff f j ⊗ z.power x j) n

module _ {A P : Type 0} ⦃z : ZzP A⦄ ⦃p : Poly A P⦄ ⦃v : Inverse A⦄ (laws : HasCoeffs A P) where
  set_from-other :
      (c : ℕ → A) (n i : ℕ) (out : P) (j : ℕ)
      → (j < i) ⊎ (i + n ≤ j)
      → p.coeff (set_from c n i out) j ≡ p.coeff out j
  unfolding set_from
  set_from-other c zero i out j h = refl
  set_from-other c (suc n) i out j (inl h) =
      set_from-other c n (suc i) (p.set_coeff out i (c i)) j (inl (omega arith))
      ∙ coeff-set_coeff_after laws.coeff-set_coeff (c i) out i j (c i) h
  set_from-other c (suc n) i out j (inr h) =
      set_from-other c n (suc i) (p.set_coeff out i (c i)) j (inr (omega arith))
      ∙ coeff-set_coeff_before laws.coeff-set_coeff (c i) out i j (c i) (omega arith)

  set_from-filled :
      (c : ℕ → A) (n i : ℕ) (out : P) (t : ℕ)
      → t < n
      → p.coeff (set_from c n i out) (i + t) ≡ c (i + t)
  unfolding set_from
  set_from-filled c zero i out t h = absurd (omega arith)
  set_from-filled c (suc n) i out zero h =
      let e : i + zero ≡ i = omega arith in
      rw e (
        set_from-other c n (suc i) (p.set_coeff out i (c i)) i (inl (omega arith))
        ∙ coeff-set_coeff_same laws.coeff-set_coeff (c i) out i (c i))
  set_from-filled c (suc n) i out (suc t) h =
      let e : i + suc t ≡ suc i + t = omega arith in
      rw e (set_from-filled c n (suc i) (p.set_coeff out i (c i)) t (omega arith))

  set_from-coeff :
      (c : ℕ → A) (n : ℕ) (out : P) (j : ℕ) → j < n → p.coeff (set_from c n 0 out) j ≡ c j
  set_from-coeff c n out j h =
      let e : 0 + j ≡ j = omega arith in
      subst (λ k. p.coeff (set_from c n 0 out) k ≡ c k) e (set_from-filled c n 0 out j h)

  module _ (w : A) (chi half : ℕ) (some : 1 ≤ chi) (even : chi ≡ 2 * half)
      (root : z.power w (2 * chi) ≡ z.one) (distinct : z.one ≢ z.zero) where
    abbrev powers : P
    powers = (powers_of A P w chi).0

    abbrev powers_inv : P
    powers_inv = (powers_of A P w chi).1

    conv-one : z.conv 1 ≡ z.one
    conv-one = z.conv-suc 0 ∙ ap (λ a. a ⊕ z.one) z.conv-zero ∙ zero-add z.one

    powers-square : (j : ℕ) → j < chi → p.coeff powers j ≡ z.power w (j * j)
    powers-square zero h =
        (powers_of-first laws.coeff-set_coeff w chi).0 ∙ conv-one ∙ sym (z.power-zero w)
    powers-square (suc j) h = (powers_of-power laws.coeff-set_coeff w chi (suc j) (omega arith) h).0

    powers_inv-square : (k : ℕ) → k < chi → z.power w (k * k) ⊗ p.coeff powers_inv k ≡ z.one
    powers_inv-square zero h =
        ap (λ a. a ⊗ p.coeff powers_inv 0) (z.power-zero w)
        ∙ one-mul (p.coeff powers_inv 0)
        ∙ (powers_of-first laws.coeff-set_coeff w chi).1
        ∙ conv-one
    powers_inv-square (suc k) h =
        ap (◌⊗◌ (z.power w (suc k * suc k)))
          (powers_of-power laws.coeff-set_coeff w chi (suc k) (omega arith) h).1
        ∙ v.mul-inv (z.power w (suc k * suc k))
            (power-nonzero w chi half root even some distinct (suc k * suc k))

    regroup : (a u g s : A) → ((a ⊗ u) ⊗ g) ⊗ s ≡ a ⊗ ((s ⊗ u) ⊗ g)
    regroup a u g s =
        z.mul_assoc (a ⊗ u) g s
        ∙ z.mul_assoc a u (g ⊗ s)
        ∙ ap (◌⊗◌ a) (
            ap (◌⊗◌ u) (z.mul_comm g s)
            ∙ sym (z.mul_assoc u s g)
            ∙ ap (λ b. b ⊗ g) (z.mul_comm u s))

    wound-lt : (i j : ℕ) → i < chi → j < chi → wound chi i j < chi
    wound-lt i j li lj = ground arith

    -- A term of the sum, times the chirp at i.
    chirp_term :
        (a : A) (i j : ℕ)
        → i < chi
        → j < chi
        → ((a ⊗ p.coeff powers j) ⊗ p.coeff powers_inv (wound chi i j)) ⊗ p.coeff powers i
          ≡ a ⊗ z.power (z.power (z.power w 2) i) j
    chirp_term a i j li lj =
        let k = wound chi i j in
        let g = p.coeff powers_inv k in
        let exponent : 2 * i * j ≡ 2 * (i * j) = omega arith in
        regroup a (p.coeff powers j) g (p.coeff powers i)
        ∙ ap (◌⊗◌ a) (
            ap (λ b. (b ⊗ p.coeff powers j) ⊗ g) (powers-square i li)
            ∙ ap (λ b. (z.power w (i * i) ⊗ b) ⊗ g) (powers-square j lj)
            ∙ ap (λ b. b ⊗ g)
                (sym (power-add w (i * i) (j * j)) ∙ power-wound w chi half root even i j li lj)
            ∙ z.mul_assoc (z.power w (2 * (i * j))) (z.power w (k * k)) g
            ∙ ap (◌⊗◌ (z.power w (2 * (i * j)))) (powers_inv-square k (wound-lt i j li lj))
            ∙ z.mul-one (z.power w (2 * (i * j)))
            ∙ sym (
                ap (λ b. z.power b j) (power-mul w 2 i)
                ∙ power-mul w (2 * i) j
                ∙ ap (z.power w) exponent))

    -- The first product of `batch_eval`.
    chirped : P → P
    chirped f = set_from (λ i. p.coeff f i ⊗ p.coeff powers i) chi 0 p.zero_poly

    chirped-end : (f : P) (j : ℕ) → chi ≤ j → p.coeff (chirped f) j ≡ z.zero
    unfolding chirped
    chirped-end f j h =
        set_from-other (λ i. p.coeff f i ⊗ p.coeff powers i) chi 0 p.zero_poly j (inr (omega arith))
        ∙ p.coeff-zero_poly j

    product : P → P
    product f = p.mul_poly (chirped f) powers_inv

    -- The coefficients i and i + chi of the product, times the chirp at i.
    product-eval :
        (f : P) (i : ℕ)
        → p.len f ≤ chi
        → i < chi
        → (p.coeff (product f) i ⊕ p.coeff (product f) (i + chi)) ⊗ p.coeff powers i
          ≡ p.eval f (z.power (z.power w 2) i)
    unfolding product chirped
    product-eval f i short li =
        let t = p.coeff (chirped f) in
        let g = p.coeff powers_inv in
        let rest : chi ≡ suc i + (chi - suc i) = omega arith in
        ap (λ b. b ⊗ p.coeff powers i)
          (ap (λ b. b ⊕ p.coeff (product f) (i + chi))
              (laws.coeff-mul_poly (chirped f) powers_inv i)
            ∙ ap (◌⊕◌ (sum (λ j. t j ⊗ g (i - j)) (suc i)))
                (laws.coeff-mul_poly (chirped f) powers_inv (i + chi))
            ∙ sum-wound chi t g (chirped-end f)
                (λ k l. (powers_of-last laws.coeff-set_coeff w chi k some l).1) i (chi - suc i)
                rest)
        ∙ sum-mul (λ j. t j ⊗ g (wound chi i j)) chi (p.coeff powers i)
        ∙ sum_ext _ _ chi (λ j lj.
          ap (λ b. (b ⊗ g (wound chi i j)) ⊗ p.coeff powers i)
            (set_from-coeff (λ k. p.coeff f k ⊗ p.coeff powers k) chi p.zero_poly j lj)
          ∙ chirp_term (p.coeff f j) i j li lj)
        ∙ sym (laws.eval-sum f (z.power (z.power w 2) i) chi short)

    -- `batch_eval` evaluates: where the powers of w and their inverses are those that `find_roots`
    -- computes, w ^ (2 * chi) is 1, chi is even and positive, and 1 is not 0, the coefficient i < chi of
    -- its result is the value of the polynomial at (w ^ 2) ^ i, for a polynomial of at most chi
    -- coefficients, if NTL keeps the laws of coefficients, products and values, and the degree of
    -- `powers_of_w` is chi - 1.
    pub batch_eval-eval :
        (f : P) (i : ℕ)
        → p.len powers ≡ chi
        → p.len f ≤ chi
        → i < chi
        → p.coeff (batch_eval A P f powers powers_inv) i ≡ p.eval f (z.power (z.power w 2) i)
    unfolding batch_eval product chirped
    batch_eval-eval f i size short li = rw size (
        set_from-coeff
          (λ k. (p.coeff (product f) k ⊕ p.coeff (product f) (k + chi)) ⊗ p.coeff powers k) chi
          p.zero_poly i li
        ∙ product-eval f i short li)
