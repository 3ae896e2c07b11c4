-- ===== src/Roots/Powers.antt =====
-- The chirps of `find_roots` in root_finding.h: the loop that fills `powers_of_w` by products only
-- puts w ^ (i * i) at i, and its inverse into `powers_of_w_inv`.
use ab_prototype.Prelude.{
  ℕ, zero, suc, ◌+◌, ◌-◌, ◌*◌, ◌≤◌, ◌<◌, ◌≡◌, refl, sym, ap, ◌∙◌, true, false, ◌==◌, ==_iff,
  if◌then◌else◌, Bool-cases, inl, inr, arith,
}
use ab_prototype.ZzP.{ZzP, ◌⊗◌}
use ab_prototype.ZzP.Laws.{power-add, power-one}
use ab_prototype.SecretSharing.{Poly}
use ab_prototype.Roots.Field.{Inverse}
use ab_prototype.Roots.Search.{powers_loop, powers_of}

module _ {A P : Type 0} ⦃z : ZzP A⦄ ⦃p : Poly A P⦄ ⦃v : Inverse A⦄
    (coeff-set_coeff : (f : P) (i j : ℕ) (a : A)
      → p.coeff (p.set_coeff f i a) j ≡ (if i == j then a else p.coeff f j))
    (w : A) where
  pub coeff-set_coeff_same : (f : P) (i : ℕ) (a : A) → p.coeff (p.set_coeff f i a) i ≡ a
  coeff-set_coeff_same f i a =
      let same : (i == i) ≡ true = ground arith in coeff-set_coeff f i i a ∙ rw same refl

  pub coeff-set_coeff_after :
      (f : P) (i j : ℕ) (a : A) → j < i → p.coeff (p.set_coeff f i a) j ≡ p.coeff f j
  coeff-set_coeff_after f i j a h =
      let other : (i == j) ≡ false = ground arith in coeff-set_coeff f i j a ∙ rw other refl

  -- What was filled stays.
  powers_loop-before :
      (rounds k : ℕ) (step square : A) (a b : P) (j : ℕ)
      → j < suc k
      → (p.coeff (powers_loop A P (z.power w 2) rounds (suc k) step square (a, b)).0 j
          ≡ p.coeff a j)
        × (p.coeff (powers_loop A P (z.power w 2) rounds (suc k) step square (a, b)).1 j
            ≡ p.coeff b j)
  unfolding powers_loop
  powers_loop-before zero k step square a b j h = (refl, refl)
  powers_loop-before (suc rounds) k step square a b j h =
      let (first, second) =
        powers_loop-before rounds (suc k) (step ⊗ z.power w 2) (square ⊗ (step ⊗ z.power w 2))
          (p.set_coeff a (suc k) square) (p.set_coeff b (suc k) (v.inv square)) j (omega arith) in
      (
        first ∙ coeff-set_coeff_after a (suc k) j square h,
        second ∙ coeff-set_coeff_after b (suc k) j (v.inv square) h,
      )

  pub coeff-set_coeff_before :
      (f : P) (i j : ℕ) (a : A) → i < j → p.coeff (p.set_coeff f i a) j ≡ p.coeff f j
  coeff-set_coeff_before f i j a h =
      let other : (i == j) ≡ false = ground arith in coeff-set_coeff f i j a ∙ rw other refl

  -- What is not reached stays.
  powers_loop-after :
      (rounds k : ℕ) (step square : A) (a b : P) (j : ℕ)
      → suc k + rounds ≤ j
      → (p.coeff (powers_loop A P (z.power w 2) rounds (suc k) step square (a, b)).0 j
          ≡ p.coeff a j)
        × (p.coeff (powers_loop A P (z.power w 2) rounds (suc k) step square (a, b)).1 j
            ≡ p.coeff b j)
  unfolding powers_loop
  powers_loop-after zero k step square a b j h = (refl, refl)
  powers_loop-after (suc rounds) k step square a b j h =
      let (first, second) =
        powers_loop-after rounds (suc k) (step ⊗ z.power w 2) (square ⊗ (step ⊗ z.power w 2))
          (p.set_coeff a (suc k) square) (p.set_coeff b (suc k) (v.inv square)) j (omega arith) in
      (
        first ∙ coeff-set_coeff_before a (suc k) j square (omega arith),
        second ∙ coeff-set_coeff_before b (suc k) j (v.inv square) (omega arith),
      )

  -- The first coefficients are 1, and those from chi on are 0.
  pub powers_of-first :
      (chi : ℕ)
      → (p.coeff (powers_of A P w chi).0 0 ≡ z.conv 1)
        × (p.coeff (powers_of A P w chi).1 0 ≡ z.conv 1)
  unfolding powers_of
  powers_of-first chi =
      let start = p.set_coeff p.zero_poly 0 (z.conv 1) in
      let (first, second) = powers_loop-before (chi - 1) 0 w w start start 0 (omega arith) in
      (
        first ∙ coeff-set_coeff_same p.zero_poly 0 (z.conv 1),
        second ∙ coeff-set_coeff_same p.zero_poly 0 (z.conv 1),
      )

  pub powers_of-last :
      (chi j : ℕ)
      → 1 ≤ chi
      → chi ≤ j
      → (p.coeff (powers_of A P w chi).0 j ≡ z.zero) × (p.coeff (powers_of A P w chi).1 j ≡ z.zero)
  unfolding powers_of
  powers_of-last chi j some h =
      let start = p.set_coeff p.zero_poly 0 (z.conv 1) in
      let (first, second) = powers_loop-after (chi - 1) 0 w w start start j (omega arith) in
      let none : p.coeff start j ≡ z.zero =
        coeff-set_coeff_before p.zero_poly 0 j (z.conv 1) (omega arith) ∙ p.coeff-zero_poly j in
      (first ∙ none, second ∙ none)

  powers_loop-filled :
      (rounds k : ℕ) (step square : A) (a b : P) (j : ℕ)
      → step ≡ z.power w (2 * k + 1)
      → square ≡ z.power w (suc k * suc k)
      → k < j
      → j < suc k + rounds
      → (p.coeff (powers_loop A P (z.power w 2) rounds (suc k) step square (a, b)).0 j
          ≡ z.power w (j * j))
        × (p.coeff (powers_loop A P (z.power w 2) rounds (suc k) step square (a, b)).1 j
            ≡ v.inv (z.power w (j * j)))
  unfolding powers_loop
  powers_loop-filled zero k step square a b j es eq above below = absurd (omega arith)
  powers_loop-filled (suc rounds) k step square a b j es eq above below =
      let next_step : step ⊗ z.power w 2 ≡ z.power w (2 * suc k + 1) =
        ap (λ x. x ⊗ z.power w 2) es
        ∙ sym (power-add w (2 * k + 1) 2)
        ∙ ap (z.power w) (omega arith) in
      let odd : suc k * suc k + (2 * suc k + 1) ≡ suc (suc k) * suc (suc k) = grind arith in
      let next_square : square ⊗ (step ⊗ z.power w 2) ≡ z.power w (suc (suc k) * suc (suc k)) =
        ap (λ x. square ⊗ x) next_step
        ∙ ap (λ x. x ⊗ z.power w (2 * suc k + 1)) eq
        ∙ sym (power-add w (suc k * suc k) (2 * suc k + 1))
        ∙ ap (z.power w) odd in
      elim (Bool-cases (j == suc k)) [
        | inl e ↦
            let same : j ≡ suc k = (==_iff j (suc k)).0 e in
            let (first, second) =
              powers_loop-before rounds (suc k) (step ⊗ z.power w 2) (square ⊗ (step ⊗ z.power w 2))
                (p.set_coeff a (suc k) square) (p.set_coeff b (suc k) (v.inv square)) (suc k)
                (omega arith) in
            rw same (
              first ∙ coeff-set_coeff_same a (suc k) square ∙ eq,
              second ∙ coeff-set_coeff_same b (suc k) (v.inv square) ∙ ap v.inv eq,
            )
        | inr e ↦
            let above' : suc k < j = ground (arith, e) in
            powers_loop-filled rounds (suc k) (step ⊗ z.power w 2) (square ⊗ (step ⊗ z.power w 2))
              (p.set_coeff a (suc k) square) (p.set_coeff b (suc k) (v.inv square)) j next_step
              next_square above' (omega arith)
      ]

  -- If a coefficient that is set is read back, and the others stay, then for every i from 1 below
  -- chi, `find_roots` has at i of `powers_of_w` the power w ^ (i * i), which its loop computes with
  -- two products, and at i of `powers_of_w_inv` the inverse of that.
  pub powers_of-power :
      (chi i : ℕ)
      → 0 < i
      → i < chi
      → (p.coeff (powers_of A P w chi).0 i ≡ z.power w (i * i))
        × (p.coeff (powers_of A P w chi).1 i ≡ v.inv (z.power w (i * i)))
  unfolding powers_of
  powers_of-power chi i positive below =
      powers_loop-filled (chi - 1) 0 w w (p.set_coeff p.zero_poly 0 (z.conv 1))
        (p.set_coeff p.zero_poly 0 (z.conv 1)) i (sym (power-one w)) (sym (power-one w)) positive
        (omega arith)
