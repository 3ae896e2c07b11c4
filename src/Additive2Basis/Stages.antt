-- ===== src/Additive2Basis/Stages.antt =====
-- The first five loops of the decompression circuit, on an honest encoding.
use ab_prototype.Prelude.{
  ℕ, zero, suc, ◌+◌, ◌-◌, ◌*◌, ◌<◌, ◌≡◌, Option, some, ap, arith, for_range, for_range_run, ltb,
  lt→ltb, ◌∙◌, >>=_run, refl, false,
}
use ab_prototype.ZzP.{ZzP}
use ab_prototype.Additive2Basis.{add2basis_encode}
use ab_prototype.Additive2Basis.Encoding.{holds1, holds2, holds3}
use ab_prototype.Additive2Basis.Circuit.{copy, product, copy_products, num_messages}
use ab_prototype.Additive2Basis.Powers.{Puts, copy_step, product_step, row_le}

module _ {A : Type 0} ⦃z : ZzP A⦄ {S : Type 0} (put : A → S → Option S) (msg : A) (L : ℕ)
    (L_pos : 0 < L) (state : ℕ → S) (puts : Puts put msg (num_messages L) state) where
  abbrev code_copy : ℕ → S → Option S
  code_copy = copy put (add2basis_encode msg L)

  abbrev code_product : ℕ → ℕ → S → Option S
  code_product = product put (add2basis_encode msg L)

  pub loop1 : for_range code_copy 0 L (state 0) ≡ some (state L)
  loop1 = for_range_run _ state 0 L L _ _ (omega arith) refl refl λ t h.
      copy_step put msg L state puts (0 + t) t (suc t) refl (omega arith)
        (holds1 msg L (0 + t) (suc t) (omega arith) (omega arith))

  pub loop2 : for_range (λ i. code_product (L - 1) i) 0 L (state L) ≡ some (state (2 * L))
  loop2 =
      for_range_run _ (λ t. state (L + t)) 0 L L _ _ (omega arith) (ap state (omega arith))
        (ap state (omega arith))
        λ t h.
          product_step put msg L state puts (L - 1) (0 + t) (L + t) (L + suc t) L (suc t)
            (omega arith) (omega arith) (omega arith)
            (holds1 msg L (L - 1) L (omega arith) (omega arith))
            (holds1 msg L (0 + t) (suc t) (omega arith) (omega arith))

  row3 :
      (s j : ℕ)
      → j ≡ L + s
      → s < 3 * L
      → for_range (λ i. code_product i j) 0 L (state (2 * L + s * L))
        ≡ some (state (2 * L + suc s * L))
  row3 s j e l =
      for_range_run _ (λ t. state (2 * L + s * L + t)) 0 L L _ _ (omega arith)
        (ap state (omega arith)) (ap state (omega arith))
        λ t h.
          product_step put msg L state puts (0 + t) j (2 * L + s * L + t) (2 * L + s * L + suc t)
            (suc t) ((s + 2) * L) (omega arith) (omega arith) (omega (arith, row_le s (3 * L) L l))
            (holds1 msg L (0 + t) (suc t) (omega arith) (omega arith))
            (holds2 msg L j s ((s + 2) * L) e l refl)

  pub loop3 :
      for_range (λ j. for_range (λ i. code_product i j) 0 L) L (4 * L) (state (2 * L))
      ≡ some (state (3 * (L * L) + 2 * L))
  loop3 =
      for_range_run _ (λ s. state (2 * L + s * L)) L (4 * L) (3 * L) _ _ (omega arith)
        (ap state (omega arith)) (ap state (omega arith)) λ s h. row3 s (L + s) refl h

  -- Where the rounds of the fourth loop start; the first one copies nothing.
  abbrev start4 : ℕ → ℕ
  start4 zero = 3 * (L * L) + 2 * L
  start4 (suc s) = 3 * (L * L) + 2 * L - 1 + suc s * (L + 1)

  products4 :
      (s j k : ℕ)
      → j ≡ 4 * L + s
      → s < L
      → k ≡ 3 * (L * L) + 2 * L + s * (L + 1)
      → for_range (λ i. code_product i j) 0 L (state k) ≡ some (state (start4 (suc s)))
  products4 s j k e l ek =
      for_range_run _ (λ t. state (k + t)) 0 L L _ _ (omega arith) (ap state (omega arith))
        (ap state (omega arith))
        λ t h.
          product_step put msg L state puts (0 + t) j (k + t) (k + suc t) (suc t)
            (3 * (L * L) + L - 1 + (s + 1) * (L + 1)) (omega arith) (omega arith)
            (omega (arith, row_le s L (L + 1) l))
            (holds1 msg L (0 + t) (suc t) (omega arith) (omega arith)) (holds3 msg L j s _ e l refl)

  round4 :
      (s : ℕ)
      → s < L
      → copy_products put (add2basis_encode msg L) L (4 * L + s) (state (start4 s))
        ≡ some (state (start4 (suc s)))
  unfolding copy_products
  round4 zero l =
      let first : ltb (4 * L) (4 * L + zero) ≡ false = ground arith in
      rw first (products4 0 (4 * L + zero) (3 * (L * L) + 2 * L) (omega arith) l (omega arith))
  round4 (suc s) l =
      rw (lt→ltb (4 * L) (4 * L + suc s) (omega arith))
        (>>=_run _ copied ∙ products4 (suc s) (4 * L + suc s) _ refl l (omega arith))
    where
      copied :
          code_copy (4 * L + suc s) (state (start4 (suc s)))
          ≡ some (state (3 * (L * L) + 2 * L + suc s * (L + 1)))
      copied =
          copy_step put msg L state puts (4 * L + suc s) (start4 (suc s)) _ (omega arith)
            (omega (arith, row_le (suc s) L (L + 1) l))
            (holds3 msg L (4 * L + suc s) (suc s) _ refl l (omega arith))

  start4_end : (n : ℕ) → 0 < n → start4 n ≡ 3 * (L * L) + 2 * L - 1 + n * (L + 1)
  start4_end zero h = absurd (omega arith)
  start4_end (suc n) h = refl

  pub loop4 :
      for_range
        (copy_products put (add2basis_encode msg L) L)
        (4 * L)
        (5 * L)
        (state (3 * (L * L) + 2 * L))
      ≡ some (state (4 * (L * L) + 3 * L - 1))
  loop4 =
      for_range_run _ (λ s. state (start4 s)) (4 * L) (5 * L) L _ _ (omega arith) refl
        (ap state (omega (arith, start4_end L L_pos))) round4

  row5 :
      (s : ℕ)
      → s < 2 * L + 1
      → for_range
          (λ j. code_product (2 * L - 1 + (1 + s) - j) (4 * L + j - 1))
          1
          (L + 1)
          (state (4 * (L * L) + 3 * L - 1 + s * L))
        ≡ some (state (4 * (L * L) + 3 * L - 1 + suc s * L))
  row5 s l =
      for_range_run _ (λ t. state (4 * (L * L) + 3 * L - 1 + s * L + t)) 1 (L + 1) L _ _
        (omega arith) (ap state (omega arith)) (ap state (omega arith))
        λ t h.
          product_step put msg L state puts (2 * L - 1 + (1 + s) - (1 + t)) (4 * L + (1 + t) - 1) _
            _ ((L + s - 1 - t + 2) * L) (3 * (L * L) + L - 1 + (t + 1) * (L + 1)) (omega arith)
            (exponents (L + s - 1 - t) t (omega arith)) (omega (arith, row_le s (2 * L + 1) L l))
            (holds2 msg L _ (L + s - 1 - t) _ (omega arith) (omega arith) refl)
            (holds3 msg L _ t _ (omega arith) h refl)
    where
      exponents :
          (q t : ℕ)
          → q + t + 1 ≡ L + s
          → (q + 2) * L + (3 * (L * L) + L - 1 + (t + 1) * (L + 1))
            ≡ 4 * (L * L) + 3 * L - 1 + s * L + suc t
      exponents q t e = omega (arith, ap (λ (x : ℕ). x * L) e)

  pub loop5 :
      for_range
        (λ i. for_range (λ j. code_product (2 * L - 1 + i - j) (4 * L + j - 1)) 1 (L + 1))
        1
        (2 * L + 2)
        (state (4 * (L * L) + 3 * L - 1))
      ≡ some (state (6 * (L * L) + 4 * L - 1))
  loop5 =
      for_range_run _ (λ s. state (4 * (L * L) + 3 * L - 1 + s * L)) 1 (2 * L + 2) (2 * L + 1) _ _
        (omega arith) (ap state (omega arith)) (ap state (omega arith)) row5
