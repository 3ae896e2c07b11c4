-- ===== src/Additive2Basis/Blocks.antt =====
-- The last ten loops of the decompression circuit, on an honest encoding. They are the same five
-- loops twice: once for the exponents of S_4, which start at place 5 * L, once for those of S_5,
-- which start at place 6 * L + 1. `q` is the place and `c` the first exponent.
use ab_prototype.Prelude.{
  ℕ, suc, ◌+◌, ◌-◌, ◌*◌, ◌≤◌, ◌<◌, ◌≡◌, Option, some, ap, arith, for_range, for_range_run, refl,
}
use ab_prototype.ZzP.{ZzP}
use ab_prototype.Additive2Basis.{add2basis_encode}
use ab_prototype.Additive2Basis.Encoding.{Holds, holds1, holds2, holds3}
use ab_prototype.Additive2Basis.Circuit.{copy, product, num_messages}
use ab_prototype.Additive2Basis.Powers.{Puts, copy_step, product_step, row_le}

module _ {A : Type 0} ⦃z : ZzP A⦄ {S : Type 0} (put : A → S → Option S) (msg : A) (L : ℕ)
    (L_pos : 0 < L) (state : ℕ → S) (puts : Puts put msg (num_messages L) state) (q c : ℕ)
    (c_pos : 0 < c) (c_le : c + 4 * (L * L) + 3 * L ≤ 14 * (L * L) + 10 * L)
    (far : (i t e : ℕ) → i ≡ q + t → t < L + 1 → e ≡ c + t → Holds msg L i e) where
  abbrev code_copy : ℕ → S → Option S
  code_copy = copy put (add2basis_encode msg L)

  abbrev code_product : ℕ → ℕ → S → Option S
  code_product = product put (add2basis_encode msg L)

  -- The exponents c to c + L, copied.
  pub block1 :
      (hi : ℕ) → hi ≡ q + L + 1 → for_range code_copy q hi (state (c - 1)) ≡ some (state (c + L))
  block1 hi e =
      for_range_run _ (λ t. state (c - 1 + t)) q hi (L + 1) _ _ (omega arith)
        (ap state (omega arith)) (ap state (omega arith))
        λ t h.
          copy_step put msg L state puts (q + t) (c - 1 + t) (c - 1 + suc t) (omega arith)
            (omega arith) (far (q + t) t _ refl h (omega arith))

  -- The exponent c + L with 1 to L.
  pub block2 :
      (j : ℕ)
      → j ≡ q + L
      → for_range (λ i. code_product i j) 0 L (state (c + L)) ≡ some (state (c + 2 * L))
  block2 j e =
      for_range_run _ (λ t. state (c + L + t)) 0 L L _ _ (omega arith) (ap state (omega arith))
        (ap state (omega arith))
        λ t h.
          product_step put msg L state puts (0 + t) j (c + L + t) (c + L + suc t) (suc t) (c + L)
            (omega arith) (omega arith) (omega arith)
            (holds1 msg L (0 + t) (suc t) (omega arith) (omega arith))
            (far j L (c + L) e (omega arith) refl)

  row3 :
      (lo hi s : ℕ)
      → lo ≡ q + 1
      → hi ≡ q + L + 1
      → s < 3 * L
      → for_range (λ j. code_product (L + s) j) lo hi (state (c + 2 * L + s * L))
        ≡ some (state (c + 2 * L + suc s * L))
  row3 lo hi s e e' l =
      for_range_run _ (λ t. state (c + 2 * L + s * L + t)) lo hi L _ _ (omega arith)
        (ap state (omega arith)) (ap state (omega arith))
        λ t h.
          product_step put msg L state puts (L + s) (lo + t) _ _ ((s + 2) * L) (c + suc t)
            (omega arith) (omega arith) (omega (arith, row_le s (3 * L) L l))
            (holds2 msg L (L + s) s _ refl l refl)
            (far (lo + t) (suc t) _ (omega arith) (omega arith) refl)

  -- The exponents c + 1 to c + L with 2 * L to (3 * L + 1) * L.
  pub block3 :
      (lo hi : ℕ)
      → lo ≡ q + 1
      → hi ≡ q + L + 1
      → for_range (λ i. for_range (λ j. code_product i j) lo hi) L (4 * L) (state (c + 2 * L))
        ≡ some (state (c + 3 * (L * L) + 2 * L))
  block3 lo hi e e' =
      for_range_run _ (λ s. state (c + 2 * L + s * L)) L (4 * L) (3 * L) _ _ (omega arith)
        (ap state (omega arith)) (ap state (omega arith)) λ s h. row3 lo hi s e e' h

  -- The exponents c + 1 to c + L with 3 * L ^ 2 + 2 * L.
  pub block4 :
      (lo hi : ℕ)
      → lo ≡ q + 1
      → hi ≡ q + L + 1
      → for_range (λ j. code_product (4 * L) j) lo hi (state (c + 3 * (L * L) + 2 * L))
        ≡ some (state (c + 3 * (L * L) + 3 * L))
  block4 lo hi e e' =
      for_range_run _ (λ t. state (c + 3 * (L * L) + 2 * L + t)) lo hi L _ _ (omega arith)
        (ap state (omega arith)) (ap state (omega arith))
        λ t h.
          product_step put msg L state puts (4 * L) (lo + t) _ _ (3 * (L * L) + 2 * L) (c + suc t)
            (omega arith) (omega arith) (omega (arith, row_le 0 L L L_pos))
            (holds3 msg L (4 * L) 0 _ (omega arith) L_pos (omega arith))
            (far (lo + t) (suc t) _ (omega arith) (omega arith) refl)

  row5 :
      (hi s : ℕ)
      → hi ≡ q + L + 1
      → s + 1 < L
      → for_range
          (λ j. code_product (4 * L + 1 + s) j)
          q
          hi
          (state (c + 3 * (L * L) + 3 * L + s * (L + 1)))
        ≡ some (state (c + 3 * (L * L) + 3 * L + suc s * (L + 1)))
  row5 hi s e l =
      for_range_run _ (λ t. state (c + 3 * (L * L) + 3 * L + s * (L + 1) + t)) q hi (L + 1) _ _
        (omega arith) (ap state (omega arith)) (ap state (omega arith))
        λ t h.
          product_step put msg L state puts (4 * L + 1 + s) (q + t) _ _
            (3 * (L * L) + L - 1 + (s + 1 + 1) * (L + 1)) (c + t) (omega arith) (omega arith)
            (omega (arith, row_le (s + 1) L (L + 1) l))
            (holds3 msg L (4 * L + 1 + s) (s + 1) _ (omega arith) l refl)
            (far (q + t) t _ refl h refl)

  last_row : (n : ℕ) → suc n ≡ L → n * (L + 1) + 1 ≡ L * L
  last_row n e = omega (arith, ap (λ (x : ℕ). x * (L + 1)) e)

  -- The exponents c to c + L with the rest of S_3.
  pub block5 :
      (hi : ℕ)
      → hi ≡ q + L + 1
      → for_range
          (λ i. for_range (λ j. code_product i j) q hi)
          (4 * L + 1)
          (5 * L)
          (state (c + 3 * (L * L) + 3 * L))
        ≡ some (state (c + 4 * (L * L) + 3 * L - 1))
  block5 hi e =
      for_range_run _ (λ s. state (c + 3 * (L * L) + 3 * L + s * (L + 1))) (4 * L + 1) (5 * L)
        (L - 1) _ _ (omega arith) (ap state (omega arith))
        (ap state (omega (arith, last_row (L - 1) (omega arith)))) λ s h. row5 hi s e (omega arith)
