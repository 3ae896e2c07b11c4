-- ===== src/Additive2Basis/Accept.antt =====
-- The format verification circuit accepts the honest encodings, with any coins.
use ab_prototype.Prelude.{
  ℕ, ◌+◌, ◌-◌, ◌*◌, ◌≤◌, ◌<◌, ◌≡◌, refl, ap, ◌∙◌, Option, some, List, [], ◌∷◌, length, get_elem?,
  get_elem?-some, arith, AllOf, AllOf-append, AllOf-map-count_from, ◌>>=◌,
}
use ab_prototype.ZzP.{ZzP, ◌⊗◌}
use ab_prototype.ZzP.Laws.{power-add, sub_self, mul-zero}
use ab_prototype.Additive2Basis.{add2basis_encode}
use ab_prototype.Additive2Basis.Encoding.{
  Holds, length-add2basis_encode, holds1, holds2, holds3, holds4, holds5, holds6, holds7, holds8,
}
use ab_prototype.Additive2Basis.Verify.{check, verify_format}
use ab_prototype.Additive2Basis.Constraints.{
  Constraint, times, singles, chain1, chain2, chain3, chain4, chain5, constraints,
  length-constraints, check_all, verify_format-check_all,
}

module _ {A : Type 0} ⦃z : ZzP A⦄ where
  -- The elements that a constraint names are there, and the first is the product of the others.
  abbrev pub Satisfied : List A → Constraint → Type 0
  Satisfied input c =
      (a : A) × (b : A) × (get_elem? input c.target ≡ some (a ⊗ b))
      × (get_elem? input c.left ≡ some a)
      × (get_elem? input c.right ≡ some b)

  check_all-Satisfied :
      (coins input : List A) (cs : List Constraint) (idx n : ℕ)
      → idx + length cs ≡ n
      → n ≤ length coins
      → AllOf (Satisfied input) cs
      → check_all coins input cs (z.zero, idx) ≡ some (z.zero, n)
  unfolding check_all check
  check_all-Satisfied coins input [] idx n e l h = let e' : idx ≡ n = omega arith in rw e'
  check_all-Satisfied coins input (c ∷ cs) idx n e l h =
      let (coin, ec) = get_elem?-some coins idx (omega arith) in
      let (a, b, ep, el, er) = h.0 in
      rw (ec, ep, el, er, sub_self (a ⊗ b), mul-zero coin, z.add-zero z.zero)
        (check_all-Satisfied coins input cs (idx + 1) n (omega arith) l h.1)

module _ {A : Type 0} ⦃z : ZzP A⦄ (msg : A) (L : ℕ) (L_pos : 0 < L) where
  satisfied :
      (i j k e a b : ℕ)
      → e ≡ a + b
      → Holds msg L i e
      → Holds msg L j a
      → Holds msg L k b
      → Satisfied (add2basis_encode msg L) (times i j k)
  satisfied i j k e a b s p q r =
      (z.power msg a, z.power msg b, rw (← power-add msg a b, ← s) p, q, r)

  at0 : Holds msg L 0 1
  at0 = holds1 msg L 0 1 L_pos (omega arith)

  at_L : Holds msg L (L - 1) L
  at_L = holds1 msg L (L - 1) L (omega arith) (omega arith)

  abbrev P : Constraint → Type 0
  P = Satisfied (add2basis_encode msg L)

  satisfied1 : (t j : ℕ) → t < L - 1 - 0 → j ≡ 0 + t → P (times (j + 1) j 0)
  satisfied1 t j l e =
      satisfied (j + 1) j 0 (j + 2) (j + 1) 1 (omega arith)
        (holds1 msg L (j + 1) _ (omega arith) (omega arith))
        (holds1 msg L j _ (omega arith) (omega arith)) at0

  satisfied2 : (t j : ℕ) → t < 4 * L - 1 - L → j ≡ L + t → P (times (j + 1) j (L - 1))
  satisfied2 t j l e =
      satisfied (j + 1) j (L - 1) ((t + 1 + 2) * L) ((t + 2) * L) L (omega arith)
        (holds2 msg L (j + 1) (t + 1) _ (omega arith) (omega arith) refl)
        (holds2 msg L j t _ e (omega arith) refl) at_L

  satisfied3 : (t j : ℕ) → t < 5 * L - 1 - 4 * L → j ≡ 4 * L + t → P (times (j + 1) j (7 * L + 2))
  satisfied3 t j l e =
      satisfied (j + 1) j (7 * L + 2) _ _ (L + 1) (omega arith)
        (holds3 msg L (j + 1) (t + 1) _ (omega arith) (omega arith) refl)
        (holds3 msg L j t _ e (omega arith) refl) (holds6 msg L _ refl)

  satisfied4 : (t j : ℕ) → t < 6 * L - 5 * L → j ≡ 5 * L + t → P (times (j + 1) 0 j)
  satisfied4 t j l e =
      satisfied (j + 1) 0 j _ 1 _ (omega arith)
        (holds4 msg L (j + 1) (t + 1) _ L_pos (omega arith) (omega arith) refl) at0
        (holds4 msg L j t _ L_pos e (omega arith) refl)

  satisfied5 : (t j : ℕ) → t < 7 * L + 1 - (6 * L + 1) → j ≡ 6 * L + 1 + t → P (times (j + 1) 0 j)
  satisfied5 t j l e =
      satisfied (j + 1) 0 j _ 1 _ (omega arith)
        (holds5 msg L (j + 1) (t + 1) _ L_pos (omega arith) (omega arith) refl) at0
        (holds5 msg L j t _ L_pos e (omega arith) refl)

  satisfied6 : P (times (7 * L + 2) 0 (L - 1))
  satisfied6 = satisfied _ _ _ _ 1 L (omega arith) (holds6 msg L _ refl) at0 at_L

  -- The last element of S_3.
  at_end3 : Holds msg L (5 * L - 1) (4 * (L * L) + 2 * L - 1)
  at_end3 =
      holds3 msg L (5 * L - 1) (L - 1) _ (omega arith) (omega arith)
        (exponent (L - 1) (omega arith))
    where
      exponent :
          (n : ℕ) → n + 1 ≡ L → 4 * (L * L) + 2 * L - 1 ≡ 3 * (L * L) + L - 1 + (n + 1) * (L + 1)
      exponent n e = omega (arith, ap (λ (x : ℕ). x * (L + 1)) e)

  at_end2 : Holds msg L (4 * L - 1) (3 * (L * L) + L)
  at_end2 =
      holds2 msg L (4 * L - 1) (3 * L - 1) _ (omega arith) (omega arith)
        (exponent (3 * L - 1) (omega arith))
    where
      exponent : (n : ℕ) → n + 1 ≡ 3 * L → 3 * (L * L) + L ≡ (n + 2) * L
      exponent n e = omega (arith, ap (λ (x : ℕ). x * L) e)

  singles_satisfied : AllOf P (singles L)
  singles_satisfied = (
    satisfied _ _ _ (2 * L) L L (omega arith)
        (holds2 msg L L 0 _ (omega arith) (omega arith) (omega arith)) at_L at_L,
    (
      satisfied _ _ _ _ (3 * (L * L) + L) L (omega arith)
          (holds3 msg L (4 * L) 0 (3 * (L * L) + 2 * L) (omega arith) L_pos (omega arith)) at_end2
          at_L,
      (
        satisfied _ _ _ _ _ 1 (omega arith)
            (holds4 msg L (5 * L) 0 (6 * (L * L) + 4 * L) L_pos (omega arith) (omega arith)
              (omega arith))
            (holds7 msg L _ refl) at0,
        (
          satisfied _ _ _ _ (2 * (L * L) + 2 * L) _ (omega arith) (holds7 msg L _ refl)
              (holds2 msg L (3 * L) (2 * L) _ (omega arith) (omega arith) (omega arith)) at_end3,
          (
            satisfied _ _ _ _ _ 1 (omega arith)
                (holds5 msg L (6 * L + 1) 0 (10 * (L * L) + 7 * L) L_pos (omega arith) (omega arith)
                  (omega arith))
                (holds8 msg L _ refl) at0,
            (
              satisfied _ _ _ _ _ (6 * (L * L) + 5 * L) (omega arith) (holds8 msg L _ refl) at_end3
                  (holds4 msg L (6 * L) L _ L_pos (omega arith) (omega arith) (omega arith)),
              tt,
            ),
          ),
        ),
      ),
    ),
  )

  constraints_satisfied : AllOf P (constraints L)
  constraints_satisfied = AllOf-append P (chain1 L) _ (AllOf-map-count_from P _ _ 0 satisfied1) (
      AllOf-append P (chain2 L) _ (AllOf-map-count_from P _ _ L satisfied2) (
        AllOf-append P (chain3 L) _ (AllOf-map-count_from P _ _ (4 * L) satisfied3) (
          satisfied6,
          AllOf-append P (chain4 L) _ (AllOf-map-count_from P _ _ (5 * L) satisfied4) (
              AllOf-append P (chain5 L) (singles L)
                (AllOf-map-count_from P _ _ (6 * L + 1) satisfied5) singles_satisfied),
        )))

  -- For L > 0 and 7 * L + 4 coins of any values, the circuit evaluates to 0 on every encoding.
  pub verify_format-add2basis_encode :
      (coins : List A)
      → length coins ≡ 7 * L + 4
      → verify_format coins (add2basis_encode msg L) L ≡ some z.zero
  verify_format-add2basis_encode coins k =
      verify_format-check_all coins (add2basis_encode msg L) L (length-add2basis_encode msg L) k
      ∙ ap (λ (o : Option (A × ℕ)). o >>= λ (r : A × ℕ). some r.0)
          (check_all-Satisfied coins (add2basis_encode msg L) (constraints L) 0 (7 * L + 4)
            (omega (arith, length-constraints L L_pos)) (omega arith) constraints_satisfied)
