-- ===== src/Additive2Basis/Linear.antt =====
-- The format verification circuit is linear in its coins: with one coin at 1 and the others at 0 it
-- yields what one constraint is off by. So an input that it accepts with all coins satisfies every
-- constraint.
use ab_prototype.Prelude.{
  ℕ, suc, ◌+◌, ◌-◌, ◌*◌, ◌≤◌, ◌<◌, ◌≡◌, refl, ap, ◌∙◌, sym, Option, some, List, [], ◌∷◌, ◌++◌,
  length, length-append, length-replicate, replicate, get_elem?, get_elem?-some, get_elem?-in_head,
  get_elem?-in_tail, get_elem?-replicate, arith, AllOf, AllOf-append, AllOf-append_left,
  AllOf-append_right, AllOf-map-count_from, AllOf-splits, ◌>>=◌,
}
use ab_prototype.ZzP.{ZzP, ◌⊖◌, ◌⊗◌}
use ab_prototype.ZzP.Laws.{zero-mul, one-mul, zero-add, eq_of_sub_zero}
use ab_prototype.Additive2Basis.Verify.{check, verify_format}
use ab_prototype.Additive2Basis.Constraints.{
  Constraint, times, singles, chain1, chain2, chain3, chain4, chain5, constraints,
  length-constraints, check_all, check_all-append, verify_format-check_all,
}
use ab_prototype.Additive2Basis.Accept.{Satisfied}

module _ {A : Type 0} (o e : A) where
  -- n times `o`, then `e`, then m times `o`.
  abbrev unit_vector : ℕ → ℕ → List A
  unit_vector n m = replicate n o ++ (e ∷ replicate m o)

  length-unit_vector : (n m : ℕ) → length (unit_vector n m) ≡ n + 1 + m
  length-unit_vector n m = simp (length-append, length-replicate) (omega arith)

  unit_vector_before : (n m i : ℕ) → i < n → get_elem? (unit_vector n m) i ≡ some o
  unit_vector_before n m i h = get_elem?-in_head (replicate n o) _ i (get_elem?-replicate n i o h)

  unit_vector_at : (n m : ℕ) → get_elem? (unit_vector n m) n ≡ some e
  unit_vector_at n m =
      get_elem?-in_tail (replicate n o) _ n 0 n (length-replicate n o) (omega arith) refl

  unit_vector_after :
      (n m i : ℕ) → n + 1 ≤ i → i < n + 1 + m → get_elem? (unit_vector n m) i ≡ some o
  unit_vector_after n m i h l =
      get_elem?-in_tail (replicate n o) _ n (suc (i - n - 1)) i (length-replicate n o) (omega arith)
        (get_elem?-replicate m (i - n - 1) o (omega arith))

module _ {A : Type 0} ⦃z : ZzP A⦄ where
  -- The elements that a constraint names are there.
  abbrev pub Readable : List A → Constraint → Type 0
  Readable input c =
      (a : A) × (b : A) × (d : A) × (get_elem? input c.target ≡ some a)
      × (get_elem? input c.left ≡ some b)
      × (get_elem? input c.right ≡ some d)

  -- Coins that are 0 leave the sum as it is.
  check_all_idle :
      (coins input : List A) (cs : List Constraint) (p : A) (idx n : ℕ)
      → idx + length cs ≡ n
      → ((i : ℕ) → idx ≤ i → i < n → get_elem? coins i ≡ some z.zero)
      → AllOf (Readable input) cs
      → check_all coins input cs (p, idx) ≡ some (p, n)
  unfolding check_all check
  check_all_idle coins input [] p idx n e zeros h = let e' : idx ≡ n = omega arith in rw e'
  check_all_idle coins input (c ∷ cs) p idx n e zeros h =
      let (a, b, d, ea, eb, ed) = h.0 in
      rw (zeros idx (omega arith) (omega arith), ea, eb, ed, zero-mul (a ⊖ b ⊗ d), z.add-zero p)
        (check_all_idle coins input cs p (idx + 1) n (omega arith)
          (λ i l l'. zeros i (omega arith) l') h.1)

  -- With the coin of one constraint at 1, the pass yields what that constraint is off by.
  check_all-unit_vector :
      (input : List A) (cs ds : List Constraint) (c : Constraint) (a b d : A) (n : ℕ)
      → length cs ≡ n
      → AllOf (Readable input) (cs ++ (c ∷ ds))
      → get_elem? input c.target ≡ some a
      → get_elem? input c.left ≡ some b
      → get_elem? input c.right ≡ some d
      → check_all (unit_vector z.zero z.one n (length ds)) input (cs ++ (c ∷ ds)) (z.zero, 0)
        ≡ some (a ⊖ b ⊗ d, n + 1 + length ds)
  check_all-unit_vector input cs ds c a b d n en h ea eb ed =
      check_all-append coins input cs (c ∷ ds) (z.zero, 0)
      ∙ ap (λ (o : Option (A × ℕ)). o >>= check_all coins input (c ∷ ds)) before
      ∙ rw at_c after
    where
      coins : List A
      coins = unit_vector z.zero z.one n (length ds)

      before : check_all coins input cs (z.zero, 0) ≡ some (z.zero, n)
      before =
          check_all_idle coins input cs z.zero 0 n (omega arith)
            (λ i l l'. unit_vector_before z.zero z.one n (length ds) i l')
            (AllOf-append_left (Readable input) cs (c ∷ ds) h)

      at_c :
          check_all coins input (c ∷ ds) (z.zero, n) ≡ check_all coins input ds (a ⊖ b ⊗ d, n + 1)
      at_c =
          unfold check_all check in
          rw (unit_vector_at z.zero z.one n (length ds), ea, eb, ed)
            (rw (one-mul (a ⊖ b ⊗ d), zero-add (a ⊖ b ⊗ d)))

      after : check_all coins input ds (a ⊖ b ⊗ d, n + 1) ≡ some (a ⊖ b ⊗ d, n + 1 + length ds)
      after =
          check_all_idle coins input ds (a ⊖ b ⊗ d) (n + 1) _ refl
            (unit_vector_after z.zero z.one n (length ds))
            (AllOf-append_right (Readable input) cs (c ∷ ds) h).1

  constraints-Readable :
      (input : List A) (L : ℕ)
      → 0 < L
      → length input ≡ 7 * L + 5
      → AllOf (Readable input) (constraints L)
  constraints-Readable input L l e =
      AllOf-append P (chain1 L) _
        (AllOf-map-count_from P _ _ 0
          λ t j h k. readable (j + 1) j 0 (omega arith) (omega arith) (omega arith))
        (AllOf-append P (chain2 L) _
          (AllOf-map-count_from P _ _ L
            λ t j h k. readable (j + 1) j (L - 1) (omega arith) (omega arith) (omega arith))
          (AllOf-append P (chain3 L) _
            (AllOf-map-count_from P _ _ (4 * L)
              λ t j h k. readable (j + 1) j (7 * L + 2) (omega arith) (omega arith) (omega arith))
            (
              readable (7 * L + 2) 0 (L - 1) (omega arith) (omega arith) (omega arith),
              AllOf-append P (chain4 L) _
                  (AllOf-map-count_from P _ _ (5 * L)
                    λ t j h k. readable (j + 1) 0 j (omega arith) (omega arith) (omega arith))
                  (AllOf-append P (chain5 L) (singles L)
                    (AllOf-map-count_from P _ _ (6 * L + 1)
                      λ t j h k. readable (j + 1) 0 j (omega arith) (omega arith) (omega arith))
                    (
                      readable L (L - 1) (L - 1) (omega arith) (omega arith) (omega arith),
                      (
                        readable (4 * L) (4 * L - 1) (L - 1) (omega arith) (omega arith)
                            (omega arith),
                        (
                          readable (5 * L) (7 * L + 3) 0 (omega arith) (omega arith) (omega arith),
                          (
                            readable (7 * L + 3) (3 * L) (5 * L - 1) (omega arith) (omega arith)
                                (omega arith),
                            (
                              readable (6 * L + 1) (7 * L + 4) 0 (omega arith) (omega arith)
                                  (omega arith),
                              (
                                readable (7 * L + 4) (5 * L - 1) (6 * L) (omega arith) (omega arith)
                                    (omega arith),
                                tt,
                              ),
                            ),
                          ),
                        ),
                      ),
                    )),
            )))
    where
      P : Constraint → Type 0
      P = Readable input

      readable :
          (i j k : ℕ) → i < length input → j < length input → k < length input → P (times i j k)
      readable i j k hi hj hk =
          let (a, ea) = get_elem?-some input i hi in
          let (b, eb) = get_elem?-some input j hj in
          let (d, ed) = get_elem?-some input k hk in (a, b, d, ea, eb, ed)

  -- An input that the circuit maps to 0 with all coins satisfies every constraint.
  pub constraints_forced :
      (input : List A) (L : ℕ)
      → 0 < L
      → length input ≡ 7 * L + 5
      → ((coins : List A) → length coins ≡ 7 * L + 4 → verify_format coins input L ≡ some z.zero)
      → AllOf (Satisfied input) (constraints L)
  constraints_forced input L l e accepted = AllOf-splits (Satisfied input) [] (constraints L) forced
    where
      forced :
          (cs : List Constraint) (c : Constraint) (ds : List Constraint)
          → constraints L ≡ cs ++ (c ∷ ds)
          → Satisfied input c
      forced cs c ds split =
          let all : AllOf (Readable input) (cs ++ (c ∷ ds)) =
            rw split at (constraints-Readable input L l e) in
          let (a, b, d, ea, eb, ed) = (AllOf-append_right (Readable input) cs (c ∷ ds) all).0 in
          let coins : List A = unit_vector z.zero z.one (length cs) (length ds) in
          let size : length coins ≡ 7 * L + 4 = omega (
            arith,
            length-unit_vector z.zero z.one (length cs) (length ds),
            ap length split,
            length-append {0} cs (c ∷ ds),
            length-constraints L l,
          ) in
          let run : (check_all coins input (constraints L) (z.zero, 0) >>= λ (r : A × ℕ). some r.0)
              ≡ some (a ⊖ b ⊗ d) =
            rw (split, check_all-unit_vector input cs ds c a b d (length cs) refl all ea eb ed) in
          let off : some (a ⊖ b ⊗ d) ≡ some z.zero =
            sym run ∙ sym (verify_format-check_all coins input L e size) ∙ accepted coins size in
          (b, d, ea ∙ ap some (eq_of_sub_zero a (b ⊗ d) (cc off)), eb, ed)
