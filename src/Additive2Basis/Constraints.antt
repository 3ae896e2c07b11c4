-- ===== src/Additive2Basis/Constraints.antt =====
-- The format verification circuit as one pass over the list of its constraints.
use ab_prototype.Prelude.{
  ℕ, zero, suc, ◌+◌, ◌-◌, ◌*◌, ◌<◌, ◌≡◌, refl, ap, sym, ◌∙◌, Option, some, List, [], ◌∷◌, ◌++◌, map,
  length, length-append, length-map, for_rounds, for_range, ◌>>=◌, count_from, >>=_ext, >>=_assoc,
  arith, ==_iff,
}
use ab_prototype.ZzP.{ZzP}
use ab_prototype.Additive2Basis.Verify.{check, verify_format}

-- The constraint `input[target] = input[left] * input[right]`.
pub record Constraint : Type 0 where
  pub target : ℕ
  pub left : ℕ
  pub right : ℕ

abbrev pub times : ℕ → ℕ → ℕ → Constraint
times i j k = record { target = i; left = j; right = k }

pub length-count_from : (n i : ℕ) → length (count_from n i) ≡ n
length-count_from zero i = refl
length-count_from (suc n) i = ap suc (length-count_from n (suc i))

-- The constraints that come after the loops.
abbrev pub singles : ℕ → List Constraint
singles L =
    times L (L - 1) (L - 1)
    ∷ times (4 * L) (4 * L - 1) (L - 1)
    ∷ times (5 * L) (7 * L + 3) 0
    ∷ times (7 * L + 3) (3 * L) (5 * L - 1)
    ∷ times (6 * L + 1) (7 * L + 4) 0
    ∷ times (7 * L + 4) (5 * L - 1) (6 * L)
    ∷ []

abbrev pub chain1 : ℕ → List Constraint
chain1 L = map (λ i. times (i + 1) i 0) (count_from (L - 1 - 0) 0)

abbrev pub chain2 : ℕ → List Constraint
chain2 L = map (λ i. times (i + 1) i (L - 1)) (count_from (4 * L - 1 - L) L)

abbrev pub chain3 : ℕ → List Constraint
chain3 L = map (λ i. times (i + 1) i (7 * L + 2)) (count_from (5 * L - 1 - 4 * L) (4 * L))

abbrev pub chain4 : ℕ → List Constraint
chain4 L = map (λ i. times (i + 1) 0 i) (count_from (6 * L - 5 * L) (5 * L))

abbrev pub chain5 : ℕ → List Constraint
chain5 L = map (λ i. times (i + 1) 0 i) (count_from (7 * L + 1 - (6 * L + 1)) (6 * L + 1))

abbrev pub constraints : ℕ → List Constraint
constraints L =
    chain1 L
    ++ (chain2 L
        ++ (chain3 L ++ (times (7 * L + 2) 0 (L - 1) ∷ (chain4 L ++ (chain5 L ++ singles L)))))

pub length-constraints : (L : ℕ) → 0 < L → length (constraints L) ≡ 7 * L + 4
length-constraints L h = simp (length-append, length-map, length-count_from) (omega arith)

module _ {A : Type 0} ⦃z : ZzP A⦄ (coins input : List A) where
  unfoldable pub check_all : List Constraint → A × ℕ → Option (A × ℕ)
  check_all [] s = some s
  check_all (c ∷ cs) s = check coins input c.target c.left c.right s >>= check_all cs

  pub check_all-append :
      (cs ds : List Constraint) (s : A × ℕ)
      → check_all (cs ++ ds) s ≡ (check_all cs s >>= check_all ds)
  unfolding check_all
  check_all-append [] ds s = refl
  check_all-append (c ∷ cs) ds s =
      >>=_ext first _ _ (λ t. check_all-append cs ds t) ∙ sym (>>=_assoc first _ _)
    where
      first : Option (A × ℕ)
      first = check coins input c.target c.left c.right s

  for_rounds-check_all :
      (g : ℕ → Constraint) (n i : ℕ) (s : A × ℕ)
      → for_rounds (λ i. check coins input (g i).target (g i).left (g i).right) n i s
        ≡ check_all (map g (count_from n i)) s
  unfolding check_all for_rounds
  for_rounds-check_all g zero i s = refl
  for_rounds-check_all g (suc n) i s =
      >>=_ext (check coins input (g i).target (g i).left (g i).right s) _ _
        (λ t. for_rounds-check_all g n (suc i) t)

  module _ (fin : A × ℕ → Option A) where
    loop_then :
        (g : ℕ → Constraint) (lo hi : ℕ) (ds : List Constraint) (rest : A × ℕ → Option A)
        → ((t : A × ℕ) → rest t ≡ (check_all ds t >>= fin))
        → (s : A × ℕ)
        → (for_range (λ i. check coins input (g i).target (g i).left (g i).right) lo hi s >>= rest)
          ≡ (check_all (map g (count_from (hi - lo) lo) ++ ds) s >>= fin)
    unfolding for_range
    loop_then g lo hi ds rest h s =
        rw (for_rounds-check_all g (hi - lo) lo s, check_all-append)
          (>>=_ext (check_all (map g (count_from (hi - lo) lo)) s) _ _ h
            ∙ sym (>>=_assoc (check_all (map g (count_from (hi - lo) lo)) s) _ _))

    check_then :
        (c : Constraint) (ds : List Constraint) (rest : A × ℕ → Option A)
        → ((t : A × ℕ) → rest t ≡ (check_all ds t >>= fin))
        → (s : A × ℕ)
        → (check coins input c.target c.left c.right s >>= rest) ≡ (check_all (c ∷ ds) s >>= fin)
    unfolding check_all
    check_then c ds rest h s = >>=_ext first _ _ h ∙ sym (>>=_assoc first _ _)
      where
        first : Option (A × ℕ)
        first = check coins input c.target c.left c.right s

  -- On inputs of the right sizes the circuit is that pass.
  pub verify_format-check_all :
      (L : ℕ)
      → length input ≡ 7 * L + 5
      → length coins ≡ 7 * L + 4
      → verify_format coins input L
        ≡ (check_all (constraints L) (z.zero, 0) >>= λ (r : A × ℕ). some r.0)
  unfolding verify_format
  verify_format-check_all L h k =
      rw ((==_iff _ _).1 h, (==_iff _ _).1 k)
        (loop_then fin (λ i. times (i + 1) i 0) 0 (L - 1) _ _
          (loop_then fin (λ i. times (i + 1) i (L - 1)) L (4 * L - 1) _ _
            (loop_then fin (λ i. times (i + 1) i (7 * L + 2)) (4 * L) (5 * L - 1) _ _
              (check_then fin (times (7 * L + 2) 0 (L - 1)) _ _ (
                loop_then fin (λ i. times (i + 1) 0 i) (5 * L) (6 * L) _ _
                  (loop_then fin (λ i. times (i + 1) 0 i) (6 * L + 1) (7 * L + 1) _ _
                    (check_then fin (times L (L - 1) (L - 1)) _ _ (
                      check_then fin (times (4 * L) (4 * L - 1) (L - 1)) _ _ (
                        check_then fin (times (5 * L) (7 * L + 3) 0) _ _ (
                          check_then fin (times (7 * L + 3) (3 * L) (5 * L - 1)) _ _ (
                            check_then fin (times (6 * L + 1) (7 * L + 4) 0) _ _ (
                              check_then fin (times (7 * L + 4) (5 * L - 1) (6 * L)) [] fin
                                (λ t. last t))))))))))))
          (z.zero, 0))
    where
      fin : A × ℕ → Option A
      fin r = some r.0

      last : (t : A × ℕ) → some t.0 ≡ (check_all [] t >>= fin)
      last t = unfold check_all in refl
