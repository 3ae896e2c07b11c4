-- ===== src/Additive2Basis/Verify.antt =====
-- The format verification circuit of additive2basis.h: a random linear combination of 7 * L + 4
-- constraints on the 7 * L + 5 elements of an input, which is 0 for every honest encoding. A failed
-- assertion and a read out of range are `none`. The last round of the source does not advance
-- `idx`, which nothing reads after it.
use ab_prototype.Prelude.{
  ℕ, ◌+◌, ◌-◌, ◌*◌, ◌==◌, Option, some, List, length, get_elem?, guard, for_range, ◌>>=◌, ◌>>◌,
}
use ab_prototype.ZzP.{ZzP, ◌⊕◌, ◌⊖◌, ◌⊗◌}

module _ {A : Type 0} ⦃z : ZzP A⦄ (coins input : List A) where
  -- `pred += coins[idx] * (input[i] - input[j] * input[k]); idx++` on the state (pred, idx).
  unfoldable pub check : ℕ → ℕ → ℕ → A × ℕ → Option (A × ℕ)
  check i j k (pred, idx) = do
    coin ← get_elem? coins idx
    a ← get_elem? input i
    b ← get_elem? input j
    c ← get_elem? input k
    some (pred ⊕ coin ⊗ (a ⊖ b ⊗ c), idx + 1)

  unfoldable pub verify_format : ℕ → Option A
  verify_format L = do
    guard (length input == 7 * L + 5)
    guard (length coins == 7 * L + 4)
    s ← for_range (λ i. check (i + 1) i 0) 0 (L - 1) (z.zero, 0)
    s ← for_range (λ i. check (i + 1) i (L - 1)) L (4 * L - 1) s
    s ← for_range (λ i. check (i + 1) i (7 * L + 2)) (4 * L) (5 * L - 1) s
    s ← check (7 * L + 2) 0 (L - 1) s
    s ← for_range (λ i. check (i + 1) 0 i) (5 * L) (6 * L) s
    s ← for_range (λ i. check (i + 1) 0 i) (6 * L + 1) (7 * L + 1) s
    s ← check L (L - 1) (L - 1) s
    s ← check (4 * L) (4 * L - 1) (L - 1) s
    s ← check (5 * L) (7 * L + 3) 0 s
    s ← check (7 * L + 3) (3 * L) (5 * L - 1) s
    s ← check (6 * L + 1) (7 * L + 4) 0 s
    (pred, idx) ← check (7 * L + 4) (5 * L - 1) (6 * L) s
    some pred
