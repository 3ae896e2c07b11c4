-- ===== src/Roots.antt =====
-- root_finding.h: the polynomial of which the power sums of the roots are given, by Newton's
-- identities. `inv` is the inverse of NTL, a parameter with its law. The source fills an array from
-- the top down, so the list here is what is filled: its head is the coefficient last computed.
pub mod Field
pub mod Graeffe
pub mod Search
mod Sizes
mod Powers
mod Sums
mod Chirps
mod Evaluation
mod Products
pub mod Samples
mod Tests
pub mod Newton
pub mod Coefficients
pub mod Polynomial
use ab_prototype.Prelude.{
  ℕ, zero, suc, ◌-◌, ◌≡◌, Option, none, some, List, [], ◌∷◌, get_elem?, for_range, ◌>>=◌,
}
use ab_prototype.Roots.Field.{Inverse}
use ab_prototype.ZzP.{ZzP, ◌⊕◌, ◌⊗◌}

module _ {A : Type 0} ⦃z : ZzP A⦄ ⦃v : Inverse A⦄ where
  -- `output[i] = newton_sums[k - 1]`, the inner loop, and the two scalings, where k = degree - i.
  unfoldable pub newton_coefficient : List A → List A → ℕ → Option A
  newton_coefficient newton_sums out k = do
    start ← get_elem? newton_sums (k - 1)
    total ←
        for_range (λ j acc. do s ← get_elem? newton_sums j; c ← get_elem? out j; some (acc ⊕ s ⊗ c))
          0 (k - 1) start
    some (z.neg total ⊗ v.inv (z.conv k))

  -- The loop over i from degree - 2 down to 0; `rounds` are left, and k = degree - i.
  unfoldable pub newton_loop : List A → ℕ → ℕ → List A → Option (List A)
  newton_loop newton_sums zero k out = some out
  newton_loop newton_sums (suc rounds) k out = do
    c ← newton_coefficient newton_sums out k
    newton_loop newton_sums rounds (suc k) (c ∷ out)

  -- The coefficients from the constant one up. With degree 0 the source writes before the array.
  unfoldable pub newton_to_polynomial : List A → ℕ → Option (List A)
  newton_to_polynomial newton_sums zero = none
  newton_to_polynomial newton_sums (suc rounds) = do
    first ← get_elem? newton_sums 0
    newton_loop newton_sums rounds 2 (z.neg first ∷ z.one ∷ [])
