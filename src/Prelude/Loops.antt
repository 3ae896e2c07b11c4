-- ===== src/Prelude/Loops.antt =====
-- `for (size_t i = lo; i < hi; i++) s = body(i, s)`, where the body may fail.
use Prim.Native.Nat.{ℕ, zero, suc, ◌+◌, ◌-◌, ◌<◌}
use mathlib.Core.Path.{◌≡◌, refl, ◌∙◌}
use mathlib.Core.Option.{Option, some}
use mathlib.Core.Option
use native.Mathlib.Omega.{arith}
use ab_prototype.Prelude.Options.{◌>>=◌, >>=_run, bind-map}

module _ {ℓ} {S : Type ℓ} (body : ℕ → S → Option S) where
  -- Recursion on the rounds that are left.
  unfoldable pub for_rounds : ℕ → ℕ → S → Option S
  for_rounds zero i s = some s
  for_rounds (suc n) i s = body i s >>= for_rounds n (suc i)

  unfoldable pub for_range : ℕ → ℕ → S → Option S
  unfolding for_rounds
  for_range lo hi s = for_rounds (hi - lo) lo s

  -- A loop whose states are known round by round ends in the last of them.
  pub for_rounds_run :
      (states : ℕ → S) (n i : ℕ)
      → ((t : ℕ) → t < n → (j : ℕ) → j ≡ i + t → body j (states t) ≡ some (states (suc t)))
      → for_rounds n i (states 0) ≡ some (states n)
  unfolding for_rounds
  for_rounds_run states zero i h = refl
  for_rounds_run states (suc n) i h =
      >>=_run (for_rounds n (suc i)) (h 0 (omega arith) i (omega arith))
      ∙ for_rounds_run (λ t. states (suc t)) n (suc i)
          (λ t l j e. h (suc t) (omega arith) j (omega arith))

  -- The same with the first and the last state given by equations.
  pub for_range_run :
      (states : ℕ → S) (lo hi n : ℕ) (s s' : S)
      → hi ≡ lo + n
      → s ≡ states 0
      → states n ≡ s'
      → ((t : ℕ) → t < n → body (lo + t) (states t) ≡ some (states (suc t)))
      → for_range lo hi s ≡ some s'
  unfolding for_range
  for_range_run states lo hi n s s' e e₀ e₁ h =
      let rounds : hi - lo ≡ n = omega arith in
      rw (rounds, e₀, ← e₁) (for_rounds_run states n lo (λ t l j ej. rw ej (h t l)))

-- A map of states that commutes with the body commutes with the loop.
module _ {ℓ κ} {S : Type ℓ} {S' : Type κ} (f : S → S') where
  pub for_rounds-map :
      (body : ℕ → S → Option S) (body' : ℕ → S' → Option S')
      → ((i : ℕ) (s : S) → body' i (f s) ≡ Option.map f (body i s))
      → (n i : ℕ) (s : S) → for_rounds body' n i (f s) ≡ Option.map f (for_rounds body n i s)
  unfolding for_rounds
  for_rounds-map body body' h zero i s = refl
  for_rounds-map body body' h (suc n) i s =
      rw (h i s) (bind-map f f (body i s) _ _ (for_rounds-map body body' h n (suc i)))

  pub for_range-map :
      (body : ℕ → S → Option S) (body' : ℕ → S' → Option S')
      → ((i : ℕ) (s : S) → body' i (f s) ≡ Option.map f (body i s))
      → (lo hi : ℕ) (s : S) → for_range body' lo hi (f s) ≡ Option.map f (for_range body lo hi s)
  unfolding for_range
  for_range-map body body' h lo hi s = for_rounds-map body body' h (hi - lo) lo s
