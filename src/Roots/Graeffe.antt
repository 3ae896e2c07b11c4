-- ===== src/Roots/Graeffe.antt =====
-- The tangent Graeffe transform of root_finding.h. `SetCoeff(out, i, c)` in a counted loop is
-- `set_from`. `FFTSqr` and `FFTMul` are the products of NTL, and `x / y` is `x * inv(y)`.
use ab_prototype.Prelude.{
  ℕ, zero, suc, ◌+◌, ◌-◌, ◌*◌, ◌/◌, ◌%◌, Option, none, some, ltb, ◌==◌, if◌then◌else◌,
}
use ab_prototype.ZzP.{ZzP, ◌⊗◌}
use ab_prototype.SecretSharing.{Poly}
use ab_prototype.Roots.Field.{Inverse, PolyRoots}

module _ {A P : Type 0} ⦃z : ZzP A⦄ ⦃p : Poly A P⦄ where
  -- `for (i < n) SetCoeff(out, i, c(i))`, from i on.
  unfoldable pub set_from : (ℕ → A) → ℕ → ℕ → P → P
  set_from c zero i out = out
  set_from c (suc n) i out = set_from c n (suc i) (p.set_coeff out i (c i))

module _ (A P : Type 0) ⦃z : ZzP A⦄ ⦃p : Poly A P⦄ ⦃v : Inverse A⦄ ⦃q : PolyRoots A P⦄ where
  -- The loop over i, with the factorial of i - 1 and the derivative number i. As in the source,
  -- `hbar[i - 1]` is the derivative number i over (i - 1)!.
  unfoldable pub expansion_loop : A → ℕ → ℕ → A → P → P × P → P × P
  expansion_loop neg_tau zero i factorial poly_derived (h, hbar) = (h, hbar)
  expansion_loop neg_tau (suc rounds) i factorial poly_derived (h, hbar) =
      let taylor_eval = p.eval poly_derived neg_tau in
      let factorial' = factorial ⊗ z.conv i in
      expansion_loop neg_tau rounds (suc i) factorial' (q.diff poly_derived) (
        p.set_coeff h i (taylor_eval ⊗ v.inv factorial'),
        p.set_coeff hbar (i - 1) (taylor_eval ⊗ v.inv factorial),
      )

  unfoldable pub initial_linear_expansion : P → A → P × P
  unfolding expansion_loop
  initial_linear_expansion f neg_tau =
      expansion_loop neg_tau (p.len f - 1) 1 (z.conv 1) (q.diff f)
        (p.set_coeff p.zero_poly 0 (p.eval f neg_tau), p.zero_poly)

  -- hbar(- x).
  unfoldable pub negate_odd : P → P
  unfolding set_from
  negate_odd hbar =
      set_from (λ i. if i % 2 == 0 then p.coeff hbar i else z.neg (p.coeff hbar i)) (p.len hbar) 0
        p.zero_poly

  -- The even and the odd part of h.
  unfoldable pub split_parity : P → ℕ → ℕ → P × P → P × P
  split_parity h zero i (a_even, a_odd) = (a_even, a_odd)
  split_parity h (suc n) i (a_even, a_odd) = split_parity h n (suc i) (
      if i % 2 == 0
      then (p.set_coeff a_even i (p.coeff h i), a_odd)
      else (a_even, p.set_coeff a_odd i (p.coeff h i)))

  unfoldable pub update_linear_expansion : P × P → P × P
  unfolding set_from negate_odd split_parity
  update_linear_expansion (h, hbar) =
      let hbarneg = negate_odd hbar in
      let (a_even, a_odd) = split_parity h (p.len h) 0 (p.zero_poly, p.zero_poly) in
      let a = p.sub_poly (p.mul_poly a_even a_even) (p.mul_poly a_odd a_odd) in
      let b = q.scale (z.conv 2) (p.mul_poly h hbarneg) in
      (
        set_from (λ i. p.coeff a (2 * i)) (p.len h) 0 h,
        set_from (λ i. p.coeff b (2 * i)) (p.len hbar) 0 hbar,
      )

  -- `while (rho > 1) { update; rho >>= 1; }` with fuel.
  unfoldable pub graeffe_loop : ℕ → ℕ → P × P → Option (P × P)
  graeffe_loop zero rho hs = none
  graeffe_loop (suc fuel) rho hs =
      let rest = graeffe_loop fuel (rho / 2) (update_linear_expansion hs) in
      if ltb 1 rho then rest else some hs

  -- The fuel is `rho`, of which the loop takes its logarithm.
  unfoldable pub tangent_graeffe_transform : P → ℕ → A → Option (P × P)
  tangent_graeffe_transform f rho tau =
      graeffe_loop (rho + 1) rho (initial_linear_expansion f (z.neg tau))
