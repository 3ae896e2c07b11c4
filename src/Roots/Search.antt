-- ===== src/Roots/Search.antt =====
-- `batch_eval` and `find_roots` of root_finding.h. A polynomial read with `[i]` past its degree is
-- read as 0 here. The random elements are a list, one for each call of `find_roots`.
use ab_prototype.Prelude.{
  ℕ, zero, suc, ◌+◌, ◌-◌, ◌*◌, ◌/◌, ◌^◌, Bool, not, ◌&&◌, ◌||◌, Option, none, some, List, [], ◌∷◌,
  ◌++◌, length, ltb, leb, if◌then◌else◌, ◌>>=◌,
}
use ab_prototype.ZzP.{ZzP, ◌⊕◌, ◌⊖◌, ◌⊗◌}
use ab_prototype.SecretSharing.{Poly}
use ab_prototype.RmCommon.{PrimeInfo}
use ab_prototype.Roots.Field.{Inverse, PolyRoots}
use ab_prototype.Roots.Graeffe.{set_from, tangent_graeffe_transform}

-- `while (degree < chi_zz && ell < two_exponent - 2) { chi_zz >>= 1; ell++; }`, with rounds that
-- are enough: the value of `ell` grows to `two_exponent - 2` at most.
unfoldable pub choose_ell : ℕ → ℕ → ℕ → ℕ → ℕ → ℕ
choose_ell zero degree two_exponent chi_zz ell = ell
choose_ell (suc rounds) degree two_exponent chi_zz ell =
    let rest = choose_ell rounds degree two_exponent (chi_zz / 2) (ell + 1) in
    if ltb degree chi_zz && ltb ell (two_exponent - 2) then rest else ell

-- `chi = 4 * odd_factor; chi <<= two_exponent - 2 - ell`.
unfoldable pub chi_of : ℕ → ℕ → ℕ → ℕ
chi_of odd_factor two_exponent ell = 4 * odd_factor * 2 ^ (two_exponent - 2 - ell)

module _ (A P : Type 0) ⦃z : ZzP A⦄ ⦃p : Poly A P⦄ where
  unfoldable pub batch_eval : P → P → P → P
  unfolding set_from
  batch_eval f powers_of_w powers_of_w_inv =
      let chi = p.len powers_of_w in
      let tmp = set_from (λ i. p.coeff f i ⊗ p.coeff powers_of_w i) chi 0 p.zero_poly in
      let tmp2 = p.mul_poly tmp powers_of_w_inv in
      set_from (λ i. (p.coeff tmp2 i ⊕ p.coeff tmp2 (i + chi)) ⊗ p.coeff powers_of_w i) chi 0
        p.zero_poly

module _ (A P : Type 0) ⦃z : ZzP A⦄ ⦃p : Poly A P⦄ ⦃v : Inverse A⦄ where
  -- The loop that fills the two polynomials: at i, `square` is w ^ (i * i), and `step` is
  -- w ^ (2 * i - 1).
  unfoldable pub powers_loop : A → ℕ → ℕ → A → A → P × P → P × P
  powers_loop w_squared zero i step square (powers, powers_inv) = (powers, powers_inv)
  powers_loop w_squared (suc rounds) i step square (powers, powers_inv) =
      let step' = step ⊗ w_squared in
      powers_loop w_squared rounds (suc i) step' (square ⊗ step')
        (p.set_coeff powers i square, p.set_coeff powers_inv i (v.inv square))

  unfoldable pub powers_of : A → ℕ → P × P
  unfolding powers_loop
  powers_of w chi =
      powers_loop (z.power w 2) (chi - 1) 1 w w
        (p.set_coeff p.zero_poly 0 (z.conv 1), p.set_coeff p.zero_poly 0 (z.conv 1))

  -- The loop over the candidates y = z ^ i.
  unfoldable pub collect_roots : A → A → A → P → P → P → ℕ → ℕ → A → List A
  collect_roots rho_zz_p root tau h_eval hbar_eval hprime_eval zero i y = []
  collect_roots rho_zz_p root tau h_eval hbar_eval hprime_eval (suc rounds) i y =
      let rest =
        collect_roots rho_zz_p root tau h_eval hbar_eval hprime_eval rounds (suc i) (y ⊗ root) in
      if z.is_zero (p.coeff h_eval i) && not (z.is_zero (p.coeff hbar_eval i))
      then (((rho_zz_p ⊗ y ⊗ p.coeff hprime_eval i) ⊗ v.inv (p.coeff hbar_eval i)) ⊖ tau) ∷ rest
      else rest

module _ (A P : Type 0) ⦃z : ZzP A⦄ ⦃p : Poly A P⦄ ⦃v : Inverse A⦄ ⦃q : PolyRoots A P⦄ where
  -- The roots that one transform finds.
  unfoldable pub transform_roots : P → PrimeInfo → A → Option (List A)
  unfolding collect_roots powers_of
  transform_roots f info tau = do
    let ell =
        choose_ell info.two_exponent (p.len f - 1) info.two_exponent
          (info.odd_factor * 2 ^ (info.two_exponent - 3)) 1
    let rho = 2 ^ ell
    let chi = chi_of info.odd_factor info.two_exponent ell
    let root = z.power (z.conv info.zeta) rho
    (h, hbar) ← tangent_graeffe_transform A P f rho tau
    let (powers, powers_inv) = powers_of A P (z.power (z.conv info.zeta) (rho / 2)) chi
    let found =
        collect_roots A P (z.power (z.conv 2) ell) root tau (batch_eval A P h powers powers_inv)
          (batch_eval A P hbar powers powers_inv) (batch_eval A P (q.diff h) powers powers_inv) chi
          0 (z.conv 1)
    some (if z.is_zero (p.eval f tau) then found ++ (tau ∷ []) else found)

  -- Whether NTL's own algorithm is used.
  unfoldable pub is_small_prime : P → PrimeInfo → Bool
  is_small_prime f info =
      leb info.two_exponent 3 || ltb (info.odd_factor * 2 ^ (info.two_exponent - 3)) (p.len f)

  -- `none` where the list of random elements ends before the recursion does.
  unfoldable pub find_roots : List A → P → PrimeInfo → Option (List A)
  find_roots [] f info = if is_small_prime f info then some (q.ntl_find_roots f) else none
  find_roots (tau ∷ taus) f info =
      let transformed = (do
        found ← transform_roots f info tau
        (let more : Option (List A) = elim (q.divide f (p.build_from_roots found)) [
          | none ↦ some found
          | some f3 ↦ (do rest ← find_roots taus f3 info; some (found ++ rest))
        ] in
            if ltb (length found) (p.len f - 1) then more else some found)) in
      if is_small_prime f info then some (q.ntl_find_roots f) else transformed
