-- ===== src/ZzP/Residues.antt =====
-- The residues modulo a positive number meet the interface of `ZZ_p`.
use mathlib.Core.HLevel.{Σ_prop_path}
use native.Mathlib.Bridge.{le_prop}
use native.Mathlib.Nat.{
  mod-lt, mod-eq_of_lt, mod_self, mod-add-mod, add-mod-mod, add-mul-mod_self_left, div-add-mod,
}
use ab_prototype.Prelude.{
  ℕ, zero, suc, ◌+◌, ◌-◌, ◌*◌, ◌%◌, ◌/◌, ◌<◌, ◌≡◌, sym, ap, ◌∙◌, arith, ◌==◌, ==_iff,
}
use ab_prototype.ZzP.{ZzP}

abbrev pub Residue : ℕ → Type 0
Residue p = (a : ℕ) × (a < p)

pub mul-mod-mod : (a b p : ℕ) → (a * (b % p)) % p ≡ (a * b) % p
mul-mod-mod a b p =
    sym (ap (λ t. t % p) parts ∙ add-mul-mod_self_left (a * (b % p)) p (a * (b / p)))
  where
    parts : a * b ≡ a * (b % p) + p * (a * (b / p))
    parts = omega (arith, ap (λ (t : ℕ). a * t) (div-add-mod b p))

pub mod-mul-mod : (a b p : ℕ) → (a % p * b) % p ≡ (a * b) % p
mod-mul-mod a b p =
    ap (λ (t : ℕ). t % p) (swap (a % p) b) ∙ mul-mod-mod b a p ∙ ap (λ (t : ℕ). t % p) (swap b a)
  where
    swap : (x y : ℕ) → x * y ≡ y * x
    swap x y = omega arith

module _ (p : ℕ) (p_pos : 0 < p) where
  pub Residue_path : (a b : Residue p) → a.0 ≡ b.0 → a ≡ b
  Residue_path a b e = Σ_prop_path (λ n. le_prop) e

  abbrev pub of_ℕ : ℕ → Residue p
  of_ℕ n = (n % p, mod-lt n p_pos)

  pub of_ℕ_path : (m n : ℕ) → m % p ≡ n % p → of_ℕ m ≡ of_ℕ n
  of_ℕ_path m n e = Residue_path (of_ℕ m) (of_ℕ n) e

  pub of_ℕ_small : (a : Residue p) (m : ℕ) → m % p ≡ a.0 % p → of_ℕ m ≡ a
  of_ℕ_small a m e = Residue_path (of_ℕ m) a (e ∙ mod-eq_of_lt a.1)

  abbrev pub pow_mod : Residue p → ℕ → Residue p
  pow_mod a zero = of_ℕ 1
  pow_mod a (suc e) = of_ℕ (a.0 * (pow_mod a e).0)

  pub is_zero_iff_lem : (a : Residue p) → (a.0 ≡ 0) → a ≡ of_ℕ 0
  is_zero_iff_lem a e = sym (of_ℕ_small a 0 (ap (λ (t : ℕ). t % p) (sym e)))

  instance abbrev pub residues : ZzP (Residue p)
  residues = record {
    zero = of_ℕ 0;
    one = of_ℕ 1;
    add = λ a b. of_ℕ (a.0 + b.0);
    neg = λ a. of_ℕ (p - a.0);
    sub = λ a b. of_ℕ (a.0 + (p - b.0));
    mul = λ a b. of_ℕ (a.0 * b.0);
    power = pow_mod;
    conv = of_ℕ;
    is_zero = λ a. a.0 == 0;
    add_assoc = λ a b c. of_ℕ_path _ _ (
        mod-add-mod (a.0 + b.0) p c.0
        ∙ ap (λ (t : ℕ). t % p) (omega arith)
        ∙ sym (add-mod-mod a.0 (b.0 + c.0) p));
    add_comm = λ a b. of_ℕ_path _ _ (ap (λ (t : ℕ). t % p) (omega arith));
    add-zero = λ a. of_ℕ_small a _ (add-mod-mod a.0 0 p ∙ ap (λ (t : ℕ). t % p) (omega arith));
    add-neg = λ a. of_ℕ_path _ _ (
        add-mod-mod a.0 (p - a.0) p
        ∙ ap (λ (t : ℕ). t % p) (let h = a.1 in omega arith)
        ∙ mod_self p
        ∙ sym (mod-eq_of_lt p_pos));
    sub_lem = λ a b. of_ℕ_path _ _ (sym (add-mod-mod a.0 (p - b.0) p));
    mul_assoc = λ a b c. of_ℕ_path _ _ (
        mod-mul-mod (a.0 * b.0) c.0 p
        ∙ ap (λ (t : ℕ). t % p) (omega arith)
        ∙ sym (mul-mod-mod a.0 (b.0 * c.0) p));
    mul_comm = λ a b. of_ℕ_path _ _ (ap (λ (t : ℕ). t % p) (omega arith));
    mul-one = λ a. of_ℕ_small a _ (mul-mod-mod a.0 1 p ∙ ap (λ (t : ℕ). t % p) (omega arith));
    mul-add = λ a b c. of_ℕ_path _ _ (
        mul-mod-mod a.0 (b.0 + c.0) p
        ∙ ap (λ (t : ℕ). t % p) (omega arith)
        ∙ sym (mod-add-mod (a.0 * b.0) p (a.0 * c.0 % p) ∙ add-mod-mod (a.0 * b.0) (a.0 * c.0) p));
    power-zero = λ a. of_ℕ_path 1 1 (ap (λ (t : ℕ). t % p) (omega arith));
    power-suc = λ a e. of_ℕ_path _ _ (ap (λ (t : ℕ). t % p) (omega arith));
    conv-zero = of_ℕ_path 0 0 (ap (λ (t : ℕ). t % p) (omega arith));
    conv-suc = λ n.
        of_ℕ_path _ _
          (sym (mod-add-mod n p (1 % p) ∙ add-mod-mod n 1 p ∙ ap (λ (t : ℕ). t % p) (omega arith)));
    is_zero_iff = λ a. (
      λ h. is_zero_iff_lem a ((==_iff a.0 0).0 h),
      λ e. (==_iff a.0 0).1 (ap (λ (r : Residue p). r.0) e ∙ mod-eq_of_lt p_pos),
    );
  }
