-- ===== src/ZzP.antt =====
-- `NTL::ZZ_p`, the integers modulo the prime of the session, as the sources use them. NTL is not
-- part of the repository: the type and its operations are a parameter of the whole development,
-- with the laws that NTL documents. `power` is `power(a, e)`, `conv` is `conv<ZZ_p>(long)` and
-- `ZZ_p(long)`, and `is_zero` is the test against 0.
pub mod Laws
pub mod Residues
use ab_prototype.Prelude.{ℕ, suc, ◌≡◌, ◌↔◌, Bool, true}

pub record ZzP (A : Type 0) : Type 0 where
  pub zero : A
  pub one : A
  pub add : A → A → A
  pub neg : A → A
  pub sub : A → A → A
  pub mul : A → A → A
  pub power : A → ℕ → A
  pub conv : ℕ → A
  pub is_zero : A → Bool
  pub add_assoc : (a b c : A) → add (add a b) c ≡ add a (add b c)
  pub add_comm : (a b : A) → add a b ≡ add b a
  pub add-zero : (a : A) → add a zero ≡ a
  pub add-neg : (a : A) → add a (neg a) ≡ zero
  pub sub_lem : (a b : A) → sub a b ≡ add a (neg b)
  pub mul_assoc : (a b c : A) → mul (mul a b) c ≡ mul a (mul b c)
  pub mul_comm : (a b : A) → mul a b ≡ mul b a
  pub mul-one : (a : A) → mul a one ≡ a
  pub mul-add : (a b c : A) → mul a (add b c) ≡ add (mul a b) (mul a c)
  pub power-zero : (a : A) → power a 0 ≡ one
  pub power-suc : (a : A) (e : ℕ) → power a (suc e) ≡ mul a (power a e)
  pub conv-zero : conv 0 ≡ zero
  pub conv-suc : (n : ℕ) → conv (suc n) ≡ add (conv n) one
  pub is_zero_iff : (a : A) → (is_zero a ≡ true) ↔ (a ≡ zero)

module _ {A : Type 0} ⦃z : ZzP A⦄ where
  infixl 65 ◌⊕◌ ◌⊖◌
  infixl 70 ◌⊗◌
  abbrev pub ◌⊕◌ : A → A → A
  a ⊕ b = z.add a b

  abbrev pub ◌⊖◌ : A → A → A
  a ⊖ b = z.sub a b

  abbrev pub ◌⊗◌ : A → A → A
  a ⊗ b = z.mul a b
