-- ===== src/ZzP/Laws.antt =====
-- Laws of `ZZ_p` arithmetic that follow from those of the interface.
use ab_prototype.Prelude.{ℕ, zero, suc, ◌+◌, ◌≡◌, sym, ap, ◌∙◌, arith}
use ab_prototype.ZzP.{ZzP, ◌⊕◌, ◌⊖◌, ◌⊗◌}

module _ {A : Type 0} ⦃z : ZzP A⦄ where
  pub zero-add : (a : A) → z.zero ⊕ a ≡ a
  zero-add a = z.add_comm z.zero a ∙ z.add-zero a

  pub one-mul : (a : A) → z.one ⊗ a ≡ a
  one-mul a = z.mul_comm z.one a ∙ z.mul-one a

  pub neg-add : (a : A) → z.neg a ⊕ a ≡ z.zero
  neg-add a = z.add_comm (z.neg a) a ∙ z.add-neg a

  pub add_left_cancel : (a b c : A) → a ⊕ b ≡ a ⊕ c → b ≡ c
  add_left_cancel a b c e = sym (cancel b) ∙ ap (◌⊕◌ (z.neg a)) e ∙ cancel c
    where
      cancel : (x : A) → z.neg a ⊕ (a ⊕ x) ≡ x
      cancel x = rw (← z.add_assoc (z.neg a) a x, neg-add a, zero-add x)

  pub mul-zero : (a : A) → a ⊗ z.zero ≡ z.zero
  mul-zero a = add_left_cancel (a ⊗ z.zero) (a ⊗ z.zero) z.zero both
    where
      both : a ⊗ z.zero ⊕ a ⊗ z.zero ≡ a ⊗ z.zero ⊕ z.zero
      both =
          sym (z.mul-add a z.zero z.zero)
          ∙ ap (◌⊗◌ a) (z.add-zero z.zero)
          ∙ sym (z.add-zero (a ⊗ z.zero))

  pub sub_self : (a : A) → a ⊖ a ≡ z.zero
  sub_self a = z.sub_lem a a ∙ z.add-neg a

  pub sub_eq_zero : (a b : A) → a ≡ b → a ⊖ b ≡ z.zero
  sub_eq_zero a b e = rw e (sub_self b)

  pub power-one : (a : A) → z.power a 1 ≡ a
  power-one a = z.power-suc a 0 ∙ ap (◌⊗◌ a) (z.power-zero a) ∙ z.mul-one a

  pub power-add : (a : A) (m n : ℕ) → z.power a (m + n) ≡ z.power a m ⊗ z.power a n
  power-add a zero n =
      let e : zero + n ≡ n = omega arith in rw (e, z.power-zero a, one-mul (z.power a n))
  power-add a (suc m) n =
      let e : suc m + n ≡ suc (m + n) = omega arith in
      rw (e, z.power-suc a (m + n), z.power-suc a m, power-add a m n, z.mul_assoc)

module _ {A : Type 0} ⦃z : ZzP A⦄ where
  pub eq_of_sub_zero : (a b : A) → a ⊖ b ≡ z.zero → a ≡ b
  eq_of_sub_zero a b e =
      add_left_cancel (z.neg b) a b
        (z.add_comm (z.neg b) a ∙ sym (z.sub_lem a b) ∙ e ∙ sym (neg-add b))

  pub zero-mul : (a : A) → z.zero ⊗ a ≡ z.zero
  zero-mul a = z.mul_comm z.zero a ∙ mul-zero a

  pub mul_interchange : (a b c d : A) → (a ⊗ b) ⊗ (c ⊗ d) ≡ (a ⊗ c) ⊗ (b ⊗ d)
  mul_interchange a b c d =
      z.mul_assoc a b (c ⊗ d)
      ∙ ap (◌⊗◌ a) (sym (z.mul_assoc b c d) ∙ ap (λ x. x ⊗ d) (z.mul_comm b c) ∙ z.mul_assoc c b d)
      ∙ sym (z.mul_assoc a c (b ⊗ d))

  pub add_interchange : (a b c d : A) → (a ⊕ b) ⊕ (c ⊕ d) ≡ (a ⊕ c) ⊕ (b ⊕ d)
  add_interchange a b c d =
      z.add_assoc a b (c ⊕ d)
      ∙ ap (◌⊕◌ a) (sym (z.add_assoc b c d) ∙ ap (λ x. x ⊕ d) (z.add_comm b c) ∙ z.add_assoc c b d)
      ∙ sym (z.add_assoc a c (b ⊕ d))

  pub add-mul : (a b c : A) → (a ⊕ b) ⊗ c ≡ a ⊗ c ⊕ b ⊗ c
  add-mul a b c =
      z.mul_comm (a ⊕ b) c
      ∙ z.mul-add c a b
      ∙ ap (λ x. x ⊕ c ⊗ b) (z.mul_comm c a)
      ∙ ap (λ x. a ⊗ c ⊕ x) (z.mul_comm c b)

  pub mul_left_comm : (a b c : A) → a ⊗ (b ⊗ c) ≡ b ⊗ (a ⊗ c)
  mul_left_comm a b c =
      sym (z.mul_assoc a b c) ∙ ap (λ x. x ⊗ c) (z.mul_comm a b) ∙ z.mul_assoc b a c
