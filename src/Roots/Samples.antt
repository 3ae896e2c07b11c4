-- ===== src/Roots/Samples.antt =====
-- The inverse modulo 7, and what root_finding.h uses of NTL for polynomials over these residues.
use ab_prototype.Prelude.{
  ℕ, zero, suc, ◌≡◌, ◌≢◌, refl, Option, some, none, List, [], ◌∷◌, map, length, if◌then◌else◌,
  count_from, arith,
}
use ab_prototype.ZzP.{◌⊗◌}
use ab_prototype.ZzP.Residues.{Residue, Residue_path}
use ab_prototype.SecretSharing.Samples.{mod7, Coeffs, inv7, poly7, trim, divide, eval7}
use ab_prototype.Roots.Field.{Inverse, PolyRoots}

pub mul-inv7 : (a : Residue 7) → a ≢ mod7.zero → a ⊗ inv7 a ≡ mod7.one
mul-inv7 (zero, h) ne = absurd (ne (Residue_path 7 (omega arith) _ _ refl))
mul-inv7 ((suc zero), h) ne = Residue_path 7 (omega arith) _ _ refl
mul-inv7 ((suc (suc zero)), h) ne = Residue_path 7 (omega arith) _ _ refl
mul-inv7 ((suc (suc (suc zero))), h) ne = Residue_path 7 (omega arith) _ _ refl
mul-inv7 ((suc (suc (suc (suc zero)))), h) ne = Residue_path 7 (omega arith) _ _ refl
mul-inv7 ((suc (suc (suc (suc (suc zero))))), h) ne = Residue_path 7 (omega arith) _ _ refl
mul-inv7 ((suc (suc (suc (suc (suc (suc zero)))))), h) ne = Residue_path 7 (omega arith) _ _ refl
mul-inv7 (suc (suc (suc (suc (suc (suc (suc n)))))), h) ne = absurd (omega (arith, h))

instance abbrev pub inverse7 : Inverse (Residue 7) ⦃z = mod7⦄
inverse7 = record { inv = inv7; mul-inv = mul-inv7 }

-- The derivative, the coefficients counted from i on.
abbrev pub diff_from : ℕ → Coeffs → Coeffs
diff_from i [] = []
diff_from i (a ∷ f) = (mod7.conv i ⊗ a) ∷ diff_from (suc i) f

abbrev pub diff7 : Coeffs → Coeffs
diff7 [] = []
diff7 (a ∷ f) = diff_from 1 f

abbrev pub divide7 : Coeffs → Coeffs → Option Coeffs
divide7 f g =
    let qr = divide (length f) [] (trim f) (trim g) in
    elim (trim qr.1) [ [] ↦ some qr.0 | a ∷ r ↦ none ]

-- The roots among some residues.
abbrev pub roots_among : Coeffs → List (Residue 7) → List (Residue 7)
roots_among f [] = []
roots_among f (x ∷ xs) =
    let rest = roots_among f xs in if mod7.is_zero (eval7 f x) then x ∷ rest else rest

instance abbrev pub roots7 : PolyRoots (Residue 7) Coeffs ⦃z = mod7⦄ ⦃p = poly7⦄
roots7 = record {
  diff = diff7;
  scale = λ a f. map (λ b. a ⊗ b) f;
  divide = divide7;
  ntl_find_roots = λ f. roots_among f (map mod7.conv (count_from 7 0));
}
