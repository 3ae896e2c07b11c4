-- ===== src/Stm/Opening/Tests.antt =====
-- A batched opening over the residues modulo 7: 5 servers, and two blocks of two secrets.
use mathlib.Core.List.{flatten}
use ab_prototype.Prelude.{
  ℕ, ◌+◌, ◌≤◌, ◌<◌, ◌≡◌, refl, ap, ◌∙◌, inr, some, List, [], ◌∷◌, map, length, arith,
}
use ab_prototype.ZzP.Residues.{Residue, Residue_path, of_ℕ}
use ab_prototype.RmCommon.{RmInfo, fill_rm_info}
use ab_prototype.SecretSharing.{gen_xvals, points_where, set_coeffs}
use ab_prototype.SecretSharing.Samples.{mod7, poly7, Coeffs}
use ab_prototype.SecretSharing.Combinations.{linear7}
use ab_prototype.SecretSharing.RoundTrip.{IsDecodable}
use ab_prototype.Stm.Samples.{info7}
use ab_prototype.Stm.Opening.{open_batch}
use ab_prototype.Stm.Opening.Honest.{IsOpenable}
use ab_prototype.Stm.Opening.Secrets.{open_batch-shares}

abbrev info : RmInfo
info = record info7 { l = 2 }

abbrev poly : ℕ → ℕ → ℕ → Coeffs
poly a b c = map (of_ℕ 7 (omega arith)) (a ∷ b ∷ c ∷ [])

abbrev batch : List (List Coeffs)
batch = (poly 3 1 1 ∷ poly 5 0 1 ∷ []) ∷ (poly 0 6 2 ∷ poly 4 2 2 ∷ []) ∷ []

-- The numbers of residues, which determine them.
abbrev numbers : Coeffs → List ℕ
numbers = map (λ a. a.0)

eq_of_numbers : (f g : Coeffs) → numbers f ≡ numbers g → f ≡ g
eq_of_numbers [] [] e = refl
eq_of_numbers [] (b ∷ g) e = cc
eq_of_numbers (a ∷ f) [] e = cc
eq_of_numbers (a ∷ f) (b ∷ g) e =
    let head : a ≡ b = Residue_path 7 (omega arith) a b cc in rw (head, eq_of_numbers f g cc) refl

decodable :
    (d : ℕ) (f : Coeffs)
    → poly7.len f ≤ d + 1
    → numbers (poly7.interpolate (gen_xvals 5) (map (poly7.eval f) (gen_xvals 5))) ≡ numbers f
    → numbers (poly7.div_rem f poly7.one_poly).0 ≡ numbers f
    → numbers (poly7.div_rem f poly7.one_poly).1 ≡ []
    → length (points_where (λ x s. mod7.is_zero s) (gen_xvals 5) (map (poly7.eval f) (gen_xvals 5)))
      < poly7.len f
    → IsDecodable (Residue 7) Coeffs (gen_xvals 5) d f
decodable d f short same quotient remainder few = record {
  short = short;
  same = eq_of_numbers _ f same;
  divides =
      (ap (λ q. (q, (poly7.div_rem f poly7.one_poly).1)) (eq_of_numbers _ f quotient)
        ∙ ap (λ r. (f, r)) (eq_of_numbers _ [] remainder));
  few_roots = inr few;
}

block0 : IsOpenable info linear7 (poly 3 1 1 ∷ poly 5 0 1 ∷ [])
unfolding fill_rm_info gen_xvals points_where set_coeffs
block0 = record {
  sized = refl;
  rows = (
    decodable 2 _ (omega arith) refl refl refl (omega arith),
    (
      decodable 2 _ (omega arith) refl refl refl (omega arith),
      (
        decodable 2 _ (omega arith) refl refl refl (omega arith),
        (
          decodable 2 _ (omega arith) refl refl refl (omega arith),
          (decodable 2 _ (omega arith) refl refl refl (omega arith), tt),
        ),
      ),
    ),
  );
  column = decodable 1 _ (omega arith) refl refl refl (omega arith);
}

block1 : IsOpenable info linear7 (poly 0 6 2 ∷ poly 4 2 2 ∷ [])
unfolding fill_rm_info gen_xvals points_where set_coeffs
block1 = record {
  sized = refl;
  rows = (
    decodable 2 _ (omega arith) refl refl refl (omega arith),
    (
      decodable 2 _ (omega arith) refl refl refl (omega arith),
      (
        decodable 2 _ (omega arith) refl refl refl (omega arith),
        (
          decodable 2 _ (omega arith) refl refl refl (omega arith),
          (decodable 2 _ (omega arith) refl refl refl (omega arith), tt),
        ),
      ),
    ),
  );
  column = decodable 1 _ (omega arith) refl refl refl (omega arith);
}

open_batch-shares_example :
    open_batch (Residue 7) Coeffs info (gen_xvals 5) [] 2 (
      map
        (λ x. map (λ f. poly7.eval f x) (poly 3 1 1 ∷ poly 5 0 1 ∷ poly 0 6 2 ∷ poly 4 2 2 ∷ []))
        (gen_xvals 5))
    ≡ some (map (of_ℕ 7 (omega arith)) (3 ∷ 5 ∷ 0 ∷ 4 ∷ []))
unfolding fill_rm_info flatten
open_batch-shares_example =
    open_batch-shares info linear7 [] batch (omega arith) (omega arith) (omega arith)
      (block0, (block1, tt))
