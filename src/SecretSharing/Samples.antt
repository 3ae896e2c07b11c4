-- ===== src/SecretSharing/Samples.antt =====
-- Polynomials over the residues modulo 7, as the lists of their coefficients from the constant one
-- up, with what secretsharing.h uses of NTL's polynomials and matrices.
use ab_prototype.Prelude.{
  ℕ, zero, suc, ◌==◌, ◌≡◌, ◌-◌, ◌≤◌, refl, some, none, List, [], ◌∷◌, ◌++◌, map, length, replicate,
  take, get_elem?, ltb, if◌then◌else◌, arith,
}
use ab_prototype.ZzP.{ZzP, ◌⊕◌, ◌⊖◌, ◌⊗◌}
use ab_prototype.ZzP.Residues.{Residue, residues}
use ab_prototype.SecretSharing.{Poly}
use ab_prototype.SecretSharing.Linear.{dot}

instance abbrev pub mod7 : ZzP (Residue 7)
mod7 = residues 7 (omega arith)

abbrev pub Coeffs : Type 0
Coeffs = List (Residue 7)

-- Without the zeros at the end.
abbrev pub trim : Coeffs → Coeffs
trim [] = []
trim (a ∷ f) = elim (trim f) [ [] ↦ if mod7.is_zero a then [] else a ∷ [] | b ∷ g ↦ a ∷ b ∷ g ]

length-trim : (f : Coeffs) → length (trim f) ≤ length f
length-trim [] = omega arith
length-trim (a ∷ f) = ground (arith, length-trim f)

length-take_le : (f : Coeffs) (n : ℕ) → length (take n f) ≤ n
length-take_le f zero = omega arith
length-take_le [] (suc n) = omega arith
length-take_le (a ∷ f) (suc n) = omega (arith, length-take_le f n)

pub length-trim-take : (f : Coeffs) (n : ℕ) → length (trim (take n f)) ≤ n
length-trim-take f n = omega (arith, length-trim (take n f), length-take_le f n)

abbrev pub at : Coeffs → ℕ → Residue 7
at f i = elim (get_elem? f i) [ none ↦ mod7.zero | some a ↦ a ]

abbrev pub set_at : Coeffs → ℕ → Residue 7 → Coeffs
set_at [] zero a = a ∷ []
set_at [] (suc i) a = mod7.zero ∷ set_at [] i a
set_at (c ∷ f) zero a = a ∷ f
set_at (c ∷ f) (suc i) a = c ∷ set_at f i a

pub at-set_at :
    (f : Coeffs) (i j : ℕ) (a : Residue 7) → at (set_at f i a) j ≡ (if i == j then a else at f j)
at-set_at [] zero zero a = ground arith
at-set_at [] zero (suc j) a = ground arith
at-set_at [] (suc i) zero a = ground arith
at-set_at [] (suc i) (suc j) a = ground (arith, at-set_at [] i j a)
at-set_at (c ∷ f) zero zero a = ground arith
at-set_at (c ∷ f) zero (suc j) a = ground arith
at-set_at (c ∷ f) (suc i) zero a = ground arith
at-set_at (c ∷ f) (suc i) (suc j) a = ground (arith, at-set_at f i j a)

abbrev pub add_poly : Coeffs → Coeffs → Coeffs
add_poly [] g = g
add_poly (a ∷ f) [] = a ∷ f
add_poly (a ∷ f) (b ∷ g) = (a ⊕ b) ∷ add_poly f g

abbrev pub scale : Residue 7 → Coeffs → Coeffs
scale a = map (λ b. a ⊗ b)

abbrev pub mul_poly : Coeffs → Coeffs → Coeffs
mul_poly [] g = []
mul_poly (a ∷ f) g = add_poly (scale a g) (mod7.zero ∷ mul_poly f g)

abbrev sub_poly : Coeffs → Coeffs → Coeffs
sub_poly f g = add_poly f (scale (mod7.neg mod7.one) g)

abbrev shift : ℕ → Coeffs → Coeffs
shift n f = replicate n mod7.zero ++ f

abbrev pub inv7 : Residue 7 → Residue 7
inv7 a = mod7.power a 5

-- Division: the multiple of g that cancels the leading coefficient is taken off.
abbrev pub divide : ℕ → Coeffs → Coeffs → Coeffs → Coeffs × Coeffs
divide zero q f g = (q, f)
divide (suc fuel) q f g =
    let term =
      shift (length f - length g) ((at f (length f - 1) ⊗ inv7 (at g (length g - 1))) ∷ []) in
    let rest = divide fuel (add_poly q term) (trim (sub_poly f (mul_poly term g))) g in
    if ltb (length f) (length g) then (q, f) else rest

abbrev pub eval7 : Coeffs → Residue 7 → Residue 7
eval7 [] x = mod7.zero
eval7 (a ∷ f) x = a ⊕ x ⊗ eval7 f x

abbrev from_roots : List (Residue 7) → Coeffs
from_roots [] = mod7.one ∷ []
from_roots (r ∷ roots) = mul_poly (mod7.neg r ∷ mod7.one ∷ []) (from_roots roots)

-- The polynomial of degree below the number of the points, by Newton's form.
abbrev interpolate7 : List (Residue 7) → List (Residue 7) → Coeffs → Coeffs → Coeffs
interpolate7 [] ys f m = f
interpolate7 (x ∷ xs) [] f m = f
interpolate7 (x ∷ xs) (y ∷ ys) f m =
    interpolate7 xs ys (add_poly f (scale ((y ⊖ eval7 f x) ⊗ inv7 (eval7 m x)) m))
      (mul_poly (mod7.neg x ∷ mod7.one ∷ []) m)

abbrev times : List (List (Residue 7)) → List (Residue 7) → List (Residue 7)
times rows column = map (λ row. dot row column) rows

instance abbrev pub poly7 : Poly (Residue 7) Coeffs ⦃z = mod7⦄
poly7 = record {
  zero_poly = [];
  one_poly = mod7.one ∷ [];
  len = λ f. length (trim f);
  coeff = at;
  set_coeff = set_at;
  eval = eval7;
  sub_poly = sub_poly;
  mul_poly = mul_poly;
  div_rem = λ f g.
      let qr = divide (length f) [] (trim f) (trim g) in (qr.0, take (length (trim g) - 1) qr.1);
  interpolate = λ xs ys. trim (interpolate7 xs ys [] (mod7.one ∷ []));
  build_from_roots = from_roots;
  mat_mul = times;
  len-rem = λ f g h.
      omega
        (arith, length-trim-take (divide (length f) [] (trim f) (trim g)).1 (length (trim g) - 1));
  len-zero_poly = refl;
  coeff-zero_poly = λ i. refl;
  eval-zero_poly = λ x. refl;
}
