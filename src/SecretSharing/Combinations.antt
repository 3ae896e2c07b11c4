-- ===== src/SecretSharing/Combinations.antt =====
-- Linear combinations of the polynomials over the residues modulo 7.
use ab_prototype.Prelude.{
  ℕ, zero, suc, ◌+◌, ◌≡◌, refl, sym, ap, ◌∙◌, List, [], ◌∷◌, ◌++◌, map, length, length-append,
  append_assoc, append-nil, count_from, arith,
}
use ab_prototype.ZzP.{◌⊕◌, ◌⊗◌}
use ab_prototype.ZzP.Laws.{zero-add, one-mul, mul-zero, add_interchange, mul_left_comm}
use ab_prototype.ZzP.Residues.{Residue}
use ab_prototype.SecretSharing.{set_coeffs}
use ab_prototype.SecretSharing.Linear.{Linear, dot, powers}
use ab_prototype.SecretSharing.Samples.{mod7, poly7, Coeffs, at, set_at, add_poly, scale, eval7}

map-count_from-suc {ℓ} :
    {B : Type ℓ} (f : ℕ → B) (n i : ℕ)
    → map f (count_from n (suc i)) ≡ map (λ j. f (suc j)) (count_from n i)
map-count_from-suc f zero i = refl
map-count_from-suc f (suc n) i = ap (◌∷◌ (f (suc i))) (map-count_from-suc f n (suc i))

dot-scale :
    (a : Residue 7) (f : ℕ → Residue 7) (ks : List ℕ) (cs : Coeffs)
    → dot (map (λ k. a ⊗ f k) ks) cs ≡ a ⊗ dot (map f ks) cs
dot-scale a f [] cs = sym (mul-zero a)
dot-scale a f (k ∷ ks) [] = sym (mul-zero a)
dot-scale a f (k ∷ ks) (c ∷ cs) =
    ap (λ t. (a ⊗ f k) ⊗ c ⊕ t) (dot-scale a f ks cs)
    ∙ ap (λ t. t ⊕ a ⊗ dot (map f ks) cs) (mod7.mul_assoc a (f k) c)
    ∙ sym (mod7.mul-add a (f k ⊗ c) (dot (map f ks) cs))

pub eval7-powers : (cs : Coeffs) (x : Residue 7) → eval7 cs x ≡ dot (powers x (length cs)) cs
eval7-powers [] x = refl
eval7-powers (c ∷ cs) x =
    let rest : x ⊗ eval7 cs x ≡ dot (map (mod7.power x) (count_from (length cs) 1)) cs =
      ap (λ t. x ⊗ t) (eval7-powers cs x)
      ∙ sym (dot-scale x (mod7.power x) (count_from (length cs) 0) cs)
      ∙ ap (λ row. dot row cs) (sym (map-count_from-suc (mod7.power x) (length cs) 0)) in
    ap (λ t. c ⊕ t) rest
    ∙ ap (λ t. t ⊕ dot (map (mod7.power x) (count_from (length cs) 1)) cs)
        (sym (ap (λ t. t ⊗ c) (mod7.power-zero x) ∙ one-mul c))

pub map-at : (cs : Coeffs) → map (at cs) (count_from (length cs) 0) ≡ cs
map-at [] = refl
map-at (c ∷ cs) = ap (◌∷◌ c) (map-count_from-suc (at (c ∷ cs)) (length cs) 0 ∙ map-at cs)

set_at-end : (f : Coeffs) (c : Residue 7) → set_at f (length f) c ≡ f ++ (c ∷ [])
set_at-end [] c = refl
set_at-end (a ∷ f) c = ap (◌∷◌ a) (set_at-end f c)

pub set_coeffs-end :
    (f cs : Coeffs) (i : ℕ) → i ≡ length f → set_coeffs (Residue 7) Coeffs f i cs ≡ f ++ cs
unfolding set_coeffs
set_coeffs-end f [] i e = sym (append-nil f)
set_coeffs-end f (c ∷ cs) i e =
    rw (e, set_at-end f c)
      (set_coeffs-end (f ++ (c ∷ [])) cs (length f + 1) (omega (arith, length-append f (c ∷ [])))
        ∙ append_assoc f (c ∷ []) cs)

eval7-add_poly : (f g : Coeffs) (x : Residue 7) → eval7 (add_poly f g) x ≡ eval7 f x ⊕ eval7 g x
eval7-add_poly [] g x = sym (zero-add (eval7 g x))
eval7-add_poly (a ∷ f) [] x = sym (mod7.add-zero (eval7 (a ∷ f) x))
eval7-add_poly (a ∷ f) (b ∷ g) x =
    ap (λ t. (a ⊕ b) ⊕ x ⊗ t) (eval7-add_poly f g x)
    ∙ ap (λ t. (a ⊕ b) ⊕ t) (mod7.mul-add x (eval7 f x) (eval7 g x))
    ∙ add_interchange a b (x ⊗ eval7 f x) (x ⊗ eval7 g x)

eval7-scale : (a : Residue 7) (f : Coeffs) (x : Residue 7) → eval7 (scale a f) x ≡ a ⊗ eval7 f x
eval7-scale a [] x = sym (mul-zero a)
eval7-scale a (b ∷ f) x =
    ap (λ t. a ⊗ b ⊕ t) (ap (λ t. x ⊗ t) (eval7-scale a f x) ∙ mul_left_comm x a (eval7 f x))
    ∙ sym (mod7.mul-add a b (x ⊗ eval7 f x))

pub at-add_poly : (f g : Coeffs) (i : ℕ) → at (add_poly f g) i ≡ at f i ⊕ at g i
at-add_poly [] g i = sym (zero-add (at g i))
at-add_poly (a ∷ f) [] i = sym (mod7.add-zero (at (a ∷ f) i))
at-add_poly (a ∷ f) (b ∷ g) zero = refl
at-add_poly (a ∷ f) (b ∷ g) (suc i) = at-add_poly f g i

pub at-scale : (a : Residue 7) (f : Coeffs) (i : ℕ) → at (scale a f) i ≡ a ⊗ at f i
at-scale a [] i = sym (mul-zero a)
at-scale a (b ∷ f) zero = refl
at-scale a (b ∷ f) (suc i) = at-scale a f i

abbrev pub combine7 : List (Residue 7) → List Coeffs → Coeffs
combine7 [] fs = []
combine7 (a ∷ row) [] = []
combine7 (a ∷ row) (f ∷ fs) = add_poly (scale a f) (combine7 row fs)

pub eval7-combine7 :
    (row : List (Residue 7)) (fs : List Coeffs) (x : Residue 7)
    → eval7 (combine7 row fs) x ≡ dot row (map (λ f. eval7 f x) fs)
eval7-combine7 [] fs x = refl
eval7-combine7 (a ∷ row) [] x = refl
eval7-combine7 (a ∷ row) (f ∷ fs) x =
    eval7-add_poly (scale a f) (combine7 row fs) x
    ∙ ap (λ t. t ⊕ eval7 (combine7 row fs) x) (eval7-scale a f x)
    ∙ ap (λ t. a ⊗ eval7 f x ⊕ t) (eval7-combine7 row fs x)

pub at-combine7 :
    (row : List (Residue 7)) (fs : List Coeffs) (i : ℕ)
    → at (combine7 row fs) i ≡ dot row (map (λ f. at f i) fs)
at-combine7 [] fs i = refl
at-combine7 (a ∷ row) [] i = refl
at-combine7 (a ∷ row) (f ∷ fs) i =
    at-add_poly (scale a f) (combine7 row fs) i
    ∙ ap (λ t. t ⊕ at (combine7 row fs) i) (at-scale a f i)
    ∙ ap (λ t. a ⊗ at f i ⊕ t) (at-combine7 row fs i)

abbrev pub linear7 : Linear (Residue 7) Coeffs
linear7 = record {
  combine = combine7;
  mat_mul_lem = λ rows column. refl;
  eval-combine = eval7-combine7;
  coeff-combine = at-combine7;
  eval-set_coeffs = λ cs x. ap (λ f. eval7 f x) (set_coeffs-end [] cs 0 refl) ∙ eval7-powers cs x;
  coeff-set_coeffs = λ cs.
      ap (λ f. map (at f) (count_from (length cs) 0)) (set_coeffs-end [] cs 0 refl) ∙ map-at cs;
}
