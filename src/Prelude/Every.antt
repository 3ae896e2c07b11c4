-- ===== src/Prelude/Every.antt =====
-- A predicate on all elements of a list, as a tuple.
use Prim.Native.Nat.{ℕ, zero, suc, ◌+◌, ◌<◌}
use mathlib.Core.Path.{◌≡◌, refl, ap, ◌∙◌}
use mathlib.Core.Option.{some}
use mathlib.Core.List.{List, [], ◌∷◌, ◌++◌, map, append_assoc}
use native.Mathlib.Omega.{arith}
use ab_prototype.Prelude.Lists.{length, get_elem?}
use mathlib.Core.Path.{sym}

abbrev pub AllOf {ℓ κ} : {A : Type ℓ} → (A → Type κ) → List A → Type κ
AllOf P [] = Unit
AllOf P (x ∷ xs) = P x × AllOf P xs

-- The numbers i, i + 1, … up to n terms.
abbrev pub count_from : ℕ → ℕ → List ℕ
count_from zero i = []
count_from (suc n) i = i ∷ count_from n (suc i)

pub length-count_from : (n i : ℕ) → length (count_from n i) ≡ n
length-count_from zero i = refl
length-count_from (suc n) i = ap suc (length-count_from n (suc i))

pub get_elem?-count_from : (n i j : ℕ) → i < n → get_elem? (count_from n j) i ≡ some (j + i)
get_elem?-count_from zero i j h = absurd (omega arith)
get_elem?-count_from (suc n) zero j h = ap some (omega arith)
get_elem?-count_from (suc n) (suc i) j h =
    get_elem?-count_from n i (suc j) (omega arith) ∙ ap some (omega arith)

module _ {ℓ κ} {A : Type ℓ} (P : A → Type κ) where
  pub AllOf-append : (xs ys : List A) → AllOf P xs → AllOf P ys → AllOf P (xs ++ ys)
  AllOf-append [] ys h k = k
  AllOf-append (x ∷ xs) ys h k = (h.0, AllOf-append xs ys h.1 k)

  pub AllOf-append_left : (xs ys : List A) → AllOf P (xs ++ ys) → AllOf P xs
  AllOf-append_left [] ys h = tt
  AllOf-append_left (x ∷ xs) ys h = (h.0, AllOf-append_left xs ys h.1)

  pub AllOf-append_right : (xs ys : List A) → AllOf P (xs ++ ys) → AllOf P ys
  AllOf-append_right [] ys h = h
  AllOf-append_right (x ∷ xs) ys h = AllOf-append_right xs ys h.1

  pub AllOf-map-count_from :
      (g : ℕ → A) (n i : ℕ)
      → ((t j : ℕ) → t < n → j ≡ i + t → P (g j))
      → AllOf P (map g (count_from n i))
  AllOf-map-count_from g zero i h = tt
  AllOf-map-count_from g (suc n) i h = (
    h 0 i (omega arith) (omega arith),
    AllOf-map-count_from g n (suc i) (λ t j l e. h (suc t) j (omega arith) (omega arith)),
  )

  pub AllOf-map-count_from_at :
      (g : ℕ → A) (n i t : ℕ) → AllOf P (map g (count_from n i)) → t < n → P (g (i + t))
  AllOf-map-count_from_at g zero i t h l = absurd (omega arith)
  AllOf-map-count_from_at g (suc n) i zero h l = let e : i + zero ≡ i = omega arith in rw e h.0
  AllOf-map-count_from_at g (suc n) i (suc t) h l =
      let e : i + suc t ≡ suc i + t = omega arith in
      rw e (AllOf-map-count_from_at g n (suc i) t h.1 (omega arith))

  -- A predicate that holds wherever the list is split holds of all elements.
  pub AllOf-splits :
      (before xs : List A)
      → ((xs₁ : List A) (x : A) (xs₂ : List A) → before ++ xs ≡ xs₁ ++ (x ∷ xs₂) → P x)
      → AllOf P xs
  AllOf-splits before [] h = tt
  AllOf-splits before (x ∷ xs) h = (
    h before x xs refl,
    AllOf-splits (before ++ (x ∷ [])) xs
        (λ xs₁ y xs₂ e. h xs₁ y xs₂ (sym (append_assoc before (x ∷ []) xs) ∙ e)),
  )

-- A property of the images follows from one of the elements.
pub AllOf-map {ℓ κ μ ν} :
    {A : Type ℓ} {B : Type κ} (P : A → Type μ) (Q : B → Type ν) (f : A → B)
    → ((a : A) → P a → Q (f a))
    → (xs : List A) → AllOf P xs
    → AllOf Q (map f xs)
AllOf-map P Q f h [] k = tt
AllOf-map P Q f h (x ∷ xs) k = (h x k.0, AllOf-map P Q f h xs k.1)
