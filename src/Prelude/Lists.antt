-- ===== src/Prelude/Lists.antt =====
-- Lists measured and indexed by native numbers, under the library's names. A read or a write out
-- of range is `none`: the vectors of NTL and of the standard library leave it undefined.
use Prim.Native.Nat.{ℕ, zero, suc, ◌+◌, ◌≤◌, ◌<◌}
use mathlib.Core.Path.{◌≡◌, refl, ap}
use mathlib.Core.List.{List, [], ◌∷◌, ◌++◌, map}
use mathlib.Core.Option.{Option, none, some}
use mathlib.Core.Option
use native.Mathlib.Omega.{arith}

module _ {ℓ} {A : Type ℓ} where
  abbrev pub length : List A → ℕ
  length [] = 0
  length (x ∷ xs) = suc (length xs)

  abbrev pub get_elem? : List A → ℕ → Option A
  get_elem? [] i = none
  get_elem? (x ∷ xs) zero = some x
  get_elem? (x ∷ xs) (suc i) = get_elem? xs i

  abbrev pub set? : List A → ℕ → A → Option (List A)
  set? [] i v = none
  set? (x ∷ xs) zero v = some (v ∷ xs)
  set? (x ∷ xs) (suc i) v = Option.map (◌∷◌ x) (set? xs i v)

  abbrev pub replicate : ℕ → A → List A
  replicate zero a = []
  replicate (suc n) a = a ∷ replicate n a

  pub length-append : (xs ys : List A) → length (xs ++ ys) ≡ length xs + length ys
  length-append [] ys = omega arith
  length-append (x ∷ xs) ys = omega (arith, length-append xs ys)

  pub length-replicate : (n : ℕ) (a : A) → length (replicate n a) ≡ n
  length-replicate zero a = refl
  length-replicate (suc n) a = ap suc (length-replicate n a)

  pub get_elem?-append_left :
      (xs ys : List A) (i : ℕ) → i < length xs → get_elem? (xs ++ ys) i ≡ get_elem? xs i
  get_elem?-append_left [] ys i h = absurd (omega arith)
  get_elem?-append_left (x ∷ xs) ys zero h = refl
  get_elem?-append_left (x ∷ xs) ys (suc i) h = get_elem?-append_left xs ys i (omega arith)

  pub get_elem?-append_right :
      (xs ys : List A) (i j : ℕ) → j ≡ length xs + i → get_elem? (xs ++ ys) j ≡ get_elem? ys i
  get_elem?-append_right [] ys i j e = let e' : j ≡ i = omega arith in rw e'
  get_elem?-append_right (x ∷ xs) ys i zero e = absurd (omega arith)
  get_elem?-append_right (x ∷ xs) ys i (suc j) e = get_elem?-append_right xs ys i j (omega arith)

  pub get_elem?-none : (xs : List A) (i : ℕ) → length xs ≤ i → get_elem? xs i ≡ none
  get_elem?-none [] i h = refl
  get_elem?-none (x ∷ xs) zero h = absurd (omega arith)
  get_elem?-none (x ∷ xs) (suc i) h = get_elem?-none xs i (omega arith)

  -- A write at the end of a written prefix.
  pub set?-append :
      (xs : List A) (y : A) (ys : List A) (i : ℕ) (v : A)
      → i ≡ length xs
      → set? (xs ++ (y ∷ ys)) i v ≡ some (xs ++ (v ∷ ys))
  set?-append [] y ys zero v e = refl
  set?-append [] y ys (suc i) v e = absurd (omega arith)
  set?-append (x ∷ xs) y ys zero v e = absurd (omega arith)
  set?-append (x ∷ xs) y ys (suc i) v e = rw (set?-append xs y ys i v (omega arith))

pub length-map {ℓ κ} :
    {A : Type ℓ} {B : Type κ} (f : A → B) (xs : List A) → length (map f xs) ≡ length xs
length-map f [] = refl
length-map f (x ∷ xs) = ap suc (length-map f xs)

pub get_elem?-map {ℓ κ} :
    {A : Type ℓ} {B : Type κ} (f : A → B) (xs : List A) (i : ℕ) {a : A}
    → get_elem? xs i ≡ some a
    → get_elem? (map f xs) i ≡ some (f a)
get_elem?-map f [] i h = cc
get_elem?-map f (x ∷ xs) zero h = ground arith
get_elem?-map f (x ∷ xs) (suc i) h = get_elem?-map f xs i h

module _ {ℓ} {A : Type ℓ} where
  -- A value read in the first of two lists is read there in the joined list.
  pub get_elem?-in_head :
      (xs ys : List A) (i : ℕ) {v : A} → get_elem? xs i ≡ some v → get_elem? (xs ++ ys) i ≡ some v
  get_elem?-in_head [] ys i h = cc
  get_elem?-in_head (x ∷ xs) ys zero h = h
  get_elem?-in_head (x ∷ xs) ys (suc i) h = get_elem?-in_head xs ys i h

  -- A value read in the second of two lists is read behind the first one's length.
  pub get_elem?-in_tail :
      (xs ys : List A) (n i j : ℕ) {v : A}
      → length xs ≡ n
      → j ≡ n + i
      → get_elem? ys i ≡ some v
      → get_elem? (xs ++ ys) j ≡ some v
  get_elem?-in_tail xs ys n i j l e h = rw (get_elem?-append_right xs ys i j (omega arith)) h

  pub get_elem?-some : (xs : List A) (i : ℕ) → i < length xs → (v : A) × (get_elem? xs i ≡ some v)
  get_elem?-some [] i h = absurd (omega arith)
  get_elem?-some (x ∷ xs) zero h = (x, refl)
  get_elem?-some (x ∷ xs) (suc i) h = get_elem?-some xs i (omega arith)

  pub get_elem?-replicate : (n i : ℕ) (a : A) → i < n → get_elem? (replicate n a) i ≡ some a
  get_elem?-replicate zero i a h = absurd (omega arith)
  get_elem?-replicate (suc n) zero a h = refl
  get_elem?-replicate (suc n) (suc i) a h = get_elem?-replicate n i a (omega arith)

  -- Two lists of one length with the same elements are equal.
  pub eq_of_get_elem? :
      (xs ys : List A)
      → length xs ≡ length ys
      → ((i : ℕ) → i < length xs → get_elem? xs i ≡ get_elem? ys i)
      → xs ≡ ys
  eq_of_get_elem? [] [] e h = refl
  eq_of_get_elem? [] (y ∷ ys) e h = absurd (omega arith)
  eq_of_get_elem? (x ∷ xs) [] e h = absurd (omega arith)
  eq_of_get_elem? (x ∷ xs) (y ∷ ys) e h =
      let head : x ≡ y = cc (h 0 (omega arith)) in
      rw (head, eq_of_get_elem? xs ys (omega arith) (λ i l. h (suc i) (omega arith)))

pub get_elem?-map_lem {ℓ κ} :
    {A : Type ℓ} {B : Type κ} (f : A → B) (xs : List A) (i : ℕ)
    → get_elem? (map f xs) i ≡ Option.map f (get_elem? xs i)
get_elem?-map_lem f [] i = refl
get_elem?-map_lem f (x ∷ xs) zero = refl
get_elem?-map_lem f (x ∷ xs) (suc i) = get_elem?-map_lem f xs i

pub map_ext {ℓ κ} :
    {B : Type ℓ} {C : Type κ} (f g : B → C)
    → ((b : B) → f b ≡ g b)
    → (xs : List B) → map f xs ≡ map g xs
map_ext f g h [] = refl
map_ext f g h (x ∷ xs) = rw (h x, map_ext f g h xs)

pub map-map {ℓ κ μ} :
    {A : Type ℓ} {B : Type κ} {C : Type μ} (g : B → C) (f : A → B) (xs : List A)
    → map g (map f xs) ≡ map (λ x. g (f x)) xs
map-map g f [] = refl
map-map g f (x ∷ xs) = rw (map-map g f xs)
