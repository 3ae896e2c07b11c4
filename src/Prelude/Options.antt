-- ===== src/Prelude/Options.antt =====
-- Code that may fail (an access out of range, a failed assertion) as a chain of options.
use mathlib.Core.Path.{◌≡◌, refl}
use mathlib.Core.Bool.{Bool, true, false}
use mathlib.Core.Option.{Option, none, some}
use mathlib.Core.Option

infixl 5 ◌>>=◌ ◌>>◌
abbrev pub ◌>>=◌ {ℓ κ} : {A : Type ℓ} {B : Type κ} → Option A → (A → Option B) → Option B
none >>= f = none
some a >>= f = f a

abbrev pub ◌>>◌ {ℓ} : {B : Type ℓ} → Option (Unit {0}) → Option B → Option B
m >> k = m >>= λ _. k

-- `assert`: a failed assertion aborts the program.
abbrev pub guard : Bool → Option (Unit {0})
guard true = some tt
guard false = none

pub >>=-eq-some {ℓ κ} :
    {A : Type ℓ} {B : Type κ} (m : Option A) (f : A → Option B) {b : B}
    → (m >>= f) ≡ some b
    → (a : A) × (m ≡ some a) × (f a ≡ some b)
>>=-eq-some none f h = cc
>>=-eq-some (some a) f h = (a, refl, h)

-- A step whose result is known runs into the next one.
pub >>=_run {ℓ κ} :
    {A : Type ℓ} {B : Type κ} {m : Option A} {a : A} (f : A → Option B)
    → m ≡ some a
    → (m >>= f) ≡ f a
>>=_run f e = rw e

module _ {ℓ κ μ} {A : Type ℓ} {B : Type κ} {C : Type μ} where
  pub >>=_assoc :
      (m : Option A) (f : A → Option B) (g : B → Option C)
      → ((m >>= f) >>= g) ≡ (m >>= λ a. f a >>= g)
  >>=_assoc none f g = refl
  >>=_assoc (some a) f g = refl

module _ {ℓ κ} {A : Type ℓ} {B : Type κ} where
  pub >>=_ext : (m : Option A) (f g : A → Option B) → ((a : A) → f a ≡ g a) → (m >>= f) ≡ (m >>= g)
  >>=_ext none f g h = refl
  >>=_ext (some a) f g h = h a

-- Steps that commute with maps of their values.
module _ {ℓ κ μ ν} {A : Type ℓ} {A' : Type κ} {B : Type μ} {B' : Type ν} (f : A → A')
    (g : B → B') where
  pub bind-map :
      (m : Option A) (k : A → Option B) (k' : A' → Option B')
      → ((a : A) → k' (f a) ≡ Option.map g (k a))
      → (Option.map f m >>= k') ≡ Option.map g (m >>= k)
  bind-map none k k' h = refl
  bind-map (some a) k k' h = h a

  pub bind-map_of :
      (m : Option A) (m' : Option A') (k : A → Option B) (k' : A' → Option B')
      → m' ≡ Option.map f m
      → ((a : A) → k' (f a) ≡ Option.map g (k a))
      → (m' >>= k') ≡ Option.map g (m >>= k)
  bind-map_of m m' k k' e h = rw e (bind-map m k k' h)
