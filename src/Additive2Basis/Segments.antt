-- ===== src/Additive2Basis/Segments.antt =====
-- The lists that the progressions of the basis append, indexed.
use ab_prototype.Prelude.{
  ℕ, zero, suc, ◌+◌, ◌*◌, ◌<◌, ◌≡◌, refl, ap, sym, ◌∙◌, List, [], ◌∷◌, ◌++◌, map, map-append,
  append_assoc, append-nil, some, length, get_elem?, arith,
}
use ab_prototype.Additive2Basis.{progression}

module _ {ℓ} {B : Type ℓ} (f : ℕ → B) where
  -- f (a + step), f (a + 2 * step), … up to n terms.
  unfoldable pub segment : ℕ → ℕ → ℕ → List B
  segment zero step a = []
  segment (suc n) step a = f (a + step) ∷ segment n step (a + step)

  pub progression-segment :
      (n step a : ℕ) (out : List B) → progression f n step a out ≡ out ++ segment n step a
  unfolding progression segment
  progression-segment zero step a out = sym (append-nil out)
  progression-segment (suc n) step a out =
      progression-segment n step (a + step) (out ++ (f (a + step) ∷ []))
      ∙ append_assoc out (f (a + step) ∷ []) (segment n step (a + step))

  pub length-segment : (n step a : ℕ) → length (segment n step a) ≡ n
  unfolding segment
  length-segment zero step a = refl
  length-segment (suc n) step a = ap suc (length-segment n step (a + step))

  pub get_elem?-segment :
      (n step a t e : ℕ)
      → t < n
      → e ≡ a + (t + 1) * step
      → get_elem? (segment n step a) t ≡ some (f e)
  unfolding segment
  get_elem?-segment zero step a t e h k = absurd (omega arith)
  get_elem?-segment (suc n) step a zero e h k = let k' : a + step ≡ e = omega arith in rw k'
  get_elem?-segment (suc n) step a (suc t) e h k =
      get_elem?-segment n step (a + step) t e (omega arith) (omega arith)

pub map-progression {ℓ κ} :
    {B : Type ℓ} {C : Type κ} (g : B → C) (f : ℕ → B) (n step a : ℕ) (out : List B)
    → map g (progression f n step a out) ≡ progression (λ x. g (f x)) n step a (map g out)
unfolding progression
map-progression g f zero step a out = refl
map-progression g f (suc n) step a out =
    map-progression g f n step (a + step) (out ++ (f (a + step) ∷ []))
    ∙ ap (progression (λ x. g (f x)) n step (a + step)) (map-append g out (f (a + step) ∷ []))
