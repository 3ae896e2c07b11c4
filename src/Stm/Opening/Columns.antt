-- ===== src/Stm/Opening/Columns.antt =====
-- Tables of the batched opening that are filled column by column.
use ab_prototype.Prelude.{
  ℕ, zero, suc, ◌+◌, ◌<◌, ◌≡◌, refl, sym, ap, ◌∙◌, Option, some, List, [], ◌∷◌, ◌++◌, map, length,
  length-append, set?-append, replicate, count_from, append_assoc, map_ext, arith,
}
use ab_prototype.Stm.State.{store_column}
use ab_prototype.Stm.Opening.{traverse, store_columns}

pub traverse-map {ℓ κ μ} :
    {B : Type ℓ} {C : Type κ} {D : Type μ} (f : C → Option D) (g : B → C) (h : B → D)
    → ((b : B) → f (g b) ≡ some (h b))
    → (xs : List B) → traverse f (map g xs) ≡ some (map h xs)
unfolding traverse
traverse-map f g h e [] = refl
traverse-map f g h e (x ∷ xs) = rw (e x, traverse-map f g h e xs) refl

pub traverse-count_from {ℓ} :
    {D : Type ℓ} (f : ℕ → Option D) (h : ℕ → D) (n i : ℕ)
    → ((t j : ℕ) → t < n → j ≡ i + t → f j ≡ some (h j))
    → traverse f (count_from n i) ≡ some (map h (count_from n i))
unfolding traverse
traverse-count_from f h zero i e = refl
traverse-count_from f h (suc n) i e =
    rw
      (
        e 0 i (omega arith) (omega arith),
        traverse-count_from f h n (suc i) (λ t j l k. e (suc t) j (omega arith) (omega arith)),
      )
      refl

module _ {ℓ κ} {R : Type ℓ} {B : Type κ} where
  pub store_column-map :
      (h : R → B) (g : R → List B) (y : B) (ys : List B) (i : ℕ)
      → ((r : R) → i ≡ length (g r))
      → (rs : List R)
      → store_column (map (λ r. g r ++ (y ∷ ys)) rs) (map h rs) (length rs) i
        ≡ some (map (λ r. g r ++ (h r ∷ ys)) rs)
  unfolding store_column
  store_column-map h g y ys i e [] = refl
  store_column-map h g y ys i e (r ∷ rs) =
      rw (set?-append (g r) y ys i (h r) (e r), store_column-map h g y ys i e rs) refl

module _ {ℓ κ μ} {R : Type ℓ} {C : Type κ} {B : Type μ} where
  -- Vectors with an element for each row, stored one after the other.
  pub store_columns-map :
      (f : R → C → B) (a : B) (rs : List R) (cs : List C) (g : R → List B) (i : ℕ)
      → ((r : R) → i ≡ length (g r))
      → store_columns
          (map (λ c. map (λ r. f r c) rs) cs)
          (map (λ r. g r ++ replicate (length cs) a) rs)
          (length rs)
          i
        ≡ some (map (λ r. g r ++ map (f r) cs) rs)
  unfolding store_columns
  store_columns-map f a rs [] g i e = refl
  store_columns-map f a rs (c ∷ cs) g i e =
      rw (store_column-map (λ r. f r c) g a (replicate (length cs) a) i e rs) (
        ap (λ table. store_columns (map (λ c'. map (λ r. f r c') rs) cs) table (length rs) (suc i))
          (map_ext _ _ (λ r. sym (append_assoc (g r) (f r c ∷ []) (replicate (length cs) a))) rs)
        ∙ store_columns-map f a rs cs (λ r. g r ++ (f r c ∷ [])) (suc i)
            (λ r. omega (arith, length-append (g r) (f r c ∷ []), e r))
        ∙ ap some (map_ext _ _ (λ r. append_assoc (g r) (f r c ∷ []) (map (f r) cs)) rs))

pub replicate-map {ℓ κ} :
    {R : Type ℓ} {B : Type κ} (b : B) (rs : List R) → replicate (length rs) b ≡ map (λ r. b) rs
replicate-map b [] = refl
replicate-map b (r ∷ rs) = rw (replicate-map b rs)
