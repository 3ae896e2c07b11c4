-- ===== src/Stm/Tables.antt =====
-- Reads and writes in the tables of rm_server_stm.hpp: the records of the rounds, and the columns of
-- the shares.
use mathlib.Core.Option
use ab_prototype.Prelude.{
  ℕ, zero, suc, ◌+◌, ◌<◌, ◌≡◌, ◌≢◌, refl, sym, ap, Bool, true, false, Option, some, none, List, [],
  ◌∷◌, length, get_elem?, set?, >>=-eq-some, arith,
}
use ab_prototype.RmCommon.{number_of_truths}
use ab_prototype.RmCommon.Counts.{number_of_truths-cons}
use ab_prototype.Stm.State.{get2, set2, store_column}

pub map-eq-some {ℓ κ} :
    {B : Type ℓ} {C : Type κ} (f : B → C) (o : Option B) {c : C}
    → Option.map f o ≡ some c
    → (b : B) × (o ≡ some b) × (f b ≡ c)
map-eq-some f none h = cc
map-eq-some f (some b) h = (b, refl, Option.some-injective _ _ h)

module _ {ℓ} {B : Type ℓ} where
  pub get_elem?-set? :
      (i : ℕ) (v : B) (xs ys : List B) → set? xs i v ≡ some ys → get_elem? ys i ≡ some v
  get_elem?-set? i v [] ys h = cc
  get_elem?-set? zero v (x ∷ xs) ys h = rw (sym (Option.some-injective _ _ h)) refl
  get_elem?-set? (suc i) v (x ∷ xs) ys h =
      let (zs, e, f) = map-eq-some (◌∷◌ x) (set? xs i v) h in
      rw (sym f) (get_elem?-set? i v xs zs e)

  pub length-set? : (i : ℕ) (v : B) (xs ys : List B) → set? xs i v ≡ some ys → length ys ≡ length xs
  length-set? i v [] ys h = cc
  length-set? zero v (x ∷ xs) ys h = rw (sym (Option.some-injective _ _ h)) refl
  length-set? (suc i) v (x ∷ xs) ys h =
      let (zs, e, f) = map-eq-some (◌∷◌ x) (set? xs i v) h in
      rw (sym f) (ap suc (length-set? i v xs zs e))

module _ {ℓ} {B : Type ℓ} where
  -- A write into a table is one into its row.
  pub set2-row :
      (table table' : List (List B)) (i j : ℕ) (v : B)
      → set2 table i j v ≡ some table'
      → (row : List B) × (row' : List B) × (get_elem? table i ≡ some row)
        × (set? row j v ≡ some row')
        × (get_elem? table' i ≡ some row')
  unfolding set2
  set2-row table table' i j v h =
      let (row, e, h1) = >>=-eq-some (get_elem? table i) _ h in
      let (row', e', h2) = >>=-eq-some (set? row j v) _ h1 in
      (row, row', e, e', get_elem?-set? i row' table table' h2)

  pub get2-set2 :
      (table table' : List (List B)) (i j : ℕ) (v : B)
      → set2 table i j v ≡ some table'
      → get2 table' i j ≡ some v
  unfolding get2
  get2-set2 table table' i j v h =
      let (row, row', _, e, f) = set2-row table table' i j v h in
      rw f (get_elem?-set? j v row row' e)

module _ {ℓ} {B : Type ℓ} where
  pub get_elem?-set?_other :
      (i j : ℕ) (v : B) (xs ys : List B)
      → set? xs i v ≡ some ys
      → j ≢ i
      → get_elem? ys j ≡ get_elem? xs j
  get_elem?-set?_other i j v [] ys h ne = cc
  get_elem?-set?_other zero zero v (x ∷ xs) ys h ne = absurd (ne refl)
  get_elem?-set?_other zero (suc j) v (x ∷ xs) ys h ne = rw (sym (Option.some-injective _ _ h)) refl
  get_elem?-set?_other (suc i) zero v (x ∷ xs) ys h ne =
      let (zs, e, f) = map-eq-some (◌∷◌ x) (set? xs i v) h in rw (sym f) refl
  get_elem?-set?_other (suc i) (suc j) v (x ∷ xs) ys h ne =
      let (zs, e, f) = map-eq-some (◌∷◌ x) (set? xs i v) h in
      rw (sym f) (get_elem?-set?_other i j v xs zs e (omega arith))

  -- The first `blocks` rows have the body's elements in the column, and are as before elsewhere.
  pub store_column-get2 :
      (table table' : List (List B)) (body : List B) (blocks column : ℕ)
      → store_column table body blocks column ≡ some table'
      → (i : ℕ) → i < blocks
      → (get2 table' i column ≡ get_elem? body i)
        × ((j : ℕ) → j ≢ column → get2 table' i j ≡ get2 table i j)
  unfolding store_column get2
  store_column-get2 table table' body zero column h i lt = absurd (omega arith)
  store_column-get2 [] table' body (suc blocks) column h i lt = cc
  store_column-get2 (row ∷ table) table' [] (suc blocks) column h i lt = cc
  store_column-get2 (row ∷ table) table' (v ∷ body) (suc blocks) column h i lt =
      let (row', e, h1) = >>=-eq-some (set? row column v) _ h in
      let (rest, e', h2) = >>=-eq-some (store_column table body blocks column) _ h1 in
      rw (sym (Option.some-injective _ _ h2))
        (at_row i lt row' rest e (λ k. store_column-get2 table rest body blocks column e' k))
    where
      at_row :
          (i : ℕ)
          → i < suc blocks
          → (row' : List B) (rest : List (List B)) → set? row column v ≡ some row'
          → ((k : ℕ)
              → k < blocks
              → (get2 rest k column ≡ get_elem? body k)
                × ((j : ℕ) → j ≢ column → get2 rest k j ≡ get2 table k j))
          → (get2 (row' ∷ rest) i column ≡ get_elem? (v ∷ body) i)
            × ((j : ℕ) → j ≢ column → get2 (row' ∷ rest) i j ≡ get2 (row ∷ table) i j)
      at_row zero lt row' rest e others = (
        get_elem?-set? column v row row' e,
        λ j ne. get_elem?-set?_other column j v row row' e ne,
      )
      at_row (suc i) lt row' rest e others = others i (omega arith)

pub number_of_truths-set? :
    (vec vec' : List Bool) (i : ℕ)
    → get_elem? vec i ≡ some false
    → set? vec i true ≡ some vec'
    → number_of_truths vec' ≡ number_of_truths vec + 1
number_of_truths-set? [] vec' i h e = cc
number_of_truths-set? (b ∷ vec) vec' zero h e =
    let b-false : b ≡ false = Option.some-injective _ _ h in
    rw
      (
        sym (Option.some-injective _ _ e),
        b-false,
        number_of_truths-cons true vec,
        number_of_truths-cons false vec,
      )
      (omega arith)
number_of_truths-set? (b ∷ vec) vec' (suc i) h e =
    let (zs, e', f) = map-eq-some (◌∷◌ b) (set? vec i true) e in
    rw (sym f, number_of_truths-cons b zs, number_of_truths-cons b vec)
      (omega (arith, number_of_truths-set? vec zs i h e'))
