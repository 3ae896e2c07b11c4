-- ===== src/Stm/Swaps.antt =====
-- Writes of two servers in the tables of rm_server_stm.hpp, in either order.
use mathlib.Core.Option
use ab_prototype.Prelude.{
  ℕ, zero, suc, ◌≡◌, ◌≢◌, refl, sym, ap, ◌∙◌, some, List, [], ◌∷◌, get_elem?, set?, >>=-eq-some,
  >>=_run, arith,
}
use ab_prototype.Stm.State.{get2, set2, store_column}
use ab_prototype.Stm.Tables.{map-eq-some, get_elem?-set?, get_elem?-set?_other}

module _ {ℓ} {B : Type ℓ} where
  set?-swap :
      (i j : ℕ) (v w : B) (xs ys zs : List B)
      → i ≢ j
      → set? xs i v ≡ some ys
      → set? ys j w ≡ some zs
      → (us : List B) × (set? xs j w ≡ some us) × (set? us i v ≡ some zs)
  set?-swap i j v w [] ys zs ne h h' = cc
  set?-swap zero zero v w (x ∷ xs) ys zs ne h h' = absurd (ne refl)
  set?-swap zero (suc j) v w (x ∷ xs) ys zs ne h h' =
      let (rest, e, f) =
        map-eq-some (◌∷◌ v) (set? xs j w)
          (ap (λ l. set? l (suc j) w) (Option.some-injective _ _ h) ∙ h') in
      (x ∷ rest, rw e refl, ap some f)
  set?-swap (suc i) zero v w (x ∷ xs) ys zs ne h h' =
      let (rest, e, f) = map-eq-some (◌∷◌ x) (set? xs i v) h in
      (w ∷ xs, refl, ap (λ o. Option.map (◌∷◌ w) o) e ∙ ap (λ l. set? l 0 w) f ∙ h')
  set?-swap (suc i) (suc j) v w (x ∷ xs) ys zs ne h h' =
      let (rest, e, f) = map-eq-some (◌∷◌ x) (set? xs i v) h in
      let (rest', e', f') =
        map-eq-some (◌∷◌ x) (set? rest j w) (ap (λ l. set? l (suc j) w) f ∙ h') in
      let (us, a, b) = set?-swap i j v w xs rest rest' (omega arith) e e' in
      (x ∷ us, ap (λ o. Option.map (◌∷◌ x) o) a, ap (λ o. Option.map (◌∷◌ x) o) b ∙ ap some f')

  set?_twice :
      (i : ℕ) (v w : B) (xs ys : List B) → set? xs i v ≡ some ys → set? ys i w ≡ set? xs i w
  set?_twice i v w [] ys h = cc
  set?_twice zero v w (x ∷ xs) ys h = rw (sym (Option.some-injective _ _ h)) refl
  set?_twice (suc i) v w (x ∷ xs) ys h =
      let (rest, e, f) = map-eq-some (◌∷◌ x) (set? xs i v) h in
      rw (sym f) (ap (λ o. Option.map (◌∷◌ x) o) (set?_twice i v w xs rest e))

  set?_again :
      (i : ℕ) (v w : B) (xs ys : List B)
      → set? xs i v ≡ some ys
      → (zs : List B) × (set? xs i w ≡ some zs)
  set?_again i v w [] ys h = cc
  set?_again zero v w (x ∷ xs) ys h = (w ∷ xs, refl)
  set?_again (suc i) v w (x ∷ xs) ys h =
      let (rest, e, f) = map-eq-some (◌∷◌ x) (set? xs i v) h in
      let (zs, g) = set?_again i v w xs rest e in (x ∷ zs, rw g refl)

  pub store_column-swap :
      (n i j : ℕ) (b b' : List B) (table table1 table2 : List (List B))
      → i ≢ j
      → store_column table b n i ≡ some table1
      → store_column table1 b' n j ≡ some table2
      → (other : List (List B)) × (store_column table b' n j ≡ some other)
        × (store_column other b n i ≡ some table2)
  unfolding store_column
  store_column-swap zero i j b b' table table1 table2 ne h h' = (table, refl, h ∙ h')
  store_column-swap (suc n) i j b b' [] table1 table2 ne h h' = cc
  store_column-swap (suc n) i j [] b' (row ∷ table) table1 table2 ne h h' = cc
  store_column-swap (suc n) i j (v ∷ b) [] (row ∷ table) [] table2 ne h h' = cc
  store_column-swap (suc n) i j (v ∷ b) [] (row ∷ table) (row1 ∷ table1) table2 ne h h' = cc
  store_column-swap (suc n) i j (v ∷ b) (w ∷ b') (row ∷ table) table1 table2 ne h h' =
      let (row1, e, h1) = >>=-eq-some (set? row i v) _ h in
      let (rest1, e1, h2) = >>=-eq-some (store_column table b n i) _ h1 in
      let h'' : store_column (row1 ∷ rest1) (w ∷ b') (suc n) j ≡ some table2 =
        ap (λ t. store_column t (w ∷ b') (suc n) j) (Option.some-injective _ _ h2) ∙ h' in
      let (row2, f, h3) = >>=-eq-some (set? row1 j w) _ h'' in
      let (rest2, f1, h4) = >>=-eq-some (store_column rest1 b' n j) _ h3 in
      let (other, a, c) = set?-swap i j v w row row1 row2 ne e f in
      let (others, a', c') = store_column-swap n i j b b' table rest1 rest2 ne e1 f1 in
      (other ∷ others, >>=_run _ a ∙ >>=_run _ a', >>=_run _ c ∙ >>=_run _ c' ∙ h4)

module _ {ℓ} {B : Type ℓ} where
  pub set2-swap :
      (k i j : ℕ) (v w : B) (table table1 table2 : List (List B))
      → i ≢ j
      → set2 table k i v ≡ some table1
      → set2 table1 k j w ≡ some table2
      → (other : List (List B)) × (set2 table k j w ≡ some other) × (set2 other k i v ≡ some table2)
  unfolding set2
  set2-swap k i j v w table table1 table2 ne h h' =
      let (row, e, h1) = >>=-eq-some (get_elem? table k) _ h in
      let (row1, e1, h2) = >>=-eq-some (set? row i v) _ h1 in
      let (now, f, h3) = >>=-eq-some (get_elem? table1 k) _ h' in
      let (row2, f1, h4) = >>=-eq-some (set? now j w) _ h3 in
      let same : now ≡ row1 =
        Option.some-injective _ _ (sym f ∙ get_elem?-set? k row1 table table1 h2) in
      let (other, a, c) =
        set?-swap i j v w row row1 row2 ne e1 (ap (λ l. set? l j w) (sym same) ∙ f1) in
      let (table', a') = set?_again k row1 other table table1 h2 in
      (
        table',
        >>=_run _ e ∙ >>=_run _ a ∙ a',
        >>=_run _ (get_elem?-set? k other table table' a')
            ∙ >>=_run _ c
            ∙ set?_twice k other row2 table table' a'
            ∙ sym (set?_twice k row1 row2 table table1 h2)
            ∙ h4,
      )

  -- A write in another column of the same row leaves a place as it was.
  pub get2-set2_other :
      (k i j : ℕ) (v : B) (table table1 : List (List B))
      → j ≢ i
      → set2 table k i v ≡ some table1
      → get2 table1 k j ≡ get2 table k j
  unfolding set2 get2
  get2-set2_other k i j v table table1 ne h =
      let (row, e, h1) = >>=-eq-some (get_elem? table k) _ h in
      let (row1, e1, h2) = >>=-eq-some (set? row i v) _ h1 in
      >>=_run _ (get_elem?-set? k row1 table table1 h2)
      ∙ get_elem?-set?_other i j v row row1 e1 ne
      ∙ sym (>>=_run _ e)
