-- ===== src/Stm/Opening/Honest.antt =====
-- The batched opening of honest servers, up to what each of them opens.
use mathlib.Core.List.{flatten}
use ab_prototype.Prelude.{
  ℕ, ◌+◌, ◌-◌, ◌*◌, ◌≤◌, ◌<◌, ◌≡◌, refl, sym, ap, subst, ◌∙◌, true, some, List, [], ◌∷◌, ◌++◌, map,
  length, length-map, get_elem?, get_elem?-map, get_elem?-count_from, replicate, AllOf, AllOf-map,
  AllOf-map-count_from_at, count_from, map_ext, map-map, map-append, ◌==◌, ==_iff, >>=_run, arith,
}
use ab_prototype.ZzP.{ZzP}
use ab_prototype.RmCommon.{RmInfo}
use ab_prototype.SecretSharing.{Poly, gen_xvals, set_coeffs}
use ab_prototype.SecretSharing.Linear.{Linear, dot, powers, length-gen_xvals}
use ab_prototype.SecretSharing.RoundTrip.{IsDecodable, rs_decode-values}
use ab_prototype.Stm.Batch.{expand_shares, open_rows}
use ab_prototype.Stm.Opening.{traverse, store_columns, open_at}
use ab_prototype.Stm.Opening.Columns.{traverse-map, store_columns-map, replicate-map}
use ab_prototype.Stm.Opening.Expand.{AllSized, expand_shares-flatten}

map-flatten {ℓ κ} :
    {B : Type ℓ} {C : Type κ} (f : B → C) (bs : List (List B))
    → map f (flatten bs) ≡ flatten (map (map f) bs)
unfolding flatten
map-flatten f [] = refl
map-flatten f (b ∷ bs) = map-append f b (flatten bs) ∙ ap (◌++◌ (map f b)) (map-flatten f bs)

module _ {A P : Type 0} ⦃z : ZzP A⦄ ⦃p : Poly A P⦄ where
  abbrev pub secrets_of : List P → List A
  secrets_of = map (λ f. p.coeff f 0)

  open_rows-values :
      (info : RmInfo) (g0 : P) (hs : List P)
      → 4 * info.t < info.n
      → AllOf (IsDecodable A P (gen_xvals info.n) (2 * info.t)) hs
      → open_rows A P info
          (gen_xvals info.n)
          g0
          (length hs)
          (map (λ h. map (p.eval h) (gen_xvals info.n)) hs)
        ≡ some (secrets_of hs)
  unfolding open_rows
  open_rows-values info g0 [] few all = refl
  open_rows-values info g0 (h ∷ hs) few all =
      let full : (length (map (p.eval h) (gen_xvals info.n)) == info.n) ≡ true =
        (==_iff _ _).1 (length-map (p.eval h) (gen_xvals info.n) ∙ length-gen_xvals A info.n) in
      let decoded =
        rs_decode-values A P (gen_xvals info.n) h g0 (2 * info.t) 1 all.0
          (omega (arith, length-gen_xvals A info.n)) in
      rw (full, decoded, open_rows-values info g0 hs few all.1) refl

module _ {A P : Type 0} ⦃z : ZzP A⦄ ⦃p : Poly A P⦄ (info : RmInfo) (lin : Linear A P) where
  -- What a block of the batch is opened by: the combination that the server at x opens, and the
  -- polynomial of the secrets, can both be decoded at the points of the servers.
  pub record IsOpenable (fs : List P) : Type 0 where
    pub sized : length fs ≡ info.l
    pub rows :
        AllOf
          (λ x. IsDecodable A P (gen_xvals info.n) (2 * info.t) (lin.combine (powers x info.l) fs))
          (gen_xvals info.n)
    pub column :
        IsDecodable A P
          (gen_xvals info.n)
          (info.l - 1)
          (set_coeffs A P p.zero_poly 0 (secrets_of fs))

  -- What the server at x opens of a block.
  abbrev pub opening : A → List P → A
  opening x fs = dot (powers x info.l) (secrets_of fs)

  module _ (g0 : P) (fss : List (List P)) (openable : AllOf IsOpenable fss) where
    abbrev pub blocks_at : A → List (List A)
    blocks_at y = map (map (λ f. p.eval f y)) fss

    blocks_at-AllSized : (y : A) → AllSized info.l (blocks_at y)
    blocks_at-AllSized y =
        AllOf-map IsOpenable (λ b. length b ≡ info.l) (map (λ f. p.eval f y))
          (λ fs h. length-map (λ f. p.eval f y) fs ∙ h.sized) fss openable

    pub expand_shares-blocks :
        1 ≤ info.l
        → (y : A)
        → expand_shares A P info (map (λ f. p.eval f y) (flatten fss)) (length fss) 0
          ≡ some (map (λ x. map (dot (powers x info.l)) (blocks_at y)) (gen_xvals info.n))
    expand_shares-blocks pos y =
        ap (λ shares. expand_shares A P info shares (length fss) 0)
          (map-flatten (λ f. p.eval f y) fss)
        ∙ ap (λ n. expand_shares A P info (flatten (blocks_at y)) n 0)
            (sym (length-map (map (λ f. p.eval f y)) fss))
        ∙ expand_shares-flatten P info lin pos (blocks_at y) (blocks_at-AllSized y)

    -- The combinations that the server at x opens.
    abbrev rows_at : A → List P
    rows_at x = map (lin.combine (powers x info.l)) fss

    rows_at-IsDecodable :
        (k : ℕ)
        → k < info.n
        → AllOf (IsDecodable A P (gen_xvals info.n) (2 * info.t)) (rows_at (z.conv (k + 1)))
    unfolding gen_xvals
    rows_at-IsDecodable k lt =
        AllOf-map IsOpenable (IsDecodable A P (gen_xvals info.n) (2 * info.t))
          (lin.combine (powers (z.conv (k + 1)) info.l))
          (λ fs h.
            subst (at_point fs) (the_point k)
              (AllOf-map-count_from_at (at_value fs) (λ i. z.conv (i + 1)) info.n 0 k h.rows lt))
          fss openable
      where
        at_value : List P → A → Type 0
        at_value fs x =
            IsDecodable A P (gen_xvals info.n) (2 * info.t) (lin.combine (powers x info.l) fs)

        at_point : List P → ℕ → Type 0
        at_point fs i = at_value fs (z.conv (i + 1))

        the_point : (i : ℕ) → 0 + i ≡ i
        the_point i = omega arith

    -- The vectors that the servers sent to server k.
    vectors_at :
        (k : ℕ)
        → k < info.n
        → traverse
            (λ rows. get_elem? rows k)
            (map
              (λ y. map (λ x. map (dot (powers x info.l)) (blocks_at y)) (gen_xvals info.n))
              (gen_xvals info.n))
          ≡ some (
              map
                (λ y. map (λ fs. p.eval (lin.combine (powers (z.conv (k + 1)) info.l) fs) y) fss)
                (gen_xvals info.n))
    unfolding gen_xvals
    vectors_at k lt =
        traverse-map (λ rows. get_elem? rows k) _ _
          (λ y.
            get_elem?-map (λ x. map (dot (powers x info.l)) (blocks_at y)) (gen_xvals info.n) k
              (get_elem?-map (λ i. z.conv (i + 1)) (count_from info.n 0) k
                (get_elem?-count_from info.n k 0 lt ∙ ap some (omega arith)))
            ∙ ap some (
                map-map _ _ fss
                ∙ map_ext _ _ (λ fs. sym (lin.eval-combine (powers (z.conv (k + 1)) info.l) fs y))
                    fss))
          (gen_xvals info.n)

    -- A table without values, filled with the vectors of all servers.
    pub table_of :
        (f : List P → A → A)
        → store_columns
            (map (λ x. map (λ fs. f fs x) fss) (gen_xvals info.n))
            (replicate (length fss) (replicate info.n z.zero))
            (length fss)
            0
          ≡ some (map (λ fs. map (f fs) (gen_xvals info.n)) fss)
    table_of f =
        ap
          (λ table.
            store_columns (map (λ x. map (λ fs. f fs x) fss) (gen_xvals info.n)) table (length fss)
              0)
          (ap (λ n. replicate (length fss) (replicate n z.zero)) (sym (length-gen_xvals A info.n))
            ∙ replicate-map (replicate (length {A = A} (gen_xvals info.n)) z.zero) fss)
        ∙ store_columns-map f z.zero fss (gen_xvals info.n) (λ fs. []) 0 (λ fs. refl)

    open_rows-rows_at :
        (k : ℕ)
        → 4 * info.t < info.n
        → k < info.n
        → open_rows A P info (gen_xvals info.n) g0 (length fss) (
            map
              (λ fs.
                map (p.eval (lin.combine (powers (z.conv (k + 1)) info.l) fs)) (gen_xvals info.n))
              fss)
          ≡ some (map (opening (z.conv (k + 1))) fss)
    open_rows-rows_at k few lt =
        let x = z.conv (k + 1) in
        ap (open_rows A P info (gen_xvals info.n) g0 (length fss)) (
          sym
            (map-map (λ h. map (p.eval h) (gen_xvals info.n)) (lin.combine (powers x info.l)) fss))
        ∙ ap
            (λ n.
              open_rows A P info (gen_xvals info.n) g0 n
                (map (λ h. map (p.eval h) (gen_xvals info.n)) (rows_at x)))
            (sym (length-map (lin.combine (powers x info.l)) fss))
        ∙ open_rows-values info g0 (rows_at x) few (rows_at-IsDecodable k lt)
        ∙ ap some (
            map-map (λ h. p.coeff h 0) (lin.combine (powers x info.l)) fss
            ∙ map_ext _ _ (λ fs. lin.coeff-combine (powers x info.l) fs 0) fss)

    pub open_at-expanded :
        (k : ℕ)
        → 4 * info.t < info.n
        → k < info.n
        → open_at A P info
            (gen_xvals info.n)
            g0
            (length fss)
            (map
              (λ y. map (λ x. map (dot (powers x info.l)) (blocks_at y)) (gen_xvals info.n))
              (gen_xvals info.n))
            k
          ≡ some (map (opening (z.conv (k + 1))) fss)
    unfolding open_at
    open_at-expanded k few lt =
        >>=_run _ (vectors_at k lt)
        ∙ >>=_run _ (table_of (λ fs. p.eval (lin.combine (powers (z.conv (k + 1)) info.l) fs)))
        ∙ open_rows-rows_at k few lt
