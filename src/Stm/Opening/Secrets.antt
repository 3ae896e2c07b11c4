-- ===== src/Stm/Opening/Secrets.antt =====
-- The batched opening of honest servers gives the secrets of the batch.
use mathlib.Core.List.{flatten}
use ab_prototype.Prelude.{
  ◌+◌, ◌-◌, ◌*◌, ◌≤◌, ◌<◌, ◌≡◌, refl, sym, ap, ◌∙◌, false, Bool, ◌&&◌, true, some, List, [], ◌∷◌,
  map, length, length-map, AllOf, count_from, map_ext, map-map, map-append, replicate, ◌==◌,
  >>=_run, arith,
}
use ab_prototype.ZzP.{ZzP}
use ab_prototype.RmCommon.{RmInfo}
use ab_prototype.SecretSharing.{Poly, gen_xvals, set_coeffs, rs_decode}
use ab_prototype.SecretSharing.Linear.{Linear, dot, powers, length-gen_xvals}
use ab_prototype.SecretSharing.RoundTrip.{rs_decode-values}
use ab_prototype.Stm.Batch.{reconstruct_blocks}
use ab_prototype.Stm.Opening.{store_columns, open_batch}
use ab_prototype.Stm.Opening.Columns.{traverse-map, traverse-count_from}
use ab_prototype.Stm.Opening.Honest.{
  secrets_of, IsOpenable, opening, expand_shares-blocks, table_of, open_at-expanded,
}

and-false : (b : Bool) → (b && false) ≡ false
and-false true = refl
and-false false = refl

module _ {A P : Type 0} ⦃z : ZzP A⦄ ⦃p : Poly A P⦄ (info : RmInfo) (lin : Linear A P) (g0 : P) where
  -- The openings of a block are the values of the polynomial of its secrets.
  decode-column :
      (fs : List P)
      → 2 * (info.l - 1) < info.n
      → IsOpenable info lin fs
      → rs_decode A P [] []
          (gen_xvals info.n)
          (map (λ x. opening info lin x fs) (gen_xvals info.n))
          g0
          (info.l - 1)
          info.l
        ≡ some (true, secrets_of fs, [])
  decode-column fs few h =
      let size : length (secrets_of fs) ≡ info.l = length-map (λ f. p.coeff f 0) fs ∙ h.sized in
      let f = set_coeffs A P p.zero_poly 0 (secrets_of fs) in
      let values : map (λ x. opening info lin x fs) (gen_xvals info.n)
          ≡ map (p.eval f) (gen_xvals info.n) =
        map_ext _ _
          (λ x.
            ap (λ l. dot (powers x l) (secrets_of fs)) (sym size)
            ∙ sym (lin.eval-set_coeffs (secrets_of fs) x))
          (gen_xvals info.n) in
      let coefficients : map (p.coeff f) (count_from info.l 0) ≡ secrets_of fs =
        ap (λ l. map (p.coeff f) (count_from l 0)) (sym size)
        ∙ lin.coeff-set_coeffs (secrets_of fs) in
      ap (λ shares. rs_decode A P [] [] (gen_xvals info.n) shares g0 (info.l - 1) info.l) values
      ∙ rs_decode-values A P (gen_xvals info.n) f g0 (info.l - 1) info.l h.column
          (omega (arith, length-gen_xvals A info.n))
      ∙ ap (λ secrets. some (true, secrets, [])) coefficients

  reconstruct_blocks-openings :
      (fss : List (List P))
      → 2 * (info.l - 1) < info.n
      → AllOf (IsOpenable info lin) fss
      → reconstruct_blocks A P info
          (gen_xvals info.n)
          g0
          (length fss)
          0
          []
          (map (λ fs. map (λ x. opening info lin x fs) (gen_xvals info.n)) fss)
        ≡ some (secrets_of (flatten fss))
  unfolding reconstruct_blocks flatten
  reconstruct_blocks-openings [] few h = refl
  reconstruct_blocks-openings (fs ∷ fss) few h =
      rw
        (
          and-false (length fss == 0),
          decode-column fs few h.0,
          reconstruct_blocks-openings fss few h.1,
          map-append (λ f. p.coeff f 0) fs (flatten fss),
        )
        refl

  -- Opening a batch gives its secrets: where every server holds the values, at its point, of the
  -- polynomials of the batch, expands them for the others, opens what it was sent and reconstructs
  -- what was opened, the batch that comes out is the list of the constant coefficients. The conditions
  -- are full blocks of l ≥ 1 polynomials, 4 t < n and 2 (l - 1) < n, and that NTL decodes as documented
  -- the combination that each server opens of a block, of degree 2 t, and the polynomial of a block's
  -- secrets, of degree l - 1.
  pub open_batch-shares :
      (fss : List (List P))
      → 1 ≤ info.l
      → 4 * info.t < info.n
      → 2 * (info.l - 1) < info.n
      → AllOf (IsOpenable info lin) fss
      → open_batch A P info
          (gen_xvals info.n)
          g0
          (length fss)
          (map (λ x. map (λ f. p.eval f x) (flatten fss)) (gen_xvals info.n))
        ≡ some (map (λ f. p.coeff f 0) (flatten fss))
  unfolding open_batch gen_xvals
  open_batch-shares fss pos few few' openable =
      >>=_run _
        (traverse-map _ _ _ (expand_shares-blocks info lin g0 fss openable pos) (gen_xvals info.n))
      ∙ >>=_run _ (
          traverse-count_from _ _ info.n 0
            (λ k j lt e. open_at-expanded info lin g0 fss openable j few (omega arith)))
      ∙ >>=_run _ (
          ap
            (λ openings.
              store_columns openings (replicate (length fss) (replicate info.n z.zero)) (length fss)
                0)
            (sym (
              map-map (λ x. map (opening info lin x) fss) (λ i. z.conv (i + 1))
                (count_from info.n 0)))
          ∙ table_of info lin g0 fss openable (λ fs x. opening info lin x fs))
      ∙ reconstruct_blocks-openings fss few' openable
