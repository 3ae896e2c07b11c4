-- ===== src/Stm/Opening/Expand.antt =====
-- `batched_open_expand_send`: what the expansion of full blocks of shares is.
use mathlib.Core.List.{flatten}
use native.Mathlib.Nat.{mul-div_cancel, mul-mod_left}
use ab_prototype.Prelude.{
  ℕ, suc, ◌+◌, ◌-◌, ◌*◌, ◌/◌, ◌%◌, ◌≤◌, ◌≡◌, refl, sym, ap, ◌∙◌, true, some, List, [], ◌∷◌, ◌++◌,
  map, length, length-map, length-append, get_elem?-append_right, replicate, AllOf, for_rounds,
  for_range, ==_iff, >>=_run, false, append_assoc, append-nil, map_ext, map-map, ◌==◌, ◌&&◌, arith,
}
use ab_prototype.ZzP.{ZzP}
use ab_prototype.RmCommon.{RmInfo}
use ab_prototype.SecretSharing.{Poly, vandermonde_gen, gen_xvals}
use ab_prototype.SecretSharing.Linear.{Linear, dot, powers, vandermonde_gen-rows, length-gen_xvals}
use ab_prototype.Stm.State.{num_blocks}
use ab_prototype.Stm.Batch.{
  get_block_to_open, append_each, spread_block, expand_block, expand_shares,
}
use ab_prototype.Stm.Opening.Columns.{replicate-map}

module _ {A : Type 0} where
  get_block_to_open-middle :
      (before block after : List A)
      → get_block_to_open (before ++ (block ++ after)) (length before) (length block) ≡ some block
  unfolding get_block_to_open
  get_block_to_open-middle before [] after = refl
  get_block_to_open-middle before (v ∷ block) after =
      let next : get_block_to_open (before ++ (v ∷ (block ++ after))) (length before + 1)
            (length block)
          ≡ some block =
        ap (λ k. get_block_to_open (before ++ (v ∷ (block ++ after))) k (length block))
          (sym (length-append before (v ∷ [])))
        ∙ ap (λ xs. get_block_to_open xs (length (before ++ (v ∷ []))) (length block))
            (sym (append_assoc before (v ∷ []) (block ++ after)))
        ∙ get_block_to_open-middle (before ++ (v ∷ [])) block after in
      rw
        (get_elem?-append_right before (v ∷ (block ++ after)) 0 (length before) (omega arith), next)
        refl

  append_each-map {ℓ} :
      {R : Type ℓ} (g : R → List A) (h : R → A) (rs : List R)
      → append_each (map g rs) (map h rs) ≡ map (λ r. g r ++ (h r ∷ [])) rs
  unfolding append_each
  append_each-map g h [] = refl
  append_each-map g h (r ∷ rs) = rw (append_each-map g h rs)

  spread_block-map {ℓ} :
      {R : Type ℓ} (g : R → List A) (h : R → A) (rs : List R)
      → spread_block (map g rs) (map h rs) (length rs) ≡ map (λ r. g r ++ (h r ∷ [])) rs
  unfolding spread_block
  spread_block-map g h rs =
      let same : ((length (map g rs) == length (map h rs)) && (length (map h rs) == length rs))
          ≡ true =
        ground (arith, length-map g rs, length-map h rs) in
      rw same (append_each-map g h rs)

  -- Blocks of one size.
  abbrev pub AllSized : ℕ → List (List A) → Type 0
  AllSized l bs = AllOf (λ b. length b ≡ l) bs

  length-flatten :
      (l : ℕ) (bs : List (List A)) → AllSized l bs → length (flatten bs) ≡ length bs * l
  unfolding flatten
  length-flatten l [] h = omega arith
  length-flatten l (b ∷ bs) h =
      omega (arith, length-append b (flatten bs), h.0, length-flatten l bs h.1)

module _ {A : Type 0} (P : Type 0) ⦃z : ZzP A⦄ ⦃p : Poly A P⦄ (info : RmInfo) (lin : Linear A P)
    (pos : 1 ≤ info.l) where
  -- A block of the shares, expanded for the server at x.
  abbrev pub expanded_for : A → List A → A
  expanded_for x block = dot (powers x info.l) block

  expand_block-middle :
      (before block after : List A) (k : ℕ) (g : A → List A)
      → k ≡ length before
      → length block ≡ info.l
      → expand_block A P info (before ++ (block ++ after)) k info.l (map g (gen_xvals info.n))
        ≡ some (map (λ x. g x ++ (expanded_for x block ∷ [])) (gen_xvals info.n))
  unfolding expand_block
  expand_block-middle before block after k g ek el =
      let taken : get_block_to_open (before ++ (block ++ after)) k info.l ≡ some block =
        rw (ek, sym el) (get_block_to_open-middle before block after) in
      let product : p.mat_mul (vandermonde_gen info.n (info.l - 1)) block
          ≡ map (λ x. expanded_for x block) (gen_xvals info.n) =
        ap (λ rows. p.mat_mul rows block) (vandermonde_gen-rows info.n info.l pos)
        ∙ lin.mat_mul_lem _ block
        ∙ map-map (λ row. dot row block) (λ x. powers x info.l) (gen_xvals info.n) in
      rw (taken, product)
        (ap some (
          ap
            (spread_block (map g (gen_xvals info.n))
              (map (λ x. expanded_for x block) (gen_xvals info.n)))
            (sym (length-gen_xvals A info.n))
          ∙ spread_block-map g (λ x. expanded_for x block) (gen_xvals info.n)))

  -- The loop from a block on, after what it has appended.
  expand_rounds :
      (bs : List (List A)) (before : List A) (i : ℕ) (g : A → List A)
      → length before ≡ i * info.l
      → AllSized info.l bs
      → for_rounds
          (λ j. expand_block A P info (before ++ flatten bs) (j * info.l) info.l)
          (length bs)
          i
          (map g (gen_xvals info.n))
        ≡ some (map (λ x. g x ++ map (expanded_for x) bs) (gen_xvals info.n))
  unfolding for_rounds flatten
  expand_rounds [] before i g e h =
      ap some (map_ext _ _ (λ x. sym (append-nil (g x))) (gen_xvals info.n))
  expand_rounds (b ∷ bs) before i g e h =
      rw (expand_block-middle before b (flatten bs) (i * info.l) g (sym e) h.0) (
        ap
          (λ shares.
            for_rounds (λ j. expand_block A P info shares (j * info.l) info.l) (length bs) (suc i)
              (map (λ x. g x ++ (expanded_for x b ∷ [])) (gen_xvals info.n)))
          (sym (append_assoc before b (flatten bs)))
        ∙ expand_rounds bs (before ++ b) (suc i) (λ x. g x ++ (expanded_for x b ∷ []))
            (omega (arith, length-append before b, e, h.0)) h.1
        ∙ ap some (
            map_ext _ _ (λ x. append_assoc (g x) (expanded_for x b ∷ []) (map (expanded_for x) bs))
              (gen_xvals info.n)))

  -- Each server gets the value of each block at its point.
  pub expand_shares-flatten :
      (bs : List (List A))
      → AllSized info.l bs
      → expand_shares A P info (flatten bs) (length bs) 0
        ≡ some (map (λ x. map (expanded_for x) bs) (gen_xvals info.n))
  unfolding expand_shares num_blocks for_range
  expand_shares-flatten bs h =
      let whole : length (flatten bs) % info.l ≡ 0 =
        ap (λ k. k % info.l) (length-flatten info.l bs h) ∙ mul-mod_left (length bs) info.l in
      let parts : length (flatten bs) / info.l ≡ length bs =
        ap (λ k. k / info.l) (length-flatten info.l bs h) ∙ mul-div_cancel (length bs) pos in
      let some_size : (info.l == 0) ≡ false = ground arith in
      let same : (length bs == length bs) ≡ true = (==_iff (length bs) (length bs)).1 refl in
      let rounds : length bs - 0 ≡ length bs = omega arith in
      let start : replicate {A = List A} info.n [] ≡ map (λ (x : A). []) (gen_xvals info.n) =
        ap (λ n. replicate n []) (sym (length-gen_xvals A info.n))
        ∙ replicate-map [] (gen_xvals info.n) in
      rw (whole, parts, some_size, same, rounds, start)
        (>>=_run _ (expand_rounds bs [] 0 (λ x. []) (omega arith) h))
