-- ===== src/Client/Shares.antt =====
-- The vectors that the client program of rm_client_main.cpp makes for the servers: of every element
-- of the encoding, each server has its share, and at the same place.
use ab_prototype.Prelude.{
  ℕ, zero, suc, ◌+◌, ◌≡◌, refl, sym, ap, ◌∙◌, some, List, [], ◌∷◌, ◌++◌, length, get_elem?,
  append_assoc, append-nil, >>=-eq-some, arith,
}
use ab_prototype.ZzP.{ZzP}
use ab_prototype.SecretSharing.{Poly, packed_share_secret}
use ab_prototype.Client.{append_shares, share_elements}

module _ {A : Type 0} where
  -- Each row is extended by the share at its place.
  append_shares-get_elem? :
      (rows : List (List A)) (shares : List A) (rows' : List (List A)) (k : ℕ) (row' : List A)
      → append_shares rows shares ≡ some rows'
      → get_elem? rows' k ≡ some row'
      → (row : List A) × (share : A) × (get_elem? rows k ≡ some row)
        × (get_elem? shares k ≡ some share)
        × (row' ≡ row ++ (share ∷ []))
  unfolding append_shares
  append_shares-get_elem? [] shares rows' k row' e h =
      let nothing : [] ≡ rows' = cc in
      let h' : get_elem? {A = List A} [] k ≡ some row' = ap (λ r. get_elem? r k) nothing ∙ h in cc
  append_shares-get_elem? (row ∷ rows) [] rows' k row' e h = cc
  append_shares-get_elem? (row ∷ rows) (share ∷ shares) rows' zero row' e h =
      let (others, run, eq) = >>=-eq-some (append_shares rows shares) _ e in
      let whole : (row ++ (share ∷ [])) ∷ others ≡ rows' = cc in
      let first : some (row ++ (share ∷ [])) ≡ some row' = ap (λ r. get_elem? r 0) whole ∙ h in
      (row, share, refl, refl, cc)
  append_shares-get_elem? (row ∷ rows) (share ∷ shares) rows' (suc k) row' e h =
      let (others, run, eq) = >>=-eq-some (append_shares rows shares) _ e in
      let whole : (row ++ (share ∷ [])) ∷ others ≡ rows' = cc in
      append_shares-get_elem? rows shares others k row' run
        (ap (λ r. get_elem? r (suc k)) whole ∙ h)

  length-append_shares :
      (rows : List (List A)) (shares : List A) (rows' : List (List A))
      → append_shares rows shares ≡ some rows'
      → length rows' ≡ length rows
  unfolding append_shares
  length-append_shares [] shares rows' e = let nothing : [] ≡ rows' = cc in ap length (sym nothing)
  length-append_shares (row ∷ rows) [] rows' e = cc
  length-append_shares (row ∷ rows) (share ∷ shares) rows' e =
      let (others, run, eq) = >>=-eq-some (append_shares rows shares) _ e in
      let whole : (row ++ (share ∷ [])) ∷ others ≡ rows' = cc in
      ap length (sym whole) ∙ ap suc (length-append_shares rows shares others run)

module _ (A P : Type 0) ⦃z : ZzP A⦄ ⦃p : Poly A P⦄ (xvals : List A) (t : ℕ)
    (random : ℕ → ℕ → A) where
  -- A row after the loop is the row before it and the shares of the elements, in their order.
  unfoldable pub HasShares : List A → ℕ → ℕ → List A → Type 0
  HasShares encoding j k tail =
      (length tail ≡ length encoding)
      × ((i : ℕ) (x : A)
          → get_elem? encoding i ≡ some x
          → (shares : List A) × (packed_share_secret A P xvals (x ∷ []) t (random (j + i))
              ≡ some shares)
            × (get_elem? tail i ≡ get_elem? shares k))

  HasShares-cons :
      (x : A) (encoding : List A) (j k : ℕ) (shares : List A) (share : A) (tail : List A)
      → packed_share_secret A P xvals (x ∷ []) t (random j) ≡ some shares
      → get_elem? shares k ≡ some share
      → HasShares encoding (suc j) k tail
      → HasShares (x ∷ encoding) j k (share ∷ tail)
  unfolding HasShares
  HasShares-cons x encoding j k shares share tail run h (l, rest) = (ap suc l, at)
    where
      at :
          (i : ℕ) (y : A)
          → get_elem? (x ∷ encoding) i ≡ some y
          → (shares' : List A) × (packed_share_secret A P xvals (y ∷ []) t (random (j + i))
              ≡ some shares')
            × (get_elem? (share ∷ tail) i ≡ get_elem? shares' k)
      at zero y e =
          let same : x ≡ y = cc in
          let here : j + 0 ≡ j = omega arith in (shares, rw (here, ← same) run, sym h)
      at (suc i) y e = let here : j + suc i ≡ suc j + i = omega arith in rw here (rest i y e)

  pub share_elements-HasShares :
      (encoding : List A) (j : ℕ) (shared shared' : List (List A)) (k : ℕ) (row' : List A)
      → share_elements A P xvals t random encoding j shared ≡ some shared'
      → get_elem? shared' k ≡ some row'
      → (row : List A) × (tail : List A) × (get_elem? shared k ≡ some row)
        × (row' ≡ row ++ tail)
        × HasShares encoding j k tail
  unfolding share_elements HasShares
  share_elements-HasShares [] j shared shared' k row' e h =
      let same : shared ≡ shared' = cc in
      (row', [], rw same h, sym (append-nil row'), (refl, λ i x q. cc))
  share_elements-HasShares (x ∷ encoding) j shared shared' k row' e h =
      let (shares, run, e1) =
        >>=-eq-some (packed_share_secret A P xvals (x ∷ []) t (random j)) _ e in
      let (next, appended, e2) = >>=-eq-some (append_shares shared shares) _ e1 in
      let (row1, tail, at, eq, has) =
        share_elements-HasShares encoding (suc j) next shared' k row' e2 h in
      let (row, share, before, at_share, grown) =
        append_shares-get_elem? shared shares next k row1 appended at in
      (
        row,
        share ∷ tail,
        before,
        eq ∙ ap (λ r. r ++ tail) grown ∙ append_assoc row (share ∷ []) tail,
        HasShares-cons x encoding j k shares share tail run at_share has,
      )
