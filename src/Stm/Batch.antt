-- ===== src/Stm/Batch.antt =====
-- The batched opening of rm_server_stm.hpp: expanding shares for the servers, opening the expanded
-- shares, and reconstructing the batch. A failed assertion and an access out of range are `none`.
use ab_prototype.Prelude.{
  ℕ, zero, suc, ◌+◌, ◌-◌, ◌*◌, ◌%◌, Bool, true, not, ◌&&◌, Option, some, none, List, [], ◌∷◌, ◌++◌,
  length, get_elem?, leb, replicate, ◌==◌, if◌then◌else◌, guard, for_range, ◌>>=◌, ◌>>◌,
}
use ab_prototype.ZzP.{ZzP}
use ab_prototype.RmCommon.{RmInfo}
use ab_prototype.SecretSharing.{Poly, vandermonde_gen, rs_decode}
use ab_prototype.Stm.State.{
  MixState, state_id, Output, vector_to, Stm, num_blocks, set2, store_column,
}

module _ {A : Type 0} where
  -- A block of `size_block` elements from `pos` on.
  unfoldable pub get_block_to_open : List A → ℕ → ℕ → Option (List A)
  get_block_to_open input pos zero = some []
  get_block_to_open input pos (suc size_block) = do
    v ← get_elem? input pos
    rest ← get_block_to_open input (pos + 1) size_block
    some (v ∷ rest)

  unfoldable pub append_each : List (List A) → List A → List (List A)
  append_each [] input = []
  append_each (row ∷ out) [] = row ∷ out
  append_each (row ∷ out) (v ∷ input) = (row ++ (v ∷ [])) ∷ append_each out input

  -- Element i of the input goes to the end of vector i, if the sizes agree.
  unfoldable pub spread_block : List (List A) → List A → ℕ → List (List A)
  unfolding append_each
  spread_block out input n =
      if (length out == length input) && (length input == n) then append_each out input else out

module _ (A P : Type 0) ⦃z : ZzP A⦄ ⦃p : Poly A P⦄ where
  -- The expansion of the block at `pos`, spread over the servers.
  unfoldable pub expand_block : RmInfo → List A → ℕ → ℕ → List (List A) → Option (List (List A))
  expand_block info shares pos size out = do
    block ← get_block_to_open shares pos size
    some (spread_block out (p.mat_mul (vandermonde_gen info.n (size - 1)) block) info.n)

  -- The shares for each server. The loop runs over all blocks, also the last one if it is smaller.
  unfoldable pub expand_shares : RmInfo → List A → ℕ → ℕ → Option (List (List A))
  unfolding num_blocks
  expand_shares info shares blocks size_last = do
    guard (not (info.l == 0))
    guard ((num_blocks (length shares) info.l == blocks) && (length shares % info.l == size_last))
    out ←
        for_range (λ i. expand_block info shares (i * info.l) info.l) 0 blocks (replicate info.n [])
    (let last = expand_block info shares (blocks * info.l) size_last out in
        if size_last == 0 then some out else last)

  -- Whether a round of the loop over the servers is one's own.
  unfoldable pub is_server : RmInfo → Bool
  is_server info = leb 1 info.server_id && leb info.server_id info.n

  -- The loop over the servers: one's own vector is stored, any other is sent.
  unfoldable pub sends : RmInfo → ℕ → MixState → ℕ → List (List A) → List (Output A)
  sends info sid state i [] = []
  sends info sid state i (row ∷ rows) =
      let rest = sends info sid state (suc i) rows in
      if suc i == info.server_id then rest else vector_to i row sid (state_id state + 1) ∷ rest

  -- `batched_open_expand_send`.
  unfoldable pub batched_open_expand_send :
      RmInfo → List A → ℕ → ℕ → ℕ → Stm A P → Option (Stm A P × List (Output A))
  batched_open_expand_send info shares blocks size_last rd s = do
    expanded ← expand_shares info shares blocks size_last
    s' ←
        (let own = (do
          mine ← get_elem? expanded (info.server_id - 1)
          table ← store_column s.rec_exp_shares1 mine blocks (info.server_id - 1)
          status ← set2 s.msg_reception_status (rd - 1) (info.server_id - 1) true
          some (record s { rec_exp_shares1 = table; msg_reception_status = status })) in
          if is_server info then own else some s)
    some (s', sends info s.sid s.stm_state 0 expanded)

  -- The opening of the first `blocks` rows of expanded shares; 0 where the decoder fails.
  unfoldable pub open_rows : RmInfo → List A → P → ℕ → List (List A) → Option (List A)
  open_rows info xvals g0 zero rows = some []
  open_rows info xvals g0 (suc blocks) [] = none
  open_rows info xvals g0 (suc blocks) (row ∷ rows) = do
    guard (length row == info.n)
    (test, temp, errors) ← rs_decode A P [] [] xvals row g0 (2 * info.t) 1
    opened ← (let first = get_elem? temp 0 in if test then first else some z.zero)
    rest ← open_rows info xvals g0 blocks rows
    some (opened ∷ rest)

  -- What goes to the servers that are connected.
  unfoldable pub sends_connected :
      RmInfo → (ℕ → Bool) → ℕ → MixState → List A → ℕ → ℕ → List (Output A)
  sends_connected info connected sid state vec i zero = []
  sends_connected info connected sid state vec i (suc rounds) =
      let rest = sends_connected info connected sid state vec (suc i) rounds in
      if not (suc i == info.server_id) && connected i
      then vector_to i vec sid (state_id state + 1) ∷ rest
      else rest

  -- `open_exp_shares_to_all`, with the table of openings that it is given by reference.
  unfoldable pub open_exp_shares_to_all :
      RmInfo
      → (ℕ → Bool)
      → List (List A)
      → ℕ
      → ℕ
      → Stm A P
      → Option (Stm A P × List (List A) × List (Output A))
  open_exp_shares_to_all info connected ret_exp_openings blocks rd s = do
    opened ← open_rows info s.xvals s.g0 blocks s.rec_exp_shares1
    (s', table) ←
        (let own = (do
          table ← store_column ret_exp_openings opened blocks (info.server_id - 1)
          status ← set2 s.msg_reception_status (rd - 1) (info.server_id - 1) true
          some (record s { msg_reception_status = status }, table)) in
          if is_server info then own else some (s, ret_exp_openings))
    some (s', table, sends_connected info connected s.sid s.stm_state opened 0 info.n)

  -- `reconstruct_batched_shares`: `errors` is handed from one block to the next as it is left.
  unfoldable pub reconstruct_blocks :
      RmInfo → List A → P → ℕ → ℕ → List A → List (List A) → Option (List A)
  reconstruct_blocks info xvals g0 zero last_size errors rows = some []
  reconstruct_blocks info xvals g0 (suc blocks) last_size errors [] = none
  reconstruct_blocks info xvals g0 (suc blocks) last_size errors (row ∷ rows) = do
    let size = if (blocks == 0) && not (last_size == 0) then last_size else info.l
    (test, secrets, errors') ← rs_decode A P [] errors xvals row g0 (size - 1) size
    rest ← reconstruct_blocks info xvals g0 blocks last_size errors' rows
    some (secrets ++ rest)

  unfoldable pub reconstruct_batched_shares :
      RmInfo → Stm A P → List (List A) → ℕ → ℕ → Option (List A)
  reconstruct_batched_shares info s opened_exp_shares blocks last_size =
      reconstruct_blocks info s.xvals s.g0 blocks last_size [] opened_exp_shares
