-- ===== src/Stm/Opening.antt =====
-- The batched opening of rm_server_stm.hpp over all servers, each of which is honest: what a server
-- sends to another is a column of the other's table.
mod Columns
mod Expand
pub mod Honest
pub mod Secrets
mod Tests
use mathlib.Core.List.{flatten}
use ab_prototype.Prelude.{
  ℕ, suc, Option, some, List, [], ◌∷◌, map, get_elem?, replicate, count_from, ◌>>=◌,
}
use ab_prototype.ZzP.{ZzP}
use ab_prototype.RmCommon.{RmInfo}
use ab_prototype.SecretSharing.{Poly}
use ab_prototype.Stm.State.{store_column}
use ab_prototype.Stm.Batch.{expand_shares, open_rows, reconstruct_blocks}

-- A step for each element, all of which must succeed.
unfoldable pub traverse {ℓ κ} :
    {B : Type ℓ} {C : Type κ} → (B → Option C) → List B → Option (List C)
traverse f [] = some []
traverse f (x ∷ xs) = do y ← f x; ys ← traverse f xs; some (y ∷ ys)

-- The vectors of the servers from server i on, as columns.
unfoldable pub store_columns {ℓ} :
    {B : Type ℓ} → List (List B) → List (List B) → ℕ → ℕ → Option (List (List B))
store_columns [] table blocks i = some table
store_columns (vector ∷ vectors) table blocks i = do
  table' ← store_column table vector blocks i
  store_columns vectors table' blocks (suc i)

module _ (A P : Type 0) ⦃z : ZzP A⦄ ⦃p : Poly A P⦄ (info : RmInfo) (xvals : List A) (g0 : P)
    (blocks : ℕ) where
  abbrev empty_table : List (List A)
  empty_table = replicate blocks (replicate info.n z.zero)

  -- What server k opens, of the vectors that all servers expanded.
  unfoldable pub open_at : List (List (List A)) → ℕ → Option (List A)
  unfolding traverse store_columns
  open_at expanded k = do
    vectors ← traverse (λ rows. get_elem? rows k) expanded
    table ← store_columns vectors empty_table blocks 0
    open_rows A P info xvals g0 blocks table

  -- The batch that every server reconstructs, from the shares of all servers.
  unfoldable pub open_batch : List (List A) → Option (List A)
  unfolding traverse store_columns open_at
  open_batch shares = do
    expanded ← traverse (λ mine. expand_shares A P info mine blocks 0) shares
    openings ← traverse (open_at expanded) (count_from info.n 0)
    table ← store_columns openings empty_table blocks 0
    reconstruct_blocks A P info xvals g0 blocks 0 [] table
