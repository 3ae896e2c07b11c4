-- ===== src/Stm/Compute.antt =====
-- The local computations of rm_server_stm.hpp: the coins and the well-formedness predicates, the
-- decompression of the clients' inputs, and the sums of powers. `next_coin` is the element that NTL
-- draws after `SetSeed`.
use ab_prototype.Prelude.{
  ℕ, zero, suc, ◌+◌, ◌-◌, ◌*◌, Bool, Option, some, none, List, [], ◌∷◌, ◌++◌, length, get_elem?,
  replicate, ◌==◌, if◌then◌else◌, guard, ◌>>=◌, ◌>>◌,
}
use ab_prototype.ZzP.{ZzP, ◌⊕◌}
use ab_prototype.RmCommon.{RmInfo}
use ab_prototype.Additive2Basis.Circuit.{opt_decompress_encoding}
use ab_prototype.Additive2Basis.Verify.{verify_format}
use ab_prototype.Stm.State.{Stm}

module _ {A : Type 0} ⦃z : ZzP A⦄ (next_coin : A → A) where
  -- The coins of client i: `count` are left, from j on. With them the seed that is left.
  unfoldable pub draw_coins : ℕ → ℕ → ℕ → ℕ → A → List A × A
  draw_coins encoding_size i zero j seed = ([], seed)
  draw_coins encoding_size i (suc count) j seed =
      let seed' = seed ⊕ z.conv (encoding_size - 1 + i) ⊕ z.conv j in
      let (coins, last) = draw_coins encoding_size i count (suc j) seed' in
      (next_coin seed' ∷ coins, last)

  unfoldable pub draw_all_coins : ℕ → ℕ → ℕ → A → List (List A) × A
  unfolding draw_coins
  draw_all_coins encoding_size zero i seed = ([], seed)
  draw_all_coins encoding_size (suc clients) i seed =
      let (row, seed') = draw_coins encoding_size i (encoding_size - 1) 0 seed in
      let (rows, last) = draw_all_coins encoding_size clients (suc i) seed' in (row ∷ rows, last)

  -- `preds.append(verify_format(coins[i], client_input[i], L))` for each client.
  unfoldable pub verify_all : ℕ → List (List A) → List (List A) → Option (List A)
  verify_all L [] inputs = some []
  verify_all L (coins ∷ rows) [] = none
  verify_all L (coins ∷ rows) (input ∷ inputs) = do
    pred ← verify_format coins input L
    preds ← verify_all L rows inputs
    some (pred ∷ preds)

  unfoldable pub compute_wellformedness_pred : {P : Type 0} → RmInfo → Stm A P → Option (Stm A P)
  compute_wellformedness_pred info s = do
    let (coins, seed) = draw_all_coins (7 * info.L + 5) info.N 0 s.ver_coin_seed
    preds ← verify_all info.L coins s.client_input
    some (record s { ver_coin_seed = seed; preds = s.preds ++ preds })

module _ {A : Type 0} ⦃z : ZzP A⦄ where
  -- One client: zeros if it is known to be corrupted, its decompressed input otherwise.
  unfoldable pub decompress_one : RmInfo → ℕ → Bool → List A → List A → Option (List A)
  decompress_one info len_input_encoding corrupted old input = do
    guard (length old == 0)
    guard (length input == len_input_encoding)
    out ←
        (let honest = opt_decompress_encoding input info.L in
          if corrupted then some (replicate info.N z.zero) else honest)
    guard (length out == info.N)
    some out

  unfoldable pub decompress_all :
      RmInfo → ℕ → ℕ → List Bool → List (List A) → List (List A) → Option (List (List A))
  decompress_all info len_input_encoding zero corr_clients decompressed inputs = some []
  decompress_all info len_input_encoding (suc clients) (c ∷ cs) (old ∷ olds) (input ∷ inputs) = do
    out ← decompress_one info len_input_encoding c old input
    rest ← decompress_all info len_input_encoding clients cs olds inputs
    some (out ∷ rest)
  decompress_all info len_input_encoding (suc clients) _ _ _ = none

  unfoldable pub decompress_input_encodings :
      {P : Type 0} → RmInfo → List Bool → Stm A P → Option (Stm A P)
  decompress_input_encodings info corr_clients s = do
    out ← decompress_all info s.len_input_encoding info.N corr_clients s.decompressed s.client_input
    some (record s { decompressed = out; client_input = [] })

  -- `shared_sums_of_powers[p] += decompressed[i][p]` for each client i.
  unfoldable pub compute_sum_of_powers_at : ℕ → ℕ → List (List A) → A → Option A
  compute_sum_of_powers_at p zero decompressed sum = some sum
  compute_sum_of_powers_at p (suc clients) [] sum = none
  compute_sum_of_powers_at p (suc clients) (row ∷ rows) sum = do
    v ← get_elem? row p
    compute_sum_of_powers_at p clients rows (sum ⊕ v)

  -- The sums for the powers from p on, over a vector of zeros.
  unfoldable pub sums_from : ℕ → ℕ → ℕ → List (List A) → Option (List A)
  sums_from clients p zero decompressed = some []
  sums_from clients p (suc powers) decompressed = do
    sum ← compute_sum_of_powers_at p clients decompressed z.zero
    rest ← sums_from clients (suc p) powers decompressed
    some (sum ∷ rest)

  unfoldable pub compute_sums_of_powers : {P : Type 0} → RmInfo → Stm A P → Option (Stm A P)
  compute_sums_of_powers info s = do
    sums ← sums_from info.N 0 info.N s.decompressed
    some (record s { shared_sums_of_powers = sums })
