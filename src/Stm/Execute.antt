-- ===== src/Stm/Execute.antt =====
-- `execute_rm_stm` of rm_server_stm.hpp: the loop that runs the machine until it has to wait.
use ab_prototype.Prelude.{
  ℕ, zero, suc, Bool, true, false, Option, some, none, List, [], ◌∷◌, ◌++◌, length, get_elem?, set?,
  ◌==◌, if◌then◌else◌, guard, ◌>>=◌, ◌>>◌,
}
use ab_prototype.ZzP.{ZzP}
use ab_prototype.RmCommon.{RmInfo, is_all_true}
use ab_prototype.SecretSharing.{Poly, set_coeffs}
use ab_prototype.Roots.Search.{find_roots}
use ab_prototype.Roots.Field.{Inverse, PolyRoots}
use ab_prototype.Roots.{newton_to_polynomial}
use ab_prototype.Stm.State.{
  MixState, Output, Stm, wait_for_inputs, compute_wellformedness_predicates,
  batched_open_wf_predicates_1, batched_open_wf_predicates_2, batched_open_wf_predicates_3,
  batched_open_wf_predicates_4, open_check_wf_predicates, decompress_client_inputs,
  compute_sum_of_powers, batched_open_sums_of_powers_5, batched_open_sums_of_powers_6,
  batched_open_sums_of_powers_7, batched_open_sums_of_powers_8, compute_newton_id_and_find_roots,
  completed, get_rand_coin, number_of_states, completed_to,
}
use ab_prototype.Stm.Batch.{
  batched_open_expand_send, open_exp_shares_to_all, reconstruct_batched_shares,
}
use ab_prototype.Stm.Compute.{
  compute_wellformedness_pred, decompress_input_encodings, compute_sums_of_powers,
}

-- What the machine works with: the parameters, the peers that are connected, the source of coins,
-- and the random elements of `find_roots`.
pub record Context (A : Type 0) : Type 0 where
  pub info : RmInfo
  pub connected : ℕ → Bool
  pub client_connected : ℕ → Bool
  pub next_coin : A → A
  pub taus : List A

-- The machine, the clients known to be corrupted, and what was sent.
pub record Run (A P : Type 0) : Type 0 where
  pub stm : Stm A P
  pub corr_clients : List Bool
  pub sent : List (Output A)

-- Whether the loop goes on.
pub data Next (A P : Type 0) : Type 0 where
  go_on : Run A P → Next A P
  stop : Run A P → Next A P

module _ {A : Type 0} ⦃z : ZzP A⦄ where
  -- `corr_clients->at(i) = true` where predicate i is not 0.
  unfoldable pub mark_corrupted : ℕ → ℕ → List A → List Bool → Option (List Bool)
  mark_corrupted zero i preds corr = some corr
  mark_corrupted (suc clients) i preds corr = do
    pred ← get_elem? preds i
    corr' ← (let marked = set? corr i true in if z.is_zero pred then some corr else marked)
    mark_corrupted clients (suc i) preds corr'

  -- The completion is sent to every client connection that is up.
  unfoldable pub notify : (ℕ → Bool) → ℕ → ℕ → List (ℕ × ℕ) → List (Output A)
  notify up sid server_id [] = []
  notify up sid server_id ((k, conn) ∷ rest) =
      let others = notify up sid server_id rest in
      if up conn then completed_to conn sid server_id ∷ others else others

  -- The asserted sizes of the expanded shares.
  unfoldable pub rows_have : ℕ → ℕ → List (List A) → Bool
  rows_have n zero rows = true
  rows_have n (suc blocks) [] = false
  rows_have n (suc blocks) (row ∷ rows) =
      let rest = rows_have n blocks rows in if length row == n then rest else false

module _ {A P : Type 0} ⦃z : ZzP A⦄ ⦃p : Poly A P⦄ ⦃v : Inverse A⦄ ⦃q : PolyRoots A P⦄
    (c : Context A) where
  abbrev pub at_state : MixState → Run A P → Stm A P → List (Output A) → Run A P
  at_state state r s out = record r { stm = record s { stm_state = state }; sent = r.sent ++ out }

  -- Whether every server's message of round k has come.
  unfoldable pub received : ℕ → Run A P → Option Bool
  received k r = do status ← get_elem? r.stm.msg_reception_status k; some (is_all_true status)

  unfoldable pub on_wait_for_inputs : Run A P → Next A P
  on_wait_for_inputs r =
      if r.stm.client_msg_counter == c.info.N
      then go_on (
          at_state compute_wellformedness_predicates r (record (r.stm) { client_msg_counter = 0 })
            [])
      else stop r

  -- The states that compute and go on.
  unfoldable pub on_compute : Run A P → Option (Next A P)
  on_compute r = do
    s ← compute_wellformedness_pred c.next_coin c.info r.stm
    some (go_on (at_state batched_open_wf_predicates_1 r s []))

  unfoldable pub on_decompress : Run A P → Option (Next A P)
  on_decompress r = do
    s ← decompress_input_encodings c.info r.corr_clients r.stm
    some (go_on (at_state compute_sum_of_powers r s []))

  unfoldable pub on_sums : Run A P → Option (Next A P)
  on_sums r = do
    s ← compute_sums_of_powers c.info r.stm
    some (go_on (at_state batched_open_sums_of_powers_5 r s []))

  -- The states that send and wait.
  unfoldable pub on_expand_preds : Run A P → Option (Next A P)
  on_expand_preds r = do
    (s, out) ←
        batched_open_expand_send A P c.info r.stm.preds r.stm.num_blocks1 r.stm.size_last1 1 r.stm
    some (stop (at_state batched_open_wf_predicates_2 r (record s { preds = [] }) out))

  unfoldable pub on_expand_sums : Run A P → Option (Next A P)
  on_expand_sums r = do
    (s, out) ←
        batched_open_expand_send A P c.info r.stm.shared_sums_of_powers r.stm.num_blocks1
          r.stm.size_last1 3 r.stm
    some (
        stop
          (at_state batched_open_sums_of_powers_6 r (record s { shared_sums_of_powers = [] }) out))

  unfoldable pub on_open_preds : Run A P → Option (Next A P)
  on_open_preds r = do
    (s, table, out) ←
        open_exp_shares_to_all A P c.info c.connected r.stm.ret_open_exp_shares1 r.stm.num_blocks1 2
          r.stm
    some (
        stop
          (at_state batched_open_wf_predicates_4 r (record s { ret_open_exp_shares1 = table }) out))

  unfoldable pub on_open_sums : Run A P → Option (Next A P)
  on_open_sums r = do
    (s, table, out) ←
        open_exp_shares_to_all A P c.info c.connected r.stm.ret_open_exp_shares2 r.stm.num_blocks1 4
          r.stm
    some (
        stop (
          at_state batched_open_sums_of_powers_8 r (record s { ret_open_exp_shares2 = table }) out))

  -- The states that wait for a round; the first two clear its record.
  unfoldable pub on_wait1 : Run A P → Option (Next A P)
  on_wait1 r = do
    all ← received 0 r
    (let cleared = (do
      guard (length r.stm.rec_exp_shares1 == r.stm.num_blocks1)
      guard (rows_have c.info.n r.stm.num_blocks1 r.stm.rec_exp_shares1)
      status ← set? r.stm.msg_reception_status 0 []
      some (
          go_on (
            at_state batched_open_wf_predicates_3 r
              (record (r.stm) { msg_reception_status = status }) []))) in
        if all then cleared else some (stop r))

  unfoldable pub on_wait2 : Run A P → Option (Next A P)
  on_wait2 r = do
    all ← received 1 r
    (let cleared = (do
      status ← set? r.stm.msg_reception_status 1 []
      some (
          go_on (
            at_state open_check_wf_predicates r (record (r.stm) { msg_reception_status = status })
              []))) in
        if all then cleared else some (stop r))

  unfoldable pub on_wait : ℕ → MixState → Run A P → Option (Next A P)
  on_wait k next r = do
    all ← received k r
    some (if all then go_on (at_state next r r.stm []) else stop r)

  unfoldable pub on_check : Run A P → Option (Next A P)
  on_check r = do
    preds ←
        reconstruct_batched_shares A P c.info r.stm r.stm.ret_open_exp_shares1 r.stm.num_blocks1
          r.stm.size_last1
    corr ← mark_corrupted c.info.N 0 preds r.corr_clients
    guard (length preds == c.info.N)
    some (
        go_on (
          at_state decompress_client_inputs (record r { corr_clients = corr })
            (record (r.stm) { ret_open_exp_shares1 = [] }) []))

  -- The polynomial of the sums of powers. Its roots are the mixed messages.
  unfoldable pub on_newton : Run A P → Option (Next A P)
  on_newton r = do
    sums ←
        reconstruct_batched_shares A P c.info r.stm r.stm.ret_open_exp_shares2 r.stm.num_blocks1
          r.stm.size_last1
    sym_poly ← newton_to_polynomial sums c.info.N
    rm_output ← find_roots A P c.taus (set_coeffs A P p.zero_poly 0 sym_poly) c.info.fft_prime_info
    some (
        stop (
          at_state completed r (record (r.stm) { ret_open_exp_shares2 = [] })
            (notify c.client_connected r.stm.sid c.info.server_id r.stm.rm_client_connections)))

  -- One round of the loop. The `default` of the switch goes on without a change.
  unfoldable pub step_at : MixState → Run A P → Option (Next A P)
  step_at wait_for_inputs r = some (on_wait_for_inputs r)
  step_at compute_wellformedness_predicates r = on_compute r
  step_at batched_open_wf_predicates_1 r = on_expand_preds r
  step_at batched_open_wf_predicates_2 r = on_wait1 r
  step_at batched_open_wf_predicates_3 r = on_open_preds r
  step_at batched_open_wf_predicates_4 r = on_wait2 r
  step_at open_check_wf_predicates r = on_check r
  step_at decompress_client_inputs r = on_decompress r
  step_at compute_sum_of_powers r = on_sums r
  step_at batched_open_sums_of_powers_5 r = on_expand_sums r
  step_at batched_open_sums_of_powers_6 r = on_wait 2 batched_open_sums_of_powers_7 r
  step_at batched_open_sums_of_powers_7 r = on_open_sums r
  step_at batched_open_sums_of_powers_8 r = on_wait 3 compute_newton_id_and_find_roots r
  step_at compute_newton_id_and_find_roots r = on_newton r
  step_at get_rand_coin r = some (go_on r)
  step_at completed r = some (go_on r)
  step_at number_of_states r = some (go_on r)

  unfoldable pub step : Run A P → Option (Next A P)
  step r = step_at r.stm.stm_state r

  -- The loop. The outer option is the fuel, the inner one a fault.
  unfoldable pub execute_rm_stm : ℕ → Run A P → Option (Option (Run A P))
  execute_rm_stm zero r = none
  execute_rm_stm (suc fuel) r = elim (step r) [
    | none ↦ some none
    | some next ↦ elim next [ go_on r' ↦ execute_rm_stm fuel r' | stop r' ↦ some (some r') ]
  ]
