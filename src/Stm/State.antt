-- ===== src/Stm/State.antt =====
-- The state of `rm_mixing_stm` and what it calls: the states by their ids, the fields of the class,
-- the constructor, and what the machine sends. Time measurements and output to the console are left
-- out. `rec_exp_shares2` is never used, `corr_servers` neither.
use ab_prototype.Prelude.{
  ℕ, zero, suc, ◌+◌, ◌-◌, ◌*◌, ◌/◌, ◌%◌, Bool, false, not, Option, some, none, List, [], ◌∷◌,
  get_elem?, set?, replicate, ◌==◌, if◌then◌else◌, ◌>>=◌,
}
use ab_prototype.ZzP.{ZzP}
use ab_prototype.RmCommon.{RmInfo}
use ab_prototype.SecretSharing.{Poly, gen_xvals}

-- `enum mix_state`.
pub data MixState : Type 0 where
  wait_for_inputs get_rand_coin compute_wellformedness_predicates : MixState
  batched_open_wf_predicates_1 batched_open_wf_predicates_2 : MixState
  batched_open_wf_predicates_3 batched_open_wf_predicates_4 : MixState
  open_check_wf_predicates decompress_client_inputs compute_sum_of_powers : MixState
  batched_open_sums_of_powers_5 batched_open_sums_of_powers_6 : MixState
  batched_open_sums_of_powers_7 batched_open_sums_of_powers_8 : MixState
  compute_newton_id_and_find_roots completed number_of_states : MixState

-- The value of the enumeration.
abbrev pub state_id : MixState → ℕ
state_id wait_for_inputs = 0
state_id get_rand_coin = 1
state_id compute_wellformedness_predicates = 2
state_id batched_open_wf_predicates_1 = 3
state_id batched_open_wf_predicates_2 = 4
state_id batched_open_wf_predicates_3 = 5
state_id batched_open_wf_predicates_4 = 6
state_id open_check_wf_predicates = 7
state_id decompress_client_inputs = 8
state_id compute_sum_of_powers = 9
state_id batched_open_sums_of_powers_5 = 10
state_id batched_open_sums_of_powers_6 = 11
state_id batched_open_sums_of_powers_7 = 12
state_id batched_open_sums_of_powers_8 = 13
state_id compute_newton_id_and_find_roots = 14
state_id completed = 15
state_id number_of_states = 16

-- What the machine sends: a vector to another server, with the id of the state that it is for, or
-- the completion of the session to a client's connection.
pub data Output (A : Type 0) : Type 0 where
  vector_to : ℕ → List A → ℕ → ℕ → Output A
  completed_to : ℕ → ℕ → ℕ → Output A

-- The fields of `rm_mixing_stm`.
pub record Stm (A P : Type 0) : Type 0 where
  pub sid : ℕ
  pub stm_state : MixState
  pub msg_reception_status : List (List Bool)
  pub len_input_encoding : ℕ
  pub batched_block_size : ℕ
  pub xvals : List A
  pub g0 : P
  pub ver_coin_seed : A
  pub client_input : List (List A)
  pub preds : List A
  pub decompressed : List (List A)
  pub shared_sums_of_powers : List A
  pub rec_exp_shares1 : List (List A)
  pub ret_open_exp_shares1 : List (List A)
  pub ret_open_exp_shares2 : List (List A)
  pub client_msg_counter : ℕ
  pub num_blocks1 : ℕ
  pub size_last1 : ℕ
  pub rm_client_connections : List (ℕ × ℕ)

-- The number of blocks of size `l` for `N` shares, the last one perhaps smaller.
unfoldable pub num_blocks : ℕ → ℕ → ℕ
num_blocks N l = if not (N % l == 0) then N / l + 1 else N / l

-- The constructor. `info.l` is 1 in the program; 0 would divide by it.
unfoldable pub rm_mixing_stm : {A P : Type 0} ⦃z : ZzP A⦄ ⦃p : Poly A P⦄ → RmInfo → ℕ → Stm A P
unfolding num_blocks
rm_mixing_stm {A} ⦃z⦄ ⦃p⦄ info sid =
    let table = replicate (num_blocks info.N info.l) (replicate info.n z.zero) in
    record {
      sid = sid;
      stm_state = wait_for_inputs;
      msg_reception_status = replicate 4 (replicate info.n false);
      len_input_encoding = 7 * info.L + 5;
      batched_block_size = info.n - (2 * info.t + 1);
      xvals = gen_xvals info.n;
      g0 = p.build_from_roots (gen_xvals info.n);
      ver_coin_seed = z.zero;
      client_input = [];
      preds = [];
      decompressed = replicate info.N [];
      shared_sums_of_powers = [];
      rec_exp_shares1 = table;
      ret_open_exp_shares1 = table;
      ret_open_exp_shares2 = table;
      client_msg_counter = 0;
      num_blocks1 = num_blocks info.N info.l;
      size_last1 = info.N % info.l;
      rm_client_connections = [];
    }

module _ {ℓ} {B : Type ℓ} where
  -- `table[i][j]`, read and written.
  unfoldable pub get2 : List (List B) → ℕ → ℕ → Option B
  get2 table i j = do row ← get_elem? table i; get_elem? row j

  unfoldable pub set2 : List (List B) → ℕ → ℕ → B → Option (List (List B))
  set2 table i j v = do row ← get_elem? table i; row' ← set? row j v; set? table i row'

  -- `for (i != blocks) table[i][column] = body[i]`.
  unfoldable pub store_column : List (List B) → List B → ℕ → ℕ → Option (List (List B))
  store_column table body zero column = some table
  store_column [] body (suc blocks) column = none
  store_column (row ∷ table) [] (suc blocks) column = none
  store_column (row ∷ table) (v ∷ body) (suc blocks) column = do
    row' ← set? row column v
    table' ← store_column table body blocks column
    some (row' ∷ table')

-- `id - 1` on 32-bit unsigned numbers, the column of a server.
abbrev pub column_of : ℕ → ℕ
column_of id = (id + 4294967295) % 4294967296
