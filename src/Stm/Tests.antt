-- ===== src/Stm/Tests.antt =====
-- The machine's progress, messages and faults at small parameters.
use ab_prototype.Prelude.{
  ℕ, ◌+◌, ◌≡◌, ◌≢◌, refl, inl, Bool, true, false, Option, some, none, List, [], ◌∷◌, ◌++◌, length,
  get_elem?, replicate, arith,
}
use ab_prototype.ZzP.Residues.{Residue, of_ℕ}
use ab_prototype.RmCommon.{number_of_truths, fill_rm_info, is_all_true, all_true_from}
use ab_prototype.SecretSharing.{rs_decode, points_where, max_errors, gen_xvals}
use ab_prototype.Stm.State.{
  Stm, rm_mixing_stm, get2, set2, store_column, wait_for_inputs, completed,
  batched_open_wf_predicates_2,
}
use ab_prototype.Stm.Batch.{reconstruct_batched_shares}
use ab_prototype.Stm.Handler.{
  round1, round3, round_table, set_round_table, server_message, message_handler,
}
use ab_prototype.Stm.Execute.{Run, execute_rm_stm, step, step_at, on_wait1, received, rows_have}
use ab_prototype.Stm.Progress.{rounds_left}
use ab_prototype.Stm.Returns.{IsReturn, execute_rm_stm-IsReturn, execute_rm_stm-hangs}
use ab_prototype.Stm.Messages.{
  awaited, message_handler-repeat, message_handler-round_table, message_handler-number_of_truths,
}
use ab_prototype.Stm.Orders.{message_handler-swap}
use ab_prototype.Stm.Late.{now, handles}
use ab_prototype.Stm.Faults.{reconstruct_batched_shares-rs_decode, late-message_handler}
use ab_prototype.SecretSharing.Samples.{mod7, Coeffs, poly7}
use ab_prototype.Roots.Samples.{inverse7, roots7}
use ab_prototype.Stm.Samples.{info7, context, message_of, start, run_at, handled, gone_on}

execute_rm_stm-IsReturn_example :
    (o : Option (Run (Residue 7) Coeffs)) × (execute_rm_stm context 6 (run_at wait_for_inputs)
      ≡ some o)
    × IsReturn context wait_for_inputs o
unfolding rounds_left
execute_rm_stm-IsReturn_example =
    execute_rm_stm-IsReturn context 6 (run_at wait_for_inputs) (omega arith) (omega arith)

execute_rm_stm-hangs_example : execute_rm_stm context 100 (run_at completed) ≡ none
unfolding rounds_left
execute_rm_stm-hangs_example = execute_rm_stm-hangs context 100 (run_at completed) refl

message_handler-repeat_example :
    message_handler info7 (message_of 4 2 6) (handled (message_of 4 2 5) start)
    ≡ some (handled (message_of 4 2 5) start)
unfolding awaited message_handler server_message rm_mixing_stm fill_rm_info get2 set2 store_column
message_handler-repeat_example =
    message_handler-repeat info7 round1 (message_of 4 2 5) (message_of 4 2 6) start
      (handled (message_of 4 2 5) start) refl refl refl refl

message_handler-round_table_example :
    (get2 (round_table round1 (handled (message_of 4 2 5) start)) 3 1
      ≡ some (of_ℕ 7 (omega arith) 5))
    × ((j : ℕ)
        → j ≢ 1
        → get2 (round_table round1 (handled (message_of 4 2 5) start)) 3 j
          ≡ get2 (round_table round1 start) 3 j)
unfolding awaited message_handler server_message rm_mixing_stm fill_rm_info get2 set2 store_column
    round_table set_round_table
message_handler-round_table_example =
    message_handler-round_table info7 round1 (message_of 4 2 5) start
      (handled (message_of 4 2 5) start) refl refl refl 3 (omega arith)

message_handler-number_of_truths_example :
    (row' : List Bool) × (get_elem? (handled (message_of 11 5 3) start).msg_reception_status 2
      ≡ some row')
    × (number_of_truths row' ≡ number_of_truths (replicate 5 false) + 1)
    × (length row' ≡ 5)
unfolding awaited message_handler server_message rm_mixing_stm fill_rm_info get2 set2 store_column
message_handler-number_of_truths_example =
    message_handler-number_of_truths info7 round3 (message_of 11 5 3) start
      (handled (message_of 11 5 3) start) (replicate 5 false) refl refl refl refl

message_handler-swap_example :
    (other : Stm (Residue 7) Coeffs) × (message_handler info7 (message_of 4 3 6) start ≡ some other)
    × (message_handler info7 (message_of 4 2 5) other
        ≡ some (handled (message_of 4 3 6) (handled (message_of 4 2 5) start)))
unfolding awaited message_handler server_message rm_mixing_stm fill_rm_info get2 set2 store_column
    round_table set_round_table
message_handler-swap_example =
    message_handler-swap info7 round1 (message_of 4 2 5) (message_of 4 3 6) start
      (handled (message_of 4 2 5) start)
      (handled (message_of 4 3 6) (handled (message_of 4 2 5) start)) refl refl (omega arith) refl
      refl

-- The shares of the secret 0, of which the last is wrong, that of server 5.
abbrev one_wrong : List (Residue 7)
one_wrong = replicate 4 mod7.zero ++ (mod7.one ∷ [])

reconstruct_batched_shares-rs_decode_example :
    reconstruct_batched_shares
      (Residue 7)
      Coeffs
      info7
      start
      (one_wrong ∷ replicate 5 mod7.one ∷ [])
      2
      0
    ≡ none
unfolding rs_decode points_where max_errors rm_mixing_stm fill_rm_info gen_xvals
reconstruct_batched_shares-rs_decode_example =
    reconstruct_batched_shares-rs_decode info7 start (one_wrong ∷ replicate 5 mod7.one ∷ []) 2 0 0
      one_wrong true (mod7.zero ∷ []) (of_ℕ 7 (omega arith) 5) [] (omega arith) refl refl

-- A run in the state that waits for round 1, all of whose messages have come.
abbrev waiting : Run (Residue 7) Coeffs
waiting =
    let r = run_at batched_open_wf_predicates_2 in
    record r {
      stm = record (r.stm) { msg_reception_status = replicate 5 true ∷ replicate 5 false ∷ [] };
    }

-- The machine after that state, and a message of the next round.
abbrev later_stm : Stm (Residue 7) Coeffs
later_stm = handled (message_of 6 2 5) (gone_on waiting).stm

late-message_handler_example : message_handler info7 (message_of 4 3 2) later_stm ≡ none
unfolding awaited step step_at on_wait1 received rows_have is_all_true all_true_from rm_mixing_stm
    fill_rm_info message_handler server_message get2 set2 store_column round_table set_round_table
late-message_handler_example =
    late-message_handler context waiting (gone_on waiting) (message_of 4 3 2) later_stm refl
      (inl (refl, refl)) (handles (message_of 6 2 5) now refl)
