-- ===== src/Stm/Rounds.antt =====
-- One round of the loop of `execute_rm_stm` in rm_server_stm.hpp, state by state: it faults, goes on
-- to a later state, or rests.
use ab_prototype.Prelude.{ℕ, ◌<◌, ◌≡◌, refl, [], ◌==◌, if◌then◌else◌, length, set?, guard, arith}
use ab_prototype.ZzP.{ZzP}
use ab_prototype.SecretSharing.{Poly, set_coeffs}
use ab_prototype.Roots.Search.{find_roots}
use ab_prototype.Roots.Field.{Inverse, PolyRoots}
use ab_prototype.Roots.{newton_to_polynomial}
use ab_prototype.Stm.Batch.{reconstruct_batched_shares}
use ab_prototype.Stm.State.{
  MixState, wait_for_inputs, compute_wellformedness_predicates, batched_open_wf_predicates_1,
  batched_open_wf_predicates_2, batched_open_wf_predicates_3, batched_open_wf_predicates_4,
  open_check_wf_predicates, decompress_client_inputs, compute_sum_of_powers,
  batched_open_sums_of_powers_5, batched_open_sums_of_powers_6, batched_open_sums_of_powers_7,
  batched_open_sums_of_powers_8, compute_newton_id_and_find_roots, completed, get_rand_coin,
  number_of_states,
}
use ab_prototype.Stm.Execute.{
  Context, Run, mark_corrupted, rows_have, go_on, stop, at_state, received, on_wait_for_inputs,
  on_compute, on_decompress, on_sums, on_expand_preds, on_expand_sums, on_open_preds, on_open_sums,
  on_wait1, on_wait2, on_wait, on_check, on_newton, step_at, step,
}
use ab_prototype.Stm.Progress.{
  rounds_left, Outcome, Outcomes, IsWaiting, for_inputs, for_expanded_preds, for_opened_preds,
  for_expanded_sums, for_opened_sums, Advances, Outcomes->>=, Outcomes-if, Outcome-if, Outcomes-of,
  stays, inputs_come, preds_computed, expanded_preds_come, opened_preds_come, preds_checked,
  decompressed_inputs, sums_computed, expanded_sums_come, opened_sums_come, preds_sent,
  preds_opened, sums_sent, sums_opened, roots_found,
}

module _ {A P : Type 0} ⦃z : ZzP A⦄ ⦃p : Poly A P⦄ ⦃v : Inverse A⦄ ⦃q : PolyRoots A P⦄
    (c : Context A) where
  on_wait-Outcomes :
      (k : ℕ) (old new : MixState) (r : Run A P)
      → r.stm.stm_state ≡ old
      → IsWaiting old
      → Advances old new
      → Outcomes old (on_wait c k new r)
  unfolding on_wait Outcome
  on_wait-Outcomes k old new r e w a =
      Outcomes-of old (received c k r)
        (λ all. if all then go_on (at_state c new r r.stm []) else stop r)
        (λ all. Outcome-if old all (go_on (at_state c new r r.stm [])) (stop r) a (stays old r e w))

  on_compute-Outcomes : (r : Run A P) → Outcomes compute_wellformedness_predicates (on_compute c r)
  unfolding on_compute Outcome
  on_compute-Outcomes r = Outcomes-of _ _ _ (λ s. preds_computed)

  on_decompress-Outcomes : (r : Run A P) → Outcomes decompress_client_inputs (on_decompress c r)
  unfolding on_decompress Outcome
  on_decompress-Outcomes r = Outcomes-of _ _ _ (λ s. decompressed_inputs)

  on_sums-Outcomes : (r : Run A P) → Outcomes compute_sum_of_powers (on_sums c r)
  unfolding on_sums Outcome
  on_sums-Outcomes r = Outcomes-of _ _ _ (λ s. sums_computed)

  on_expand_preds-Outcomes :
      (r : Run A P) → Outcomes batched_open_wf_predicates_1 (on_expand_preds c r)
  unfolding on_expand_preds Outcome
  on_expand_preds-Outcomes r = Outcomes-of _ _ _ (λ x. preds_sent)

  on_expand_sums-Outcomes :
      (r : Run A P) → Outcomes batched_open_sums_of_powers_5 (on_expand_sums c r)
  unfolding on_expand_sums Outcome
  on_expand_sums-Outcomes r = Outcomes-of _ _ _ (λ x. sums_sent)

  on_open_preds-Outcomes : (r : Run A P) → Outcomes batched_open_wf_predicates_3 (on_open_preds c r)
  unfolding on_open_preds Outcome
  on_open_preds-Outcomes r = Outcomes-of _ _ _ (λ x. preds_opened)

  on_open_sums-Outcomes : (r : Run A P) → Outcomes batched_open_sums_of_powers_7 (on_open_sums c r)
  unfolding on_open_sums Outcome
  on_open_sums-Outcomes r = Outcomes-of _ _ _ (λ x. sums_opened)

  on_check-Outcomes : (r : Run A P) → Outcomes open_check_wf_predicates (on_check c r)
  unfolding on_check Outcome
  on_check-Outcomes r =
      Outcomes->>= _
        (reconstruct_batched_shares A P c.info r.stm r.stm.ret_open_exp_shares1 r.stm.num_blocks1
          r.stm.size_last1)
        _
        (λ preds.
          Outcomes->>= _ (mark_corrupted c.info.N 0 preds r.corr_clients) _
            (λ corr. Outcomes-of _ (guard (length preds == c.info.N)) _ (λ x. preds_checked)))

  on_newton-Outcomes : (r : Run A P) → Outcomes compute_newton_id_and_find_roots (on_newton c r)
  unfolding on_newton Outcome
  on_newton-Outcomes r =
      Outcomes->>= _
        (reconstruct_batched_shares A P c.info r.stm r.stm.ret_open_exp_shares2 r.stm.num_blocks1
          r.stm.size_last1)
        _
        (λ sums. Outcomes->>= _ (newton_to_polynomial sums c.info.N) _ (λ sym_poly.
          Outcomes-of _
            (find_roots A P c.taus (set_coeffs A P p.zero_poly 0 sym_poly) c.info.fft_prime_info) _
            (λ x. roots_found)))

  on_wait1-Outcomes :
      (r : Run A P)
      → r.stm.stm_state ≡ batched_open_wf_predicates_2
      → Outcomes batched_open_wf_predicates_2 (on_wait1 c r)
  unfolding on_wait1 Outcome Outcomes
  on_wait1-Outcomes r e = Outcomes->>= _ (received c 0 r) _ (λ all.
      Outcomes-if _ all _ _
        (Outcomes->>= _ (guard (length r.stm.rec_exp_shares1 == r.stm.num_blocks1)) _ (λ x.
          Outcomes->>= _ (guard (rows_have c.info.n r.stm.num_blocks1 r.stm.rec_exp_shares1)) _
            (λ y.
              Outcomes-of _ (set? r.stm.msg_reception_status 0 []) _
                (λ status. expanded_preds_come))))
        (stays _ r e for_expanded_preds))

  on_wait2-Outcomes :
      (r : Run A P)
      → r.stm.stm_state ≡ batched_open_wf_predicates_4
      → Outcomes batched_open_wf_predicates_4 (on_wait2 c r)
  unfolding on_wait2 Outcome Outcomes
  on_wait2-Outcomes r e = Outcomes->>= _ (received c 1 r) _ (λ all.
      Outcomes-if _ all _ _
        (Outcomes-of _ (set? r.stm.msg_reception_status 1 []) _ (λ status. opened_preds_come))
        (stays _ r e for_opened_preds))

  -- From a state that is not a `default` one, a round faults, or goes on to a later state with
  -- fewer rounds left, or stops in a waiting state that is not earlier.
  step_at-Outcomes :
      (state : MixState) (r : Run A P)
      → r.stm.stm_state ≡ state
      → 0 < rounds_left state
      → Outcomes state (step_at c state r)
  unfolding step_at Outcomes Outcome rounds_left on_wait_for_inputs
  step_at-Outcomes wait_for_inputs r e h =
      Outcome-if _ (r.stm.client_msg_counter == c.info.N) _ _ inputs_come (stays _ r e for_inputs)
  step_at-Outcomes compute_wellformedness_predicates r e h = on_compute-Outcomes r
  step_at-Outcomes batched_open_wf_predicates_1 r e h = on_expand_preds-Outcomes r
  step_at-Outcomes batched_open_wf_predicates_2 r e h = on_wait1-Outcomes r e
  step_at-Outcomes batched_open_wf_predicates_3 r e h = on_open_preds-Outcomes r
  step_at-Outcomes batched_open_wf_predicates_4 r e h = on_wait2-Outcomes r e
  step_at-Outcomes open_check_wf_predicates r e h = on_check-Outcomes r
  step_at-Outcomes decompress_client_inputs r e h = on_decompress-Outcomes r
  step_at-Outcomes compute_sum_of_powers r e h = on_sums-Outcomes r
  step_at-Outcomes batched_open_sums_of_powers_5 r e h = on_expand_sums-Outcomes r
  step_at-Outcomes batched_open_sums_of_powers_6 r e h =
      on_wait-Outcomes 2 _ _ r e for_expanded_sums expanded_sums_come
  step_at-Outcomes batched_open_sums_of_powers_7 r e h = on_open_sums-Outcomes r
  step_at-Outcomes batched_open_sums_of_powers_8 r e h =
      on_wait-Outcomes 3 _ _ r e for_opened_sums opened_sums_come
  step_at-Outcomes compute_newton_id_and_find_roots r e h = on_newton-Outcomes r
  step_at-Outcomes get_rand_coin r e h = omega arith
  step_at-Outcomes completed r e h = omega arith
  step_at-Outcomes number_of_states r e h = omega arith

  pub step-Outcomes :
      (r : Run A P) → 0 < rounds_left r.stm.stm_state → Outcomes r.stm.stm_state (step c r)
  unfolding step
  step-Outcomes r h = step_at-Outcomes r.stm.stm_state r refl h
