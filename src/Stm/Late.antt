-- ===== src/Stm/Late.antt =====
-- What happens to a machine of rm_server_stm.hpp after a record was cleared: messages, and rounds of
-- the loop of `execute_rm_stm`.
use ab_prototype.Prelude.{
  ℕ, ◌+◌, ◌*◌, ◌≡◌, ◌==◌, Bool, true, false, Option, some, [], length, set?, guard, if◌then◌else◌,
  ◌>>=◌,
}
use ab_prototype.ZzP.{ZzP}
use ab_prototype.SecretSharing.{Poly, set_coeffs}
use ab_prototype.Roots.{newton_to_polynomial}
use ab_prototype.Roots.Search.{find_roots}
use ab_prototype.Roots.Field.{Inverse, PolyRoots}
use ab_prototype.Message.{DeserializedMessage}
use ab_prototype.Stm.State.{
  MixState, wait_for_inputs, compute_wellformedness_predicates, batched_open_wf_predicates_1,
  batched_open_wf_predicates_2, batched_open_wf_predicates_3, batched_open_wf_predicates_4,
  open_check_wf_predicates, decompress_client_inputs, compute_sum_of_powers,
  batched_open_sums_of_powers_5, batched_open_sums_of_powers_6, batched_open_sums_of_powers_7,
  batched_open_sums_of_powers_8, compute_newton_id_and_find_roots, completed, get_rand_coin,
  number_of_states, Stm,
}
use ab_prototype.Stm.Handler.{message_handler}
use ab_prototype.Stm.Batch.{reconstruct_batched_shares}
use ab_prototype.Stm.Compute.{
  draw_all_coins, verify_all, decompress_all, sums_from, compute_wellformedness_pred,
  decompress_input_encodings, compute_sums_of_powers,
}
use ab_prototype.Stm.Execute.{
  Context, Run, Next, go_on, stop, at_state, received, rows_have, mark_corrupted,
  on_wait_for_inputs, on_compute, on_decompress, on_sums, on_expand_preds, on_expand_sums,
  on_open_preds, on_open_sums, on_wait1, on_wait2, on_wait, on_check, on_newton, step_at, step,
}
use ab_prototype.Stm.Cleared.{
  IfSome, IfSome-some, IfSome->>=, IfSome-of, IfSome-if, Cleared, set?-IsCleared,
  message_handler-Cleared, batched_open_expand_send-Cleared, open_exp_shares_to_all-Cleared,
}

-- The run after a round of the loop.
unfoldable pub run_of : {A P : Type 0} → Next A P → Run A P
run_of (go_on r) = r
run_of (stop r) = r

module _ {A P : Type 0} ⦃z : ZzP A⦄ ⦃p : Poly A P⦄ ⦃v : Inverse A⦄ ⦃q : PolyRoots A P⦄
    (c : Context A) where
  -- The states of a machine from s on, whatever messages come and whenever the loop runs.
  pub data Later (s : Stm A P) : Stm A P → Type 0 where
    now : Later s s
    handles :
        (dm : DeserializedMessage A) {s1 s2 : Stm A P}
        → Later s s1
        → message_handler c.info dm s1 ≡ some s2
        → Later s s2
    steps :
        (r : Run A P) {next : Next A P}
        → Later s r.stm
        → step c r ≡ some next
        → Later s (run_of next).stm

module _ {A P : Type 0} ⦃z : ZzP A⦄ ⦃p : Poly A P⦄ ⦃v : Inverse A⦄ ⦃q : PolyRoots A P⦄
    (c : Context A) (k : ℕ) (r : Run A P) (h : Cleared k r.stm) where
  abbrev NextCleared : Next A P → Type 0
  NextCleared next = Cleared k (run_of next).stm

  Next-if :
      (b : Bool) (m m' : Next A P)
      → NextCleared m
      → NextCleared m'
      → NextCleared (if b then m else m')
  Next-if true m m' a a' = a
  Next-if false m m' a a' = a'

  -- A round that computes a machine and goes on or stops with it.
  on_machine :
      {B : Type 0} (stm_of : B → Stm A P) (o : Option B) (f : B → Next A P)
      → ((b : B) → Cleared k (stm_of b) → NextCleared (f b))
      → IfSome (λ b. Cleared k (stm_of b)) o
      → IfSome NextCleared (o >>= λ b. some (f b))
  unfolding IfSome
  on_machine stm_of o f g kept = IfSome-of _ o f (λ b e. g b (kept b e))

  on_compute-Cleared : IfSome NextCleared (on_compute c r)
  unfolding on_compute compute_wellformedness_pred run_of
  on_compute-Cleared =
      on_machine (λ s. s) (compute_wellformedness_pred c.next_coin c.info r.stm) _ (λ s h'. h')
        (IfSome-of _
          (verify_all c.next_coin c.info.L
            (draw_all_coins c.next_coin (7 * c.info.L + 5) c.info.N 0 r.stm.ver_coin_seed).0
            r.stm.client_input)
          _ (λ preds e. h))

  on_decompress-Cleared : IfSome NextCleared (on_decompress c r)
  unfolding on_decompress decompress_input_encodings run_of
  on_decompress-Cleared =
      on_machine (λ s. s) (decompress_input_encodings c.info r.corr_clients r.stm) _ (λ s h'. h')
        (IfSome-of _
          (decompress_all c.info r.stm.len_input_encoding c.info.N r.corr_clients r.stm.decompressed
            r.stm.client_input)
          _ (λ out e. h))

  on_sums-Cleared : IfSome NextCleared (on_sums c r)
  unfolding on_sums compute_sums_of_powers run_of
  on_sums-Cleared =
      on_machine (λ s. s) (compute_sums_of_powers c.info r.stm) _ (λ s h'. h')
        (IfSome-of _ (sums_from c.info.N 0 c.info.N r.stm.decompressed) _ (λ sums e. h))

  on_expand_preds-Cleared : IfSome NextCleared (on_expand_preds c r)
  unfolding on_expand_preds run_of
  on_expand_preds-Cleared =
      on_machine (λ x. x.0) _ _ (λ x h'. h')
        (batched_open_expand_send-Cleared c k r h r.stm.preds r.stm.num_blocks1 r.stm.size_last1 1)

  on_expand_sums-Cleared : IfSome NextCleared (on_expand_sums c r)
  unfolding on_expand_sums run_of
  on_expand_sums-Cleared =
      on_machine (λ x. x.0) _ _ (λ x h'. h')
        (batched_open_expand_send-Cleared c k r h r.stm.shared_sums_of_powers r.stm.num_blocks1
          r.stm.size_last1 3)

  on_open_preds-Cleared : IfSome NextCleared (on_open_preds c r)
  unfolding on_open_preds run_of
  on_open_preds-Cleared =
      on_machine (λ x. x.0) _ _ (λ x h'. h')
        (open_exp_shares_to_all-Cleared c k r h r.stm.ret_open_exp_shares1 r.stm.num_blocks1 2)

  on_open_sums-Cleared : IfSome NextCleared (on_open_sums c r)
  unfolding on_open_sums run_of
  on_open_sums-Cleared =
      on_machine (λ x. x.0) _ _ (λ x h'. h')
        (open_exp_shares_to_all-Cleared c k r h r.stm.ret_open_exp_shares2 r.stm.num_blocks1 4)

  on_wait1-Cleared : IfSome NextCleared (on_wait1 c r)
  unfolding on_wait1 IfSome run_of
  on_wait1-Cleared = IfSome->>= _ (received c 0 r) _ (λ all e.
      IfSome-if _ all _ _
        (IfSome->>= _ (guard (length r.stm.rec_exp_shares1 == r.stm.num_blocks1)) _ (λ x e1.
          IfSome->>= _ (guard (rows_have c.info.n r.stm.num_blocks1 r.stm.rec_exp_shares1)) _
            (λ y e2.
              IfSome-of _ (set? r.stm.msg_reception_status 0 []) _
                (set?-IsCleared k 0 r.stm.msg_reception_status h))))
        (IfSome-some _ (stop r) h))

  on_wait2-Cleared : IfSome NextCleared (on_wait2 c r)
  unfolding on_wait2 IfSome run_of
  on_wait2-Cleared = IfSome->>= _ (received c 1 r) _ (λ all e.
      IfSome-if _ all _ _
        (IfSome-of _ (set? r.stm.msg_reception_status 1 []) _
          (set?-IsCleared k 1 r.stm.msg_reception_status h))
        (IfSome-some _ (stop r) h))

  on_wait-Cleared : (i : ℕ) (next : MixState) → IfSome NextCleared (on_wait c i next r)
  unfolding on_wait run_of
  on_wait-Cleared i next =
      IfSome-of _ (received c i r)
        (λ all. if all then go_on (at_state c next r r.stm []) else stop r)
        (λ all e. Next-if all (go_on (at_state c next r r.stm [])) (stop r) h h)

  on_check-Cleared : IfSome NextCleared (on_check c r)
  unfolding on_check run_of
  on_check-Cleared =
      IfSome->>= _
        (reconstruct_batched_shares A P c.info r.stm r.stm.ret_open_exp_shares1 r.stm.num_blocks1
          r.stm.size_last1)
        _
        (λ preds e.
          IfSome->>= _ (mark_corrupted c.info.N 0 preds r.corr_clients) _
            (λ corr e1. IfSome-of _ (guard (length preds == c.info.N)) _ (λ x e2. h)))

  on_newton-Cleared : IfSome NextCleared (on_newton c r)
  unfolding on_newton run_of
  on_newton-Cleared =
      IfSome->>= _
        (reconstruct_batched_shares A P c.info r.stm r.stm.ret_open_exp_shares2 r.stm.num_blocks1
          r.stm.size_last1)
        _
        (λ sums e. IfSome->>= _ (newton_to_polynomial sums c.info.N) _ (λ sym_poly e1.
          IfSome-of _
            (find_roots A P c.taus (set_coeffs A P p.zero_poly 0 sym_poly) c.info.fft_prime_info) _
            (λ x e2. h)))

  step_at-Cleared : (state : MixState) → IfSome NextCleared (step_at c state r)
  unfolding step_at on_wait_for_inputs run_of
  step_at-Cleared wait_for_inputs =
      IfSome-some _ _ (Next-if (r.stm.client_msg_counter == c.info.N) _ (stop r) h h)
  step_at-Cleared compute_wellformedness_predicates = on_compute-Cleared
  step_at-Cleared batched_open_wf_predicates_1 = on_expand_preds-Cleared
  step_at-Cleared batched_open_wf_predicates_2 = on_wait1-Cleared
  step_at-Cleared batched_open_wf_predicates_3 = on_open_preds-Cleared
  step_at-Cleared batched_open_wf_predicates_4 = on_wait2-Cleared
  step_at-Cleared open_check_wf_predicates = on_check-Cleared
  step_at-Cleared decompress_client_inputs = on_decompress-Cleared
  step_at-Cleared compute_sum_of_powers = on_sums-Cleared
  step_at-Cleared batched_open_sums_of_powers_5 = on_expand_sums-Cleared
  step_at-Cleared batched_open_sums_of_powers_6 = on_wait-Cleared 2 _
  step_at-Cleared batched_open_sums_of_powers_7 = on_open_sums-Cleared
  step_at-Cleared batched_open_sums_of_powers_8 = on_wait-Cleared 3 _
  step_at-Cleared compute_newton_id_and_find_roots = on_newton-Cleared
  step_at-Cleared get_rand_coin = IfSome-some _ (go_on r) h
  step_at-Cleared completed = IfSome-some _ (go_on r) h
  step_at-Cleared number_of_states = IfSome-some _ (go_on r) h

module _ {A P : Type 0} ⦃z : ZzP A⦄ ⦃p : Poly A P⦄ ⦃v : Inverse A⦄ ⦃q : PolyRoots A P⦄
    (c : Context A) (k : ℕ) where
  -- A record that is cleared is so at every later state of the machine.
  pub Later-Cleared : {s s' : Stm A P} → Later c s s' → Cleared k s → Cleared k s'
  unfolding IfSome step
  Later-Cleared now h = h
  Later-Cleared (handles dm {s1} {s2} before run) h =
      message_handler-Cleared k c.info dm s1 (Later-Cleared before h) s2 run
  Later-Cleared (steps r {next} before run) h =
      step_at-Cleared c k r (Later-Cleared before h) r.stm.stm_state next run
