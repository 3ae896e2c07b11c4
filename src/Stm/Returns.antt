-- ===== src/Stm/Returns.antt =====
-- The end of the loop of `execute_rm_stm` in rm_server_stm.hpp: enough fuel, the state in which the
-- machine rests, and the states from which the loop never ends.
use ab_prototype.Prelude.{ℕ, zero, suc, ◌≤◌, ◌<◌, ◌≡◌, refl, Option, some, none, arith}
use ab_prototype.ZzP.{ZzP}
use ab_prototype.SecretSharing.{Poly}
use ab_prototype.Roots.Field.{Inverse, PolyRoots}
use ab_prototype.Stm.State.{
  MixState, state_id, wait_for_inputs, compute_wellformedness_predicates,
  batched_open_wf_predicates_1, batched_open_wf_predicates_2, batched_open_wf_predicates_3,
  batched_open_wf_predicates_4, open_check_wf_predicates, decompress_client_inputs,
  compute_sum_of_powers, batched_open_sums_of_powers_5, batched_open_sums_of_powers_6,
  batched_open_sums_of_powers_7, batched_open_sums_of_powers_8, compute_newton_id_and_find_roots,
  completed, get_rand_coin, number_of_states,
}
use ab_prototype.Stm.Execute.{Context, Run, Next, go_on, stop, step_at, step, execute_rm_stm}
use ab_prototype.Stm.Progress.{rounds_left, Advances, Rests, Outcome, Outcomes}
use ab_prototype.Stm.Rounds.{step-Outcomes}

rounds_left-le : (state : MixState) → rounds_left state ≤ 5
unfolding rounds_left
rounds_left-le wait_for_inputs = omega arith
rounds_left-le get_rand_coin = omega arith
rounds_left-le compute_wellformedness_predicates = omega arith
rounds_left-le batched_open_wf_predicates_1 = omega arith
rounds_left-le batched_open_wf_predicates_2 = omega arith
rounds_left-le batched_open_wf_predicates_3 = omega arith
rounds_left-le batched_open_wf_predicates_4 = omega arith
rounds_left-le open_check_wf_predicates = omega arith
rounds_left-le decompress_client_inputs = omega arith
rounds_left-le compute_sum_of_powers = omega arith
rounds_left-le batched_open_sums_of_powers_5 = omega arith
rounds_left-le batched_open_sums_of_powers_6 = omega arith
rounds_left-le batched_open_sums_of_powers_7 = omega arith
rounds_left-le batched_open_sums_of_powers_8 = omega arith
rounds_left-le compute_newton_id_and_find_roots = omega arith
rounds_left-le completed = omega arith
rounds_left-le number_of_states = omega arith

module _ {A P : Type 0} ⦃z : ZzP A⦄ ⦃p : Poly A P⦄ ⦃v : Inverse A⦄ ⦃q : PolyRoots A P⦄
    (c : Context A) where
  -- What the loop returns: a fault, or a run that rests.
  unfoldable pub IsReturn : MixState → Option (Run A P) → Type 0
  IsReturn old none = Unit
  IsReturn old (some r) = Rests old r.stm.stm_state

  IsReturn-earlier :
      (old new : MixState) (o : Option (Run A P))
      → state_id old < state_id new
      → IsReturn new o
      → IsReturn old o
  unfolding IsReturn
  IsReturn-earlier old new none h w = tt
  IsReturn-earlier old new (some r) h w = record {
    not_earlier = omega (arith, w.not_earlier);
    waiting = w.waiting;
  }

  unfoldable Returns : ℕ → Run A P → MixState → Type 0
  Returns fuel r old = (o : Option (Run A P)) × (execute_rm_stm c fuel r ≡ some o) × IsReturn old o

  round-Returns :
      (fuel : ℕ) (old : MixState) (r : Run A P) (o : Option (Next A P))
      → step c r ≡ o
      → Outcomes old o
      → ((r' : Run A P) → Advances old r'.stm.stm_state → Returns fuel r' r'.stm.stm_state)
      → Returns (suc fuel) r old
  unfolding Returns execute_rm_stm Outcomes Outcome IsReturn
  round-Returns fuel old r none e h k = (none, rw (execute_rm_stm, e) refl, tt)
  round-Returns fuel old r (some (stop r')) e h k = (some r', rw (execute_rm_stm, e) refl, h)
  round-Returns fuel old r (some (go_on r')) e h k =
      let (o, run, ret) = k r' h in
      (o, rw (execute_rm_stm, e) run, IsReturn-earlier old r'.stm.stm_state o h.later ret)

  fuel-Returns :
      (fuel : ℕ) (r : Run A P)
      → 0 < rounds_left r.stm.stm_state
      → rounds_left r.stm.stm_state < fuel
      → Returns fuel r r.stm.stm_state
  fuel-Returns zero r a h = ground arith
  fuel-Returns (suc fuel) r a h =
      round-Returns fuel r.stm.stm_state r (step c r) refl (step-Outcomes c r a)
        (λ r' adv. fuel-Returns fuel r' adv.active (omega (arith, adv.fewer)))

  -- From every state that the switch of the loop handles, six rounds are enough: the loop ends,
  -- with a fault (or because `find_roots` ran out of its random elements), or in a state that waits for messages or has completed the session, and that is
  -- not before the state from which it ran.
  pub execute_rm_stm-IsReturn :
      (fuel : ℕ) (r : Run A P)
      → 0 < rounds_left r.stm.stm_state
      → 5 < fuel
      → (o : Option (Run A P)) × (execute_rm_stm c fuel r ≡ some o) × IsReturn r.stm.stm_state o
  execute_rm_stm-IsReturn fuel r a h =
      unfold Returns in fuel-Returns fuel r a (omega (arith, rounds_left-le r.stm.stm_state))

  default_step :
      (state : MixState) (r : Run A P) → rounds_left state ≡ 0 → step_at c state r ≡ some (go_on r)
  unfolding rounds_left step_at
  default_step get_rand_coin r h = refl
  default_step completed r h = refl
  default_step number_of_states r h = refl
  default_step wait_for_inputs r h = absurd (omega arith)
  default_step compute_wellformedness_predicates r h = absurd (omega arith)
  default_step batched_open_wf_predicates_1 r h = absurd (omega arith)
  default_step batched_open_wf_predicates_2 r h = absurd (omega arith)
  default_step batched_open_wf_predicates_3 r h = absurd (omega arith)
  default_step batched_open_wf_predicates_4 r h = absurd (omega arith)
  default_step open_check_wf_predicates r h = absurd (omega arith)
  default_step decompress_client_inputs r h = absurd (omega arith)
  default_step compute_sum_of_powers r h = absurd (omega arith)
  default_step batched_open_sums_of_powers_5 r h = absurd (omega arith)
  default_step batched_open_sums_of_powers_6 r h = absurd (omega arith)
  default_step batched_open_sums_of_powers_7 r h = absurd (omega arith)
  default_step batched_open_sums_of_powers_8 r h = absurd (omega arith)
  default_step compute_newton_id_and_find_roots r h = absurd (omega arith)

  -- From a state of the `default` case (`get_rand_coin`, `completed`, `number_of_states`, those with
  -- 0 rounds left), the loop does not end, with any fuel.
  pub execute_rm_stm-hangs :
      (fuel : ℕ) (r : Run A P) → rounds_left r.stm.stm_state ≡ 0 → execute_rm_stm c fuel r ≡ none
  unfolding execute_rm_stm step
  execute_rm_stm-hangs zero r h = refl
  execute_rm_stm-hangs (suc fuel) r h =
      rw (execute_rm_stm, step, default_step r.stm.stm_state r h) (execute_rm_stm-hangs fuel r h)
