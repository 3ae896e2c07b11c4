-- ===== src/Stm/Progress.antt =====
-- The progress of the machine of rm_server_stm.hpp: which states follow each other in the loop of
-- `execute_rm_stm`, and after how many rounds the loop ends.
use ab_prototype.Prelude.{
  ℕ, suc, ◌≤◌, ◌<◌, ◌≡◌, sym, subst, Bool, true, false, Option, some, none, if◌then◌else◌, ◌>>=◌,
  arith,
}
use ab_prototype.Stm.State.{
  MixState, state_id, wait_for_inputs, compute_wellformedness_predicates,
  batched_open_wf_predicates_1, batched_open_wf_predicates_2, batched_open_wf_predicates_3,
  batched_open_wf_predicates_4, open_check_wf_predicates, decompress_client_inputs,
  compute_sum_of_powers, batched_open_sums_of_powers_5, batched_open_sums_of_powers_6,
  batched_open_sums_of_powers_7, batched_open_sums_of_powers_8, compute_newton_id_and_find_roots,
  completed, get_rand_coin, number_of_states,
}
use ab_prototype.Stm.Execute.{Run, Next, go_on, stop}

-- The rounds of the loop from a state to the next one that waits; 0 for the `default` states.
unfoldable pub rounds_left : MixState → ℕ
rounds_left wait_for_inputs = 3
rounds_left compute_wellformedness_predicates = 2
rounds_left batched_open_wf_predicates_1 = 1
rounds_left batched_open_wf_predicates_2 = 2
rounds_left batched_open_wf_predicates_3 = 1
rounds_left batched_open_wf_predicates_4 = 5
rounds_left open_check_wf_predicates = 4
rounds_left decompress_client_inputs = 3
rounds_left compute_sum_of_powers = 2
rounds_left batched_open_sums_of_powers_5 = 1
rounds_left batched_open_sums_of_powers_6 = 2
rounds_left batched_open_sums_of_powers_7 = 1
rounds_left batched_open_sums_of_powers_8 = 2
rounds_left compute_newton_id_and_find_roots = 1
rounds_left get_rand_coin = 0
rounds_left completed = 0
rounds_left number_of_states = 0

-- The states in which the machine waits for messages, or is done.
pub data IsWaiting : MixState → Type 0 where
  for_inputs : IsWaiting wait_for_inputs
  for_expanded_preds : IsWaiting batched_open_wf_predicates_2
  for_opened_preds : IsWaiting batched_open_wf_predicates_4
  for_expanded_sums : IsWaiting batched_open_sums_of_powers_6
  for_opened_sums : IsWaiting batched_open_sums_of_powers_8
  done : IsWaiting completed

-- What one round may lead to, from a state that is not a `default` one.
pub record Advances (old new : MixState) : Type 0 where
  pub later : state_id old < state_id new
  pub fewer : suc (rounds_left new) ≤ rounds_left old
  pub active : 0 < rounds_left new

pub record Rests (old new : MixState) : Type 0 where
  pub not_earlier : state_id old ≤ state_id new
  pub waiting : IsWaiting new

module _ {A P : Type 0} where
  -- The outcome of a round, by whether the loop goes on.
  unfoldable pub Outcome : MixState → Next A P → Type 0
  Outcome old (go_on r) = Advances old r.stm.stm_state
  Outcome old (stop r) = Rests old r.stm.stm_state

  -- The same for what may be a fault.
  unfoldable pub Outcomes : MixState → Option (Next A P) → Type 0
  unfolding Outcome
  Outcomes old none = Unit
  Outcomes old (some next) = Outcome old next

  pub Outcomes->>= :
      {B : Type 0} (old : MixState) (o : Option B) (k : B → Option (Next A P))
      → ((b : B) → Outcomes old (k b))
      → Outcomes old (o >>= k)
  unfolding Outcomes
  Outcomes->>= old none k h = tt
  Outcomes->>= old (some b) k h = h b

  pub Outcomes-if :
      (old : MixState) (b : Bool) (m m' : Option (Next A P))
      → Outcomes old m
      → Outcomes old m'
      → Outcomes old (if b then m else m')
  Outcomes-if old true m m' h h' = h
  Outcomes-if old false m m' h h' = h'

  pub Outcome-if :
      (old : MixState) (b : Bool) (m m' : Next A P)
      → Outcome old m
      → Outcome old m'
      → Outcome old (if b then m else m')
  Outcome-if old true m m' h h' = h
  Outcome-if old false m m' h h' = h'

  pub Outcomes-of :
      {B : Type 0} (old : MixState) (o : Option B) (k : B → Next A P)
      → ((b : B) → Outcome old (k b))
      → Outcomes old (o >>= λ b. some (k b))
  unfolding Outcomes
  Outcomes-of old none k h = tt
  Outcomes-of old (some b) k h = h b

  pub stays :
      (state : MixState) (r : Run A P)
      → r.stm.stm_state ≡ state
      → IsWaiting state
      → Outcome state (stop r)
  unfolding Outcome
  stays state r e w =
      subst (λ x. Rests state x) (sym e) (record { not_earlier = omega arith; waiting = w })

pub inputs_come : Advances wait_for_inputs compute_wellformedness_predicates
unfolding rounds_left
inputs_come = record { later = omega arith; fewer = omega arith; active = omega arith }

pub preds_computed : Advances compute_wellformedness_predicates batched_open_wf_predicates_1
unfolding rounds_left
preds_computed = record { later = omega arith; fewer = omega arith; active = omega arith }

pub expanded_preds_come : Advances batched_open_wf_predicates_2 batched_open_wf_predicates_3
unfolding rounds_left
expanded_preds_come = record { later = omega arith; fewer = omega arith; active = omega arith }

pub opened_preds_come : Advances batched_open_wf_predicates_4 open_check_wf_predicates
unfolding rounds_left
opened_preds_come = record { later = omega arith; fewer = omega arith; active = omega arith }

pub preds_checked : Advances open_check_wf_predicates decompress_client_inputs
unfolding rounds_left
preds_checked = record { later = omega arith; fewer = omega arith; active = omega arith }

pub decompressed_inputs : Advances decompress_client_inputs compute_sum_of_powers
unfolding rounds_left
decompressed_inputs = record { later = omega arith; fewer = omega arith; active = omega arith }

pub sums_computed : Advances compute_sum_of_powers batched_open_sums_of_powers_5
unfolding rounds_left
sums_computed = record { later = omega arith; fewer = omega arith; active = omega arith }

pub expanded_sums_come : Advances batched_open_sums_of_powers_6 batched_open_sums_of_powers_7
unfolding rounds_left
expanded_sums_come = record { later = omega arith; fewer = omega arith; active = omega arith }

pub opened_sums_come : Advances batched_open_sums_of_powers_8 compute_newton_id_and_find_roots
unfolding rounds_left
opened_sums_come = record { later = omega arith; fewer = omega arith; active = omega arith }

pub preds_sent : Rests batched_open_wf_predicates_1 batched_open_wf_predicates_2
preds_sent = record { not_earlier = omega arith; waiting = for_expanded_preds }

pub preds_opened : Rests batched_open_wf_predicates_3 batched_open_wf_predicates_4
preds_opened = record { not_earlier = omega arith; waiting = for_opened_preds }

pub sums_sent : Rests batched_open_sums_of_powers_5 batched_open_sums_of_powers_6
sums_sent = record { not_earlier = omega arith; waiting = for_expanded_sums }

pub sums_opened : Rests batched_open_sums_of_powers_7 batched_open_sums_of_powers_8
sums_opened = record { not_earlier = omega arith; waiting = for_opened_sums }

pub roots_found : Rests compute_newton_id_and_find_roots completed
roots_found = record { not_earlier = omega arith; waiting = done }
