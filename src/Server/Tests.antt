-- ===== src/Server/Tests.antt =====
-- The main loop of rm_server_main.cpp at small parameters, and the sizes of its test cases.
use mathlib.Core.Option
use ab_prototype.Prelude.{
  ◌+◌, ◌++◌, ◌>>=◌, take, drop, ℕ, ◌≡◌, refl, Bool, true, false, Option, none, some, List, [], ◌∷◌,
  map, length, ltb, ◌&&◌, replicate, arith,
}
use ab_prototype.ZzP.Residues.{Residue}
use ab_prototype.RmCommon.{RmInfo, prime_info, fill_rm_info, fft_prime_from_bit_length}
use ab_prototype.Message.{Message, submit_message}
use ab_prototype.Message.Tests.{bytes7}
use ab_prototype.Stm.State.{batched_open_wf_predicates_2, rm_mixing_stm, get2, set2, store_column}
use ab_prototype.Stm.Handler.{message_handler, server_message, round_table, set_round_table}
use ab_prototype.Stm.Execute.{Context, execute_rm_stm, step, step_at, on_wait_for_inputs}
use ab_prototype.Stm.Progress.{for_inputs, for_expanded_preds}
use ab_prototype.SecretSharing.Samples.{mod7, Coeffs, poly7}
use ab_prototype.Roots.Samples.{inverse7, roots7}
use ab_prototype.Stm.Samples.{info7, context, start, message_of, values}
use ab_prototype.Server.Sessions.{find, put, AllValues}
use ab_prototype.Server.{
  Server, update, run_case, session, settle, handle_message, insert_clients, test_cases,
  mixing_cases, prime_cases, fixed_prime_cases, with_mixing_parameter,
}
use ab_prototype.Server.Served.{IsServing, IsServed, run_case-IsServed}
use ab_prototype.Server.Updates.{prepare_all, update-prepare_all}
use ab_prototype.Server.Independent.{find-handle_message}

-- Two sessions, in different states.
abbrev server : Server (Residue 7) Coeffs
server = record {
  stms = (1, start) ∷ (2, record start { sid = 2; stm_state = batched_open_wf_predicates_2 }) ∷ [];
  corrupted_clients = replicate 23 false;
  my_received_messages = record { deq_queue = [] };
  deserialized_msgs = record { deq_queue = [] };
  sent = [];
}

server-IsServing : AllValues IsServing server.stms
unfolding rm_mixing_stm
server-IsServing = (
  record { waiting = for_inputs; not_completed = λ e. omega arith },
  (record { waiting = for_expanded_preds; not_completed = λ e. omega arith }, tt),
)

abbrev prime7 : Context (Residue 7)
prime7 = record context { info = record info7 { fft_prime_info = prime_info 3 3 1 } }

-- A client's message for a new session.
abbrev client_messages : List (List (ℕ × Message))
client_messages = ((10000, submit_message 7 (values 3) 4 0 0) ∷ []) ∷ []

run_case-IsServed_example :
    (o : Option (Bool × Server (Residue 7) Coeffs)) × (run_case prime7 ⦃b = bytes7⦄ client_messages
        server
      ≡ some o)
    × IsServed prime7 o
run_case-IsServed_example =
    run_case-IsServed prime7 ⦃b = bytes7⦄ client_messages server server-IsServing

abbrev next : Bool × Server (Residue 7) Coeffs
next = elim (handle_message context (message_of 4 2 5) server) [
  | none ↦ (false, server)
  | some o ↦ elim o [ none ↦ (false, server) | some n ↦ n ]
]

find-handle_message_example : find 2 next.1.stms ≡ find 2 server.stms
unfolding handle_message session settle find put message_handler server_message round_table
    set_round_table get2 set2 store_column rm_mixing_stm fill_rm_info execute_rm_stm step step_at
    on_wait_for_inputs
find-handle_message_example =
    find-handle_message context (message_of 4 2 5) server next 2 refl (λ e. omega arith)

-- The message reached its session.
next_test : map (λ m. m.0) next.1.stms ≡ 1 ∷ 2 ∷ []
unfolding handle_message session settle find put message_handler server_message round_table
    set_round_table get2 set2 store_column rm_mixing_stm fill_rm_info execute_rm_stm step step_at
    on_wait_for_inputs
next_test = refl

-- There are 71 test cases, and the vectors of each fit the 16 bits of the header's count.
abbrev fits : List RmInfo → Bool
fits [] = true
fits (info ∷ cases) = let rest = fits cases in ltb info.N 65536 && rest

test_cases_test :
    Option.map {B = ℕ × Bool} (λ cases. (length cases, fits cases)) (test_cases info7)
    ≡ some (71, true)
unfolding test_cases mixing_cases prime_cases fixed_prime_cases with_mixing_parameter
    fft_prime_from_bit_length fill_rm_info
test_cases_test = refl

-- A client that was marked in one test case is still marked when the next one starts.
insert_clients_test : insert_clients 3 (false ∷ true ∷ []) ≡ false ∷ true ∷ false ∷ []
unfolding insert_clients
insert_clients_test = refl

abbrev two_received : List (ℕ × Message)
two_received =
    (10000, submit_message 7 (values 3) 4 0 0) ∷ (10001, submit_message 7 (values 5) 4 1 0) ∷ []

update-prepare_all_example : update 7 (0 + 1) 0 two_received server.deserialized_msgs ≡ (
    prepare_all 7 (take 1 two_received) >>= λ dms.
    some (drop 1 two_received, record { deq_queue = [] ++ dms }))
update-prepare_all_example = update-prepare_all 7 two_received 1 0 server.deserialized_msgs
