-- ===== src/Server.antt =====
-- The main loop of rm_server_main.cpp: the test cases, and the sessions to whose machines the
-- messages go. `none` is a fault, as elsewhere; where the loop of a machine may not end, the outer
-- option is its fuel. Six rounds are its fuel.
pub mod Sessions
mod Tests
mod Served
mod Independent
mod Updates
use ab_prototype.Prelude.{
  ℕ, zero, suc, ◌+◌, ◌-◌, ◌*◌, Bool, true, false, Option, none, some, List, [], ◌∷◌, ◌++◌, length,
  ltb, ◌==◌, if◌then◌else◌, ◌>>=◌,
}
use ab_prototype.ZzP.{ZzP}
use ab_prototype.RmCommon.{RmInfo, fft_prime_from_bit_length}
use ab_prototype.Message.{Message, Bytes, DeserializedMessage, prepare_message}
use ab_prototype.Queue.{AsyncQueue, push_back}
use ab_prototype.SecretSharing.{Poly}
use ab_prototype.Roots.Field.{Inverse, PolyRoots}
use ab_prototype.Stm.State.{Stm, Output, state_id, rm_mixing_stm}
use ab_prototype.Stm.Handler.{message_handler}
use ab_prototype.Stm.Execute.{Context, Run, execute_rm_stm}
use ab_prototype.Server.Sessions.{find, put, erase}

-- rm_common.hpp: the parameters of the test cases.
abbrev pub prime_length : List ℕ
prime_length = 256 ∷ 384 ∷ 512 ∷ 640 ∷ 768 ∷ 896 ∷ 1024 ∷ 1152 ∷ 1280 ∷ 1408 ∷ 1536 ∷ 1664 ∷ []

abbrev pub l_value : List ℕ
l_value = 5 ∷ 9 ∷ 12 ∷ 14 ∷ 16 ∷ []

abbrev pub test_plen : ℕ
test_plen = 256

abbrev pub l_value2 : List ℕ
l_value2 = 6 ∷ 10 ∷ 13 ∷ 16 ∷ 18 ∷ 20 ∷ 22 ∷ 23 ∷ 25 ∷ 26 ∷ 27 ∷ []

-- The parameters with another L.
unfoldable pub with_mixing_parameter : ℕ → RmInfo → RmInfo
with_mixing_parameter L info = record info { L = L; N = 14 * (L * L) + 10 * L - 1 }

-- The inner loop, over the lengths of the prime.
unfoldable pub prime_cases : ℕ → List ℕ → RmInfo → Option (List RmInfo)
unfolding with_mixing_parameter
prime_cases L [] info = some []
prime_cases L (bits ∷ rest) info = do
  fft_prime_info ← fft_prime_from_bit_length bits
  let info' = with_mixing_parameter L (record info { fft_prime_info = fft_prime_info })
  others ← prime_cases L rest info'
  some (info' ∷ others)

-- The first loop, over the values of L.
unfoldable pub mixing_cases : List ℕ → RmInfo → Option (List RmInfo)
unfolding prime_cases
mixing_cases [] info = some []
mixing_cases (L ∷ rest) info = do
  cases ← prime_cases L prime_length info
  others ← mixing_cases rest info
  some (cases ++ others)

-- The second loop, with one prime.
unfoldable pub fixed_prime_cases : List ℕ → RmInfo → List RmInfo
unfolding with_mixing_parameter
fixed_prime_cases [] info = []
fixed_prime_cases (L ∷ rest) info = with_mixing_parameter L info ∷ fixed_prime_cases rest info

unfoldable pub test_cases : RmInfo → Option (List RmInfo)
unfolding mixing_cases fixed_prime_cases
test_cases info = do
  cases ← mixing_cases l_value info
  fft_prime_info ← fft_prime_from_bit_length test_plen
  some (cases ++ fixed_prime_cases l_value2 (record info { fft_prime_info = fft_prime_info }))

-- `corrupted_clients->insert({i, false})` for i from 0 to N: a client that is there keeps its value.
unfoldable pub insert_clients : ℕ → List Bool → List Bool
insert_clients zero corr = corr
insert_clients (suc n) [] = false ∷ insert_clients n []
insert_clients (suc n) (b ∷ corr) = b ∷ insert_clients n corr

-- What the main loop keeps.
pub record Server (A P : Type 0) : Type 0 where
  pub stms : List (ℕ × Stm A P)
  pub corrupted_clients : List Bool
  pub my_received_messages : AsyncQueue (ℕ × Message)
  pub deserialized_msgs : AsyncQueue (DeserializedMessage A)
  pub sent : List (Output A)

-- network_server.hpp: `update` deserializes what was received, at most `max_messages` messages. It
-- leaves those that it did not read.
unfoldable pub update :
    {A : Type 0} (prime : ℕ) ⦃b : Bytes A prime⦄
    → ℕ
    → ℕ
    → List (ℕ × Message)
    → AsyncQueue (DeserializedMessage A)
    → Option (List (ℕ × Message) × AsyncQueue (DeserializedMessage A))
unfolding push_back
update prime max_messages message_count [] deserialized = some ([], deserialized)
update prime max_messages message_count ((conn, msg) ∷ received) deserialized =
    let rest = (do
      dm ← prepare_message prime conn msg
      update prime max_messages (message_count + 1) received (push_back dm deserialized)) in
    if ltb message_count max_messages then rest else some ((conn, msg) ∷ received, deserialized)

module _ {A P : Type 0} ⦃z : ZzP A⦄ ⦃p : Poly A P⦄ ⦃v : Inverse A⦄ ⦃q : PolyRoots A P⦄
    (c : Context A) where
  -- The machine of a session, a new one where there is none.
  unfoldable pub session : ℕ → List (ℕ × Stm A P) → Stm A P
  session sid stms = elim (find sid stms) [ none ↦ rm_mixing_stm c.info sid | some stm ↦ stm ]

  -- A machine that has completed its session is removed, and the case ends.
  unfoldable pub settle : ℕ → Server A P → Run A P → Bool × Server A P
  settle sid s r =
      if state_id r.stm.stm_state == 15
      then (
        false,
        record s { stms = erase sid s.stms; corrupted_clients = r.corr_clients; sent = r.sent },
      )
      else (
        true,
        record s { stms = put sid r.stm s.stms; corrupted_clients = r.corr_clients; sent = r.sent },
      )

  -- The body of the loop over the messages: whether the case goes on, and the server.
  unfoldable pub handle_message :
      DeserializedMessage A → Server A P → Option (Option (Bool × Server A P))
  unfolding session settle
  handle_message dm s = elim (message_handler c.info dm (session dm.sid s.stms)) [
    | none ↦ some none
    | some stm ↦
        elim (execute_rm_stm c 6
          (record { stm = stm; corr_clients = s.corrupted_clients; sent = s.sent })) [
            | none ↦ none
            | some ended ↦ elim ended [
              | none ↦ some none
              | some r ↦ some (some (settle dm.sid s r))
            ]
          ]
  ]

  -- `while (deserialzed_msgs.count() != 0)`: the messages are those of the queue, in their order;
  -- the end of a case leaves the others in it.
  unfoldable pub handle_messages :
      List (DeserializedMessage A) → Server A P → Option (Option (Bool × Server A P))
  unfolding handle_message
  handle_messages [] s =
      some (some (true, record s { deserialized_msgs = record { deq_queue = [] } }))
  handle_messages (dm ∷ rest) s = elim (handle_message dm s) [
    | none ↦ none
    | some handled ↦ elim handled [
      | none ↦ some none
      | some next ↦
          let later = handle_messages rest next.1 in
          if next.0
          then later
          else some
              (some (false, record (next.1) { deserialized_msgs = record { deq_queue = rest } }))
    ]
  ]

module _ {A P : Type 0} ⦃z : ZzP A⦄ ⦃p : Poly A P⦄ ⦃v : Inverse A⦄ ⦃q : PolyRoots A P⦄
    (c : Context A) ⦃b : Bytes A c.info.fft_prime_info.prime⦄ where
  -- `while (is_cont)`, over what was received before each of its rounds. The limit of `update` is
  -- the largest `size_t`.
  unfoldable pub serve :
      List (List (ℕ × Message)) → Server A P → Option (Option (Bool × Server A P))
  unfolding update handle_messages
  serve [] s = some (some (true, s))
  serve (received ∷ rounds) s =
      elim (update c.info.fft_prime_info.prime 18446744073709551615 0
        (s.my_received_messages.deq_queue ++ received) s.deserialized_msgs) [
          | none ↦ some none
          | some (left, queue) ↦
              elim (handle_messages c queue.deq_queue
                (record s { my_received_messages = record { deq_queue = left } })) [
                  | none ↦ none
                  | some handled ↦ elim handled [
                    | none ↦ some none
                    | some next ↦
                        let later = serve rounds next.1 in
                        if next.0 then later else some (some next)
                  ]
                ]
        ]

  -- A test case: the clients are entered as not corrupted, and the loop runs.
  unfoldable pub run_case :
      List (List (ℕ × Message)) → Server A P → Option (Option (Bool × Server A P))
  unfolding insert_clients
  run_case rounds s =
      serve rounds (record s { corrupted_clients = insert_clients c.info.N s.corrupted_clients })
