-- ===== src/Stm/Handler.antt =====
-- `message_handler` of rm_server_stm.hpp: what a message from a client or another server changes.
use ab_prototype.Prelude.{
  ℕ, zero, suc, ◌+◌, true, Option, some, List, [], ◌∷◌, length, set?, ◌==◌, if◌then◌else◌, guard,
  ◌>>=◌, ◌>>◌,
}
use ab_prototype.RmCommon.{RmInfo}
use ab_prototype.Message.{DeserializedMessage}
use ab_prototype.Stm.State.{Stm, get2, set2, store_column, column_of}

-- `SetLength`: what fits is kept, what is new is empty.
unfoldable pub set_length {ℓ} : {B : Type ℓ} → B → ℕ → List B → List B
set_length b zero xs = []
set_length b (suc n) [] = b ∷ set_length b n []
set_length b (suc n) (x ∷ xs) = x ∷ set_length b n xs

-- `map::insert`: a key that is there keeps its value.
unfoldable pub insert_connection : ℕ → ℕ → List (ℕ × ℕ) → List (ℕ × ℕ)
insert_connection k v [] = (k, v) ∷ []
insert_connection k v ((j, w) ∷ m) =
    let rest = insert_connection k v m in if j == k then (j, w) ∷ m else (j, w) ∷ rest

-- The rounds of messages between servers, by the id of the state in which they are awaited.
pub data Round : Type 0 where
  round1 round2 round3 round4 : Round

abbrev pub round_index : Round → ℕ
round_index round1 = 0
round_index round2 = 1
round_index round3 = 2
round_index round4 = 3

module _ {A P : Type 0} where
  -- The first message of a session makes room for the inputs and keeps the client's connection.
  unfoldable pub first_client : RmInfo → DeserializedMessage A → Stm A P → Stm A P
  first_client info dm s =
      if s.client_msg_counter == 0
      then record s {
        client_input = set_length [] info.N s.client_input;
        rm_client_connections = insert_connection dm.sender_id dm.conn s.rm_client_connections;
      }
      else s

  -- A message of a client. Its length is checked, and nothing follows from that.
  unfoldable pub client_message : RmInfo → DeserializedMessage A → Stm A P → Option (Stm A P)
  unfolding first_client
  client_message info dm s = do
    let s1 = first_client info dm s
    guard (length s1.client_input == info.N)
    inputs ← set? s1.client_input dm.sender_id dm.body
    some (record s1 { client_input = inputs; client_msg_counter = s1.client_msg_counter + 1 })

  -- The table into which a round's messages go.
  unfoldable pub round_table : Round → Stm A P → List (List A)
  round_table round1 s = s.rec_exp_shares1
  round_table round2 s = s.ret_open_exp_shares1
  round_table round3 s = s.rec_exp_shares1
  round_table round4 s = s.ret_open_exp_shares2

  unfoldable pub set_round_table : Round → List (List A) → Stm A P → Stm A P
  set_round_table round1 table s = record s { rec_exp_shares1 = table }
  set_round_table round2 table s = record s { ret_open_exp_shares1 = table }
  set_round_table round3 table s = record s { rec_exp_shares1 = table }
  set_round_table round4 table s = record s { ret_open_exp_shares2 = table }

  -- A message of a server: stored in its column and noted, unless one of this round was noted.
  unfoldable pub server_message : Round → DeserializedMessage A → Stm A P → Option (Stm A P)
  server_message r dm s = do
    noted ← get2 s.msg_reception_status (round_index r) (column_of dm.sender_id)
    (let stored = (do
      table ← store_column (round_table r s) dm.body s.num_blocks1 (column_of dm.sender_id)
      status ← set2 s.msg_reception_status (round_index r) (column_of dm.sender_id) true
      some (record (set_round_table r table s) { msg_reception_status = status })) in
        if noted then some s else stored)

  -- The `switch` on the state id of the message; a message for any other state is dropped.
  unfoldable pub message_handler : RmInfo → DeserializedMessage A → Stm A P → Option (Stm A P)
  unfolding client_message server_message round_table set_round_table
  message_handler info dm s =
      if dm.mixing_state_id == 0
      then client_message info dm s
      else if dm.mixing_state_id == 4
      then server_message round1 dm s
      else if dm.mixing_state_id == 6
      then server_message round2 dm s
      else if dm.mixing_state_id == 11
      then server_message round3 dm s
      else if dm.mixing_state_id == 13
      then server_message round4 dm s
      else some s
