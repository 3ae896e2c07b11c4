-- ===== src/Stm/Messages.antt =====
-- `message_handler` of rm_server_stm.hpp: what the message of another server changes, repeated
-- messages, and messages that come after the record of their round was cleared.
use mathlib.Core.Option
use ab_prototype.Prelude.{
  ℕ, ◌+◌, ◌<◌, ◌≡◌, ◌≢◌, ◌⊎◌, inl, inr, refl, sym, ◌∙◌, Bool, true, false, some, none, List, [],
  length, get_elem?, set?, if◌then◌else◌, ◌>>=◌, >>=-eq-some,
}
use ab_prototype.RmCommon.{RmInfo, number_of_truths}
use ab_prototype.Message.{DeserializedMessage}
use ab_prototype.Stm.State.{Stm, get2, set2, store_column, column_of}
use ab_prototype.Stm.Handler.{
  Round, round1, round2, round3, round4, round_index, round_table, set_round_table, server_message,
  message_handler,
}
use ab_prototype.Stm.Tables.{
  set2-row, get2-set2, store_column-get2, number_of_truths-set?, length-set?,
}

-- The id of the state for which the messages of a round are.
unfoldable pub awaited : Round → ℕ
awaited round1 = 4
awaited round2 = 6
awaited round3 = 11
awaited round4 = 13

module _ {A P : Type 0} (info : RmInfo) where
  pub message_handler-server_message :
      (k : Round) (dm : DeserializedMessage A) (s : Stm A P)
      → dm.mixing_state_id ≡ awaited k
      → message_handler info dm s ≡ server_message k dm s
  unfolding message_handler awaited
  message_handler-server_message round1 dm s e = rw e
  message_handler-server_message round2 dm s e = rw e
  message_handler-server_message round3 dm s e = rw e
  message_handler-server_message round4 dm s e = rw e

  pub noted-unchanged :
      (k : Round) (dm : DeserializedMessage A) (s : Stm A P)
      → get2 s.msg_reception_status (round_index k) (column_of dm.sender_id) ≡ some true
      → server_message k dm s ≡ some s
  unfolding server_message
  noted-unchanged k dm s h = rw h

  -- What a first message of a round has done.
  pub record Stored (k : Round) (dm : DeserializedMessage A) (s s' : Stm A P) : Type 0 where
    pub was : get2 s.msg_reception_status (round_index k) (column_of dm.sender_id) ≡ some false
    pub table : List (List A)
    pub status : List (List Bool)
    pub stored :
        store_column (round_table k s) dm.body s.num_blocks1 (column_of dm.sender_id) ≡ some table
    pub marked :
        set2 s.msg_reception_status (round_index k) (column_of dm.sender_id) true ≡ some status
    pub now : record (set_round_table k table s) { msg_reception_status = status } ≡ s'

  pub server_message-cases :
      (k : Round) (dm : DeserializedMessage A) (s s' : Stm A P)
      → server_message k dm s ≡ some s'
      → ((get2 s.msg_reception_status (round_index k) (column_of dm.sender_id) ≡ some true)
          × (s ≡ s'))
        ⊎ Stored k dm s s'
  unfolding server_message
  server_message-cases k dm s s' h =
      let (noted, e, h1) =
        >>=-eq-some (get2 s.msg_reception_status (round_index k) (column_of dm.sender_id)) _ h in
      by_noted noted e h1
    where
      by_noted :
          (noted : Bool)
          → get2 s.msg_reception_status (round_index k) (column_of dm.sender_id) ≡ some noted
          → (if noted then some s else (do
            table ← store_column (round_table k s) dm.body s.num_blocks1 (column_of dm.sender_id)
            status ← set2 s.msg_reception_status (round_index k) (column_of dm.sender_id) true
            some (record (set_round_table k table s) { msg_reception_status = status })))
            ≡ some s'
          → ((get2 s.msg_reception_status (round_index k) (column_of dm.sender_id) ≡ some true)
              × (s ≡ s'))
            ⊎ Stored k dm s s'
      by_noted true e h1 = inl (e, Option.some-injective _ _ h1)
      by_noted false e h1 =
          let (table, et, h2) =
            >>=-eq-some
              (store_column (round_table k s) dm.body s.num_blocks1 (column_of dm.sender_id)) _
              h1 in
          let (status, es, h3) =
            >>=-eq-some (set2 s.msg_reception_status (round_index k) (column_of dm.sender_id) true)
              _ h2 in
          inr (record {
            was = e;
            table = table;
            status = status;
            stored = et;
            marked = es;
            now = Option.some-injective _ _ h3;
          })

  first-Stored :
      (k : Round) (dm : DeserializedMessage A) (s s' : Stm A P)
      → dm.mixing_state_id ≡ awaited k
      → get2 s.msg_reception_status (round_index k) (column_of dm.sender_id) ≡ some false
      → message_handler info dm s ≡ some s'
      → Stored k dm s s'
  first-Stored k dm s s' a first h =
      elim (server_message-cases k dm s s' (sym (message_handler-server_message k dm s a) ∙ h)) [
        | inl c ↦ cc
        | inr c ↦ c
      ]

  repeat-server_message :
      (k : Round) (dm dm' : DeserializedMessage A) (s s' : Stm A P)
      → dm'.sender_id ≡ dm.sender_id
      → server_message k dm s ≡ some s'
      → server_message k dm' s' ≡ some s'
  repeat-server_message k dm dm' s s' e h = elim (server_message-cases k dm s s' h) [
    | inl c ↦ noted-unchanged k dm' s' (rw (e, sym c.1) c.0)
    | inr c ↦ noted-unchanged k dm' s' (
        rw (e, sym c.now)
          (get2-set2 s.msg_reception_status c.status (round_index k) (column_of dm.sender_id) true
            c.marked))
  ]

  -- When a server's message of a round was handled, a further message of this server for this round
  -- is handled without a change of the state, whatever the two messages hold.
  pub message_handler-repeat :
      (k : Round) (dm dm' : DeserializedMessage A) (s s' : Stm A P)
      → dm.mixing_state_id ≡ awaited k
      → dm'.mixing_state_id ≡ awaited k
      → dm'.sender_id ≡ dm.sender_id
      → message_handler info dm s ≡ some s'
      → message_handler info dm' s' ≡ some s'
  message_handler-repeat k dm dm' s s' a a' e h =
      message_handler-server_message k dm' s' a'
      ∙ repeat-server_message k dm dm' s s' e (sym (message_handler-server_message k dm s a) ∙ h)

  pub round_table-set_round_table :
      (k : Round) (table : List (List A)) (status : List (List Bool)) (s : Stm A P)
      → round_table k (record (set_round_table k table s) { msg_reception_status = status }) ≡ table
  unfolding round_table set_round_table
  round_table-set_round_table round1 table status s = refl
  round_table-set_round_table round2 table status s = refl
  round_table-set_round_table round3 table status s = refl
  round_table-set_round_table round4 table status s = refl

  -- The first message of a server for a round that is handled: its body is in the server's column
  -- of the round's table, for each block, and the other columns are as they were.
  pub message_handler-round_table :
      (k : Round) (dm : DeserializedMessage A) (s s' : Stm A P)
      → dm.mixing_state_id ≡ awaited k
      → get2 s.msg_reception_status (round_index k) (column_of dm.sender_id) ≡ some false
      → message_handler info dm s ≡ some s'
      → (i : ℕ) → i < s.num_blocks1
      → (get2 (round_table k s') i (column_of dm.sender_id) ≡ get_elem? dm.body i)
        × ((j : ℕ)
            → j ≢ column_of dm.sender_id
            → get2 (round_table k s') i j ≡ get2 (round_table k s) i j)
  message_handler-round_table k dm s s' a first h i lt =
      let c = first-Stored k dm s s' a first h in
      rw (sym c.now, round_table-set_round_table k c.table c.status s)
        (store_column-get2 (round_table k s) c.table dm.body s.num_blocks1 (column_of dm.sender_id)
          c.stored i lt)

  -- The first message of a server for a round that is handled adds one to the number of true
  -- values in the round's record, and the record keeps its length.
  pub message_handler-number_of_truths :
      (k : Round) (dm : DeserializedMessage A) (s s' : Stm A P) (row : List Bool)
      → dm.mixing_state_id ≡ awaited k
      → get_elem? s.msg_reception_status (round_index k) ≡ some row
      → get_elem? row (column_of dm.sender_id) ≡ some false
      → message_handler info dm s ≡ some s'
      → (row' : List Bool) × (get_elem? s'.msg_reception_status (round_index k) ≡ some row')
        × (number_of_truths row' ≡ number_of_truths row + 1)
        × (length row' ≡ length row)
  unfolding get2
  message_handler-number_of_truths k dm s s' row a here first h =
      let c = first-Stored k dm s s' a (rw here first) h in
      let (old, row', e, f, g) =
        set2-row s.msg_reception_status c.status (round_index k) (column_of dm.sender_id) true
          c.marked in
      let old-row : old ≡ row = Option.some-injective _ _ (sym e ∙ here) in
      let f' : set? row (column_of dm.sender_id) true ≡ some row' = rw (sym old-row) f in
      (
        row',
        rw (sym c.now) g,
        number_of_truths-set? row row' (column_of dm.sender_id) first f',
        length-set? (column_of dm.sender_id) true row row' f',
      )

  -- A message for a round whose record was cleared is a fault.
  pub cleared-message_handler :
      (k : Round) (dm : DeserializedMessage A) (s : Stm A P)
      → dm.mixing_state_id ≡ awaited k
      → get_elem? s.msg_reception_status (round_index k) ≡ some []
      → message_handler info dm s ≡ none
  unfolding server_message get2
  cleared-message_handler k dm s a h = message_handler-server_message k dm s a ∙ rw h
