-- ===== src/Stm/Orders.antt =====
-- `message_handler` of rm_server_stm.hpp on messages of two servers for the same round: the order
-- in which they come does not matter.
use ab_prototype.Prelude.{
  ℕ, ◌≡◌, ◌≢◌, inl, inr, refl, sym, ap, ◌∙◌, Bool, true, false, some, List, >>=_run,
}
use ab_prototype.RmCommon.{RmInfo}
use ab_prototype.Message.{DeserializedMessage}
use ab_prototype.Stm.State.{Stm, get2, set2, store_column, column_of}
use ab_prototype.Stm.Handler.{
  Round, round1, round2, round3, round4, round_index, round_table, set_round_table, server_message,
  message_handler,
}
use ab_prototype.Stm.Messages.{
  awaited, message_handler-server_message, noted-unchanged, Stored, server_message-cases,
  round_table-set_round_table,
}
use ab_prototype.Stm.Swaps.{store_column-swap, set2-swap, get2-set2_other}

module _ {A P : Type 0} (info : RmInfo) where
  -- A state with another table of a round and other records.
  abbrev updated : Round → List (List A) → List (List Bool) → Stm A P → Stm A P
  updated k table status s = record (set_round_table k table s) { msg_reception_status = status }

  blocks_kept :
      (k : Round) (table : List (List A)) (s : Stm A P)
      → (set_round_table k table s).num_blocks1 ≡ s.num_blocks1
  unfolding set_round_table
  blocks_kept round1 table s = refl
  blocks_kept round2 table s = refl
  blocks_kept round3 table s = refl
  blocks_kept round4 table s = refl

  updated_twice :
      (k : Round) (table table' : List (List A)) (status status' : List (List Bool)) (s : Stm A P)
      → updated k table' status' (updated k table status s) ≡ updated k table' status' s
  unfolding set_round_table
  updated_twice round1 table table' status status' s = refl
  updated_twice round2 table table' status status' s = refl
  updated_twice round3 table table' status status' s = refl
  updated_twice round4 table table' status status' s = refl

  -- A first message of a round runs.
  server_message-Stored :
      (k : Round) (dm : DeserializedMessage A) (s : Stm A P) {table : List (List A)}
      {status : List (List Bool)}
      → get2 s.msg_reception_status (round_index k) (column_of dm.sender_id) ≡ some false
      → store_column (round_table k s) dm.body s.num_blocks1 (column_of dm.sender_id) ≡ some table
      → set2 s.msg_reception_status (round_index k) (column_of dm.sender_id) true ≡ some status
      → server_message k dm s ≡ some (updated k table status s)
  unfolding server_message
  server_message-Stored k dm s was e f = >>=_run _ was ∙ >>=_run _ e ∙ >>=_run _ f

  -- The record of another server is as it was.
  record_kept :
      (k : Round) (dm : DeserializedMessage A) (s s1 : Stm A P) (column : ℕ)
      → column ≢ column_of dm.sender_id
      → server_message k dm s ≡ some s1
      → get2 s1.msg_reception_status (round_index k) column
        ≡ get2 s.msg_reception_status (round_index k) column
  record_kept k dm s s1 column ne h = elim (server_message-cases info k dm s s1 h) [
    | inl c ↦ ap (λ (x : Stm A P). get2 x.msg_reception_status (round_index k) column) (sym c.1)
    | inr c ↦
        ap (λ (x : Stm A P). get2 x.msg_reception_status (round_index k) column) (sym c.now)
        ∙ get2-set2_other (round_index k) (column_of dm.sender_id) column true
            s.msg_reception_status c.status ne c.marked
  ]

  -- The store of a second message, after an update of the round by a first one.
  store_after :
      (k : Round) (table : List (List A)) (status : List (List Bool)) (s s1 : Stm A P)
      (body : List A) (column : ℕ)
      → updated k table status s ≡ s1
      → store_column (round_table k s1) body s1.num_blocks1 column
        ≡ store_column table body s.num_blocks1 column
  store_after k table status s s1 body column e =
      ap (λ (x : Stm A P). store_column (round_table k x) body x.num_blocks1 column) (sym e)
      ∙ ap (λ t. store_column t body (set_round_table k table s).num_blocks1 column)
          (round_table-set_round_table info k table status s)
      ∙ ap (λ n. store_column table body n column) (blocks_kept k table s)

  swap-Stored :
      (k : Round) (dm dm' : DeserializedMessage A) (s s1 s2 : Stm A P)
      → column_of dm.sender_id ≢ column_of dm'.sender_id
      → server_message k dm s ≡ some s1
      → Stored info k dm s s1
      → Stored info k dm' s1 s2
      → (other : Stm A P) × (server_message k dm' s ≡ some other)
        × (server_message k dm other ≡ some s2)
  swap-Stored k dm dm' s s1 s2 ne h c c' =
      let (table, e, f) =
        store_column-swap s.num_blocks1 (column_of dm.sender_id) (column_of dm'.sender_id) dm.body
          dm'.body (round_table k s) c.table c'.table ne c.stored
          (sym (store_after k c.table c.status s s1 dm'.body (column_of dm'.sender_id) c.now)
            ∙ c'.stored) in
      let (status, e', f') =
        set2-swap (round_index k) (column_of dm.sender_id) (column_of dm'.sender_id) true true
          s.msg_reception_status c.status c'.status ne c.marked
          (ap
              (λ (x : Stm A P).
                set2 x.msg_reception_status (round_index k) (column_of dm'.sender_id) true)
              c.now
            ∙ c'.marked) in
      (
        updated k table status s,
        server_message-Stored k dm' s
            (sym (record_kept k dm s s1 (column_of dm'.sender_id) (λ x. ne (sym x)) h) ∙ c'.was) e
            e',
        server_message-Stored k dm (updated k table status s)
              (get2-set2_other (round_index k) (column_of dm'.sender_id) (column_of dm.sender_id)
                  true s.msg_reception_status status ne e'
                ∙ c.was)
              (store_after k table status s (updated k table status s) dm.body
                  (column_of dm.sender_id) refl
                ∙ f)
              f'
            ∙ ap some (
                updated_twice k table c'.table status c'.status s
                ∙ sym (updated_twice k c.table c'.table c.status c'.status s)
                ∙ ap (λ x. updated k c'.table c'.status x) c.now
                ∙ c'.now),
      )

  server_message-swap :
      (k : Round) (dm dm' : DeserializedMessage A) (s s1 s2 : Stm A P)
      → column_of dm.sender_id ≢ column_of dm'.sender_id
      → server_message k dm s ≡ some s1
      → server_message k dm' s1 ≡ some s2
      → (other : Stm A P) × (server_message k dm' s ≡ some other)
        × (server_message k dm other ≡ some s2)
  server_message-swap k dm dm' s s1 s2 ne h h' = elim (server_message-cases info k dm s s1 h) [
    | inl c ↦ (
      s2,
      ap (server_message k dm') c.1 ∙ h',
      noted-unchanged info k dm s2 (
          record_kept k dm' s1 s2 (column_of dm.sender_id) ne h'
          ∙ ap
              (λ (x : Stm A P).
                get2 x.msg_reception_status (round_index k) (column_of dm.sender_id))
              (sym c.1)
          ∙ c.0),
    )
    | inr c ↦ elim (server_message-cases info k dm' s1 s2 h') [
      | inl c' ↦ (
        s,
        noted-unchanged info k dm' s
            (sym (record_kept k dm s s1 (column_of dm'.sender_id) (λ x. ne (sym x)) h) ∙ c'.0),
        h ∙ ap some c'.1,
      )
      | inr c' ↦ swap-Stored k dm dm' s s1 s2 ne h c c'
    ]
  ]

  -- If the messages of two servers (with different columns) for the same round are handled one
  -- after the other, then they are handled in the other order too, with the same state at the end.
  pub message_handler-swap :
      (k : Round) (dm dm' : DeserializedMessage A) (s s1 s2 : Stm A P)
      → dm.mixing_state_id ≡ awaited k
      → dm'.mixing_state_id ≡ awaited k
      → column_of dm.sender_id ≢ column_of dm'.sender_id
      → message_handler info dm s ≡ some s1
      → message_handler info dm' s1 ≡ some s2
      → (other : Stm A P) × (message_handler info dm' s ≡ some other)
        × (message_handler info dm other ≡ some s2)
  message_handler-swap k dm dm' s s1 s2 a a' ne h h' =
      let (other, e, f) =
        server_message-swap k dm dm' s s1 s2 ne
          (sym (message_handler-server_message info k dm s a) ∙ h)
          (sym (message_handler-server_message info k dm' s1 a') ∙ h') in
      (
        other,
        message_handler-server_message info k dm' s a' ∙ e,
        message_handler-server_message info k dm other a ∙ f,
      )
