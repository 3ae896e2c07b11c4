-- ===== src/Stm/Kept.antt =====
-- `message_handler` of rm_server_stm.hpp leaves the state of the machine as it is: only the loop
-- `execute_rm_stm` changes it.
use ab_prototype.Prelude.{
  ◌≡◌, refl, sym, ap, ◌∙◌, true, some, List, set?, length, ◌==◌, guard, ◌>>=◌, >>=-eq-some,
  Bool-cases, inl, inr, arith,
}
use ab_prototype.RmCommon.{RmInfo}
use ab_prototype.Message.{DeserializedMessage}
use ab_prototype.Stm.State.{Stm, get2, set2, store_column, column_of}
use ab_prototype.Stm.Handler.{
  Round, round1, round2, round3, round4, round_index, round_table, set_round_table, first_client,
  client_message, server_message, message_handler,
}

module _ {A P : Type 0} where
  set_round_table-stm_state :
      (r : Round) (table : List (List A)) (s : Stm A P)
      → (set_round_table r table s).stm_state ≡ s.stm_state
  unfolding set_round_table
  set_round_table-stm_state round1 table s = refl
  set_round_table-stm_state round2 table s = refl
  set_round_table-stm_state round3 table s = refl
  set_round_table-stm_state round4 table s = refl

  first_client-stm_state :
      (info : RmInfo) (dm : DeserializedMessage A) (s : Stm A P)
      → (first_client info dm s).stm_state ≡ s.stm_state
  unfolding first_client
  first_client-stm_state info dm s = ground arith

  client_message-stm_state :
      (info : RmInfo) (dm : DeserializedMessage A) (s s' : Stm A P)
      → client_message info dm s ≡ some s'
      → s'.stm_state ≡ s.stm_state
  unfolding client_message
  client_message-stm_state info dm s s' e =
      let (u, checked, e1) =
        >>=-eq-some (guard (length (first_client info dm s).client_input == info.N)) _ e in
      let (inputs, stored, e2) =
        >>=-eq-some (set? (first_client info dm s).client_input dm.sender_id dm.body) _ e1 in
      let eq : (first_client info dm s).stm_state ≡ s'.stm_state = cc in
      sym eq ∙ first_client-stm_state info dm s

  server_message-stm_state :
      (r : Round) (dm : DeserializedMessage A) (s s' : Stm A P)
      → server_message r dm s ≡ some s'
      → s'.stm_state ≡ s.stm_state
  unfolding server_message
  server_message-stm_state r dm s s' e =
      let (noted, read, e1) =
        >>=-eq-some (get2 s.msg_reception_status (round_index r) (column_of dm.sender_id)) _ e in
      elim (Bool-cases noted) [
        | inl t ↦
            let e2 : some s ≡ some s' = rw t at e1 in
            let same : s ≡ s' = cc in ap (λ m. m.stm_state) (sym same)
        | inr t ↦
            let e2 : (store_column (round_table r s) dm.body s.num_blocks1 (column_of dm.sender_id)
                  >>= λ table.
                      set2 s.msg_reception_status (round_index r) (column_of dm.sender_id) true
                      >>= λ status.
                          some
                            (record (set_round_table r table s) { msg_reception_status = status }))
                ≡ some s' =
              rw t at e1 in
            let (table, wrote, e3) =
              >>=-eq-some
                (store_column (round_table r s) dm.body s.num_blocks1 (column_of dm.sender_id)) _
                e2 in
            let (status, noted', e4) =
              >>=-eq-some
                (set2 s.msg_reception_status (round_index r) (column_of dm.sender_id) true) _ e3 in
            let eq : (set_round_table r table s).stm_state ≡ s'.stm_state = cc in
            sym eq ∙ set_round_table-stm_state r table s
      ]

  pub message_handler-stm_state :
      (info : RmInfo) (dm : DeserializedMessage A) (s s' : Stm A P)
      → message_handler info dm s ≡ some s'
      → s'.stm_state ≡ s.stm_state
  unfolding message_handler
  message_handler-stm_state info dm s s' e = ground (
    arith,
    client_message-stm_state info dm s s',
    server_message-stm_state round1 dm s s',
    server_message-stm_state round2 dm s s',
    server_message-stm_state round3 dm s s',
    server_message-stm_state round4 dm s s',
  )
