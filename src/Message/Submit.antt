-- ===== src/Message/Submit.antt =====
-- `submit_message` of rm_client.hpp: what a server reads of a client's message.
use ab_prototype.Prelude.{
  ℕ, ◌<◌, ◌≡◌, refl, sym, ap, ◌∙◌, some, List, [], ◌∷◌, length, take, take_all, arith,
}
use ab_prototype.Message.{
  Bytes, Message, u16, u32, serialize_from_zz_p, serialize_all, serialize_from_vec_zz_p,
  deserialize_to_vec_zz_p, submit_message, prepare_message,
}
use ab_prototype.Message.RoundTrip.{
  serialize_all-header, deserialize-serialize, prepare_message-body,
}

module _ {A : Type 0} (prime : ℕ) ⦃b : Bytes A prime⦄ where
  serialize_all-time :
      (msg : Message) (xs : List A) → (serialize_all prime msg xs).header.time ≡ msg.header.time
  unfolding serialize_all serialize_from_zz_p
  serialize_all-time msg [] = refl
  serialize_all-time msg (x ∷ xs) = serialize_all-time msg xs

  -- The server reads what a client submitted: the vector, as a message for the state 0 of the
  -- session, from the client with its number.
  pub prepare_message-submit_message :
      (vec : List A) (sid my_id now conn : ℕ)
      → length vec < 65536
      → prepare_message prime conn (submit_message prime vec sid my_id now)
        ≡ some (record {
          sid = u32 sid;
          mixing_state_id = 0;
          sender_id = u32 my_id;
          block_idx = 1;
          tot_num_blocks = 1;
          conn = conn;
          body = vec;
        })
  unfolding submit_message serialize_from_vec_zz_p
  prepare_message-submit_message vec sid my_id now conn h =
      let count : u16 (length vec) ≡ length vec = omega arith in
      let start : Message = record {
        header = record {
          sid = u32 sid;
          sender_id = u32 my_id;
          mixing_state_id = 0;
          block_idx = 1;
          tot_num_blocks = 1;
          dimension = 1;
          num_zz_p = u16 (length vec);
          size = 0;
          time = now;
        };
        body = [];
      } in
      let msg : Message = serialize_from_vec_zz_p prime start vec in
      let (rest, run, size) = deserialize-serialize prime start vec in
      let whole : take (u16 (length vec)) vec ≡ vec = take_all vec _ (omega arith) in
      let read : deserialize_to_vec_zz_p prime msg ≡ some (vec, rest) =
        run ∙ ap (λ (xs : List A). some (xs, rest)) whole in
      let (e0, e1, e2, e3, e4, e5) = serialize_all-header prime start vec in
      let timed : record msg { header = record (msg.header) { time = now } } ≡ msg =
        ap (λ (t : ℕ). record msg { header = record (msg.header) { time = t } })
          (sym (serialize_all-time start vec)) in
      ap (prepare_message prime conn) timed
      ∙ prepare_message-body prime msg rest vec conn read (omega arith)
      ∙ cc
