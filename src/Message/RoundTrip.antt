-- ===== src/Message/RoundTrip.antt =====
-- What is serialized is what is deserialized.
use ab_prototype.Prelude.{
  ==_iff, ℕ, zero, suc, ◌+◌, ◌-◌, ◌<◌, ◌≤◌, ◌≡◌, refl, ap, ◌∙◌, some, List, [], ◌∷◌, ◌++◌, length,
  length-append, take, drop, take-append, drop-append, take_all, leb, true, arith,
}
use ab_prototype.RmCommon.{RmInfo}
use ab_prototype.Message.{
  Bytes, Message, u16, u32, header_size, with_body, serialize_from_zz_p, serialize_all,
  prepare_message, serialize_from_vec_zz_p, deserialize_to_zz_p, deserialize_count,
  deserialize_to_vec_zz_p, send_vector,
}

-- All of a header but the size of the body.
abbrev pub SameHeader : Message → Message → Type 0
SameHeader m m' =
    (m.header.sid ≡ m'.header.sid)
    × (m.header.sender_id ≡ m'.header.sender_id)
    × (m.header.mixing_state_id ≡ m'.header.mixing_state_id)
    × (m.header.block_idx ≡ m'.header.block_idx)
    × (m.header.tot_num_blocks ≡ m'.header.tot_num_blocks)
    × (m.header.num_zz_p ≡ m'.header.num_zz_p)

module _ {A : Type 0} (prime : ℕ) ⦃b : Bytes A prime⦄ where
  -- What follows the bytes of one element is left alone.
  deserialize_to_zz_p-body :
      (msg : Message) (before : List ℕ) (x : A)
      → msg.body ≡ before ++ b.bytes_from_zz (b.rep x) (b.num_bytes prime)
      → deserialize_to_zz_p prime msg ≡ some (x, with_body msg before (header_size + length before))
  unfolding deserialize_to_zz_p
  deserialize_to_zz_p-body msg before x e = rw (enough, start, last, rest, back)
    where
      bytes : List ℕ
      bytes = b.bytes_from_zz (b.rep x) (b.num_bytes prime)

      size : length msg.body ≡ length before + b.num_bytes prime
      size =
          ap length e
          ∙ length-append before bytes
          ∙ ap (λ (n : ℕ). length before + n) (b.length-bytes_from_zz (b.rep x) (b.num_bytes prime))

      enough : leb (b.num_bytes prime) (length msg.body) ≡ true
      enough = ground (arith, size)

      start : length msg.body - b.num_bytes prime ≡ length before
      start = omega (arith, size)

      last : drop (length before) msg.body ≡ bytes
      last = rw e (drop-append before bytes (length before) refl)

      rest : take (length before) msg.body ≡ before
      rest = rw e (take-append before bytes (length before) refl)

      back : b.of_zz (b.zz_from_bytes bytes) ≡ x
      back =
          ap b.of_zz (
            b.zz_from_bytes-bytes_from_zz (b.rep x) (b.num_bytes prime)
              (b.lt-num_bytes (b.rep x) (b.rep-lt x)))
          ∙ b.of_zz-rep x

  serialize_all-body :
      (msg : Message) (x : A) (xs : List A)
      → (serialize_all prime msg (x ∷ xs)).body
        ≡ (serialize_all prime msg xs).body ++ b.bytes_from_zz (b.rep x) (b.num_bytes prime)
  unfolding serialize_all serialize_from_zz_p
  serialize_all-body msg x xs = refl

  pub serialize_all-header :
      (msg : Message) (xs : List A) → SameHeader (serialize_all prime msg xs) msg
  unfolding serialize_all serialize_from_zz_p
  serialize_all-header msg [] = (refl, refl, refl, refl, refl, refl)
  serialize_all-header msg (x ∷ xs) = serialize_all-header msg xs

  -- Reading k elements off a body into which a longer vector was serialized gives its first k.
  deserialize_count-serialize_all :
      (k : ℕ) (start msg : Message) (xs : List A)
      → k ≤ length xs
      → msg.body ≡ (serialize_all prime start xs).body
      → (rest : Message) × (deserialize_count prime k msg ≡ some (take k xs, rest))
        × (rest.body ≡ (serialize_all prime start (drop k xs)).body)
        × (rest.header.num_zz_p ≡ msg.header.num_zz_p)
  unfolding deserialize_count
  deserialize_count-serialize_all zero start msg xs h e = (msg, refl, e, refl)
  deserialize_count-serialize_all (suc k) start msg [] h e = absurd (omega arith)
  deserialize_count-serialize_all (suc k) start msg (x ∷ xs) h e =
      let before : List ℕ = (serialize_all prime start xs).body in
      let msg1 : Message = with_body msg before (header_size + length before) in
      let first = deserialize_to_zz_p-body msg before x (e ∙ serialize_all-body start x xs) in
      let (rest, run, left, same) =
        deserialize_count-serialize_all k start msg1 xs (omega arith) refl in
      (rest, rw (first, run), left, same)

  -- What is deserialized from a vector serialized into an empty body: as many of its first
  -- elements as the 16-bit count of the header says.
  pub deserialize-serialize :
      (msg : Message) (vec : List A)
      → (rest : Message) × (deserialize_to_vec_zz_p prime (serialize_from_vec_zz_p prime msg vec)
          ≡ some (take (u16 (length vec)) vec, rest))
        × (rest.header.num_zz_p ≡ u16 (length vec))
  unfolding deserialize_to_vec_zz_p serialize_from_vec_zz_p
  deserialize-serialize msg vec =
      let start : Message = record msg {
        header = record (msg.header) { num_zz_p = u16 (length vec) };
      } in
      let count = (serialize_all-header start vec).5 in
      let (rest, run, left, same) =
        deserialize_count-serialize_all (u16 (length vec)) start (serialize_all prime start vec) vec
          (omega arith) refl in
      let message : Message = serialize_all prime start vec in
      (rest, ap (λ (k : ℕ). deserialize_count prime k message) count ∙ run, same ∙ count)

  pub prepare_message-body :
      (msg rest : Message) (body : List A) (conn : ℕ)
      → deserialize_to_vec_zz_p prime msg ≡ some (body, rest)
      → length body ≡ rest.header.num_zz_p
      → prepare_message prime conn msg
        ≡ some (record {
          sid = msg.header.sid;
          mixing_state_id = msg.header.mixing_state_id;
          sender_id = msg.header.sender_id;
          block_idx = msg.header.block_idx;
          tot_num_blocks = msg.header.tot_num_blocks;
          conn = conn;
          body = body;
        })
  unfolding prepare_message
  prepare_message-body msg rest body conn run size =
      rw (run, (==_iff (length body) rest.header.num_zz_p).1 size)

  -- The server reads what `send_vector` sent: for a vector of fewer than 2 ^ 16 elements the
  -- deserialized message has the vector, and the ids of the session, the sender, the state and the
  -- block as the header can hold them.
  pub prepare_message-send_vector :
      (vec : List A) (info : RmInfo) (sid state block_idx blocks dimension time conn : ℕ)
      → length vec < 65536
      → prepare_message prime conn
          (send_vector prime vec info sid state block_idx blocks dimension time)
        ≡ some (record {
          sid = u32 sid;
          mixing_state_id = u16 state;
          sender_id = u32 info.server_id;
          block_idx = u16 block_idx;
          tot_num_blocks = u16 blocks;
          conn = conn;
          body = vec;
        })
  unfolding send_vector serialize_from_vec_zz_p
  prepare_message-send_vector vec info sid state block_idx blocks dimension time conn h =
      let count : u16 (length vec) ≡ length vec = omega arith in
      let start : Message = record {
        header = record {
          sid = u32 sid;
          sender_id = u32 info.server_id;
          mixing_state_id = u16 state;
          block_idx = u16 block_idx;
          tot_num_blocks = u16 blocks;
          dimension = u16 dimension;
          num_zz_p = u16 (length vec);
          size = 0;
          time = time;
        };
        body = [];
      } in
      let (rest, run, size) = deserialize-serialize start vec in
      let whole : take (u16 (length vec)) vec ≡ vec = take_all vec _ (omega arith) in
      let read : deserialize_to_vec_zz_p prime (serialize_from_vec_zz_p prime start vec)
          ≡ some (vec, rest) =
        run ∙ ap (λ (xs : List A). some (xs, rest)) whole in
      let (e0, e1, e2, e3, e4, e5) = serialize_all-header start vec in
      prepare_message-body (serialize_from_vec_zz_p prime start vec) rest vec conn read
        (omega arith)
      ∙ cc
