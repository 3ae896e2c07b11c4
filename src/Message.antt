-- ===== src/Message.antt =====
-- network_message.hpp: messages with a header and a body of bytes, into which vectors of `ZZ_p` are
-- serialized, and the operations of rm_client.hpp that build a message. The integers of NTL and
-- their conversion to bytes are a parameter with NTL's documented laws. The fields of the header
-- are unsigned integers of 16 and 32 bits, so what is stored in them wraps.
pub mod RoundTrip
pub mod Submit
pub mod Tests
use ab_prototype.Prelude.{
  ℕ, zero, suc, ◌+◌, ◌-◌, ◌%◌, ◌^◌, ◌<◌, ◌≡◌, ◌==◌, Option, some, List, [], ◌∷◌, ◌++◌, length, take,
  drop, leb, guard, ◌>>=◌, ◌>>◌,
}
use ab_prototype.RmCommon.{RmInfo}

-- The part of NTL that messages use: `conv<ZZ>` and `conv<ZZ_p>` between residues and integers,
-- `NumBytes`, and `BytesFromZZ` and `ZZFromBytes`, which write and read the low bytes.
pub record Bytes (A : Type 0) (prime : ℕ) : Type 0 where
  pub rep : A → ℕ
  pub of_zz : ℕ → A
  pub num_bytes : ℕ → ℕ
  pub bytes_from_zz : ℕ → ℕ → List ℕ
  pub zz_from_bytes : List ℕ → ℕ
  pub rep-lt : (a : A) → rep a < prime
  pub of_zz-rep : (a : A) → of_zz (rep a) ≡ a
  pub lt-num_bytes : (a : ℕ) → a < prime → a < 256 ^ num_bytes prime
  pub length-bytes_from_zz : (a n : ℕ) → length (bytes_from_zz a n) ≡ n
  pub zz_from_bytes-bytes_from_zz : (a n : ℕ) → a < 256 ^ n → zz_from_bytes (bytes_from_zz a n) ≡ a

pub record MessageHeader : Type 0 where
  pub sid : ℕ  -- uint32
  pub sender_id : ℕ  -- uint32
  pub mixing_state_id : ℕ  -- uint16
  pub block_idx : ℕ  -- uint16
  pub tot_num_blocks : ℕ  -- uint16
  pub dimension : ℕ  -- uint16
  pub num_zz_p : ℕ  -- uint16
  pub size : ℕ  -- uint32
  pub time : ℕ

pub record Message : Type 0 where
  pub header : MessageHeader
  pub body : List ℕ

abbrev pub u16 : ℕ → ℕ
u16 x = x % 65536

abbrev pub u32 : ℕ → ℕ
u32 x = x % 4294967296

-- `sizeof(message_header)` on x86-64.
abbrev pub header_size : ℕ
header_size = 32

-- The member function `size`.
unfoldable pub message_size : Message → ℕ
message_size msg = header_size + length msg.body

abbrev pub with_body : Message → List ℕ → ℕ → Message
with_body msg body size = record msg {
  header = record (msg.header) { size = u32 size };
  body = body;
}

module _ {A : Type 0} (prime : ℕ) ⦃b : Bytes A prime⦄ where
  unfoldable pub serialize_from_zz_p : Message → A → Message
  serialize_from_zz_p msg x =
      let body = msg.body ++ b.bytes_from_zz (b.rep x) (b.num_bytes prime) in
      with_body msg body (length body)

  -- The loop, from the last element to the first.
  unfoldable pub serialize_all : Message → List A → Message
  serialize_all msg [] = msg
  serialize_all msg (x ∷ xs) = serialize_from_zz_p (serialize_all msg xs) x

  unfoldable pub serialize_from_vec_zz_p : Message → List A → Message
  serialize_from_vec_zz_p msg input =
      serialize_all (record msg { header = record (msg.header) { num_zz_p = u16 (length input) } })
        input

  -- A body that is too short is read before its start: `none`.
  unfoldable pub deserialize_to_zz_p : Message → Option (A × Message)
  deserialize_to_zz_p msg = do
    let nbytes = b.num_bytes prime
    guard (leb nbytes (length msg.body))
    let i = length msg.body - nbytes
    let x = b.of_zz (b.zz_from_bytes (drop i msg.body))
    let rest = take i msg.body
    some (x, with_body msg rest (header_size + i))

  -- The loop, from the first element to the last.
  unfoldable pub deserialize_count : ℕ → Message → Option (List A × Message)
  deserialize_count zero msg = some ([], msg)
  deserialize_count (suc n) msg = do
    (x, msg1) ← deserialize_to_zz_p msg
    (xs, msg2) ← deserialize_count n msg1
    some (x ∷ xs, msg2)

  unfoldable pub deserialize_to_vec_zz_p : Message → Option (List A × Message)
  deserialize_to_vec_zz_p msg = deserialize_count msg.header.num_zz_p msg

  -- rm_client.hpp: the message that `send_vector` queues. Its fields are all set.
  unfoldable pub send_vector : List A → RmInfo → ℕ → ℕ → ℕ → ℕ → ℕ → ℕ → Message
  send_vector vec info in_sid in_state in_block_idx in_tot_num_blocks in_dimension time =
      serialize_from_vec_zz_p
        (record {
          header = record {
            sid = u32 in_sid;
            sender_id = u32 info.server_id;
            mixing_state_id = u16 in_state;
            block_idx = u16 in_block_idx;
            tot_num_blocks = u16 in_tot_num_blocks;
            dimension = u16 in_dimension;
            num_zz_p = u16 (length vec);
            size = 0;
            time = time;
          };
          body = [];
        })
        vec

  -- rm_client.hpp: the message that `submit_message` queues.
  unfoldable pub submit_message : List A → ℕ → ℕ → ℕ → Message
  submit_message vec sid my_id now =
      let msg =
        serialize_from_vec_zz_p
          (record {
            header = record {
              sid = u32 sid;
              sender_id = u32 my_id;
              mixing_state_id = 0;
              block_idx = 1;
              tot_num_blocks = 1;
              dimension = 1;
              num_zz_p = u16 (length vec);
              size = 0;
              time = now;
            };
            body = [];
          })
          vec in
      record msg { header = record (msg.header) { time = now } }

-- `deserialized_message`. The connection is known by a number.
pub record DeserializedMessage (A : Type 0) : Type 0 where
  pub sid : ℕ
  pub mixing_state_id : ℕ
  pub sender_id : ℕ
  pub block_idx : ℕ
  pub tot_num_blocks : ℕ
  pub conn : ℕ
  pub body : List A

-- network_server.hpp: what `prepare_message` adds to the queue of deserialized messages, with the
-- assertion that the body has the length that the header says.
unfoldable pub prepare_message :
    {A : Type 0} (prime : ℕ) ⦃b : Bytes A prime⦄ → ℕ → Message → Option (DeserializedMessage A)
prepare_message prime conn msg = do
  (body, rest) ← deserialize_to_vec_zz_p prime msg
  guard (length body == rest.header.num_zz_p)
  some (record {
    sid = msg.header.sid;
    mixing_state_id = msg.header.mixing_state_id;
    sender_id = msg.header.sender_id;
    block_idx = msg.header.block_idx;
    tot_num_blocks = msg.header.tot_num_blocks;
    conn = conn;
    body = body;
  })
