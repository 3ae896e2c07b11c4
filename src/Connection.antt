-- ===== src/Connection.antt =====
-- network_connection.hpp: the sending and the receiving end of a connection, as the handlers that
-- asio calls. The stream between the two ends is the list of the bytes that were written and not
-- yet read. `async_read` calls its handler when all the bytes asked for have come, `async_write`
-- when all are written; either may fail, a write after some of its bytes.
pub mod Frames
mod Steps
mod Delivery
pub mod Received
mod Busy
mod Liveness
mod Messages
mod Work
pub mod Samples
mod Tests
use ab_prototype.Prelude.{
  ℕ, zero, suc, ◌+◌, ◌-◌, ◌≡◌, Bool, true, false, ◌||◌, Option, some, none, List, [], ◌∷◌, ◌++◌,
  length, take, drop, ltb, leb, if◌then◌else◌, guard, ◌>>=◌, ◌>>◌,
}
use ab_prototype.Message.{MessageHeader, Message, header_size}
use ab_prototype.Queue.{AsyncQueue, front, push_back, is_empty, pop_front}

-- The bytes of a header in memory, which both ends lay out in the same way.
pub record HeaderBytes : Type 0 where
  pub encode : MessageHeader → List ℕ
  pub decode : List ℕ → MessageHeader
  pub length-encode : (h : MessageHeader) → length (encode h) ≡ header_size
  pub decode-encode : (h : MessageHeader) → decode (encode h) ≡ h

-- The write, and the read, that asio has not completed yet.
pub data Writing : Type 0 where
  not_writing writing_header writing_body write_failed : Writing

pub data Reading : Type 0 where
  reading_header reading_body read_failed : Reading

-- One direction of a connection: the fields of its sending end, the calls of `write_header` that
-- are posted, the bytes on their way, the fields of its receiving end, and the messages that were
-- taken out of the incoming queue.
pub record Link : Type 0 where
  pub outgoing_queue : AsyncQueue Message
  pub already_writing : Bool
  pub writing : Writing
  pub posted : ℕ
  pub wire : List ℕ
  pub reading : Reading
  pub temp_msg : Message
  pub incoming_queue : AsyncQueue Message
  pub taken : List Message

unfoldable pub write_header : Link → Link
unfolding is_empty
write_header l =
    if l.already_writing || is_empty l.outgoing_queue
    then l
    else record l { already_writing = true; writing = writing_header }

unfoldable pub send_message : Message → Link → Link
unfolding push_back
send_message msg l = record l {
  outgoing_queue = push_back msg l.outgoing_queue;
  posted = suc l.posted;
}

-- `pop_front`, the flag, and `write_header` again.
unfoldable pub finish_message : Link → Option Link
unfolding write_header pop_front
finish_message l = do
  (msg, queue) ← pop_front l.outgoing_queue
  some (
      write_header
        (record l { outgoing_queue = queue; already_writing = false; writing = not_writing }))

-- The buffer of the write has `header.size` bytes, which the body must have.
unfoldable pub write_body : Link → Option Link
unfolding front
write_body l = do
  msg ← front l.outgoing_queue
  guard (leb msg.header.size (length msg.body))
  some (record l { writing = writing_body })

unfoldable pub add_to_incoming_queue : Link → Link
unfolding push_back
add_to_incoming_queue l = record l {
  incoming_queue = push_back l.temp_msg l.incoming_queue;
  reading = reading_header;
}

-- What happens at one of the ends.
pub data Event : Type 0 where
  posted_runs header_written body_written header_read body_read message_taken : Event
  write_fails : ℕ → Event
  read_fails : Event

module _ ⦃b : HeaderBytes⦄ where
  unfoldable pub on_header_written : Link → Option Link
  unfolding front write_body finish_message
  on_header_written l = do
    msg ← front l.outgoing_queue
    let l1 = record l { wire = l.wire ++ b.encode msg.header }
    (let body = write_body l1 in
        let finished = finish_message l1 in if ltb 0 msg.header.size then body else finished)

  unfoldable pub on_body_written : Link → Option Link
  unfolding front finish_message
  on_body_written l = do
    msg ← front l.outgoing_queue
    finish_message (record l { wire = l.wire ++ take msg.header.size msg.body })

  -- A body that is left over from an earlier message stays where the size is 0.
  unfoldable pub on_header_read : Link → Option Link
  unfolding add_to_incoming_queue
  on_header_read l = do
    guard (leb header_size (length l.wire))
    let header = b.decode (take header_size l.wire)
    let l1 = record l {
      wire = drop header_size l.wire;
      temp_msg = record (l.temp_msg) { header = header };
    }
    some (
        if ltb 0 header.size
        then record l1 { reading = reading_body }
        else add_to_incoming_queue l1)

  unfoldable pub on_body_read : Link → Option Link
  unfolding add_to_incoming_queue
  on_body_read l = do
    let size = l.temp_msg.header.size
    guard (leb size (length l.wire))
    some (
        add_to_incoming_queue (record l {
          wire = drop size l.wire;
          temp_msg = record (l.temp_msg) { body = take size l.wire };
        }))

  -- The bytes of the write that is going on.
  unfoldable pub write_buffer : Writing → AsyncQueue Message → List ℕ
  unfolding front
  write_buffer not_writing queue = []
  write_buffer writing_header queue = elim (front queue) [
    | none ↦ []
    | some msg ↦ b.encode msg.header
  ]
  write_buffer writing_body queue = elim (front queue) [
    | none ↦ []
    | some msg ↦ take msg.header.size msg.body
  ]
  write_buffer write_failed queue = []

  -- The handlers with an error close the socket.
  unfoldable pub on_write_failed : ℕ → Link → Link
  unfolding write_buffer
  on_write_failed sent l = record l {
    wire = l.wire ++ take sent (write_buffer l.writing l.outgoing_queue);
    writing = write_failed;
  }

  -- An event at a link; `none` where it cannot happen.
  unfoldable pub on_event : Event → Link → Option Link
  unfolding write_header on_header_written on_body_written on_header_read on_body_read
      on_write_failed pop_front
  on_event posted_runs l = elim l.posted [
    | zero ↦ none
    | suc n ↦ some (write_header (record l { posted = n }))
  ]
  on_event header_written l = elim l.writing [ writing_header ↦ on_header_written l | _ ↦ none ]
  on_event body_written l = elim l.writing [ writing_body ↦ on_body_written l | _ ↦ none ]
  on_event header_read l = elim l.reading [ reading_header ↦ on_header_read l | _ ↦ none ]
  on_event body_read l = elim l.reading [ reading_body ↦ on_body_read l | _ ↦ none ]
  on_event message_taken l = do
    (msg, queue) ← pop_front l.incoming_queue
    some (record l { incoming_queue = queue; taken = l.taken ++ (msg ∷ []) })
  on_event (write_fails sent) l = elim l.writing [
    | writing_header ↦ some (on_write_failed sent l)
    | writing_body ↦ some (on_write_failed sent l)
    | _ ↦ none
  ]
  on_event read_fails l = some (record l { reading = read_failed })

-- A link that was just connected: the read of a header is posted, and nothing was sent.
unfoldable pub connected_link : Message → Link
connected_link temp = record {
  outgoing_queue = record { deq_queue = [] };
  already_writing = false;
  writing = not_writing;
  posted = 0;
  wire = [];
  reading = reading_header;
  temp_msg = temp;
  incoming_queue = record { deq_queue = [] };
  taken = [];
}

-- The links that are reached while `sent` is sent, with the events of both ends in any order.
pub data Reach ⦃b : HeaderBytes⦄ : List Message → Link → Type 0 where
  fresh : (temp : Message) → Reach [] (connected_link temp)
  sends_message :
      {sent : List Message} {l : Link} (msg : Message)
      → Reach sent l
      → Reach (sent ++ (msg ∷ [])) (send_message msg l)
  moves :
      {sent : List Message} {l l' : Link} (e : Event)
      → Reach sent l
      → on_event e l ≡ some l'
      → Reach sent l'
