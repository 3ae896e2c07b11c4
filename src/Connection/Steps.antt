-- ===== src/Connection/Steps.antt =====
-- What each event of network_connection.hpp changes, read off its result.
use ab_prototype.Prelude.{
  ℕ, suc, ◌-◌, ◌≤◌, ◌<◌, ◌≡◌, ◌≢◌, true, false, some, List, [], ◌∷◌, ◌++◌, length, take, drop,
  take_all, AllOf, >>=-eq-some, ◌⊎◌, arith,
}
use ab_prototype.Message.{Message, header_size}
use ab_prototype.Queue.{pop_front-inv, front-inv, front, pop_front, is_empty}
use ab_prototype.Connection.{
  HeaderBytes, Link, not_writing, writing_header, writing_body, reading_header, reading_body,
  add_to_incoming_queue, posted_runs, header_written, body_written, header_read, body_read,
  message_taken, write_fails, on_event, on_header_written, on_body_written, on_header_read,
  on_body_read, on_write_failed, write_header, finish_message, write_body,
}
use ab_prototype.Connection.Frames.{IsFramed}

module _ ⦃b : HeaderBytes⦄ where
  pub write_header-cases :
      (l : Link)
      → (write_header l ≡ l)
        ⊎ ((l.already_writing ≡ false)
            × (write_header l ≡ record l { already_writing = true; writing = writing_header }))
  unfolding write_header is_empty
  write_header-cases l = ground arith

  pub finish_message-inv :
      (l l' : Link)
      → finish_message l ≡ some l'
      → (msg : Message) × (others : List Message) × (l.outgoing_queue.deq_queue ≡ msg ∷ others)
        × (l'
            ≡ write_header (record l {
              outgoing_queue = record { deq_queue = others };
              already_writing = false;
              writing = not_writing;
            }))
  unfolding finish_message pop_front
  finish_message-inv l l' e =
      let ((msg, queue), popped, eq) = >>=-eq-some (pop_front l.outgoing_queue) _ e in
      (msg, queue.deq_queue, pop_front-inv l.outgoing_queue queue msg popped, cc)

  pub header_written-inv :
      (l l' : Link)
      → on_event header_written l ≡ some l'
      → (l.writing ≡ writing_header) × (on_header_written l ≡ some l')
  unfolding on_event
  header_written-inv l l' e = ground arith

  pub body_written-inv :
      (l l' : Link)
      → on_event body_written l ≡ some l'
      → (l.writing ≡ writing_body) × (on_body_written l ≡ some l')
  unfolding on_event
  body_written-inv l l' e = ground arith

  pub header_read-inv :
      (l l' : Link)
      → on_event header_read l ≡ some l'
      → (l.reading ≡ reading_header) × (on_header_read l ≡ some l')
  unfolding on_event
  header_read-inv l l' e = ground arith

  pub body_read-inv :
      (l l' : Link)
      → on_event body_read l ≡ some l'
      → (l.reading ≡ reading_body) × (on_body_read l ≡ some l')
  unfolding on_event
  body_read-inv l l' e = ground arith

  pub posted_runs-inv :
      (l l' : Link)
      → on_event posted_runs l ≡ some l'
      → (n : ℕ) × (l.posted ≡ suc n) × (l' ≡ write_header (record l { posted = n }))
  unfolding on_event
  posted_runs-inv l l' e = (l.posted - 1, ground arith, ground arith)

  pub write_fails-inv :
      (k : ℕ) (l l' : Link) → on_event (write_fails k) l ≡ some l' → (l' ≡ on_write_failed k l)
  unfolding on_event
  write_fails-inv k l l' e = ground arith

  -- A write fails only while one is going on.
  pub write_fails-busy :
      (k : ℕ) (l l' : Link) → on_event (write_fails k) l ≡ some l' → l.writing ≢ not_writing
  unfolding on_event
  write_fails-busy k l l' e = λ w. ground arith

  pub message_taken-inv :
      (l l' : Link)
      → on_event message_taken l ≡ some l'
      → (msg : Message) × (others : List Message) × (l.incoming_queue.deq_queue ≡ msg ∷ others)
        × (l' ≡ record l {
          incoming_queue = record { deq_queue = others };
          taken = l.taken ++ (msg ∷ []);
        })
  unfolding on_event pop_front
  message_taken-inv l l' e =
      let ((msg, queue), popped, eq) = >>=-eq-some (pop_front l.incoming_queue) _ e in
      (msg, queue.deq_queue, pop_front-inv l.incoming_queue queue msg popped, cc)

  pub on_header_written-inv :
      (l l' : Link)
      → on_header_written l ≡ some l'
      → AllOf IsFramed l.outgoing_queue.deq_queue
      → (msg : Message) × (others : List Message) × (l.outgoing_queue.deq_queue ≡ msg ∷ others)
        × (l' ≡ record l { wire = l.wire ++ b.encode msg.header; writing = writing_body })
  unfolding on_header_written front write_body finish_message
  on_header_written-inv l l' e framed =
      let (msg, first, eq) = >>=-eq-some (front l.outgoing_queue) _ e in
      let (others, q) = front-inv l.outgoing_queue.deq_queue msg first in
      let framed' : AllOf IsFramed (msg ∷ others) = rw q at framed in
      (msg, others, q, ground (arith, framed'.0.positive))

  pub on_header_read-inv :
      (l l' : Link)
      → on_header_read l ≡ some l'
      → (header_size ≤ length l.wire)
        × (0 < (b.decode (take header_size l.wire)).size
            → l' ≡ record l {
              wire = drop header_size l.wire;
              temp_msg = record (l.temp_msg) { header = b.decode (take header_size l.wire) };
              reading = reading_body;
            })
  unfolding on_header_read
  on_header_read-inv l l' e = ground arith

  pub on_body_read-inv :
      (l l' : Link)
      → on_body_read l ≡ some l'
      → (l.temp_msg.header.size ≤ length l.wire)
        × (l'
            ≡ add_to_incoming_queue (record l {
              wire = drop l.temp_msg.header.size l.wire;
              temp_msg = record (l.temp_msg) { body = take l.temp_msg.header.size l.wire };
            }))
  unfolding on_body_read
  on_body_read-inv l l' e = ground arith

  pub on_body_written-inv :
      (l l' : Link)
      → on_body_written l ≡ some l'
      → AllOf IsFramed l.outgoing_queue.deq_queue
      → (msg : Message) × (others : List Message) × (l.outgoing_queue.deq_queue ≡ msg ∷ others)
        × (l'
            ≡ write_header (record l {
              outgoing_queue = record { deq_queue = others };
              already_writing = false;
              writing = not_writing;
              wire = l.wire ++ msg.body;
            }))
  unfolding on_body_written
  on_body_written-inv l l' e framed =
      let (msg, first, eq) = >>=-eq-some (front l.outgoing_queue) _ e in
      let (others', q') = front-inv l.outgoing_queue.deq_queue msg first in
      let framed' : AllOf IsFramed (msg ∷ others') = rw q' at framed in
      let whole : take msg.header.size msg.body ≡ msg.body =
        take_all msg.body msg.header.size (omega (arith, framed'.0.size_lem)) in
      let eq' : finish_message (record l { wire = l.wire ++ msg.body }) ≡ some l' =
        rw whole at eq in
      let (m, others, q, done) =
        finish_message-inv (record l { wire = l.wire ++ msg.body }) l' eq' in
      (msg, others, cc, done)
