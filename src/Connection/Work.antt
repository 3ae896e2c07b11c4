-- ===== src/Connection/Work.antt =====
-- The handlers of network_connection.hpp come to an end: every event that is not a failure takes
-- off of the work that is left until all that was sent is taken.
use ab_prototype.Prelude.{
  ℕ, zero, suc, ◌+◌, ◌*◌, ◌≤◌, ◌<◌, ◌≡◌, false, some, List, [], ◌∷◌, ◌++◌, length, length-append,
  take, drop, AllOf, inl, inr, arith,
}
use ab_prototype.Message.{Message, header_size}
use ab_prototype.Queue.{push_back}
use ab_prototype.Connection.{
  HeaderBytes, Link, Reach, Writing, not_writing, writing_header, writing_body, write_failed,
  reading_body, Event, posted_runs, header_written, body_written, header_read, body_read,
  message_taken, on_event, add_to_incoming_queue,
}
use ab_prototype.Connection.Steps.{
  write_header-cases, header_written-inv, body_written-inv, header_read-inv, body_read-inv,
  posted_runs-inv, message_taken-inv, on_header_written-inv, on_body_written-inv,
  on_header_read-inv, on_body_read-inv,
}
use ab_prototype.Connection.Frames.{IsFramed, IsFaithful, Reads, frames}
use ab_prototype.Connection.Received.{Reach-IsFaithful, next_header}
use ab_prototype.Connection.Liveness.{
  IsSuccess, posted_runs_lem, header_written_lem, body_written_lem, header_read_lem, body_read_lem,
  message_taken_lem,
}

unfoldable pub queue_work : List Message → ℕ
queue_work [] = 0
queue_work (msg ∷ queue) = 2 * header_size + 2 * length msg.body + 2 + queue_work queue

-- The work that is left of the messages in the outgoing queue.
unfoldable pub writing_work : Writing → List Message → ℕ
unfolding queue_work
writing_work not_writing queue = queue_work queue
writing_work writing_header queue = queue_work queue
writing_work writing_body [] = 0
writing_work writing_body (msg ∷ queue) = 2 * length msg.body + 1 + queue_work queue
writing_work write_failed queue = 0

-- The events that are still to come, at most.
unfoldable pub work : Link → ℕ
unfolding writing_work
work l =
    l.posted
    + writing_work l.writing l.outgoing_queue.deq_queue
    + 2 * length l.wire
    + length l.incoming_queue.deq_queue

length-drop :
    {A : Type 0} (n : ℕ) (xs : List A) → n ≤ length xs → length (drop n xs) + n ≡ length xs
length-drop zero xs h = omega arith
length-drop (suc n) [] h = absurd (omega arith)
length-drop (suc n) (x ∷ xs) h = omega (arith, length-drop n xs (omega arith))

module _ ⦃b : HeaderBytes⦄ (sent : List Message) (l l' : Link) (f : IsFaithful sent l) where
  posted_runs-work : on_event posted_runs l ≡ some l' → work l' < work l
  unfolding work
  posted_runs-work e =
      let (n, some_posted, eq) = posted_runs-inv l l' e in
      elim (write_header-cases (record l { posted = n })) [
        | inl same ↦ rw (eq, same, some_posted) (omega arith)
        | inr (free, starts) ↦ rw (eq, starts, some_posted, f.idle free) (omega arith)
      ]

  header_written-work : on_event header_written l ≡ some l' → work l' < work l
  unfolding work writing_work queue_work
  header_written-work e =
      let (w, e') = header_written-inv l l' e in
      let (msg, others, q, eq) = on_header_written-inv l l' e' f.framed_queue in
      rw (eq, w, q)
        (omega (arith, length-append l.wire (b.encode msg.header), b.length-encode msg.header))

  body_written-work : on_event body_written l ≡ some l' → work l' < work l
  unfolding work writing_work queue_work
  body_written-work e =
      let (w, e') = body_written-inv l l' e in
      let (msg, others, q, eq) = on_body_written-inv l l' e' f.framed_queue in
      elim (write_header-cases (record l {
        outgoing_queue = record { deq_queue = others };
        already_writing = false;
        writing = not_writing;
        wire = l.wire ++ msg.body;
      })) [
        | inl same ↦ rw (eq, same, w, q) (omega (arith, length-append l.wire msg.body))
        | inr (free, starts) ↦ rw (eq, starts, w, q) (omega (arith, length-append l.wire msg.body))
      ]

  header_read-work : on_event header_read l ≡ some l' → work l' < work l
  unfolding work Reads
  header_read-work e =
      let (r, e') = header_read-inv l l' e in
      let (enough, with_body) = on_header_read-inv l l' e' in
      let bytes : l.wire ++ f.future ≡ frames f.rest = rw r at f.reads in
      let (msg, others, q, decoded, left) = next_header l.wire f.future f.rest bytes enough in
      let framed : AllOf IsFramed (msg ∷ others) = rw q at f.framed_rest in
      let positive : 0 < (b.decode (take header_size l.wire)).size = rw decoded framed.0.positive in
      rw (with_body positive) (omega (arith, length-drop header_size l.wire enough))

  body_read-work : on_event body_read l ≡ some l' → work l' < work l
  unfolding work Reads add_to_incoming_queue push_back
  body_read-work e =
      let (r, e') = body_read-inv l l' e in
      let (enough, eq) = on_body_read-inv l l' e' in
      let (msg, others, q, same, bytes) : Reads reading_body l.temp_msg f.rest
          (l.wire ++ f.future) =
        rw r at f.reads in
      let framed : AllOf IsFramed (msg ∷ others) = rw q at f.framed_rest in
      let positive : 0 < l.temp_msg.header.size = rw same framed.0.positive in
      let whole = record (l.temp_msg) { body = take l.temp_msg.header.size l.wire } in
      rw eq (
        omega (
          arith,
          positive,
          length-drop l.temp_msg.header.size l.wire enough,
          length-append l.incoming_queue.deq_queue (whole ∷ []),
        ))

  message_taken-work : on_event message_taken l ≡ some l' → work l' < work l
  unfolding work
  message_taken-work e =
      let (msg, others, q, eq) = message_taken-inv l l' e in rw (eq, q) (omega arith)

module _ ⦃b : HeaderBytes⦄ where
  -- If every message that is sent has the size of its body in its header, and a body that is not
  -- empty, then every event that is not a failure makes `work` smaller, so in whatever order the
  -- handlers run, without further messages there are at most `work` of them.
  pub work-on_event :
      {sent : List Message} {l l' : Link} {e : Event}
      → Reach sent l
      → AllOf IsFramed sent
      → IsSuccess e
      → on_event e l ≡ some l'
      → work l' < work l
  work-on_event {sent} {l} {l'} reach framed posted_runs_lem step =
      posted_runs-work sent l l' (Reach-IsFaithful reach framed) step
  work-on_event {sent} {l} {l'} reach framed header_written_lem step =
      header_written-work sent l l' (Reach-IsFaithful reach framed) step
  work-on_event {sent} {l} {l'} reach framed body_written_lem step =
      body_written-work sent l l' (Reach-IsFaithful reach framed) step
  work-on_event {sent} {l} {l'} reach framed header_read_lem step =
      header_read-work sent l l' (Reach-IsFaithful reach framed) step
  work-on_event {sent} {l} {l'} reach framed body_read_lem step =
      body_read-work sent l l' (Reach-IsFaithful reach framed) step
  work-on_event {sent} {l} {l'} reach framed message_taken_lem step =
      message_taken-work sent l l' (Reach-IsFaithful reach framed) step
