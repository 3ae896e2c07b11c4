-- ===== src/Connection/Received.antt =====
-- The receiving end of a connection of network_connection.hpp, and the messages that come out of it.
use ab_prototype.Prelude.{
  ℕ, ◌≤◌, ◌<◌, ◌≡◌, refl, sym, ap, subst, ◌∙◌, some, List, [], ◌∷◌, ◌++◌, length, take, drop,
  append_assoc, AllOf, AllOf-append_left, AllOf-append_right, arith,
}
use mathlib.Core.Path.{ap₂}
use ab_prototype.Message.{Message, header_size}
use ab_prototype.Queue.{push_back}
use ab_prototype.Connection.{
  HeaderBytes, Link, Reach, fresh, sends_message, moves, connected_link, reading_body,
  add_to_incoming_queue, Event, posted_runs, header_written, body_written, header_read, body_read,
  message_taken, write_fails, read_fails, on_event,
}
use ab_prototype.Connection.Steps.{
  header_read-inv, body_read-inv, on_header_read-inv, on_body_read-inv,
}
use ab_prototype.Connection.Delivery.{
  send_message-IsFaithful, posted_runs-IsFaithful, header_written-IsFaithful,
  body_written-IsFaithful, write_fails-IsFaithful, message_taken-IsFaithful, read_fails-IsFaithful,
}
use ab_prototype.Connection.Frames.{
  IsFramed, IsFaithful, Reads, Writes, frame, frames, take_prefix, wire-nil,
}

module _ ⦃b : HeaderBytes⦄ where
  -- A whole header has come, so a message is still to be received, and it is its header.
  pub next_header :
      (wire future : List ℕ) (rest : List Message)
      → wire ++ future ≡ frames rest
      → header_size ≤ length wire
      → (msg : Message) × (others : List Message) × (rest ≡ msg ∷ others)
        × (b.decode (take header_size wire) ≡ msg.header)
        × (drop header_size wire ++ future ≡ msg.body ++ frames others)
  unfolding frames frame
  next_header wire future [] e h = absurd (omega (arith, wire-nil wire future e))
  next_header wire future (msg ∷ others) e h =
      let size = b.length-encode msg.header in
      let (t, d) =
        take_prefix (b.encode msg.header) (msg.body ++ frames others) wire future
          (e ∙ append_assoc (b.encode msg.header) msg.body (frames others)) (omega (arith, size)) in
      let t' : take header_size wire ≡ b.encode msg.header = rw size at t in
      let d' : drop header_size wire ++ future ≡ msg.body ++ frames others = rw size at d in
      (msg, others, refl, ap b.decode t' ∙ b.decode-encode msg.header, d')

  header_read-IsFaithful :
      (sent : List Message) (l l' : Link)
      → IsFaithful sent l
      → on_event header_read l ≡ some l'
      → IsFaithful sent l'
  unfolding Reads
  header_read-IsFaithful sent l l' h e =
      let (r, e') = header_read-inv l l' e in
      let (enough, with_body) = on_header_read-inv l l' e' in
      let bytes : l.wire ++ h.future ≡ frames h.rest = rw r at h.reads in
      let (msg, others, q, decoded, left) = next_header l.wire h.future h.rest bytes enough in
      let framed : AllOf IsFramed (msg ∷ others) = rw q at h.framed_rest in
      let positive : 0 < (b.decode (take header_size l.wire)).size = rw decoded framed.0.positive in
      subst (IsFaithful sent) (sym (with_body positive)) (record {
        rest = h.rest;
        future = h.future;
        split = h.split;
        reads = (msg, others, q, decoded, left);
        writes = h.writes;
        idle = h.idle;
        framed_rest = h.framed_rest;
        framed_queue = h.framed_queue;
      })

  body_read-IsFaithful :
      (sent : List Message) (l l' : Link)
      → IsFaithful sent l
      → on_event body_read l ≡ some l'
      → IsFaithful sent l'
  unfolding Reads add_to_incoming_queue push_back
  body_read-IsFaithful sent l l' h e =
      let (r, e') = body_read-inv l l' e in
      let (enough, eq) = on_body_read-inv l l' e' in
      let (msg, others, q, same, bytes) : Reads reading_body l.temp_msg h.rest
          (l.wire ++ h.future) =
        rw r at h.reads in
      let framed : AllOf IsFramed (msg ∷ others) = rw q at h.framed_rest in
      let size : l.temp_msg.header.size ≡ length msg.body =
        ap (λ t. t.size) same ∙ framed.0.size_lem in
      let (t, d) =
        take_prefix msg.body (frames others) l.wire h.future bytes (omega (arith, size)) in
      let t' : take l.temp_msg.header.size l.wire ≡ msg.body = ap (λ n. take n l.wire) size ∙ t in
      let d' : drop l.temp_msg.header.size l.wire ++ h.future ≡ frames others =
        ap (λ n. drop n l.wire ++ h.future) size ∙ d in
      let whole : record (l.temp_msg) { body = take l.temp_msg.header.size l.wire } ≡ msg =
        ap₂ (λ header body. record { header = header; body = body }) same t' in
      subst (IsFaithful sent) (sym eq) (record {
        rest = others;
        future = h.future;
        split =
            h.split
            ∙ ap (λ t. (l.taken ++ l.incoming_queue.deq_queue) ++ t) q
            ∙ sym (append_assoc (l.taken ++ l.incoming_queue.deq_queue) (msg ∷ []) others)
            ∙ ap (λ t. t ++ others) (append_assoc l.taken l.incoming_queue.deq_queue (msg ∷ []))
            ∙ ap (λ m. (l.taken ++ (l.incoming_queue.deq_queue ++ (m ∷ []))) ++ others) (sym whole);
        reads = d';
        writes = h.writes;
        idle = h.idle;
        framed_rest = framed.1;
        framed_queue = h.framed_queue;
      })

  on_event-IsFaithful :
      (e : Event) (sent : List Message) (l l' : Link)
      → IsFaithful sent l
      → on_event e l ≡ some l'
      → IsFaithful sent l'
  on_event-IsFaithful posted_runs = posted_runs-IsFaithful
  on_event-IsFaithful header_written = header_written-IsFaithful
  on_event-IsFaithful body_written = body_written-IsFaithful
  on_event-IsFaithful header_read = header_read-IsFaithful
  on_event-IsFaithful body_read = body_read-IsFaithful
  on_event-IsFaithful message_taken = message_taken-IsFaithful
  on_event-IsFaithful (write_fails k) = write_fails-IsFaithful k
  on_event-IsFaithful read_fails = read_fails-IsFaithful

  connected_link-IsFaithful : (temp : Message) → IsFaithful [] (connected_link temp)
  unfolding connected_link Reads Writes frames
  connected_link-IsFaithful temp = record {
    rest = [];
    future = [];
    split = refl;
    reads = refl;
    writes = refl;
    idle = λ free. refl;
    framed_rest = tt;
    framed_queue = tt;
  }

  pub Reach-IsFaithful :
      {sent : List Message} {l : Link} → Reach sent l → AllOf IsFramed sent → IsFaithful sent l
  Reach-IsFaithful (fresh temp) h = connected_link-IsFaithful temp
  Reach-IsFaithful (sends_message {sent} {l} msg r) h =
      send_message-IsFaithful msg sent l (AllOf-append_right IsFramed sent (msg ∷ []) h).0
        (Reach-IsFaithful r (AllOf-append_left IsFramed sent (msg ∷ []) h))
  Reach-IsFaithful (moves {sent} {l} {l'} e r step) h =
      on_event-IsFaithful e sent l l' (Reach-IsFaithful r h) step

  -- If every message that is sent has the size of its body in its header, and a body that is not
  -- empty, then, however the events of the two ends interleave with each other and with what is
  -- sent, and even if a write or a read fails, the messages that the receiving end took out of
  -- its queue, and then those still in it, are the first ones that were sent, in their order.
  pub taken-incoming_queue :
      {sent : List Message} {l : Link}
      → Reach sent l
      → AllOf IsFramed sent
      → (rest : List Message) × (sent ≡ (l.taken ++ l.incoming_queue.deq_queue) ++ rest)
  taken-incoming_queue r h = let faithful = Reach-IsFaithful r h in (faithful.rest, faithful.split)
